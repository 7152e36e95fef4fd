-- ===== src/Bench/Examples.antt =====
-- The theorems on homa-bench at work on concrete samples, payloads and options.
use mac_homa.Common.{
  ℕ, ◌+◌, ◌-◌, ◌≤◌, ◌≡◌, ◌↔◌, refl, List, [], ◌∷◌, Option, none, some, length, map, arith,
}
use mac_homa.Wire.{ok}
use mac_homa.Endpoint.Defaults.{ℤ, pos}
use mac_homa.Bench.Latency.{Summary, latency_summary, quantile, sort, insert}
use mac_homa.Bench.Quantiles.{IsQuantile, latency_summary-IsQuantile}
use mac_homa.Bench.Tcp.{Failure, closed, stream_ended, serve_connection}
use mac_homa.Bench.Echo.{frames, call_all, call_all-serve_connection, serve_connection_closes}
use mac_homa.Bench.Sizes.{split, parse_sizes}
use mac_homa.Bench.Accepted.{IsAccepted, parse_sizes-eq-some_iff}
use mac_homa.Bench.Client.{
  Transport, Exchanged, replies, Options, Measurement, passed, homa, tcp, client, round_loop,
  payload_loop, transport_loop, measure, warm_loop, sample_loop, summarize, checked_call,
  payload_from,
}
use mac_homa.Bench.Passes.{client_passes}
use mac_homa.Bench.Report.{item_of, round_plan, IsReport}
use mac_homa.Bench.Plan.{client-IsPlanned}

latency_summary-IsQuantile_example :
    (s : Summary) × (latency_summary (30 ∷ 10 ∷ 20 ∷ []) ≡ ok s)
    × IsQuantile 50 s.p50 (30 ∷ 10 ∷ 20 ∷ [])
    × IsQuantile 95 s.p95 (30 ∷ 10 ∷ 20 ∷ [])
    × IsQuantile 99 s.p99 (30 ∷ 10 ∷ 20 ∷ [])
    × IsQuantile 100 s.maximum (30 ∷ 10 ∷ 20 ∷ [])
latency_summary-IsQuantile_example = latency_summary-IsQuantile (30 ∷ 10 ∷ 20 ∷ []) (omega arith)

-- A connection that takes every frame whole.
abbrev open_connection : List ℕ → ℕ × Option ℕ
open_connection f = (length f, none)

call_all-serve_connection_example :
    (call_all open_connection
        ((1 ∷ 2 ∷ []) ∷ (3 ∷ []) ∷ [])
        (serve_connection open_connection (frames ((1 ∷ 2 ∷ []) ∷ (3 ∷ []) ∷ []))).0
      ≡ some ((1 ∷ 2 ∷ []) ∷ (3 ∷ []) ∷ []))
    × ((serve_connection open_connection (frames ((1 ∷ 2 ∷ []) ∷ (3 ∷ []) ∷ []))).1
        ≡ closed stream_ended)
call_all-serve_connection_example =
    call_all-serve_connection open_connection open_connection ((1 ∷ 2 ∷ []) ∷ (3 ∷ []) ∷ [])
      (λ f. refl) (λ f. refl) ((omega arith, omega arith), ((omega arith, omega arith), record {}))

-- A payload of one byte, and then a length of 0.
serve_connection_closes_example :
    (e : Failure) × ((serve_connection open_connection (0 ∷ 0 ∷ 0 ∷ 1 ∷ 9 ∷ 0 ∷ 0 ∷ 0 ∷ 0 ∷ [])).1
      ≡ closed e)
serve_connection_closes_example =
    serve_connection_closes open_connection (0 ∷ 0 ∷ 0 ∷ 1 ∷ 9 ∷ 0 ∷ 0 ∷ 0 ∷ 0 ∷ [])

-- A part of one digit.
abbrev digit : List ℕ → Option ℤ
digit (c ∷ []) = some (pos (c - 48))
digit _ = none

-- "6,4"
parse_sizes-eq-some_iff_example : (parse_sizes digit (54 ∷ 44 ∷ 52 ∷ []) ≡ some (6 ∷ 4 ∷ [])) ↔ (
    (length (split [] (54 ∷ 44 ∷ 52 ∷ [])) ≤ 32)
    × IsAccepted digit (split [] (54 ∷ 44 ∷ 52 ∷ [])) [] (6 ∷ 4 ∷ []))
parse_sizes-eq-some_iff_example = parse_sizes-eq-some_iff digit (54 ∷ 44 ∷ 52 ∷ []) (6 ∷ 4 ∷ [])

-- Every exchange echoes, the later the slower.
abbrev echoes : ℕ → Transport → List ℕ → Exchanged
echoes k t payload = replies payload (100 + k)

abbrev short_run : Options
short_run = record { sizes = 2 ∷ []; warmup = 1; small_samples = 2; large_samples = 1; rounds = 1 }

abbrev measured : ℕ → Transport → List ℕ → Summary → Measurement
measured order t samples s = record {
  round = 1;
  order = order;
  transport = t;
  bytes = 2;
  count = 2;
  payload_bytes = 8;
  summary = s;
  samples = samples;
}

abbrev found : List Measurement
found =
    measured 1 homa (101 ∷ 102 ∷ []) (record { p50 = 101; p95 = 102; p99 = 102; maximum = 102 })
    ∷ measured 2 tcp (104 ∷ 105 ∷ []) (record { p50 = 104; p95 = 105; p99 = 105; maximum = 105 })
    ∷ []

client-short_run : client echoes short_run ≡ passed (6, found)
unfolding client round_loop payload_loop transport_loop measure warm_loop sample_loop summarize
    checked_call payload_from latency_summary quantile sort insert
client-short_run = refl

client-IsPlanned_example :
    (map item_of found ≡ round_plan short_run 1 1 homa tcp) × IsReport echoes 1 0 found 6
client-IsPlanned_example = client-IsPlanned echoes short_run 6 found client-short_run

client_passes_example :
    (calls : ℕ) × (results : List Measurement) × (client echoes short_run ≡ passed (calls, results))
client_passes_example =
    client_passes echoes short_run (λ k t payload. (100 + k, refl)) (omega arith) (omega arith)
