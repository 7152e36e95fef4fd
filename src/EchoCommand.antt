-- ===== src/EchoCommand.antt =====
-- cmd/homa-echo/main.go: the calls of `run` and of `selftest`, and the figures of the report in
-- nanoseconds. What a call of the endpoint gives is a function of its number.
pub mod Verified
pub mod Examples
use mac_homa.Common.{
  ℕ, zero, suc, ◌+◌, ◌-◌, ◌*◌, ◌/◌, ◌%◌, Bool, true, false, not, ltb, ◌||◌, if◌then◌else◌, List, [],
  ◌∷◌, ◌++◌, none, some, length, get_elem?,
}
use mac_homa.Relay.Packet.{equal}
use mac_homa.Bench.Latency.{sort}
use mac_homa.Bench.Client.{
  Exchanged, breaks, replies, Outcome, call_failed, echo_mismatch, no_samples, passed, ◌>>=◌,
}

-- The bytes `byte(i*17 + j*31)` from `j` on.
unfoldable pub payload : ℕ → ℕ → ℕ → List ℕ
payload i j zero = []
payload i j (suc n) = (i * 17 + j * 31) % 256 ∷ payload i (suc j) n

pub record Report : Type 0 where
  pub calls : ℕ
  pub bytes : ℕ
  pub median : ℕ
  pub maximum : ℕ

-- `latencies[(len(latencies)-1)/2]` and the last, of the sorted latencies.
unfoldable pub report_of : ℕ → List ℕ → Outcome Report
report_of size latencies = elim (get_elem? latencies ((length latencies - 1) / 2)) [
  | none ↦ no_samples
  | some median ↦ elim (get_elem? latencies (length latencies - 1)) [
    | none ↦ no_samples
    | some maximum ↦
        passed
          (record { calls = length latencies; bytes = size; median = median; maximum = maximum })
  ]
]

module _ (exchange : ℕ → List ℕ → Exchanged) where
  -- One call, with the check of its reply.
  unfoldable pub echo_call : ℕ → ℕ → Outcome ℕ
  echo_call i size = elim (exchange i (payload i 0 size)) [
    | breaks e ↦ call_failed e
    | replies reply elapsed ↦
        (if not (equal reply (payload i 0 size)) then echo_mismatch else passed elapsed)
  ]

  -- `count` calls from number `i` on.
  unfoldable pub call_loop : ℕ → ℕ → ℕ → List ℕ → Outcome (List ℕ)
  call_loop zero i size latencies = passed latencies
  call_loop (suc count) i size latencies = do
    elapsed ← echo_call i size
    call_loop count (suc i) size (latencies ++ (elapsed ∷ []))

  unfoldable pub run_calls : ℕ → ℕ → Outcome Report
  run_calls size count = do latencies ← call_loop count 0 size []; report_of size (sort latencies)

  -- The sizes of the self-test, with the time of each.
  unfoldable pub selftest_loop : ℕ → List ℕ → List (ℕ × ℕ) → Outcome (List (ℕ × ℕ))
  selftest_loop i [] results = passed results
  selftest_loop i (size ∷ sizes) results = do
    elapsed ← echo_call i size
    selftest_loop (suc i) sizes (results ++ ((size, elapsed) ∷ []))

abbrev pub selftest_sizes : List ℕ
selftest_sizes = 1 ∷ 100 ∷ 1424 ∷ 65535 ∷ 65536 ∷ 65537 ∷ 100000 ∷ 1000000 ∷ []
