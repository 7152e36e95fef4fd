-- ===== src/EchoCommand/Examples.antt =====
-- The theorem on homa-echo at work on three calls.
use mac_homa.Common.{ℕ, ◌≡◌, ◌+◌, refl, List, length, arith}
use mac_homa.Bench.Latency.{sort, insert}
use mac_homa.Bench.Client.{Exchanged, replies, passed}
use mac_homa.EchoCommand.{payload, Report, report_of, echo_call, call_loop, run_calls}
use mac_homa.EchoCommand.Verified.{IsEchoed, IsReport, run_calls-IsReport}

-- Every call echoes, the later the slower.
abbrev echoing : ℕ → List ℕ → Exchanged
echoing k p = replies p (50 + k)

abbrev three_calls : Report
three_calls = record { calls = 3; bytes = 2; median = 51; maximum = 52 }

run_calls-three_calls : run_calls echoing 2 3 ≡ passed three_calls
unfolding run_calls call_loop echo_call payload report_of sort insert
run_calls-three_calls = refl

run_calls-IsReport_example :
    (latencies : List ℕ) × (length latencies ≡ 3)
    × IsEchoed echoing 2 latencies
    × IsReport 2 latencies three_calls
run_calls-IsReport_example =
    run_calls-IsReport echoing 2 3 three_calls (omega arith) run_calls-three_calls
