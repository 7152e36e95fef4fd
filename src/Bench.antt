-- ===== src/Bench.antt =====
-- cmd/homa-bench/main.go: the benchmark's own TCP echo, its latencies and its workload.
pub mod Latency
pub mod Quantiles
pub mod Tcp
pub mod Echo
pub mod Sizes
pub mod Accepted
pub mod Client
pub mod Report
pub mod Calls
pub mod Plan
pub mod Passes
pub mod Examples
