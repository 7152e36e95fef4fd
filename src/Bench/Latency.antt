-- ===== src/Bench/Latency.antt =====
-- `latencySummary`, in nanoseconds: the division by 1000 in floating point is left out. For a quantile
-- of q percent, `q*float64(n)` rounded up is q n / 100 rounded up: no factor lies above its
-- decimal, or a part in 2^53 below it, and a run has 2,000,000 samples at most.
use mac_homa.Common.{
  ℕ, zero, suc, ◌+◌, ◌*◌, ◌/◌, ltb, if◌then◌else◌, List, [], ◌∷◌, none, some, length, get_elem?,
}
use mac_homa.Wire.{Result, ok, panic, ◌>>=◌}

-- sort.Slice on numbers, of which equal ones are the same.
unfoldable pub insert : ℕ → List ℕ → List ℕ
insert x [] = x ∷ []
insert x (y ∷ ordered) =
    let rest = insert x ordered in if ltb y x then y ∷ rest else x ∷ y ∷ ordered

unfoldable pub sort : List ℕ → List ℕ
sort [] = []
sort (x ∷ samples) = insert x (sort samples)

-- `int(math.Ceil(q*float64(len(ordered))))`
abbrev pub rank : ℕ → ℕ → ℕ
rank percent n = (percent * n + 99) / 100

-- `ordered[rank-1]`; the index -1 is out of range too.
unfoldable pub quantile : List ℕ → ℕ → Result ℕ
quantile ordered percent = elim (rank percent (length ordered)) [
  | zero ↦ panic
  | suc i ↦ elim (get_elem? ordered i) [ none ↦ panic | some x ↦ ok x ]
]

pub record Summary : Type 0 where
  pub p50 : ℕ
  pub p95 : ℕ
  pub p99 : ℕ
  pub maximum : ℕ

unfoldable pub latency_summary : List ℕ → Result Summary
latency_summary samples = do
  p50 ← quantile (sort samples) 50
  p95 ← quantile (sort samples) 95
  p99 ← quantile (sort samples) 99
  maximum ← quantile (sort samples) 100
  ok (record { p50 = p50; p95 = p95; p99 = p99; maximum = maximum })
