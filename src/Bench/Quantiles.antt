-- ===== src/Bench/Quantiles.antt =====
-- The percentiles of `latencySummary` are nearest ranks.
use mac_homa.Common.{
  ℕ, zero, suc, ◌+◌, ◌*◌, ◌≤◌, ◌<◌, ◌≡◌, ltb, leb, if◌then◌else◌, List, [], ◌∷◌, length, get_or,
  get_elem?-get_or, All, arith, refl, ap, ◌∙◌, Bool-cases, inl, inr,
}
use mac_homa.Wire.{ok}
use mac_homa.Bench.Latency.{insert, sort, rank, quantile, Summary, latency_summary}

unfoldable pub count_at_most : ℕ → List ℕ → ℕ
count_at_most v [] = 0
count_at_most v (x ∷ xs) = (if leb x v then 1 else 0) + count_at_most v xs

unfoldable pub count_below : ℕ → List ℕ → ℕ
count_below v [] = 0
count_below v (x ∷ xs) = (if ltb x v then 1 else 0) + count_below v xs

-- `percent` of the samples at least are no more than `v`, and fewer are less than it.
pub record IsQuantile (percent v : ℕ) (samples : List ℕ) : Type 0 where
  pub reached : percent * length samples ≤ 100 * count_at_most v samples
  pub nearest : 100 * count_below v samples < percent * length samples

abbrev pub IsSorted : List ℕ → Type 0
IsSorted [] = Unit {0}
IsSorted (x ∷ xs) = All (λ y. x ≤ y) xs × IsSorted xs

All-least : (x y : ℕ) (xs : List ℕ) → x ≤ y → All (λ z. y ≤ z) xs → All (λ z. x ≤ z) xs
All-least x y [] h v = record {}
All-least x y (z ∷ xs) h v = (omega (arith, h, v.0), All-least x y xs h v.1)

All-insert : (x y : ℕ) (xs : List ℕ) → x ≤ y → All (λ z. x ≤ z) xs → All (λ z. x ≤ z) (insert y xs)
unfolding insert
All-insert x y [] h v = (h, record {})
All-insert x y (z ∷ xs) h v = elim (Bool-cases (ltb z y)) [
  | inl less ↦ rw (insert, less) (v.0, All-insert x y xs h v.1)
  | inr more ↦ rw (insert, more) (h, v)
]

insert-IsSorted : (x : ℕ) (xs : List ℕ) → IsSorted xs → IsSorted (insert x xs)
unfolding insert
insert-IsSorted x [] v = (record {}, record {})
insert-IsSorted x (y ∷ xs) v = elim (Bool-cases (ltb y x)) [
  | inl less ↦
      rw (insert, less) (All-insert y x xs (ground (arith, less)) v.0, insert-IsSorted x xs v.1)
  | inr more ↦
      let l : x ≤ y = ground (arith, more) in rw (insert, more) ((l, All-least x y xs l v.0), v)
]

pub sort-IsSorted : (xs : List ℕ) → IsSorted (sort xs)
unfolding sort
sort-IsSorted [] = record {}
sort-IsSorted (x ∷ xs) = insert-IsSorted x (sort xs) (sort-IsSorted xs)

-- Sorting keeps the length and both counts.
module _ (v : ℕ) where
  insert-counts :
      (x : ℕ) (xs : List ℕ)
      → (length (insert x xs) ≡ suc (length xs))
        × (count_at_most v (insert x xs) ≡ count_at_most v (x ∷ xs))
        × (count_below v (insert x xs) ≡ count_below v (x ∷ xs))
  unfolding insert count_at_most count_below
  insert-counts x [] = (refl, refl, refl)
  insert-counts x (y ∷ xs) =
      let (l, a, b) = insert-counts x xs in
      elim (Bool-cases (ltb y x)) [
        | inl less ↦ rw (insert, less) (ap suc l, omega (arith, a), omega (arith, b))
        | inr more ↦ rw (insert, more) (refl, refl, refl)
      ]

  pub sort-counts :
      (xs : List ℕ)
      → (length (sort xs) ≡ length xs)
        × (count_at_most v (sort xs) ≡ count_at_most v xs)
        × (count_below v (sort xs) ≡ count_below v xs)
  unfolding sort count_at_most count_below
  sort-counts [] = (refl, refl, refl)
  sort-counts (x ∷ xs) =
      let (l, a, b) = insert-counts x (sort xs) in
      let (m, c, d) = sort-counts xs in (l ∙ ap suc m, omega (arith, a, c), omega (arith, b, d))

count_below-least : (v : ℕ) (xs : List ℕ) → All (λ y. v ≤ y) xs → count_below v xs ≡ 0
unfolding count_below
count_below-least v [] h = refl
count_below-least v (x ∷ xs) h = ground (arith, h.0, count_below-least v xs h.1)

get_or-All : (P : ℕ → Type 0) (xs : List ℕ) (i : ℕ) → All P xs → i < length xs → P (get_or xs i 0)
get_or-All P [] i h l = absurd (omega arith)
get_or-All P (x ∷ xs) zero h l = h.0
get_or-All P (x ∷ xs) (suc i) h l = get_or-All P xs i h.1 (omega arith)

-- In a sorted list, at place `i`, stands a value with `i` values at most below it.
pub sorted-counts :
    (xs : List ℕ) (i : ℕ)
    → IsSorted xs
    → i < length xs
    → (suc i ≤ count_at_most (get_or xs i 0) xs) × (count_below (get_or xs i 0) xs ≤ i)
unfolding count_at_most count_below
sorted-counts [] i v h = absurd (omega arith)
sorted-counts (x ∷ xs) zero v h =
    let none' = count_below-least x xs v.0 in (ground arith, ground (arith, none'))
sorted-counts (x ∷ xs) (suc i) v h =
    let (a, b) = sorted-counts xs i v.1 (omega arith) in
    let l : x ≤ get_or xs i 0 = get_or-All (λ y. x ≤ y) xs i v.0 (omega arith) in
    (ground (arith, a, l), ground (arith, b))

quantile-ok :
    (ordered : List ℕ) (percent i : ℕ)
    → rank percent (length ordered) ≡ suc i
    → i < length ordered
    → quantile ordered percent ≡ ok (get_or ordered i 0)
unfolding quantile
quantile-ok ordered percent i e l = rw (quantile, e, get_elem?-get_or ordered i 0 l) refl

rank-cases : (r : ℕ) → 0 < r → (i : ℕ) × (r ≡ suc i)
rank-cases zero h = absurd (omega arith)
rank-cases (suc i) h = (i, refl)

module _ (percent : ℕ) (samples : List ℕ) (some' : 0 < percent * length samples)
    (within : percent * length samples ≤ 100 * length samples) where
  quantile-IsQuantile :
      (v : ℕ) × (quantile (sort samples) percent ≡ ok v) × IsQuantile percent v samples
  quantile-IsQuantile =
      let ordered = sort samples in
      let long : length ordered ≡ length samples = (sort-counts 0 samples).0 in
      let total : percent * length ordered ≡ percent * length samples =
        ap (λ n. percent * n) long in
      let (i, e) = rank-cases (rank percent (length ordered)) (omega (arith, total, some')) in
      let l : i < length ordered = omega (arith, total, within, long, e) in
      let v = get_or ordered i 0 in
      let (at_most, below) = sorted-counts ordered i (sort-IsSorted samples) l in
      let (m, a, b) = sort-counts v samples in
      (
        v,
        quantile-ok ordered percent i e l,
        record {
          reached = omega (arith, total, e, at_most, a);
          nearest = omega (arith, total, e, below, b);
        },
      )

-- For one sample or more, `latencySummary` is in range, and each of its values is the nearest rank:
-- so many percent of the samples at least are no more than it, and fewer are less.
pub latency_summary-IsQuantile :
    (samples : List ℕ)
    → 0 < length samples
    → (s : Summary) × (latency_summary samples ≡ ok s)
      × IsQuantile 50 s.p50 samples
      × IsQuantile 95 s.p95 samples
      × IsQuantile 99 s.p99 samples
      × IsQuantile 100 s.maximum samples
unfolding latency_summary
latency_summary-IsQuantile samples h =
    let (v50, e50, q50) = quantile-IsQuantile 50 samples (omega arith) (omega arith) in
    let (v95, e95, q95) = quantile-IsQuantile 95 samples (omega arith) (omega arith) in
    let (v99, e99, q99) = quantile-IsQuantile 99 samples (omega arith) (omega arith) in
    let (v100, e100, q100) = quantile-IsQuantile 100 samples (omega arith) (omega arith) in
    (
      record { p50 = v50; p95 = v95; p99 = v99; maximum = v100 },
      rw (latency_summary, e50, e95, e99, e100) refl,
      q50,
      q95,
      q99,
      q100,
    )
