-- ===== src/Endpoint/Loops/Queues.antt =====
-- `enqueue`, `send` and `dequeue`: eight queues of 32 packets, the highest priority first.
use mac_homa.Common.{
  ℕ, some_inj, zero, suc, ◌<◌, ◌≡◌, ◌==◌, List, [], ◌∷◌, none, some, length, get_or, set, refl, sym,
  subst, arith, Bool-cases, inl, inr, ◌⊎◌, Option-cases, ==_iff,
}
use mac_homa.Endpoint.{Endpoint, Outgoing}
use mac_homa.Endpoint.Loops.{dequeue_loop, dequeue}

list_cases :
    {A : Type 0} (xs : List A) → (xs ≡ []) ⊎ ((x : A) × (rest : List A) × (xs ≡ (x ∷ rest)))
list_cases [] = inl refl
list_cases (x ∷ xs) = inr (x, xs, refl)

lt_suc : (n : ℕ) → n < suc n
lt_suc n = omega arith

-- What the writer gets from the queues below `n`.
pub record IsFirst (n : ℕ) (queues : List (List Outgoing)) (p : Outgoing)
    (left : List (List Outgoing)) : Type 0 where
  pub from : ℕ
  pub below : from < n
  pub rest : List Outgoing
  pub head : get_or queues from [] ≡ (p ∷ rest)
  pub higher : (j : ℕ) → from < j → j < n → get_or queues j [] ≡ []
  pub left_is : left ≡ set queues from rest

dequeue_loop-IsFirst :
    (n : ℕ) (queues left : List (List Outgoing)) (p : Outgoing)
    → dequeue_loop n queues ≡ some (p, left)
    → IsFirst n queues p left
unfolding dequeue_loop
dequeue_loop-IsFirst zero queues left p e = absurd (ground arith)
dequeue_loop-IsFirst (suc n) queues left p e = elim (list_cases (get_or queues n [])) [
  | inl empty ↦
      let r = dequeue_loop-IsFirst n queues left p (ground arith) in
      record {
        from = r.from;
        below = let b = r.below in omega arith;
        rest = r.rest;
        head = r.head;
        higher = λ j l h. elim (Bool-cases (j == n)) [
          | inl same ↦ let i : j ≡ n = (==_iff j n).0 same in rw i empty
          | inr other ↦ r.higher j l (ground arith)
        ];
        left_is = r.left_is;
      }
  | inr (x, rest, full) ↦
      let is : some (x, set queues n rest) ≡ some (p, left) = rw (full, dequeue_loop) at e in
      let (one, two) : (x ≡ p) × (set queues n rest ≡ left) = (ground arith, ground arith) in
      record {
        from = n;
        below = lt_suc n;
        rest = rest;
        head = rw one at full;
        higher = λ j l h. absurd (omega (arith, l, h));
        left_is = sym two;
      }
]

dequeue_loop-none :
    (n : ℕ) (queues : List (List Outgoing))
    → dequeue_loop n queues ≡ none
    → (j : ℕ) → j < n
    → get_or queues j [] ≡ []
unfolding dequeue_loop
dequeue_loop-none zero queues e j l = absurd (omega arith)
dequeue_loop-none (suc n) queues e j l = elim (list_cases (get_or queues n [])) [
  | inr (x, rest, full) ↦ absurd (ground (arith, full))
  | inl empty ↦ elim (Bool-cases (j == n)) [
    | inl same ↦ let i : j ≡ n = (==_iff j n).0 same in rw i empty
    | inr other ↦ dequeue_loop-none n queues (ground arith) j (ground arith)
  ]
]

-- When the writer gets a packet, it is the oldest of a queue above which every queue is empty, and
-- only that packet leaves its queue.
pub dequeue_highest :
    (e e' : Endpoint) (p : Outgoing)
    → dequeue e ≡ some (p, e')
    → IsFirst (length e.outbound) e.outbound p e'.outbound
unfolding dequeue
dequeue_highest e e' p h = elim (Option-cases (dequeue_loop (length e.outbound) e.outbound)) [
  | inl none' ↦ absurd (ground (arith, none'))
  | inr ((q, left), some') ↦
      let same : some (q, record e { outbound = left }) ≡ some (p, e') = rw (some', dequeue) at h in
      let r = dequeue_loop-IsFirst (length e.outbound) e.outbound left q some' in
      subst (λ (z : Outgoing × Endpoint). IsFirst (length e.outbound) e.outbound z.0 z.1.outbound)
        (some_inj same) r
]

-- When the writer gets no packet, every queue is empty.
pub dequeue-eq-none :
    (e : Endpoint)
    → dequeue e ≡ none
    → (j : ℕ) → j < length e.outbound
    → get_or e.outbound j [] ≡ []
unfolding dequeue
dequeue-eq-none e h j l = dequeue_loop-none (length e.outbound) e.outbound (ground arith) j l
