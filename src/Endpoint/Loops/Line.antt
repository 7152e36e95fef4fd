-- ===== src/Endpoint/Loops/Line.antt =====
-- One line of waiting packets, for the eight queues: the higher priority first, and the older first
-- among equals.
use mac_homa.Common.{
  ℕ, zero, suc, ◌+◌, ◌≤◌, ◌<◌, ◌≡◌, ◌≢◌, ◌==◌, ltb, false, if◌then◌else◌, List, [], ◌∷◌, ◌++◌,
  length, get_or, set, All, arith, refl, subst, Bool-cases, inl, inr, ==_iff, get_or-set_self,
  get_or-set_ne,
}
use mathlib.Core.List.{append_assoc}
use mac_homa.Endpoint.{Outgoing}

-- The packets of the queues `n - 1` down to 0.
unfoldable pub pending : ℕ → List (List Outgoing) → List Outgoing
pending zero queues = []
pending (suc n) queues = get_or queues n [] ++ pending n queues

-- The new packet goes behind all that are not less urgent.
unfoldable pub place : Outgoing → List Outgoing → List Outgoing
place p [] = p ∷ []
place p (x ∷ line) = if ltb x.priority p.priority then p ∷ x ∷ line else x ∷ place p line

unfoldable pub count_of : ℕ → List Outgoing → ℕ
count_of k [] = 0
count_of k (x ∷ line) = (if x.priority == k then 1 else 0) + count_of k line

-- Every queue holds packets of its own priority.
abbrev pub IsFiled : List (List Outgoing) → Type 0
IsFiled queues = (j : ℕ) → All (λ p. p.priority ≡ j) (get_or queues j [])

place-least :
    (p : Outgoing) (line : List Outgoing)
    → All (λ x. x.priority < p.priority) line
    → place p line ≡ (p ∷ line)
unfolding place
place-least p [] h = refl
place-least p (x ∷ line) h = ground (arith, h.0)

place-append :
    (p : Outgoing) (line rest : List Outgoing)
    → All (λ x. p.priority ≤ x.priority) line
    → place p (line ++ rest) ≡ line ++ place p rest
unfolding place
place-append p [] rest h = refl
place-append p (x ∷ line) rest h =
    let ih = place-append p line rest h.1 in
    let c : ltb x.priority p.priority ≡ false = ground (arith, h.0) in rw (c, ih) refl

All-map :
    (P Q : Outgoing → Type 0)
    → ((x : Outgoing) → P x → Q x)
    → (line : List Outgoing) → All P line
    → All Q line
All-map P Q f [] h = record {}
All-map P Q f (x ∷ line) h = (f x h.0, All-map P Q f line h.1)

pub All-append :
    (P : Outgoing → Type 0) (line rest : List Outgoing)
    → All P line
    → All P rest
    → All P (line ++ rest)
All-append P [] rest h k = k
All-append P (x ∷ line) rest h k = (h.0, All-append P line rest h.1 k)

-- What waits in the queues below `n` is less urgent than `n`.
pending-below :
    (n k : ℕ) (queues : List (List Outgoing))
    → IsFiled queues
    → n ≤ k
    → All (λ x. x.priority < k) (pending n queues)
unfolding pending
pending-below zero k queues v h = record {}
pending-below (suc n) k queues v h =
    All-append (λ x. x.priority < k) _ _
      (All-map (λ x. x.priority ≡ n) (λ x. x.priority < k) (λ x e. omega arith) _ (v n))
      (pending-below n k queues v (omega arith))

pub pending-set :
    (n k : ℕ) (queues : List (List Outgoing)) (queue : List Outgoing)
    → n ≤ k
    → pending n (set queues k queue) ≡ pending n queues
unfolding pending
pending-set zero k queues queue h = refl
pending-set (suc n) k queues queue h =
    let ne : k ≢ n = λ e. omega (arith, e) in
    rw (get_or-set_ne queues k n queue [] ne, pending-set n k queues queue (omega arith)) refl

-- At the end of its queue a packet stands at its place in the line.
pub pending-place :
    (n : ℕ) (queues : List (List Outgoing)) (p : Outgoing)
    → IsFiled queues
    → p.priority < n
    → p.priority < length queues
    → pending n (set queues p.priority (get_or queues p.priority [] ++ (p ∷ [])))
      ≡ place p (pending n queues)
unfolding pending
pending-place zero queues p v h l = absurd (omega arith)
pending-place (suc n) queues p v h l =
    let queue = get_or queues p.priority [] ++ (p ∷ []) in
    let ahead : All (λ x. p.priority ≤ x.priority) (get_or queues n []) =
      All-map (λ x. x.priority ≡ n) (λ x. p.priority ≤ x.priority) (λ x e. omega (arith, e, h)) _
        (v n) in
    let moved = place-append p (get_or queues n []) (pending n queues) ahead in
    elim (Bool-cases (p.priority == n)) [
      | inl same ↦
          let e : p.priority ≡ n = (==_iff p.priority n).0 same in
          let least : All (λ x. x.priority < p.priority) (pending n queues) =
            pending-below n p.priority queues v (omega (arith, e)) in
          let own : get_or (set queues p.priority queue) n [] ≡ get_or queues n [] ++ (p ∷ []) =
            subst (λ i. get_or (set queues p.priority queue) i [] ≡ get_or queues i [] ++ (p ∷ []))
              e (get_or-set_self queues p.priority queue [] l) in
          let below : pending n (set queues p.priority queue) ≡ pending n queues =
            pending-set n p.priority queues queue (omega (arith, e)) in
          rw (own, below, moved, place-least p (pending n queues) least)
            (append_assoc (get_or queues n []) (p ∷ []) (pending n queues))
      | inr other ↦
          let ne : p.priority ≢ n = λ e. ground (arith, other, e) in
          rw
            (
              moved,
              get_or-set_ne queues p.priority n queue [] ne,
              pending-place n queues p v (ground (arith, other, h)) l,
            )
            refl
    ]

count_of-append : (k : ℕ) (a b : List Outgoing) → count_of k (a ++ b) ≡ count_of k a + count_of k b
unfolding count_of
count_of-append k [] b = omega arith
count_of-append k (x ∷ a) b = omega (arith, count_of-append k a b)

count_of-All : (k : ℕ) (a : List Outgoing) → All (λ x. x.priority ≡ k) a → count_of k a ≡ length a
unfolding count_of
count_of-All k [] h = refl
count_of-All k (x ∷ a) h = ground (arith, h.0, count_of-All k a h.1)

count_of-others :
    (k n : ℕ) (a : List Outgoing) → All (λ x. x.priority ≡ n) a → n ≢ k → count_of k a ≡ 0
unfolding count_of
count_of-others k n [] h ne = refl
count_of-others k n (x ∷ a) h ne = ground (arith, h.0, count_of-others k n a h.1 ne, ne)

count_of-above : (k : ℕ) (a : List Outgoing) → All (λ x. x.priority < k) a → count_of k a ≡ 0
unfolding count_of
count_of-above k [] h = refl
count_of-above k (x ∷ a) h = ground (arith, h.0, count_of-above k a h.1)

-- The packets of a priority in the line are its queue.
pub count_of-pending :
    (n k : ℕ) (queues : List (List Outgoing))
    → IsFiled queues
    → k < n
    → count_of k (pending n queues) ≡ length (get_or queues k [])
unfolding pending
count_of-pending zero k queues v h = absurd (omega arith)
count_of-pending (suc n) k queues v h =
    let split = count_of-append k (get_or queues n []) (pending n queues) in
    elim (Bool-cases (k == n)) [
      | inl same ↦
          let e : k ≡ n = (==_iff k n).0 same in
          let own = count_of-All n (get_or queues n []) (v n) in
          let rest =
            count_of-above n (pending n queues) (pending-below n n queues v (omega arith)) in
          rw e (omega (arith, rw e at split, own, rest))
      | inr other ↦
          let ne : n ≢ k = λ e. ground (arith, other, e) in
          let own = count_of-others k n (get_or queues n []) (v n) ne in
          omega (arith, split, own, count_of-pending n k queues v (ground (arith, other, h)))
    ]
