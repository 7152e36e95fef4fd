-- ===== src/Endpoint/Loops/Refine.antt =====
-- `enqueue` and `dequeue` against one line with a limit for each priority.
use mac_homa.Common.{
  ℕ, zero, suc, ◌+◌, ◌<◌, ◌≡◌, ◌≢◌, ◌==◌, ltb, if◌then◌else◌, List, [], ◌∷◌, ◌++◌, Option, none,
  some, some_inj, length, get_or, set, All, arith, refl, ap, ◌∙◌, sym, subst, Bool-cases,
  Option-cases, inl, inr, ==_iff, get_or-set_self, get_or-set_ne, length-set,
}
use mac_homa.Endpoint.{Outgoing, Endpoint}
use mac_homa.Endpoint.Send.{enqueue}
use mac_homa.Endpoint.Loops.{dequeue, dequeue_loop}
use mac_homa.Endpoint.Loops.Line.{
  pending, place, count_of, IsFiled, All-append, pending-set, pending-place, count_of-pending,
}
use mac_homa.Endpoint.Loops.Queues.{IsFirst, dequeue_highest, dequeue-eq-none}

-- A packet that goes out, or a turn of the writer.
pub data Use : Type 0 where
  put : Outgoing → Use
  turn : Use

-- What a promise of the queues needs: the waiting packets in the order in which they leave, and how
-- many have been dropped.
pub record Line : Type 0 where
  pub waiting : List Outgoing
  pub dropped : ℕ

-- A priority that has 32 packets in the line takes no more.
unfoldable pub put_line : Line → Outgoing → Line
put_line line p =
    if ltb (count_of p.priority line.waiting) 32
    then record line { waiting = place p line.waiting }
    else record line { dropped = line.dropped + 1 }

-- The line in the end, and what the writer got in its turns.
unfoldable pub serve_line : Line → List Use → Line × List (Option Outgoing)
serve_line line [] = (line, [])
serve_line line (put p ∷ uses) = serve_line (put_line line p) uses
serve_line line (turn ∷ uses) = elim line.waiting [
  | [] ↦ (let rest = serve_line line uses in (rest.0, none ∷ rest.1))
  | p ∷ waiting ↦
      (let rest = serve_line (record line { waiting = waiting }) uses in (rest.0, some p ∷ rest.1))
]

-- The same uses of the endpoint's queues.
unfoldable pub serve_queues : Endpoint → List Use → Endpoint × List (Option Outgoing)
serve_queues e [] = (e, [])
serve_queues e (put p ∷ uses) = serve_queues (enqueue e p) uses
serve_queues e (turn ∷ uses) = elim (dequeue e) [
  | none ↦ (let rest = serve_queues e uses in (rest.0, none ∷ rest.1))
  | some (p, e') ↦ (let rest = serve_queues e' uses in (rest.0, some p ∷ rest.1))
]

-- The endpoint's eight queues stand for the line.
pub record Refines (e : Endpoint) (line : Line) : Type 0 where
  pub eight : length e.outbound ≡ 8
  pub filed : IsFiled e.outbound
  pub waiting : pending 8 e.outbound ≡ line.waiting
  pub dropped : e.stats.dropped_packets ≡ line.dropped

abbrev pub IsInRange : Use → Type 0
IsInRange (put p) = p.priority < 8
IsInRange turn = Unit {0}

set-IsFiled :
    (queues : List (List Outgoing)) (k : ℕ) (queue : List Outgoing)
    → IsFiled queues
    → k < length queues
    → All (λ p. p.priority ≡ k) queue
    → IsFiled (set queues k queue)
set-IsFiled queues k queue v l h j = elim (Bool-cases (k == j)) [
  | inl same ↦
      let e : k ≡ j = (==_iff k j).0 same in
      subst (λ i. All (λ p. p.priority ≡ i) (get_or (set queues k queue) i [])) e
        (rw (get_or-set_self queues k queue [] l) h)
  | inr other ↦
      let ne : k ≢ j = λ e. ground (arith, other, e) in
      rw (get_or-set_ne queues k j queue [] ne) (v j)
]

enqueue-Refines :
    (e : Endpoint) (line : Line) (p : Outgoing)
    → Refines e line
    → p.priority < 8
    → Refines (enqueue e p) (put_line line p)
unfolding enqueue put_line
enqueue-Refines e line p v h =
    let queue = get_or e.outbound p.priority [] in
    let l : p.priority < length e.outbound = omega (arith, v.eight) in
    let many : count_of p.priority line.waiting ≡ length queue =
      rw (← v.waiting) (count_of-pending 8 p.priority e.outbound v.filed h) in
    elim (Bool-cases (ltb (length queue) 32)) [
      | inl free ↦
          rw (many, free)
            (record {
              eight = length-set e.outbound p.priority (queue ++ (p ∷ [])) ∙ v.eight;
              filed = set-IsFiled e.outbound p.priority _ v.filed l (
                  All-append (λ x. x.priority ≡ p.priority) queue (p ∷ []) (v.filed p.priority)
                    (refl, record {}));
              waiting = pending-place 8 e.outbound p v.filed h l ∙ ap (place p) v.waiting;
              dropped = v.dropped;
            })
      | inr full ↦
          rw (many, full)
            (record {
              eight = v.eight;
              filed = v.filed;
              waiting = v.waiting;
              dropped = ap (λ n. n + 1) v.dropped;
            })
    ]

length-get_or :
    (queues : List (List Outgoing)) (i : ℕ) (p : Outgoing) (rest : List Outgoing)
    → get_or queues i [] ≡ (p ∷ rest)
    → i < length queues
length-get_or [] i p rest h = absurd (ground arith)
length-get_or (x ∷ queues) zero p rest h = omega arith
length-get_or (x ∷ queues) (suc i) p rest h = omega (arith, length-get_or queues i p rest h)

-- The packet that the writer gets is the first in the line.
pending-IsFirst :
    (n : ℕ) (queues left : List (List Outgoing)) (p : Outgoing)
    → IsFirst n queues p left
    → pending n queues ≡ (p ∷ pending n left)
unfolding pending
pending-IsFirst zero queues left p v = let b = v.below in absurd (omega arith)
pending-IsFirst (suc n) queues left p v = elim (Bool-cases (v.from == n)) [
  | inl same ↦
      let e : v.from ≡ n = (==_iff v.from n).0 same in
      let head : get_or queues n [] ≡ (p ∷ v.rest) = rw e at v.head in
      let is : left ≡ set queues n v.rest = rw e at v.left_is in
      let own = get_or-set_self queues n v.rest [] (length-get_or queues n p v.rest head) in
      rw (is, head, own, pending-set n n queues v.rest (omega arith)) refl
  | inr other ↦
      let less : v.from < n = let b = v.below in ground (arith, other, b) in
      let empty : get_or queues n [] ≡ [] = v.higher n less (omega arith) in
      let ne : v.from ≢ n = λ e. omega (arith, e, less) in
      let kept : get_or left n [] ≡ [] =
        rw v.left_is (get_or-set_ne queues v.from n v.rest [] ne ∙ empty) in
      rw (empty, kept)
        (pending-IsFirst n queues left p (record {
          from = v.from;
          below = less;
          rest = v.rest;
          head = v.head;
          higher = λ j l h. v.higher j l (omega (arith, h));
          left_is = v.left_is;
        }))
]

pending-empty :
    (n : ℕ) (queues : List (List Outgoing))
    → ((j : ℕ) → j < n → get_or queues j [] ≡ [])
    → pending n queues ≡ []
unfolding pending
pending-empty zero queues h = refl
pending-empty (suc n) queues h =
    rw (h n (omega arith), pending-empty n queues (λ j l. h j (omega (arith, l)))) refl

dequeue-stats :
    (e e' : Endpoint) (p : Outgoing)
    → dequeue e ≡ some (p, e')
    → e'.stats.dropped_packets ≡ e.stats.dropped_packets
unfolding dequeue
dequeue-stats e e' p h = elim (Option-cases (dequeue_loop (length e.outbound) e.outbound)) [
  | inl none' ↦ absurd (ground (arith, h, none'))
  | inr ((q, left), some') ↦
      let same : some (q, record e { outbound = left }) ≡ some (p, e') = rw (some', dequeue) at h in
      sym (ap (λ (z : Outgoing × Endpoint). z.1.stats.dropped_packets) (some_inj same))
]

dequeue-Refines :
    (e e' : Endpoint) (line : Line) (p : Outgoing)
    → Refines e line
    → dequeue e ≡ some (p, e')
    → (line.waiting ≡ (p ∷ pending 8 e'.outbound))
      × Refines e' (record line { waiting = pending 8 e'.outbound })
dequeue-Refines e e' line p v h =
    let first : IsFirst 8 e.outbound p e'.outbound = rw v.eight at (dequeue_highest e e' p h) in
    let l = length-get_or e.outbound first.from p first.rest first.head in
    let own : All (λ x. x.priority ≡ first.from) (p ∷ first.rest) =
      subst (All (λ x. x.priority ≡ first.from)) first.head (v.filed first.from) in
    (
      sym v.waiting ∙ pending-IsFirst 8 e.outbound e'.outbound p first,
      record {
        eight = rw first.left_is (length-set e.outbound first.from first.rest ∙ v.eight);
        filed = rw first.left_is (set-IsFiled e.outbound first.from first.rest v.filed l own.1);
        waiting = refl;
        dropped = dequeue-stats e e' p h ∙ v.dropped;
      },
    )

-- From an endpoint whose queues stand for a line, any uses of the queues by packets of a priority below
-- 8 and turns of the writer go as in the line: the writer gets the same packets, or none, in each
-- turn, and the queues stand for what the line is then.
pub serve_queues-Refines :
    (uses : List Use) (e : Endpoint) (line : Line)
    → Refines e line
    → All IsInRange uses
    → ((serve_queues e uses).1 ≡ (serve_line line uses).1)
      × Refines (serve_queues e uses).0 (serve_line line uses).0
unfolding serve_queues serve_line
serve_queues-Refines [] e line v h = (refl, v)
serve_queues-Refines (put p ∷ uses) e line v h =
    serve_queues-Refines uses (enqueue e p) (put_line line p) (enqueue-Refines e line p v h.0) h.1
serve_queues-Refines (turn ∷ uses) e line v h = elim (Option-cases (dequeue e)) [
  | inl none' ↦
      let empty : line.waiting ≡ [] =
        sym v.waiting
        ∙ pending-empty 8 e.outbound
            (λ j l. dequeue-eq-none e none' j (omega (arith, l, v.eight))) in
      let (same, after) = serve_queues-Refines uses e line v h.1 in
      rw (serve_queues, serve_line, none', empty) (ap (◌∷◌ none) same, after)
  | inr ((p, e'), some') ↦
      let (first, next) = dequeue-Refines e e' line p v some' in
      let (same, after) = serve_queues-Refines uses e' _ next h.1 in
      rw (serve_queues, serve_line, some', first) (ap (◌∷◌ (some p)) same, after)
]
