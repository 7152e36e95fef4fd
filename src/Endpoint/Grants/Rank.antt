-- ===== src/Endpoint/Grants/Rank.antt =====
-- The candidates of `schedule` in order: what insertion by `less` gives, and that no two of them
-- have one key.
use mac_homa.Common.{
  ℕ, ◌≡◌, true, false, List, [], ◌∷◌, none, some, map, All, arith, Bool-cases, inl, inr,
  Option-cases, sym, subst,
}
use mac_homa.Endpoint.{Rpc, eq_key}
use mac_homa.Endpoint.Table.{lookup}
use mac_homa.Endpoint.Table.Laws.{Unique, eq_key-eq, eq_key_refl}
use mac_homa.Endpoint.Grants.{less, insert, candidate, candidates}
use mac_homa.Endpoint.Grants.Sorted.{
  missing, IsBefore, IsShortestFirst, IsCandidate, candidates-none, candidates-some, candidate-some,
  insert-All, candidates-All,
}

-- No candidate comes before one that is less.
abbrev pub IsOrdered : List (ℕ × Rpc) → Type 0
IsOrdered [] = Unit {0}
IsOrdered (c ∷ cs) = All (λ d. less d c ≡ false) cs × IsOrdered cs

less_asym : (c d : ℕ × Rpc) → less d c ≡ true → less c d ≡ false
unfolding less
less_asym (m, r) (n, s) h = ground arith

less_trans : (c d x : ℕ × Rpc) → less d c ≡ false → less x d ≡ false → less x c ≡ false
unfolding less
less_trans (m, r) (n, s) (k, t) h g = ground arith

All-less :
    (c d : ℕ × Rpc) (ds : List (ℕ × Rpc))
    → less d c ≡ false
    → All (λ x. less x d ≡ false) ds
    → All (λ x. less x c ≡ false) ds
All-less c d [] h a = tt
All-less c d (x ∷ ds) h a = (less_trans c d x h a.0, All-less c d ds h a.1)

insert-IsOrdered : (c : ℕ × Rpc) (ds : List (ℕ × Rpc)) → IsOrdered ds → IsOrdered (insert c ds)
unfolding insert
insert-IsOrdered c [] o = (tt, tt)
insert-IsOrdered c (d ∷ ds) o = elim (Bool-cases (less d c)) [
  | inl before ↦
      rw (before, insert)
        (
          insert-All (λ x. less x d ≡ false) c ds (less_asym c d before) o.0,
          insert-IsOrdered c ds o.1,
        )
  | inr after ↦ rw (after, insert) ((after, All-less c d ds after o.0), o)
]

pub candidates-IsOrdered : (rs : List Rpc) → IsOrdered (candidates rs)
candidates-IsOrdered [] = unfold candidates in tt
candidates-IsOrdered (r ∷ rs) = elim (Option-cases (candidate r)) [
  | inl none' ↦ rw (candidates-none r rs none') (candidates-IsOrdered rs)
  | inr (c, some') ↦
      rw (candidates-some r rs some') (insert-IsOrdered c (candidates rs) (candidates-IsOrdered rs))
]

less-IsBefore :
    (c d : ℕ × Rpc) → IsCandidate c → IsCandidate d → less d c ≡ false → IsBefore c.1 d.1
unfolding less
less-IsBefore (m, r) (n, s) i j h =
    let mine : m ≡ missing r = i.left in let theirs : n ≡ missing s = j.left in ground arith

All-IsBefore :
    (c : ℕ × Rpc) (ds : List (ℕ × Rpc))
    → IsCandidate c
    → All IsCandidate ds
    → All (λ d. less d c ≡ false) ds
    → All (IsBefore c.1) (map (λ d. d.1) ds)
All-IsBefore c [] i j h = tt
All-IsBefore c (d ∷ ds) i j h = (less-IsBefore c d i j.0 h.0, All-IsBefore c ds i j.1 h.1)

pub ordered-IsShortestFirst :
    (cs : List (ℕ × Rpc)) → All IsCandidate cs → IsOrdered cs → IsShortestFirst (map (λ c. c.1) cs)
ordered-IsShortestFirst [] i o = tt
ordered-IsShortestFirst (c ∷ cs) i o =
    (All-IsBefore c cs i.0 i.1 o.0, ordered-IsShortestFirst cs i.1 o.1)

abbrev pub IsApart : Rpc → Rpc → Type 0
IsApart r s = eq_key r.key s.key ≡ false

-- No two candidates have one key.
abbrev pub IsDistinct : List (ℕ × Rpc) → Type 0
IsDistinct [] = Unit {0}
IsDistinct (c ∷ cs) = All (λ d. IsApart c.1 d.1) cs × IsDistinct cs

IsApart-sym : (r s : Rpc) → IsApart r s → IsApart s r
IsApart-sym r s h = elim (Bool-cases (eq_key s.key r.key)) [
  | inr apart ↦ apart
  | inl one ↦ absurd (
      ground (
        arith,
        subst (λ k. eq_key k s.key ≡ true) (eq_key-eq s.key r.key one) (eq_key_refl s.key),
        h,
      ))
]

insert-IsDistinct :
    (c : ℕ × Rpc) (ds : List (ℕ × Rpc))
    → All (λ d. IsApart c.1 d.1) ds
    → IsDistinct ds
    → IsDistinct (insert c ds)
unfolding insert
insert-IsDistinct c [] a o = (tt, tt)
insert-IsDistinct c (d ∷ ds) a o = elim (Bool-cases (less d c)) [
  | inl before ↦
      rw (before, insert)
        (
          insert-All (λ x. IsApart d.1 x.1) c ds (IsApart-sym c.1 d.1 a.0) o.0,
          insert-IsDistinct c ds a.1 o.1,
        )
  | inr after ↦ rw (after, insert) (a, o)
]

lookup-none-All : (r : Rpc) (rs : List Rpc) → lookup r.key rs ≡ none → All (IsApart r) rs
unfolding lookup
lookup-none-All r [] h = tt
lookup-none-All r (s ∷ rs) h = elim (Bool-cases (eq_key s.key r.key)) [
  | inl one ↦ absurd (ground (arith, one, h))
  | inr apart ↦ (IsApart-sym s r apart, lookup-none-All r rs (ground (arith, apart, h)))
]

pub candidates-IsDistinct : (rs : List Rpc) → Unique rs → IsDistinct (candidates rs)
candidates-IsDistinct [] u = unfold candidates in tt
candidates-IsDistinct (r ∷ rs) u = elim (Option-cases (candidate r)) [
  | inl none' ↦ rw (candidates-none r rs none') (candidates-IsDistinct rs u.1)
  | inr (c, some') ↦
      let (same, is, wants) = candidate-some r c some' in
      rw (candidates-some r rs some') (
        insert-IsDistinct c (candidates rs)
          (candidates-All (IsApart c.1) rs
            (subst (λ s. All (IsApart s) rs) (sym same) (lookup-none-All r rs u.0)))
          (candidates-IsDistinct rs u.1))
]

-- The table has what it lists.
abbrev pub IsThere : List Rpc → Rpc → Type 0
IsThere rpcs r = lookup r.key rpcs ≡ some r

IsThere-cons :
    (r : Rpc) (rs qs : List Rpc)
    → All (IsApart r) qs
    → All (IsThere rs) qs
    → All (IsThere (r ∷ rs)) qs
unfolding lookup
IsThere-cons r rs [] a t = tt
IsThere-cons r rs (q ∷ qs) a t = (ground (arith, a.0, t.0), IsThere-cons r rs qs a.1 t.1)

pub Unique-IsThere : (rs : List Rpc) → Unique rs → All (IsThere rs) rs
unfolding lookup
Unique-IsThere [] u = tt
Unique-IsThere (r ∷ rs) u = (
  ground (arith, eq_key_refl r.key),
  IsThere-cons r rs rs (lookup-none-All r rs u.0) (Unique-IsThere rs u.1),
)
