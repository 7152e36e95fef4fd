-- ===== src/Endpoint/Grants/Sorted.antt =====
-- The candidates of `schedule`: which messages they are, and their order.
use mac_homa.Common.{
  ℕ, ◌+◌, ◌-◌, ◌≤◌, ◌<◌, ◌≡◌, leb, ltb, Bool, true, false, ◌&&◌, if◌then◌else◌, List, [], ◌∷◌, none,
  some, length, map, All, arith, Bool-cases, inl, inr, ◌⊎◌, refl, sym, ◌∙◌, Option-cases, subst,
  some_inj,
}
use mathlib.Core.List.{Perm}
use mathlib.Core.List.Perm
use mac_homa.Endpoint.{Rpc, Assembly}
use mac_homa.Endpoint.Grants.{candidate, less, insert, candidates}

-- The bytes of its message that an RPC has not got.
unfoldable pub missing : Rpc → ℕ
missing r = elim r.rx [ none ↦ 0 | some a ↦ length a.payload - a.count ]

-- A message that is coming in: bytes are missing, and bytes are not granted.
unfoldable pub is_wanting : Rpc → Bool
is_wanting r = elim r.rx [
  | none ↦ false
  | some a ↦ leb (1 + a.count) (length a.payload) && leb (1 + a.granted) (length a.payload)
]

unfoldable pub wanting : List Rpc → List Rpc
wanting [] = []
wanting (r ∷ rpcs) = if is_wanting r then r ∷ wanting rpcs else wanting rpcs

-- Fewer bytes are missing, or as many, and the ID is not greater.
abbrev pub IsBefore : Rpc → Rpc → Type 0
IsBefore r s = (missing r < missing s) ⊎ ((missing r ≡ missing s) × (r.key.id ≤ s.key.id))

abbrev pub IsShortestFirst : List Rpc → Type 0
IsShortestFirst [] = Unit {0}
IsShortestFirst (r ∷ order) = All (IsBefore r) order × IsShortestFirst order

-- What a candidate is.
pub record IsCandidate (c : ℕ × Rpc) : Type 0 where
  pub message : Assembly
  pub is_message : c.1.rx ≡ some message
  pub left : c.0 ≡ missing c.1
  pub incomplete : message.count < length message.payload
  pub ungranted : message.granted < length message.payload

-- What `candidate` and the two notions above say of a message `a`.
module _ (r : Rpc) (a : Assembly) (is : r.rx ≡ some a) where
  candidate_wanted :
      ltb a.count (length a.payload) ≡ true
      → ltb a.granted (length a.payload) ≡ true
      → candidate r ≡ some (length a.payload - a.count, r)
  unfolding candidate
  candidate_wanted g h = ground (arith, is, g, h)

  missing_message : missing r ≡ length a.payload - a.count
  unfolding missing
  missing_message = ground (arith, is)

  wanted :
      ltb a.count (length a.payload) ≡ true
      → ltb a.granted (length a.payload) ≡ true
      → is_wanting r ≡ true
  unfolding is_wanting
  wanted g h = ground (arith, is, g, h)

  unwanted :
      ltb a.count (length a.payload) && ltb a.granted (length a.payload) ≡ false
      → (candidate r ≡ none) × (is_wanting r ≡ false)
  unfolding is_wanting candidate
  unwanted g = (ground (arith, is, g), ground (arith, is, g))

pub candidate-some :
    (r : Rpc) (c : ℕ × Rpc)
    → candidate r ≡ some c
    → (c.1 ≡ r) × IsCandidate c × (is_wanting r ≡ true)
unfolding candidate
candidate-some r c h = elim (Option-cases r.rx) [
  | inl none' ↦ absurd (ground (arith, h, none'))
  | inr (a, some') ↦
      elim (Bool-cases (ltb a.count (length a.payload) && ltb a.granted (length a.payload))) [
        | inr out ↦ let both = unwanted r a some' out in absurd (ground (arith, both.0, h))
        | inl good ↦
            let g : ltb a.count (length a.payload) ≡ true = ground (arith, good) in
            let f : ltb a.granted (length a.payload) ≡ true = ground (arith, good) in
            let same : (length a.payload - a.count, r) ≡ c =
              some_inj (sym (candidate_wanted r a some' g f) ∙ h) in
            subst (λ d. (d.1 ≡ r) × IsCandidate d × (is_wanting r ≡ true)) same
              (
                refl,
                record {
                  message = a;
                  is_message = some';
                  left = sym (missing_message r a some');
                  incomplete = ground (arith, g);
                  ungranted = ground (arith, f);
                },
                wanted r a some' g f,
              )
      ]
]

candidate-none : (r : Rpc) → candidate r ≡ none → is_wanting r ≡ false
unfolding is_wanting
candidate-none r h = elim (Option-cases r.rx) [
  | inl none' ↦ ground (arith, none')
  | inr (a, some') ↦
      elim (Bool-cases (ltb a.count (length a.payload) && ltb a.granted (length a.payload))) [
        | inr out ↦ let both = unwanted r a some' out in both.1
        | inl good ↦
            let g : ltb a.count (length a.payload) ≡ true = ground (arith, good) in
            let f : ltb a.granted (length a.payload) ≡ true = ground (arith, good) in
            let is = candidate_wanted r a some' g f in absurd (ground (arith, is, h))
      ]
]

module _ (r : Rpc) (rs : List Rpc) where
  pub candidates-none : candidate r ≡ none → candidates (r ∷ rs) ≡ candidates rs
  unfolding candidates
  candidates-none h = rw (h, candidates)

  pub candidates-some :
      {c : ℕ × Rpc} → candidate r ≡ some c → candidates (r ∷ rs) ≡ insert c (candidates rs)
  unfolding candidates
  candidates-some h = rw (h, candidates)

-- What holds of a new candidate and of the others holds of all.
pub insert-All :
    (P : ℕ × Rpc → Type 0) (c : ℕ × Rpc) (ds : List (ℕ × Rpc))
    → P c
    → All P ds
    → All P (insert c ds)
unfolding insert
insert-All P c [] h a = (h, tt)
insert-All P c (x ∷ ds) h a = elim (Bool-cases (less x c)) [
  | inl before ↦ rw (insert, before) (a.0, insert-All P c ds h a.1)
  | inr after ↦ rw (insert, after) (h, a)
]

insert-perm :
    (c : ℕ × Rpc) (ds : List (ℕ × Rpc))
    → Perm (map (λ d. d.1) (insert c ds)) (c.1 ∷ map (λ d. d.1) ds)
unfolding insert
insert-perm c [] = Perm.rfl
insert-perm c (x ∷ ds) = elim (Bool-cases (less x c)) [
  | inl before ↦
      rw (insert, before)
        (Perm.trans (Perm.cons x.1 (insert-perm c ds)) (Perm.swap c.1 x.1 (map (λ d. d.1) ds)))
  | inr after ↦ rw (insert, after) Perm.rfl
]

pub candidates-perm : (rs : List Rpc) → Perm (map (λ c. c.1) (candidates rs)) (wanting rs)
unfolding wanting
candidates-perm [] = unfold candidates in Perm.rfl
candidates-perm (r ∷ rs) = elim (Option-cases (candidate r)) [
  | inl none' ↦
      rw (candidates-none r rs none', wanting, candidate-none r none') (candidates-perm rs)
  | inr (c, some') ↦
      let (same, is, wants) = candidate-some r c some' in
      rw (candidates-some r rs some', wanting, wants)
        (subst (λ x. Perm (map (λ d. d.1) (insert c (candidates rs))) (x ∷ wanting rs)) same
          (Perm.trans (insert-perm c (candidates rs)) (Perm.cons c.1 (candidates-perm rs))))
]

pub candidates-IsCandidate : (rs : List Rpc) → All IsCandidate (candidates rs)
candidates-IsCandidate [] = unfold candidates in tt
candidates-IsCandidate (r ∷ rs) = elim (Option-cases (candidate r)) [
  | inl none' ↦ rw (candidates-none r rs none') (candidates-IsCandidate rs)
  | inr (c, some') ↦
      let (same, is, wants) = candidate-some r c some' in
      rw (candidates-some r rs some')
        (insert-All IsCandidate c (candidates rs) is (candidates-IsCandidate rs))
]

-- What holds of the RPCs holds of the candidates.
pub candidates-All :
    (P : Rpc → Type 0) (rs : List Rpc) → All P rs → All (λ c. P c.1) (candidates rs)
candidates-All P [] a = unfold candidates in tt
candidates-All P (r ∷ rs) a = elim (Option-cases (candidate r)) [
  | inl none' ↦ rw (candidates-none r rs none') (candidates-All P rs a.1)
  | inr (c, some') ↦
      let (same, is, wants) = candidate-some r c some' in
      rw (candidates-some r rs some') (
        insert-All (λ d. P d.1) c (candidates rs) (subst P (sym same) a.0)
          (candidates-All P rs a.1))
]
