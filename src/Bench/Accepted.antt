-- ===== src/Bench/Accepted.antt =====
-- The lists of sizes that `parseSizes` accepts.
use mac_homa.Common.{
  ℕ, ◌≤◌, ◌≡◌, ◌↔◌, ltb, false, ◌||◌, List, [], ◌∷◌, ◌++◌, Option, none, some, some_inj, length,
  map, All, arith, refl, ap, ◌∙◌, sym, subst, Option-cases, Bool-cases, inl, inr,
}
use mathlib.Core.List.{append_assoc, append-nil}
use mac_homa.Endpoint.{max_message_size}
use mac_homa.Endpoint.Defaults.{ℤ, pos, negsuc}
use mac_homa.Bench.Sizes.{split, is_seen, accept_size, size_loop, parse_sizes}

abbrev pub IsSize : ℕ → Type 0
IsSize n = (1 ≤ n) × (n ≤ 1000000)

-- No size is among those before it.
abbrev pub IsNew : List ℕ → List ℕ → Type 0
IsNew seen [] = Unit {0}
IsNew seen (n ∷ sizes) = (is_seen n seen ≡ false) × IsNew (seen ++ (n ∷ [])) sizes

-- The parts are the sizes, in order, which are in range and distinct.
pub record IsAccepted (number : List ℕ → Option ℤ) (parts : List (List ℕ)) (seen sizes : List ℕ)
    : Type 0 where
  pub numbers : map number parts ≡ map (λ n. some (pos n)) sizes
  pub range : All IsSize sizes
  pub new : IsNew seen sizes

cons_inj : {x y : Option ℤ} {xs ys : List (Option ℤ)} → (x ∷ xs) ≡ (y ∷ ys) → (x ≡ y) × (xs ≡ ys)
cons_inj h = (cc h, cc h)

accept_size-some :
    (z : Option ℤ) (seen : List ℕ) (n : ℕ)
    → accept_size z seen ≡ some n
    → (z ≡ some (pos n)) × IsSize n × (is_seen n seen ≡ false)
unfolding accept_size
accept_size-some none seen n h = absurd (ground arith)
accept_size-some (some (negsuc m)) seen n h = absurd (ground arith)
accept_size-some (some (pos m)) seen n h =
    elim (Bool-cases (ltb m 1 || ltb max_message_size m || is_seen m seen)) [
      | inl out ↦ absurd (ground (arith, h, out))
      | inr good ↦
          let same : m ≡ n = some_inj (rw (good, accept_size) at h) in
          let (range, new) : IsSize m × (is_seen m seen ≡ false) =
            ((ground (arith, good), ground (arith, good)), ground (arith, good)) in
          (
            ap (λ k. some (pos k)) same,
            subst IsSize same range,
            subst (λ k. is_seen k seen ≡ false) same new,
          )
    ]

accept_size-IsSize :
    (seen : List ℕ) (n : ℕ)
    → IsSize n
    → is_seen n seen ≡ false
    → accept_size (some (pos n)) seen ≡ some n
unfolding accept_size
accept_size-IsSize seen n v e = ground (arith, v.0, v.1, e)

module _ (number : List ℕ → Option ℤ) where
  size_loop-IsAccepted :
      (parts : List (List ℕ)) (seen out : List ℕ)
      → size_loop number parts seen ≡ some out
      → (sizes : List ℕ) × (out ≡ seen ++ sizes) × IsAccepted number parts seen sizes
  unfolding size_loop
  size_loop-IsAccepted [] seen out h =
      let same : seen ≡ out = ground (arith, h) in
      (
        [],
        sym same ∙ sym (append-nil seen),
        record { numbers = refl; range = record {}; new = record {} },
      )
  size_loop-IsAccepted (part ∷ parts) seen out h =
      elim (Option-cases (accept_size (number part) seen)) [
        | inl none' ↦ absurd (ground (arith, h, none'))
        | inr (n, some') ↦
            let (is, range, new) = accept_size-some (number part) seen n some' in
            let (sizes, e, v) =
              size_loop-IsAccepted parts (seen ++ (n ∷ [])) out (rw (some', size_loop) at h) in
            (
              n ∷ sizes,
              e ∙ append_assoc seen (n ∷ []) sizes,
              record {
                numbers = rw (is, v.numbers) refl;
                range = (range, v.range);
                new = (new, v.new);
              },
            )
      ]

  IsAccepted-size_loop :
      (parts : List (List ℕ)) (seen sizes : List ℕ)
      → IsAccepted number parts seen sizes
      → size_loop number parts seen ≡ some (seen ++ sizes)
  unfolding size_loop
  IsAccepted-size_loop [] seen [] v = ap some (sym (append-nil seen))
  IsAccepted-size_loop [] seen (n ∷ sizes) v = let e = v.numbers in absurd (ground arith)
  IsAccepted-size_loop (part ∷ parts) seen [] v = let e = v.numbers in absurd (ground arith)
  IsAccepted-size_loop (part ∷ parts) seen (n ∷ sizes) v =
      let (first, rest) = cons_inj v.numbers in
      let taken = accept_size-IsSize seen n v.range.0 v.new.0 in
      let ih =
        IsAccepted-size_loop parts (seen ++ (n ∷ [])) sizes
          (record { numbers = rest; range = v.range.1; new = v.new.1 }) in
      rw (size_loop, first, taken, ih) (ap some (append_assoc seen (n ∷ []) sizes))

-- `parseSizes` gives a list of sizes exactly when there are 32 parts at most, each of which reads as
-- the size at its place, and the sizes are between 1 and 1,000,000 and distinct.
pub parse_sizes-eq-some_iff :
    (number : List ℕ → Option ℤ) (s sizes : List ℕ)
    → (parse_sizes number s ≡ some sizes)
      ↔ ((length (split [] s) ≤ 32) × IsAccepted number (split [] s) [] sizes)
unfolding parse_sizes
parse_sizes-eq-some_iff number s sizes = (
  λ h. elim (Bool-cases (ltb 32 (length (split [] s)))) [
    | inl many ↦ absurd (ground (arith, h, many))
    | inr few ↦
        let (out, e, v) =
          size_loop-IsAccepted number (split [] s) [] sizes (rw (few, parse_sizes) at h) in
        (ground (arith, few), rw e v)
  ],
  λ v.
      let few : ltb 32 (length (split [] s)) ≡ false = ground (arith, v.0) in
      rw (parse_sizes, few) (IsAccepted-size_loop number (split [] s) [] sizes v.1),
)
