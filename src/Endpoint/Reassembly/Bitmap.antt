-- ===== src/Endpoint/Reassembly/Bitmap.antt =====
-- Laws of the bitmap of received bytes: what a mark changes, and how many bytes are marked.
use mac_homa.Common.{
  ℕ, zero, suc, ◌+◌, ◌/◌, ◌%◌, ◌≤◌, ◌<◌, ◌≡◌, ◌≢◌, refl, ap, ◌∙◌, sym, true, false, ◌||◌, ◌==◌, ltb,
  if◌then◌else◌, List, [], ◌∷◌, length, get_or, set, replicate, All, get_or-set_self, get_or-set_ne,
  get_or-replicate, arith, Bool-cases, inl, inr, ==_iff,
}
use mac_homa.Common.Bits.{test_bit, set_bit, test_bit-set_bit, test_bit-zero, set_bit_lt}
use mac_homa.Endpoint.Reassembly.{has_byte, mark}

abbrev pub IsByte : ℕ → Type 0
IsByte b = b < 256

All-get_or : (bs : List ℕ) (i : ℕ) → All IsByte bs → get_or bs i 0 < 256
All-get_or [] i h = omega arith
All-get_or (b ∷ bs) zero h = h.0
All-get_or (b ∷ bs) (suc i) h = All-get_or bs i h.1

All-set : (bs : List ℕ) (i v : ℕ) → v < 256 → All IsByte bs → All IsByte (set bs i v)
All-set [] i v h a = tt
All-set (b ∷ bs) zero v h a = (h, a.1)
All-set (b ∷ bs) (suc i) v h a = (a.0, All-set bs i v h a.1)

pub All-replicate_zero : (n : ℕ) → All IsByte (replicate n 0)
All-replicate_zero zero = tt
All-replicate_zero (suc n) = (omega arith, All-replicate_zero n)

pub mark-All : (bits : List ℕ) (at : ℕ) → All IsByte bits → All IsByte (mark bits at)
unfolding mark
mark-All bits at h = All-set bits (at / 8) _ (set_bit_lt (get_or bits (at / 8) 0) (at % 8)) h

-- A mark sets its own bit and no other.
pub has_byte-mark :
    (bits : List ℕ) (at j : ℕ)
    → All IsByte bits
    → at / 8 < length bits
    → has_byte (mark bits at) j ≡ ((at == j) || has_byte bits j)
unfolding has_byte mark
has_byte-mark bits at j h fits = elim (Bool-cases (at / 8 == j / 8)) [
  | inl same ↦
      let e : j / 8 ≡ at / 8 = sym ((==_iff (at / 8) (j / 8)).0 same) in
      let b = get_or bits (at / 8) 0 in
      let digit : (at % 8 == j % 8) ≡ (at == j) = ground arith in
      rw (e, get_or-set_self bits (at / 8) (set_bit b (at % 8)) 0 fits)
        (test_bit-set_bit b (at % 8) (j % 8) (All-get_or bits (at / 8) h) (omega arith)
            (omega arith)
          ∙ ap (λ t. t || test_bit b (j % 8)) digit)
  | inr other ↦
      let ne : at / 8 ≢ j / 8 = ground arith in
      let no_digit : (at == j) ≡ false = ground arith in
      rw (
        get_or-set_ne bits (at / 8) (j / 8) (set_bit (get_or bits (at / 8) 0) (at % 8)) 0 ne,
        no_digit,
      )
]

pub has_byte-replicate_zero : (n j : ℕ) → has_byte (replicate n 0) j ≡ false
unfolding has_byte
has_byte-replicate_zero n j =
    let zero_byte : ℕ = 0 in
    rw (get_or-replicate n (j / 8) zero_byte) (test_bit-zero (j % 8) (omega arith))

-- The number of marked bytes below `k`.
unfoldable pub tally : List ℕ → ℕ → ℕ
tally bits zero = 0
tally bits (suc k) = (if has_byte bits k then 1 else 0) + tally bits k

pub tally-mark :
    (bits : List ℕ) (at k : ℕ)
    → All IsByte bits
    → at / 8 < length bits
    → has_byte bits at ≡ false
    → tally (mark bits at) k ≡ (if ltb at k then 1 else 0) + tally bits k
unfolding tally
tally-mark bits at zero h fits clear = ground arith
tally-mark bits at (suc k) h fits clear = elim (Bool-cases (at == k)) [
  | inl same ↦
      let e : at ≡ k = (==_iff at k).0 same in
      let b : has_byte bits k ≡ false = rw (← e) clear in
      ground (arith, has_byte-mark bits at k h fits, tally-mark bits at k h fits clear)
  | inr other ↦ ground (arith, has_byte-mark bits at k h fits, tally-mark bits at k h fits clear)
]

pub tally-le : (bits : List ℕ) (k : ℕ) → tally bits k ≤ k
unfolding tally
tally-le bits zero = omega arith
tally-le bits (suc k) = ground (arith, tally-le bits k)

pub tally-replicate_zero : (n k : ℕ) → tally (replicate n 0) k ≡ 0
unfolding tally
tally-replicate_zero n zero = refl
tally-replicate_zero n (suc k) =
    rw (has_byte-replicate_zero n k) (omega (arith, tally-replicate_zero n k))

-- All bytes are marked exactly when the tally is full.
pub tally_full : (bits : List ℕ) (k j : ℕ) → tally bits k ≡ k → j < k → has_byte bits j ≡ true
unfolding tally
tally_full bits zero j h l = absurd (omega arith)
tally_full bits (suc k) j h l = elim (Bool-cases (j == k)) [
  | inl same ↦ let e : j ≡ k = (==_iff j k).0 same in rw e (ground (arith, tally-le bits k))
  | inr other ↦ ground (arith, tally-le bits k, tally_full bits k j)
]

pub full_tally :
    (bits : List ℕ) (k : ℕ) → ((j : ℕ) → j < k → has_byte bits j ≡ true) → tally bits k ≡ k
unfolding tally
full_tally bits zero h = refl
full_tally bits (suc k) h =
    rw (h k (omega arith)) (omega (arith, full_tally bits k (λ j l. h j (omega arith))))
