-- ===== src/Common/Bits.antt =====
-- A byte as a set of eight bits, and a byte string as a bitmap: `b[i/8] & (1 << (i%8))`.
use Prim.Native.Nat.{ℕ, zero, suc, ◌%◌, ◌^◌, ◌<◌, bit_and, bit_or}
use mathlib.Core.Path.{◌≡◌, refl}
use mathlib.Core.Bool.{Bool, true, false, not, ◌||◌}
use native.Mathlib.Omega.{arith}
use mac_homa.Common.Tests.{◌==◌, ==_iff, if◌then◌else◌, Bool-cases}
use mathlib.Core.Logic.{inl, inr}

-- `b & (1 << k) != 0`
abbrev pub test_bit : ℕ → ℕ → Bool
test_bit b k = not (bit_and b (2 ^ k) == 0)

-- `b | (1 << k)`, as a byte
abbrev pub set_bit : ℕ → ℕ → ℕ
set_bit b k = bit_or b (2 ^ k) % 256

-- Bytes and bit places are few, so a law of theirs is a test run on each of them.
module _ (test : ℕ → Bool) where
  unfoldable pub passes_to : ℕ → Bool
  passes_to zero = true
  passes_to (suc last) = if test last then passes_to last else false

  pub passes_to-at : {limit place : ℕ} → place < limit → passes_to limit ≡ true → test place ≡ true
  unfolding passes_to
  passes_to-at {limit = zero} small all = absurd (omega (arith, small))
  passes_to-at {limit = suc last} {place = place} small all = elim (Bool-cases (place == last)) [
    | inl top ↦ let e : place ≡ last = (==_iff place last).0 top in rw e (ground (arith, all))
    | inr below ↦ passes_to-at {limit = last} (ground (arith, small, below)) (ground (arith, all))
  ]

same : Bool → Bool → Bool
same true b = b
same false b = not b

same→eq : (a b : Bool) → same a b ≡ true → a ≡ b
unfolding same
same→eq a b h = ground arith

bits_agree : ℕ → ℕ → ℕ → Bool
unfolding same
bits_agree b k j = same (test_bit (set_bit b k) j) ((k == j) || test_bit b j)

bits_table : passes_to (λ b. passes_to (λ k. passes_to (λ j. bits_agree b k j) 8) 8) 256 ≡ true
unfolding passes_to bits_agree
bits_table = refl

pub test_bit-set_bit :
    (b k j : ℕ) → b < 256 → k < 8 → j < 8 → test_bit (set_bit b k) j ≡ ((k == j) || test_bit b j)
unfolding bits_agree
test_bit-set_bit b k j hb hk hj =
    same→eq _ _ (passes_to-at _ hj (passes_to-at _ hk (passes_to-at _ hb bits_table)))

zero_table : passes_to (λ k. not (test_bit 0 k)) 8 ≡ true
unfolding passes_to
zero_table = refl

pub test_bit-zero : (k : ℕ) → k < 8 → test_bit 0 k ≡ false
test_bit-zero k h = let t = passes_to-at _ h zero_table in ground arith

pub set_bit_lt : (b k : ℕ) → set_bit b k < 256
set_bit_lt b k = omega arith
