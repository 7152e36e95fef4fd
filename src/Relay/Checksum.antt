-- ===== src/Relay/Checksum.antt =====
-- `ipChecksum`: the ones' complement sum of big-endian 16-bit words.
use mac_homa.Common.{
  ℕ, zero, suc, ◌+◌, ◌-◌, ◌*◌, ◌/◌, ◌%◌, ◌^◌, ◌<◌, ◌≤◌, ◌≡◌, arith, ltb, if◌then◌else◌, List, [],
  ◌∷◌,
}

-- The sum of the words in a uint32; an odd byte at the end counts as the high byte of a word.
unfoldable pub sum_words : List ℕ → ℕ → ℕ
sum_words [] sum = sum
sum_words (x ∷ []) sum = (sum + x * 2 ^ 8) % 2 ^ 32
sum_words (x ∷ y ∷ b) sum = sum_words b ((sum + (x * 256 + y)) % 2 ^ 32)

-- `for sum > 65535`, on fuel: two rounds bring every uint32 below 65536.
unfoldable pub fold_carries : ℕ → ℕ → ℕ
fold_carries zero sum = sum
fold_carries (suc rounds) sum =
    let rest = fold_carries rounds (sum % 65536 + sum / 65536) in
    if ltb 65535 sum then rest else sum

unfoldable pub ip_checksum : List ℕ → ℕ
ip_checksum b = 65535 - fold_carries 2 (sum_words b 0) % 65536

-- Two rounds are enough for every uint32: the loop has ended with a 16-bit number, and it is the sum
-- itself in ones' complement, that is modulo 65535.
pub fold_carries_ends :
    (sum : ℕ)
    → sum < 2 ^ 32
    → (fold_carries 2 sum ≤ 65535) × (fold_carries 2 sum % 65535 ≡ sum % 65535)
unfolding fold_carries
fold_carries_ends sum h = (ground arith, ground arith)
