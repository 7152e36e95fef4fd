-- ===== src/Endpoint/Reassembly.antt =====
-- endpoint.go, `data`: the assembly of a message from segments, with its bitmap.
pub mod Bitmap
pub mod Message
pub mod Complete
use mac_homa.Common.{
  ℕ, zero, suc, ◌+◌, ◌/◌, ◌%◌, max, ltb, ◌==◌, Bool, true, false, not, ◌&&◌, ◌||◌, if◌then◌else◌,
  List, [], ◌∷◌, Option, none, some, length, get_or, set, replicate,
}
use mac_homa.Common.Bits.{test_bit, set_bit}
use mac_homa.Endpoint.{Assembly}

unfoldable pub new_assembly : ℕ → ℕ → Assembly
new_assembly n incoming = record {
  payload = replicate n 0;
  bits = replicate ((n + 7) / 8) 0;
  count = 0;
  contiguous = 0;
  granted = incoming;
}

-- bits[at/8] & (1 << (at%8)) != 0
unfoldable pub has_byte : List ℕ → ℕ → Bool
has_byte bits at = test_bit (get_or bits (at / 8) 0) (at % 8)

-- bits[at/8] |= 1 << (at%8)
unfoldable pub mark : List ℕ → ℕ → List ℕ
mark bits at = set bits (at / 8) (set_bit (get_or bits (at / 8) 0) (at % 8))

-- The first loop: does a byte that has arrived differ from the segment, which starts at `at`?
unfoldable pub conflicts : List ℕ → ℕ → Assembly → Bool
conflicts [] at a = false
conflicts (x ∷ xs) at a =
    (has_byte a.bits at && not (get_or a.payload at 0 == x)) || conflicts xs (suc at) a

-- The body of the second loop.
unfoldable pub accept_byte : ℕ → ℕ → Assembly → Assembly
accept_byte at x a =
    if has_byte a.bits at
    then a
    else record a { payload = set a.payload at x; bits = mark a.bits at; count = a.count + 1 }

unfoldable pub accept : List ℕ → ℕ → Assembly → Assembly
accept [] at a = a
accept (x ∷ xs) at a = accept xs (suc at) (accept_byte at x a)

-- The loop on `contiguous`, with the number of rounds that it can take.
unfoldable pub advance_loop : ℕ → Assembly → Assembly
advance_loop zero a = a
advance_loop (suc rounds) a =
    elim (ltb a.contiguous (length a.payload) && has_byte a.bits a.contiguous) [
      | false ↦ a
      | true ↦ advance_loop rounds (record a { contiguous = a.contiguous + 1 })
    ]

unfoldable pub advance : Assembly → Assembly
advance a = advance_loop (length a.payload) a

-- A whole segment; `none` when it conflicts with what has arrived.
unfoldable pub insert_segment : Assembly → ℕ → List ℕ → ℕ → Option Assembly
insert_segment a start segment incoming =
    if conflicts segment start a
    then none
    else (let a' = accept segment start a in
        some (advance (record a' { granted = max a'.granted incoming })))
