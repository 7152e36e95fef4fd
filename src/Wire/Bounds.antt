-- ===== src/Wire/Bounds.antt =====
-- wire.go: `LocalID`, and `ValidateBounds` against what its 64-bit sum stands for.
use mac_homa.Common.{ℕ, ◌+◌, ◌%◌, ◌^◌, ◌≤◌, ◌<◌, ◌≡◌, ◌↔◌, none, length, arith}
use mac_homa.Wire.{Data, local_id, effective_offset, validate_bounds}
use mac_homa.Wire.Valid.{IsData, IsU32}

-- `LocalID` is an involution that changes the parity: it is the name that the other side has for
-- an RPC, and exactly one of the two sides is the server.
pub local_id_involution :
    (id : ℕ) → (local_id (local_id id) ≡ id) × ((local_id id % 2) + id % 2 ≡ 1)
unfolding local_id
local_id_involution id = (ground arith, ground arith)

effective_offset-IsU32 : (p : Data) → IsData p → IsU32 (effective_offset p)
unfolding effective_offset
effective_offset-IsU32 p v = let s = v.segment_offset in let t = v.common.sequence in ground arith

-- For a DATA packet whose fields are in range, `ValidateBounds` gives no error exactly when the
-- message is not empty, is no longer than the limit, and the payload at its effective offset lies
-- inside it; the widened sum does not wrap.
pub validate_bounds-eq-none_iff :
    (p : Data) (max_message : ℕ)
    → IsData p
    → length p.payload < 2 ^ 63
    → (validate_bounds p max_message ≡ none) ↔ (
        (0 < p.message_length)
        × (p.message_length ≤ max_message)
        × (effective_offset p + length p.payload ≤ p.message_length))
unfolding validate_bounds
validate_bounds-eq-none_iff p max_message v l =
    let o = effective_offset-IsU32 p v in
    let same : (effective_offset p + length p.payload) % 2 ^ 64
        ≡ effective_offset p + length p.payload =
      omega arith in
    (λ e. ground arith, λ h. ground arith)
