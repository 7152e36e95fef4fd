-- ===== src/Wire/Write.antt =====
-- `Marshal` against the layout: which packets it accepts, and what it writes for them.
use mac_homa.Common.{
  ℕ, ◌⊎◌, ◌↔◌, ◌-◌, ◌≤◌, ◌≡◌, ◌≢◌, refl, ap, List, [], ◌∷◌, ◌++◌, length, replicate, replicate-add,
  arith,
}
use mac_homa.Wire.{
  Common, Data, Packet, data_packet, grant_packet, resend_packet, rpc_unknown_packet, busy_packet,
  cutoffs_packet, freeze_packet, need_ack_packet, ack_packet, common_packet, other, ok, panic,
  header, header_size, data_type, grant_type, resend_type, rpc_unknown_type, busy_type,
  cutoffs_type, freeze_type, need_ack_type, ack_type, max_int, data_size, max_acks,
}
use mac_homa.Wire.Bytes.{put_byte, put_u16, put_u32, put_u64, put_three, copy, copy_at}
use mac_homa.Wire.Marshal.{
  marshal_common, marshal_ack, expected_type, payload_of, marshal_data, marshal_cutoffs,
  marshal_acks, marshal_fields, write_packet, checked_write, marshal,
}
use mac_homa.Wire.Layout.{bytes_common, bytes_data_header, layout}

marshal_common-bytes :
    (h : Common) (rest : List ℕ)
    → marshal_common h (replicate 28 0 ++ rest) ≡ ok (bytes_common h ++ rest)
unfolding marshal_common put_byte put_u16 put_u32 put_u64 put_three
marshal_common-bytes h rest = refl

pub copy-replicate : (xs : List ℕ) → copy (replicate (length xs) 0) xs ≡ xs
unfolding copy
copy-replicate [] = refl
copy-replicate (x ∷ xs) = ap (◌∷◌ x) (copy-replicate xs)

-- The fields are written behind any 28 bytes.
marshal_data-bytes :
    (p : Data) (h : Common)
    → marshal_data p (bytes_common h ++ (replicate 28 0 ++ replicate (length p.payload) 0))
      ≡ ok (bytes_common h ++ (bytes_data_header p ++ p.payload))
unfolding marshal_data put_byte put_u16 put_u32 put_u64 put_three marshal_ack copy_at
marshal_data-bytes p h = rw (copy-replicate p.payload)

write_data : (p : Data) → write_packet (data_packet p) 56 ≡ ok (layout (data_packet p))
unfolding write_packet header payload_of marshal_fields layout
write_data p =
    rw
      (
        replicate-add {A = ℕ} 56 (length p.payload) 0,
        marshal_common-bytes p.common (replicate 28 0 ++ replicate (length p.payload) 0),
      )
      (marshal_data-bytes p p.common)

abbrev packed_size : Packet → ℕ
packed_size (data_packet p) = 56
packed_size (grant_packet p) = 33
packed_size (resend_packet p) = 37
packed_size (cutoffs_packet p) = 62
packed_size (ack_packet p) = 80
packed_size _ = 28

-- A buffer of the type's size holds the fields exactly.
write_packet-layout : (p : Packet) → write_packet p (packed_size p) ≡ ok (layout p)
unfolding write_packet header payload_of marshal_common marshal_fields marshal_data marshal_cutoffs
    marshal_acks marshal_ack put_byte put_u16 put_u32 put_u64 put_three layout
write_packet-layout (data_packet p) = write_data p
write_packet-layout (grant_packet p) = refl
write_packet-layout (resend_packet p) = refl
write_packet-layout (rpc_unknown_packet h) = refl
write_packet-layout (busy_packet h) = refl
write_packet-layout (cutoffs_packet p) = refl
write_packet-layout (freeze_packet h) = refl
write_packet-layout (need_ack_packet h) = refl
write_packet-layout (ack_packet p) = refl
write_packet-layout (common_packet h) = refl
write_packet-layout (other h) = refl

-- The packets that can be written: the type byte agrees with the struct, a DATA payload leaves the
-- packet's length an `int`, an ACK has five records at most.
abbrev pub IsAcceptable : Packet → Type 0
IsAcceptable (data_packet p) =
    (p.common.type ≡ data_type) × (length p.payload ≤ max_int - data_size)
IsAcceptable (grant_packet p) = p.common.type ≡ grant_type
IsAcceptable (resend_packet p) = p.common.type ≡ resend_type
IsAcceptable (rpc_unknown_packet h) = h.type ≡ rpc_unknown_type
IsAcceptable (busy_packet h) = h.type ≡ busy_type
IsAcceptable (cutoffs_packet p) = p.common.type ≡ cutoffs_type
IsAcceptable (freeze_packet h) = h.type ≡ freeze_type
IsAcceptable (need_ack_packet h) = h.type ≡ need_ack_type
IsAcceptable (ack_packet p) = (p.common.type ≡ ack_type) × (p.num_acks ≤ max_acks)
IsAcceptable (common_packet h) =
    (h.type ≡ rpc_unknown_type)
    ⊎ (h.type ≡ busy_type)
    ⊎ (h.type ≡ freeze_type)
    ⊎ (h.type ≡ need_ack_type)
IsAcceptable (other h) = ⊥

marshal-write : (p : Packet) → IsAcceptable p → marshal p ≡ write_packet p (packed_size p)
unfolding marshal checked_write header header_size expected_type payload_of
marshal-write (common_packet h) a = ground arith
marshal-write (data_packet p) a = ground arith
marshal-write (ack_packet p) a = ground arith
marshal-write (other h) a = elim a [ ]
marshal-write _ a = ground arith

marshal-IsAcceptable : (p : Packet) (b : List ℕ) → marshal p ≡ ok b → IsAcceptable p
unfolding marshal checked_write header header_size expected_type payload_of
marshal-IsAcceptable (common_packet h) b e = ground arith
marshal-IsAcceptable (data_packet p) b e = ground arith
marshal-IsAcceptable (ack_packet p) b e = ground arith
marshal-IsAcceptable (other h) b e = ground arith
marshal-IsAcceptable _ b e = ground arith

-- `Marshal` succeeds exactly on the acceptable packets, and its bytes are then the layout of
-- homa_wire.h: every field big endian at its place, and for DATA the payload behind the header.
pub marshal-eq-ok_iff :
    (p : Packet) (b : List ℕ) → (marshal p ≡ ok b) ↔ (IsAcceptable p × (b ≡ layout p))
marshal-eq-ok_iff p b = (
  λ e. (
    marshal-IsAcceptable p b e,
    cc (marshal-write p (marshal-IsAcceptable p b e), write_packet-layout p),
  ),
  λ a. cc (marshal-write p a.0, write_packet-layout p, a.1),
)

-- `Marshal` answers every packet with bytes or an error: no index or slice of the buffer that it
-- makes is ever out of range, not even for a packet whose type byte is that of another struct.
pub marshal-ne-panic : (p : Packet) → marshal p ≢ panic
unfolding marshal checked_write header header_size expected_type payload_of
marshal-ne-panic (common_packet h) e = let w = write_packet-layout (common_packet h) in ground arith
marshal-ne-panic (data_packet p) e = let w = write_packet-layout (data_packet p) in ground arith
marshal-ne-panic (ack_packet p) e = let w = write_packet-layout (ack_packet p) in ground arith
marshal-ne-panic (other h) e = ground arith
marshal-ne-panic p e = let w = write_packet-layout p in ground arith
