-- ===== src/Wire/Marshal.antt =====
-- `Marshal` of internal/wire/wire.go: a buffer of zeros is made and every field is written at its
-- offset. A write out of range would be a panic.
use mac_homa.Common.{
  ℕ, ◌+◌, ◌-◌, ltb, ◌==◌, not, if◌then◌else◌, List, [], none, some, length, replicate,
}
use mac_homa.Wire.{
  Common, AckRecord, Data, Cutoffs, Ack, Packet, data_packet, grant_packet, resend_packet,
  rpc_unknown_packet, busy_packet, cutoffs_packet, freeze_packet, need_ack_packet, ack_packet,
  common_packet, other, Argument, nothing, value, pointer, nil_pointer, Result, ok, err, ◌>>=◌,
  packet_type, ack_count, data_bounds, data_type, grant_type, resend_type, rpc_unknown_type,
  busy_type, cutoffs_type, freeze_type, need_ack_type, ack_type, common_size, max_acks, max_int,
  header, header_size,
}
use mac_homa.Wire.Bytes.{put_byte, put_u16, put_u32, put_u64, put_three, copy_at}

unfoldable pub marshal_common : Common → List ℕ → Result (List ℕ)
marshal_common h b = do
  b ← put_u16 0 h.source_port b
  b ← put_u16 2 h.destination_port b
  b ← put_u32 4 h.sequence b
  b ← put_three 8 h.ack_bytes b
  b ← put_byte 11 h.type b
  b ← put_byte 12 h.data_offset b
  b ← put_byte 13 h.flags b
  b ← put_u16 14 h.window b
  b ← put_u16 16 h.checksum b
  b ← put_u16 18 h.urgent b
  put_u64 20 h.sender_id b

-- marshalAck(b[i:i+10], ack)
unfoldable pub marshal_ack : ℕ → AckRecord → List ℕ → Result (List ℕ)
marshal_ack i a b = do b ← put_u64 i a.client_id b; put_u16 (i + 8) a.server_port b

-- The type that the packet's struct expects; the checks of the first type switch.
unfoldable pub expected_type : Packet → ℕ → Result ℕ
expected_type (data_packet p) size = ok data_type
expected_type (grant_packet p) size = ok grant_type
expected_type (resend_packet p) size = ok resend_type
expected_type (rpc_unknown_packet h) size = ok rpc_unknown_type
expected_type (busy_packet h) size = ok busy_type
expected_type (cutoffs_packet p) size = ok cutoffs_type
expected_type (freeze_packet h) size = ok freeze_type
expected_type (need_ack_packet h) size = ok need_ack_type
expected_type (ack_packet p) size = if ltb max_acks p.num_acks then err ack_count else ok ack_type
expected_type (common_packet h) size =
    if not (size == common_size) then err packet_type else ok h.type
expected_type (other h) size = err packet_type

unfoldable pub payload_of : Packet → List ℕ
payload_of (data_packet p) = p.payload
payload_of _ = []

unfoldable pub marshal_data : Data → List ℕ → Result (List ℕ)
marshal_data p b = do
  b ← put_u32 28 p.message_length b
  b ← put_u32 32 p.incoming b
  b ← marshal_ack 36 p.ack b
  b ← put_u16 46 p.cutoff_version b
  b ← put_byte 48 p.retransmit b
  b ← put_three 49 p.padding b
  b ← put_u32 52 p.segment_offset b
  copy_at 56 p.payload b

unfoldable pub marshal_cutoffs : Cutoffs → List ℕ → Result (List ℕ)
marshal_cutoffs p b = do
  let c = p.unscheduled_cutoffs
  b ← put_u32 28 c.at0 b
  b ← put_u32 32 c.at1 b
  b ← put_u32 36 c.at2 b
  b ← put_u32 40 c.at3 b
  b ← put_u32 44 c.at4 b
  b ← put_u32 48 c.at5 b
  b ← put_u32 52 c.at6 b
  b ← put_u32 56 c.at7 b
  put_u16 60 p.cutoff_version b

unfoldable pub marshal_acks : Ack → List ℕ → Result (List ℕ)
marshal_acks p b = do
  b ← put_u16 28 p.num_acks b
  b ← marshal_ack 30 p.acks.ack0 b
  b ← marshal_ack 40 p.acks.ack1 b
  b ← marshal_ack 50 p.acks.ack2 b
  b ← marshal_ack 60 p.acks.ack3 b
  marshal_ack 70 p.acks.ack4 b

-- The second type switch.
unfoldable pub marshal_fields : Packet → List ℕ → Result (List ℕ)
marshal_fields (data_packet p) b = marshal_data p b
marshal_fields (grant_packet p) b = do b ← put_u32 28 p.offset b; put_byte 32 p.priority b
marshal_fields (resend_packet p) b = do
  b ← put_u32 28 p.offset b
  b ← put_u32 32 p.length b
  put_byte 36 p.priority b
marshal_fields (cutoffs_packet p) b = marshal_cutoffs p b
marshal_fields (ack_packet p) b = marshal_acks p b
marshal_fields _ b = ok b

-- make([]byte, size+len(payload)), then the common header and the fields of the type.
unfoldable pub write_packet : Packet → ℕ → Result (List ℕ)
write_packet p size = do
  b ← marshal_common (header p) (replicate (size + length (payload_of p)) 0)
  marshal_fields p b

unfoldable pub checked_write : Packet → ℕ → Result (List ℕ)
checked_write p size = do
  expected ← expected_type p size
  if not ((header p).type == expected)
      then err packet_type
      else if ltb (max_int - size) (length (payload_of p))
      then err data_bounds
      else write_packet p size

unfoldable pub marshal : Packet → Result (List ℕ)
marshal p = elim (header_size (header p).type) [
  | none ↦ err packet_type
  | some size ↦ checked_write p size
]

-- Pointers are followed unless they are nil.
unfoldable pub marshal_argument : Argument → Result (List ℕ)
marshal_argument nothing = err packet_type
marshal_argument (value p) = marshal p
marshal_argument (pointer p) = marshal p
marshal_argument nil_pointer = err packet_type
