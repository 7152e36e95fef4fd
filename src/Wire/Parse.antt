-- ===== src/Wire/Parse.antt =====
-- `Parse` of internal/wire/wire.go: every index and slice is a read that may panic.
use mac_homa.Common.{ℕ, ◌+◌, ltb, ◌==◌, if◌then◌else◌, List, none, some, length}
use mac_homa.Wire.{
  Common, AckRecord, Packet, data_packet, grant_packet, resend_packet, rpc_unknown_packet,
  busy_packet, cutoffs_packet, freeze_packet, need_ack_packet, ack_packet, Result, ok, err, panic,
  ◌>>=◌, truncated, packet_type, ack_count, data_type, grant_type, resend_type, rpc_unknown_type,
  busy_type, cutoffs_type, freeze_type, need_ack_type, ack_type, common_size, data_size, max_acks,
  header_size,
}
use mac_homa.Wire.Bytes.{byte_at, read_u16, read_u32, read_u64, read_three, slice_from}

unfoldable pub parse_common : List ℕ → Result Common
parse_common b = do
  source ← read_u16 b 0
  destination ← read_u16 b 2
  sequence ← read_u32 b 4
  ack ← read_three b 8
  type ← byte_at b 11
  offset ← byte_at b 12
  flags ← byte_at b 13
  window ← read_u16 b 14
  checksum ← read_u16 b 16
  urgent ← read_u16 b 18
  sender ← read_u64 b 20
  ok (record {
    source_port = source;
    destination_port = destination;
    sequence = sequence;
    ack_bytes = ack;
    type = type;
    data_offset = offset;
    flags = flags;
    window = window;
    checksum = checksum;
    urgent = urgent;
    sender_id = sender;
  })

-- parseAck(b[i:i+10])
unfoldable pub parse_ack : List ℕ → ℕ → Result AckRecord
parse_ack b i = do
  client ← read_u64 b i
  port ← read_u16 b (i + 8)
  ok (record { client_id = client; server_port = port })

unfoldable pub parse_data : Common → List ℕ → Result Packet
parse_data h b = do
  message_length ← read_u32 b 28
  incoming ← read_u32 b 32
  ack ← parse_ack b 36
  version ← read_u16 b 46
  retransmit ← byte_at b 48
  padding ← read_three b 49
  offset ← read_u32 b 52
  payload ← slice_from b data_size
  ok (
      data_packet (record {
        common = h;
        message_length = message_length;
        incoming = incoming;
        ack = ack;
        cutoff_version = version;
        retransmit = retransmit;
        padding = padding;
        segment_offset = offset;
        payload = payload;
      }))

unfoldable pub parse_grant : Common → List ℕ → Result Packet
parse_grant h b = do
  offset ← read_u32 b 28
  priority ← byte_at b 32
  ok (grant_packet (record { common = h; offset = offset; priority = priority }))

unfoldable pub parse_resend : Common → List ℕ → Result Packet
parse_resend h b = do
  offset ← read_u32 b 28
  length ← read_u32 b 32
  priority ← byte_at b 36
  ok (resend_packet (record { common = h; offset = offset; length = length; priority = priority }))

unfoldable pub parse_cutoffs : Common → List ℕ → Result Packet
parse_cutoffs h b = do
  version ← read_u16 b 60
  c0 ← read_u32 b 28
  c1 ← read_u32 b 32
  c2 ← read_u32 b 36
  c3 ← read_u32 b 40
  c4 ← read_u32 b 44
  c5 ← read_u32 b 48
  c6 ← read_u32 b 52
  c7 ← read_u32 b 56
  ok (
      cutoffs_packet (record {
        common = h;
        unscheduled_cutoffs = record {
          at0 = c0;
          at1 = c1;
          at2 = c2;
          at3 = c3;
          at4 = c4;
          at5 = c5;
          at6 = c6;
          at7 = c7;
        };
        cutoff_version = version;
      }))

unfoldable pub parse_acks : Common → ℕ → List ℕ → Result Packet
parse_acks h count b = do
  a0 ← parse_ack b 30
  a1 ← parse_ack b 40
  a2 ← parse_ack b 50
  a3 ← parse_ack b 60
  a4 ← parse_ack b 70
  ok (
      ack_packet (record {
        common = h;
        num_acks = count;
        acks = record { ack0 = a0; ack1 = a1; ack2 = a2; ack3 = a3; ack4 = a4 };
      }))

-- The switch on the type, for a packet of at least the header's size.
unfoldable pub parse_body : Common → List ℕ → Result Packet
parse_body h b =
    if h.type == data_type
    then parse_data h b
    else if h.type == grant_type
    then parse_grant h b
    else if h.type == resend_type
    then parse_resend h b
    else if h.type == rpc_unknown_type
    then ok (rpc_unknown_packet h)
    else if h.type == busy_type
    then ok (busy_packet h)
    else if h.type == cutoffs_type
    then parse_cutoffs h b
    else if h.type == freeze_type
    then ok (freeze_packet h)
    else if h.type == need_ack_type
    then ok (need_ack_packet h)
    else if h.type == ack_type
    then (do
      count ← read_u16 b 28
      if ltb max_acks count then err ack_count else parse_acks h count b)
    else panic

unfoldable pub parse_sized : Common → List ℕ → Result Packet
parse_sized h b = elim (header_size h.type) [
  | none ↦ err packet_type
  | some size ↦ if ltb (length b) size then err truncated else parse_body h b
]

unfoldable pub parse : List ℕ → Result Packet
parse b =
    if ltb (length b) common_size then err truncated else (do h ← parse_common b; parse_sized h b)
