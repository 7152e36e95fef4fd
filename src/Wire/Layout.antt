-- ===== src/Wire/Layout.antt =====
-- The wire layout of homa_wire.h as the concatenation of its fields in order, each big endian:
-- what a packet is on the wire, without buffers and offsets.
use mac_homa.Common.{ℕ, ◌/◌, ◌%◌, ◌^◌, List, [], ◌∷◌, ◌++◌, ◌≡◌, arith}
use mac_homa.Wire.{
  Three, Common, AckRecord, Data, Eight, Five, Packet, data_packet, grant_packet, resend_packet,
  cutoffs_packet, ack_packet, header,
}
use mac_homa.Wire.Bytes.{be_u16, be_u32, be_u64}
use mac_homa.Wire.Valid.{IsU16, IsU32, IsU64}

abbrev pub bytes_u16 : ℕ → List ℕ
bytes_u16 v = (v / 256 % 256) ∷ (v % 256) ∷ []

abbrev pub bytes_u32 : ℕ → List ℕ
bytes_u32 v = (v / 2 ^ 24 % 256) ∷ (v / 2 ^ 16 % 256) ∷ (v / 256 % 256) ∷ (v % 256) ∷ []

abbrev pub bytes_u64 : ℕ → List ℕ
bytes_u64 v = bytes_u32 (v / 2 ^ 32) ++ bytes_u32 (v % 2 ^ 32)

abbrev pub bytes_three : Three → List ℕ
bytes_three t = t.first ∷ t.second ∷ t.third ∷ []

abbrev pub bytes_ack : AckRecord → List ℕ
bytes_ack a = bytes_u64 a.client_id ++ bytes_u16 a.server_port

abbrev pub bytes_common : Common → List ℕ
bytes_common h =
    bytes_u16 h.source_port
    ++ (bytes_u16 h.destination_port
        ++ (bytes_u32 h.sequence
            ++ (bytes_three h.ack_bytes
                ++ (h.type
                    ∷ h.data_offset
                    ∷ h.flags
                    ∷ (bytes_u16 h.window
                        ++ (bytes_u16 h.checksum
                            ++ (bytes_u16 h.urgent ++ bytes_u64 h.sender_id)))))))

abbrev pub bytes_eight : Eight → List ℕ
bytes_eight c =
    bytes_u32 c.at0
    ++ (bytes_u32 c.at1
        ++ (bytes_u32 c.at2
            ++ (bytes_u32 c.at3
                ++ (bytes_u32 c.at4 ++ (bytes_u32 c.at5 ++ (bytes_u32 c.at6 ++ bytes_u32 c.at7))))))

abbrev pub bytes_five : Five → List ℕ
bytes_five f =
    bytes_ack f.ack0
    ++ (bytes_ack f.ack1 ++ (bytes_ack f.ack2 ++ (bytes_ack f.ack3 ++ bytes_ack f.ack4)))

abbrev pub bytes_data_header : Data → List ℕ
bytes_data_header p =
    bytes_u32 p.message_length
    ++ (bytes_u32 p.incoming
        ++ (bytes_ack p.ack
            ++ (bytes_u16 p.cutoff_version
                ++ (p.retransmit ∷ (bytes_three p.padding ++ bytes_u32 p.segment_offset)))))

abbrev pub bytes_fields : Packet → List ℕ
bytes_fields (data_packet p) = bytes_data_header p ++ p.payload
bytes_fields (grant_packet p) = bytes_u32 p.offset ++ (p.priority ∷ [])
bytes_fields (resend_packet p) = bytes_u32 p.offset ++ (bytes_u32 p.length ++ (p.priority ∷ []))
bytes_fields (cutoffs_packet p) = bytes_eight p.unscheduled_cutoffs ++ bytes_u16 p.cutoff_version
bytes_fields (ack_packet p) = bytes_u16 p.num_acks ++ bytes_five p.acks
bytes_fields _ = []

-- The packet on the wire.
unfoldable pub layout : Packet → List ℕ
layout p = bytes_common (header p) ++ bytes_fields p

pub be_u16-bytes : (v : ℕ) → IsU16 v → be_u16 (v / 256 % 256) (v % 256) ≡ v
unfolding be_u16
be_u16-bytes v h = omega arith

pub be_u32-bytes :
    (v : ℕ) → IsU32 v → be_u32 (v / 2 ^ 24 % 256) (v / 2 ^ 16 % 256) (v / 256 % 256) (v % 256) ≡ v
unfolding be_u32
be_u32-bytes v h = omega arith

pub be_u64-bytes :
    (v : ℕ)
    → IsU64 v
    → be_u64
        (be_u32
          (v / 2 ^ 32 / 2 ^ 24 % 256)
          (v / 2 ^ 32 / 2 ^ 16 % 256)
          (v / 2 ^ 32 / 256 % 256)
          (v / 2 ^ 32 % 256))
        (be_u32
          (v % 2 ^ 32 / 2 ^ 24 % 256)
          (v % 2 ^ 32 / 2 ^ 16 % 256)
          (v % 2 ^ 32 / 256 % 256)
          (v % 2 ^ 32 % 256))
      ≡ v
unfolding be_u64
be_u64-bytes v h =
    rw (be_u32-bytes (v / 2 ^ 32) (omega arith), be_u32-bytes (v % 2 ^ 32) (omega arith))
      (omega arith)
