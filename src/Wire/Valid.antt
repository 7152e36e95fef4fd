-- ===== src/Wire/Valid.antt =====
-- What a value of the Go structs satisfies: every field is in the range of its unsigned type.
use mac_homa.Common.{ℕ, ◌^◌, ◌<◌}
use mac_homa.Wire.{
  Three, Common, AckRecord, Data, Eight, Five, Packet, data_packet, grant_packet, resend_packet,
  rpc_unknown_packet, busy_packet, cutoffs_packet, freeze_packet, need_ack_packet, ack_packet,
  common_packet, other,
}

abbrev pub IsByte : ℕ → Type 0
IsByte b = b < 256

abbrev pub IsU16 : ℕ → Type 0
IsU16 n = n < 2 ^ 16

abbrev pub IsU32 : ℕ → Type 0
IsU32 n = n < 2 ^ 32

abbrev pub IsU64 : ℕ → Type 0
IsU64 n = n < 2 ^ 64

abbrev pub IsThree : Three → Type 0
IsThree t = IsByte t.first × IsByte t.second × IsByte t.third

pub record IsCommon (h : Common) : Type 0 where
  pub source_port : IsU16 h.source_port
  pub destination_port : IsU16 h.destination_port
  pub sequence : IsU32 h.sequence
  pub ack_bytes : IsThree h.ack_bytes
  pub type : IsByte h.type
  pub data_offset : IsByte h.data_offset
  pub flags : IsByte h.flags
  pub window : IsU16 h.window
  pub checksum : IsU16 h.checksum
  pub urgent : IsU16 h.urgent
  pub sender_id : IsU64 h.sender_id

abbrev pub IsAckRecord : AckRecord → Type 0
IsAckRecord a = IsU64 a.client_id × IsU16 a.server_port

pub record IsData (p : Data) : Type 0 where
  pub common : IsCommon p.common
  pub message_length : IsU32 p.message_length
  pub incoming : IsU32 p.incoming
  pub ack : IsAckRecord p.ack
  pub cutoff_version : IsU16 p.cutoff_version
  pub retransmit : IsByte p.retransmit
  pub padding : IsThree p.padding
  pub segment_offset : IsU32 p.segment_offset

abbrev pub IsEight : Eight → Type 0
IsEight c =
    IsU32 c.at0
    × IsU32 c.at1
    × IsU32 c.at2
    × IsU32 c.at3
    × IsU32 c.at4
    × IsU32 c.at5
    × IsU32 c.at6
    × IsU32 c.at7

abbrev pub IsFive : Five → Type 0
IsFive f =
    IsAckRecord f.ack0
    × IsAckRecord f.ack1
    × IsAckRecord f.ack2
    × IsAckRecord f.ack3
    × IsAckRecord f.ack4

abbrev pub IsPacket : Packet → Type 0
IsPacket (data_packet p) = IsData p
IsPacket (grant_packet p) = IsCommon p.common × IsU32 p.offset × IsByte p.priority
IsPacket (resend_packet p) = IsCommon p.common × IsU32 p.offset × IsU32 p.length × IsByte p.priority
IsPacket (rpc_unknown_packet h) = IsCommon h
IsPacket (busy_packet h) = IsCommon h
IsPacket (cutoffs_packet p) =
    IsCommon p.common × IsEight p.unscheduled_cutoffs × IsU16 p.cutoff_version
IsPacket (freeze_packet h) = IsCommon h
IsPacket (need_ack_packet h) = IsCommon h
IsPacket (ack_packet p) = IsCommon p.common × IsU16 p.num_acks × IsFive p.acks
IsPacket (common_packet h) = IsCommon h
IsPacket (other h) = IsCommon h
