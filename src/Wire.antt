-- ===== src/Wire.antt =====
-- internal/wire/wire.go: the native Homa headers, without an IP header. A byte slice is a list of
-- numbers below 256, and an unsigned field is a number with its range as a hypothesis.
pub mod Bytes
pub mod Marshal
pub mod Parse
pub mod Valid
pub mod Safety
pub mod Layout
pub mod Write
pub mod RoundTrip
pub mod Bounds
pub mod Examples
use mac_homa.Common.{
  ℕ, ◌+◌, ◌-◌, ◌*◌, ◌/◌, ◌%◌, ◌^◌, ◌≤◌, ◌<◌, ◌==◌, ltb, leb, Bool, true, false, ◌||◌, ◌&&◌,
  if◌then◌else◌, List, [], ◌∷◌, Option, none, some, length,
}

-- The packet types, `0x10 + iota`.
abbrev pub data_type : ℕ
data_type = 0x10

abbrev pub grant_type : ℕ
grant_type = 0x11

abbrev pub resend_type : ℕ
resend_type = 0x12

abbrev pub rpc_unknown_type : ℕ
rpc_unknown_type = 0x13

abbrev pub busy_type : ℕ
busy_type = 0x14

abbrev pub cutoffs_type : ℕ
cutoffs_type = 0x15

abbrev pub freeze_type : ℕ
freeze_type = 0x16

abbrev pub need_ack_type : ℕ
need_ack_type = 0x17

abbrev pub ack_type : ℕ
ack_type = 0x18

abbrev pub common_size : ℕ
common_size = 28

abbrev pub data_size : ℕ
data_size = 56

abbrev pub grant_size : ℕ
grant_size = 33

abbrev pub resend_size : ℕ
resend_size = 37

abbrev pub cutoffs_size : ℕ
cutoffs_size = 62

abbrev pub ack_size : ℕ
ack_size = 80

abbrev pub max_acks : ℕ
max_acks = 5

-- `uint8((DataSize - SegmentSize) / 4 << 4)` and `uint8(5 << 4)`
abbrev pub data_offset_byte : ℕ
data_offset_byte = (56 - 4) / 4 * 16 % 256

abbrev pub control_offset_byte : ℕ
control_offset_byte = 5 * 16 % 256

abbrev pub sequence_offset : ℕ
sequence_offset = 0xffffffff

abbrev pub resend_all : ℕ
resend_all = 0xffffffff

-- The largest Go `int` on a 64-bit platform: `int(^uint(0)>>1)`.
abbrev pub max_int : ℕ
max_int = 2 ^ 63 - 1

pub data Error : Type 0 where
  truncated packet_type ack_count data_bounds : Error

-- Go's `(value, error)` pair, and a run-time panic: an index or slice out of range, or `panic`.
pub data Result {ℓ} (A : Type ℓ) : Type ℓ where
  ok : A → Result A
  err : Error → Result A
  panic : Result A

infixl 5 ◌>>=◌
abbrev pub ◌>>=◌ {ℓ κ} : {A : Type ℓ} {B : Type κ} → Result A → (A → Result B) → Result B
ok a >>= f = f a
err e >>= f = err e
panic >>= f = panic

-- `[3]byte`
pub record Three : Type 0 where
  pub first : ℕ
  pub second : ℕ
  pub third : ℕ

pub record Common : Type 0 where
  pub source_port : ℕ
  pub destination_port : ℕ
  pub sequence : ℕ
  pub ack_bytes : Three
  pub type : ℕ
  pub data_offset : ℕ
  pub flags : ℕ
  pub window : ℕ
  pub checksum : ℕ
  pub urgent : ℕ
  pub sender_id : ℕ

pub record AckRecord : Type 0 where
  pub client_id : ℕ
  pub server_port : ℕ

pub record Data : Type 0 where
  pub common : Common
  pub message_length : ℕ
  pub incoming : ℕ
  pub ack : AckRecord
  pub cutoff_version : ℕ
  pub retransmit : ℕ
  pub padding : Three
  pub segment_offset : ℕ
  pub payload : List ℕ

pub record Grant : Type 0 where
  pub common : Common
  pub offset : ℕ
  pub priority : ℕ

pub record Resend : Type 0 where
  pub common : Common
  pub offset : ℕ
  pub length : ℕ
  pub priority : ℕ

-- `[MaxPriorities]uint32`
pub record Eight : Type 0 where
  pub at0 : ℕ
  pub at1 : ℕ
  pub at2 : ℕ
  pub at3 : ℕ
  pub at4 : ℕ
  pub at5 : ℕ
  pub at6 : ℕ
  pub at7 : ℕ

pub record Cutoffs : Type 0 where
  pub common : Common
  pub unscheduled_cutoffs : Eight
  pub cutoff_version : ℕ

-- `[MaxAcks]AckRecord`
pub record Five : Type 0 where
  pub ack0 : AckRecord
  pub ack1 : AckRecord
  pub ack2 : AckRecord
  pub ack3 : AckRecord
  pub ack4 : AckRecord

pub record Ack : Type 0 where
  pub common : Common
  pub num_acks : ℕ
  pub acks : Five

-- The value forms of the packet structs. `other` is any other value with a `Header` method,
-- such as a bare `Common`.
pub data Packet : Type 0 where
  data_packet : Data → Packet
  grant_packet : Grant → Packet
  resend_packet : Resend → Packet
  rpc_unknown_packet : Common → Packet
  busy_packet : Common → Packet
  cutoffs_packet : Cutoffs → Packet
  freeze_packet : Common → Packet
  need_ack_packet : Common → Packet
  ack_packet : Ack → Packet
  common_packet : Common → Packet
  other : Common → Packet

-- What the interface `Packet` can hold: nothing, a value, a pointer, or a nil pointer to one of the
-- packet structs.
pub data Argument : Type 0 where
  nothing : Argument
  value : Packet → Argument
  pointer : Packet → Argument
  nil_pointer : Argument

unfoldable pub header : Packet → Common
header (data_packet p) = p.common
header (grant_packet p) = p.common
header (resend_packet p) = p.common
header (rpc_unknown_packet h) = h
header (busy_packet h) = h
header (cutoffs_packet p) = p.common
header (freeze_packet h) = h
header (need_ack_packet h) = h
header (ack_packet p) = p.common
header (common_packet h) = h
header (other h) = h

-- `id ^ 1`
unfoldable pub local_id : ℕ → ℕ
local_id sender = if sender % 2 == 0 then sender + 1 else sender - 1

unfoldable pub new_common : ℕ → ℕ → ℕ → ℕ → Common
new_common type source destination sender = record {
  source_port = source;
  destination_port = destination;
  sequence = 0;
  ack_bytes = record { first = 0; second = 0; third = 0 };
  type = type;
  data_offset = if type == data_type then data_offset_byte else control_offset_byte;
  flags = 0;
  window = 0;
  checksum = 0;
  urgent = 0;
  sender_id = sender;
}

unfoldable pub effective_offset : Data → ℕ
effective_offset p =
    if p.segment_offset == sequence_offset then p.common.sequence else p.segment_offset

-- `none` is a nil error. The sum is widened to uint64.
unfoldable pub validate_bounds : Data → ℕ → Option Error
unfolding effective_offset
validate_bounds p max_message =
    if p.message_length == 0
      || ltb max_message p.message_length
      || ltb p.message_length ((effective_offset p + length p.payload) % 2 ^ 64)
    then some data_bounds
    else none

unfoldable pub header_size : ℕ → Option ℕ
header_size type =
    if type == data_type
    then some data_size
    else if type == grant_type
    then some grant_size
    else if type == resend_type
    then some resend_size
    else if type == rpc_unknown_type
        || type == busy_type
        || type == freeze_type
        || type == need_ack_type
    then some common_size
    else if type == cutoffs_type
    then some cutoffs_size
    else if type == ack_type
    then some ack_size
    else none
