-- ===== src/Vmcheck.antt =====
-- interop/vmcheck/main.go: the PacketIO between an endpoint on the host and the Linux virtual
-- machine, over Ethernet frames with a length before each.
pub mod Frames
pub mod Ends
pub mod Examples
use mac_homa.Common.{
  ℕ, zero, suc, ◌+◌, ◌-◌, ◌*◌, ◌/◌, ◌%◌, ◌^◌, ◌==◌, ltb, Bool, true, false, not, ◌||◌,
  if◌then◌else◌, List, [], ◌∷◌, ◌++◌, Option, none, some, length, take, drop, replicate,
}
use mac_homa.Wire.{Result, ok, err, panic, ◌>>=◌, Error}
use mac_homa.Wire.Bytes.{byte_at, read_u16, read_u32, put_byte, put_u16, copy_at}
use mac_homa.Endpoint.{Ip, v4, eq_ip}
use mac_homa.RawIp.{from_octets}
use mac_homa.Relay.{as_slice}
use mac_homa.Relay.Checksum.{fold_carries}
use mac_homa.Relay.Packet.{equal, slice}
use mac_homa.Relay.Nic.{Wrote, Written, framed, write_framed, read_full}

abbrev pub host_ip : Ip
host_ip = v4 0x0a000001

abbrev pub guest_ip : Ip
guest_ip = v4 0x0a000002

abbrev pub host_mac : List ℕ
host_mac = 2 ∷ 0 ∷ 0 ∷ 0 ∷ 0 ∷ 1 ∷ []

abbrev pub guest_mac : List ℕ
guest_mac = 0x52 ∷ 0x54 ∷ 0 ∷ 0x12 ∷ 0x34 ∷ 0x56 ∷ []

-- The words `b[i:i+2]`; an odd byte at the end is out of range.
unfoldable pub sum_pairs : List ℕ → ℕ → Result ℕ
sum_pairs [] sum = ok sum
sum_pairs (x ∷ []) sum = panic
sum_pairs (x ∷ y ∷ b) sum = sum_pairs b ((sum + (x * 256 + y)) % 2 ^ 32)

unfoldable pub checksum : List ℕ → Result ℕ
checksum b = do sum ← sum_pairs b 0; ok (65535 - fold_carries 2 sum % 65536)

-- The frame that WritePacket makes; `priority << 5` is a byte.
unfoldable pub make_frame : List ℕ → ℕ → Result (List ℕ)
make_frame p priority = do
  f ← copy_at 0 guest_mac (replicate (14 + 20 + length p) 0)
  f ← copy_at 6 host_mac f
  f ← put_u16 12 0x0800 f
  f ← put_byte 14 0x45 f
  f ← put_byte 15 (priority * 2 ^ 5 % 256) f
  f ← put_u16 16 ((20 + length p) % 2 ^ 16) f
  f ← put_byte 22 64 f
  f ← put_byte 23 146 f
  f ← copy_at 26 (as_slice host_ip) f
  f ← copy_at 30 (as_slice guest_ip) f
  header ← slice f 14 34
  sum ← checksum header
  f ← put_u16 24 sum f
  copy_at 34 p f

-- The method `frame`, which goes on when the deadline cannot be set.
unfoldable pub frame : List Wrote → List ℕ → List ℕ × Written
frame answers f = write_framed answers (framed f)

-- `none` is the error "unexpected VM peer", before anything is written.
unfoldable pub write_packet : List ℕ → Ip → ℕ → Option (Result (List ℕ))
write_packet p peer priority =
    if not (eq_ip peer guest_ip) then none else some (make_frame p priority)

-- What ReadPacket does with a frame.
pub data Frame : Type 0 where
  skips : Frame
  replies : List ℕ → Frame
  too_long : Frame
  delivers : List ℕ → Ip → Frame

unfoldable pub arp_bytes : List ℕ → Result (List ℕ)
arp_bytes f = do
  source ← slice f 6 12
  kind ← slice f 12 22
  sender ← slice f 22 28
  address ← slice f 28 32
  reply ← copy_at 0 source (replicate 42 0)
  reply ← copy_at 6 host_mac reply
  reply ← copy_at 12 kind reply
  reply ← put_u16 20 2 reply
  reply ← copy_at 22 host_mac reply
  reply ← copy_at 28 (as_slice host_ip) reply
  reply ← copy_at 32 sender reply
  copy_at 38 address reply

unfoldable pub answer_arp : List ℕ → Result Frame
answer_arp f = do reply ← arp_bytes f; ok (replies reply)

unfoldable pub read_arp : List ℕ → Result Frame
read_arp f = if ltb (length f) 42 then ok skips else (do
  operation ← read_u16 f 20
  to ← slice f 38 42
  if not (operation == 1) || not (equal to (as_slice host_ip)) then ok skips else answer_arp f)

-- A datagram whose header is good, with its lengths.
unfoldable pub read_body : ℕ → List ℕ → ℕ → ℕ → Result Frame
read_body size ip header total = do
  source ← slice ip 12 16
  to ← slice ip 16 20
  if not (eq_ip (v4 (from_octets source 0)) guest_ip) || not (equal to (as_slice host_ip))
      then ok skips
      else if ltb size (total - header)
      then ok too_long
      else (do p ← slice ip header total; ok (delivers p (v4 (from_octets source 0))))

unfoldable pub read_header : ℕ → List ℕ → ℕ → ℕ → Result Frame
read_header size ip header total = do
  protocol ← byte_at ip 9
  if not (protocol == 146) then ok skips else (do
    bytes ← slice ip 0 header
    sum ← checksum bytes
    fragment ← read_u16 ip 6
    if not (sum == 0) || not (fragment % 2 ^ 14 == 0)
        then ok skips
        else read_body size ip header total)

unfoldable pub read_ip : ℕ → List ℕ → Result Frame
read_ip size f = if ltb (length f) 34 then ok skips else (do
  ip ← slice f 14 (length f)
  first ← byte_at ip 0
  total ← read_u16 ip 2
  let header = first % 16 * 4
  if not (first / 16 == 4) || ltb header 20 || ltb total header || ltb (length ip) total
      then ok skips
      else read_header size ip header total)

-- One frame, for a caller's buffer of `size` bytes.
unfoldable pub read_frame : ℕ → List ℕ → Result Frame
read_frame size f = do
  kind ← read_u16 f 12
  if kind == 0x0806 then read_arp f else if kind == 0x0800 then read_ip size f else ok skips

-- How ReadPacket ends, with what is left on the stream; `waits` when the fuel is spent. No read of a
-- frame gives an error of the wire format.
pub data Ended : Type 0 where
  waits stream_ends bad_size short_buffer panics : Ended
  wire_error : Error → Ended
  write_fails : ℕ → Ended
  packet : List ℕ → Ip → List ℕ → Ended

-- The next frame on the stream, and what is left.
pub data Next : Type 0 where
  nothing bad_length unreadable : Next
  got : List ℕ → List ℕ → Next

unfoldable pub next_sized : List ℕ → Result ℕ → Next
next_sized rest (ok size) =
    if ltb size 14 || ltb (65535 + 14) size
    then bad_length
    else elim (read_full rest size) [ none ↦ nothing | some (f, left) ↦ got f left ]
next_sized rest _ = unreadable

unfoldable pub next_frame : List ℕ → Next
next_frame stream = elim (read_full stream 4) [
  | none ↦ nothing
  | some (prefix, rest) ↦ next_sized rest (read_u32 prefix 0)
]

-- The loop, with the replies written so far; `write` is the error of `frame` for a reply. A frame
-- takes 4 bytes at least, so that the length of the stream is fuel enough.
unfoldable pub read_loop :
    ℕ → (List ℕ → Option ℕ) → ℕ → List ℕ → List (List ℕ) → List (List ℕ) × Ended
read_loop zero write size stream sent = (sent, waits)
read_loop (suc fuel) write size stream sent = elim (next_frame stream) [
  | nothing ↦ (sent, stream_ends)
  | bad_length ↦ (sent, bad_size)
  | unreadable ↦ (sent, panics)
  | got f rest ↦ elim (read_frame size f) [
    | ok skips ↦ read_loop fuel write size rest sent
    | ok (replies reply) ↦ elim (write reply) [
      | some e ↦ (sent, write_fails e)
      | none ↦ read_loop fuel write size rest (sent ++ (reply ∷ []))
    ]
    | ok too_long ↦ (sent, short_buffer)
    | ok (delivers p ip) ↦ (sent, packet p ip rest)
    | err e ↦ (sent, wire_error e)
    | panic ↦ (sent, panics)
  ]
]

unfoldable pub read_packet : (List ℕ → Option ℕ) → ℕ → List ℕ → List (List ℕ) × Ended
read_packet write size stream = read_loop (suc (length stream)) write size stream []
