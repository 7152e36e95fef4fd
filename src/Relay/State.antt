-- ===== src/Relay/State.antt =====
-- The state of the relay, `noteAcks`, and one round of `lanToVM` and of `vmToLAN`, cut where they
-- write. A counter of a map by traffic class is a function with 0 where the map has no key.
use mac_homa.Common.{
  ℕ, zero, suc, ◌+◌, ◌*◌, ◌%◌, ◌==◌, ltb, Bool, true, false, not, ◌&&◌, ◌||◌, if◌then◌else◌, List,
  [], ◌∷◌, Option, none, some, length,
}
use mac_homa.Wire.{Result, ok, ◌>>=◌}
use mac_homa.Wire.Bytes.{byte_at, read_u16, read_u64}
use mac_homa.Endpoint.{Ip}
use mac_homa.Relay.{virtual_host, virtual_guest, guest_mac}
use mac_homa.Relay.Packet.{native_packet, allowed_homa, ethernet_packet, slice, equal}
use mac_homa.Relay.Nic.{arp}

pub record Report : Type 0 where
  pub lan_to_vm : ℕ
  pub vm_to_lan : ℕ
  pub dropped_lan : ℕ
  pub dropped_vm : ℕ
  pub lan_send_buffer_drops : ℕ
  pub observed_lan_tos : ℕ → ℕ
  pub observed_vm_tos : ℕ → ℕ
  pub requested_lan_tos : ℕ → ℕ

pub record State : Type 0 where
  pub report : Report
  pub acks : List ℕ

abbrev pub bump : (ℕ → ℕ) → ℕ → ℕ → ℕ
bump m k j = if k == j then m j + 1 else m j

abbrev pub has_key : ℕ → List ℕ → Bool
has_key k [] = false
has_key k (x ∷ xs) = x == k || has_key k xs

-- `add`
unfoldable pub add_ack : ℕ → List ℕ → List ℕ
add_ack id acks =
    if not (id == 0) && id % 2 == 0 && ltb (length acks) 1024
    then (if has_key id acks then acks else id ∷ acks)
    else acks

-- The loop over the ACK records `i` to `i + rounds - 1`.
unfoldable pub note_records : ℕ → ℕ → List ℕ → List ℕ → Result (List ℕ)
note_records zero i p acks = ok acks
note_records (suc rounds) i p acks = do
  port ← read_u16 p (30 + i * 10 + 8)
  id ← read_u64 p (30 + i * 10)
  note_records rounds (suc i) p (if port == 4000 then add_ack id acks else acks)

unfoldable pub note_ack_packet : List ℕ → List ℕ → Result (List ℕ)
note_ack_packet p acks = do
  sender ← read_u64 p 20
  count ← read_u16 p 28
  let noted = add_ack sender acks
  if ltb 5 count then ok noted else note_records count 0 p noted

unfoldable pub note_data : List ℕ → List ℕ → Result (List ℕ)
note_data p acks = do
  port ← read_u16 p 44
  id ← read_u64 p 36
  ok (if port == 4000 then add_ack id acks else acks)

unfoldable pub note_acks : List ℕ → List ℕ → Result (List ℕ)
note_acks p acks = do
  src ← read_u16 p 0
  dst ← read_u16 p 2
  if not (src == 4003) || not (dst == 4000) then ok acks else (do
    type ← byte_at p 11
    if type == 0x18
        then note_ack_packet p acks
        else if type == 0x10
        then note_data p acks
        else ok acks)

-- What a round of `lanToVM` does with a datagram: drop it, or write a frame for its Homa bytes.
pub data FromLan : Type 0 where
  lan_dropped : State → FromLan
  lan_frame : List ℕ → ℕ → List ℕ → FromLan

unfoldable pub drop_lan : State → State
drop_lan s = record s { report = record s.report { dropped_lan = s.report.dropped_lan + 1 } }

unfoldable pub drop_vm : State → State
drop_vm s = record s { report = record s.report { dropped_vm = s.report.dropped_vm + 1 } }

-- With what `nativePacket` has found.
unfoldable pub lan_taken : State → Bool → Option (List ℕ × ℕ) → Result FromLan
lan_taken s truncated none = ok (lan_dropped (drop_lan s))
lan_taken s truncated (some (p, tos)) = do
  allowed ← allowed_homa p true
  if truncated || not allowed
      then ok (lan_dropped (drop_lan s))
      else (do frame ← ethernet_packet p tos; ok (lan_frame p tos frame))

-- From ReadMsgIP to the write; `truncated` is the flag MSG_TRUNC.
unfoldable pub lan_begin : State → Ip → Ip → List ℕ → Bool → Result FromLan
lan_begin s local peer datagram truncated = do
  taken ← native_packet datagram peer local
  lan_taken s truncated taken

-- After a write without an error. An error ends the relay.
unfoldable pub lan_end : State → List ℕ → ℕ → Result State
lan_end s p tos = do
  acks ← note_acks p s.acks
  ok (record {
    report = record s.report {
      lan_to_vm = s.report.lan_to_vm + 1;
      observed_lan_tos = bump s.report.observed_lan_tos tos;
    };
    acks = acks;
  })

-- What a round of `vmToLAN` does with a frame.
pub data FromVm : Type 0 where
  answers_arp : Option (List ℕ) → FromVm
  ignores : FromVm
  vm_dropped : State → FromVm
  -- The Homa bytes for the LAN, with the traffic class that they ask for.
  vm_packet : List ℕ → ℕ → FromVm

unfoldable pub vm_taken : State → Option (List ℕ × ℕ) → Result FromVm
vm_taken s none = ok (vm_dropped (drop_vm s))
vm_taken s (some (p, tos)) = do
  allowed ← allowed_homa p false
  ok (if not allowed then vm_dropped (drop_vm s) else vm_packet p tos)

unfoldable pub vm_datagram : State → List ℕ → Result FromVm
vm_datagram s ip = do taken ← native_packet ip virtual_guest virtual_host; vm_taken s taken

unfoldable pub vm_begin : State → List ℕ → Result FromVm
vm_begin s frame = do
  kind ← read_u16 frame 12
  if kind == 0x0806 then (do reply ← arp frame; ok (answers_arp reply)) else (do
    source ← slice frame 6 12
    if not (kind == 0x0800) || not (equal source guest_mac)
        then ok ignores
        else (do ip ← slice frame 14 (length frame); vm_datagram s ip))

-- The errors that a raw socket's write can give.
pub data SocketError : Type 0 where
  enobufs eagain : SocketError
  other_error : ℕ → SocketError

abbrev pub transient_send_drop : SocketError → Bool
transient_send_drop enobufs = true
transient_send_drop eagain = true
transient_send_drop (other_error n) = false

-- How the round ends: the relay goes on, or stops with an error or a short write.
pub data Ending : Type 0 where
  goes_on : State → Ending
  stops : State → Option SocketError → Ending

-- With the options set and the deadline: the counters, then the answer of WriteToIP.
unfoldable pub vm_requested : State → ℕ → State
vm_requested s tos = record s {
  report = record s.report {
    observed_vm_tos = bump s.report.observed_vm_tos tos;
    requested_lan_tos = bump s.report.requested_lan_tos tos;
  };
}

unfoldable pub vm_refused : State → SocketError → Ending
vm_refused s e =
    if transient_send_drop e
    then goes_on (record s {
      report = record s.report {
        dropped_vm = s.report.dropped_vm + 1;
        lan_send_buffer_drops = s.report.lan_send_buffer_drops + 1;
      };
    })
    else stops s (some e)

unfoldable pub vm_sent : State → List ℕ → ℕ → Ending
vm_sent s p n =
    if not (n == length p)
    then stops s none
    else goes_on (record s { report = record s.report { vm_to_lan = s.report.vm_to_lan + 1 } })

-- `setting` is the error of the option or of the deadline, `answer` that of the write or its count.
unfoldable pub vm_end : State → List ℕ → ℕ → Option SocketError → Option SocketError → ℕ → Ending
vm_end s p tos (some e) answer n = stops s (some e)
vm_end s p tos none (some e) n = vm_refused (vm_requested s tos) e
vm_end s p tos none none n = vm_sent (vm_requested s tos) p n
