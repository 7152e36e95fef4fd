-- ===== src/Relay/Safety.antt =====
-- The relay on any datagram or frame whatever: no index or slice of it is out of range.
use mac_homa.Common.{
  ℕ, zero, suc, ◌+◌, ◌*◌, ◌/◌, ◌%◌, ◌≤◌, ◌≡◌, ◌≢◌, ◌==◌, ltb, Bool, true, false, not, ◌||◌,
  if◌then◌else◌, List, Option, none, some, length, get_or, arith, refl, ◌∙◌, sym, Bool-cases, inl,
  inr,
}
use mac_homa.Wire.{ok, panic}
use mac_homa.Wire.Bytes.{be_u16}
use mac_homa.Wire.Bytes.Total.{
  NoPanic, is_ok, NoPanic-ne-panic, NoPanic-bind, NoPanic-then, NoPanic-if, byte_at-NoPanic,
  read_u16-NoPanic, read_u64-NoPanic, byte_at-ok, read_u16-ok, ok_inj, IsOf-bind, IsOf-NoPanic,
  copy_at-IsOf, put_u16-IsOf,
}
use mac_homa.Endpoint.{Ip}
use mac_homa.Relay.{as_slice, virtual_host, virtual_guest, host_mac, guest_mac}
use mac_homa.Relay.Frame.{ethernet_packet-bytes}
use mac_homa.Relay.Deliver.{lan_begin-IsRelayed}
use mac_homa.Relay.Packet.{
  slice, has_native_header, native_body, native_packet, allowed_homa, is_allowed_port,
  is_long_enough, minimum_length, ethernet_packet, equal,
}
use mac_homa.Relay.Nic.{is_arp_request, arp_reply, arp}
use mac_homa.Relay.State.{
  note_records, note_ack_packet, note_data, note_acks, State, lan_begin, lan_taken, lan_end,
  vm_begin, vm_datagram, vm_taken, lan_frame,
}

pub slice-NoPanic : (b : List ℕ) (i j : ℕ) → i ≤ j → j ≤ length b → NoPanic (slice b i j)
unfolding slice
slice-NoPanic b i j h l =
    NoPanic-if (ltb j i || ltb (length b) j) _ _ (λ c. absurd (ground arith)) (λ c. is_ok _)

has_native_header-NoPanic :
    (ip : List ℕ) (header : ℕ) (source destination : Ip)
    → 20 ≤ length ip
    → header ≤ length ip
    → NoPanic (has_native_header ip header source destination)
unfolding has_native_header
has_native_header-NoPanic ip header source destination h l =
    NoPanic-bind _ _ (byte_at-NoPanic ip 9 (omega arith)) λ protocol.
      NoPanic-bind _ _ (slice-NoPanic ip 0 header (omega arith) l) λ bytes.
        NoPanic-bind _ _ (read_u16-NoPanic ip 6 (omega arith)) λ fragment.
          NoPanic-bind _ _ (slice-NoPanic ip 12 16 (omega arith) (omega arith)) λ from.
            NoPanic-bind _ _ (slice-NoPanic ip 16 20 (omega arith) (omega arith)) λ to. is_ok _

native_body-NoPanic :
    (ip : List ℕ) (source destination : Ip)
    → 20 ≤ length ip
    → NoPanic (native_body ip source destination)
unfolding native_body
native_body-NoPanic ip source destination h =
    NoPanic-bind _ _ (byte_at-NoPanic ip 0 (omega arith)) λ first.
      NoPanic-bind _ _ (read_u16-NoPanic ip 2 (omega arith)) λ total.
        NoPanic-if
          (ltb (first % 16 * 4) 20
            || ltb (length ip) (first % 16 * 4)
            || ltb total (first % 16 * 4 + 28)
            || ltb (length ip) total)
          _ _ (λ c. is_ok _)
          λ c.
            NoPanic-bind _ _
              (has_native_header-NoPanic ip (first % 16 * 4) source destination h (ground arith))
              λ native.
                NoPanic-if (not native) _ _ (λ d. is_ok _)
                  λ d.
                    NoPanic-bind _ _
                      (slice-NoPanic ip (first % 16 * 4) total (ground arith) (ground arith))
                      λ p. NoPanic-bind _ _ (byte_at-NoPanic ip 1 (omega arith)) λ tos. is_ok _

native_packet-NoPanic :
    (ip : List ℕ) (source destination : Ip) → NoPanic (native_packet ip source destination)
unfolding native_packet
native_packet-NoPanic ip source destination =
    NoPanic-if (ltb (length ip) 20) _ _ (λ c. is_ok _)
      λ c. NoPanic-bind _ _ (byte_at-NoPanic ip 0 (ground arith)) λ first.
        NoPanic-if (not (first / 16 == 4)) _ _ (λ d. is_ok _)
          λ d. native_body-NoPanic ip source destination (ground arith)

allowed_homa-NoPanic : (p : List ℕ) (from_lan : Bool) → NoPanic (allowed_homa p from_lan)
unfolding allowed_homa
allowed_homa-NoPanic p from_lan =
    NoPanic-if (ltb (length p) 28) _ _ (λ c. is_ok _)
      λ c. NoPanic-bind _ _ (read_u16-NoPanic p 0 (ground arith)) λ src.
        NoPanic-bind _ _ (read_u16-NoPanic p 2 (ground arith)) λ dst.
          NoPanic-if (not (is_allowed_port src dst from_lan)) _ _ (λ d. is_ok _)
            λ d. NoPanic-bind _ _ (byte_at-NoPanic p 11 (ground arith)) λ type. is_ok _

-- What `allowedHoma` lets through has the bytes that `noteAcks` looks at.
record IsSized (p : List ℕ) : Type 0 where
  common : 28 ≤ length p
  ack : get_or p 11 0 ≡ 0x18 → 80 ≤ length p
  segment : get_or p 11 0 ≡ 0x10 → 56 ≤ length p

allowed_homa-eq :
    (p : List ℕ) (from_lan : Bool)
    → 28 ≤ length p
    → (ports : Bool) × (allowed_homa p from_lan ≡ (
        if not ports
        then ok false
        else ok (is_long_enough (minimum_length (get_or p 11 0)) (length p))))
unfolding allowed_homa
allowed_homa-eq p from_lan h =
    let c : ltb (length p) 28 ≡ false = ground arith in
    (
      is_allowed_port (be_u16 (get_or p 0 0) (get_or p 1 0)) (be_u16 (get_or p 2 0) (get_or p 3 0))
          from_lan,
      rw (
        c,
        read_u16-ok p 0 (omega arith),
        read_u16-ok p 2 (omega arith),
        byte_at-ok p 11 (omega arith),
      ),
    )

allowed_homa-IsSized :
    (p : List ℕ) (from_lan : Bool) → allowed_homa p from_lan ≡ ok true → IsSized p
allowed_homa-IsSized p from_lan h = elim (Bool-cases (ltb (length p) 28)) [
  | inl short ↦ absurd (unfold allowed_homa in ground arith)
  | inr long ↦
      let (ports, e) = allowed_homa-eq p from_lan (ground arith) in
      record { common = ground arith; ack = λ t. ground arith; segment = λ t. ground arith }
]

note_records-NoPanic :
    (rounds i : ℕ) (p acks : List ℕ)
    → 30 + (i + rounds) * 10 ≤ length p
    → NoPanic (note_records rounds i p acks)
unfolding note_records
note_records-NoPanic zero i p acks h = is_ok acks
note_records-NoPanic (suc rounds) i p acks h =
    NoPanic-bind _ _ (read_u16-NoPanic p (30 + i * 10 + 8) (omega arith)) λ port.
      NoPanic-bind _ _ (read_u64-NoPanic p (30 + i * 10) (omega arith))
        λ id. note_records-NoPanic rounds (suc i) p _ (omega arith)

note_acks-NoPanic : (p acks : List ℕ) → IsSized p → NoPanic (note_acks p acks)
unfolding note_acks note_ack_packet note_data
note_acks-NoPanic p acks v =
    NoPanic-bind _ _ (read_u16-NoPanic p 0 (omega (arith, v.common))) λ src.
      NoPanic-bind _ _ (read_u16-NoPanic p 2 (omega (arith, v.common))) λ dst.
        NoPanic-if (not (src == 4003) || not (dst == 4000)) _ _ (λ c. is_ok _)
          λ c. NoPanic-then _ _ (byte_at-NoPanic p 11 (omega (arith, v.common))) λ type is.
            let same : get_or p 11 0 ≡ type =
              ok_inj (sym (byte_at-ok p 11 (omega (arith, v.common))) ∙ is) in
            NoPanic-if (type == 0x18) _ _
              (λ ack.
                let l : 80 ≤ length p = v.ack (ground arith) in
                NoPanic-bind _ _ (read_u64-NoPanic p 20 (omega arith)) λ sender.
                  NoPanic-bind _ _ (read_u16-NoPanic p 28 (omega arith)) λ count.
                    NoPanic-if (ltb 5 count) _ _ (λ d. is_ok _)
                      λ d. note_records-NoPanic count 0 p _ (ground arith))
              λ other.
                NoPanic-if (type == 0x10) _ _
                  (λ seg.
                    let l : 56 ≤ length p = v.segment (ground arith) in
                    NoPanic-bind _ _ (read_u16-NoPanic p 44 (omega arith))
                      λ port. NoPanic-bind _ _ (read_u64-NoPanic p 36 (omega arith)) λ id. is_ok _)
                  λ d. is_ok _

ethernet_packet-NoPanic : (p : List ℕ) (tos : ℕ) → NoPanic (ethernet_packet p tos)
ethernet_packet-NoPanic p tos = rw (ethernet_packet-bytes p tos) (is_ok _)

lan_taken-NoPanic :
    (s : State) (truncated : Bool) (taken : Option (List ℕ × ℕ))
    → NoPanic (lan_taken s truncated taken)
unfolding lan_taken
lan_taken-NoPanic s truncated none = is_ok _
lan_taken-NoPanic s truncated (some (p, tos)) =
    NoPanic-bind _ _ (allowed_homa-NoPanic p true) λ allowed.
      NoPanic-if (truncated || not allowed) _ _ (λ c. is_ok _)
        λ c. NoPanic-bind _ _ (ethernet_packet-NoPanic p tos) λ frame. is_ok _

-- Whatever datagram comes from the LAN, a round of `lanToVM` does not panic before its write.
pub lan_begin-ne-panic :
    (s : State) (local peer : Ip) (datagram : List ℕ) (truncated : Bool)
    → lan_begin s local peer datagram truncated ≢ panic
unfolding lan_begin
lan_begin-ne-panic s local peer datagram truncated =
    NoPanic-ne-panic _
      (NoPanic-bind _ _ (native_packet-NoPanic datagram peer local) (lan_taken-NoPanic s truncated))

-- After the write of a frame for a packet that it let through, a round of `lanToVM` does not panic
-- either: every byte that `noteAcks` looks at is in the packet.
pub lan_end-ne-panic :
    (s t : State) (local peer : Ip) (datagram p frame : List ℕ) (tos : ℕ) (truncated : Bool)
    → lan_begin s local peer datagram truncated ≡ ok (lan_frame p tos frame)
    → lan_end t p tos ≢ panic
unfolding lan_end
lan_end-ne-panic s t local peer datagram p frame tos truncated h = NoPanic-ne-panic _ (
    NoPanic-bind _ _
      (note_acks-NoPanic p t.acks (
        allowed_homa-IsSized p true
          (lan_begin-IsRelayed s local peer datagram p frame tos truncated h).allowed))
      λ acks. is_ok _)

is_arp_request-NoPanic : (f : List ℕ) → 42 ≤ length f → NoPanic (is_arp_request f)
unfolding is_arp_request
is_arp_request-NoPanic f h = NoPanic-bind _ _ (read_u16-NoPanic f 14 (omega arith)) λ hardware.
    NoPanic-bind _ _ (read_u16-NoPanic f 16 (omega arith)) λ protocol.
      NoPanic-bind _ _ (byte_at-NoPanic f 18 (omega arith)) λ hardware_size.
        NoPanic-bind _ _ (byte_at-NoPanic f 19 (omega arith)) λ protocol_size.
          NoPanic-bind _ _ (read_u16-NoPanic f 20 (omega arith)) λ operation.
            NoPanic-bind _ _ (slice-NoPanic f 28 32 (omega arith) (omega arith)) λ from.
              NoPanic-bind _ _ (slice-NoPanic f 38 42 (omega arith) (omega arith)) λ to. is_ok _

-- The reply's buffer has 42 bytes, and no copy into it begins behind them.
pub arp_reply-NoPanic : (f : List ℕ) → 42 ≤ length f → NoPanic (arp_reply f)
unfolding arp_reply
arp_reply-NoPanic f h =
    NoPanic-bind _ _ (slice-NoPanic f 6 12 (omega arith) (omega arith)) λ source.
      NoPanic-bind _ _ (slice-NoPanic f 12 22 (omega arith) (omega arith)) λ kind.
        NoPanic-bind _ _ (slice-NoPanic f 22 28 (omega arith) (omega arith)) λ sender.
          NoPanic-bind _ _ (slice-NoPanic f 28 32 (omega arith) (omega arith)) λ address.
            IsOf-NoPanic 42 _ (
              IsOf-bind 42 _ _ (copy_at-IsOf 42 0 source _ refl (omega arith)) λ b0 e0.
                IsOf-bind 42 _ _ (copy_at-IsOf 42 6 host_mac b0 e0 (omega arith)) λ b1 e1.
                  IsOf-bind 42 _ _ (copy_at-IsOf 42 12 kind b1 e1 (omega arith)) λ b2 e2.
                    IsOf-bind 42 _ _ (put_u16-IsOf 42 20 2 b2 e2 (omega arith)) λ b3 e3.
                      IsOf-bind 42 _ _ (copy_at-IsOf 42 22 host_mac b3 e3 (omega arith)) λ b4 e4.
                        IsOf-bind 42 _ _
                          (copy_at-IsOf 42 28 (as_slice virtual_host) b4 e4 (omega arith))
                          λ b5 e5.
                            IsOf-bind 42 _ _ (copy_at-IsOf 42 32 sender b5 e5 (omega arith))
                              λ b6 e6. copy_at-IsOf 42 38 address b6 e6 (omega arith))

pub arp-NoPanic : (frame : List ℕ) → NoPanic (arp frame)
unfolding arp
arp-NoPanic frame =
    NoPanic-if (ltb (length frame) 42) _ _ (λ c. is_ok _)
      λ c. NoPanic-bind _ _ (is_arp_request-NoPanic frame (ground arith)) λ request.
        NoPanic-if (not request) _ _ (λ d. is_ok _)
          λ d. NoPanic-bind _ _ (arp_reply-NoPanic frame (ground arith)) λ reply. is_ok _

vm_taken-NoPanic : (s : State) (taken : Option (List ℕ × ℕ)) → NoPanic (vm_taken s taken)
unfolding vm_taken
vm_taken-NoPanic s none = is_ok _
vm_taken-NoPanic s (some (p, tos)) =
    NoPanic-bind _ _ (allowed_homa-NoPanic p false) λ allowed. is_ok _

vm_datagram-NoPanic : (s : State) (ip : List ℕ) → NoPanic (vm_datagram s ip)
unfolding vm_datagram
vm_datagram-NoPanic s ip =
    NoPanic-bind _ _ (native_packet-NoPanic ip virtual_guest virtual_host) (vm_taken-NoPanic s)

-- Whatever frame comes from the virtual machine, a round of `vmToLAN` does not panic: `read` gives
-- no frame without an Ethernet header.
pub vm_begin-ne-panic : (s : State) (frame : List ℕ) → 14 ≤ length frame → vm_begin s frame ≢ panic
unfolding vm_begin
vm_begin-ne-panic s frame h = NoPanic-ne-panic _ (
    NoPanic-bind _ _ (read_u16-NoPanic frame 12 (omega arith)) λ kind.
      NoPanic-if (kind == 0x0806) _ _ (λ c. NoPanic-bind _ _ (arp-NoPanic frame) λ reply. is_ok _)
        λ c. NoPanic-bind _ _ (slice-NoPanic frame 6 12 (omega arith) (omega arith)) λ source.
          NoPanic-if (not (kind == 0x0800) || not (equal source guest_mac)) _ _ (λ d. is_ok _)
            λ d.
              NoPanic-bind _ _ (slice-NoPanic frame 14 (length frame) h (omega arith))
                λ ip. vm_datagram-NoPanic s ip)
