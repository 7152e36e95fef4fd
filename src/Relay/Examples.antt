-- ===== src/Relay/Examples.antt =====
-- The theorems on the relay at work on concrete packets.
pub mod Rounds
use mac_homa.Common.{
  Option, length, ◌↔◌, ℕ, ◌%◌, ◌≤◌, ◌≡◌, ◌≢◌, ◌==◌, ltb, Bool, true, false, ◌&&◌, if◌then◌else◌,
  refl, List, [], ◌∷◌, ◌++◌, none, some, drop, take, arith, replicate, All,
}
use mac_homa.Wire.{ok, panic}
use mac_homa.Wire.Bytes.{
  byte_at, read_u16, read_u32, read_u64, put_byte, put_u16, put_u32, copy_at, copy, be_u16, be_u32,
  be_u64,
}
use mac_homa.Wire.Valid.{IsByte}
use mac_homa.Relay.{virtual_host, virtual_guest, host_mac, guest_mac}
use mac_homa.Relay.Checksum.{ip_checksum, sum_words, fold_carries, fold_carries_ends}
use mac_homa.Relay.Packet.{
  slice, has_native_header, native_body, native_packet, allowed_homa, ethernet_packet,
}
use mac_homa.Relay.Frame.{datagram, ethernet, native_packet-ethernet_packet}
use mac_homa.Relay.Nic.{
  Wrote, wrote, done, write, write_framed, write_loop, framed, read, got_frame,
}
use mac_homa.Relay.Cut.{IsPrefix, Takes}
use mac_homa.Relay.Stream.{on_stream, write-IsPrefix, read-write}
use mac_homa.Relay.State.{
  State, lan_begin, lan_taken, lan_frame, lan_end, vm_begin, note_acks, note_ack_packet,
  note_records, add_ack,
}
use mac_homa.Relay.Safety.{lan_begin-ne-panic, lan_end-ne-panic, vm_begin-ne-panic}
use mac_homa.Relay.Deliver.{lan_begin_carries}
use mac_homa.Relay.Acks.{IsAckSet, lan_end-IsAckSet}

-- An ACK packet from the client port 4003 to 4000: RPC 6, with one record more, of RPC 8.
abbrev ack_packet : List ℕ
ack_packet =
    15 ∷ 163 ∷ 15 ∷ 160 ∷ replicate 7 0
    ++ (0x18 ∷ replicate 15 0 ++ (6 ∷ 0 ∷ 1 ∷ replicate 7 0 ++ (8 ∷ 15 ∷ 160 ∷ replicate 40 0)))

abbrev arrived : List ℕ
arrived = datagram ack_packet 160

abbrev idle : State
idle = record {
  report = record {
    lan_to_vm = 0;
    vm_to_lan = 0;
    dropped_lan = 0;
    dropped_vm = 0;
    lan_send_buffer_drops = 0;
    observed_lan_tos = λ k. 0;
    observed_vm_tos = λ k. 0;
    requested_lan_tos = λ k. 0;
  };
  acks = 4 ∷ [];
}

abbrev relayed : State
relayed = record {
  report = record idle.report { lan_to_vm = 1; observed_lan_tos = λ k. if 160 == k then 1 else 0 };
  acks = 8 ∷ 6 ∷ 4 ∷ [];
}

abbrev are_bytes : List ℕ → Bool
are_bytes [] = true
are_bytes (x ∷ b) = ltb x 256 && are_bytes b

are_bytes-All : (b : List ℕ) → are_bytes b ≡ true → All IsByte b
are_bytes-All [] h = record {}
are_bytes-All (x ∷ b) h = (ground (arith, h), are_bytes-All b (ground (arith, h)))

lan_begin-arrived :
    lan_begin idle virtual_guest virtual_host arrived false
    ≡ ok (lan_frame ack_packet 160 (ethernet ++ arrived))
unfolding lan_begin native_packet native_body has_native_header slice byte_at read_u16 be_u16
    ip_checksum sum_words fold_carries lan_taken allowed_homa ethernet_packet put_byte put_u16
    copy_at copy
lan_begin-arrived = refl

lan_end-arrived : lan_end idle ack_packet 160 ≡ ok relayed
unfolding lan_end note_acks note_ack_packet note_records add_ack byte_at read_u16 read_u32 read_u64
    be_u16 be_u32 be_u64
lan_end-arrived = refl

arrived-IsBytes : All IsByte arrived
unfolding ip_checksum fold_carries sum_words
arrived-IsBytes = are_bytes-All arrived refl

native_packet-ethernet_packet_example :
    (frame : List ℕ) × (ethernet_packet ack_packet 160 ≡ ok frame)
    × (take 14 frame ≡ guest_mac ++ (host_mac ++ (8 ∷ 0 ∷ [])))
    × (native_packet (drop 14 frame) virtual_host virtual_guest ≡ ok (some (ack_packet, 160)))
native_packet-ethernet_packet_example =
    native_packet-ethernet_packet ack_packet 160 (omega arith) (omega arith) (omega arith)

-- The connection takes 7 bytes, then 3, then 5 with an error.
abbrev cut_writes : List Wrote
cut_writes = wrote 7 none ∷ wrote 3 none ∷ wrote 5 (some 32) ∷ []

abbrev no_deadline : Option ℕ
no_deadline = none

write-IsPrefix_example :
    IsPrefix
      (on_stream (ethernet ++ arrived))
      none
      cut_writes
      (write none cut_writes (ethernet ++ arrived))
    × (((write none cut_writes (ethernet ++ arrived)).1 ≡ done)
        ↔ ((no_deadline ≡ none) × Takes (length (on_stream (ethernet ++ arrived))) cut_writes))
write-IsPrefix_example = write-IsPrefix none cut_writes (ethernet ++ arrived)

write_in_two-done : (write none (wrote 10 none ∷ wrote 8 none ∷ []) ethernet).1 ≡ done
unfolding write write_framed framed write_loop put_u32 put_byte copy_at copy
write_in_two-done = refl

read-write_example :
    read ((write none (wrote 10 none ∷ wrote 8 none ∷ []) ethernet).0 ++ (0 ∷ 0 ∷ []))
    ≡ got_frame ethernet (0 ∷ 0 ∷ [])
read-write_example =
    read-write (wrote 10 none ∷ wrote 8 none ∷ []) ethernet (0 ∷ 0 ∷ []) (omega arith) (omega arith)
      write_in_two-done

lan_begin-ne-panic_example : lan_begin idle virtual_guest virtual_host arrived true ≢ panic
lan_begin-ne-panic_example = lan_begin-ne-panic idle virtual_guest virtual_host arrived true

lan_end-ne-panic_example : lan_end relayed ack_packet 160 ≢ panic
lan_end-ne-panic_example =
    lan_end-ne-panic idle relayed virtual_guest virtual_host arrived ack_packet
      (ethernet ++ arrived) 160 false lan_begin-arrived

vm_begin-ne-panic_example : vm_begin idle (ethernet ++ arrived) ≢ panic
vm_begin-ne-panic_example = vm_begin-ne-panic idle (ethernet ++ arrived) (omega arith)

lan_begin_carries_example :
    (native_packet arrived virtual_host virtual_guest ≡ ok (some (ack_packet, 160)))
    × (allowed_homa ack_packet true ≡ ok true)
    × (take 14 (ethernet ++ arrived) ≡ guest_mac ++ (host_mac ++ (8 ∷ 0 ∷ [])))
    × (native_packet (drop 14 (ethernet ++ arrived)) virtual_host virtual_guest
        ≡ ok (some (ack_packet, 160)))
lan_begin_carries_example =
    lan_begin_carries idle virtual_guest virtual_host arrived ack_packet (ethernet ++ arrived) 160
      false arrived-IsBytes lan_begin-arrived

idle-IsAckSet : IsAckSet idle.acks
idle-IsAckSet = record {
  clients = ((λ h. omega (arith, h), omega arith), record {});
  distinct = (refl, record {});
  bounded = omega arith;
}

fold_carries_ends_example :
    (fold_carries 2 0xfffeffff ≤ 65535) × (fold_carries 2 0xfffeffff % 65535 ≡ 0xfffeffff % 65535)
fold_carries_ends_example = fold_carries_ends 0xfffeffff (omega arith)
