-- ===== src/Relay/Examples/Rounds.antt =====
-- A run of the relay: a datagram from the LAN, and a packet from the virtual machine.
use mac_homa.Common.{ℕ, ◌≡◌, false, refl, List, ◌∷◌, ◌++◌, take, replicate, arith}
use mac_homa.Wire.{ok}
use mac_homa.Wire.Bytes.{byte_at, read_u16, be_u16}
use mac_homa.Relay.{virtual_host, virtual_guest, host_mac, guest_mac}
use mac_homa.Relay.Checksum.{ip_checksum, sum_words, fold_carries}
use mac_homa.Relay.Packet.{slice, has_native_header, native_body, native_packet, allowed_homa}
use mac_homa.Relay.Frame.{datagram, ethernet}
use mac_homa.Relay.State.{
  State, vm_begin, vm_datagram, vm_taken, vm_packet, vm_requested, vm_sent, goes_on,
}
use mac_homa.Relay.Run.{reading, at, Run, begin, follows, lan_relays, vm_requests, vm_sends}
use mac_homa.Relay.Account.{IsConsistent, Run-IsConsistent, sum_to}
use mac_homa.Relay.Examples.{
  idle, relayed, arrived, ack_packet, lan_begin-arrived, lan_end-arrived, idle-IsAckSet,
}

-- A BUSY packet from the server port 4000 to 4003.
abbrev busy_packet : List ℕ
busy_packet = 15 ∷ 160 ∷ 15 ∷ 163 ∷ replicate 7 0 ++ (0x14 ∷ replicate 16 0)

-- From the virtual guest to the virtual host.
abbrev from_guest : List ℕ
from_guest =
    host_mac
    ++ (guest_mac
        ++ (8 ∷ 0 ∷ take 12 (datagram busy_packet 64)
            ++ (10 ∷ 0 ∷ 0 ∷ 2 ∷ 10 ∷ 0 ∷ 0 ∷ 1 ∷ busy_packet)))

from_guest-vm_begin : vm_begin idle from_guest ≡ ok (vm_packet busy_packet 64)
unfolding vm_begin vm_datagram vm_taken native_packet native_body has_native_header allowed_homa
    slice byte_at read_u16 be_u16 ip_checksum sum_words fold_carries
from_guest-vm_begin = refl

abbrev sent : State
sent = record relayed {
  report = record relayed.report {
    vm_to_lan = 1;
    observed_vm_tos = (vm_requested relayed 64).report.observed_vm_tos;
    requested_lan_tos = (vm_requested relayed 64).report.requested_lan_tos;
  };
}

relayed-vm_sent : vm_sent (vm_requested relayed 64) busy_packet 28 ≡ goes_on sent
unfolding vm_sent vm_requested
relayed-vm_sent = refl

abbrev both_ways : Run virtual_guest virtual_host (at idle reading) (at sent reading)
both_ways =
    follows _ _ _
      (follows _ _ _
        (follows _ _ _ (begin (at idle reading)) (
          lan_relays idle idle relayed reading arrived ack_packet (ethernet ++ arrived) 160 false
            lan_begin-arrived (omega arith) lan_end-arrived))
        (vm_requests idle relayed from_guest busy_packet 64 from_guest-vm_begin (omega arith)))
      (vm_sends (vm_requested relayed 64) sent busy_packet 28 relayed-vm_sent)

idle-IsConsistent : IsConsistent (at idle reading)
unfolding sum_to
idle-IsConsistent = record {
  acks = idle-IsAckSet;
  lan = refl;
  vm = refl;
  requested = λ k. refl;
  drops = omega arith;
}

Run-IsConsistent_example : IsConsistent (at sent reading)
Run-IsConsistent_example =
    Run-IsConsistent virtual_guest virtual_host (at idle reading) (at sent reading) both_ways
      idle-IsConsistent
