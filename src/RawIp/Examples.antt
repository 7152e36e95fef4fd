-- ===== src/RawIp/Examples.antt =====
-- The theorems on rawip.go at work on a concrete packet.
use mac_homa.Common.{ℕ, ◌<◌, ◌≤◌, ◌≡◌, ◌↔◌, true, refl, List, [], ◌∷◌, none, some, length}
use mac_homa.Endpoint.{Ip, v4, is_v4}
use mac_homa.RawIp.{
  Socket, gives, packet, read_packet, read_from, write_packet, is_unicast, addr_from_slice, unmap,
}
use mac_homa.RawIp.Packets.{IsWritten, write_packet-eq-none_iff, read_packet_whole}

-- A socket that takes every packet whole.
abbrev open_socket : Socket
open_socket = record {
  deadline = none;
  connection = none;
  control = none;
  option = λ value. none;
  write = λ p peer. (none, length p);
}

write_packet-eq-none_iff_example :
    (write_packet open_socket (1 ∷ 2 ∷ []) (v4 0x0a000001) 5 ≡ none) ↔ (
      (is_unicast (v4 0x0a000001) ≡ true)
      × (5 < 8)
      × (0 < 2)
      × (2 ≤ 65515)
      × IsWritten open_socket (1 ∷ 2 ∷ []) (v4 0x0a000001) 5)
write_packet-eq-none_iff_example =
    write_packet-eq-none_iff open_socket (1 ∷ 2 ∷ []) (v4 0x0a000001) 5

-- 10.0.0.1 as an IPv4 address inside IPv6.
abbrev mapped : List ℕ
mapped = 0 ∷ 0 ∷ 0 ∷ 0 ∷ 0 ∷ 0 ∷ 0 ∷ 0 ∷ 0 ∷ 0 ∷ 255 ∷ 255 ∷ 10 ∷ 0 ∷ 0 ∷ 1 ∷ []

read_packet-mapped : read_packet 3 (gives (1 ∷ 2 ∷ []) mapped) ≡ packet (1 ∷ 2 ∷ []) (v4 0x0a000001)
unfolding read_packet read_from
read_packet-mapped = refl

read_packet_whole_example :
    (source : List ℕ) × (from : Ip) × (gives (1 ∷ 2 ∷ []) mapped ≡ gives (1 ∷ 2 ∷ []) source)
    × (addr_from_slice source ≡ some from)
    × (unmap from ≡ v4 0x0a000001)
    × (is_v4 (v4 0x0a000001) ≡ true)
    × (2 ≤ 3)
read_packet_whole_example =
    read_packet_whole 3 (gives (1 ∷ 2 ∷ []) mapped) (1 ∷ 2 ∷ []) (v4 0x0a000001) read_packet-mapped
