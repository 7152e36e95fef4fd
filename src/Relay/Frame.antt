-- ===== src/Relay/Frame.antt =====
-- What `ethernetPacket` builds, and that `nativePacket` takes it apart again.
use mac_homa.Common.{
  take_all, ℕ, ◌+◌, ◌/◌, ◌%◌, ◌^◌, ◌≤◌, ◌<◌, ◌≡◌, true, List, [], ◌∷◌, ◌++◌, some, length, take,
  drop, replicate-add, arith, refl, ap, ◌∙◌,
}
use mac_homa.Wire.{ok}
use mac_homa.Wire.Bytes.{byte_at, read_u16, put_byte, put_u16, copy_at, copy, be_u16}
use mac_homa.Wire.Write.{copy-replicate}
use mac_homa.Relay.{as_slice, virtual_host, virtual_guest, host_mac, guest_mac}
use mac_homa.Relay.Checksum.{ip_checksum, sum_words, fold_carries}
use mac_homa.Relay.Packet.{slice, native_packet, native_body, has_native_header, ethernet_packet}

-- The IPv4 header with `c` in its checksum field.
abbrev pub ip_header : ℕ → ℕ → ℕ → List ℕ
ip_header total tos c =
    0x45
    ∷ tos
    ∷ total / 256 % 256
    ∷ total % 256
    ∷ 0
    ∷ 0
    ∷ 0
    ∷ 0
    ∷ 64
    ∷ 146
    ∷ c / 256 % 256
    ∷ c % 256
    ∷ 10
    ∷ 0
    ∷ 0
    ∷ 1
    ∷ 10
    ∷ 0
    ∷ 0
    ∷ 2
    ∷ []

abbrev pub total_of : List ℕ → ℕ
total_of payload = (20 + length payload) % 2 ^ 16

abbrev pub datagram : List ℕ → ℕ → List ℕ
datagram payload tos =
    let total = total_of payload in
    ip_header total tos (ip_checksum (ip_header total tos 0)) ++ payload

abbrev pub ethernet : List ℕ
ethernet = 0x52 ∷ 0x54 ∷ 0 ∷ 0x12 ∷ 0x34 ∷ 0x56 ∷ 2 ∷ 0 ∷ 0 ∷ 0 ∷ 0 ∷ 1 ∷ 8 ∷ 0 ∷ []

pub copy-nil : (b : List ℕ) → copy b [] ≡ b
unfolding copy
copy-nil [] = refl
copy-nil (x ∷ b) = refl

pub slice_ok : (b : List ℕ) (i j : ℕ) → i ≤ j → j ≤ length b → slice b i j ≡ ok (drop i (take j b))
unfolding slice
slice_ok b i j h l = ground arith

pub ethernet_packet-bytes :
    (payload : List ℕ) (tos : ℕ)
    → ethernet_packet payload tos ≡ ok (ethernet ++ datagram payload tos)
unfolding ethernet_packet put_byte put_u16 copy_at copy slice
ethernet_packet-bytes payload tos =
    let n = length payload in
    rw (replicate-add {A = ℕ} 34 n 0, copy-nil, copy-replicate payload) (ground arith)

-- The sum with its own complement in the checksum field folds to 65535.
header_sum :
    (total tos : ℕ)
    → total < 2 ^ 16
    → tos < 256
    → ip_checksum (ip_header total tos (ip_checksum (ip_header total tos 0))) ≡ 0
unfolding ip_checksum sum_words fold_carries
header_sum total tos h t = ground arith

module _ (payload : List ℕ) (total tos c : ℕ) (is : total ≡ 20 + length payload)
    (h : total < 2 ^ 16) (l : 28 ≤ length payload) where
  ip : List ℕ
  ip = ip_header total tos c ++ payload

  total-bytes : be_u16 (total / 256 % 256) (total % 256) ≡ total
  unfolding be_u16
  total-bytes = omega arith

  slice-body : slice ip 20 total ≡ ok payload
  unfolding ip
  slice-body =
      slice_ok ip 20 total (omega arith) (omega arith)
      ∙ ap (λ b. ok (drop 20 b)) (take_all total ip (omega arith))

  slice-head : slice ip 0 20 ≡ ok (ip_header total tos c)
  unfolding ip
  slice-head = slice_ok ip 0 20 (omega arith) (omega arith)

  slice-source : slice ip 12 16 ≡ ok (as_slice virtual_host)
  unfolding ip
  slice-source = slice_ok ip 12 16 (omega arith) (omega arith)

  slice-destination : slice ip 16 20 ≡ ok (as_slice virtual_guest)
  unfolding ip
  slice-destination = slice_ok ip 16 20 (omega arith) (omega arith)

  native_header-true :
      ip_checksum (ip_header total tos c) ≡ 0
      → has_native_header ip 20 virtual_host virtual_guest ≡ ok true
  unfolding has_native_header byte_at read_u16 be_u16 ip
  native_header-true s = rw (slice-head, slice-source, slice-destination, s) refl

  byte_at-ip :
      (byte_at ip 0 ≡ ok 0x45)
      × (byte_at ip 1 ≡ ok tos)
      × (byte_at ip 2 ≡ ok (total / 256 % 256))
      × (byte_at ip 3 ≡ ok (total % 256))
  unfolding byte_at ip
  byte_at-ip = (refl, refl, refl, refl)

  length-ip : length ip ≡ total
  unfolding ip
  length-ip = omega arith

  native_packet-taken :
      ip_checksum (ip_header total tos c) ≡ 0
      → native_packet ip virtual_host virtual_guest ≡ ok (some (payload, tos))
  unfolding native_packet native_body read_u16
  native_packet-taken s =
      let (first, second, third, fourth) = byte_at-ip in
      rw (first, second, third, fourth, total-bytes, native_header-true s, slice-body, length-ip)
        (ground arith)

ip_checksum-datagram :
    (payload : List ℕ) (tos : ℕ)
    → tos < 256
    → let total = total_of payload in
      ip_checksum (ip_header total tos (ip_checksum (ip_header total tos 0))) ≡ 0
ip_checksum-datagram payload tos t = header_sum (total_of payload) tos (omega arith) t

-- The frame that `ethernetPacket` makes for Homa bytes of 28 to 65515 bytes goes from the host's MAC
-- to the guest's, and behind its Ethernet header `nativePacket` finds a valid datagram from the
-- virtual host to the virtual guest, with exactly those bytes and that traffic class.
pub native_packet-ethernet_packet :
    (payload : List ℕ) (tos : ℕ)
    → 28 ≤ length payload
    → length payload ≤ 65515
    → tos < 256
    → (frame : List ℕ) × (ethernet_packet payload tos ≡ ok frame)
      × (take 14 frame ≡ guest_mac ++ (host_mac ++ (8 ∷ 0 ∷ [])))
      × (native_packet (drop 14 frame) virtual_host virtual_guest ≡ ok (some (payload, tos)))
unfolding ip
native_packet-ethernet_packet payload tos l m t = (
  ethernet ++ datagram payload tos,
  ethernet_packet-bytes payload tos,
  refl,
  native_packet-taken payload (total_of payload) tos _ (omega arith) (omega arith) l
      (ip_checksum-datagram payload tos t),
)
