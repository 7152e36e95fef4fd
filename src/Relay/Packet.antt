-- ===== src/Relay/Packet.antt =====
-- `nativePacket`, `allowedHoma` and `ethernetPacket`. A slice of a slice keeps the offsets of the
-- outer one, so a write to `ip` is a write to `frame` 14 bytes further on.
use mac_homa.Common.{
  ℕ, ◌+◌, ◌*◌, ◌/◌, ◌%◌, ◌^◌, ◌==◌, ltb, leb, Bool, true, false, not, ◌&&◌, ◌||◌, if◌then◌else◌,
  List, [], ◌∷◌, Option, none, some, length, take, drop, replicate,
}
use mac_homa.Wire.{Result, ok, panic, ◌>>=◌}
use mac_homa.Wire.Bytes.{byte_at, read_u16, put_byte, put_u16, copy_at}
use mac_homa.Endpoint.{Ip}
use mac_homa.Relay.{as_slice, virtual_host, virtual_guest, host_mac, guest_mac}
use mac_homa.Relay.Checksum.{ip_checksum}

-- bytes.Equal
abbrev pub equal : List ℕ → List ℕ → Bool
equal [] [] = true
equal (x ∷ a) (y ∷ b) = x == y && equal a b
equal _ _ = false

-- b[i:j], which panics unless i <= j <= len(b)
unfoldable pub slice : List ℕ → ℕ → ℕ → Result (List ℕ)
slice b i j = if ltb j i || ltb (length b) j then panic else ok (drop i (take j b))

-- The tests on a header whose length and total length are known and in range.
unfoldable pub has_native_header : List ℕ → ℕ → Ip → Ip → Result Bool
has_native_header ip header source destination = do
  protocol ← byte_at ip 9
  bytes ← slice ip 0 header
  fragment ← read_u16 ip 6
  from ← slice ip 12 16
  to ← slice ip 16 20
  ok (
      protocol == 146
      && ip_checksum bytes == 0
      && fragment % 2 ^ 14 == 0
      && equal from (as_slice source)
      && equal to (as_slice destination))

unfoldable pub native_body : List ℕ → Ip → Ip → Result (Option (List ℕ × ℕ))
native_body ip source destination = do
  first ← byte_at ip 0
  total ← read_u16 ip 2
  let header = first % 16 * 4
  if ltb header 20 || ltb (length ip) header || ltb total (header + 28) || ltb (length ip) total
      then ok none
      else (do
        native ← has_native_header ip header source destination
        if not native
            then ok none
            else (do p ← slice ip header total; tos ← byte_at ip 1; ok (some (p, tos))))

-- The Homa bytes and the traffic class; `none` is the result `false`.
unfoldable pub native_packet : List ℕ → Ip → Ip → Result (Option (List ℕ × ℕ))
native_packet ip source destination = if ltb (length ip) 20 then ok none else (do
  first ← byte_at ip 0
  if not (first / 16 == 4) then ok none else native_body ip source destination)

-- The map `lengths`.
abbrev pub minimum_length : ℕ → Option ℕ
minimum_length type =
    if type == 0x10
    then some 56
    else if type == 0x11
    then some 33
    else if type == 0x12
    then some 37
    else if type == 0x13 || type == 0x14 || type == 0x17
    then some 28
    else if type == 0x15
    then some 62
    else if type == 0x18
    then some 80
    else none

abbrev pub is_allowed_port : ℕ → ℕ → Bool → Bool
is_allowed_port src dst true = (src == 4003 && dst == 4000) || (src == 4001 && dst == 4002)
is_allowed_port src dst false = (src == 4000 && dst == 4003) || (src == 4002 && dst == 4001)

abbrev pub is_long_enough : Option ℕ → ℕ → Bool
is_long_enough none n = false
is_long_enough (some minimum) n = leb minimum n

unfoldable pub allowed_homa : List ℕ → Bool → Result Bool
allowed_homa p from_lan = if ltb (length p) 28 then ok false else (do
  src ← read_u16 p 0
  dst ← read_u16 p 2
  if not (is_allowed_port src dst from_lan)
      then ok false
      else (do type ← byte_at p 11; ok (is_long_enough (minimum_length type) (length p))))

unfoldable pub ethernet_packet : List ℕ → ℕ → Result (List ℕ)
ethernet_packet payload tos = do
  frame ← copy_at 0 guest_mac (replicate (14 + 20 + length payload) 0)
  frame ← copy_at 6 host_mac frame
  frame ← put_u16 12 0x0800 frame
  frame ← put_byte 14 0x45 frame
  frame ← put_byte 15 tos frame
  frame ← put_byte 22 64 frame
  frame ← put_byte 23 146 frame
  frame ← put_u16 16 ((20 + length payload) % 2 ^ 16) frame
  frame ← copy_at 26 (as_slice virtual_host) frame
  frame ← copy_at 30 (as_slice virtual_guest) frame
  header ← slice frame 14 34
  frame ← put_u16 24 (ip_checksum header) frame
  copy_at 34 payload frame
