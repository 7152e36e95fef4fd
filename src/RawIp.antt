-- ===== src/RawIp.antt =====
-- rawip.go: packets on a raw IPv4 socket. The socket is what it answers to each call: an error by its
-- number, or none.
pub mod Packets
pub mod Examples
use mac_homa.Common.{
  ℕ, ◌+◌, ◌-◌, ◌*◌, ◌/◌, ◌%◌, ◌^◌, ◌==◌, ltb, Bool, true, false, not, ◌||◌, if◌then◌else◌, List, [],
  ◌∷◌, Option, none, some, length,
}
use mac_homa.Endpoint.{Ip, invalid, v4, v6, is_v4, is_unspecified, is_multicast, eq_ip}

pub data Error : Type 0 where
  not_v4 bad_source short_buffer not_unicast bad_priority bad_size short_write : Error
  socket : ℕ → Error

-- `none` is an open socket. `listening` and `buffer` are the errors of ListenIP and SetReadBuffer.
unfoldable pub open_raw : Ip → Option ℕ → Option ℕ → Option Error
open_raw ip listening buffer = if not (is_v4 ip) then some not_v4 else elim listening [
  | some e ↦ some (socket e)
  | none ↦ elim buffer [ some e ↦ some (socket e) | none ↦ none ]
]

-- Big-endian bytes as a number.
abbrev pub from_octets : List ℕ → ℕ → ℕ
from_octets [] n = n
from_octets (x ∷ b) n = from_octets b (n * 256 + x)

-- netip.AddrFromSlice
abbrev pub addr_from_slice : List ℕ → Option Ip
addr_from_slice b =
    if length b == 4
    then some (v4 (from_octets b 0))
    else if length b == 16
    then some (v6 (from_octets b 0))
    else none

-- netip.Addr.Unmap: an IPv4 address inside IPv6 becomes the IPv4 address.
abbrev pub unmap : Ip → Ip
unmap (v6 n) = if n / 2 ^ 32 == 0xffff then v4 (n % 2 ^ 32) else v6 n
unmap ip = ip

-- What ReadFromIP gives: an error, or the packet behind its IPv4 header and the source's bytes.
pub data Answer : Type 0 where
  fails : ℕ → Answer
  gives : List ℕ → List ℕ → Answer

pub data ReadResult : Type 0 where
  read_error : Error → ReadResult
  packet : List ℕ → Ip → ReadResult

unfoldable pub read_from : ℕ → List ℕ → Option Ip → ReadResult
read_from size p none = read_error bad_source
read_from size p (some ip) =
    if not (is_v4 (unmap ip))
    then read_error bad_source
    else if ltb size (length p)
    then read_error short_buffer
    else packet p (unmap ip)

-- ReadPacket into a buffer of `size` bytes. Only a whole packet is copied into it.
unfoldable pub read_packet : ℕ → Answer → ReadResult
read_packet size (fails e) = read_error (socket e)
read_packet size (gives p source) = read_from size p (addr_from_slice source)

-- The answers to the calls of WritePacket, in their order; `option` is that of IP_TOS for its value.
pub record Socket : Type 0 where
  pub deadline : Option ℕ
  pub connection : Option ℕ
  pub control : Option ℕ
  pub option : ℕ → Option ℕ
  pub write : List ℕ → Ip → Option ℕ × ℕ

unfoldable pub written : List ℕ → Option ℕ × ℕ → Option Error
written p (some e, n) = some (socket e)
written p (none, n) = if not (n == length p) then some short_write else none

-- `err` of the first call that gives one.
unfoldable pub first_error : Option ℕ → Option Error → Option Error
first_error (some e) rest = some (socket e)
first_error none rest = rest

-- `int(priority)<<5`
abbrev pub class_of : ℕ → ℕ
class_of priority = priority * 2 ^ 5

abbrev pub is_unicast : Ip → Bool
is_unicast peer =
    not (not (is_v4 peer) || is_unspecified peer || is_multicast peer || eq_ip peer (v4 0xffffffff))

-- The calls, when the arguments have been found good.
unfoldable pub send_to : Socket → List ℕ → Ip → ℕ → Option Error
send_to s p peer priority = first_error s.deadline (
    first_error s.connection (
      first_error s.control
        (first_error (s.option (class_of priority)) (written p (s.write p peer)))))

unfoldable pub write_packet : Socket → List ℕ → Ip → ℕ → Option Error
write_packet s p peer priority =
    if not (is_unicast peer)
    then some not_unicast
    else if ltb 7 priority
    then some bad_priority
    else if length p == 0 || ltb (65535 - 20) (length p)
    then some bad_size
    else send_to s p peer priority
