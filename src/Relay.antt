-- ===== src/Relay.antt =====
-- interop/lanrelay/main.go: the relay between one LAN peer and a Linux virtual machine. It takes the
-- Homa bytes out of an IPv4 datagram of one side and gives them to the other side.
pub mod Checksum
pub mod Packet
pub mod Frame
pub mod Nic
pub mod Cut
pub mod Stream
pub mod State
pub mod Safety
pub mod Deliver
pub mod Acks
pub mod Run
pub mod Account
pub mod Examples
use mac_homa.Common.{ℕ, zero, suc, ◌+◌, ◌*◌, ◌/◌, ◌%◌, ◌^◌, List, [], ◌∷◌}
use mac_homa.Endpoint.{Ip, invalid, v4, v6}

-- A number as `n` bytes, the most significant first.
abbrev pub octets : ℕ → ℕ → List ℕ
octets zero x = []
octets (suc n) x = x / 256 ^ n % 256 ∷ octets n x

-- netip.Addr.AsSlice
abbrev pub as_slice : Ip → List ℕ
as_slice invalid = []
as_slice (v4 n) = n / 2 ^ 24 % 256 ∷ n / 2 ^ 16 % 256 ∷ n / 2 ^ 8 % 256 ∷ n % 256 ∷ []
as_slice (v6 n) = octets 16 n

-- 10.0.0.1 and 10.0.0.2
abbrev pub virtual_host : Ip
virtual_host = v4 0x0a000001

abbrev pub virtual_guest : Ip
virtual_guest = v4 0x0a000002

abbrev pub host_mac : List ℕ
host_mac = 2 ∷ 0 ∷ 0 ∷ 0 ∷ 0 ∷ 1 ∷ []

abbrev pub guest_mac : List ℕ
guest_mac = 0x52 ∷ 0x54 ∷ 0 ∷ 0x12 ∷ 0x34 ∷ 0x56 ∷ []
