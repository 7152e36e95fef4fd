-- ===== src/RawIp/Packets.antt =====
-- Which packets `ReadPacket` and `WritePacket` let through.
use mac_homa.Common.{
  ℕ, ◌*◌, ◌≤◌, ◌<◌, ◌≡◌, ◌↔◌, ltb, true, List, Option, none, some, length, arith, Bool-cases,
  Option-cases, inl, inr,
}
use mac_homa.Endpoint.{Ip, is_v4}
use mac_homa.RawIp.{
  Error, Answer, fails, gives, packet, read_from, read_packet, addr_from_slice, unmap, Socket,
  written, first_error, is_unicast, send_to, write_packet,
}

-- Every call on the socket goes well, with the priority in the three precedence bits of the traffic
-- class, and the write takes the whole packet.
pub record IsWritten (s : Socket) (p : List ℕ) (peer : Ip) (priority : ℕ) : Type 0 where
  pub deadline : s.deadline ≡ none
  pub connection : s.connection ≡ none
  pub control : s.control ≡ none
  pub option : s.option (priority * 32) ≡ none
  pub write : s.write p peer ≡ (none, length p)

first_error-eq-none :
    (e : Option ℕ) (rest : Option Error) → first_error e rest ≡ none → (e ≡ none) × (rest ≡ none)
unfolding first_error
first_error-eq-none none rest h = (cc, h)
first_error-eq-none (some e) rest h = absurd (ground arith)

written-eq-none : (p : List ℕ) (out : Option ℕ × ℕ) → written p out ≡ none → out ≡ (none, length p)
unfolding written
written-eq-none p (some e, n) h = absurd (ground arith)
written-eq-none p (none, n) h = let e : n ≡ length p = ground arith in cc e

send_to-IsWritten :
    (s : Socket) (p : List ℕ) (peer : Ip) (priority : ℕ)
    → send_to s p peer priority ≡ none
    → IsWritten s p peer priority
unfolding send_to
send_to-IsWritten s p peer priority h =
    let (deadline, h1) = first_error-eq-none _ _ h in
    let (connection, h2) = first_error-eq-none _ _ h1 in
    let (control, h3) = first_error-eq-none _ _ h2 in
    let (option, h4) = first_error-eq-none _ _ h3 in
    record {
      deadline = deadline;
      connection = connection;
      control = control;
      option = option;
      write = written-eq-none p (s.write p peer) h4;
    }

IsWritten-send_to :
    (s : Socket) (p : List ℕ) (peer : Ip) (priority : ℕ)
    → IsWritten s p peer priority
    → send_to s p peer priority ≡ none
unfolding send_to first_error written
IsWritten-send_to s p peer priority v =
    rw (v.deadline, v.connection, v.control, v.option, v.write) (ground arith)

-- `WritePacket` gives no error exactly when the peer is a unicast IPv4 address, the priority one of
-- eight, the packet not empty and no longer than an IPv4 datagram carries, and every call on the
-- socket goes well, the write of the whole packet the last.
pub write_packet-eq-none_iff :
    (s : Socket) (p : List ℕ) (peer : Ip) (priority : ℕ)
    → (write_packet s p peer priority ≡ none) ↔ (
        (is_unicast peer ≡ true)
        × (priority < 8)
        × (0 < length p)
        × (length p ≤ 65515)
        × IsWritten s p peer priority)
unfolding write_packet
write_packet-eq-none_iff s p peer priority = (
  λ h.
      let sent : send_to s p peer priority ≡ none = ground arith in
      (
        ground arith,
        ground arith,
        ground arith,
        ground arith,
        send_to-IsWritten s p peer priority sent,
      ),
  λ v.
      let sent = IsWritten-send_to s p peer priority v.4 in let (u, l, n, m, w) = v in ground arith,
)

packet_inj : {p q : List ℕ} {a b : Ip} → packet p a ≡ packet q b → (p ≡ q) × (a ≡ b)
packet_inj h = (cc h, cc h)

read_from-packet :
    (size : ℕ) (q p : List ℕ) (from ip : Ip)
    → read_from size q (some from) ≡ packet p ip
    → (q ≡ p) × (unmap from ≡ ip) × (is_v4 ip ≡ true) × (length p ≤ size)
unfolding read_from
read_from-packet size q p from ip h = elim (Bool-cases (is_v4 (unmap from))) [
  | inr other ↦ absurd (ground (arith, h, other))
  | inl four ↦ elim (Bool-cases (ltb size (length q))) [
    | inl long ↦ absurd (ground (arith, h, four, long))
    | inr fits ↦
        let (same, address) = packet_inj (rw (four, fits) at h) in
        (same, address, rw (← address) four, rw (← same) (ground (arith, fits)))
  ]
]

-- `ReadPacket` gives a packet only whole and only from an IPv4 source: the bytes are those that the
-- socket gave, they fit into the caller's buffer, and the address is the source's, unmapped.
pub read_packet_whole :
    (size : ℕ) (answer : Answer) (p : List ℕ) (ip : Ip)
    → read_packet size answer ≡ packet p ip
    → (source : List ℕ) × (from : Ip) × (answer ≡ gives p source)
      × (addr_from_slice source ≡ some from)
      × (unmap from ≡ ip)
      × (is_v4 ip ≡ true)
      × (length p ≤ size)
unfolding read_packet
read_packet_whole size (fails e) p ip h = absurd (ground arith)
read_packet_whole size (gives q source) p ip h = elim (Option-cases (addr_from_slice source)) [
  | inl none' ↦ absurd (
      let g : read_from size q none ≡ packet p ip = rw none' at h in
      unfold read_from in ground arith)
  | inr (from, some') ↦
      let g : read_from size q (some from) ≡ packet p ip = rw some' at h in
      let (same, address, four, fits) = read_from-packet size q p from ip g in
      (source, from, rw same, some', address, four, fits)
]
