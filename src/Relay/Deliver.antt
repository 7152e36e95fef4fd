-- ===== src/Relay/Deliver.antt =====
-- The way of a packet through the relay, from the LAN to the virtual machine.
use mac_homa.Common.{
  ℕ, zero, suc, ◌+◌, ◌-◌, ◌*◌, ◌/◌, ◌%◌, ◌^◌, ◌≤◌, ◌<◌, ◌≡◌, ◌==◌, ltb, Bool, true, not, ◌||◌, List,
  [], ◌∷◌, ◌++◌, Option, none, some, length, take, drop, arith, ap, ◌∙◌, sym, Bool-cases, inl, inr,
  All, min, length-take, length-drop, subst,
}
use mac_homa.Wire.{Result, ok}
use mac_homa.Wire.Bytes.{byte_at, read_u16, be_u16}
use mac_homa.Wire.Bytes.Total.{bind-ok, ok_inj}
use mac_homa.Wire.Valid.{IsByte}
use mac_homa.Endpoint.{Ip}
use mac_homa.Relay.{virtual_host, virtual_guest, host_mac, guest_mac}
use mac_homa.Relay.Packet.{
  slice, has_native_header, native_body, native_packet, allowed_homa, ethernet_packet,
}
use mac_homa.Relay.Frame.{native_packet-ethernet_packet}
use mac_homa.Relay.State.{State, lan_begin, lan_taken, lan_frame}

byte_at-IsByte : (b : List ℕ) (i x : ℕ) → All IsByte b → byte_at b i ≡ ok x → x < 256
unfolding byte_at
byte_at-IsByte [] i x v h = absurd (ground arith)
byte_at-IsByte (y ∷ b) zero x v h = let e : y ≡ x = cc h in subst IsByte e v.0
byte_at-IsByte (y ∷ b) (suc i) x v h = byte_at-IsByte b i x v.1 h

read_u16-lt : (b : List ℕ) (i n : ℕ) → All IsByte b → read_u16 b i ≡ ok n → n < 2 ^ 16
unfolding read_u16 be_u16
read_u16-lt b i n v h =
    let (x, ex, rest) = bind-ok (byte_at b i) _ h in
    let (y, ey, last) = bind-ok (byte_at b (i + 1)) _ rest in
    let lx = byte_at-IsByte b i x v ex in
    let ly = byte_at-IsByte b (i + 1) y v ey in
    let e : x * 256 + y ≡ n = cc last in omega (arith, lx, ly, e)

pub length-slice :
    (b p : List ℕ) (i j : ℕ) → slice b i j ≡ ok p → (length p ≡ j - i) × (j ≤ length b)
unfolding slice
length-slice b p i j h = elim (Bool-cases (ltb j i || ltb (length b) j)) [
  | inl out ↦ absurd (ground arith)
  | inr within ↦
      let h' : ok (drop i (take j b)) ≡ ok p = rw within at h in
      let e : drop i (take j b) ≡ p = cc h' in
      let l : length (drop i (take j b)) ≡ min j (length b) - i =
        length-drop i (take j b) ∙ ap (λ n. n - i) (length-take j b) in
      (sym (ap length e) ∙ l ∙ ground arith, ground arith)
]

-- What `nativePacket` gives fits into an Ethernet frame again.
record IsCarried (p : List ℕ) (tos : ℕ) : Type 0 where
  long : 28 ≤ length p
  short : length p ≤ 65515
  class : tos < 256

taken_inj :
    {p q : List ℕ} {t u : ℕ}
    → ◌≡◌ {A = Result (Option (List ℕ × ℕ))} (ok (some (p, t))) (ok (some (q, u)))
    → (p ≡ q) × (t ≡ u)
taken_inj h = (cc h, cc h)

frame_inj :
    {p q f g : List ℕ} {t u : ℕ}
    → ok (lan_frame p t f) ≡ ok (lan_frame q u g)
    → (p ≡ q) × (t ≡ u) × (f ≡ g)
frame_inj h = (cc h, cc h, cc h)

native_body-IsCarried :
    (ip p : List ℕ) (tos : ℕ) (source destination : Ip)
    → All IsByte ip
    → native_body ip source destination ≡ ok (some (p, tos))
    → IsCarried p tos
unfolding native_body
native_body-IsCarried ip p tos source destination v h =
    let (first, ef, h1) = bind-ok (byte_at ip 0) _ h in
    let (total, et, h2) = bind-ok (read_u16 ip 2) _ h1 in
    let header = first % 16 * 4 in
    let small = read_u16-lt ip 2 total v et in
    elim (Bool-cases (
      ltb header 20
      || ltb (length ip) header
      || ltb total (header + 28)
      || ltb (length ip) total)) [
        | inl out ↦ absurd (ground (arith, h2, out))
        | inr within ↦
            let (native, en, h3) =
              bind-ok (has_native_header ip header source destination) _ (rw within at h2) in
            elim (Bool-cases native) [
              | inr no' ↦ absurd (ground (arith, h3, no'))
              | inl yes' ↦
                  let (q, eq', h4) = bind-ok (slice ip header total) _ (rw yes' at h3) in
                  let (t, ec, h5) = bind-ok (byte_at ip 1) _ h4 in
                  let (same, same_tos) = taken_inj h5 in
                  let l = length-slice ip q header total eq' in
                  let n : length q ≡ length p = ap length same in
                  record {
                    long = ground (arith, within, l.0, n);
                    short = ground (arith, within, l.0, n, small);
                    class = subst IsByte same_tos (byte_at-IsByte ip 1 t v ec);
                  }
            ]
      ]

native_packet-IsCarried :
    (ip p : List ℕ) (tos : ℕ) (source destination : Ip)
    → All IsByte ip
    → native_packet ip source destination ≡ ok (some (p, tos))
    → IsCarried p tos
unfolding native_packet
native_packet-IsCarried ip p tos source destination v h = elim (Bool-cases (ltb (length ip) 20)) [
  | inl short ↦ absurd (ground (arith, h, short))
  | inr long ↦
      let (first, e, h1) = bind-ok (byte_at ip 0) _ (rw (long, native_packet) at h) in
      elim (Bool-cases (not (first / 16 == 4))) [
        | inl other ↦ absurd (ground (arith, h1, other))
        | inr four ↦ native_body-IsCarried ip p tos source destination v (rw four at h1)
      ]
]

-- What a frame for the virtual machine was made of.
pub record IsRelayed (local peer : Ip) (datagram p frame : List ℕ) (tos : ℕ) : Type 0 where
  pub taken : native_packet datagram peer local ≡ ok (some (p, tos))
  pub allowed : allowed_homa p true ≡ ok true
  pub made : ethernet_packet p tos ≡ ok frame

lan_taken-IsRelayed :
    (s : State) (local peer : Ip) (datagram p frame : List ℕ) (tos : ℕ) (truncated : Bool)
    (taken : Option (List ℕ × ℕ))
    → native_packet datagram peer local ≡ ok taken
    → lan_taken s truncated taken ≡ ok (lan_frame p tos frame)
    → IsRelayed local peer datagram p frame tos
unfolding lan_taken
lan_taken-IsRelayed s local peer datagram p frame tos truncated none e h = absurd (ground arith)
lan_taken-IsRelayed s local peer datagram p frame tos truncated (some (q, t)) e h =
    let (allowed, a, rest) = bind-ok (allowed_homa q true) _ h in
    elim (Bool-cases (truncated || not allowed)) [
      | inl out ↦ absurd (ground (arith, rest, out))
      | inr pass ↦
          let (f, m, last) = bind-ok (ethernet_packet q t) _ (rw pass at rest) in
          let (same, same_tos, same_frame) = frame_inj last in
          let yes' : allowed ≡ true = ground (arith, pass) in
          record {
            taken = rw (← same, ← same_tos) e;
            allowed = rw (← same) (a ∙ ap ok yes');
            made = rw (← same, ← same_tos, ← same_frame) m;
          }
    ]

pub lan_begin-IsRelayed :
    (s : State) (local peer : Ip) (datagram p frame : List ℕ) (tos : ℕ) (truncated : Bool)
    → lan_begin s local peer datagram truncated ≡ ok (lan_frame p tos frame)
    → IsRelayed local peer datagram p frame tos
unfolding lan_begin
lan_begin-IsRelayed s local peer datagram p frame tos truncated h =
    let (taken, e, rest) = bind-ok (native_packet datagram peer local) _ h in
    lan_taken-IsRelayed s local peer datagram p frame tos truncated taken e rest

-- Every frame that the relay writes for a datagram of the LAN holds the Homa bytes and the traffic
-- class of that datagram, which came from the peer to the local address, and which `allowedHoma`
-- lets through: the frame goes from the host's to the guest's MAC, and what stands behind its Ethernet
-- header is a valid datagram from the virtual host to the virtual guest.
pub lan_begin_carries :
    (s : State) (local peer : Ip) (datagram p frame : List ℕ) (tos : ℕ) (truncated : Bool)
    → All IsByte datagram
    → lan_begin s local peer datagram truncated ≡ ok (lan_frame p tos frame)
    → (native_packet datagram peer local ≡ ok (some (p, tos)))
      × (allowed_homa p true ≡ ok true)
      × (take 14 frame ≡ guest_mac ++ (host_mac ++ (8 ∷ 0 ∷ [])))
      × (native_packet (drop 14 frame) virtual_host virtual_guest ≡ ok (some (p, tos)))
lan_begin_carries s local peer datagram p frame tos truncated v h =
    let r = lan_begin-IsRelayed s local peer datagram p frame tos truncated h in
    let c = native_packet-IsCarried datagram p tos peer local v r.taken in
    let (f, made, macs, same) = native_packet-ethernet_packet p tos c.long c.short c.class in
    let e : f ≡ frame = ok_inj (sym made ∙ r.made) in
    (
      r.taken,
      r.allowed,
      subst (λ g. take 14 g ≡ guest_mac ++ (host_mac ++ (8 ∷ 0 ∷ []))) e macs,
      subst (λ g. native_packet (drop 14 g) virtual_host virtual_guest ≡ ok (some (p, tos))) e same,
    )
