-- ===== src/Vmcheck/Ends.antt =====
-- `ReadPacket` on any stream: it ends, and no index or slice of a frame is out of range.
use mac_homa.Common.{
  ℕ, zero, suc, ◌+◌, ◌-◌, ◌*◌, ◌/◌, ◌%◌, ◌^◌, ◌≤◌, ◌<◌, ◌≡◌, ◌≢◌, ◌==◌, ltb, not, ◌||◌, List, [],
  ◌∷◌, ◌++◌, Option, some, length, arith, refl, ap, Bool-cases, Option-cases, inl, inr, length-take,
  length-drop, ◌⊎◌,
}
use mac_homa.Wire.{Result, ok, err, panic, Error}
use mac_homa.Wire.Bytes.{read_u32}
use mac_homa.Wire.Bytes.Total.{
  NoPanic, is_ok, NoPanic-ne-panic, NoPanic-bind, NoPanic-then, NoPanic-if, byte_at-NoPanic,
  read_u16-NoPanic, read_u32-ok,
}
use mac_homa.Endpoint.{Ip, v4, eq_ip}
use mac_homa.RawIp.{from_octets}
use mac_homa.Relay.{as_slice}
use mac_homa.Relay.Packet.{equal, slice}
use mac_homa.Relay.Nic.{read_full, arp_reply}
use mac_homa.Relay.Safety.{slice-NoPanic, arp_reply-NoPanic}
use mac_homa.Relay.Deliver.{length-slice}
use mac_homa.Vmcheck.{
  host_ip, guest_ip, checksum, Frame, skips, replies, too_long, delivers, arp_bytes, answer_arp,
  read_arp, read_body, read_header, read_ip, read_frame, Ended, waits, stream_ends, bad_size,
  short_buffer, panics, wire_error, write_fails, packet, Next, nothing, bad_length, unreadable, got,
  next_sized, next_frame, read_loop, read_packet,
}
use mac_homa.Vmcheck.Frames.{checksum-ip_checksum}

-- The reply is the one that the relay gives.
arp_bytes-arp_reply : (f : List ℕ) → arp_bytes f ≡ arp_reply f
unfolding arp_bytes arp_reply
arp_bytes-arp_reply f = refl

answer_arp-NoPanic : (f : List ℕ) → 42 ≤ length f → NoPanic (answer_arp f)
unfolding answer_arp
answer_arp-NoPanic f h =
    NoPanic-bind _ _ (rw (arp_bytes-arp_reply f) (arp_reply-NoPanic f h)) λ reply. is_ok _

read_arp-NoPanic : (f : List ℕ) → NoPanic (read_arp f)
unfolding read_arp
read_arp-NoPanic f =
    NoPanic-if (ltb (length f) 42) _ _ (λ c. is_ok _)
      λ c.
        let l : 42 ≤ length f = ground arith in
        NoPanic-bind _ _ (read_u16-NoPanic f 20 (omega arith)) λ operation.
          NoPanic-bind _ _ (slice-NoPanic f 38 42 (omega arith) (omega arith)) λ to.
            NoPanic-if (not (operation == 1) || not (equal to (as_slice host_ip))) _ _
              (λ d. is_ok _) λ d. answer_arp-NoPanic f l

-- What stands before a datagram is read: 20 bytes of header at least, inside the total, inside it.
module _ (size header total : ℕ) (ip : List ℕ) (least : 20 ≤ length ip) (four : header % 4 ≡ 0)
    (inside : header ≤ total) (whole : total ≤ length ip) where
  read_body-NoPanic : NoPanic (read_body size ip header total)
  unfolding read_body
  read_body-NoPanic =
      NoPanic-bind _ _ (slice-NoPanic ip 12 16 (omega arith) (omega arith)) λ source.
        NoPanic-bind _ _ (slice-NoPanic ip 16 20 (omega arith) (omega arith)) λ to.
          NoPanic-if
            (not (eq_ip (v4 (from_octets source 0)) guest_ip) || not (equal to (as_slice host_ip)))
            _ _ (λ c. is_ok _)
            λ c.
              NoPanic-if (ltb size (total - header)) _ _ (λ d. is_ok _)
                λ d. NoPanic-bind _ _ (slice-NoPanic ip header total inside whole) λ p. is_ok _

  checksum-NoPanic : (bytes : List ℕ) → slice ip 0 header ≡ ok bytes → NoPanic (checksum bytes)
  checksum-NoPanic bytes e =
      let l = length-slice ip bytes 0 header e in
      rw (checksum-ip_checksum bytes (omega (arith, l.0, four))) (is_ok _)

  read_header-NoPanic : NoPanic (read_header size ip header total)
  unfolding read_header
  read_header-NoPanic = NoPanic-bind _ _ (byte_at-NoPanic ip 9 (omega arith)) λ protocol.
      NoPanic-if (not (protocol == 146)) _ _ (λ c. is_ok _)
        λ c. NoPanic-then _ _ (slice-NoPanic ip 0 header (omega arith) (omega arith)) λ bytes e.
          NoPanic-bind _ _ (checksum-NoPanic bytes e) λ sum.
            NoPanic-bind _ _ (read_u16-NoPanic ip 6 (omega arith)) λ fragment.
              NoPanic-if (not (sum == 0) || not (fragment % 2 ^ 14 == 0)) _ _ (λ d. is_ok _)
                λ d. read_body-NoPanic

read_ip-NoPanic : (size : ℕ) (f : List ℕ) → NoPanic (read_ip size f)
unfolding read_ip
read_ip-NoPanic size f =
    NoPanic-if (ltb (length f) 34) _ _ (λ c. is_ok _)
      λ c. NoPanic-then _ _ (slice-NoPanic f 14 (length f) (ground arith) (omega arith)) λ ip e.
        let l = length-slice f ip 14 (length f) e in
        let least : 20 ≤ length ip = ground (arith, l.0, c) in
        NoPanic-bind _ _ (byte_at-NoPanic ip 0 (omega arith)) λ first.
          NoPanic-bind _ _ (read_u16-NoPanic ip 2 (omega arith)) λ total.
            NoPanic-if
              (not (first / 16 == 4)
                || ltb (first % 16 * 4) 20
                || ltb total (first % 16 * 4)
                || ltb (length ip) total)
              _ _ (λ d. is_ok _)
              λ d.
                read_header-NoPanic size (first % 16 * 4) total ip least (omega arith)
                  (ground arith) (ground arith)

read_frame-NoPanic : (size : ℕ) (f : List ℕ) → 14 ≤ length f → NoPanic (read_frame size f)
unfolding read_frame
read_frame-NoPanic size f h = NoPanic-bind _ _ (read_u16-NoPanic f 12 (omega arith)) λ kind.
    NoPanic-if (kind == 0x0806) _ _ (λ c. read_arp-NoPanic f)
      λ c. NoPanic-if (kind == 0x0800) _ _ (λ d. read_ip-NoPanic size f) λ d. is_ok _

-- A frame of the stream has an Ethernet header, and takes some of the stream.
record IsNext (stream f rest : List ℕ) : Type 0 where
  long : 14 ≤ length f
  shorter : length rest < length stream

got_inj : {f g r s : List ℕ} → got f r ≡ got g s → (f ≡ g) × (r ≡ s)
got_inj h = (cc h, cc h)

some_pair_inj :
    {a b c d : List ℕ}
    → ◌≡◌ {A = Option (List ℕ × List ℕ)} (some (a, b)) (some (c, d))
    → (a ≡ c) × (b ≡ d)
some_pair_inj h = (cc h, cc h)

read_full-some :
    (stream a b : List ℕ) (n : ℕ)
    → read_full stream n ≡ some (a, b)
    → (length a ≡ n) × (length b + n ≡ length stream)
unfolding read_full
read_full-some stream a b n h = elim (Bool-cases (ltb (length stream) n)) [
  | inl short ↦ absurd (ground (arith, h, short))
  | inr long ↦
      let (same, rest) = some_pair_inj (rw (long, read_full) at h) in
      (
        ground (arith, long, ap length same, length-take n stream),
        ground (arith, long, ap length rest, length-drop n stream),
      )
]

next_sized-got :
    (rest f left : List ℕ) (size : Result ℕ)
    → next_sized rest size ≡ got f left
    → (14 ≤ length f) × (length left ≤ length rest)
unfolding next_sized
next_sized-got rest f left (err e) h = absurd (ground arith)
next_sized-got rest f left panic h = absurd (ground arith)
next_sized-got rest f left (ok size) h = elim (Bool-cases (ltb size 14 || ltb (65535 + 14) size)) [
  | inl out ↦ absurd (ground (arith, h, out))
  | inr fits ↦ elim (Option-cases (read_full rest size)) [
    | inl none' ↦ absurd (ground (arith, h, fits, none'))
    | inr ((a, b), some') ↦
        let (same, rest') = got_inj (rw (fits, some') at h) in
        let l = read_full-some rest a b size some' in
        (ground (arith, fits, l.0, ap length same), ground (arith, l.1, ap length rest'))
  ]
]

next_frame-IsNext : (stream f rest : List ℕ) → next_frame stream ≡ got f rest → IsNext stream f rest
unfolding next_frame
next_frame-IsNext stream f rest h = elim (Option-cases (read_full stream 4)) [
  | inl none' ↦ absurd (ground (arith, h, none'))
  | inr ((prefix, left), some') ↦
      let n = next_sized-got left f rest (read_u32 prefix 0) (rw (some', next_frame) at h) in
      let l = read_full-some stream prefix left 4 some' in
      record { long = n.0; shorter = omega (arith, n.1, l.1) }
]

next_sized-readable : (rest : List ℕ) (size : ℕ) → next_sized rest (ok size) ≢ unreadable
unfolding next_sized
next_sized-readable rest size h = elim (Option-cases (read_full rest size)) [
  | inl none' ↦ ground (arith, h, none')
  | inr ((f, left), some') ↦ ground (arith, h, some')
]

next_frame-readable : (stream : List ℕ) → next_frame stream ≢ unreadable
unfolding next_frame
next_frame-readable stream h = elim (Option-cases (read_full stream 4)) [
  | inl none' ↦ ground (arith, h, none')
  | inr ((prefix, left), some') ↦
      let l = read_full-some stream prefix left 4 some' in
      next_sized-readable left _
        (rw (some', next_frame, read_u32-ok prefix 0 (omega (arith, l.0))) at h)
]

-- Neither out of fuel nor out of range.
data IsEnded : Ended → Type 0 where
  at_end : IsEnded stream_ends
  at_size : IsEnded bad_size
  at_buffer : IsEnded short_buffer
  at_error : (e : Error) → IsEnded (wire_error e)
  at_write : (e : ℕ) → IsEnded (write_fails e)
  at_packet : (p : List ℕ) (ip : Ip) (rest : List ℕ) → IsEnded (packet p ip rest)

IsEnded-ne : (e : Ended) → IsEnded e → (e ≢ waits) × (e ≢ panics)
IsEnded-ne e at_end = (λ h. cc h, λ h. cc h)
IsEnded-ne e at_size = (λ h. cc h, λ h. cc h)
IsEnded-ne e at_buffer = (λ h. cc h, λ h. cc h)
IsEnded-ne e (at_error x) = (λ h. cc h, λ h. cc h)
IsEnded-ne e (at_write x) = (λ h. cc h, λ h. cc h)
IsEnded-ne e (at_packet p ip rest) = (λ h. cc h, λ h. cc h)

Next-cases :
    (n : Next)
    → (n ≡ nothing)
      ⊎ (n ≡ bad_length)
      ⊎ (n ≡ unreadable)
      ⊎ ((f : List ℕ) × (rest : List ℕ) × (n ≡ got f rest))
Next-cases nothing = inl refl
Next-cases bad_length = inr (inl refl)
Next-cases unreadable = inr (inr (inl refl))
Next-cases (got f rest) = inr (inr (inr (f, rest, refl)))

Result-cases :
    (r : Result Frame) → (r ≡ panic) ⊎ ((e : Error) × (r ≡ err e)) ⊎ ((f : Frame) × (r ≡ ok f))
Result-cases panic = inl refl
Result-cases (err e) = inr (inl (e, refl))
Result-cases (ok f) = inr (inr (f, refl))

module _ (write : List ℕ → Option ℕ) (size : ℕ) where
  abbrev IsFrom : ℕ → Type 0
  IsFrom fuel =
      (stream : List ℕ) (sent : List (List ℕ))
      → length stream < fuel
      → IsEnded (read_loop fuel write size stream sent).1

  -- What the loop does with one frame.
  after_frame-IsEnded :
      (fuel : ℕ) (stream f rest : List ℕ) (sent : List (List ℕ)) (r : Frame)
      → IsFrom fuel
      → length rest < fuel
      → next_frame stream ≡ got f rest
      → read_frame size f ≡ ok r
      → IsEnded (read_loop (suc fuel) write size stream sent).1
  unfolding read_loop
  after_frame-IsEnded fuel stream f rest sent skips again h e1 e2 =
      rw (read_loop, e1, e2) (again rest sent h)
  after_frame-IsEnded fuel stream f rest sent too_long again h e1 e2 =
      rw (read_loop, e1, e2) at_buffer
  after_frame-IsEnded fuel stream f rest sent (delivers p ip) again h e1 e2 =
      rw (read_loop, e1, e2) (at_packet p ip rest)
  after_frame-IsEnded fuel stream f rest sent (replies reply) again h e1 e2 =
      elim (Option-cases (write reply)) [
        | inl none' ↦ rw (read_loop, e1, e2, none') (again rest (sent ++ (reply ∷ [])) h)
        | inr (e, some') ↦ rw (read_loop, e1, e2, some') (at_write e)
      ]

  read_loop-IsEnded :
      (fuel : ℕ) (stream : List ℕ) (sent : List (List ℕ))
      → length stream < fuel
      → IsEnded (read_loop fuel write size stream sent).1
  unfolding read_loop
  read_loop-IsEnded zero stream sent h = absurd (omega arith)
  read_loop-IsEnded (suc fuel) stream sent h = elim (Next-cases (next_frame stream)) [
    | inl e1 ↦ rw (read_loop, e1) at_end
    | inr (inl e1) ↦ rw (read_loop, e1) at_size
    | inr (inr (inl e1)) ↦ absurd (next_frame-readable stream e1)
    | inr (inr (inr (f, rest, e1))) ↦
        let n = next_frame-IsNext stream f rest e1 in
        elim (Result-cases (read_frame size f)) [
          | inl e2 ↦ absurd (NoPanic-ne-panic _ (read_frame-NoPanic size f n.long) e2)
          | inr (inl (e, e2)) ↦ rw (read_loop, e1, e2) (at_error e)
          | inr (inr (r, e2)) ↦
              after_frame-IsEnded fuel stream f rest sent r (read_loop-IsEnded fuel)
                (omega (arith, h, n.shorter)) e1 e2
        ]
  ]

-- On any stream that the virtual machine ends, for any buffer of the caller and whatever errors the
-- replies to ARP get, ReadPacket returns, and no index, slice or write is out of range.
pub read_packet_ends :
    (write : List ℕ → Option ℕ) (size : ℕ) (stream : List ℕ)
    → ((read_packet write size stream).1 ≢ waits) × ((read_packet write size stream).1 ≢ panics)
unfolding read_packet
read_packet_ends write size stream =
    IsEnded-ne _ (read_loop-IsEnded write size (suc (length stream)) stream [] (omega arith))
