-- ===== src/Relay/Account.antt =====
-- The relay's counters agree with each other in every run.
use mac_homa.Common.{
  ℕ, zero, suc, ◌+◌, ◌≤◌, ◌<◌, ◌≡◌, ◌≢◌, ◌==◌, Bool, true, false, not, ◌||◌, List, Option, none,
  some, length, arith, refl, ap, sym, subst, Bool-cases, inl, inr, ==_iff,
}
use mac_homa.Wire.{ok}
use mac_homa.Wire.Bytes.{read_u16}
use mac_homa.Wire.Bytes.Total.{bind-ok, ok_inj}
use mac_homa.Endpoint.{Ip}
use mac_homa.Relay.{guest_mac, virtual_host, virtual_guest}
use mac_homa.Relay.Packet.{native_packet, allowed_homa, ethernet_packet, slice, equal}
use mac_homa.Relay.Nic.{arp}
use mac_homa.Relay.State.{
  State, Report, bump, drop_lan, drop_vm, lan_begin, lan_taken, lan_end, lan_dropped, lan_frame,
  vm_begin, vm_taken, vm_datagram, answers_arp, ignores, vm_dropped, vm_packet, vm_requested,
  vm_refused, vm_sent, SocketError, transient_send_drop, goes_on, stops, note_acks,
}
use mac_homa.Relay.Acks.{IsAckSet, lan_end-IsAckSet}
use mac_homa.Relay.Run.{
  Phase, reading, stopped, writing, Config, at, Step, lan_drops, lan_relays, vm_drops, vm_requests,
  vm_loses, vm_sends, vm_fails, vm_cuts, Run, begin, follows,
}

-- The sum of the counters of a map by traffic class.
unfoldable pub sum_to : ℕ → (ℕ → ℕ) → ℕ
sum_to zero m = 0
sum_to (suc n) m = m n + sum_to n m

sum_to-bump :
    (n k : ℕ) (m : ℕ → ℕ)
    → (n ≤ k → sum_to n (bump m k) ≡ sum_to n m) × (k < n → sum_to n (bump m k) ≡ suc (sum_to n m))
unfolding sum_to
sum_to-bump zero k m = (λ h. refl, λ h. absurd (omega (arith, h)))
sum_to-bump (suc n) k m =
    let (above, below) = sum_to-bump n k m in
    (
      λ h. ground (arith, h, above),
      λ h. elim (Bool-cases (k == n)) [
        | inl same ↦ let e : k ≡ n = (==_iff k n).0 same in ground (arith, same, e, above)
        | inr other ↦ ground (arith, other, h, below)
      ],
    )

-- A packet that has been counted as requested, and not yet as sent or lost.
abbrev pub open_of : Phase → ℕ
open_of reading = 0
open_of stopped = 1
open_of (writing p) = 1

pub record IsConsistent (c : Config) : Type 0 where
  pub acks : IsAckSet c.state.acks
  pub lan : c.state.report.lan_to_vm ≡ sum_to 256 c.state.report.observed_lan_tos
  pub vm :
      c.state.report.vm_to_lan + c.state.report.lan_send_buffer_drops + open_of c.phase
      ≡ sum_to 256 c.state.report.observed_vm_tos
  pub requested : (k : ℕ) → c.state.report.observed_vm_tos k ≡ c.state.report.requested_lan_tos k
  pub drops : c.state.report.lan_send_buffer_drops ≤ c.state.report.dropped_vm

lan_dropped_inj : {s t : State} → ok (lan_dropped s) ≡ ok (lan_dropped t) → s ≡ t
lan_dropped_inj h = cc h

frame_ne_dropped :
    {p f : List ℕ} {tos : ℕ} {t : State} → ok (lan_frame p tos f) ≢ ok (lan_dropped t)
frame_ne_dropped h = cc h

vm_dropped_inj : {s t : State} → ok (vm_dropped s) ≡ ok (vm_dropped t) → s ≡ t
vm_dropped_inj h = cc h

packet_ne_dropped : {p : List ℕ} {tos : ℕ} {t : State} → ok (vm_packet p tos) ≢ ok (vm_dropped t)
packet_ne_dropped h = cc h

arp_ne_dropped : {r : Option (List ℕ)} {t : State} → ok (answers_arp r) ≢ ok (vm_dropped t)
arp_ne_dropped h = cc h

ignores_ne_dropped : {t : State} → ok ignores ≢ ok (vm_dropped t)
ignores_ne_dropped h = cc h

lan_taken-dropped :
    (s t : State) (truncated : Bool) (taken : Option (List ℕ × ℕ))
    → lan_taken s truncated taken ≡ ok (lan_dropped t)
    → drop_lan s ≡ t
unfolding lan_taken
lan_taken-dropped s t truncated none h = lan_dropped_inj h
lan_taken-dropped s t truncated (some (p, tos)) h =
    let (allowed, e, rest) = bind-ok (allowed_homa p true) _ h in
    elim (Bool-cases (truncated || not allowed)) [
      | inl out ↦ lan_dropped_inj (rw out at rest)
      | inr pass ↦
          let (frame, made, last) = bind-ok (ethernet_packet p tos) _ (rw pass at rest) in
          absurd (frame_ne_dropped last)
    ]

lan_begin-dropped :
    (s t : State) (local peer : Ip) (datagram : List ℕ) (truncated : Bool)
    → lan_begin s local peer datagram truncated ≡ ok (lan_dropped t)
    → drop_lan s ≡ t
unfolding lan_begin
lan_begin-dropped s t local peer datagram truncated h =
    let (taken, e, rest) = bind-ok (native_packet datagram peer local) _ h in
    lan_taken-dropped s t truncated taken rest

vm_taken-dropped :
    (s t : State) (taken : Option (List ℕ × ℕ))
    → vm_taken s taken ≡ ok (vm_dropped t)
    → drop_vm s ≡ t
unfolding vm_taken
vm_taken-dropped s t none h = vm_dropped_inj h
vm_taken-dropped s t (some (p, tos)) h =
    let (allowed, e, rest) = bind-ok (allowed_homa p false) _ h in
    elim (Bool-cases (not allowed)) [
      | inl out ↦ vm_dropped_inj (rw out at rest)
      | inr pass ↦ absurd (packet_ne_dropped (rw pass at rest))
    ]

vm_begin-dropped :
    (s t : State) (frame : List ℕ) → vm_begin s frame ≡ ok (vm_dropped t) → drop_vm s ≡ t
unfolding vm_begin vm_datagram
vm_begin-dropped s t frame h =
    let (kind, e, rest) = bind-ok (read_u16 frame 12) _ h in
    elim (Bool-cases (kind == 0x0806)) [
      | inl asks ↦
          let (reply, f, last) = bind-ok (arp frame) _ (rw asks at rest) in
          absurd (arp_ne_dropped last)
      | inr other ↦
          let (source, f, more) = bind-ok (slice frame 6 12) _ (rw other at rest) in
          elim (Bool-cases (not (kind == 0x0800) || not (equal source guest_mac))) [
            | inl out ↦ absurd (ignores_ne_dropped (rw out at more))
            | inr pass ↦
                let (ip, g, inner) = bind-ok (slice frame 14 (length frame)) _ (rw pass at more) in
                let (taken, k, last) =
                  bind-ok (native_packet ip virtual_guest virtual_host) _ inner in
                vm_taken-dropped s t taken last
          ]
    ]

lan_end-is :
    (s t : State) (p : List ℕ) (tos : ℕ)
    → lan_end s p tos ≡ ok t
    → record s.report {
      lan_to_vm = s.report.lan_to_vm + 1;
      observed_lan_tos = bump s.report.observed_lan_tos tos;
    }
      ≡ t.report
unfolding lan_end
lan_end-is s t p tos h =
    let (acks, e, rest) = bind-ok (note_acks p s.acks) _ h in
    ap (λ (z : State). z.report) (ok_inj rest)

ending_inj : {s t : State} → goes_on s ≡ goes_on t → s ≡ t
ending_inj h = cc h

stops_inj : {s t : State} {x y : Option SocketError} → stops s x ≡ stops t y → s ≡ t
stops_inj h = cc h

goes_on_ne_stops : {s t : State} {x : Option SocketError} → goes_on s ≢ stops t x
goes_on_ne_stops h = cc h

drop_lan-IsConsistent :
    (s : State) (phase : Phase) → IsConsistent (at s phase) → IsConsistent (at (drop_lan s) phase)
unfolding drop_lan
drop_lan-IsConsistent s phase v = record {
  acks = v.acks;
  lan = v.lan;
  vm = v.vm;
  requested = v.requested;
  drops = v.drops;
}

drop_vm-IsConsistent :
    (s : State) (phase : Phase) → IsConsistent (at s phase) → IsConsistent (at (drop_vm s) phase)
unfolding drop_vm
drop_vm-IsConsistent s phase v = record {
  acks = v.acks;
  lan = v.lan;
  vm = v.vm;
  requested = v.requested;
  drops = let d = v.drops in omega (arith, d);
}

lan_end-IsConsistent :
    (s t : State) (phase : Phase) (p : List ℕ) (tos : ℕ)
    → tos < 256
    → lan_end s p tos ≡ ok t
    → IsConsistent (at s phase)
    → IsConsistent (at t phase)
lan_end-IsConsistent s t phase p tos l h v =
    let e = lan_end-is s t p tos h in
    let more = (sum_to-bump 256 tos s.report.observed_lan_tos).1 l in
    record {
      acks = lan_end-IsAckSet s t p tos v.acks h;
      lan =
          subst (λ (r : Report). r.lan_to_vm ≡ sum_to 256 r.observed_lan_tos) e
            (omega (arith, more, v.lan));
      vm =
          subst
            (λ (r : Report).
              r.vm_to_lan + r.lan_send_buffer_drops + open_of phase ≡ sum_to 256 r.observed_vm_tos)
            e v.vm;
      requested =
          subst (λ (r : Report). (k : ℕ) → r.observed_vm_tos k ≡ r.requested_lan_tos k) e
            v.requested;
      drops = subst (λ (r : Report). r.lan_send_buffer_drops ≤ r.dropped_vm) e v.drops;
    }

vm_requested-IsConsistent :
    (s : State) (p : List ℕ) (tos : ℕ)
    → tos < 256
    → IsConsistent (at s reading)
    → IsConsistent (at (vm_requested s tos) (writing p))
unfolding vm_requested
vm_requested-IsConsistent s p tos l v =
    let more = (sum_to-bump 256 tos s.report.observed_vm_tos).1 l in
    record {
      acks = v.acks;
      lan = v.lan;
      vm = omega (arith, more, v.vm);
      requested = λ k. ground (arith, v.requested k);
      drops = v.drops;
    }

stopped-IsConsistent :
    (s : State) (p : List ℕ) → IsConsistent (at s (writing p)) → IsConsistent (at s stopped)
stopped-IsConsistent s p v = record {
  acks = v.acks;
  lan = v.lan;
  vm = v.vm;
  requested = v.requested;
  drops = v.drops;
}

vm_refused-IsConsistent :
    (s : State) (p : List ℕ) (e : SocketError)
    → IsConsistent (at s (writing p))
    → ((t : State) → vm_refused s e ≡ goes_on t → IsConsistent (at t reading))
      × ((t : State) (x : Option SocketError)
          → vm_refused s e ≡ stops t x
          → IsConsistent (at t stopped))
unfolding vm_refused
vm_refused-IsConsistent s p e v = elim (Bool-cases (transient_send_drop e)) [
  | inl drops ↦ (
    λ t h.
        subst (λ x. IsConsistent (at x reading)) (ending_inj (rw (vm_refused, drops) at h))
          (record {
            acks = v.acks;
            lan = v.lan;
            vm = let w = v.vm in omega (arith, w);
            requested = v.requested;
            drops = let d = v.drops in omega (arith, d);
          }),
    λ t x h. absurd (goes_on_ne_stops (rw (vm_refused, drops) at h)),
  )
  | inr ends ↦ (
    λ t h. absurd (goes_on_ne_stops (sym (rw (vm_refused, ends) at h))),
    λ t x h.
        subst (λ y. IsConsistent (at y stopped)) (stops_inj (rw (vm_refused, ends) at h))
          (stopped-IsConsistent s p v),
  )
]

vm_sent-IsConsistent :
    (s : State) (p : List ℕ) (n : ℕ)
    → IsConsistent (at s (writing p))
    → ((t : State) → vm_sent s p n ≡ goes_on t → IsConsistent (at t reading))
      × ((t : State) (x : Option SocketError)
          → vm_sent s p n ≡ stops t x
          → IsConsistent (at t stopped))
unfolding vm_sent
vm_sent-IsConsistent s p n v = elim (Bool-cases (not (n == length p))) [
  | inr whole ↦ (
    λ t h.
        subst (λ x. IsConsistent (at x reading)) (ending_inj (rw (vm_sent, whole) at h))
          (record {
            acks = v.acks;
            lan = v.lan;
            vm = let w = v.vm in omega (arith, w);
            requested = v.requested;
            drops = v.drops;
          }),
    λ t x h. absurd (goes_on_ne_stops (rw (vm_sent, whole) at h)),
  )
  | inl cut ↦ (
    λ t h. absurd (goes_on_ne_stops (sym (rw (vm_sent, cut) at h))),
    λ t x h.
        subst (λ y. IsConsistent (at y stopped)) (stops_inj (rw (vm_sent, cut) at h))
          (stopped-IsConsistent s p v),
  )
]

module _ (local peer : Ip) where
  Step-IsConsistent : (a b : Config) → Step local peer a b → IsConsistent a → IsConsistent b
  Step-IsConsistent a b (lan_drops s t phase datagram truncated h) v =
      subst (λ x. IsConsistent (at x phase)) (lan_begin-dropped s t local peer datagram truncated h)
        (drop_lan-IsConsistent s phase v)
  Step-IsConsistent a b (lan_relays r s t phase datagram p frame tos truncated g l h) v =
      lan_end-IsConsistent s t phase p tos l h v
  Step-IsConsistent a b (vm_drops s t frame h) v =
      subst (λ x. IsConsistent (at x reading)) (vm_begin-dropped s t frame h)
        (drop_vm-IsConsistent s reading v)
  Step-IsConsistent a b (vm_requests r s frame p tos h l) v = vm_requested-IsConsistent s p tos l v
  Step-IsConsistent a b (vm_loses s t p e h) v = (vm_refused-IsConsistent s p e v).0 t h
  Step-IsConsistent a b (vm_sends s t p n h) v = (vm_sent-IsConsistent s p n v).0 t h
  Step-IsConsistent a b (vm_fails s t p e x h) v = (vm_refused-IsConsistent s p e v).1 t x h
  Step-IsConsistent a b (vm_cuts s t p n x h) v = (vm_sent-IsConsistent s p n v).1 t x h

-- In every run of the relay's two directions from consistent counters, and so from the zeros of the
-- start, the acknowledged RPCs stay a set of even IDs that are not 0, of 1024 at most; `LANToVM` is the
-- sum of the observed classes of the LAN; the packets from the virtual machine that were counted by
-- class are those sent, those lost in the send buffer, and the one being written or failed; the
-- observed and the requested classes are the same; and each loss in the send buffer is a drop.
pub Run-IsConsistent :
    (local peer : Ip) (a b : Config) → Run local peer a b → IsConsistent a → IsConsistent b
Run-IsConsistent local peer a b (begin c) v = v
Run-IsConsistent local peer a b (follows first c last run step) v =
    Step-IsConsistent local peer c last step (Run-IsConsistent local peer first c run v)
