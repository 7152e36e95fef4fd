-- ===== src/Endpoint/Sound/Frame.antt =====
-- Sending changes the queues and the counters, and never the core.
use mac_homa.Common.{
  ℕ, zero, suc, ◌%◌, ◌^◌, ◌+◌, ◌-◌, ◌≡◌, refl, ◌∙◌, Bool, true, false, if◌then◌else◌, ltb, leb, min,
  List, Option, none, some, length, arith, Bool-cases, Option-cases, inl, inr,
}
use mac_homa.Wire.{Packet, Common, Result, ok, err, panic}
use mac_homa.Wire.Marshal.{marshal}
use mac_homa.Wire
use mac_homa.Endpoint.{Addr, Key, Rpc, Outgoing, Endpoint, Core, Failure}
use mac_homa.Endpoint.Table.{rx_bytes}
use mac_homa.Endpoint.Send.{
  enqueue, send_bytes, send, control, count_retransmission, send_segment, send_new_loop, send_new,
  resend_loop, resend,
}
use mac_homa.Endpoint.Grants.{missing_end, send_resend, request_gap, request_missing, send_grant}

enqueue-core : (e : Endpoint) (p : Outgoing) → (enqueue e p).core ≡ e.core
unfolding enqueue
enqueue-core e p = ground arith

send_bytes-core :
    (e : Endpoint) (peer : Addr) (h : Common) (priority : ℕ) (r : Result (List ℕ))
    → (send_bytes e peer h priority r).0.core ≡ e.core
unfolding send_bytes
send_bytes-core e peer h priority (ok b) = enqueue-core e _
send_bytes-core e peer h priority (err x) = refl
send_bytes-core e peer h priority panic = refl

pub send-core :
    (e : Endpoint) (peer : Addr) (p : Packet) (priority : ℕ)
    → (send e peer p priority).0.core ≡ e.core
unfolding send
send-core e peer p priority = elim (Bool-cases (leb 8 priority)) [
  | inl h ↦ rw h
  | inr h ↦ rw h (send_bytes-core e peer (Wire.header p) priority (marshal p))
]

pub control-core : (e : Endpoint) (k : Key) (type : ℕ) → (control e k type).0.core ≡ e.core
unfolding control
control-core e k type = send-core e k.peer _ 7

pub send_segment-core :
    (e : Endpoint) (r : Rpc) (start : ℕ) (retransmit : Bool) (priority : ℕ)
    → (send_segment e r start retransmit priority).0.core ≡ e.core
unfolding send_segment count_retransmission
send_segment-core e r start true priority = send-core _ r.key.peer _ priority
send_segment-core e r start false priority = send-core _ r.key.peer _ priority

-- The fields that count for the account.
pub record Alike (r s : Rpc) : Type 0 where
  pub key : s.key ≡ r.key
  pub ptr : s.ptr ≡ r.ptr
  pub tx : s.tx ≡ r.tx
  pub handling : s.handling ≡ r.handling
  pub rx : rx_bytes s.rx ≡ rx_bytes r.rx

pub Alike-refl : (r : Rpc) → Alike r r
Alike-refl r = record { key = refl; ptr = refl; tx = refl; handling = refl; rx = refl }

pub Alike-trans : {r s t : Rpc} → Alike r s → Alike s t → Alike r t
Alike-trans a b = record {
  key = b.key ∙ a.key;
  ptr = b.ptr ∙ a.ptr;
  tx = b.tx ∙ a.tx;
  handling = b.handling ∙ a.handling;
  rx = b.rx ∙ a.rx;
}

-- `sendNew` changes `sent` alone.
pub record Sends (c : Core) (r : Rpc) (out : Endpoint × Rpc × Option Failure) : Type 0 where
  pub core : out.0.core ≡ c
  pub alike : Alike r out.1
  pub rx : out.1.rx ≡ r.rx
  pub received : out.1.received ≡ r.received

Sends-refl : (e : Endpoint) (r : Rpc) (x : Option Failure) → Sends e.core r (e, r, x)
Sends-refl e r x = record { core = refl; alike = Alike-refl r; rx = refl; received = refl }

abbrev pub marked : Endpoint → Rpc → Rpc
marked e r = record r { sent = min (r.sent + e.cfg.segment_bytes) (length r.tx) }

abbrev pub first_segment : Endpoint → Rpc → Endpoint × Option Failure
first_segment e r = send_segment e (marked e r) r.sent false r.priority

-- The rounds of the loop: nothing left, a segment that fails, a segment that goes.
module _ (fuel : ℕ) (e : Endpoint) (r : Rpc) where
  pub send_new_loop_done :
      ltb r.sent (min r.granted (length r.tx)) ≡ false → send_new_loop (suc fuel) e r ≡ (e, r, none)
  unfolding send_new_loop
  send_new_loop_done h = rw (h, send_new_loop)

  pub send_new_loop_failed :
      {x : Failure}
      → ltb r.sent (min r.granted (length r.tx)) ≡ true
      → (first_segment e r).1 ≡ some x
      → send_new_loop (suc fuel) e r ≡ ((first_segment e r).0, marked e r, some x)
  unfolding send_new_loop
  send_new_loop_failed h f = rw (h, send_new_loop, f)

  pub send_new_loop_next :
      ltb r.sent (min r.granted (length r.tx)) ≡ true
      → (first_segment e r).1 ≡ none
      → send_new_loop (suc fuel) e r ≡ send_new_loop fuel (first_segment e r).0 (marked e r)
  unfolding send_new_loop
  send_new_loop_next h f = rw (h, send_new_loop, f)

Sends-marked :
    (e e' : Endpoint) (r : Rpc) (out : Endpoint × Rpc × Option Failure)
    → e'.core ≡ e.core
    → Sends e'.core (marked e r) out
    → Sends e.core r out
Sends-marked e e' r out h s = record {
  core = s.core ∙ h;
  alike = record {
    key = s.alike.key;
    ptr = s.alike.ptr;
    tx = s.alike.tx;
    handling = s.alike.handling;
    rx = s.alike.rx;
  };
  rx = s.rx;
  received = s.received;
}

send_new_loop-Sends : (fuel : ℕ) (e : Endpoint) (r : Rpc) → Sends e.core r (send_new_loop fuel e r)
send_new_loop-Sends zero e r = unfold send_new_loop in Sends-refl e r none
send_new_loop-Sends (suc fuel) e r =
    let same = send_segment-core e (marked e r) r.sent false r.priority in
    let rest = send_new_loop-Sends fuel (first_segment e r).0 (marked e r) in
    elim (Bool-cases (ltb r.sent (min r.granted (length r.tx)))) [
      | inr done ↦ rw (send_new_loop_done fuel e r done) (Sends-refl e r none)
      | inl more ↦ elim (Option-cases (first_segment e r).1) [
        | inr (x, failed) ↦ rw (send_new_loop_failed fuel e r more failed) (
            Sends-marked e (first_segment e r).0 r _ same
              (Sends-refl (first_segment e r).0 (marked e r) (some x)))
        | inl went ↦
            rw (send_new_loop_next fuel e r more went)
              (Sends-marked e (first_segment e r).0 r _ same rest)
      ]
    ]

pub send_new-Sends : (e : Endpoint) (r : Rpc) → Sends e.core r (send_new e r)
unfolding send_new
send_new-Sends e r = send_new_loop-Sends (length r.tx) e r

-- A round of `resend`.
abbrev pub resent : Endpoint → Rpc → ℕ → ℕ → Endpoint
resent e r at priority = if ltb at (length r.tx) then (send_segment e r at true priority).0 else e

pub resent-core :
    (e : Endpoint) (r : Rpc) (at priority : ℕ) → (resent e r at priority).core ≡ e.core
resent-core e r at priority = elim (Bool-cases (ltb at (length r.tx))) [
  | inl h ↦ rw h (send_segment-core e r at true priority)
  | inr h ↦ rw h
]

resend_loop-core :
    (fuel : ℕ) (e : Endpoint) (r : Rpc) (at end priority : ℕ)
    → (resend_loop fuel e r at end priority).core ≡ e.core
unfolding resend_loop
resend_loop-core zero e r at end priority = refl
resend_loop-core (suc fuel) e r at end priority =
    let rest =
      resend_loop-core fuel (resent e r at priority) r (at + e.cfg.segment_bytes) end priority in
    elim (Bool-cases (ltb at end)) [
      | inl h ↦ rw (h, resend_loop) (rest ∙ resent-core e r at priority)
      | inr h ↦ rw (h, resend_loop)
    ]

pub resend-core :
    (e : Endpoint) (r : Rpc) (start end priority : ℕ)
    → (resend e r start end priority).core ≡ e.core
unfolding resend
resend-core e r start end priority =
    resend_loop-core (min end r.sent) e r _ (min end r.sent) priority

send_resend-core :
    (e : Endpoint) (r : Rpc) (offset len : ℕ) → (send_resend e r offset len).core ≡ e.core
unfolding send_resend
send_resend-core e r offset len = send-core e r.key.peer _ 7

pub request_missing-core : (e : Endpoint) (r : Rpc) → (request_missing e r).core ≡ e.core
unfolding request_missing request_gap
request_missing-core e r = elim (Option-cases r.rx) [
  | inl h ↦ rw (h, request_missing) (send_resend-core e r 0 _)
  | inr (a, h) ↦
      rw (h, request_missing)
        (ground (
          arith,
          send_resend-core e r a.contiguous (
              (missing_end (min a.granted (length a.payload) - a.contiguous) a.bits a.contiguous
                - a.contiguous)
              % 2 ^ 32),
        ))
]

pub send_grant-core :
    (e : Endpoint) (r : Rpc) (offset rank : ℕ) → (send_grant e r offset rank).core ≡ e.core
unfolding send_grant
send_grant-core e r offset rank = send-core e r.key.peer _ 7
