-- ===== src/Endpoint/Send/Progress.antt =====
-- `sendNew` and `resend` come to their end: the fuel of their loops is enough.
use mac_homa.Common.{
  ℕ, zero, suc, ◌+◌, ◌*◌, ◌/◌, ◌≤◌, ◌≡◌, min, ltb, false, none, some, length, refl, sym, ap, ◌∙◌,
  subst, arith, Bool-cases, inl, inr, Option-cases,
}
use mac_homa.Endpoint.{Endpoint, Rpc}
use mac_homa.Endpoint.Send.{send_new_loop, send_new, resend_loop, resend}
use mac_homa.Endpoint.Sound.Frame.{
  marked, first_segment, resent, send_segment-core, resent-core, send_new_loop_done,
  send_new_loop_failed, send_new_loop_next,
}

-- A segment more is marked, and the segment size stays what it is.
module _ (n : ℕ) (e : Endpoint) (r : Rpc) (s : 1 ≤ e.cfg.segment_bytes)
    (l : length r.tx ≤ r.sent + suc n) where
  positive : 1 ≤ (first_segment e r).0.cfg.segment_bytes
  positive =
      let same = send_segment-core e (marked e r) r.sent false r.priority in
      subst (λ c. 1 ≤ c.cfg.segment_bytes) (sym same) s

  nearer : length r.tx ≤ (marked e r).sent + n
  nearer = omega arith

-- Without an error, the loop ends with every granted byte marked as sent.
send_new_loop_sends :
    (n : ℕ) (e : Endpoint) (r : Rpc)
    → 1 ≤ e.cfg.segment_bytes
    → length r.tx ≤ r.sent + n
    → (send_new_loop n e r).2 ≡ none
    → min r.granted (length r.tx) ≤ (send_new_loop n e r).1.sent
send_new_loop_sends zero e r s l h = unfold send_new_loop in omega arith
send_new_loop_sends (suc n) e r s l h =
    let rest =
      send_new_loop_sends n (first_segment e r).0 (marked e r) (positive n e r s l)
        (nearer n e r s l) in
    elim (Bool-cases (ltb r.sent (min r.granted (length r.tx)))) [
      | inr done ↦ rw (send_new_loop_done n e r done) (ground arith)
      | inl more ↦ elim (Option-cases (first_segment e r).1) [
        | inr (x, failed) ↦ absurd (
            let is : some x ≡ none = rw (send_new_loop_failed n e r more failed) at h in
            ground arith)
        | inl went ↦
            let step = send_new_loop_next n e r more went in
            rw step (rest (ap (λ out. out.2) (sym step) ∙ h))
      ]
    ]

send_new_loop_enough :
    (n m : ℕ) (e : Endpoint) (r : Rpc)
    → 1 ≤ e.cfg.segment_bytes
    → length r.tx ≤ r.sent + n
    → n ≤ m
    → send_new_loop m e r ≡ send_new_loop n e r
send_new_loop_enough zero zero e r s l h = refl
send_new_loop_enough (suc n) zero e r s l h = absurd (omega arith)
send_new_loop_enough zero (suc m) e r s l h =
    unfold send_new_loop in send_new_loop_done m e r (ground arith)
send_new_loop_enough (suc n) (suc m) e r s l h =
    let rest =
      send_new_loop_enough n m (first_segment e r).0 (marked e r) (positive n e r s l)
        (nearer n e r s l) (omega (arith, h)) in
    elim (Bool-cases (ltb r.sent (min r.granted (length r.tx)))) [
      | inr done ↦ send_new_loop_done m e r done ∙ sym (send_new_loop_done n e r done)
      | inl more ↦ elim (Option-cases (first_segment e r).1) [
        | inr (x, failed) ↦
            send_new_loop_failed m e r more failed ∙ sym (send_new_loop_failed n e r more failed)
        | inl went ↦
            send_new_loop_next m e r more went ∙ rest ∙ sym (send_new_loop_next n e r more went)
      ]
    ]

-- With a positive segment size, the loop of `sendNew` comes to its end within as many rounds as the
-- message has bytes: more fuel changes nothing.
pub send_new_terminates :
    (e : Endpoint) (r : Rpc) (fuel : ℕ)
    → 1 ≤ e.cfg.segment_bytes
    → length r.tx ≤ fuel
    → send_new_loop fuel e r ≡ send_new e r
unfolding send_new
send_new_terminates e r fuel s l = send_new_loop_enough (length r.tx) fuel e r s (omega arith) l

-- With a positive segment size, `sendNew` without an error has marked as sent every byte of the
-- message that the peer has granted.
pub send_new_sends :
    (e : Endpoint) (r : Rpc)
    → 1 ≤ e.cfg.segment_bytes
    → (send_new e r).2 ≡ none
    → min r.granted (length r.tx) ≤ (send_new e r).1.sent
unfolding send_new
send_new_sends e r s h = send_new_loop_sends (length r.tx) e r s (omega arith) h

resend_loop_enough :
    (n m : ℕ) (e : Endpoint) (r : Rpc) (at end priority : ℕ)
    → 1 ≤ e.cfg.segment_bytes
    → end ≤ at + n
    → n ≤ m
    → resend_loop m e r at end priority ≡ resend_loop n e r at end priority
unfolding resend_loop
resend_loop_enough zero zero e r at end priority s l f = refl
resend_loop_enough (suc n) zero e r at end priority s l f = absurd (omega arith)
resend_loop_enough zero (suc m) e r at end priority s l f =
    let h : ltb at end ≡ false = ground arith in rw (h, resend_loop)
resend_loop_enough (suc n) (suc m) e r at end priority s l f =
    let s' : 1 ≤ (resent e r at priority).cfg.segment_bytes =
      subst (λ c. 1 ≤ c.cfg.segment_bytes) (sym (resent-core e r at priority)) s in
    let rest =
      resend_loop_enough n m (resent e r at priority) r (at + e.cfg.segment_bytes) end priority s'
        (omega arith) (omega (arith, f)) in
    elim (Bool-cases (ltb at end)) [
      | inl h ↦ rw (h, resend_loop) rest
      | inr h ↦ rw (h, resend_loop)
    ]

-- With a positive segment size, the loop of `resend` comes to its end within as many rounds as
-- there are bytes below its end: more fuel changes nothing.
pub resend_terminates :
    (e : Endpoint) (r : Rpc) (start end priority fuel : ℕ)
    → 1 ≤ e.cfg.segment_bytes
    → min end r.sent ≤ fuel
    → let seg = e.cfg.segment_bytes in
      resend_loop fuel e r (start / seg * seg) (min end r.sent) priority
      ≡ resend e r start end priority
unfolding resend
resend_terminates e r start end priority fuel s l =
    resend_loop_enough (min end r.sent) fuel e r _ (min end r.sent) priority s (omega arith) l
