-- ===== src/Endpoint/Sound/Rounds.antt =====
-- The invariant through the rounds of the timer, the reader and the writer.
use mac_homa.Common.{
  ℕ, ◌-◌, ◌≡◌, refl, subst, not, ◌&&◌, ◌==◌, ltb, leb, List, [], ◌∷◌, Option, none, some, length,
  arith, inl, inr, Option-cases,
}
use mac_homa.Wire
use mac_homa.Wire.{Packet, data_type, need_ack_type}
use mac_homa.Endpoint.{Ip, Key, Rpc, Outgoing, Endpoint, Failure, is_server}
use mac_homa.Endpoint.Table.{lookup}
use mac_homa.Endpoint.Send.{store}
use mac_homa.Endpoint.Grants.{request_missing}
use mac_homa.Endpoint.Handlers.{start_if_waiting}
use mac_homa.Endpoint.Data.{count_invalid}
use mac_homa.Endpoint.Loops.{
  dequeue, write_begin, finish_origin, write_end, read_parsed, timer_retry, timer_rpc, timer_loop,
  timer_tick,
}
use mac_homa.Endpoint.Sound.{IsConsistent}
use mac_homa.Endpoint.Sound.Frame.{control-core, request_missing-core}
use mac_homa.Endpoint.Sound.Holds.{
  Holds, store-Holds, core-IsConsistent, found-Holds, finish-IsConsistent, if-IsConsistent,
  schedule-IsConsistent, start_if_waiting-IsConsistent,
}
use mac_homa.Endpoint.Sound.Packets.{receive-IsConsistent}

-- The timer.
timer_retry-IsConsistent :
    (e : Endpoint) (now : ℕ) (r : Rpc) → Holds e r → IsConsistent (timer_retry e now r)
unfolding timer_retry
timer_retry-IsConsistent e now r h =
    let r' : Rpc = record r { last = now } in
    let held : Holds (store e r') r' =
      store-Holds {s = r'} h
        (record { key = refl; ptr = refl; tx = refl; handling = refl; rx = refl }) in
    let asked : IsConsistent (request_missing (store e r') r') =
      core-IsConsistent (request_missing-core (store e r') r') held.sound in
    if-IsConsistent (ltb (now - r.last) e.cfg.retry_interval) _ _ (λ _. h.sound)
      λ _.
        if-IsConsistent (is_server r.key.id && ltb 0 (length r.tx) && r.sent == length r.tx) _ _
          (λ _. core-IsConsistent (control-core (store e r') r'.key need_ack_type) held.sound)
          (λ _. elim (Option-cases r.rx) [
            | inr (a, s) ↦ rw (s, timer_retry) asked
            | inl n ↦
                rw (n, timer_retry)
                  (if-IsConsistent (not (is_server r.key.id) && not r.received) _ _ (λ _. asked)
                    (λ _. held.sound))
          ])

retry_found-IsConsistent :
    (e : Endpoint) (now : ℕ) (k : Key)
    → IsConsistent e
    → IsConsistent (elim (lookup k e.rpcs) [ none ↦ e | some r' ↦ timer_retry e now r' ])
retry_found-IsConsistent e now k v = elim (Option-cases (lookup k e.rpcs)) [
  | inl n ↦ rw n v
  | inr (r, f) ↦ rw f (timer_retry-IsConsistent e now r (found-Holds e k r v f))
]

timer_rpc-IsConsistent :
    (e : Endpoint) (now : ℕ) (k : Key)
    → IsConsistent e
    → IsConsistent (timer_rpc e now (lookup k e.rpcs))
unfolding timer_rpc
timer_rpc-IsConsistent e now k v = elim (Option-cases (lookup k e.rpcs)) [
  | inl n ↦ rw (n, timer_rpc) v
  | inr (r, f) ↦
      let started : IsConsistent (start_if_waiting e now (some r)) =
        subst (λ o. IsConsistent (start_if_waiting e now o)) f
          (start_if_waiting-IsConsistent e now k v) in
      rw (f, timer_rpc)
        (if-IsConsistent (leb r.deadline now) _ _ (λ _. finish-IsConsistent e r.key r.ptr [] _ v)
          (λ _. retry_found-IsConsistent (start_if_waiting e now (some r)) now r.key started))
]

timer_loop-IsConsistent :
    (rs : List Rpc) (e : Endpoint) (now : ℕ) → IsConsistent e → IsConsistent (timer_loop rs e now)
unfolding timer_loop
timer_loop-IsConsistent [] e now v = v
timer_loop-IsConsistent (r ∷ rs) e now v =
    timer_loop-IsConsistent rs _ now (timer_rpc-IsConsistent e now r.key v)

pub timer_tick-IsConsistent :
    (e : Endpoint) (now : ℕ) → IsConsistent e → IsConsistent (timer_tick e now)
unfolding timer_tick
timer_tick-IsConsistent e now v =
    if-IsConsistent e.is_closed _ _ (λ _. v)
      (λ _. schedule-IsConsistent _ (timer_loop-IsConsistent e.rpcs e now v))

-- The reader.
pub read_parsed-IsConsistent :
    (e : Endpoint) (now : ℕ) (ip : Ip) (p : Wire.Result Packet)
    → IsConsistent e
    → IsConsistent (read_parsed e now ip p)
unfolding read_parsed count_invalid
read_parsed-IsConsistent e now ip (Wire.ok p) v =
    receive-IsConsistent _ now ip p (record { core = v.core })
read_parsed-IsConsistent e now ip (Wire.err x) v = record { core = v.core }
read_parsed-IsConsistent e now ip Wire.panic v = record { core = v.core }

-- The writer.
pub write_begin-core : (e : Endpoint) (now : ℕ) → (write_begin e now).0.core ≡ e.core
unfolding write_begin dequeue
write_begin-core e now = ground arith

finish_origin-IsConsistent :
    (e : Endpoint) (p : Outgoing) (x : Failure)
    → IsConsistent e
    → IsConsistent (finish_origin e p.origin x)
finish_origin-IsConsistent e p x v = elim (Option-cases p.origin) [
  | inl n ↦ rw n (unfold finish_origin in v)
  | inr (o, f) ↦ rw f (unfold finish_origin in finish-IsConsistent e o.key o.ptr [] (some x) v)
]

pub write_end-IsConsistent :
    (e : Endpoint) (p : Outgoing) (x : Option Failure)
    → IsConsistent e
    → IsConsistent (write_end e p x)
unfolding write_end
write_end-IsConsistent e p none v = record { core = v.core }
write_end-IsConsistent e p (some x) v = finish_origin-IsConsistent _ p x (record { core = v.core })
