-- ===== src/Endpoint/Sound/Holds.antt =====
-- A sound endpoint with a pointer to one of its RPCs, under the operations that removal, grants and
-- handlers are made of.
use mac_homa.Common.{
  ℕ, suc, ◌≤◌, ◌<◌, ◌≡◌, refl, sym, subst, Bool, true, false, not, ◌||◌, ◌==◌, leb, if◌then◌else◌,
  List, [], ◌∷◌, Option, none, some, length, arith, inl, inr, Option-cases,
}
use mac_homa.Wire.{AckRecord}
use mac_homa.Endpoint.{Ip, Key, Rpc, Assembly, Endpoint, Failure, is_server}
use mac_homa.Endpoint.Table.{lookup, cost, rx_bytes}
use mac_homa.Endpoint.Table.Laws.{lookup-key, lookup-replace_self, held-delete}
use mac_homa.Endpoint.Send.{store}
use mac_homa.Endpoint.Remove.{
  live, drop_rpc, remove, deliver, finish, finish_all, shutdown, remove_found, ack, ack_all,
}
use mac_homa.Endpoint.Grants.{candidates, grant_to_end, grant_one, grant_loop, schedule, grant_end}
use mac_homa.Endpoint.Handlers.{
  launch, start_with, start_handler, is_waiting, start_if_waiting, start_all,
}
use mac_homa.Endpoint.Sound.{IsSound, IsConsistent}
use mac_homa.Endpoint.Sound.Frame.{Alike, send_grant-core}
use mac_homa.Endpoint.Sound.Updates.{store-IsSound, dropped-IsSound, launched-IsSound}

-- The value `r` is what the table has under its key.
pub record Holds (e : Endpoint) (r : Rpc) : Type 0 where
  pub sound : IsConsistent e
  pub current : lookup r.key e.rpcs ≡ some r

pub store-Holds : {e : Endpoint} {r s : Rpc} → Holds e r → Alike r s → Holds (store e s) s
unfolding store
store-Holds {e} {r} {s} h a = record {
  sound = record { core = store-IsSound e.core r s h.sound.core h.current a };
  current = lookup-replace_self s r e.rpcs (rw a.key h.current);
}

pub core-IsConsistent : {e e' : Endpoint} → e'.core ≡ e.core → IsConsistent e → IsConsistent e'
core-IsConsistent p h = record { core = subst IsSound (sym p) h.core }

pub core-Holds : {e e' : Endpoint} {r : Rpc} → e'.core ≡ e.core → Holds e r → Holds e' r
core-Holds {e} {e'} {r} p h = record {
  sound = core-IsConsistent p h.sound;
  current = subst (λ c. lookup r.key c.rpcs ≡ some r) (sym p) h.current;
}

pub cost-le : (e : Endpoint) (r : Rpc) → Holds e r → cost r ≤ e.buffered_bytes
cost-le e r h = omega (arith, held-delete r.key r e.rpcs h.current, h.sound.core.balanced)

pub found-Holds :
    (e : Endpoint) (k : Key) (r : Rpc) → IsConsistent e → lookup k e.rpcs ≡ some r → Holds e r
found-Holds e k r v h = record {
  sound = v;
  current = subst (λ j. lookup j e.rpcs ≡ some r) (sym (lookup-key k e.rpcs r h)) h;
}

pub live-Holds :
    (e : Endpoint) (k : Key) (p : ℕ) (r : Rpc)
    → IsConsistent e
    → live e k p ≡ some r
    → Holds e r × (r.key ≡ k) × (r.ptr ≡ p)
unfolding live
live-Holds e k p r v h = elim (Option-cases (lookup k e.rpcs)) [
  | inl absent ↦ ground arith
  | inr (q, found) ↦
      let same : q ≡ r = ground arith in
      let key = lookup-key k e.rpcs q found in
      (record { sound = v; current = ground arith }, ground arith, ground arith)
]

drop_rpc-IsConsistent : (e : Endpoint) (r : Rpc) → Holds e r → IsConsistent (drop_rpc e r)
unfolding drop_rpc
drop_rpc-IsConsistent e r h = record {
  core = dropped-IsSound e.core r.key r h.sound.core h.current;
}

pub remove-IsConsistent :
    (e : Endpoint) (k : Key) (p : ℕ) → IsConsistent e → IsConsistent (remove e k p)
unfolding remove
remove-IsConsistent e k p v = elim (Option-cases (live e k p)) [
  | inl h ↦ rw (h, remove) v
  | inr (r, h) ↦ rw (h, remove) (drop_rpc-IsConsistent e r (live-Holds e k p r v h).0)
]

deliver-core :
    (e : Endpoint) (r : Rpc) (response : List ℕ) (x : Option Failure)
    → (deliver e r response x).core ≡ e.core
unfolding deliver
deliver-core e r response x = ground arith

pub finish-IsConsistent :
    (e : Endpoint) (k : Key) (p : ℕ) (response : List ℕ) (x : Option Failure)
    → IsConsistent e
    → IsConsistent (finish e k p response x)
unfolding finish
finish-IsConsistent e k p response x v = elim (Option-cases (live e k p)) [
  | inl h ↦ rw (h, finish) v
  | inr (r, h) ↦
      rw (h, finish)
        (core-IsConsistent (deliver-core (drop_rpc e r) r response x)
          (drop_rpc-IsConsistent e r (live-Holds e k p r v h).0))
]

finish_all-IsConsistent :
    (rs : List Rpc) (e : Endpoint) (x : Failure) → IsConsistent e → IsConsistent (finish_all rs e x)
unfolding finish_all
finish_all-IsConsistent [] e x v = v
finish_all-IsConsistent (r ∷ rs) e x v =
    finish_all-IsConsistent rs _ x (finish-IsConsistent e r.key r.ptr [] (some x) v)

-- Split on a test in the code.
pub if-IsConsistent :
    (b : Bool) (e f : Endpoint)
    → (b ≡ true → IsConsistent e)
    → (b ≡ false → IsConsistent f)
    → IsConsistent (if b then e else f)
if-IsConsistent true e f h k = h refl
if-IsConsistent false e f h k = k refl

-- Fields of the core that the invariant does not read.
pub other-IsConsistent :
    {d e : Endpoint}
    → d.cfg ≡ e.cfg
    → d.rpcs ≡ e.rpcs
    → d.handlers ≡ e.handlers
    → d.next_ptr ≡ e.next_ptr
    → d.buffered_bytes ≡ e.buffered_bytes
    → d.next_id ≡ e.next_id
    → IsConsistent e
    → IsConsistent d
other-IsConsistent p q r s t u sound =
    let v = sound.core in
    record {
      core = record {
        balanced = rw (t, q, r) v.balanced;
        within = rw (t, p) v.within;
        rpcs_bounded = rw (q, p) v.rpcs_bounded;
        handlers_bounded = rw (r, p) v.handlers_bounded;
        unique = rw q v.unique;
        distinct = rw r v.distinct;
        fresh = rw (s, r) v.fresh;
        tied = rw (r, q) v.tied;
        old = rw (s, q) v.old;
        quiet = rw q v.quiet;
        even = rw u v.even;
      };
    }

pub shutdown-IsConsistent :
    (e : Endpoint) (x : Failure) → IsConsistent e → IsConsistent (shutdown e x)
unfolding shutdown
shutdown-IsConsistent e x v =
    if-IsConsistent e.is_closed _ _ (λ _. v)
      (λ _. finish_all-IsConsistent e.rpcs _ x (other-IsConsistent refl refl refl refl refl refl v))

remove_found-IsConsistent :
    (e : Endpoint) (o : Option Rpc) → IsConsistent e → IsConsistent (remove_found e o)
unfolding remove_found
remove_found-IsConsistent e none v = v
remove_found-IsConsistent e (some r) v = remove-IsConsistent e r.key r.ptr v

pub ack-IsConsistent :
    (e : Endpoint) (ip : Ip) (a : AckRecord) → IsConsistent e → IsConsistent (ack e ip a)
unfolding ack
ack-IsConsistent e ip a v =
    if-IsConsistent
      (a.client_id == 0 || is_server a.client_id || not (a.server_port == e.local.port)) _ _
      (λ _. v) (λ _. remove_found-IsConsistent e _ v)

pub ack_all-IsConsistent :
    (e : Endpoint) (ip : Ip) (as' : List AckRecord)
    → IsConsistent e
    → IsConsistent (ack_all e ip as')
unfolding ack_all
ack_all-IsConsistent e ip [] v = v
ack_all-IsConsistent e ip (a ∷ more) v =
    ack_all-IsConsistent (ack e ip a) ip more (ack-IsConsistent e ip a v)

grant_to_end-IsConsistent :
    (e : Endpoint) (r : Rpc) (a : Assembly) (rank : ℕ)
    → Holds e r
    → r.rx ≡ some a
    → IsConsistent (grant_to_end e r a rank)
unfolding grant_to_end
grant_to_end-IsConsistent e r a rank h rx =
    let r' = record r { rx = some (record a { granted = grant_end e.cfg.grant_window a }) } in
    if-IsConsistent (leb (grant_end e.cfg.grant_window a) a.granted) _ _ (λ _. h.sound)
      (λ _.
        core-IsConsistent (send_grant-core (store e r') r' (grant_end e.cfg.grant_window a) rank)
          (store-Holds {s = r'} h (record {
            key = refl;
            ptr = refl;
            tx = refl;
            handling = refl;
            rx = unfold rx_bytes in rw rx;
          })).sound)

grant_one-IsConsistent :
    (e : Endpoint) (k : Key) (rank : ℕ)
    → IsConsistent e
    → IsConsistent (grant_one e (lookup k e.rpcs) rank)
unfolding grant_one
grant_one-IsConsistent e k rank v = elim (Option-cases (lookup k e.rpcs)) [
  | inl h ↦ rw (h, grant_one) v
  | inr (r, h) ↦
      let held = found-Holds e k r v h in
      elim (Option-cases r.rx) [
        | inl n ↦ rw (h, grant_one, n) v
        | inr (a, s) ↦ rw (h, grant_one, s) (grant_to_end-IsConsistent e r a rank held s)
      ]
]

grant_loop-IsConsistent :
    (cs : List (ℕ × Rpc)) (rank : ℕ) (e : Endpoint)
    → IsConsistent e
    → IsConsistent (grant_loop cs rank e)
unfolding grant_loop
grant_loop-IsConsistent [] rank e v = v
grant_loop-IsConsistent ((n, r) ∷ cs) rank e v =
    let rest =
      grant_loop-IsConsistent cs (suc rank) (grant_one e (lookup r.key e.rpcs) rank)
        (grant_one-IsConsistent e r.key rank v) in
    if-IsConsistent (leb e.cfg.overcommit rank) _ _ (λ _. v) (λ _. rest)

pub schedule-IsConsistent : (e : Endpoint) → IsConsistent e → IsConsistent (schedule e)
unfolding schedule
schedule-IsConsistent e v = grant_loop-IsConsistent (candidates e.rpcs) 0 e v

leb-false→lt : (a b : ℕ) → leb a b ≡ false → b < a
leb-false→lt a b h = ground arith

launch-IsConsistent :
    (e : Endpoint) (r : Rpc) (a : Assembly)
    → Holds e r
    → r.rx ≡ some a
    → is_server r.key.id ≡ true
    → r.handling ≡ false
    → length e.handlers < e.cfg.handler_workers
    → IsConsistent (launch e r a)
unfolding launch store
launch-IsConsistent e r a h rx server idle room = record {
  core = launched-IsSound e.core r a h.sound.core h.current rx server idle room;
}

start_with-IsConsistent :
    (e : Endpoint) (now : ℕ) (r : Rpc) (a : Assembly)
    → Holds e r
    → r.rx ≡ some a
    → is_server r.key.id ≡ true
    → r.handling ≡ false
    → IsConsistent (start_with e now r a)
unfolding start_with
start_with-IsConsistent e now r a h rx server idle =
    if-IsConsistent (leb r.deadline now) _ _ (λ _. finish-IsConsistent e r.key r.ptr [] _ h.sound)
      λ _.
        if-IsConsistent (leb e.cfg.handler_workers (length e.handlers)) _ _ (λ _. h.sound)
          λ room.
            launch-IsConsistent e r a h rx server idle
              (leb-false→lt e.cfg.handler_workers (length e.handlers) room)

pub start_handler-IsConsistent :
    (e : Endpoint) (now : ℕ) (r : Rpc)
    → Holds e r
    → is_server r.key.id ≡ true
    → IsConsistent (start_handler e now r)
unfolding start_handler
start_handler-IsConsistent e now r h server = elim (Option-cases r.rx) [
  | inl n ↦ rw (n, start_handler) h.sound
  | inr (a, s) ↦
      rw (s, start_handler)
        (if-IsConsistent r.handling _ _ (λ _. h.sound)
          (λ idle. start_with-IsConsistent e now r a h s server idle))
]

pub start_if_waiting-IsConsistent :
    (e : Endpoint) (now : ℕ) (k : Key)
    → IsConsistent e
    → IsConsistent (start_if_waiting e now (lookup k e.rpcs))
unfolding start_if_waiting
start_if_waiting-IsConsistent e now k v = elim (Option-cases (lookup k e.rpcs)) [
  | inl h ↦ rw (h, start_if_waiting) v
  | inr (r, h) ↦
      let held = found-Holds e k r v h in
      rw (h, start_if_waiting)
        (if-IsConsistent (is_waiting r) _ _
          (λ w. start_handler-IsConsistent e now r held (ground arith)) (λ _. v))
]

pub start_all-IsConsistent :
    (rs : List Rpc) (e : Endpoint) (now : ℕ) → IsConsistent e → IsConsistent (start_all rs e now)
unfolding start_all
start_all-IsConsistent [] e now v = v
start_all-IsConsistent (r ∷ rs) e now v =
    start_all-IsConsistent rs _ now (start_if_waiting-IsConsistent e now r.key v)
