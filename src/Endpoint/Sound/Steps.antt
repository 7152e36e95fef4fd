-- ===== src/Endpoint/Sound/Steps.antt =====
-- The invariant through calls, through every step of the endpoint, and so in every run of it.
use mac_homa.Common.{
  ℕ, ◌%◌, ◌+◌, ◌-◌, ◌≤◌, ◌<◌, ◌≡◌, refl, Bool, true, false, ◌||◌, ◌==◌, ltb, leb, if◌then◌else◌,
  List, [], ◌∷◌, Option, none, some, length, arith, inl, inr, Bool-cases, Option-cases,
}
use mac_homa.Wire.Parse.{parse}
use mac_homa.Endpoint.{Addr, Key, Config, Rpc, Endpoint, Failure, is_server}
use mac_homa.Endpoint.{closed}
use mac_homa.Endpoint.Table.{lookup, cost, held, owned, rx_bytes}
use mac_homa.Endpoint.Table.Laws.{eq_key_refl}
use mac_homa.Endpoint.Send.{reserve, send_new}
use mac_homa.Endpoint.Data.{add_rpc}
use mac_homa.Endpoint.Loops.{read_packet}
use mac_homa.Endpoint.Call.{
  begin_call, is_bad_peer, cancel_call, close, admit, submit, new_client_rpc, following_id,
}
use mac_homa.Endpoint.Step.{
  Event, calls, cancels, reads, read_fails, ticks, takes, written, returns, closes, step, run,
  fresh,
}
use mac_homa.Endpoint.Sound.{IsConsistent}
use mac_homa.Endpoint.Sound.Frame.{Alike-refl}
use mac_homa.Endpoint.Sound.Updates.{added-IsSound}
use mac_homa.Endpoint.Sound.Holds.{
  Holds, core-IsConsistent, finish-IsConsistent, if-IsConsistent, shutdown-IsConsistent,
}
use mac_homa.Endpoint.Sound.Data.{reserve_fits}
use mac_homa.Endpoint.Sound.Packets.{sent-Holds}
use mac_homa.Endpoint.Sound.Rounds.{
  timer_tick-IsConsistent, read_parsed-IsConsistent, write_begin-core, write_end-IsConsistent,
}
use mac_homa.Endpoint.Sound.Returns.{handler_done-IsConsistent}

following_id_even : (id : ℕ) → id % 2 ≡ 0 → following_id id % 2 ≡ 0
unfolding following_id
following_id_even id h = ground arith

-- A call with its new ID, before its RPC enters the table.
abbrev numbered : Endpoint → Endpoint
numbered e = record e { core = record e.core { next_id = following_id e.next_id } }

even_client : (id : ℕ) → id % 2 ≡ 0 → is_server id ≡ false
even_client id h = ground arith

renumbered-IsConsistent : (e : Endpoint) → IsConsistent e → IsConsistent (numbered e)
renumbered-IsConsistent e v =
    let w = v.core in
    record {
      core = record {
        balanced = w.balanced;
        within = w.within;
        rpcs_bounded = w.rpcs_bounded;
        handlers_bounded = w.handlers_bounded;
        unique = w.unique;
        distinct = w.distinct;
        fresh = w.fresh;
        tied = w.tied;
        old = w.old;
        quiet = w.quiet;
        even = following_id_even e.next_id w.even;
      };
    }

fst-IsConsistent {ℓ} :
    {A : Type ℓ} (b : Bool) (x y : Endpoint × A)
    → (b ≡ true → IsConsistent x.0)
    → (b ≡ false → IsConsistent y.0)
    → IsConsistent (if b then x else y).0
fst-IsConsistent true x y h k = h refl
fst-IsConsistent false x y h k = k refl

client_cost :
    (e : Endpoint) (now : ℕ) (limit : Option ℕ) (peer : Addr) (request : List ℕ)
    → cost (new_client_rpc e now limit peer request) ≡ length request
unfolding cost rx_bytes new_client_rpc
client_cost e now limit peer request = omega arith

abbrev pub call_key : Endpoint → Addr → Key
call_key e peer = record { peer = peer; id = following_id e.next_id }

submit-IsConsistent : (e : Endpoint) (r : Rpc) → Holds (add_rpc e r) r → IsConsistent (submit e r)
unfolding submit
submit-IsConsistent e r h =
    let out = send_new (add_rpc e r) r in
    let held = sent-Holds (add_rpc e r) r r h (Alike-refl r) in
    elim (Option-cases out.2) [
      | inl n ↦ rw (n, submit) held.sound
      | inr (x, n) ↦ rw (n, submit) (finish-IsConsistent _ r.key r.ptr [] (some x) held.sound)
    ]

module _ (e : Endpoint) (now : ℕ) (limit : Option ℕ) (peer : Addr) (request : List ℕ) where
  abbrev charged_call : Endpoint
  charged_call = record e {
    core = record e.core { buffered_bytes = e.buffered_bytes + length request };
  }

  abbrev client_rpc : Rpc
  client_rpc = new_client_rpc (numbered charged_call) now limit peer request

  client_rpc-Holds :
      IsConsistent e
      → lookup (call_key e peer) e.rpcs ≡ none
      → length e.rpcs < e.cfg.max_rpcs
      → e.buffered_bytes + length request ≤ e.cfg.max_buffered_bytes
      → Holds (add_rpc (numbered charged_call) client_rpc) client_rpc
  unfolding add_rpc lookup new_client_rpc
  client_rpc-Holds v free room fits =
      let even = following_id_even e.next_id v.core.even in
      let n : IsConsistent (numbered e) = renumbered-IsConsistent e v in
      record {
        sound = record {
          core =
              added-IsSound (numbered e).core client_rpc (e.buffered_bytes + length request) n.core
                free refl room (inl (even_client (following_id e.next_id) even))
                (omega (arith, client_cost (numbered charged_call) now limit peer request)) fits;
        };
        current = rw (eq_key_refl (call_key e peer));
      }

  admit-IsConsistent :
      Holds (add_rpc (numbered charged_call) client_rpc) client_rpc
      → IsConsistent (admit charged_call now limit peer request).0
  unfolding admit
  admit-IsConsistent h = submit-IsConsistent (numbered charged_call) client_rpc h

-- The next ID is not in use for the peer: 2^63 calls have not gone by since it was.
abbrev pub Unused : Endpoint → Event → Type 0
Unused e (calls now ended limit peer request) = lookup (call_key e peer) e.rpcs ≡ none
Unused e _ = Unit {0}

begin_call-IsConsistent :
    (e : Endpoint) (now : ℕ) (ended : Option Failure) (limit : Option ℕ) (peer : Addr)
    (request : List ℕ)
    → IsConsistent e
    → lookup (call_key e peer) e.rpcs ≡ none
    → IsConsistent (begin_call e now ended limit peer request).0
unfolding begin_call reserve
begin_call-IsConsistent e now (some x) limit peer request v free = v
begin_call-IsConsistent e now none limit peer request v free =
    let n = length request in
    fst-IsConsistent (is_bad_peer peer) _ _ (λ _. v)
      λ _.
        fst-IsConsistent (n == 0 || ltb e.cfg.max_message_size n) _ _ (λ _. v)
          λ _.
            fst-IsConsistent e.is_closed _ _ (λ _. v)
              λ _.
                fst-IsConsistent (leb e.cfg.max_rpcs (length e.rpcs)) _ _ (λ _. v)
                  λ room. (elim (Bool-cases (ltb (e.cfg.max_buffered_bytes - e.buffered_bytes) n)) [
                    | inl full ↦ rw full v
                    | inr fits ↦ rw fits (
                        admit-IsConsistent e now limit peer request (
                          client_rpc-Holds e now limit peer request v free (ground arith)
                            (reserve_fits e n v fits)))
                  ])

-- From every consistent state, whether a run reaches it or not, every step leads to a consistent one,
-- if a call meets no ID that is in use for its peer: the account stays what the table and the
-- handlers hold, the limits are kept, no key and no handler stands twice, and client IDs stay even.
pub step-IsConsistent :
    (e : Endpoint) (s : Event) → IsConsistent e → Unused e s → IsConsistent (step e s)
unfolding step read_packet cancel_call close
step-IsConsistent e (calls now ended limit peer request) v u =
    begin_call-IsConsistent e now ended limit peer request v u
step-IsConsistent e (cancels key ptr x) v u = finish-IsConsistent e key ptr [] (some x) v
step-IsConsistent e (reads now ip bytes) v u =
    if-IsConsistent e.is_closed _ _ (λ _. v)
      (λ _. read_parsed-IsConsistent e now ip (parse bytes) v)
step-IsConsistent e (read_fails x) v u = shutdown-IsConsistent e x v
step-IsConsistent e (ticks now) v u = timer_tick-IsConsistent e now v
step-IsConsistent e (takes now) v u =
    if-IsConsistent e.is_closed _ _ (λ _. v) (λ _. core-IsConsistent (write_begin-core e now) v)
step-IsConsistent e (written p x) v u = write_end-IsConsistent e p x v
step-IsConsistent e (returns now key ptr response) v u =
    handler_done-IsConsistent e now key ptr response v
step-IsConsistent e closes v u = shutdown-IsConsistent e closed v

-- No call of the run meets an ID that is in use.
abbrev pub AllUnused : Endpoint → List Event → Type 0
AllUnused e [] = Unit {0}
AllUnused e (s ∷ ss) = Unused e s × AllUnused (step e s) ss

run-IsConsistent :
    (e : Endpoint) (ss : List Event) → IsConsistent e → AllUnused e ss → IsConsistent (run e ss)
unfolding run
run-IsConsistent e [] v u = v
run-IsConsistent e (s ∷ ss) v u = run-IsConsistent (step e s) ss (step-IsConsistent e s v u.0) u.1

pub fresh-IsConsistent :
    (cfg : Config) (local : Addr) (has_handler : Bool) (seed : ℕ)
    → IsConsistent (fresh cfg local has_handler seed)
unfolding fresh held owned
fresh-IsConsistent cfg local has_handler seed = record {
  core = record {
    balanced = refl;
    within = omega arith;
    rpcs_bounded = omega arith;
    handlers_bounded = omega arith;
    unique = tt;
    distinct = tt;
    fresh = tt;
    tied = tt;
    old = tt;
    quiet = tt;
    even = omega arith;
  };
}

-- After any run of a fresh endpoint in which no call meets an ID that is in use, whatever arrives,
-- times out, is canceled, fails or comes back, and in any order: BufferedBytes is exactly what the
-- live RPCs and the running handlers hold, and the limits on buffered bytes, on live RPCs and on
-- handlers are kept.
pub run-fresh_account :
    (cfg : Config) (local : Addr) (has_handler : Bool) (seed : ℕ) (ss : List Event)
    → AllUnused (fresh cfg local has_handler seed) ss
    → let e = run (fresh cfg local has_handler seed) ss in
      (e.buffered_bytes ≡ held e.rpcs + owned e.handlers)
      × (e.buffered_bytes ≤ e.cfg.max_buffered_bytes)
      × (length e.rpcs ≤ e.cfg.max_rpcs)
      × (length e.handlers ≤ e.cfg.handler_workers)
run-fresh_account cfg local has_handler seed ss u =
    let v =
      run-IsConsistent (fresh cfg local has_handler seed) ss
        (fresh-IsConsistent cfg local has_handler seed) u in
    (v.core.balanced, v.core.within, v.core.rpcs_bounded, v.core.handlers_bounded)
