-- ===== src/Endpoint/Sound/Returns.antt =====
-- The invariant when a handler comes back, with its response or without.
use mac_homa.Common.{
  ℕ, ◌+◌, ◌-◌, ◌≤◌, ◌≡◌, sym, ◌∙◌, subst, min, true, ◌||◌, ◌==◌, ltb, List, [], Option, none, some,
  length, arith, inl, inr, Bool-cases, Option-cases,
}
use mac_homa.Endpoint.{Key, Rpc, Running, Endpoint, Failure}
use mac_homa.Endpoint.Table.{lookup, replace, cost, find_run}
use mac_homa.Endpoint.Table.Laws.{lookup-All}
use mac_homa.Endpoint.Table.Runs.{Tied, find_run-names, find_run-delete_self}
use mac_homa.Endpoint.Send.{store, reserve, unsched, send_new}
use mac_homa.Endpoint.Remove.{live}
use mac_homa.Endpoint.Handlers.{respond, accept_response, release, handler_returns, handler_done}
use mac_homa.Endpoint.Sound.{IsSound, IsConsistent}
use mac_homa.Endpoint.Sound.Frame.{send_new-Sends}
use mac_homa.Endpoint.Sound.Updates.{cost-Alike, updated-IsSound, released-IsSound}
use mac_homa.Endpoint.Sound.Holds.{
  Holds, live-Holds, remove-IsConsistent, if-IsConsistent, start_all-IsConsistent,
}
use mac_homa.Endpoint.Sound.Data.{reserve_fits}

-- A handler comes back.
release-IsConsistent :
    (e : Endpoint) (g : Running)
    → IsConsistent e
    → find_run g.key g.ptr e.handlers ≡ some g
    → IsConsistent (release e g)
unfolding release
release-IsConsistent e g v f = record { core = released-IsSound e.core g v.core f }

-- The response of `r`, which had nothing to send, comes on the account.
abbrev responding : Endpoint → ℕ → Rpc → List ℕ → Rpc
responding e now r response = record r {
  tx = response;
  granted = min (length response) e.cfg.unscheduled_bytes;
  priority = unsched e r.key.peer.ip (length response);
  last = now;
}

responding-cost :
    (e : Endpoint) (now : ℕ) (r : Rpc) (response : List ℕ)
    → r.tx ≡ []
    → cost (responding e now r response) ≡ cost r + length response
unfolding cost
responding-cost e now r response h = ground arith

abbrev charged_by : Endpoint → ℕ → Endpoint
charged_by e n = record e { core = record e.core { buffered_bytes = e.buffered_bytes + n } }

-- The table with the response and what was sent of it.
module _ (e : Endpoint) (now : ℕ) (r : Rpc) (response : List ℕ) where
  abbrev before_send : Endpoint
  before_send = charged_by e (length response)

  abbrev to_send : Rpc
  to_send = responding before_send now r response

  abbrev after_send : Endpoint × Rpc × Option Failure
  after_send = send_new before_send to_send

  responded-IsConsistent :
      Holds e r
      → find_run r.key r.ptr e.handlers ≡ none
      → r.tx ≡ []
      → r.handling ≡ true
      → e.buffered_bytes + length response ≤ e.cfg.max_buffered_bytes
      → IsConsistent (store after_send.0 after_send.1)
  unfolding store
  responded-IsConsistent h alone empty busy fits =
      let q = send_new-Sends before_send to_send in
      let s = after_send.1 in
      record {
        core =
            subst (λ c. IsSound (record c { rpcs = replace s c.rpcs })) (sym q.core)
              (updated-IsSound e.core r s (e.buffered_bytes + length response) h.sound.core
                (rw q.alike.key h.current) (λ _. inl (rw (q.alike.key, q.alike.ptr) alone))
                q.alike.ptr (λ _. inr (inl (q.alike.handling ∙ busy)))
                (omega (
                  arith,
                  cost-Alike to_send s q.alike,
                  responding-cost before_send now r response empty,
                ))
                fits);
      }

  respond-IsConsistent :
      IsConsistent (store after_send.0 after_send.1)
      → IsConsistent (respond before_send now r response)
  unfolding respond
  respond-IsConsistent v = elim (Option-cases after_send.2) [
    | inl n ↦ rw (n, respond) v
    | inr (x, n) ↦ rw (n, respond) (remove-IsConsistent _ r.key r.ptr v)
  ]

accept_response-IsConsistent :
    (e : Endpoint) (now : ℕ) (r : Rpc) (response : List ℕ)
    → Holds e r
    → find_run r.key r.ptr e.handlers ≡ none
    → r.tx ≡ []
    → r.handling ≡ true
    → IsConsistent (accept_response e now r response)
unfolding accept_response reserve
accept_response-IsConsistent e now r response h alone empty busy =
    let n = length response in
    if-IsConsistent (n == 0 || ltb e.cfg.max_message_size n) _ _ (λ _. h.sound)
      (λ _. elim (Bool-cases (ltb (e.cfg.max_buffered_bytes - e.buffered_bytes) n)) [
        | inl full ↦ rw full h.sound
        | inr fits ↦
            let w : e.buffered_bytes + n ≤ e.cfg.max_buffered_bytes =
              reserve_fits e n h.sound fits in
            rw fits (
              start_all-IsConsistent _ _ now (
                respond-IsConsistent e now r response
                  (responded-IsConsistent e now r response h alone empty busy w)))
      ])

-- The RPC of a handler that runs is marked and has nothing to send.
run_of_Tied :
    (g : Running) (gs : List Running) (r : Rpc)
    → find_run r.key r.ptr gs ≡ some g
    → Tied gs r
    → (r.tx ≡ []) × (r.handling ≡ true)
run_of_Tied g gs r f (inl h) = cc
run_of_Tied g gs r f (inr h) = h

live_returns :
    (e : Endpoint) (now : ℕ) (g : Running) (response : List ℕ) (r : Rpc)
    → IsConsistent e
    → IsConsistent (release e g)
    → find_run g.key g.ptr e.handlers ≡ some g
    → Holds (release e g) r × (r.key ≡ g.key) × (r.ptr ≡ g.ptr)
    → IsConsistent (accept_response (release e g) now r response)
live_returns e now g response r v w f (h, k, p) =
    let found : find_run r.key r.ptr e.handlers ≡ some g = rw (k, p) f in
    let current : lookup r.key e.rpcs ≡ some r = unfold release in h.current in
    let idle : find_run r.key r.ptr (release e g).handlers ≡ none =
      unfold release in rw (k, p) (find_run-delete_self g.key g.ptr e.handlers v.core.distinct) in
    let (empty, busy) =
      run_of_Tied g e.handlers r found
        (lookup-All (Tied e.handlers) r.key e.rpcs r v.core.tied current) in
    accept_response-IsConsistent (release e g) now r response h idle empty busy

handler_returns-IsConsistent :
    (e : Endpoint) (now : ℕ) (g : Running) (response : List ℕ)
    → IsConsistent e
    → find_run g.key g.ptr e.handlers ≡ some g
    → IsConsistent (handler_returns e now g response)
unfolding handler_returns
handler_returns-IsConsistent e now g response v f =
    let e' = release e g in
    let w = release-IsConsistent e g v f in
    if-IsConsistent e'.is_closed _ _ (λ _. w)
      (λ _. elim (Option-cases (live e' g.key g.ptr)) [
        | inl n ↦ rw (n, handler_returns) w
        | inr (r, n) ↦
            rw (n, handler_returns)
              (live_returns e now g response r v w f (live-Holds e' g.key g.ptr r w n))
      ])

find_run_own :
    (k : Key) (p : ℕ) (g : Running) (gs : List Running)
    → find_run k p gs ≡ some g
    → find_run g.key g.ptr gs ≡ some g
find_run_own k p g gs f =
    let (a, b) = find_run-names k p g gs f in
    subst (λ j. find_run j g.ptr gs ≡ some g) (sym a)
      (subst (λ o. find_run k o gs ≡ some g) (sym b) f)

pub handler_done-IsConsistent :
    (e : Endpoint) (now : ℕ) (k : Key) (p : ℕ) (response : List ℕ)
    → IsConsistent e
    → IsConsistent (handler_done e now k p response)
unfolding handler_done
handler_done-IsConsistent e now k p response v = elim (Option-cases (find_run k p e.handlers)) [
  | inl n ↦ rw (n, handler_done) v
  | inr (g, f) ↦
      rw (f, handler_done)
        (handler_returns-IsConsistent e now g response v (find_run_own k p g e.handlers f))
]
