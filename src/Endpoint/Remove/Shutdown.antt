-- ===== src/Endpoint/Remove/Shutdown.antt =====
-- `shutdown`: every RPC leaves, and every call that waits gets one result.
use mac_homa.Common.{
  ◌≡◌, ltb, true, false, ◌||◌, List, [], ◌∷◌, ◌++◌, some, arith, Bool-cases, inl, inr, refl, sym,
  ap, ◌∙◌, ==_refl, if◌then◌else◌,
}
use mathlib.Core.List.{append_assoc, append-nil}
use mac_homa.Endpoint.{Endpoint, Rpc, Delivered, Failure}
use mac_homa.Endpoint.Table.{lookup, delete}
use mac_homa.Endpoint.Table.Laws.{eq_key_refl}
use mac_homa.Endpoint.Remove.{live, drop_rpc, deliver, finish, finish_all, shutdown}

-- The failure that the caller of `r` gets, if one waits.
abbrev failure_of : Failure → Rpc → List Delivered
failure_of x r =
    if r.has_result
    then record { ptr = r.ptr; response = []; failure = some x; sent = ltb 0 r.sent || r.received }
      ∷ []
    else []

abbrev pub failures : Failure → List Rpc → List Delivered
failures x [] = []
failures x (r ∷ rs) = failure_of x r ++ failures x rs

-- Failing the first RPC of the table.
module _ (x : Failure) (e : Endpoint) (r : Rpc) (rs : List Rpc) (at : e.rpcs ≡ (r ∷ rs)) where
  live-head : live e r.key r.ptr ≡ some r
  unfolding live lookup
  live-head = rw at (ground (arith, eq_key_refl r.key, ==_refl r.ptr))

  finish-head : finish e r.key r.ptr [] (some x) ≡ deliver (drop_rpc e r) r [] (some x)
  unfolding finish
  finish-head = rw (live-head, finish)

  delete-head : delete r.key e.rpcs ≡ rs
  unfolding delete
  delete-head = rw at (ground (arith, eq_key_refl r.key))

  deliver-head :
      let e' = deliver (drop_rpc e r) r [] (some x) in
      (e'.rpcs ≡ rs) × (e'.is_closed ≡ e.is_closed) × (e'.results ≡ e.results ++ failure_of x r)
  unfolding deliver drop_rpc
  deliver-head = elim (Bool-cases r.has_result) [
    | inl waits ↦ rw waits (delete-head, refl, refl)
    | inr alone ↦ rw alone (delete-head, refl, sym (append-nil e.results))
  ]

finish_all-empties :
    (x : Failure) (rs : List Rpc) (e : Endpoint)
    → e.rpcs ≡ rs
    → let e' = finish_all rs e x in
      (e'.rpcs ≡ []) × (e'.is_closed ≡ e.is_closed) × (e'.results ≡ e.results ++ failures x rs)
unfolding finish_all
finish_all-empties x [] e at = (at, refl, sym (append-nil e.results))
finish_all-empties x (r ∷ rs) e at =
    let d = finish e r.key r.ptr [] (some x) in
    let same = finish-head x e r rs at in
    let (left, closed, results) = deliver-head x e r rs at in
    let rest = finish_all-empties x rs d (ap (λ f. f.rpcs) same ∙ left) in
    (
      rest.0,
      rest.1 ∙ ap (λ f. f.is_closed) same ∙ closed,
      rest.2
          ∙ ap (λ l. l ++ failures x rs) (ap (λ f. f.results) same ∙ results)
          ∙ append_assoc e.results (failure_of x r) (failures x rs),
    )

-- After `shutdown` of an endpoint that is open, it is closed, no RPC is live, and each call that
-- waited for a result has got one, in the order of the table: the failure, with `Sent` set when a
-- byte of the request has been sent or the reply has come.
pub shutdown_empties :
    (e : Endpoint) (x : Failure)
    → e.is_closed ≡ false
    → let e' = shutdown e x in
      (e'.is_closed ≡ true) × (e'.rpcs ≡ []) × (e'.results ≡ e.results ++ failures x e.rpcs)
unfolding shutdown
shutdown_empties e x open' =
    let c = record e { core = record e.core { is_closed = true } } in
    let (left, closed, results) = finish_all-empties x e.rpcs c refl in
    rw open' (closed, left, results)
