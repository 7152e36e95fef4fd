-- ===== src/Endpoint/Grants/Order.antt =====
-- `schedule`: which messages a round of grants comes to, in which order, and what each is granted.
use mac_homa.Common.{
  ℕ, zero, suc, ◌+◌, ◌-◌, ◌%◌, ◌^◌, ◌≤◌, ◌<◌, ◌≡◌, ◌⊎◌, min, leb, true, false, List, [], ◌∷◌, some,
  take, length, map, All, arith, Bool-cases, inl, inr, refl, sym, ap, ◌∙◌,
}
use mathlib.Core.List.{Perm}
use mac_homa.Wire.{grant_packet, grant_type}
use mac_homa.Endpoint.{Endpoint, Rpc, Assembly}
use mac_homa.Endpoint.Table.{lookup}
use mac_homa.Endpoint.Table.Laws.{Unique, lookup-replace_other}
use mac_homa.Endpoint.Send.{common, send, store}
use mac_homa.Endpoint.Grants.{
  candidates, grant_end, send_grant, grant_to_end, grant_one, grant_loop, schedule,
}
use mac_homa.Endpoint.Grants.Sorted.{
  wanting, IsShortestFirst, IsCandidate, candidates-perm, candidates-IsCandidate, candidates-All,
}
use mac_homa.Endpoint.Grants.Rank.{
  candidates-IsOrdered, ordered-IsShortestFirst, IsApart, IsDistinct, candidates-IsDistinct,
  IsThere, Unique-IsThere,
}
use mac_homa.Endpoint.Sound.Frame.{send_grant-core}

-- The RPC with its message granted up to `end`.
abbrev pub granted_to : Rpc → Assembly → ℕ → Rpc
granted_to r a end = record r { rx = some (record a { granted = end }) }

-- The endpoint with the RPC's new grant in the table, and its GRANT packet sent.
abbrev pub sent_grant : Endpoint → ℕ → Rpc → ℕ → Endpoint
sent_grant e rank r end =
    (send e r.key.peer
      (grant_packet
        (record { common = common e r.key grant_type; offset = end % 2 ^ 32; priority = 3 - rank }))
      7).0

-- What the grant of rank `rank` does for an RPC: the window past the bytes that have come, cut at
-- the message's end, is recorded and sent, unless so much is granted already.
abbrev pub IsGranted : Endpoint → ℕ → Rpc → Endpoint → Type 0
IsGranted e rank r e' =
    (a : Assembly) × (r.rx ≡ some a)
    × (let end = min (length a.payload) (a.count + e.cfg.grant_window) in
        ((end ≤ a.granted) × (e' ≡ e))
        ⊎ ((a.granted < end)
            × (e' ≡ sent_grant (store e (granted_to r a end)) rank (granted_to r a end) end)))

-- The RPCs of a list are granted one after the other, and nothing else happens.
abbrev pub IsRound : Endpoint → ℕ → List Rpc → Endpoint → Type 0
IsRound e rank [] e' = e' ≡ e
IsRound e rank (r ∷ rs) e' = (m : Endpoint) × IsGranted e rank r m × IsRound m (suc rank) rs e'

-- What the next grants rest on: the settings are the same, and so is every other RPC.
record Frame (e : Endpoint) (r : Rpc) (e' : Endpoint) : Type 0 where
  cfg : e'.cfg ≡ e.cfg
  others : (s : Rpc) → IsApart r s → lookup s.key e'.rpcs ≡ lookup s.key e.rpcs

module _ (e : Endpoint) (r : Rpc) (a : Assembly) (rank : ℕ) (is : r.rx ≡ some a) where
  grant_to_end-IsGranted : IsGranted e rank r (grant_to_end e r a rank)
  unfolding grant_to_end grant_end send_grant
  grant_to_end-IsGranted = elim (Bool-cases (leb (grant_end e.cfg.grant_window a) a.granted)) [
    | inl old ↦ (a, is, inl (ground (arith, old), rw (old, grant_to_end) refl))
    | inr new ↦ (a, is, inr (ground (arith, new), rw (new, grant_to_end) refl))
  ]

  grant_to_end-Frame : Frame e r (grant_to_end e r a rank)
  unfolding grant_to_end store
  grant_to_end-Frame =
      let end = grant_end e.cfg.grant_window a in
      let r' = granted_to r a end in
      elim (Bool-cases (leb end a.granted)) [
        | inl old ↦ rw (old, grant_to_end) (record { cfg = refl; others = λ s apart. refl })
        | inr new ↦
            let same = send_grant-core (store e r') r' end rank in
            rw (new, grant_to_end)
              (record {
                cfg = ap (λ c. c.cfg) same;
                others = λ s apart.
                    ap (λ c. lookup s.key c.rpcs) same ∙ lookup-replace_other s.key r' e.rpcs apart;
              })
      ]

  grant_one-some : grant_one e (some r) rank ≡ grant_to_end e r a rank
  unfolding grant_one grant_to_end
  grant_one-some = rw (is, grant_one) refl

-- The other RPCs are there after a grant as before.
Frame-IsThere :
    (e : Endpoint) (c : ℕ × Rpc) (e' : Endpoint) (ds : List (ℕ × Rpc))
    → Frame e c.1 e'
    → All (λ d. IsApart c.1 d.1) ds
    → All (λ d. IsThere e.rpcs d.1) ds
    → All (λ d. IsThere e'.rpcs d.1) ds
Frame-IsThere e c e' [] f a t = tt
Frame-IsThere e c e' (d ∷ ds) f a t = (f.others d.1 a.0 ∙ t.0, Frame-IsThere e c e' ds f a.1 t.1)

grant_loop-IsRound :
    (n rank : ℕ) (cs : List (ℕ × Rpc)) (e : Endpoint)
    → rank + n ≡ e.cfg.overcommit
    → All IsCandidate cs
    → IsDistinct cs
    → All (λ c. IsThere e.rpcs c.1) cs
    → IsRound e rank (take n (map (λ c. c.1) cs)) (grant_loop cs rank e)
unfolding grant_loop
grant_loop-IsRound zero rank [] e h i d t = refl
grant_loop-IsRound (suc n) rank [] e h i d t = refl
grant_loop-IsRound zero rank ((m, r) ∷ cs) e h i d t =
    let over : leb e.cfg.overcommit rank ≡ true = ground arith in rw (over, grant_loop) refl
grant_loop-IsRound (suc n) rank ((m, r) ∷ cs) e h i d t =
    let under : leb e.cfg.overcommit rank ≡ false = ground arith in
    let a = i.0.message in
    let e' = grant_to_end e r a rank in
    let f = grant_to_end-Frame e r a rank i.0.is_message in
    let step : grant_one e (lookup r.key e.rpcs) rank ≡ e' =
      ap (λ q. grant_one e q rank) t.0 ∙ grant_one-some e r a rank i.0.is_message in
    let h' : suc rank + n ≡ e'.cfg.overcommit =
      omega (arith, h) ∙ ap (λ c. c.overcommit) (sym f.cfg) in
    let rest =
      grant_loop-IsRound n (suc rank) cs e' h' i.1 d.1 (Frame-IsThere e (m, r) e' cs f d.0 t.1) in
    rw (under, grant_loop, step) (e', grant_to_end-IsGranted e r a rank i.0.is_message, rest)

-- When no two RPCs have one key, a round of grants is this. The messages with bytes missing and
-- bytes not granted are put in an order, the one with the fewest missing bytes first and the lower
-- ID first among equals. The first `Overcommit` of them are granted one after the other, with the
-- ranks from 0 on, and nothing else happens. A grant goes to the bytes that have come and
-- `GrantWindow` more, cut at the message's end: it is recorded in the table and sent to the peer as
-- a GRANT, unless so much is granted already. The GRANT is for priority 3 less the rank, and for 0
-- from rank 3 on.
pub schedule_shortest :
    (e : Endpoint)
    → Unique e.rpcs
    → (order : List Rpc) × Perm order (wanting e.rpcs)
      × IsShortestFirst order
      × IsRound e 0 (take e.cfg.overcommit order) (schedule e)
unfolding schedule
schedule_shortest e u =
    let cs = candidates e.rpcs in
    let are = candidates-IsCandidate e.rpcs in
    (
      map (λ c. c.1) cs,
      candidates-perm e.rpcs,
      ordered-IsShortestFirst cs are (candidates-IsOrdered e.rpcs),
      grant_loop-IsRound e.cfg.overcommit 0 cs e (omega arith) are (candidates-IsDistinct e.rpcs u)
          (candidates-All (IsThere e.rpcs) e.rpcs (Unique-IsThere e.rpcs u)),
    )
