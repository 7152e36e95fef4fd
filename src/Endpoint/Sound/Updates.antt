-- ===== src/Endpoint/Sound/Updates.antt =====
-- The invariant under each kind of change to the core: a write to an RPC, a new RPC, a removed one,
-- a handler that starts and one that comes back.
use mac_homa.Common.{
  ℕ, ◌+◌, ◌-◌, ◌≤◌, ◌<◌, ◌≡◌, refl, sym, ap, ◌∙◌, true, false, List, [], ◌∷◌, none, some, length,
  All, arith, inl, inr,
}
use mac_homa.Endpoint.{Key, Rpc, Assembly, Running, Core, is_server}
use mac_homa.Endpoint.Table.{
  lookup, replace, delete, cost, held, owned, rx_bytes, find_run, delete_run,
}
use mac_homa.Endpoint.Table.Laws.{
  held-replace, length-replace, replace-Unique, replace-All, held-delete, length-delete-le,
  delete-Unique, delete-All, lookup-All, delete_absent,
}
use mac_homa.Endpoint.Table.Runs.{
  Tied, Tied-replace, Tied-delete_run, Fresh-mono, delete_run-Fresh, find_run_fresh,
  delete_run-Distinct, owned-delete_run, length-delete_run_le,
}
use mac_homa.Endpoint.Sound.{IsSound, Quiet, Old}
use mac_homa.Endpoint.Sound.Frame.{Alike}

-- The entry with the key of `s` becomes `s`, and the account is set to `b`.
abbrev pub updated : Core → Rpc → ℕ → Core
updated c s b = record c { rpcs = replace s c.rpcs; buffered_bytes = b }

-- A write whose change of the account is that of what the RPC holds.
pub updated-IsSound :
    (c : Core) (r s : Rpc) (b : ℕ)
    → IsSound c
    → lookup s.key c.rpcs ≡ some r
    → (Tied c.handlers r → Tied c.handlers s)
    → s.ptr ≡ r.ptr
    → (Quiet r → Quiet s)
    → b + cost r ≡ c.buffered_bytes + cost s
    → b ≤ c.cfg.max_buffered_bytes
    → IsSound (updated c s b)
updated-IsSound c r s b v found keeps ptr silent account fits = record {
  balanced = omega (arith, held-replace s r c.rpcs found, v.balanced);
  within = fits;
  rpcs_bounded = omega (arith, length-replace s c.rpcs, v.rpcs_bounded);
  handlers_bounded = v.handlers_bounded;
  unique = replace-Unique s c.rpcs v.unique;
  distinct = v.distinct;
  fresh = v.fresh;
  tied =
      replace-All (Tied c.handlers) s c.rpcs
        (keeps (lookup-All (Tied c.handlers) s.key c.rpcs r v.tied found)) v.tied;
  old =
      replace-All (Old c.next_ptr) s c.rpcs
        (rw ptr (lookup-All (Old c.next_ptr) s.key c.rpcs r v.old found)) v.old;
  quiet =
      replace-All Quiet s c.rpcs (silent (lookup-All Quiet s.key c.rpcs r v.quiet found)) v.quiet;
  even = v.even;
}

Tied-Alike : (gs : List Running) (r s : Rpc) → Alike r s → Tied gs r → Tied gs s
Tied-Alike gs r s a (inl h) = inl (rw (a.key, a.ptr) h)
Tied-Alike gs r s a (inr h) = inr (a.tx ∙ h.0, a.handling ∙ h.1)

Quiet-Alike : (r s : Rpc) → Alike r s → Quiet r → Quiet s
Quiet-Alike r s a (inl h) = inl (rw a.key h)
Quiet-Alike r s a (inr (inl h)) = inr (inl (a.handling ∙ h))
Quiet-Alike r s a (inr (inr h)) = inr (inr (a.tx ∙ h))

pub cost-Alike : (r s : Rpc) → Alike r s → cost s ≡ cost r
unfolding cost
cost-Alike r s a = rw (a.tx, a.rx)

-- A write to fields that do not count.
pub store-IsSound :
    (c : Core) (r s : Rpc)
    → IsSound c
    → lookup r.key c.rpcs ≡ some r
    → Alike r s
    → IsSound (record c { rpcs = replace s c.rpcs })
store-IsSound c r s v found a =
    updated-IsSound c r s c.buffered_bytes v (rw a.key found) (Tied-Alike c.handlers r s a) a.ptr
      (Quiet-Alike r s a) (ap (λ (n : ℕ). c.buffered_bytes + n) (sym (cost-Alike r s a))) v.within

pub dropped-IsSound :
    (c : Core) (k : Key) (r : Rpc)
    → IsSound c
    → lookup k c.rpcs ≡ some r
    → IsSound (record c { rpcs = delete k c.rpcs; buffered_bytes = c.buffered_bytes - cost r })
dropped-IsSound c k r v found = record {
  balanced = omega (arith, held-delete k r c.rpcs found, v.balanced);
  within = omega (arith, v.within);
  rpcs_bounded = omega (arith, length-delete-le k c.rpcs, v.rpcs_bounded);
  handlers_bounded = v.handlers_bounded;
  unique = delete-Unique k c.rpcs v.unique;
  distinct = v.distinct;
  fresh = v.fresh;
  tied = delete-All (Tied c.handlers) k c.rpcs v.tied;
  old = delete-All (Old c.next_ptr) k c.rpcs v.old;
  quiet = delete-All Quiet k c.rpcs v.quiet;
  even = v.even;
}

Old-next : (n : ℕ) (rs : List Rpc) → All (Old n) rs → All (Old (n + 1)) rs
Old-next n [] o = tt
Old-next n (r ∷ rs) o = (omega arith, Old-next n rs o.1)

-- A new RPC under a key that is free, with its bytes on the account.
pub added-IsSound :
    (c : Core) (r : Rpc) (b : ℕ)
    → IsSound c
    → lookup r.key c.rpcs ≡ none
    → r.ptr ≡ c.next_ptr
    → length c.rpcs < c.cfg.max_rpcs
    → Quiet r
    → b ≡ c.buffered_bytes + cost r
    → b ≤ c.cfg.max_buffered_bytes
    → IsSound
        (record c { rpcs = r ∷ delete r.key c.rpcs; next_ptr = c.next_ptr + 1; buffered_bytes = b })
unfolding held
added-IsSound c r b v free new room silent account fits =
    rw (delete_absent r.key c.rpcs free) (record {
      balanced = omega (arith, v.balanced);
      within = fits;
      rpcs_bounded = omega arith;
      handlers_bounded = v.handlers_bounded;
      unique = (free, v.unique);
      distinct = v.distinct;
      fresh = Fresh-mono c.next_ptr (c.next_ptr + 1) c.handlers (omega arith) v.fresh;
      tied = (inl (rw new (find_run_fresh r.key c.next_ptr c.handlers v.fresh)), v.tied);
      old = (rw new (omega arith), Old-next c.next_ptr c.rpcs v.old);
      quiet = (silent, v.quiet);
      even = v.even;
    })

empty_of_Quiet : (r : Rpc) → is_server r.key.id ≡ true → r.handling ≡ false → Quiet r → r.tx ≡ []
empty_of_Quiet r server idle (inl h) = cc
empty_of_Quiet r server idle (inr (inl h)) = cc
empty_of_Quiet r server idle (inr (inr h)) = h

idle-Tied :
    (gs : List Running) (r : Rpc) → r.handling ≡ false → Tied gs r → find_run r.key r.ptr gs ≡ none
idle-Tied gs r idle (inl h) = h
idle-Tied gs r idle (inr h) = cc

-- `r` once its handler has started, and the handler.
abbrev pub launched : Rpc → Rpc
launched r = record r { handling = true; rx = none }

abbrev pub run_of : Rpc → Assembly → Running
run_of r a = record { key = r.key; ptr = r.ptr; request = a.payload }

launched-cost :
    (r : Rpc) (a : Assembly)
    → r.rx ≡ some a
    → cost r ≡ cost (launched r) + length a.payload + length a.bits
unfolding cost rx_bytes
launched-cost r a h = ground arith

-- A handler starts for `r`: the bitmap leaves the account, and the request changes its owner.
pub launched-IsSound :
    (c : Core) (r : Rpc) (a : Assembly)
    → IsSound c
    → lookup r.key c.rpcs ≡ some r
    → r.rx ≡ some a
    → is_server r.key.id ≡ true
    → r.handling ≡ false
    → length c.handlers < c.cfg.handler_workers
    → IsSound (record c {
      rpcs = replace (launched r) c.rpcs;
      buffered_bytes = c.buffered_bytes - length a.bits;
      handlers = run_of r a ∷ c.handlers;
    })
unfolding owned
launched-IsSound c r a v found rx server idle room =
    let empty = empty_of_Quiet r server idle (lookup-All Quiet r.key c.rpcs r v.quiet found) in
    let alone =
      idle-Tied c.handlers r idle (lookup-All (Tied c.handlers) r.key c.rpcs r v.tied found) in
    record {
      balanced =
          omega (arith, held-replace (launched r) r c.rpcs found, launched-cost r a rx, v.balanced);
      within = omega (arith, v.within);
      rpcs_bounded = omega (arith, length-replace (launched r) c.rpcs, v.rpcs_bounded);
      handlers_bounded = omega arith;
      unique = replace-Unique (launched r) c.rpcs v.unique;
      distinct = (alone, v.distinct);
      fresh = (lookup-All (Old c.next_ptr) r.key c.rpcs r v.old found, v.fresh);
      tied =
          Tied-replace (run_of r a) c.handlers (launched r) c.rpcs refl v.unique (inr (empty, refl))
            v.tied;
      old =
          replace-All (Old c.next_ptr) (launched r) c.rpcs
            (lookup-All (Old c.next_ptr) r.key c.rpcs r v.old found) v.old;
      quiet = replace-All Quiet (launched r) c.rpcs (inr (inl refl)) v.quiet;
      even = v.even;
    }

-- A handler comes back: its request leaves the account.
pub released-IsSound :
    (c : Core) (g : Running)
    → IsSound c
    → find_run g.key g.ptr c.handlers ≡ some g
    → IsSound (record c {
      handlers = delete_run g.key g.ptr c.handlers;
      buffered_bytes = c.buffered_bytes - length g.request;
    })
released-IsSound c g v found = record {
  balanced = omega (arith, owned-delete_run g.key g.ptr g c.handlers found, v.balanced);
  within = omega (arith, v.within);
  rpcs_bounded = v.rpcs_bounded;
  handlers_bounded = omega (arith, length-delete_run_le g.key g.ptr c.handlers, v.handlers_bounded);
  unique = v.unique;
  distinct = delete_run-Distinct g.key g.ptr c.handlers v.distinct;
  fresh = delete_run-Fresh c.next_ptr g.key g.ptr c.handlers v.fresh;
  tied = Tied-delete_run g.key g.ptr c.handlers c.rpcs v.tied;
  old = v.old;
  quiet = v.quiet;
  even = v.even;
}
