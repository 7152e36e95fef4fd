-- ===== src/Endpoint/Loops/Stale.antt =====
-- `writeLoop`: DATA of an RPC that is gone or expired is dropped.
use mac_homa.Common.{
  ℕ, some_inj, ◌<◌, ◌≡◌, ◌==◌, ltb, true, not, ◌&&◌, Option, none, some, arith, Bool-cases,
  Option-cases, sym, ap, ◌∙◌, refl, subst, inl, inr, ==_iff,
}
use mac_homa.Wire.{data_type}
use mac_homa.Endpoint.{Endpoint, Outgoing, Origin, Rpc}
use mac_homa.Endpoint.Table.{lookup}
use mac_homa.Endpoint.Remove.{live}
use mac_homa.Endpoint.Loops.{dequeue, is_live_origin, drops, writes, write_begin}

-- The RPC of a queued packet is the entry of the table still, and its deadline has not come.
pub record IsCurrent (e : Endpoint) (now : ℕ) (origin : Option Origin) : Type 0 where
  pub source : Origin
  pub is_source : origin ≡ some source
  pub entry : Rpc
  pub found : lookup source.key e.rpcs ≡ some entry
  pub same : entry.ptr ≡ source.ptr
  pub early : now < source.deadline

writes_inj : {p q : Outgoing} → writes p ≡ writes q → p ≡ q
writes_inj e = cc e

live-found :
    (e : Endpoint) (o : Origin) (r : Rpc)
    → live e o.key o.ptr ≡ some r
    → (lookup o.key e.rpcs ≡ some r) × (r.ptr ≡ o.ptr)
unfolding live
live-found e o r h = elim (Option-cases (lookup o.key e.rpcs)) [
  | inl absent ↦ absurd (ground (arith, absent, h))
  | inr (s, there) ↦ elim (Bool-cases (s.ptr == o.ptr)) [
    | inl y ↦
        let is : some s ≡ some r = rw (there, live, y) at h in
        let is' = some_inj is in (there ∙ is, ap (λ x. x.ptr) (sym is') ∙ (==_iff s.ptr o.ptr).0 y)
    | inr n ↦ let is : none ≡ some r = rw (there, live, n) at h in absurd (ground (arith, is))
  ]
]

is_live_origin-IsCurrent :
    (e : Endpoint) (now : ℕ) (origin : Option Origin)
    → is_live_origin e now origin ≡ true
    → IsCurrent e now origin
unfolding is_live_origin
is_live_origin-IsCurrent e now none h = absurd (ground arith)
is_live_origin-IsCurrent e now (some o) h = elim (Option-cases (live e o.key o.ptr)) [
  | inl gone ↦ absurd (ground (arith, gone, h))
  | inr (r, there) ↦
      let l : ltb now o.deadline ≡ true = rw (there, is_live_origin) at h in
      let (found, same) = live-found e o r there in
      record {
        source = o;
        is_source = refl;
        entry = r;
        found = found;
        same = same;
        early = ground (arith, l);
      }
]

-- When the writer takes a DATA packet to write it, the RPC that it came from is still the entry of the
-- table, by its pointer and not only by its key, and its deadline has not come.
pub write_begin-IsCurrent :
    (e e' : Endpoint) (now : ℕ) (p : Outgoing)
    → write_begin e now ≡ (e', writes p)
    → p.type ≡ data_type
    → IsCurrent e' now p.origin
unfolding write_begin
write_begin-IsCurrent e e' now p h t = elim (Option-cases (dequeue e)) [
  | inl empty ↦ absurd (ground (arith, empty, h))
  | inr ((q, d), some') ↦
      elim (Bool-cases (q.type == data_type && not (is_live_origin d now q.origin))) [
        | inl stale ↦
            let no_write : drops ≡ writes p = ap (λ x. x.1) (rw (some', write_begin, stale) at h) in
            absurd (ground (arith, no_write))
        | inr fresh ↦
            let is : (d, writes q) ≡ (e', writes p) = rw (some', write_begin, fresh) at h in
            let same = writes_inj (ap (λ x. x.1) is) in
            let is_data : q.type ≡ data_type = ap (λ x. x.type) same ∙ t in
            let live' : is_live_origin d now q.origin ≡ true = ground (arith, fresh, is_data) in
            subst (λ x. IsCurrent x now p.origin) (ap (λ x. x.0) is)
              (subst (λ (x : Outgoing). IsCurrent d now x.origin) same
                (is_live_origin-IsCurrent d now q.origin live'))
      ]
]
