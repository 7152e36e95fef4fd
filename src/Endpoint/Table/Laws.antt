-- ===== src/Endpoint/Table/Laws.antt =====
-- Laws of the table of RPCs: lookups, writes and deletions, and the bytes that its entries hold.
use mac_homa.Common.{
  ◌+◌, ◌≤◌, ◌≡◌, refl, subst, true, false, List, [], ◌∷◌, none, some, length, All, arith,
  Bool-cases, inl, inr, ==_refl,
}
use mac_homa.Endpoint.{Ip, invalid, v4, v6, Key, Rpc, eq_ip, eq_key}
use mac_homa.Endpoint.Table.{lookup, replace, delete, cost, held}

eq_ip-eq : (a b : Ip) → eq_ip a b ≡ true → a ≡ b
eq_ip-eq invalid invalid h = refl
eq_ip-eq (v4 m) (v4 n) h = ground arith
eq_ip-eq (v6 m) (v6 n) h = ground arith
eq_ip-eq _ _ h = cc

eq_ip_refl : (a : Ip) → eq_ip a a ≡ true
eq_ip_refl invalid = refl
eq_ip_refl (v4 m) = ==_refl m
eq_ip_refl (v6 m) = ==_refl m

pub eq_key-eq : (a b : Key) → eq_key a b ≡ true → a ≡ b
eq_key-eq a b h = ground (arith, eq_ip-eq a.peer.ip b.peer.ip)

pub eq_key_refl : (a : Key) → eq_key a a ≡ true
eq_key_refl a = ground (arith, eq_ip_refl a.peer.ip)

pub lookup-key : (k : Key) (rs : List Rpc) (r : Rpc) → lookup k rs ≡ some r → r.key ≡ k
unfolding lookup
lookup-key k [] r h = cc
lookup-key k (q ∷ rs) r h = ground (arith, eq_key-eq q.key k, lookup-key k rs r)

pub held-replace :
    (r q : Rpc) (rs : List Rpc)
    → lookup r.key rs ≡ some q
    → held (replace r rs) + cost q ≡ held rs + cost r
unfolding lookup replace held
held-replace r q [] h = cc
held-replace r q (p ∷ rs) h = ground (arith, held-replace r q rs)

pub length-replace : (r : Rpc) (rs : List Rpc) → length (replace r rs) ≡ length rs
unfolding replace
length-replace r [] = refl
length-replace r (p ∷ rs) = ground (arith, length-replace r rs)

pub held-delete :
    (k : Key) (q : Rpc) (rs : List Rpc)
    → lookup k rs ≡ some q
    → held (delete k rs) + cost q ≡ held rs
unfolding lookup delete held
held-delete k q [] h = cc
held-delete k q (p ∷ rs) h = ground (arith, held-delete k q rs)

pub length-delete-le : (k : Key) (rs : List Rpc) → length (delete k rs) ≤ length rs
unfolding delete
length-delete-le k [] = omega arith
length-delete-le k (p ∷ rs) = ground (arith, length-delete-le k rs)

pub delete_absent : (k : Key) (rs : List Rpc) → lookup k rs ≡ none → delete k rs ≡ rs
unfolding lookup delete
delete_absent k [] h = refl
delete_absent k (p ∷ rs) h = ground (arith, delete_absent k rs)

pub lookup-replace_self :
    (r q : Rpc) (rs : List Rpc) → lookup r.key rs ≡ some q → lookup r.key (replace r rs) ≡ some r
unfolding lookup replace
lookup-replace_self r q [] h = cc
lookup-replace_self r q (p ∷ rs) h = ground (arith, eq_key_refl r.key, lookup-replace_self r q rs)

pub lookup-replace-none :
    (k : Key) (r : Rpc) (rs : List Rpc) → lookup k rs ≡ none → lookup k (replace r rs) ≡ none
unfolding lookup replace
lookup-replace-none k r [] h = refl
lookup-replace-none k r (p ∷ rs) h =
    ground (arith, eq_key-eq p.key r.key, lookup-replace-none k r rs)

pub lookup-replace_other :
    (k : Key) (r : Rpc) (rs : List Rpc)
    → eq_key r.key k ≡ false
    → lookup k (replace r rs) ≡ lookup k rs
unfolding lookup replace
lookup-replace_other k r [] h = refl
lookup-replace_other k r (p ∷ rs) h =
    ground (arith, eq_key-eq p.key r.key, lookup-replace_other k r rs)

lookup-delete-none :
    (k j : Key) (rs : List Rpc) → lookup k rs ≡ none → lookup k (delete j rs) ≡ none
unfolding lookup delete
lookup-delete-none k j [] h = refl
lookup-delete-none k j (p ∷ rs) h = ground (arith, lookup-delete-none k j rs)

-- No two entries have one key: the list is a map.
abbrev pub Unique : List Rpc → Type 0
Unique [] = Unit {0}
Unique (r ∷ rs) = (lookup r.key rs ≡ none) × Unique rs

pub replace-Unique : (r : Rpc) (rs : List Rpc) → Unique rs → Unique (replace r rs)
unfolding replace
replace-Unique r [] u = tt
replace-Unique r (p ∷ rs) u =
    ground (arith, eq_key-eq p.key r.key, lookup-replace-none p.key r rs, replace-Unique r rs u.1)

pub delete-Unique : (k : Key) (rs : List Rpc) → Unique rs → Unique (delete k rs)
unfolding delete
delete-Unique k [] u = tt
delete-Unique k (p ∷ rs) u = ground (arith, lookup-delete-none p.key k rs, delete-Unique k rs u.1)

module _ {ℓ} (P : Rpc → Type ℓ) where
  pub replace-All : (r : Rpc) (rs : List Rpc) → P r → All P rs → All P (replace r rs)
  unfolding replace
  replace-All r [] h u = u
  replace-All r (p ∷ rs) h u = elim (Bool-cases (eq_key p.key r.key)) [
    | inl e ↦ rw e (h, u.1)
    | inr e ↦ rw e (u.0, replace-All r rs h u.1)
  ]

  pub delete-All : (k : Key) (rs : List Rpc) → All P rs → All P (delete k rs)
  unfolding delete
  delete-All k [] u = u
  delete-All k (p ∷ rs) u = elim (Bool-cases (eq_key p.key k)) [
    | inl e ↦ rw e u.1
    | inr e ↦ rw e (u.0, delete-All k rs u.1)
  ]

  pub lookup-All : (k : Key) (rs : List Rpc) (r : Rpc) → All P rs → lookup k rs ≡ some r → P r
  unfolding lookup
  lookup-All k [] r u h = cc
  lookup-All k (p ∷ rs) r u h = elim (Bool-cases (eq_key p.key k)) [
    | inl e ↦ subst P (ground arith) u.0
    | inr e ↦ lookup-All k rs r u.1 (ground arith)
  ]
