-- ===== src/Endpoint/Table/Runs.antt =====
-- Laws of the running handlers, and their tie to the RPCs that they work for.
use mac_homa.Common.{
  ℕ, ◌+◌, ◌≤◌, ◌<◌, ◌≡◌, refl, subst, true, false, List, [], ◌∷◌, none, some, length, All, arith,
  Bool-cases, ◌⊎◌, inl, inr,
}
use mac_homa.Endpoint.{Key, Rpc, Running, eq_key}
use mac_homa.Endpoint.Table.{lookup, replace, owned, is_run, find_run, delete_run}
use mac_homa.Endpoint.Table.Laws.{eq_key-eq, Unique}

pub owned-delete_run :
    (k : Key) (p : ℕ) (g : Running) (gs : List Running)
    → find_run k p gs ≡ some g
    → owned (delete_run k p gs) + length g.request ≡ owned gs
unfolding find_run delete_run owned
owned-delete_run k p g [] h = cc
owned-delete_run k p g (q ∷ gs) h = ground (arith, owned-delete_run k p g gs)

pub length-delete_run_le :
    (k : Key) (p : ℕ) (gs : List Running) → length (delete_run k p gs) ≤ length gs
unfolding delete_run
length-delete_run_le k p [] = omega arith
length-delete_run_le k p (q ∷ gs) = ground (arith, length-delete_run_le k p gs)

pub find_run-names :
    (k : Key) (p : ℕ) (g : Running) (gs : List Running)
    → find_run k p gs ≡ some g
    → (g.key ≡ k) × (g.ptr ≡ p)
unfolding find_run
find_run-names k p g [] h = cc
find_run-names k p g (q ∷ gs) h = ground (arith, eq_key-eq q.key k, find_run-names k p g gs)

find_run-delete_none :
    (k : Key) (p : ℕ) (j : Key) (o : ℕ) (gs : List Running)
    → find_run k p gs ≡ none
    → find_run k p (delete_run j o gs) ≡ none
unfolding find_run delete_run
find_run-delete_none k p j o [] h = refl
find_run-delete_none k p j o (q ∷ gs) h = ground (arith, find_run-delete_none k p j o gs)

-- An RPC has one handler at most.
abbrev pub Distinct : List Running → Type 0
Distinct [] = Unit {0}
Distinct (g ∷ gs) = (find_run g.key g.ptr gs ≡ none) × Distinct gs

pub delete_run-Distinct :
    (k : Key) (p : ℕ) (gs : List Running) → Distinct gs → Distinct (delete_run k p gs)
unfolding delete_run
delete_run-Distinct k p [] d = tt
delete_run-Distinct k p (q ∷ gs) d =
    ground (arith, find_run-delete_none q.key q.ptr k p gs, delete_run-Distinct k p gs d.1)

pub find_run-delete_self :
    (k : Key) (p : ℕ) (gs : List Running) → Distinct gs → find_run k p (delete_run k p gs) ≡ none
unfolding find_run delete_run
find_run-delete_self k p [] d = refl
find_run-delete_self k p (q ∷ gs) d = elim (Bool-cases (is_run k p q)) [
  | inl e ↦ let same = eq_key-eq q.key k in ground (arith, same)
  | inr e ↦ rw (e, find_run, e) (find_run-delete_self k p gs d.1)
]

-- The pointers of handlers have been given out.
abbrev pub Fresh : ℕ → List Running → Type 0
Fresh n = All (λ g. g.ptr < n)

pub Fresh-mono : (m n : ℕ) (gs : List Running) → m ≤ n → Fresh m gs → Fresh n gs
Fresh-mono m n [] h f = tt
Fresh-mono m n (g ∷ gs) h f = (omega arith, Fresh-mono m n gs h f.1)

pub delete_run-Fresh :
    (n : ℕ) (k : Key) (p : ℕ) (gs : List Running) → Fresh n gs → Fresh n (delete_run k p gs)
unfolding delete_run
delete_run-Fresh n k p [] f = tt
delete_run-Fresh n k p (q ∷ gs) f = ground (arith, delete_run-Fresh n k p gs f.1)

pub find_run_fresh : (k : Key) (n : ℕ) (gs : List Running) → Fresh n gs → find_run k n gs ≡ none
unfolding find_run
find_run_fresh k n [] f = refl
find_run_fresh k n (q ∷ gs) f = ground (arith, find_run_fresh k n gs f.1)

-- While the handler of an RPC runs, the RPC is marked so and has nothing to send.
abbrev pub Tied : List Running → Rpc → Type 0
Tied gs r = (find_run r.key r.ptr gs ≡ none) ⊎ ((r.tx ≡ []) × (r.handling ≡ true))

pub Tied-delete_run :
    (k : Key) (p : ℕ) (gs : List Running) (rs : List Rpc)
    → All (Tied gs) rs
    → All (Tied (delete_run k p gs)) rs
Tied-delete_run k p gs [] t = tt
Tied-delete_run k p gs (r ∷ rs) t = (
  elim t.0 [ inl e ↦ inl (find_run-delete_none r.key r.ptr k p gs e) | inr e ↦ inr e ],
  Tied-delete_run k p gs rs t.1,
)

-- A new handler does not touch the RPCs with other keys.
Tied-other :
    (g : Running) (gs : List Running) (r : Rpc)
    → eq_key g.key r.key ≡ false
    → Tied gs r
    → Tied (g ∷ gs) r
unfolding find_run
Tied-other g gs r h (inl e) = inl (ground arith)
Tied-other g gs r h (inr e) = inr e

eq_key-ne : (a b c : Key) → a ≡ b → eq_key c b ≡ false → eq_key a c ≡ false
eq_key-ne a b c e h = elim (Bool-cases (eq_key a c)) [ inl t ↦ cc (eq_key-eq a c t) | inr f ↦ f ]

Tied-absent :
    (g : Running) (gs : List Running) (k : Key) (rs : List Rpc)
    → g.key ≡ k
    → lookup k rs ≡ none
    → All (Tied gs) rs
    → All (Tied (g ∷ gs)) rs
unfolding lookup
Tied-absent g gs k [] e h t = tt
Tied-absent g gs k (r ∷ rs) e h t = elim (Bool-cases (eq_key r.key k)) [
  | inl y ↦ ground arith
  | inr n ↦ (
    Tied-other g gs r (eq_key-ne g.key k r.key e n) t.0,
    Tied-absent g gs k rs e (ground arith) t.1,
  )
]

-- A handler is started for the RPC `r`, which takes the place of the entry with its key.
pub Tied-replace :
    (g : Running) (gs : List Running) (r : Rpc) (rs : List Rpc)
    → g.key ≡ r.key
    → Unique rs
    → Tied (g ∷ gs) r
    → All (Tied gs) rs
    → All (Tied (g ∷ gs)) (replace r rs)
unfolding replace
Tied-replace g gs r [] e u w t = tt
Tied-replace g gs r (q ∷ rs) e u w t = elim (Bool-cases (eq_key q.key r.key)) [
  | inl y ↦ rw y (
    w,
    Tied-absent g gs r.key rs e (subst (λ k. lookup k rs ≡ none) (eq_key-eq q.key r.key y) u.0) t.1,
  )
  | inr n ↦
      rw n (
        Tied-other g gs q (eq_key-ne g.key r.key q.key e n) t.0,
        Tied-replace g gs r rs e u.1 w t.1,
      )
]
