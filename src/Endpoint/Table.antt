-- ===== src/Endpoint/Table.antt =====
-- The map `rpcs` as an association list, in the order in which Go happens to walk it, and the
-- account of the bytes that its entries hold.
pub mod Laws
pub mod Runs
use mac_homa.Common.{
  ℕ, ◌+◌, ◌/◌, ◌<◌, ◌≡◌, ◌==◌, Bool, true, false, ◌&&◌, if◌then◌else◌, List, [], ◌∷◌, Option, none,
  some, length, arith,
}
use mac_homa.Endpoint.{Key, Rpc, Assembly, Running, eq_key}

unfoldable pub lookup : Key → List Rpc → Option Rpc
lookup k [] = none
lookup k (r ∷ rs) = if eq_key r.key k then some r else lookup k rs

-- A write through the pointer: the entry with the key of `r` becomes `r`.
unfoldable pub replace : Rpc → List Rpc → List Rpc
replace r [] = []
replace r (q ∷ rs) = if eq_key q.key r.key then r ∷ rs else q ∷ replace r rs

unfoldable pub delete : Key → List Rpc → List Rpc
delete k [] = []
delete k (r ∷ rs) = if eq_key r.key k then rs else r ∷ delete k rs

-- len(rx.data) + len(rx.bits)
unfoldable pub rx_bytes : Option Assembly → ℕ
rx_bytes none = 0
rx_bytes (some a) = length a.payload + length a.bits

-- What `remove` gives back for an RPC.
unfoldable pub cost : Rpc → ℕ
cost r = length r.tx + rx_bytes r.rx

unfoldable pub held : List Rpc → ℕ
held [] = 0
held (r ∷ rs) = cost r + held rs

-- The requests that running handlers own.
unfoldable pub owned : List Running → ℕ
owned [] = 0
owned (g ∷ gs) = length g.request + owned gs

abbrev pub is_run : Key → ℕ → Running → Bool
is_run k p g = eq_key g.key k && g.ptr == p

unfoldable pub find_run : Key → ℕ → List Running → Option Running
find_run k p [] = none
find_run k p (g ∷ gs) = if is_run k p g then some g else find_run k p gs

unfoldable pub delete_run : Key → ℕ → List Running → List Running
delete_run k p [] = []
delete_run k p (g ∷ gs) = if is_run k p g then gs else g ∷ delete_run k p gs
