-- ===== src/Endpoint/Remove.antt =====
-- endpoint.go: `remove`, `finish`, `ack` and `shutdown`. An RPC is named by its key and `ptr`.
pub mod Shutdown
use mac_homa.Common.{
  ℕ, ◌-◌, ◌==◌, ltb, true, not, ◌&&◌, ◌||◌, if◌then◌else◌, List, [], ◌∷◌, ◌++◌, Option, none, some,
}
use mac_homa.Wire.{AckRecord, local_id}
use mac_homa.Endpoint.{Ip, Key, Rpc, Endpoint, Failure, eq_ip, is_server}
use mac_homa.Endpoint.Table.{lookup, delete, cost}

-- `e.rpcs[key]`, if it is the pointer `ptr`.
unfoldable pub live : Endpoint → Key → ℕ → Option Rpc
live e key ptr = elim (lookup key e.rpcs) [
  | none ↦ none
  | some r ↦ if r.ptr == ptr then some r else none
]

-- The entry leaves the map, and what it held leaves the account.
unfoldable pub drop_rpc : Endpoint → Rpc → Endpoint
drop_rpc e r = record e {
  core = record e.core { rpcs = delete r.key e.rpcs; buffered_bytes = e.buffered_bytes - cost r };
}

unfoldable pub remove : Endpoint → Key → ℕ → Endpoint
remove e key ptr = elim (live e key ptr) [ none ↦ e | some r ↦ drop_rpc e r ]

-- The send on `r.result`, for an RPC that a caller waits for.
unfoldable pub deliver : Endpoint → Rpc → List ℕ → Option Failure → Endpoint
deliver e r response failure =
    if r.has_result
    then record e {
      results =
          e.results
          ++ (record {
            ptr = r.ptr;
            response = response;
            failure = failure;
            sent = ltb 0 r.sent || r.received;
          }
              ∷ []);
    }
    else e

unfoldable pub finish : Endpoint → Key → ℕ → List ℕ → Option Failure → Endpoint
finish e key ptr response failure = elim (live e key ptr) [
  | none ↦ e
  | some r ↦ deliver (drop_rpc e r) r response failure
]

unfoldable pub finish_all : List Rpc → Endpoint → Failure → Endpoint
finish_all [] e x = e
finish_all (r ∷ rs) e x = finish_all rs (finish e r.key r.ptr [] (some x)) x

unfoldable pub shutdown : Endpoint → Failure → Endpoint
shutdown e x =
    if e.is_closed
    then e
    else finish_all e.rpcs (record e { core = record e.core { is_closed = true } }) x

-- The first RPC with the address and the ID, whatever its port.
unfoldable pub find_acked : Ip → ℕ → List Rpc → Option Rpc
find_acked ip id [] = none
find_acked ip id (r ∷ rs) =
    if eq_ip r.key.peer.ip ip && r.key.id == id then some r else find_acked ip id rs

unfoldable pub remove_found : Endpoint → Option Rpc → Endpoint
remove_found e none = e
remove_found e (some r) = remove e r.key r.ptr

unfoldable pub ack : Endpoint → Ip → AckRecord → Endpoint
ack e ip a =
    if a.client_id == 0 || is_server a.client_id || not (a.server_port == e.local.port)
    then e
    else remove_found e (find_acked ip (local_id a.client_id) e.rpcs)

unfoldable pub ack_all : Endpoint → Ip → List AckRecord → Endpoint
ack_all e ip [] = e
ack_all e ip (a ∷ more) = ack_all (ack e ip a) ip more
