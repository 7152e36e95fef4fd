-- ===== src/Endpoint/Handlers.antt =====
-- endpoint.go: `startHandler` and the goroutine that it starts, in two critical sections.
use mac_homa.Common.{
  ℕ, ◌+◌, ◌-◌, ◌==◌, min, ltb, leb, Bool, true, not, ◌&&◌, ◌||◌, if◌then◌else◌, List, [], ◌∷◌,
  Option, none, some, length,
}
use mac_homa.Endpoint.{Key, Rpc, Assembly, Running, Endpoint, deadline_exceeded, is_server}
use mac_homa.Endpoint.Table.{lookup, find_run, delete_run}
use mac_homa.Endpoint.Send.{reserve, store, unsched, send_new}
use mac_homa.Endpoint.Remove.{live, remove, finish}

-- The request leaves the RPC, and stays on the account until its handler comes back.
unfoldable pub launch : Endpoint → Rpc → Assembly → Endpoint
launch e r a =
    let e' = store e (record r { handling = true; rx = none }) in
    record e' {
      core = record e'.core {
        buffered_bytes = e'.buffered_bytes - length a.bits;
        handlers = record { key = r.key; ptr = r.ptr; request = a.payload } ∷ e'.handlers;
      };
      stats = record e'.stats { handled_requests = e'.stats.handled_requests + 1 };
    }

unfoldable pub start_with : Endpoint → ℕ → Rpc → Assembly → Endpoint
start_with e now r a =
    if leb r.deadline now
    then finish e r.key r.ptr [] (some deadline_exceeded)
    else if leb e.cfg.handler_workers (length e.handlers)
    then e
    else launch e r a

unfoldable pub start_handler : Endpoint → ℕ → Rpc → Endpoint
start_handler e now r = elim r.rx [
  | none ↦ e
  | some a ↦ if r.handling then e else start_with e now r a
]

-- A server RPC whose request is complete and has no handler yet.
abbrev pub is_waiting : Rpc → Bool
is_waiting r = is_server r.key.id && r.received && not r.handling

unfoldable pub start_if_waiting : Endpoint → ℕ → Option Rpc → Endpoint
start_if_waiting e now none = e
start_if_waiting e now (some r) = if is_waiting r then start_handler e now r else e

-- The loop over the table: each entry as it is when the loop comes to it.
unfoldable pub start_all : List Rpc → Endpoint → ℕ → Endpoint
start_all [] e now = e
start_all (r ∷ rs) e now = start_all rs (start_if_waiting e now (lookup r.key e.rpcs)) now

-- `tx`, `granted`, `priority` and `last` of the RPC, and the first segments.
unfoldable pub respond : Endpoint → ℕ → Rpc → List ℕ → Endpoint
respond e now r response =
    let r' = record r {
      tx = response;
      granted = min (length response) e.cfg.unscheduled_bytes;
      priority = unsched e r.key.peer.ip (length response);
      last = now;
    } in
    let (e', r'', x) = send_new e r' in
    let stored = store e' r'' in elim x [ none ↦ stored | some _ ↦ remove stored r.key r.ptr ]

unfoldable pub accept_response : Endpoint → ℕ → Rpc → List ℕ → Endpoint
accept_response e now r response =
    if length response == 0 || ltb e.cfg.max_message_size (length response)
    then e
    else (let (e', reserved) = reserve e (length response) in
        if reserved
        then (let e'' = respond e' now r response in start_all e''.rpcs e'' now)
        else e')

-- The worker token and the request's bytes come back.
unfoldable pub release : Endpoint → Running → Endpoint
release e g = record e {
  core = record e.core {
    handlers = delete_run g.key g.ptr e.handlers;
    buffered_bytes = e.buffered_bytes - length g.request;
  };
}

unfoldable pub handler_returns : Endpoint → ℕ → Running → List ℕ → Endpoint
handler_returns e now g response =
    let e' = release e g in
    if e'.is_closed
    then e'
    else elim (live e' g.key g.ptr) [ none ↦ e' | some r ↦ accept_response e' now r response ]

-- The handler for the RPC comes back with a response, which is empty if it panicked.
unfoldable pub handler_done : Endpoint → ℕ → Key → ℕ → List ℕ → Endpoint
handler_done e now key ptr response = elim (find_run key ptr e.handlers) [
  | none ↦ e
  | some g ↦ handler_returns e now g response
]
