-- ===== src/Endpoint/Call.antt =====
-- endpoint.go: `Call`, up to its wait for the result and when its context ends first; and `Close`.
use mac_homa.Common.{
  ℕ, ◌+◌, ◌%◌, ◌^◌, ◌==◌, min, ltb, leb, Bool, true, false, not, ◌||◌, if◌then◌else◌, List, [],
  Option, none, some, length,
}
use mac_homa.Endpoint.{
  Addr, Key, Rpc, Endpoint, Failure, closed, busy, too_large, protocol, is_v4, is_unspecified,
  is_multicast, eq_ip, v4,
}
use mac_homa.Endpoint.Send.{reserve, store, unsched, send_new}
use mac_homa.Endpoint.Remove.{finish, shutdown}
use mac_homa.Endpoint.Data.{add_rpc}

-- A call that fails at once has the error of a CallError with `Sent` false; any other waits for the
-- result of the RPC with this key and pointer.
pub data Started : Type 0 where
  refused : Failure → Started
  waiting : Key → ℕ → Started

abbrev pub is_bad_peer : Addr → Bool
is_bad_peer a =
    not (is_v4 a.ip)
    || is_unspecified a.ip
    || is_multicast a.ip
    || eq_ip a.ip (v4 0xffffffff)
    || a.port == 0

-- `e.nextID += 2`, which wraps, and skips 0.
unfoldable pub following_id : ℕ → ℕ
following_id id = if (id + 2) % 2 ^ 64 == 0 then 2 else (id + 2) % 2 ^ 64

-- The earlier of the configured lifetime and the context's deadline.
abbrev pub call_deadline : Endpoint → ℕ → Option ℕ → ℕ
call_deadline e now none = now + e.cfg.timeout
call_deadline e now (some d) = if ltb d (now + e.cfg.timeout) then d else now + e.cfg.timeout

unfoldable pub new_client_rpc : Endpoint → ℕ → Option ℕ → Addr → List ℕ → Rpc
new_client_rpc e now limit peer request = record {
  ptr = e.next_ptr;
  key = record { peer = peer; id = e.next_id };
  tx = request;
  sent = 0;
  granted = min (length request) e.cfg.unscheduled_bytes;
  priority = unsched e peer.ip (length request);
  rx = none;
  received = false;
  handling = false;
  deadline = call_deadline e now limit;
  last = now;
  last_cutoff = none;
  has_result = true;
}

-- The RPC enters the map, and its unscheduled bytes are sent.
unfoldable pub submit : Endpoint → Rpc → Endpoint
submit e r =
    let (e', r', x) = send_new (add_rpc e r) r in
    let stored = store e' r' in
    elim x [ none ↦ stored | some y ↦ finish stored r.key r.ptr [] (some y) ]

unfoldable pub admit : Endpoint → ℕ → Option ℕ → Addr → List ℕ → Endpoint × Started
admit e now limit peer request =
    let e' = record e { core = record e.core { next_id = following_id e.next_id } } in
    let r = new_client_rpc e' now limit peer request in (submit e' r, waiting r.key r.ptr)

-- `limit` is the context's deadline, and `ended` its error if it is over already.
unfoldable pub begin_call :
    Endpoint → ℕ → Option Failure → Option ℕ → Addr → List ℕ → Endpoint × Started
begin_call e now (some x) limit peer request = (e, refused x)
begin_call e now none limit peer request =
    if is_bad_peer peer
    then (e, refused protocol)
    else if length request == 0 || ltb e.cfg.max_message_size (length request)
    then (e, refused too_large)
    else if e.is_closed
    then (e, refused closed)
    else if leb e.cfg.max_rpcs (length e.rpcs)
    then (e, refused busy)
    else (let (e', reserved) = reserve e (length request) in
        if reserved then admit e' now limit peer request else (e, refused busy))

-- `<-ctx.Done()`
unfoldable pub cancel_call : Endpoint → Key → ℕ → Failure → Endpoint
cancel_call e key ptr x = finish e key ptr [] (some x)

unfoldable pub close : Endpoint → Endpoint
close e = shutdown e closed
