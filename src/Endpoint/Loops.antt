-- ===== src/Endpoint/Loops.antt =====
-- endpoint.go: one round of `writeLoop`, `readLoop` and `timerLoop`, cut where the lock is free.
pub mod Queues
pub mod Line
pub mod Refine
pub mod Stale
use mac_homa.Common.{
  ℕ, zero, suc, ◌+◌, ◌-◌, ◌%◌, ◌==◌, ltb, leb, Bool, true, false, not, ◌&&◌, ◌||◌, if◌then◌else◌,
  List, [], ◌∷◌, Option, none, some, length, get_or, set,
}
use mac_homa.Wire
use mac_homa.Wire.{Packet, data_type, need_ack_type}
use mac_homa.Wire.Parse.{parse}
use mac_homa.Endpoint.{Ip, Rpc, Origin, Outgoing, Endpoint, Failure, deadline_exceeded, is_server}
use mac_homa.Endpoint.Table.{lookup}
use mac_homa.Endpoint.Send.{control, store}
use mac_homa.Endpoint.Remove.{live, finish, shutdown}
use mac_homa.Endpoint.Grants.{request_missing, schedule}
use mac_homa.Endpoint.Handlers.{is_waiting, start_if_waiting}
use mac_homa.Endpoint.Data.{count_invalid}
use mac_homa.Endpoint.Receive.{receive}

-- The queues `i - 1` down to 0: the first that is not empty gives its oldest packet.
unfoldable pub dequeue_loop : ℕ → List (List Outgoing) → Option (Outgoing × List (List Outgoing))
dequeue_loop zero queues = none
dequeue_loop (suc i) queues = elim (get_or queues i []) [
  | [] ↦ dequeue_loop i queues
  | p ∷ rest ↦ some (p, set queues i rest)
]

unfoldable pub dequeue : Endpoint → Option (Outgoing × Endpoint)
dequeue e = elim (dequeue_loop (length e.outbound) e.outbound) [
  | none ↦ none
  | some (p, queues) ↦ some (p, record e { outbound = queues })
]

unfoldable pub is_live_origin : Endpoint → ℕ → Option Origin → Bool
is_live_origin e now none = false
is_live_origin e now (some o) = elim (live e o.key o.ptr) [
  | none ↦ false
  | some r ↦ ltb now o.deadline
]

-- What the writer does after a look at the queues.
pub data Writing : Type 0 where
  waits : Writing
  drops : Writing
  writes : Outgoing → Writing

-- From the lock to the call of WritePacket.
unfoldable pub write_begin : Endpoint → ℕ → Endpoint × Writing
write_begin e now = elim (dequeue e) [
  | none ↦ (e, waits)
  | some (p, e') ↦
      if p.type == data_type && not (is_live_origin e' now p.origin)
      then (
        record e' { stats = record e'.stats { dropped_packets = e'.stats.dropped_packets + 1 } },
        drops,
      )
      else (e', writes p)
]

unfoldable pub finish_origin : Endpoint → Option Origin → Failure → Endpoint
finish_origin e none x = e
finish_origin e (some o) x = finish e o.key o.ptr [] (some x)

-- After WritePacket, with its error or none.
unfoldable pub write_end : Endpoint → Outgoing → Option Failure → Endpoint
write_end e p none = record e { stats = record e.stats { sent_packets = e.stats.sent_packets + 1 } }
write_end e p (some x) =
    finish_origin (record e { stats = record e.stats { write_errors = e.stats.write_errors + 1 } })
      p.origin x

unfoldable pub read_parsed : Endpoint → ℕ → Ip → Wire.Result Packet → Endpoint
read_parsed e now ip (Wire.ok p) =
    receive
      (record e { stats = record e.stats { received_packets = e.stats.received_packets + 1 } }) now
      ip p
read_parsed e now ip _ = count_invalid e

-- A datagram of ReadPacket.
unfoldable pub read_packet : Endpoint → ℕ → Ip → List ℕ → Endpoint
read_packet e now ip bytes = if e.is_closed then e else read_parsed e now ip (parse bytes)

-- `now.Sub(r.last) < e.cfg.RetryInterval`, and what is due when it is not.
unfoldable pub timer_retry : Endpoint → ℕ → Rpc → Endpoint
timer_retry e now r =
    if ltb (now - r.last) e.cfg.retry_interval
    then e
    else (let r' = record r { last = now } in
        let e' = store e r' in
        if is_server r.key.id && ltb 0 (length r.tx) && r.sent == length r.tx
        then (control e' r.key need_ack_type).0
        else elim r.rx [
          | some a ↦ request_missing e' r'
          | none ↦ if not (is_server r.key.id) && not r.received then request_missing e' r' else e'
        ])

unfoldable pub timer_rpc : Endpoint → ℕ → Option Rpc → Endpoint
timer_rpc e now none = e
timer_rpc e now (some r) =
    if leb r.deadline now
    then finish e r.key r.ptr [] (some deadline_exceeded)
    else (let e' = start_if_waiting e now (some r) in
        elim (lookup r.key e'.rpcs) [ none ↦ e' | some r' ↦ timer_retry e' now r' ])

unfoldable pub timer_loop : List Rpc → Endpoint → ℕ → Endpoint
timer_loop [] e now = e
timer_loop (r ∷ rs) e now = timer_loop rs (timer_rpc e now (lookup r.key e.rpcs)) now

unfoldable pub timer_tick : Endpoint → ℕ → Endpoint
timer_tick e now = if e.is_closed then e else schedule (timer_loop e.rpcs e now)
