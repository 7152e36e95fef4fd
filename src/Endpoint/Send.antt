-- ===== src/Endpoint/Send.antt =====
-- The sending half of endpoint.go: the account, the priority queues, segments, first transmission
-- and retransmission.
pub mod Progress
pub mod Priority
use mac_homa.Common.{
  ℕ, zero, suc, ◌+◌, ◌-◌, ◌*◌, ◌/◌, ◌%◌, ◌^◌, min, ltb, leb, Bool, true, false, if◌then◌else◌, List,
  [], ◌∷◌, ◌++◌, Option, none, some, length, get_or, set, take, drop,
}
use mac_homa.Wire
use mac_homa.Wire.{Packet, Eight, Common, data_type, AckRecord, Three}
use mac_homa.Wire.Marshal.{marshal}
use mac_homa.Endpoint.{
  Ip, Addr, Key, Rpc, CutoffEntry, Origin, Outgoing, Endpoint, Failure, default_cutoffs, eq_ip,
}
use mac_homa.Endpoint.{protocol, crashed}
use mac_homa.Endpoint.Table.{lookup, replace}

unfoldable pub reserve : Endpoint → ℕ → Endpoint × Bool
reserve e n =
    if ltb (e.cfg.max_buffered_bytes - e.buffered_bytes) n
    then (e, false)
    else (record e { core = record e.core { buffered_bytes = e.buffered_bytes + n } }, true)

-- Writes the fields of an RPC through its pointer.
unfoldable pub store : Endpoint → Rpc → Endpoint
store e r = record e { core = record e.core { rpcs = replace r e.rpcs } }

unfoldable pub common : Endpoint → Key → ℕ → Common
common e key type = Wire.new_common type e.local.port key.peer.port key.id

unfoldable pub origin_of : Endpoint → Key → Option Origin
origin_of e key = elim (lookup key e.rpcs) [
  | none ↦ none
  | some r ↦ some (record { key = r.key; ptr = r.ptr; deadline = r.deadline })
]

-- Each of the eight queues has 32 slots; a packet that finds its queue full is dropped.
unfoldable pub enqueue : Endpoint → Outgoing → Endpoint
enqueue e p =
    let queue = get_or e.outbound p.priority [] in
    if ltb (length queue) 32
    then record e { outbound = set e.outbound p.priority (queue ++ (p ∷ [])) }
    else record e { stats = record e.stats { dropped_packets = e.stats.dropped_packets + 1 } }

unfoldable pub send_bytes :
    Endpoint → Addr → Common → ℕ → Wire.Result (List ℕ) → Endpoint × Option Failure
send_bytes e peer h priority (Wire.ok b) = (
  enqueue e (record {
    bytes = b;
    peer = peer.ip;
    priority = priority;
    origin = origin_of e (record { peer = peer; id = h.sender_id });
    type = h.type;
  }),
  none,
)
send_bytes e peer h priority (Wire.err x) = (e, some (Failure.wire x))
send_bytes e peer h priority Wire.panic = (e, some crashed)

-- The second component is the error.
unfoldable pub send : Endpoint → Addr → Packet → ℕ → Endpoint × Option Failure
send e peer p priority =
    if leb 8 priority
    then (e, some protocol)
    else send_bytes e peer (Wire.header p) priority (marshal p)

unfoldable pub control : Endpoint → Key → ℕ → Endpoint × Option Failure
control e key type = send e key.peer (Wire.common_packet (common e key type)) 7

unfoldable pub find_cutoff : Ip → List CutoffEntry → Option CutoffEntry
find_cutoff ip [] = none
find_cutoff ip (c ∷ cs) = if eq_ip c.ip ip then some c else find_cutoff ip cs

abbrev pub cutoff_at : Eight → ℕ → ℕ
cutoff_at c i = get_or (c.at0 ∷ c.at1 ∷ c.at2 ∷ c.at3 ∷ c.at4 ∷ c.at5 ∷ c.at6 ∷ c.at7 ∷ []) i 0

-- The loop from priority `i - 1` down to 0.
unfoldable pub unsched_loop : ℕ → Eight → ℕ → ℕ
unsched_loop zero c n = 0
unsched_loop (suc i) c n = if leb (n % 2 ^ 32) (cutoff_at c i) then i else unsched_loop i c n

unfoldable pub cutoff_values : Option CutoffEntry → Eight
cutoff_values none = default_cutoffs
cutoff_values (some c) = c.values

unfoldable pub cutoff_version : Option CutoffEntry → ℕ
cutoff_version none = 0
cutoff_version (some c) = c.version

unfoldable pub unsched : Endpoint → Ip → ℕ → ℕ
unsched e ip n = unsched_loop 8 (cutoff_values (find_cutoff ip e.cutoffs)) n

-- The DATA packet of `sendSegment`.
unfoldable pub segment : Endpoint → Rpc → ℕ → Bool → Packet
segment e r start retransmit =
    let seg = e.cfg.segment_bytes in
    let end = min (start + seg) (length r.tx) in
    let incoming = min (length r.tx) ((r.granted + seg - 1) / seg * seg) in
    Wire.data_packet (record {
      common = common e r.key data_type;
      message_length = length r.tx % 2 ^ 32;
      incoming = incoming % 2 ^ 32;
      ack = record { client_id = 0; server_port = 0 };
      cutoff_version = cutoff_version (find_cutoff r.key.peer.ip e.cutoffs);
      retransmit = if retransmit then 1 else 0;
      padding = record { first = 0; second = 0; third = 0 };
      segment_offset = start % 2 ^ 32;
      payload = take (end - start) (drop start r.tx);
    })

unfoldable pub count_retransmission : Endpoint → Bool → Endpoint
count_retransmission e true = record e {
  stats = record e.stats { retransmissions = e.stats.retransmissions + 1 };
}
count_retransmission e false = e

unfoldable pub send_segment : Endpoint → Rpc → ℕ → Bool → ℕ → Endpoint × Option Failure
send_segment e r start retransmit priority =
    send (count_retransmission e retransmit) r.key.peer (segment e r start retransmit) priority

-- The loop of `sendNew`, on fuel. It gives the RPC with the bytes that it marked as sent; the
-- caller stores it.
unfoldable pub send_new_loop : ℕ → Endpoint → Rpc → Endpoint × Rpc × Option Failure
send_new_loop zero e r = (e, r, none)
send_new_loop (suc fuel) e r = elim (ltb r.sent (min r.granted (length r.tx))) [
  | false ↦ (e, r, none)
  | true ↦
      let r' = record r { sent = min (r.sent + e.cfg.segment_bytes) (length r.tx) } in
      let s = send_segment e r' r.sent false r.priority in
      elim s.1 [ some x ↦ (s.0, r', some x) | none ↦ send_new_loop fuel s.0 r' ]
]

-- Each round marks a byte at least, so that the length of the message is fuel enough.
unfoldable pub send_new : Endpoint → Rpc → Endpoint × Rpc × Option Failure
send_new e r = send_new_loop (length r.tx) e r

-- The loop of `resend` from segment boundary `at`, on fuel.
unfoldable pub resend_loop : ℕ → Endpoint → Rpc → ℕ → ℕ → ℕ → Endpoint
resend_loop zero e r at end priority = e
resend_loop (suc fuel) e r at end priority = elim (ltb at end) [
  | false ↦ e
  | true ↦
      let e' = if ltb at (length r.tx) then (send_segment e r at true priority).0 else e in
      resend_loop fuel e' r (at + e.cfg.segment_bytes) end priority
]

unfoldable pub resend : Endpoint → Rpc → ℕ → ℕ → ℕ → Endpoint
resend e r start end priority =
    let seg = e.cfg.segment_bytes in
    let end = min end r.sent in resend_loop end e r (start / seg * seg) end priority
