-- ===== src/Endpoint/Receive.antt =====
-- endpoint.go: `receive`, the state machine on a parsed packet. `now` is the time at which the lock
-- is taken.
use mac_homa.Common.{
  ℕ, ◌+◌, ◌==◌, min, ltb, leb, Bool, true, false, not, ◌||◌, if◌then◌else◌, List, [], ◌∷◌, Option,
  none, some, length, take,
}
use mac_homa.Wire.{
  Packet, Common, AckRecord, Grant, Resend, Cutoffs, Ack, Five, data_packet, grant_packet,
  resend_packet, rpc_unknown_packet, busy_packet, cutoffs_packet, freeze_packet, need_ack_packet,
  ack_packet, common_packet, other, header, local_id, data_type, grant_type, busy_type,
  rpc_unknown_type, resend_all,
}
use mac_homa.Endpoint.{
  Ip, Addr, Key, Rpc, CutoffEntry, Endpoint, is_v4, is_unspecified, is_multicast, eq_ip, is_server,
}
use mac_homa.Endpoint.Table.{lookup}
use mac_homa.Endpoint.Send.{send, control, store, unsched, send_new, resend, find_cutoff}
use mac_homa.Endpoint.Remove.{remove, finish, ack_all}
use mac_homa.Endpoint.Grants.{request_missing}
use mac_homa.Endpoint.Data.{receive_data, empty_ack}

unfoldable pub receive_grant : Endpoint → Rpc → Grant → Endpoint
receive_grant e r p =
    if ltb 7 p.priority || length r.tx == 0
    then e
    else if ltb r.granted p.offset
    then (let r' = record r { granted = min p.offset (length r.tx); priority = p.priority } in
        let (e', r'', x) = send_new e r' in
        let stored = store e' r'' in
        elim x [ none ↦ stored | some y ↦ finish stored r.key r.ptr [] (some y) ])
    else e

-- `int(min(uint64(len(r.tx)), uint64(v.Offset)+uint64(v.Length)))`, or what was sent.
abbrev pub resend_end : Rpc → Resend → ℕ
resend_end r p =
    if not (p.length == resend_all) then min (length r.tx) (p.offset + p.length) else r.sent

-- `if end > r.granted`: the grant that is implied. The error of `sendNew` is dropped.
unfoldable pub grant_to : Endpoint → Rpc → ℕ → ℕ → Endpoint × Rpc
grant_to e r end priority =
    if ltb r.granted end
    then (let (e', r', x) = send_new e (record r { granted = end; priority = priority }) in
        (store e' r', r'))
    else (e, r)

unfoldable pub receive_resend : Endpoint → Rpc → Resend → Endpoint
receive_resend e r p =
    if length r.tx == 0
    then (control e r.key busy_type).0
    else if leb (length r.tx) p.offset
    then (control e r.key busy_type).0
    else (let e1 = resend e r p.offset (resend_end r p) p.priority in
        let (e2, r') = grant_to e1 r (resend_end r p) p.priority in
        if leb r'.sent p.offset then (control e2 r.key busy_type).0 else e2)

unfoldable pub receive_unknown : Endpoint → Ip → Rpc → Endpoint
receive_unknown e ip r = if is_server r.key.id then remove e r.key r.ptr else elim r.rx [
  | none ↦ if r.received then e else resend e r 0 r.sent (unsched e ip (length r.tx))
  | some a ↦ e
]

unfoldable pub receive_need_ack : Endpoint → Addr → Key → Option Rpc → Endpoint
receive_need_ack e peer key none = (send e peer (empty_ack e key) 7).0
receive_need_ack e peer key (some r) =
    if r.received then (send e peer (empty_ack e key) 7).0 else request_missing e r

abbrev pub ack_list : Five → List AckRecord
ack_list f = f.ack0 ∷ f.ack1 ∷ f.ack2 ∷ f.ack3 ∷ f.ack4 ∷ []

unfoldable pub receive_ack : Endpoint → Ip → Option Rpc → Ack → Endpoint
receive_ack e ip none p = ack_all e ip (take p.num_acks (ack_list p.acks))
receive_ack e ip (some r) p = ack_all (remove e r.key r.ptr) ip (take p.num_acks (ack_list p.acks))

-- `e.cutoffs[ip] = c`
unfoldable pub set_cutoff : CutoffEntry → List CutoffEntry → List CutoffEntry
set_cutoff c [] = c ∷ []
set_cutoff c (d ∷ ds) = if eq_ip d.ip c.ip then c ∷ ds else d ∷ set_cutoff c ds

abbrev pub is_known_ip : Endpoint → Ip → Bool
is_known_ip e ip = elim (find_cutoff ip e.cutoffs) [ none ↦ false | some _ ↦ true ]

unfoldable pub receive_cutoffs : Endpoint → Ip → Cutoffs → Endpoint
receive_cutoffs e ip p =
    if is_known_ip e ip || ltb (length e.cutoffs) e.cfg.max_rpcs
    then record e {
      core = record e.core {
        cutoffs =
            set_cutoff
              (record { ip = ip; values = p.unscheduled_cutoffs; version = p.cutoff_version })
              e.cutoffs;
      };
    }
    else e

-- The switch, with the RPC of the packet or none.
unfoldable pub dispatch : Endpoint → ℕ → Addr → Key → Option Rpc → Packet → Endpoint
dispatch e now peer key r (data_packet p) = receive_data e now peer key p
dispatch e now peer key none (grant_packet p) = e
dispatch e now peer key (some r) (grant_packet p) = receive_grant e r p
dispatch e now peer key none (resend_packet p) =
    if ltb 7 p.priority then e else (control e key rpc_unknown_type).0
dispatch e now peer key (some r) (resend_packet p) =
    if ltb 7 p.priority then e else receive_resend e r p
dispatch e now peer key none (rpc_unknown_packet h) = e
dispatch e now peer key (some r) (rpc_unknown_packet h) = receive_unknown e peer.ip r
dispatch e now peer key r (busy_packet h) = e
dispatch e now peer key r (need_ack_packet h) =
    if is_server key.id then e else receive_need_ack e peer key r
dispatch e now peer key r (ack_packet p) = if is_server key.id then receive_ack e peer.ip r p else e
dispatch e now peer key r (cutoffs_packet p) = receive_cutoffs e peer.ip p
dispatch e now peer key r (freeze_packet h) = e
dispatch e now peer key r (common_packet h) = e
dispatch e now peer key r (other h) = e

-- DATA, GRANT and BUSY of a known RPC show that its peer is alive.
unfoldable pub touch : Endpoint → ℕ → ℕ → Option Rpc → Endpoint × Option Rpc
touch e now type none = (e, none)
touch e now type (some r) =
    if type == data_type || type == grant_type || type == busy_type
    then (let r' = record r { last = now } in (store e r', some r'))
    else (e, some r)

abbrev pub is_foreign : Endpoint → Ip → Common → Bool
is_foreign e ip h =
    not (is_v4 ip)
    || is_unspecified ip
    || is_multicast ip
    || not (h.destination_port == e.local.port)
    || h.source_port == 0
    || h.sender_id == 0

unfoldable pub receive : Endpoint → ℕ → Ip → Packet → Endpoint
receive e now ip p =
    let h = header p in
    let peer : Addr = record { ip = ip; port = h.source_port } in
    let key : Key = record { peer = peer; id = local_id h.sender_id } in
    if is_foreign e ip h
    then e
    else (let (e', r) = touch e now h.type (lookup key e.rpcs) in dispatch e' now peer key r p)
