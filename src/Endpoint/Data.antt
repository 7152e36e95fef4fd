-- ===== src/Endpoint/Data.antt =====
-- endpoint.go, `data`: a DATA packet, from the bounds check to the reply, the completed call or the
-- handler.
use mac_homa.Common.{
  ℕ, ◌+◌, ◌-◌, ◌/◌, ◌%◌, ◌^◌, ◌==◌, ltb, leb, Bool, true, false, not, ◌&&◌, ◌||◌, if◌then◌else◌, [],
  ◌∷◌, none, some, length,
}
use mac_homa.Wire.{
  Data, AckRecord, Packet, ack_packet, cutoffs_packet, ack_type, cutoffs_type, validate_bounds,
  effective_offset,
}
use mac_homa.Endpoint.{Addr, Key, Rpc, Assembly, Endpoint, default_cutoffs, is_server}
use mac_homa.Endpoint.Table.{lookup, delete}
use mac_homa.Endpoint.Reassembly.{new_assembly, insert_segment}
use mac_homa.Endpoint.Send.{common, send, store, reserve}
use mac_homa.Endpoint.Remove.{ack, remove, finish}
use mac_homa.Endpoint.Grants.{schedule}
use mac_homa.Endpoint.Handlers.{start_handler}

unfoldable pub count_invalid : Endpoint → Endpoint
count_invalid e = record e {
  stats = record e.stats { invalid_packets = e.stats.invalid_packets + 1 };
}

abbrev pub no_ack : AckRecord
no_ack = record { client_id = 0; server_port = 0 }

-- wire.Ack{Common: e.common(r, wire.AckType)}
unfoldable pub empty_ack : Endpoint → Key → Packet
empty_ack e key = ack_packet (record {
  common = common e key ack_type;
  num_acks = 0;
  acks = record { ack0 = no_ack; ack1 = no_ack; ack2 = no_ack; ack3 = no_ack; ack4 = no_ack };
})

-- `p.CutoffVersion != 1 && time.Since(r.lastCutoff) >= e.cfg.RetryInterval`
abbrev pub wants_cutoffs : Endpoint → ℕ → Rpc → ℕ → Bool
wants_cutoffs e now r version =
    not (version == 1)
    && elim r.last_cutoff [ none ↦ true | some t ↦ leb e.cfg.retry_interval (now - t) ]

unfoldable pub offer_cutoffs : Endpoint → ℕ → Addr → Rpc → ℕ → Endpoint × Rpc
offer_cutoffs e now peer r version =
    if wants_cutoffs e now r version
    then (let r' = record r { last_cutoff = some now } in
        (
          (send (store e r') peer
              (cutoffs_packet (record {
                common = common e r.key cutoffs_type;
                unscheduled_cutoffs = default_cutoffs;
                cutoff_version = 1;
              }))
              7).0,
          r',
        ))
    else (e, r)

-- The reply leaves the assembly and the account, and the call counts as completed.
unfoldable pub take_reply : Endpoint → Rpc → Assembly → Endpoint
take_reply e r a =
    let e' = store e (record r { rx = some (record a { payload = [] }) }) in
    record e' {
      core = record e'.core { buffered_bytes = e'.buffered_bytes - length a.payload };
      stats = record e'.stats { completed_calls = e'.stats.completed_calls + 1 };
    }

-- The message is whole: a reply completes its call, a request goes to a handler.
unfoldable pub complete : Endpoint → ℕ → Addr → Rpc → Assembly → Endpoint
complete e now peer r a =
    let r' = record r { received = true } in
    let stored = store e r' in
    if is_server r.key.id
    then schedule (start_handler stored now r')
    else (let sent = (send stored peer (empty_ack stored r.key) 7).0 in
        finish (take_reply sent r' a) r.key r.ptr a.payload none)

-- A segment for the assembly `a` of `r`.
unfoldable pub take_segment : Endpoint → ℕ → Addr → Rpc → Assembly → Data → Endpoint
take_segment e now peer r a p =
    if not (length a.payload == p.message_length)
    then count_invalid e
    else elim (insert_segment a (effective_offset p) p.payload p.incoming) [
      | none ↦ count_invalid e
      | some a' ↦
          let r' = record r { rx = some a' } in
          let stored = store e r' in
          if not (a'.count == length a'.payload)
          then schedule stored
          else complete stored now peer r' a'
    ]

-- A client's request is given up for the reply that has begun.
unfoldable pub release_tx : Endpoint → Rpc → Assembly → Endpoint × Rpc
release_tx e r a =
    if is_server r.key.id
    then (let r' = record r { rx = some a } in (store e r', r'))
    else (let r' = record r { rx = some a; tx = [] } in
        let e' = store e r' in
        (
          record e' { core = record e'.core { buffered_bytes = e'.buffered_bytes - length r.tx } },
          r',
        ))

unfoldable pub begin_assembly : Endpoint → ℕ → Addr → Rpc → Data → Endpoint
begin_assembly e now peer r p =
    let n = p.message_length in
    let (e', reserved) = reserve e (n + (n + 7) / 8) in
    if reserved
    then (let a = new_assembly n p.incoming in
        let (e'', r') = release_tx e' r a in take_segment e'' now peer r' a p)
    else if is_server r.key.id
    then remove e' r.key r.ptr
    else e'

unfoldable pub data_for : Endpoint → ℕ → Addr → Rpc → Data → Endpoint
data_for e now peer r p =
    let (e', r') = offer_cutoffs e now peer r p.cutoff_version in
    if r'.received then e' else elim r'.rx [
      | none ↦ begin_assembly e' now peer r' p
      | some a ↦ take_segment e' now peer r' a p
    ]

-- The RPC of a request that is not known yet.
unfoldable pub new_server_rpc : Endpoint → ℕ → Key → Rpc
new_server_rpc e now key = record {
  ptr = e.next_ptr;
  key = key;
  tx = [];
  sent = 0;
  granted = 0;
  priority = 0;
  rx = none;
  received = false;
  handling = false;
  deadline = now + e.cfg.timeout;
  last = now;
  last_cutoff = none;
  has_result = false;
}

-- `e.rpcs[r.key] = r`, for an RPC that has just been allocated.
unfoldable pub add_rpc : Endpoint → Rpc → Endpoint
add_rpc e r = record e {
  core = record e.core { rpcs = r ∷ delete r.key e.rpcs; next_ptr = e.next_ptr + 1 };
}

unfoldable pub data_known : Endpoint → ℕ → Addr → Key → Data → Endpoint
data_known e now peer key p = elim (lookup key e.rpcs) [
  | some r ↦ data_for e now peer r p
  | none ↦
      if not (is_server key.id) || not e.has_handler || leb e.cfg.max_rpcs (length e.rpcs)
      then e
      else (let r = new_server_rpc e now key in data_for (add_rpc e r) now peer r p)
]

abbrev pub is_bad_data : Endpoint → Data → Bool
is_bad_data e p =
    elim (validate_bounds p (e.cfg.max_message_size % 2 ^ 32)) [ none ↦ false | some _ ↦ true ]
    || length p.payload == 0
    || ltb p.message_length p.incoming

unfoldable pub receive_data : Endpoint → ℕ → Addr → Key → Data → Endpoint
receive_data e now peer key p =
    if is_bad_data e p then count_invalid e else data_known (ack e peer.ip p.ack) now peer key p
