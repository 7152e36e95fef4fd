-- ===== src/Endpoint/Grants.antt =====
-- endpoint.go: `requestMissing` and the receiver's `schedule`, shortest remaining message first.
pub mod Gaps
pub mod Sorted
pub mod Rank
pub mod Order
use mac_homa.Common.{
  ℕ, zero, suc, ◌+◌, ◌-◌, ◌%◌, ◌^◌, min, ltb, leb, ◌==◌, Bool, true, false, ◌&&◌, ◌||◌,
  if◌then◌else◌, List, [], ◌∷◌, Option, none, some, length,
}
use mac_homa.Wire.{resend_packet, grant_packet, resend_type, grant_type, resend_all}
use mac_homa.Endpoint.{Rpc, Assembly, Endpoint}
use mac_homa.Endpoint.Table.{lookup}
use mac_homa.Endpoint.Reassembly.{has_byte}
use mac_homa.Endpoint.Send.{common, send, store}

-- The first byte from `at` on that has arrived, or the end, for `rounds` = end - at.
unfoldable pub missing_end : ℕ → List ℕ → ℕ → ℕ
missing_end zero bits at = at
missing_end (suc rounds) bits at = elim (has_byte bits at) [
  | true ↦ at
  | false ↦ missing_end rounds bits (suc at)
]

unfoldable pub send_resend : Endpoint → Rpc → ℕ → ℕ → Endpoint
send_resend e r offset len =
    (send e r.key.peer
      (resend_packet (record {
        common = common e r.key resend_type;
        offset = offset % 2 ^ 32;
        length = len;
        priority = 7;
      }))
      7).0

unfoldable pub request_gap : Endpoint → Rpc → Assembly → Endpoint
request_gap e r a =
    let end = missing_end (min a.granted (length a.payload) - a.contiguous) a.bits a.contiguous in
    if leb (min a.granted (length a.payload)) a.contiguous || leb end a.contiguous
    then e
    else send_resend e r a.contiguous ((end - a.contiguous) % 2 ^ 32)

unfoldable pub request_missing : Endpoint → Rpc → Endpoint
request_missing e r = elim r.rx [ none ↦ send_resend e r 0 resend_all | some a ↦ request_gap e r a ]

-- A message that is not complete and not wholly granted, with its remaining bytes.
unfoldable pub candidate : Rpc → Option (ℕ × Rpc)
candidate r = elim r.rx [
  | none ↦ none
  | some a ↦
      if ltb a.count (length a.payload) && ltb a.granted (length a.payload)
      then some (length a.payload - a.count, r)
      else none
]

-- The `less` of sort.Slice.
unfoldable pub less : ℕ × Rpc → ℕ × Rpc → Bool
less (m, r) (n, s) = if m == n then ltb r.key.id s.key.id else ltb m n

unfoldable pub insert : ℕ × Rpc → List (ℕ × Rpc) → List (ℕ × Rpc)
insert c [] = c ∷ []
insert c (d ∷ ds) = if less d c then d ∷ insert c ds else c ∷ d ∷ ds

-- The candidates, sorted.
unfoldable pub candidates : List Rpc → List (ℕ × Rpc)
candidates [] = []
candidates (r ∷ rs) =
    let rest = candidates rs in elim (candidate r) [ none ↦ rest | some c ↦ insert c rest ]

unfoldable pub send_grant : Endpoint → Rpc → ℕ → ℕ → Endpoint
send_grant e r offset rank =
    (send e r.key.peer
      (grant_packet (record {
        common = common e r.key grant_type;
        offset = offset % 2 ^ 32;
        priority = 3 - rank;
      }))
      7).0

-- `min(len(a.data), a.count+e.cfg.GrantWindow)`
unfoldable pub grant_end : ℕ → Assembly → ℕ
grant_end window a = min (length a.payload) (a.count + window)

unfoldable pub grant_to_end : Endpoint → Rpc → Assembly → ℕ → Endpoint
grant_to_end e r a rank =
    let end = grant_end e.cfg.grant_window a in
    if leb end a.granted
    then e
    else (let r' = record r { rx = some (record a { granted = end }) } in
        send_grant (store e r') r' end rank)

-- The RPC as the table has it when the loop comes to it.
unfoldable pub grant_one : Endpoint → Option Rpc → ℕ → Endpoint
grant_one e none rank = e
grant_one e (some r) rank = elim r.rx [ none ↦ e | some a ↦ grant_to_end e r a rank ]

unfoldable pub grant_loop : List (ℕ × Rpc) → ℕ → Endpoint → Endpoint
grant_loop [] rank e = e
grant_loop ((n, r) ∷ cs) rank e =
    let rest = grant_loop cs (suc rank) (grant_one e (lookup r.key e.rpcs) rank) in
    if leb e.cfg.overcommit rank then e else rest

unfoldable pub schedule : Endpoint → Endpoint
schedule e = grant_loop (candidates e.rpcs) 0 e
