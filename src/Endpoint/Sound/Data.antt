-- ===== src/Endpoint/Sound/Data.antt =====
-- The invariant through `data`: offered cutoffs, a new RPC, its assembly, each segment, and the
-- completed message.
use mac_homa.Common.{
  ℕ, zero, suc, ◌+◌, ◌-◌, ◌/◌, ◌≤◌, ◌<◌, ◌≡◌, refl, ◌∙◌, subst, max, true, false, not, ◌&&◌, ◌||◌,
  ◌==◌, ltb, leb, List, [], ◌∷◌, none, some, length, length-replicate, length-set, arith, inl, inr,
  Bool-cases, Option-cases,
}
use mac_homa.Wire
use mac_homa.Wire.{Data, AckRecord}
use mac_homa.Endpoint.{Addr, Key, Rpc, Assembly, Running, Endpoint, is_server}
use mac_homa.Endpoint.Table.{lookup, cost, held, rx_bytes}
use mac_homa.Endpoint.Table.Laws.{lookup-replace_self, eq_key_refl}
use mac_homa.Endpoint.Table.Runs.{Tied}
use mac_homa.Endpoint.Reassembly.{
  new_assembly, has_byte, mark, conflicts, accept_byte, accept, advance_loop, advance,
  insert_segment,
}
use mac_homa.Endpoint.Send.{store, reserve, send}
use mac_homa.Endpoint.Data.{
  count_invalid, empty_ack, wants_cutoffs, offer_cutoffs, take_reply, complete, take_segment,
  release_tx, begin_assembly, data_for, new_server_rpc, add_rpc, data_known, is_bad_data,
  receive_data,
}
use mac_homa.Endpoint.Sound.{IsSound, IsConsistent}
use mac_homa.Endpoint.Sound.Frame.{send-core}
use mac_homa.Endpoint.Sound.Updates.{updated, updated-IsSound, added-IsSound}
use mac_homa.Endpoint.Sound.Holds.{
  Holds, store-Holds, core-Holds, cost-le, remove-IsConsistent, finish-IsConsistent,
  if-IsConsistent, ack-IsConsistent, schedule-IsConsistent, start_handler-IsConsistent, found-Holds,
}

-- A segment leaves the sizes of the message and of its bitmap alone.
pub record SameSize (a b : Assembly) : Type 0 where
  pub payload : length b.payload ≡ length a.payload
  pub bits : length b.bits ≡ length a.bits

accept_byte-SameSize : (at x : ℕ) (a : Assembly) → SameSize a (accept_byte at x a)
unfolding accept_byte mark
accept_byte-SameSize at x a = elim (Bool-cases (has_byte a.bits at)) [
  | inl h ↦ rw h (record { payload = refl; bits = refl })
  | inr h ↦ rw h (record { payload = length-set a.payload at x; bits = length-set a.bits _ _ })
]

pub accept-SameSize : (xs : List ℕ) (at : ℕ) (a : Assembly) → SameSize a (accept xs at a)
unfolding accept
accept-SameSize [] at a = record { payload = refl; bits = refl }
accept-SameSize (x ∷ xs) at a =
    let one = accept_byte-SameSize at x a in
    let rest = accept-SameSize xs (suc at) (accept_byte at x a) in
    record { payload = rest.payload ∙ one.payload; bits = rest.bits ∙ one.bits }

advance_loop-SameSize : (n : ℕ) (a : Assembly) → SameSize a (advance_loop n a)
unfolding advance_loop
advance_loop-SameSize zero a = record { payload = refl; bits = refl }
advance_loop-SameSize (suc n) a =
    let rest = advance_loop-SameSize n (record a { contiguous = a.contiguous + 1 }) in
    elim (Bool-cases (ltb a.contiguous (length a.payload) && has_byte a.bits a.contiguous)) [
      | inl h ↦ rw (h, advance_loop) (record { payload = rest.payload; bits = rest.bits })
      | inr h ↦ rw (h, advance_loop) (record { payload = refl; bits = refl })
    ]

pub insert_segment-SameSize :
    (a b : Assembly) (start : ℕ) (xs : List ℕ) (incoming : ℕ)
    → insert_segment a start xs incoming ≡ some b
    → SameSize a b
unfolding insert_segment advance
insert_segment-SameSize a b start xs incoming e =
    let accepted = accept xs start a in
    let granted : Assembly = record accepted { granted = max accepted.granted incoming } in
    let one = accept-SameSize xs start a in
    let rest = advance_loop-SameSize (length granted.payload) granted in
    elim (Bool-cases (conflicts xs start a)) [
      | inl h ↦ ground arith
      | inr h ↦
          let same : advance_loop (length granted.payload) granted ≡ b = ground arith in
          subst (SameSize a) same
            (record { payload = rest.payload ∙ one.payload; bits = rest.bits ∙ one.bits })
    ]

count_invalid-IsConsistent : (e : Endpoint) → IsConsistent e → IsConsistent (count_invalid e)
unfolding count_invalid
count_invalid-IsConsistent e v = record { core = v.core }

-- `offer_cutoffs` keeps hold of the RPC, and changes neither its assembly nor its state.
pub record Offered (e : Endpoint) (r : Rpc) (out : Endpoint × Rpc) : Type 0 where
  pub holds : Holds out.0 out.1
  pub rx : out.1.rx ≡ r.rx
  pub id : out.1.key ≡ r.key

offer_cutoffs-Offered :
    (e : Endpoint) (now : ℕ) (peer : Addr) (r : Rpc) (version : ℕ)
    → Holds e r
    → Offered e r (offer_cutoffs e now peer r version)
unfolding offer_cutoffs
offer_cutoffs-Offered e now peer r version h =
    let r' = record r { last_cutoff = some now } in
    elim (Bool-cases (wants_cutoffs e now r version)) [
      | inl w ↦ rw w (record {
        holds = core-Holds (send-core (store e r') peer _ 7) (
            store-Holds {s = r'} h
              (record { key = refl; ptr = refl; tx = refl; handling = refl; rx = refl }));
        rx = refl;
        id = refl;
      })
      | inr w ↦ rw w (record { holds = h; rx = refl; id = refl })
    ]

-- The reply that its caller takes, and the RPC that is left of it.
abbrev emptied : Rpc → Assembly → Rpc
emptied r a = record r { rx = some (record a { payload = [] }) }

emptied-cost :
    (r : Rpc) (a : Assembly) → r.rx ≡ some a → cost r ≡ cost (emptied r a) + length a.payload
unfolding cost rx_bytes
emptied-cost r a h = ground arith

emptied-IsSound :
    (e : Endpoint) (r : Rpc) (a : Assembly)
    → Holds e r
    → r.rx ≡ some a
    → IsSound (updated e.core (emptied r a) (e.buffered_bytes - length a.payload))
emptied-IsSound e r a h rx =
    updated-IsSound e.core r (emptied r a) (e.buffered_bytes - length a.payload) h.sound.core
      h.current (λ t. t) refl (λ q. q) (omega (arith, cost-le e r h, emptied-cost r a rx))
      (omega (arith, h.sound.core.within))

take_reply-IsConsistent :
    (e : Endpoint) (r : Rpc) (a : Assembly)
    → Holds e r
    → r.rx ≡ some a
    → IsConsistent (take_reply e r a)
unfolding take_reply store
take_reply-IsConsistent e r a h rx = record { core = emptied-IsSound e r a h rx }

complete-IsConsistent :
    (e : Endpoint) (now : ℕ) (peer : Addr) (r : Rpc) (a : Assembly)
    → Holds e r
    → r.rx ≡ some a
    → IsConsistent (complete e now peer r a)
unfolding complete
complete-IsConsistent e now peer r a h rx =
    let r' = record r { received = true } in
    let stored : Holds (store e r') r' =
      store-Holds {s = r'} h
        (record { key = refl; ptr = refl; tx = refl; handling = refl; rx = refl }) in
    let sent = (send (store e r') peer (empty_ack (store e r') r.key) 7).0 in
    let held : Holds sent r' = core-Holds (send-core (store e r') peer _ 7) stored in
    if-IsConsistent (is_server r.key.id) _ _
      (λ server. schedule-IsConsistent _ (start_handler-IsConsistent _ now r' stored server))
      (λ client.
        finish-IsConsistent _ r.key r.ptr a.payload none
          (take_reply-IsConsistent sent r' a held rx))

take_segment-IsConsistent :
    (e : Endpoint) (now : ℕ) (peer : Addr) (r : Rpc) (a : Assembly) (p : Data)
    → Holds e r
    → r.rx ≡ some a
    → IsConsistent (take_segment e now peer r a p)
unfolding take_segment
take_segment-IsConsistent e now peer r a p h rx =
    let out = insert_segment a (Wire.effective_offset p) p.payload p.incoming in
    if-IsConsistent (not (length a.payload == p.message_length)) _ _
      (λ _. count_invalid-IsConsistent e h.sound)
      (λ _. elim (Option-cases out) [
        | inl n ↦ rw (n, take_segment) (count_invalid-IsConsistent e h.sound)
        | inr (a', s) ↦
            let sizes = insert_segment-SameSize a a' _ p.payload p.incoming s in
            let r' : Rpc = record r { rx = some a' } in
            let same : rx_bytes (some a') ≡ rx_bytes r.rx =
              unfold rx_bytes in rw rx (omega (arith, sizes.payload, sizes.bits)) in
            let held : Holds (store e r') r' =
              store-Holds {s = r'} h
                (record { key = refl; ptr = refl; tx = refl; handling = refl; rx = same }) in
            rw (s, take_segment)
              (if-IsConsistent (not (a'.count == length a'.payload)) _ _
                (λ _. schedule-IsConsistent (store e r') held.sound)
                (λ _. complete-IsConsistent (store e r') now peer r' a' held refl))
      ])

pub reserve_fits :
    (e : Endpoint) (n : ℕ)
    → IsConsistent e
    → ltb (e.cfg.max_buffered_bytes - e.buffered_bytes) n ≡ false
    → e.buffered_bytes + n ≤ e.cfg.max_buffered_bytes
reserve_fits e n v h = let w = v.core.within in ground arith

new_assembly-bytes : (n incoming : ℕ) → rx_bytes (some (new_assembly n incoming)) ≡ n + (n + 7) / 8
unfolding rx_bytes new_assembly
new_assembly-bytes n incoming =
    let zero_byte : ℕ = 0 in
    omega (arith, length-replicate n zero_byte, length-replicate ((n + 7) / 8) zero_byte)

server_account :
    (r : Rpc) (a : Assembly)
    → r.rx ≡ none
    → cost (record r { rx = some a }) ≡ cost r + rx_bytes (some a)
unfolding cost rx_bytes
server_account r a h = ground arith

client_account :
    (r : Rpc) (a : Assembly)
    → r.rx ≡ none
    → cost (record r { rx = some a; tx = [] }) + length r.tx ≡ cost r + rx_bytes (some a)
unfolding cost rx_bytes
client_account r a h = ground arith

tx-le-cost : (r : Rpc) → length r.tx ≤ cost r
unfolding cost
tx-le-cost r = omega arith

emptied-Tied :
    (gs : List Running) (r s : Rpc)
    → s.key ≡ r.key
    → s.ptr ≡ r.ptr
    → s.tx ≡ []
    → s.handling ≡ r.handling
    → Tied gs r
    → Tied gs s
emptied-Tied gs r s k p t g (inl h) = inl (rw (k, p) h)
emptied-Tied gs r s k p t g (inr h) = inr (t, g ∙ h.1)

no_cost : (r : Rpc) → r.tx ≡ [] → r.rx ≡ none → cost r ≡ 0
unfolding cost rx_bytes
no_cost r tx rx = ground arith

room_for :
    (e : Endpoint) (key : Key)
    → (not (is_server key.id) || not e.has_handler || leb e.cfg.max_rpcs (length e.rpcs)) ≡ false
    → length e.rpcs < e.cfg.max_rpcs
room_for e key h = ground arith

-- The account when an assembly begins: its bytes come on, and a client's request goes off.
module _ (e : Endpoint) (r : Rpc) (a : Assembly) (n : ℕ) where
  abbrev pub charged : Endpoint
  charged = record e { core = record e.core { buffered_bytes = e.buffered_bytes + n } }

  release_tx-Holds :
      Holds e r
      → r.rx ≡ none
      → rx_bytes (some a) ≡ n
      → e.buffered_bytes + n ≤ e.cfg.max_buffered_bytes
      → let out = release_tx charged r a in Holds out.0 out.1 × (out.1.rx ≡ some a)
  unfolding release_tx store
  release_tx-Holds h empty size fits = elim (Bool-cases (is_server r.key.id)) [
    | inl server ↦
        let s : Rpc = record r { rx = some a } in
        rw server (
          record {
            sound = record {
              core =
                  updated-IsSound e.core r s (e.buffered_bytes + n) h.sound.core h.current (λ t. t)
                    refl (λ q. q) (omega (arith, server_account r a empty, size)) fits;
            };
            current = lookup-replace_self s r e.rpcs h.current;
          },
          refl,
        )
    | inr client ↦
        let s : Rpc = record r { rx = some a; tx = [] } in
        rw client (
          record {
            sound = record {
              core =
                  updated-IsSound e.core r s (e.buffered_bytes + n - length r.tx) h.sound.core
                    h.current (emptied-Tied e.handlers r s refl refl refl refl) refl
                    (λ q. inl client)
                    (omega (arith, client_account r a empty, size, cost-le e r h, tx-le-cost r))
                    (omega arith);
            };
            current = lookup-replace_self s r e.rpcs h.current;
          },
          refl,
        )
  ]

begin_assembly-IsConsistent :
    (e : Endpoint) (now : ℕ) (peer : Addr) (r : Rpc) (p : Data)
    → Holds e r
    → r.rx ≡ none
    → IsConsistent (begin_assembly e now peer r p)
unfolding begin_assembly reserve
begin_assembly-IsConsistent e now peer r p h empty =
    let n = p.message_length in
    let n' = n + (n + 7) / 8 in
    let a = new_assembly n p.incoming in
    elim (Bool-cases (ltb (e.cfg.max_buffered_bytes - e.buffered_bytes) n')) [
      | inl full ↦ rw full (
          if-IsConsistent (is_server r.key.id) _ _ (λ _. remove-IsConsistent e r.key r.ptr h.sound)
            (λ _. h.sound))
      | inr fits ↦
          let (held, rx) =
            release_tx-Holds e r a n' h empty (new_assembly-bytes n p.incoming)
              (reserve_fits e n' h.sound fits) in
          rw fits (
            take_segment-IsConsistent (release_tx (charged e r a n') r a).0 now peer
              (release_tx (charged e r a n') r a).1 a p held rx)
    ]

data_for-IsConsistent :
    (e : Endpoint) (now : ℕ) (peer : Addr) (r : Rpc) (p : Data)
    → Holds e r
    → IsConsistent (data_for e now peer r p)
unfolding data_for
data_for-IsConsistent e now peer r p h =
    let out = offer_cutoffs e now peer r p.cutoff_version in
    let o = offer_cutoffs-Offered e now peer r p.cutoff_version h in
    if-IsConsistent out.1.received _ _ (λ _. o.holds.sound)
      (λ _. elim (Option-cases out.1.rx) [
        | inl n ↦ rw (n, data_for) (begin_assembly-IsConsistent out.0 now peer out.1 p o.holds n)
        | inr (a, s) ↦
            rw (s, data_for) (take_segment-IsConsistent out.0 now peer out.1 a p o.holds s)
      ])

add_rpc-Holds :
    (e : Endpoint) (r : Rpc)
    → IsConsistent e
    → lookup r.key e.rpcs ≡ none
    → r.ptr ≡ e.next_ptr
    → length e.rpcs < e.cfg.max_rpcs
    → r.tx ≡ []
    → r.rx ≡ none
    → Holds (add_rpc e r) r
unfolding add_rpc lookup
add_rpc-Holds e r v free new room tx rx =
    let nothing : cost r ≡ 0 = no_cost r tx rx in
    record {
      sound = record {
        core =
            added-IsSound e.core r e.buffered_bytes v.core free new room (inr (inr tx))
              (omega arith) v.core.within;
      };
      current = rw (eq_key_refl r.key);
    }

pub data_known-IsConsistent :
    (e : Endpoint) (now : ℕ) (peer : Addr) (key : Key) (p : Data)
    → IsConsistent e
    → IsConsistent (data_known e now peer key p)
unfolding data_known
data_known-IsConsistent e now peer key p v = elim (Option-cases (lookup key e.rpcs)) [
  | inr (r, f) ↦ rw (f, data_known) (data_for-IsConsistent e now peer r p (found-Holds e key r v f))
  | inl f ↦
      let r = new_server_rpc e now key in
      rw (f, data_known)
        (if-IsConsistent
          (not (is_server key.id) || not e.has_handler || leb e.cfg.max_rpcs (length e.rpcs)) _ _
          (λ _. v)
          (λ room.
            data_for-IsConsistent (add_rpc e r) now peer r p (
              unfold new_server_rpc in add_rpc-Holds e r v f refl (room_for e key room) refl refl)))
]

pub receive_data-IsConsistent :
    (e : Endpoint) (now : ℕ) (peer : Addr) (key : Key) (p : Data)
    → IsConsistent e
    → IsConsistent (receive_data e now peer key p)
unfolding receive_data
receive_data-IsConsistent e now peer key p v =
    if-IsConsistent (is_bad_data e p) _ _ (λ _. count_invalid-IsConsistent e v)
      (λ _. data_known-IsConsistent _ now peer key p (ack-IsConsistent e peer.ip p.ack v))
