-- ===== src/Relay/Acks.antt =====
-- The set of acknowledged RPCs: even IDs that are not 0, none twice, 1024 at most.
use mac_homa.Common.{
  ℕ, zero, suc, ◌+◌, ◌*◌, ◌%◌, ◌≤◌, ◌≡◌, ◌≢◌, ◌==◌, ltb, Bool, true, false, not, ◌&&◌, ◌||◌,
  if◌then◌else◌, List, [], ◌∷◌, length, arith, Bool-cases, inl, inr, All, subst,
}
use mac_homa.Wire.{ok}
use mac_homa.Wire.Bytes.{byte_at, read_u16, read_u64}
use mac_homa.Wire.Bytes.Total.{bind-ok}
use mac_homa.Relay.State.{
  has_key, add_ack, note_records, note_ack_packet, note_data, note_acks, State, lan_end,
}

abbrev IsClient : ℕ → Type 0
IsClient id = (id ≢ 0) × (id % 2 ≡ 0)

abbrev IsDistinct : List ℕ → Type 0
IsDistinct [] = Unit {0}
IsDistinct (x ∷ xs) = (has_key x xs ≡ false) × IsDistinct xs

pub record IsAckSet (acks : List ℕ) : Type 0 where
  pub clients : All IsClient acks
  pub distinct : IsDistinct acks
  pub bounded : length acks ≤ 1024

add_ack-IsAckSet : (id : ℕ) (acks : List ℕ) → IsAckSet acks → IsAckSet (add_ack id acks)
unfolding add_ack
add_ack-IsAckSet id acks v =
    elim (Bool-cases (not (id == 0) && id % 2 == 0 && ltb (length acks) 1024)) [
      | inr out ↦ rw out v
      | inl fits ↦ elim (Bool-cases (has_key id acks)) [
        | inl old ↦ rw (fits, old) v
        | inr new ↦
            rw (fits, new)
              (record {
                clients = ((ground arith, ground arith), v.clients);
                distinct = (new, v.distinct);
                bounded = ground arith;
              })
      ]
    ]

if-IsAckSet : (c : Bool) (a b : List ℕ) → IsAckSet a → IsAckSet b → IsAckSet (if c then a else b)
if-IsAckSet true a b v w = v
if-IsAckSet false a b v w = w

note_records-IsAckSet :
    (rounds i : ℕ) (p acks out : List ℕ)
    → IsAckSet acks
    → note_records rounds i p acks ≡ ok out
    → IsAckSet out
unfolding note_records
note_records-IsAckSet zero i p acks out v h = let e : acks ≡ out = cc h in subst IsAckSet e v
note_records-IsAckSet (suc rounds) i p acks out v h =
    let (port, ep, h1) = bind-ok (read_u16 p (30 + i * 10 + 8)) _ h in
    let (id, ei, h2) = bind-ok (read_u64 p (30 + i * 10)) _ h1 in
    note_records-IsAckSet rounds (suc i) p _ out
      (if-IsAckSet (port == 4000) (add_ack id acks) acks (add_ack-IsAckSet id acks v) v) h2

note_ack_packet-IsAckSet :
    (p acks out : List ℕ) → IsAckSet acks → note_ack_packet p acks ≡ ok out → IsAckSet out
unfolding note_ack_packet
note_ack_packet-IsAckSet p acks out v h =
    let (sender, es, h1) = bind-ok (read_u64 p 20) _ h in
    let (count, ec, h2) = bind-ok (read_u16 p 28) _ h1 in
    let noted = add_ack-IsAckSet sender acks v in
    elim (Bool-cases (ltb 5 count)) [
      | inl many ↦
          let h3 : ok (add_ack sender acks) ≡ ok out = rw many at h2 in
          let e : add_ack sender acks ≡ out = cc h3 in subst IsAckSet e noted
      | inr few ↦ note_records-IsAckSet count 0 p _ out noted (rw few at h2)
    ]

note_data-IsAckSet :
    (p acks out : List ℕ) → IsAckSet acks → note_data p acks ≡ ok out → IsAckSet out
unfolding note_data
note_data-IsAckSet p acks out v h =
    let (port, ep, h1) = bind-ok (read_u16 p 44) _ h in
    let (id, ei, h2) = bind-ok (read_u64 p 36) _ h1 in
    let e : (if port == 4000 then add_ack id acks else acks) ≡ out = cc h2 in
    subst IsAckSet e (if-IsAckSet (port == 4000) _ _ (add_ack-IsAckSet id acks v) v)

note_acks-IsAckSet :
    (p acks out : List ℕ) → IsAckSet acks → note_acks p acks ≡ ok out → IsAckSet out
unfolding note_acks
note_acks-IsAckSet p acks out v h =
    let (src, es, h1) = bind-ok (read_u16 p 0) _ h in
    let (dst, ed, h2) = bind-ok (read_u16 p 2) _ h1 in
    elim (Bool-cases (not (src == 4003) || not (dst == 4000))) [
      | inl other ↦
          let h3 : ok acks ≡ ok out = rw other at h2 in
          let e : acks ≡ out = cc h3 in subst IsAckSet e v
      | inr ours ↦
          let (type, et, h3) = bind-ok (byte_at p 11) _ (rw ours at h2) in
          elim (Bool-cases (type == 0x18)) [
            | inl ack ↦ note_ack_packet-IsAckSet p acks out v (rw ack at h3)
            | inr no_ack ↦ elim (Bool-cases (type == 0x10)) [
              | inl segment ↦ note_data-IsAckSet p acks out v (rw (no_ack, segment) at h3)
              | inr none' ↦
                  let h4 : ok acks ≡ ok out = rw (no_ack, none') at h3 in
                  let e : acks ≡ out = cc h4 in subst IsAckSet e v
            ]
          ]
    ]

-- A relayed packet, whatever it holds, leaves the set of acknowledged RPCs one of even IDs that are
-- not 0, with none twice and 1024 at most.
pub lan_end-IsAckSet :
    (s t : State) (p : List ℕ) (tos : ℕ)
    → IsAckSet s.acks
    → lan_end s p tos ≡ ok t
    → IsAckSet t.acks
unfolding lan_end
lan_end-IsAckSet s t p tos v h =
    let (acks, e, rest) = bind-ok (note_acks p s.acks) _ h in
    let same : acks ≡ t.acks = cc rest in subst IsAckSet same (note_acks-IsAckSet p s.acks acks v e)
