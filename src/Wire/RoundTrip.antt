-- ===== src/Wire/RoundTrip.antt =====
-- `Parse` after `Marshal`: what the receiver reads is what the sender wrote.
use mac_homa.Common.{
  ℕ, ◌≤◌, ◌≡◌, refl, ap, ◌∙◌, ◌==◌, if◌then◌else◌, le→ltb-false, List, ◌++◌, length, arith,
}
use mac_homa.Wire.{
  Common, Data, Grant, Resend, Cutoffs, Ack, Packet, data_packet, grant_packet, resend_packet,
  rpc_unknown_packet, busy_packet, cutoffs_packet, freeze_packet, need_ack_packet, ack_packet,
  common_packet, other, ok, header, header_size, data_type, grant_type, resend_type,
  rpc_unknown_type, busy_type, cutoffs_type, freeze_type, need_ack_type, ack_type,
}
use mac_homa.Wire.Bytes.{byte_at, read_u16, read_u32, read_u64, read_three, slice_from}
use mac_homa.Wire.Marshal.{marshal}
use mac_homa.Wire.Parse.{
  parse_common, parse_ack, parse_data, parse_grant, parse_resend, parse_cutoffs, parse_acks,
  parse_body, parse_sized, parse,
}
use mac_homa.Wire.Valid.{IsCommon, IsData, IsPacket}
use mac_homa.Wire.Layout.{
  bytes_common, bytes_data_header, bytes_fields, layout, be_u16-bytes, be_u32-bytes, be_u64-bytes,
}
use mac_homa.Wire.Write.{IsAcceptable, marshal-eq-ok_iff}

parse_common-bytes :
    (h : Common) (rest : List ℕ) → IsCommon h → parse_common (bytes_common h ++ rest) ≡ ok h
unfolding parse_common byte_at read_u16 read_u32 read_u64 read_three
parse_common-bytes h rest v = λ i. ok (record {
  source_port = be_u16-bytes h.source_port v.source_port i;
  destination_port = be_u16-bytes h.destination_port v.destination_port i;
  sequence = be_u32-bytes h.sequence v.sequence i;
  ack_bytes = h.ack_bytes;
  type = h.type;
  data_offset = h.data_offset;
  flags = h.flags;
  window = be_u16-bytes h.window v.window i;
  checksum = be_u16-bytes h.checksum v.checksum i;
  urgent = be_u16-bytes h.urgent v.urgent i;
  sender_id = be_u64-bytes h.sender_id v.sender_id i;
})

parse_data-bytes :
    (p : Data) (rest : List ℕ)
    → IsData p
    → parse_data p.common (bytes_common p.common ++ (bytes_data_header p ++ (p.payload ++ rest)))
      ≡ ok (data_packet (record p { payload = p.payload ++ rest }))
unfolding parse_data parse_ack byte_at read_u16 read_u32 read_u64 read_three slice_from
parse_data-bytes p rest v = λ i. ok (
    data_packet (record {
      common = p.common;
      message_length = be_u32-bytes p.message_length v.message_length i;
      incoming = be_u32-bytes p.incoming v.incoming i;
      ack = record {
        client_id = be_u64-bytes p.ack.client_id v.ack.0 i;
        server_port = be_u16-bytes p.ack.server_port v.ack.1 i;
      };
      cutoff_version = be_u16-bytes p.cutoff_version v.cutoff_version i;
      retransmit = p.retransmit;
      padding = p.padding;
      segment_offset = be_u32-bytes p.segment_offset v.segment_offset i;
      payload = p.payload ++ rest;
    }))

parse_grant-bytes :
    (p : Grant) (rest : List ℕ)
    → IsPacket (grant_packet p)
    → parse_grant p.common (layout (grant_packet p) ++ rest) ≡ ok (grant_packet p)
unfolding parse_grant byte_at read_u32 layout header
parse_grant-bytes p rest v = λ i. ok (
    grant_packet
      (record { common = p.common; offset = be_u32-bytes p.offset v.1 i; priority = p.priority }))

parse_resend-bytes :
    (p : Resend) (rest : List ℕ)
    → IsPacket (resend_packet p)
    → parse_resend p.common (layout (resend_packet p) ++ rest) ≡ ok (resend_packet p)
unfolding parse_resend byte_at read_u32 layout header
parse_resend-bytes p rest v = λ i. ok (
    resend_packet (record {
      common = p.common;
      offset = be_u32-bytes p.offset v.1 i;
      length = be_u32-bytes p.length v.2 i;
      priority = p.priority;
    }))

parse_cutoffs-bytes :
    (p : Cutoffs) (rest : List ℕ)
    → IsPacket (cutoffs_packet p)
    → parse_cutoffs p.common (layout (cutoffs_packet p) ++ rest) ≡ ok (cutoffs_packet p)
unfolding parse_cutoffs byte_at read_u16 read_u32 layout header
parse_cutoffs-bytes p rest v =
    let c = p.unscheduled_cutoffs in
    λ i. ok (
      cutoffs_packet (record {
        common = p.common;
        unscheduled_cutoffs = record {
          at0 = be_u32-bytes c.at0 v.1.0 i;
          at1 = be_u32-bytes c.at1 v.1.1 i;
          at2 = be_u32-bytes c.at2 v.1.2 i;
          at3 = be_u32-bytes c.at3 v.1.3 i;
          at4 = be_u32-bytes c.at4 v.1.4 i;
          at5 = be_u32-bytes c.at5 v.1.5 i;
          at6 = be_u32-bytes c.at6 v.1.6 i;
          at7 = be_u32-bytes c.at7 v.1.7 i;
        };
        cutoff_version = be_u16-bytes p.cutoff_version v.2 i;
      }))

parse_acks-bytes :
    (p : Ack) (rest : List ℕ)
    → IsPacket (ack_packet p)
    → parse_acks p.common p.num_acks (layout (ack_packet p) ++ rest) ≡ ok (ack_packet p)
unfolding parse_acks parse_ack byte_at read_u16 read_u32 read_u64 layout header
parse_acks-bytes p rest v = λ i. ok (
    ack_packet (record {
      common = p.common;
      num_acks = p.num_acks;
      acks = record {
        ack0 = record {
          client_id = be_u64-bytes p.acks.ack0.client_id v.2.0.0 i;
          server_port = be_u16-bytes p.acks.ack0.server_port v.2.0.1 i;
        };
        ack1 = record {
          client_id = be_u64-bytes p.acks.ack1.client_id v.2.1.0 i;
          server_port = be_u16-bytes p.acks.ack1.server_port v.2.1.1 i;
        };
        ack2 = record {
          client_id = be_u64-bytes p.acks.ack2.client_id v.2.2.0 i;
          server_port = be_u16-bytes p.acks.ack2.server_port v.2.2.1 i;
        };
        ack3 = record {
          client_id = be_u64-bytes p.acks.ack3.client_id v.2.3.0 i;
          server_port = be_u16-bytes p.acks.ack3.server_port v.2.3.1 i;
        };
        ack4 = record {
          client_id = be_u64-bytes p.acks.ack4.client_id v.2.4.0 i;
          server_port = be_u16-bytes p.acks.ack4.server_port v.2.4.1 i;
        };
      };
    }))

-- What `Parse` makes of a written packet with bytes behind it: they join a DATA payload and are
-- dropped behind any other packet, and a CommonPacket comes back as the struct of its type.
abbrev pub received : Packet → List ℕ → Packet
received (data_packet p) rest = data_packet (record p { payload = p.payload ++ rest })
received (common_packet h) rest =
    if h.type == rpc_unknown_type
    then rpc_unknown_packet h
    else if h.type == busy_type
    then busy_packet h
    else if h.type == freeze_type
    then freeze_packet h
    else need_ack_packet h
received p rest = p

parse-header :
    (h : Common) (rest : List ℕ)
    → IsCommon h
    → parse (bytes_common h ++ rest) ≡ parse_sized h (bytes_common h ++ rest)
unfolding parse
parse-header h rest v =
    rw
      (le→ltb-false (length (bytes_common h ++ rest)) 28 (omega arith), parse_common-bytes h rest v)

-- The size check and the switch, for each type.
module _ (h : Common) (b : List ℕ) where
  sized_data : h.type ≡ data_type → 56 ≤ length b → parse_sized h b ≡ parse_data h b
  unfolding parse_sized parse_body header_size
  sized_data e n = ground arith

  sized_grant : h.type ≡ grant_type → 33 ≤ length b → parse_sized h b ≡ parse_grant h b
  unfolding parse_sized parse_body header_size
  sized_grant e n = ground arith

  sized_resend : h.type ≡ resend_type → 37 ≤ length b → parse_sized h b ≡ parse_resend h b
  unfolding parse_sized parse_body header_size
  sized_resend e n = ground arith

  sized_rpc_unknown :
      h.type ≡ rpc_unknown_type → 28 ≤ length b → parse_sized h b ≡ ok (rpc_unknown_packet h)
  unfolding parse_sized parse_body header_size
  sized_rpc_unknown e n = ground arith

  sized_busy : h.type ≡ busy_type → 28 ≤ length b → parse_sized h b ≡ ok (busy_packet h)
  unfolding parse_sized parse_body header_size
  sized_busy e n = ground arith

  sized_cutoffs : h.type ≡ cutoffs_type → 62 ≤ length b → parse_sized h b ≡ parse_cutoffs h b
  unfolding parse_sized parse_body header_size
  sized_cutoffs e n = ground arith

  sized_freeze : h.type ≡ freeze_type → 28 ≤ length b → parse_sized h b ≡ ok (freeze_packet h)
  unfolding parse_sized parse_body header_size
  sized_freeze e n = ground arith

  sized_need_ack : h.type ≡ need_ack_type → 28 ≤ length b → parse_sized h b ≡ ok (need_ack_packet h)
  unfolding parse_sized parse_body header_size
  sized_need_ack e n = ground arith

  sized_ack :
      {count : ℕ}
      → h.type ≡ ack_type
      → 80 ≤ length b
      → read_u16 b 28 ≡ ok count
      → count ≤ 5
      → parse_sized h b ≡ parse_acks h count b
  unfolding parse_sized parse_body header_size
  sized_ack e n r c = ground arith

num_acks-bytes :
    (p : Ack) (rest : List ℕ)
    → IsPacket (ack_packet p)
    → read_u16 (layout (ack_packet p) ++ rest) 28 ≡ ok p.num_acks
unfolding read_u16 byte_at layout header
num_acks-bytes p rest v = ap ok (be_u16-bytes p.num_acks v.1)

data_regroup :
    (p : Data) (rest : List ℕ)
    → layout (data_packet p) ++ rest
      ≡ bytes_common p.common ++ (bytes_data_header p ++ (p.payload ++ rest))
unfolding layout header
data_regroup p rest = refl

parse-layout-sized :
    (p : Packet) (rest : List ℕ)
    → IsPacket p
    → IsAcceptable p
    → parse_sized (header p) (layout p ++ rest) ≡ ok (received p rest)
unfolding header
parse-layout-sized (data_packet p) rest v a = rw (data_regroup p rest) (
    sized_data p.common (bytes_common p.common ++ (bytes_data_header p ++ (p.payload ++ rest))) a.0
      (omega arith)
    ∙ parse_data-bytes p rest v)
parse-layout-sized (grant_packet p) rest v a =
    sized_grant p.common (layout (grant_packet p) ++ rest) a (unfold layout in omega arith)
    ∙ parse_grant-bytes p rest v
parse-layout-sized (resend_packet p) rest v a =
    sized_resend p.common (layout (resend_packet p) ++ rest) a (unfold layout in omega arith)
    ∙ parse_resend-bytes p rest v
parse-layout-sized (rpc_unknown_packet h) rest v a =
    sized_rpc_unknown h (layout (rpc_unknown_packet h) ++ rest) a (unfold layout in omega arith)
parse-layout-sized (busy_packet h) rest v a =
    sized_busy h (layout (busy_packet h) ++ rest) a (unfold layout in omega arith)
parse-layout-sized (cutoffs_packet p) rest v a =
    sized_cutoffs p.common (layout (cutoffs_packet p) ++ rest) a (unfold layout in omega arith)
    ∙ parse_cutoffs-bytes p rest v
parse-layout-sized (freeze_packet h) rest v a =
    sized_freeze h (layout (freeze_packet h) ++ rest) a (unfold layout in omega arith)
parse-layout-sized (need_ack_packet h) rest v a =
    sized_need_ack h (layout (need_ack_packet h) ++ rest) a (unfold layout in omega arith)
parse-layout-sized (ack_packet p) rest v a =
    sized_ack p.common (layout (ack_packet p) ++ rest) a.0 (unfold layout in omega arith)
      (num_acks-bytes p rest v) a.1
    ∙ parse_acks-bytes p rest v
parse-layout-sized (common_packet h) rest v a =
    let b = layout (common_packet h) ++ rest in
    let n : 28 ≤ length b = unfold layout in omega arith in
    ground (
      arith,
      λ (e : h.type ≡ rpc_unknown_type). sized_rpc_unknown h b e n,
      λ (e : h.type ≡ busy_type). sized_busy h b e n,
      λ (e : h.type ≡ freeze_type). sized_freeze h b e n,
      λ (e : h.type ≡ need_ack_type). sized_need_ack h b e n,
    )
parse-layout-sized (other h) rest v a = elim a [ ]

IsPacket-header : (p : Packet) → IsPacket p → IsCommon (header p)
unfolding header
IsPacket-header (data_packet p) v = v.common
IsPacket-header (grant_packet p) v = v.0
IsPacket-header (resend_packet p) v = v.0
IsPacket-header (rpc_unknown_packet h) v = v
IsPacket-header (busy_packet h) v = v
IsPacket-header (cutoffs_packet p) v = v.0
IsPacket-header (freeze_packet h) v = v
IsPacket-header (need_ack_packet h) v = v
IsPacket-header (ack_packet p) v = v.0
IsPacket-header (common_packet h) v = v
IsPacket-header (other h) v = v

parse-layout-header :
    (p : Packet) (rest : List ℕ)
    → IsPacket p
    → parse (layout p ++ rest) ≡ parse_sized (header p) (layout p ++ rest)
unfolding layout
parse-layout-header p rest v =
    parse-header (header p) (bytes_fields p ++ rest) (IsPacket-header p v)

-- Whatever `Marshal` writes for a packet with fields in the range of their types, `Parse` reads
-- back, with any bytes behind it: a DATA payload takes them up, and behind every other packet they
-- are ignored as padding. Only the struct of a CommonPacket changes, to the one of its type.
pub parse-marshal :
    (p : Packet) (b rest : List ℕ)
    → IsPacket p
    → marshal p ≡ ok b
    → parse (b ++ rest) ≡ ok (received p rest)
parse-marshal p b rest v e =
    let (a, s) = (marshal-eq-ok_iff p b).0 e in
    rw s (parse-layout-header p rest v ∙ parse-layout-sized p rest v a)
