-- ===== src/Wire/Examples.antt =====
-- The theorems on wire.go at work on concrete packets.
use mac_homa.Common.{ℕ, ◌+◌, ◌≤◌, ◌<◌, ◌≡◌, ◌≢◌, ◌↔◌, refl, [], ◌∷◌, ◌++◌, none, length, arith}
use mac_homa.Wire.{
  Common, Data, Packet, ok, panic, data_packet, resend_packet, effective_offset, validate_bounds,
}
use mac_homa.Wire.Marshal.{marshal}
use mac_homa.Wire.Parse.{parse}
use mac_homa.Wire.Valid.{IsCommon, IsData}
use mac_homa.Wire.Safety.{parse-ne-panic}
use mac_homa.Wire.Layout.{layout}
use mac_homa.Wire.Write.{IsAcceptable, marshal-eq-ok_iff, marshal-ne-panic}
use mac_homa.Wire.RoundTrip.{received, parse-marshal}
use mac_homa.Wire.Bounds.{validate_bounds-eq-none_iff}

abbrev common_of : ℕ → Common
common_of type = record {
  source_port = 40000;
  destination_port = 80;
  sequence = 7;
  ack_bytes = record { first = 0; second = 0; third = 0 };
  type = type;
  data_offset = 208;
  flags = 0;
  window = 0;
  checksum = 0;
  urgent = 0;
  sender_id = 0x0102030405060708;
}

-- Three bytes at offset 2 of a message of five.
abbrev hello : Data
hello = record {
  common = common_of 16;
  message_length = 5;
  incoming = 5;
  ack = record { client_id = 9; server_port = 80 };
  cutoff_version = 1;
  retransmit = 0;
  padding = record { first = 0; second = 0; third = 0 };
  segment_offset = 2;
  payload = 1 ∷ 2 ∷ 3 ∷ [];
}

abbrev again : Packet
again = resend_packet (record { common = common_of 18; offset = 1400; length = 2800; priority = 5 })

common_of-IsCommon : (type : ℕ) → type < 256 → IsCommon (common_of type)
common_of-IsCommon type l = record {
  source_port = omega arith;
  destination_port = omega arith;
  sequence = omega arith;
  ack_bytes = (omega arith, omega arith, omega arith);
  type = l;
  data_offset = omega arith;
  flags = omega arith;
  window = omega arith;
  checksum = omega arith;
  urgent = omega arith;
  sender_id = omega arith;
}

hello-IsData : IsData hello
hello-IsData = record {
  common = common_of-IsCommon 16 (omega arith);
  message_length = omega arith;
  incoming = omega arith;
  ack = (omega arith, omega arith);
  cutoff_version = omega arith;
  retransmit = omega arith;
  padding = (omega arith, omega arith, omega arith);
  segment_offset = omega arith;
}

hello-written : marshal (data_packet hello) ≡ ok (layout (data_packet hello))
hello-written =
    (marshal-eq-ok_iff (data_packet hello) (layout (data_packet hello))).1
      ((refl, omega arith), refl)

-- A packet that ends in the middle of its type byte's header.
parse-ne-panic_example : parse (156 ∷ 64 ∷ 0 ∷ 80 ∷ 0 ∷ 0 ∷ []) ≢ panic
parse-ne-panic_example = parse-ne-panic (156 ∷ 64 ∷ 0 ∷ 80 ∷ 0 ∷ 0 ∷ [])

marshal-eq-ok_iff_example :
    (marshal again ≡ ok (layout again)) ↔ (IsAcceptable again × (layout again ≡ layout again))
marshal-eq-ok_iff_example = marshal-eq-ok_iff again (layout again)

-- A RESEND struct with the type byte of a BUSY packet, whose buffer would be too short.
marshal-ne-panic_example :
    marshal (resend_packet (record { common = common_of 20; offset = 0; length = 1; priority = 0 }))
    ≢ panic
marshal-ne-panic_example =
    marshal-ne-panic
      (resend_packet (record { common = common_of 20; offset = 0; length = 1; priority = 0 }))

-- DATA with two bytes behind it, which become part of the payload.
parse-marshal_example :
    parse (layout (data_packet hello) ++ (4 ∷ 5 ∷ []))
    ≡ ok (received (data_packet hello) (4 ∷ 5 ∷ []))
parse-marshal_example =
    parse-marshal (data_packet hello) (layout (data_packet hello)) (4 ∷ 5 ∷ []) hello-IsData
      hello-written

validate_bounds-eq-none_iff_example : (validate_bounds hello 1000000 ≡ none) ↔ (
    (0 < hello.message_length)
    × (hello.message_length ≤ 1000000)
    × (effective_offset hello + length hello.payload ≤ hello.message_length))
validate_bounds-eq-none_iff_example =
    validate_bounds-eq-none_iff hello 1000000 hello-IsData (omega arith)
