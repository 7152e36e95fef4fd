-- ===== src/Wire/Safety.antt =====
-- `Parse` on any bytes whatever: it ends in a packet or an error, and never in a panic.
use mac_homa.Common.{
  ℕ, ◌+◌, ◌≤◌, ◌≡◌, ◌≢◌, List, length, arith, ltb, ◌==◌, inl, inr, some, Option-cases,
}
use mac_homa.Wire.{
  Common, err, panic, header_size, common_size, truncated, packet_type, ack_count, max_acks,
  data_type, grant_type, resend_type, rpc_unknown_type, busy_type, cutoffs_type, freeze_type,
  need_ack_type, ack_type,
}
use mac_homa.Wire.Bytes.{byte_at, read_u16, read_u32, read_u64, read_three, slice_from}
use mac_homa.Wire.Bytes.Total.{
  NoPanic, is_ok, is_err, NoPanic-ne-panic, NoPanic-bind, NoPanic-if, byte_at-NoPanic,
  slice_from-NoPanic, read_u16-NoPanic, read_u32-NoPanic, read_u64-NoPanic, read_three-NoPanic,
}
use mac_homa.Wire.Parse.{
  parse_common, parse_ack, parse_data, parse_grant, parse_resend, parse_cutoffs, parse_acks,
  parse_body, parse_sized, parse,
}

parse_ack-NoPanic : (b : List ℕ) (i : ℕ) → i + 10 ≤ length b → NoPanic (parse_ack b i)
unfolding parse_ack
parse_ack-NoPanic b i h =
    NoPanic-bind (read_u64 b i) _ (read_u64-NoPanic b i (omega arith)) λ c.
      NoPanic-bind (read_u16 b (i + 8)) _ (read_u16-NoPanic b (i + 8) (omega arith)) λ p. is_ok _

parse_common-NoPanic : (b : List ℕ) → 28 ≤ length b → NoPanic (parse_common b)
unfolding parse_common
parse_common-NoPanic b len =
    NoPanic-bind (read_u16 b 0) _ (read_u16-NoPanic b 0 (omega arith)) λ v0.
      NoPanic-bind (read_u16 b 2) _ (read_u16-NoPanic b 2 (omega arith)) λ v2.
        NoPanic-bind (read_u32 b 4) _ (read_u32-NoPanic b 4 (omega arith)) λ v4.
          NoPanic-bind (read_three b 8) _ (read_three-NoPanic b 8 (omega arith)) λ v8.
            NoPanic-bind (byte_at b 11) _ (byte_at-NoPanic b 11 (omega arith)) λ v11.
              NoPanic-bind (byte_at b 12) _ (byte_at-NoPanic b 12 (omega arith)) λ v12.
                NoPanic-bind (byte_at b 13) _ (byte_at-NoPanic b 13 (omega arith)) λ v13.
                  NoPanic-bind (read_u16 b 14) _ (read_u16-NoPanic b 14 (omega arith)) λ v14.
                    NoPanic-bind (read_u16 b 16) _ (read_u16-NoPanic b 16 (omega arith)) λ v16.
                      NoPanic-bind (read_u16 b 18) _ (read_u16-NoPanic b 18 (omega arith)) λ v18.
                        NoPanic-bind (read_u64 b 20) _ (read_u64-NoPanic b 20 (omega arith))
                          λ v20. is_ok _

parse_data-NoPanic : (h : Common) (b : List ℕ) → 56 ≤ length b → NoPanic (parse_data h b)
unfolding parse_data
parse_data-NoPanic h b len =
    NoPanic-bind (read_u32 b 28) _ (read_u32-NoPanic b 28 (omega arith)) λ v28.
      NoPanic-bind (read_u32 b 32) _ (read_u32-NoPanic b 32 (omega arith)) λ v32.
        NoPanic-bind (parse_ack b 36) _ (parse_ack-NoPanic b 36 (omega arith)) λ v36.
          NoPanic-bind (read_u16 b 46) _ (read_u16-NoPanic b 46 (omega arith)) λ v46.
            NoPanic-bind (byte_at b 48) _ (byte_at-NoPanic b 48 (omega arith)) λ v48.
              NoPanic-bind (read_three b 49) _ (read_three-NoPanic b 49 (omega arith)) λ v49.
                NoPanic-bind (read_u32 b 52) _ (read_u32-NoPanic b 52 (omega arith)) λ v52.
                  NoPanic-bind (slice_from b 56) _ (slice_from-NoPanic b 56 (omega arith))
                    λ v56. is_ok _

parse_grant-NoPanic : (h : Common) (b : List ℕ) → 33 ≤ length b → NoPanic (parse_grant h b)
unfolding parse_grant
parse_grant-NoPanic h b len =
    NoPanic-bind (read_u32 b 28) _ (read_u32-NoPanic b 28 (omega arith))
      λ v28. NoPanic-bind (byte_at b 32) _ (byte_at-NoPanic b 32 (omega arith)) λ v32. is_ok _

parse_resend-NoPanic : (h : Common) (b : List ℕ) → 37 ≤ length b → NoPanic (parse_resend h b)
unfolding parse_resend
parse_resend-NoPanic h b len =
    NoPanic-bind (read_u32 b 28) _ (read_u32-NoPanic b 28 (omega arith)) λ v28.
      NoPanic-bind (read_u32 b 32) _ (read_u32-NoPanic b 32 (omega arith))
        λ v32. NoPanic-bind (byte_at b 36) _ (byte_at-NoPanic b 36 (omega arith)) λ v36. is_ok _

parse_cutoffs-NoPanic : (h : Common) (b : List ℕ) → 62 ≤ length b → NoPanic (parse_cutoffs h b)
unfolding parse_cutoffs
parse_cutoffs-NoPanic h b len =
    NoPanic-bind (read_u16 b 60) _ (read_u16-NoPanic b 60 (omega arith)) λ v60.
      NoPanic-bind (read_u32 b 28) _ (read_u32-NoPanic b 28 (omega arith)) λ v28.
        NoPanic-bind (read_u32 b 32) _ (read_u32-NoPanic b 32 (omega arith)) λ v32.
          NoPanic-bind (read_u32 b 36) _ (read_u32-NoPanic b 36 (omega arith)) λ v36.
            NoPanic-bind (read_u32 b 40) _ (read_u32-NoPanic b 40 (omega arith)) λ v40.
              NoPanic-bind (read_u32 b 44) _ (read_u32-NoPanic b 44 (omega arith)) λ v44.
                NoPanic-bind (read_u32 b 48) _ (read_u32-NoPanic b 48 (omega arith)) λ v48.
                  NoPanic-bind (read_u32 b 52) _ (read_u32-NoPanic b 52 (omega arith)) λ v52.
                    NoPanic-bind (read_u32 b 56) _ (read_u32-NoPanic b 56 (omega arith))
                      λ v56. is_ok _

parse_acks-NoPanic :
    (h : Common) (count : ℕ) (b : List ℕ) → 80 ≤ length b → NoPanic (parse_acks h count b)
unfolding parse_acks
parse_acks-NoPanic h count b len =
    NoPanic-bind (parse_ack b 30) _ (parse_ack-NoPanic b 30 (omega arith)) λ v30.
      NoPanic-bind (parse_ack b 40) _ (parse_ack-NoPanic b 40 (omega arith)) λ v40.
        NoPanic-bind (parse_ack b 50) _ (parse_ack-NoPanic b 50 (omega arith)) λ v50.
          NoPanic-bind (parse_ack b 60) _ (parse_ack-NoPanic b 60 (omega arith)) λ v60.
            NoPanic-bind (parse_ack b 70) _ (parse_ack-NoPanic b 70 (omega arith)) λ v70. is_ok _

-- The size of the fixed header bounds every read of the type's case.
parse_body-NoPanic :
    (h : Common) (b : List ℕ) (size : ℕ)
    → header_size h.type ≡ some size
    → size ≤ length b
    → NoPanic (parse_body h b)
unfolding parse_body header_size
parse_body-NoPanic h b size e len =
    NoPanic-if (h.type == data_type) _ _ (λ c. parse_data-NoPanic h b (ground arith))
      λ c1.
        NoPanic-if (h.type == grant_type) _ _ (λ c. parse_grant-NoPanic h b (ground arith))
          λ c2.
            NoPanic-if (h.type == resend_type) _ _ (λ c. parse_resend-NoPanic h b (ground arith))
              λ c3.
                NoPanic-if (h.type == rpc_unknown_type) _ _ (λ c. is_ok _)
                  λ c4.
                    NoPanic-if (h.type == busy_type) _ _ (λ c. is_ok _)
                      λ c5.
                        NoPanic-if (h.type == cutoffs_type) _ _
                          (λ c. parse_cutoffs-NoPanic h b (ground arith))
                          λ c6.
                            NoPanic-if (h.type == freeze_type) _ _ (λ c. is_ok _)
                              λ c7.
                                NoPanic-if (h.type == need_ack_type) _ _ (λ c. is_ok _)
                                  λ c8.
                                    NoPanic-if (h.type == ack_type) _ _
                                      (λ c.
                                        NoPanic-bind (read_u16 b 28) _
                                          (read_u16-NoPanic b 28 (ground arith))
                                          λ count.
                                            NoPanic-if (ltb max_acks count) _ _
                                              (λ _. is_err ack_count)
                                              λ _. parse_acks-NoPanic h count b (ground arith))
                                      λ c9. absurd (ground arith)

parse_sized-NoPanic : (h : Common) (b : List ℕ) → NoPanic (parse_sized h b)
unfolding parse_sized
parse_sized-NoPanic h b = elim (Option-cases (header_size h.type)) [
  | inl e ↦ rw (e, parse_sized) (is_err packet_type)
  | inr (size, e) ↦
      rw (e, parse_sized)
        (NoPanic-if (ltb (length b) size) _ _ (λ _. is_err truncated)
          λ c. parse_body-NoPanic h b size e (ground arith))
]

-- `Parse` answers every byte slice, of any length and content, with a packet or an error:
-- no index or slice of it is ever out of range, and its final `panic` is not reached.
pub parse-ne-panic : (b : List ℕ) → parse b ≢ panic
unfolding parse
parse-ne-panic b e =
    let safe =
      NoPanic-if (ltb (length b) common_size) (err truncated) _ (λ _. is_err truncated)
        λ c.
          NoPanic-bind (parse_common b) (λ h. parse_sized h b)
            (parse_common-NoPanic b (ground arith)) λ h. parse_sized-NoPanic h b in
    NoPanic-ne-panic _ safe e
