-- ===== src/Endpoint/Grants/Gaps.antt =====
-- `requestMissing`: the gap that a RESEND asks for.
use mac_homa.Common.{
  ℕ, zero, suc, ◌+◌, ◌≤◌, ◌<◌, ◌≡◌, ltb, false, ◌&&◌, List, arith, Bool-cases, inl, inr, ==_iff,
  ◌==◌, sym,
}
use mac_homa.Endpoint.Reassembly.{has_byte}
use mac_homa.Endpoint.Grants.{missing_end}

-- The bytes from `at` to `end` have not arrived, and the gap is no longer than `rounds`; it is
-- shorter only when the byte behind it has arrived.
pub record IsGap (rounds : ℕ) (bits : List ℕ) (at end : ℕ) : Type 0 where
  pub from : at ≤ end
  pub to : end ≤ at + rounds
  pub missing : (j : ℕ) → at ≤ j → j < end → has_byte bits j ≡ false
  pub maximal : (ltb end (at + rounds) && has_byte bits end) ≡ ltb end (at + rounds)

-- The scan of `requestMissing` finds the whole first gap and nothing else.
pub missing_end-IsGap :
    (rounds : ℕ) (bits : List ℕ) (at : ℕ) → IsGap rounds bits at (missing_end rounds bits at)
unfolding missing_end
missing_end-IsGap zero bits at = record {
  from = omega arith;
  to = omega arith;
  missing = λ j l h. absurd (omega arith);
  maximal = ground arith;
}
missing_end-IsGap (suc rounds) bits at = elim (Bool-cases (has_byte bits at)) [
  | inl here ↦
      rw (here, missing_end)
        (record {
          from = omega arith;
          to = omega arith;
          missing = λ j l h. absurd (omega arith);
          maximal = ground arith;
        })
  | inr gone ↦
      let rest = missing_end-IsGap rounds bits (suc at) in
      rw (gone, missing_end)
        (record {
          from = let f = rest.from in omega arith;
          to = let t = rest.to in omega arith;
          missing = λ j l h. elim (Bool-cases (at == j)) [
            | inl same ↦ let i : j ≡ at = sym ((==_iff at j).0 same) in rw i gone
            | inr other ↦ rest.missing j (ground arith) h
          ];
          maximal = let m = rest.maximal in ground arith;
        })
]
