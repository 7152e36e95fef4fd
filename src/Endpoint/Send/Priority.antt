-- ===== src/Endpoint/Send/Priority.antt =====
-- `unsched`: the priority of unscheduled DATA, by the peer's cutoffs.
use mac_homa.Common.{
  ℕ, zero, suc, ◌%◌, ◌^◌, ◌≤◌, ◌<◌, ◌≡◌, ◌==◌, ◌⊎◌, leb, arith, Bool-cases, inl, inr, refl, ==_iff,
}
use mac_homa.Wire.{Eight}
use mac_homa.Endpoint.{Ip, Endpoint}
use mac_homa.Endpoint.Send.{find_cutoff, cutoff_at, cutoff_values, unsched_loop, unsched}

-- Among the priorities below `i`, `priority` is the highest whose cutoff is no less than `n`, or 0
-- when there is none.
pub record IsHighest (i : ℕ) (c : Eight) (n priority : ℕ) : Type 0 where
  pub below : (priority < i) ⊎ (priority ≡ 0)
  pub fits : (n % 2 ^ 32 ≤ cutoff_at c priority) ⊎ (priority ≡ 0)
  pub higher : (j : ℕ) → priority < j → j < i → cutoff_at c j < n % 2 ^ 32

unsched_loop-IsHighest : (i : ℕ) (c : Eight) (n : ℕ) → IsHighest i c n (unsched_loop i c n)
unfolding unsched_loop
unsched_loop-IsHighest zero c n = record {
  below = inr refl;
  fits = inr refl;
  higher = λ j l h. absurd (omega (arith, h));
}
unsched_loop-IsHighest (suc i) c n = elim (Bool-cases (leb (n % 2 ^ 32) (cutoff_at c i))) [
  | inl fits ↦
      rw (fits, unsched_loop)
        (record {
          below = inl (omega arith);
          fits = inl (ground arith);
          higher = λ j l h. absurd (omega (arith, l, h));
        })
  | inr over ↦
      let rest = unsched_loop-IsHighest i c n in
      rw (over, unsched_loop)
        (record {
          below = elim rest.below [ inl l ↦ inl (omega (arith, l)) | inr z ↦ inr z ];
          fits = rest.fits;
          higher = λ j l h. elim (Bool-cases (j == i)) [
            | inl same ↦ let is : j ≡ i = (==_iff j i).0 same in rw is (ground arith)
            | inr other ↦ rest.higher j l (ground arith)
          ];
        })
]

-- `unsched` gives one of the eight priorities: the highest one whose cutoff for the peer is no less
-- than the length of the message, or 0 when there is none.
pub unsched-IsHighest :
    (e : Endpoint) (ip : Ip) (n : ℕ)
    → (unsched e ip n < 8)
      × IsHighest 8 (cutoff_values (find_cutoff ip e.cutoffs)) n (unsched e ip n)
unfolding unsched
unsched-IsHighest e ip n =
    let h = unsched_loop-IsHighest 8 (cutoff_values (find_cutoff ip e.cutoffs)) n in
    (elim h.below [ inl l ↦ l | inr z ↦ omega (arith, z) ], h)
