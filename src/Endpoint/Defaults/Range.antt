-- ===== src/Endpoint/Defaults/Range.antt =====
-- The configuration that `defaults` accepts is in range.
use mac_homa.Common.{
  ℕ, ◌+◌, ◌-◌, ◌/◌, ◌%◌, ◌≤◌, ◌<◌, ◌≡◌, Bool, false, ◌||◌, subst, some, arith, Bool-cases, inl, inr,
}
use native.Mathlib.Nat.{mul-mod_left, div-add-mod', mod-lt}
use mac_homa.Endpoint.{Config, max_message_size}
use mac_homa.Endpoint.Defaults.{
  ℤ, pos, negsuc, RawConfig, is_below, natural, fill, out_of_range, is_invalid, round_up, checked,
  defaults, millisecond, minute,
}

pub record IsInRange (c : Config) : Type 0 where
  pub max_message_size : (1 ≤ c.max_message_size) × (c.max_message_size ≤ 1000000)
  pub max_rpcs : (1 ≤ c.max_rpcs) × (c.max_rpcs ≤ 65536)
  pub max_buffered_bytes : 1 ≤ c.max_buffered_bytes
  pub handler_workers : (1 ≤ c.handler_workers) × (c.handler_workers ≤ 1024)
  pub timeout : (millisecond ≤ c.timeout) × (c.timeout ≤ minute)
  pub retry_interval : (millisecond ≤ c.retry_interval) × (c.retry_interval ≤ c.timeout)
  pub segment_bytes : (256 ≤ c.segment_bytes) × (c.segment_bytes ≤ 1424)
  pub grant_window : (1 ≤ c.grant_window) × (c.grant_window ≤ 1000000)
  pub overcommit : (1 ≤ c.overcommit) × (c.overcommit ≤ c.max_rpcs)
  pub whole_segments : c.unscheduled_bytes % c.segment_bytes ≡ 0
  pub unscheduled : (1 ≤ c.unscheduled_bytes) × (c.unscheduled_bytes < 1000000 + c.segment_bytes)

natural-in_range :
    (x : ℤ) (low high : ℕ)
    → out_of_range x low high ≡ false
    → (low ≤ natural x) × (natural x ≤ high)
natural-in_range (pos n) low high h = (ground arith, ground arith)
natural-in_range (negsuc n) low high h = absurd (ground arith)

natural-not_below : (x : ℤ) (low : ℕ) → is_below x low ≡ false → low ≤ natural x
natural-not_below (pos n) low h = ground arith
natural-not_below (negsuc n) low h = absurd (ground arith)

round_up-multiple : (n s : ℕ) → 1 ≤ s → round_up n s % s ≡ 0
unfolding round_up
round_up-multiple n s h = mul-mod_left ((n + s - 1) / s) s

round_up-above : (n s : ℕ) → 1 ≤ s → (n ≤ round_up n s) × (round_up n s < n + s)
unfolding round_up
round_up-above n s h =
    let d = div-add-mod' (n + s - 1) s in let l = mod-lt (n + s - 1) h in (omega arith, omega arith)

-- An accepted configuration: no test of `is_invalid` holds.
accepted : RawConfig → Config
accepted c = record {
  max_message_size = natural c.max_message_size;
  max_rpcs = natural c.max_rpcs;
  max_buffered_bytes = natural c.max_buffered_bytes;
  handler_workers = natural c.handler_workers;
  timeout = natural c.timeout;
  retry_interval = natural c.retry_interval;
  segment_bytes = natural c.segment_bytes;
  unscheduled_bytes = round_up (natural c.unscheduled_bytes) (natural c.segment_bytes);
  grant_window = natural c.grant_window;
  overcommit = natural c.overcommit;
}

or_false : (a b : Bool) → (a || b) ≡ false → (a ≡ false) × (b ≡ false)
or_false a b h = (ground arith, ground arith)

accepted-IsInRange : (c : RawConfig) → is_invalid c ≡ false → IsInRange (accepted c)
unfolding is_invalid accepted
accepted-IsInRange c h =
    let (h, overcommit) = or_false _ _ h in
    let (h, window) = or_false _ _ h in
    let (h, unscheduled) = or_false _ _ h in
    let (h, segment) = or_false _ _ h in
    let (h, retry) = or_false _ _ h in
    let (h, timeout) = or_false _ _ h in
    let (h, workers) = or_false _ _ h in
    let (h, buffered) = or_false _ _ h in
    let (size, rpcs) = or_false _ _ h in
    let segment' = natural-in_range c.segment_bytes 256 1424 segment in
    let unscheduled' = natural-in_range c.unscheduled_bytes 1 max_message_size unscheduled in
    let s = natural c.segment_bytes in
    let (above, below) =
      round_up-above (natural c.unscheduled_bytes) s (omega (arith, segment'.0)) in
    record {
      max_message_size = natural-in_range c.max_message_size 1 max_message_size size;
      max_rpcs = natural-in_range c.max_rpcs 1 65536 rpcs;
      max_buffered_bytes = natural-not_below c.max_buffered_bytes 1 buffered;
      handler_workers = natural-in_range c.handler_workers 1 1024 workers;
      timeout = natural-in_range c.timeout millisecond minute timeout;
      retry_interval = natural-in_range c.retry_interval millisecond (natural c.timeout) retry;
      segment_bytes = segment';
      grant_window = natural-in_range c.grant_window 1 max_message_size window;
      overcommit = natural-in_range c.overcommit 1 (natural c.max_rpcs) overcommit;
      whole_segments =
          round_up-multiple (natural c.unscheduled_bytes) s (omega (arith, segment'.0));
      unscheduled = (omega (arith, unscheduled'.0, above), omega (arith, unscheduled'.1, below));
    }

-- A configuration that `defaults` gives back is in range, whatever the fields were set to: every
-- limit is positive and at most its maximum, the retry interval is no longer than the timeout, the
-- overcommitment no larger than the table, and `UnscheduledBytes` a positive number of whole
-- segments, less than one segment above the largest message.
pub defaults-IsInRange : (raw : RawConfig) (cfg : Config) → defaults raw ≡ some cfg → IsInRange cfg
unfolding defaults checked accepted
defaults-IsInRange raw cfg e = elim (Bool-cases (is_invalid (fill raw))) [
  | inl bad ↦ absurd (ground arith)
  | inr good ↦
      let is : accepted (fill raw) ≡ cfg = ground arith in
      subst IsInRange is (accepted-IsInRange (fill raw) good)
]
