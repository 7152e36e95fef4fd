-- ===== src/Endpoint/Defaults.antt =====
-- endpoint.go, `defaults`, on the Config of api.go. The fields are Go ints, which may be negative.
pub mod Range
use mac_homa.Common.{
  ℕ, suc, ◌+◌, ◌-◌, ◌*◌, ◌/◌, ◌^◌, ltb, Bool, true, false, ◌||◌, if◌then◌else◌, Option, none, some,
}
use mac_homa.Endpoint.{Config, max_message_size}

-- A Go int: `negsuc n` is -(n + 1).
pub data ℤ : Type 0 where
  pos : ℕ → ℤ
  negsuc : ℕ → ℤ

pub record RawConfig : Type 0 where
  pub max_message_size : ℤ
  pub max_rpcs : ℤ
  pub max_buffered_bytes : ℤ
  pub handler_workers : ℤ
  pub timeout : ℤ
  pub retry_interval : ℤ
  pub segment_bytes : ℤ
  pub unscheduled_bytes : ℤ
  pub grant_window : ℤ
  pub overcommit : ℤ

-- `if x == 0 { x = d }`
abbrev pub or_default : ℤ → ℕ → ℤ
or_default (pos n) d = if ltb 0 n then pos n else pos d
or_default (negsuc n) d = negsuc n

-- `x < n` and `x > n`, for a number that is not negative.
abbrev pub is_below : ℤ → ℕ → Bool
is_below (pos m) n = ltb m n
is_below (negsuc m) n = true

abbrev pub is_above : ℤ → ℕ → Bool
is_above (pos m) n = ltb n m
is_above (negsuc m) n = false

-- The value of an int that has been found not to be negative.
abbrev pub natural : ℤ → ℕ
natural (pos n) = n
natural (negsuc n) = 0

abbrev pub millisecond : ℕ
millisecond = 1_000_000

abbrev pub minute : ℕ
minute = 60_000_000_000

unfoldable pub fill : RawConfig → RawConfig
fill c = record {
  max_message_size = or_default c.max_message_size max_message_size;
  max_rpcs = or_default c.max_rpcs 128;
  max_buffered_bytes = or_default c.max_buffered_bytes 67108864;
  handler_workers = or_default c.handler_workers 8;
  timeout = or_default c.timeout 5_000_000_000;
  retry_interval = or_default c.retry_interval 5_000_000;
  segment_bytes = or_default c.segment_bytes 1400;
  unscheduled_bytes = or_default c.unscheduled_bytes 14000;
  grant_window = or_default c.grant_window 14000;
  overcommit = or_default c.overcommit 2;
}

abbrev pub out_of_range : ℤ → ℕ → ℕ → Bool
out_of_range x low high = is_below x low || is_above x high

unfoldable pub is_invalid : RawConfig → Bool
is_invalid c =
    out_of_range c.max_message_size 1 max_message_size
    || out_of_range c.max_rpcs 1 65536
    || is_below c.max_buffered_bytes 1
    || out_of_range c.handler_workers 1 1024
    || out_of_range c.timeout millisecond minute
    || out_of_range c.retry_interval millisecond (natural c.timeout)
    || out_of_range c.segment_bytes 256 1424
    || out_of_range c.unscheduled_bytes 1 max_message_size
    || out_of_range c.grant_window 1 max_message_size
    || out_of_range c.overcommit 1 (natural c.max_rpcs)

-- Up to a multiple of the segment size.
unfoldable pub round_up : ℕ → ℕ → ℕ
round_up n segment = (n + segment - 1) / segment * segment

unfoldable pub checked : RawConfig → Option Config
checked c =
    if is_invalid c
    then none
    else some (record {
      max_message_size = natural c.max_message_size;
      max_rpcs = natural c.max_rpcs;
      max_buffered_bytes = natural c.max_buffered_bytes;
      handler_workers = natural c.handler_workers;
      timeout = natural c.timeout;
      retry_interval = natural c.retry_interval;
      segment_bytes = natural c.segment_bytes;
      unscheduled_bytes = round_up (natural c.unscheduled_bytes) (natural c.segment_bytes);
      grant_window = natural c.grant_window;
      overcommit = natural c.overcommit;
    })

-- `none` is the error "invalid configuration".
unfoldable pub defaults : RawConfig → Option Config
defaults c = checked (fill c)
