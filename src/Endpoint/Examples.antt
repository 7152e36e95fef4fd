-- ===== src/Endpoint/Examples.antt =====
-- The theorems on endpoint.go at work on concrete configurations, messages and runs.
pub mod Line
use mac_homa.Common.{
  ℕ, ◌++◌, true, false, replicate, ltb, ◌&&◌, take, ◌+◌, ◌*◌, ◌/◌, ◌≤◌, ◌<◌, ◌≡◌, ◌↔◌, refl, min,
  true, false, List, [], ◌∷◌, none, some, length, get_or, arith,
}
use mathlib.Core.List.{Perm}
use mac_homa.Wire
use mac_homa.Wire.Bytes.{put_byte, put_u16, put_u32, put_u64, put_three, copy_at}
use mac_homa.Wire.Marshal.{
  marshal, checked_write, expected_type, payload_of, write_packet, marshal_common, marshal_fields,
  marshal_data, marshal_ack,
}
use mac_homa.Endpoint.{Addr, Config, Endpoint, Rpc, Outgoing, Assembly, v4, canceled}
use mac_homa.Endpoint.Defaults.{RawConfig, pos, defaults, checked, fill, is_invalid, round_up}
use mac_homa.Endpoint.Defaults.Range.{IsInRange, defaults-IsInRange}
use mac_homa.Endpoint.Table.{lookup, held, owned}
use mac_homa.Endpoint.Table.Laws.{Unique}
use mac_homa.Endpoint.Reassembly.{
  new_assembly, has_byte, mark, conflicts, accept_byte, accept, advance_loop, advance,
  insert_segment,
}
use mac_homa.Endpoint.Reassembly.Complete.{
  Segment, AllSegments, insert_all, covered, insert_all_complete, insert_all-payload,
  insert_all-contiguous,
}
use mac_homa.Endpoint.Grants.{missing_end, schedule}
use mac_homa.Endpoint.Grants.Gaps.{IsGap, missing_end-IsGap}
use mac_homa.Endpoint.Grants.Sorted.{wanting, IsShortestFirst}
use mac_homa.Endpoint.Grants.Order.{IsRound, schedule_shortest}
use mac_homa.Endpoint.Send.{
  send_new_loop, send_new, resend_loop, resend, send_segment, segment, count_retransmission, send,
  send_bytes, enqueue, origin_of, common, cutoff_version, find_cutoff, cutoff_values, unsched,
}
use mac_homa.Endpoint.Send.Priority.{IsHighest, unsched-IsHighest}
use mac_homa.Endpoint.Send.Progress.{send_new_terminates, send_new_sends, resend_terminates}
use mac_homa.Endpoint.Loops.{dequeue, dequeue_loop, write_begin, writes, is_live_origin}
use mac_homa.Endpoint.Remove.{live, shutdown}
use mac_homa.Endpoint.Remove.Shutdown.{failures, shutdown_empties}
use mac_homa.Endpoint.Loops.Stale.{IsCurrent, write_begin-IsCurrent}
use mac_homa.Endpoint.Loops.Queues.{IsFirst, dequeue_highest, dequeue-eq-none}
use mac_homa.Endpoint.Step.{fresh, run, step, Event, calls, reads, ticks, takes}
use mac_homa.Endpoint.Sound.{IsConsistent}
use mac_homa.Endpoint.Sound.Steps.{
  AllUnused, call_key, step-IsConsistent, fresh-IsConsistent, run-fresh_account,
}

abbrev small : Config
small = record {
  max_message_size = 1000;
  max_rpcs = 2;
  max_buffered_bytes = 1000;
  handler_workers = 1;
  timeout = 5_000_000_000;
  retry_interval = 5_000_000;
  segment_bytes = 256;
  unscheduled_bytes = 512;
  grant_window = 512;
  overcommit = 1;
}

abbrev here : Addr
here = record { ip = v4 0x0a000001; port = 40000 }

abbrev there : Addr
there = record { ip = v4 0x0a000002; port = 80 }

abbrev start : Endpoint
start = fresh small here true 6

abbrev one_call : Event
one_call = calls 1 none none there (1 ∷ 2 ∷ 3 ∷ [])

-- A call, a datagram that is no packet, a round of the writer, and a tick after the deadline.
abbrev events : List Event
events = one_call ∷ reads 2 (v4 0x0a000002) (1 ∷ []) ∷ takes 3 ∷ ticks 6_000_000_000 ∷ []

one_call-Unused : lookup (call_key start there) start.rpcs ≡ none
unfolding fresh lookup
one_call-Unused = refl

events-AllUnused : AllUnused start events
events-AllUnused = (one_call-Unused, (tt, (tt, (tt, tt))))

run-fresh_account_example :
    let e = run (fresh small here true 6) events in
    (e.buffered_bytes ≡ held e.rpcs + owned e.handlers)
    × (e.buffered_bytes ≤ e.cfg.max_buffered_bytes)
    × (length e.rpcs ≤ e.cfg.max_rpcs)
    × (length e.handlers ≤ e.cfg.handler_workers)
run-fresh_account_example = run-fresh_account small here true 6 events events-AllUnused

step-IsConsistent_example : IsConsistent (step start one_call)
step-IsConsistent_example =
    step-IsConsistent start one_call (fresh-IsConsistent small here true 6) one_call-Unused

-- The retry interval is the only field that is set.
abbrev raw : RawConfig
raw = record {
  max_message_size = pos 0;
  max_rpcs = pos 0;
  max_buffered_bytes = pos 0;
  handler_workers = pos 0;
  timeout = pos 0;
  retry_interval = pos 20_000_000;
  segment_bytes = pos 0;
  unscheduled_bytes = pos 0;
  grant_window = pos 0;
  overcommit = pos 0;
}

abbrev filled : Config
filled = record {
  max_message_size = 1000000;
  max_rpcs = 128;
  max_buffered_bytes = 67108864;
  handler_workers = 8;
  timeout = 5_000_000_000;
  retry_interval = 20_000_000;
  segment_bytes = 1400;
  unscheduled_bytes = 14000;
  grant_window = 14000;
  overcommit = 2;
}

raw-defaults : defaults raw ≡ some filled
unfolding defaults checked fill is_invalid round_up
raw-defaults = refl

defaults-IsInRange_example : IsInRange filled
defaults-IsInRange_example = defaults-IsInRange raw filled raw-defaults

-- Three overlapping segments of a message of five bytes, the last one first.
abbrev message : List ℕ
message = 10 ∷ 20 ∷ 30 ∷ 40 ∷ 50 ∷ []

abbrev segments : List Segment
segments =
    record { start = 3; bytes = 40 ∷ 50 ∷ []; incoming = 5 }
    ∷ record { start = 0; bytes = 10 ∷ 20 ∷ []; incoming = 5 }
    ∷ record { start = 1; bytes = 20 ∷ 30 ∷ 40 ∷ []; incoming = 5 }
    ∷ []

segments-AllSegments : AllSegments message segments
segments-AllSegments = (
  (omega arith, refl, (omega arith, refl, omega arith)),
  (
    (omega arith, refl, (omega arith, refl, omega arith)),
    ((omega arith, refl, (omega arith, refl, (omega arith, refl, omega arith))), tt),
  ),
)

insert_all_complete_example :
    (b : Assembly) × (insert_all (new_assembly (length message) 5) segments ≡ some b)
    × ((b.count ≡ length message) ↔ ((j : ℕ) → j < length message → covered segments j ≡ true))
insert_all_complete_example = insert_all_complete message 5 segments segments-AllSegments

abbrev whole : Assembly
whole = record { payload = message; bits = 31 ∷ []; count = 5; contiguous = 5; granted = 5 }

segments-whole : insert_all (new_assembly (length message) 5) segments ≡ some whole
unfolding insert_all insert_segment conflicts accept accept_byte advance advance_loop new_assembly
    has_byte mark
segments-whole = refl

insert_all-payload_example : whole.payload ≡ message
insert_all-payload_example =
    insert_all-payload message 5 segments whole segments-AllSegments segments-whole refl

-- Without the segment in the middle, the prefix ends at the third byte.
abbrev outer : List Segment
outer =
    record { start = 3; bytes = 40 ∷ 50 ∷ []; incoming = 5 }
    ∷ record { start = 0; bytes = 10 ∷ 20 ∷ []; incoming = 5 }
    ∷ []

abbrev torn : Assembly
torn = record {
  payload = 10 ∷ 20 ∷ 0 ∷ 40 ∷ 50 ∷ [];
  bits = 27 ∷ [];
  count = 4;
  contiguous = 2;
  granted = 5;
}

outer-AllSegments : AllSegments message outer
outer-AllSegments = (
  (omega arith, refl, (omega arith, refl, omega arith)),
  ((omega arith, refl, (omega arith, refl, omega arith)), tt),
)

outer-torn : insert_all (new_assembly (length message) 5) outer ≡ some torn
unfolding insert_all insert_segment conflicts accept accept_byte advance advance_loop new_assembly
    has_byte mark
outer-torn = refl

insert_all-contiguous_example :
    (2 ≤ 5) × ((j : ℕ) → j < 2 → covered outer j ≡ true) × ((ltb 2 5 && covered outer 2) ≡ false)
insert_all-contiguous_example =
    insert_all-contiguous message 5 outer torn outer-AllSegments outer-torn

-- Bytes 0, 1, 3 and 4 have come.
missing_end-IsGap_example : IsGap 3 torn.bits 2 (missing_end 3 torn.bits 2)
missing_end-IsGap_example = missing_end-IsGap 3 torn.bits 2

-- Two requests, of which one grant goes to the shorter.
abbrev asking : ℕ → ℕ → Rpc
asking id n = record {
  ptr = id;
  key = record { peer = there; id = id };
  tx = [];
  sent = 0;
  granted = 0;
  priority = 0;
  rx =
      some
        (record { payload = replicate n 0; bits = 1 ∷ []; count = 1; contiguous = 1; granted = 1 });
  received = false;
  handling = false;
  deadline = 5_000_000_000;
  last = 0;
  last_cutoff = none;
  has_result = false;
}

abbrev two_asking : Endpoint
two_asking = record start { core = record start.core { rpcs = asking 9 7 ∷ asking 11 3 ∷ [] } }

two_asking-Unique : Unique two_asking.rpcs
unfolding lookup
two_asking-Unique = (refl, (refl, tt))

schedule_shortest_example :
    (order : List Rpc) × Perm order (wanting two_asking.rpcs)
    × IsShortestFirst order
    × IsRound two_asking 0 (take two_asking.cfg.overcommit order) (schedule two_asking)
schedule_shortest_example = schedule_shortest two_asking two_asking-Unique

-- Three of the five bytes of the message are granted.
abbrev half_granted : Rpc
half_granted = record {
  ptr = 0;
  key = record { peer = there; id = 8 };
  tx = message;
  sent = 0;
  granted = 3;
  priority = 4;
  rx = none;
  received = false;
  handling = false;
  deadline = 5_000_000_000;
  last = 0;
  last_cutoff = none;
  has_result = true;
}

abbrev data_out : Outgoing
data_out = record { bytes = 1 ∷ 2 ∷ []; peer = there.ip; priority = 4; origin = none; type = 16 }

abbrev control_out : Outgoing
control_out = record { bytes = 3 ∷ []; peer = there.ip; priority = 7; origin = none; type = 17 }

-- A DATA packet waits at priority 4 and a control packet at priority 7.
abbrev two_waiting : Endpoint
two_waiting = record start {
  outbound = [] ∷ [] ∷ [] ∷ [] ∷ (data_out ∷ []) ∷ [] ∷ [] ∷ (control_out ∷ []) ∷ [];
}

abbrev one_waiting : Endpoint
one_waiting = record start { outbound = [] ∷ [] ∷ [] ∷ [] ∷ (data_out ∷ []) ∷ [] ∷ [] ∷ [] ∷ [] }

two_waiting-dequeue : dequeue two_waiting ≡ some (control_out, one_waiting)
unfolding dequeue dequeue_loop
two_waiting-dequeue = refl

-- A message of 1000 bytes to a peer that has sent no cutoffs.
unsched-IsHighest_example :
    (unsched start there.ip 1000 < 8)
    × IsHighest 8
        (cutoff_values (find_cutoff there.ip start.cutoffs))
        1000
        (unsched start there.ip 1000)
unsched-IsHighest_example = unsched-IsHighest start there.ip 1000

-- A DATA packet of an RPC that is in the table.
abbrev current_out : Outgoing
current_out = record data_out {
  origin = some (record { key = half_granted.key; ptr = 0; deadline = 5_000_000_000 });
}

abbrev with_data : List Outgoing → Endpoint
with_data queue = record start {
  core = record start.core { rpcs = half_granted ∷ [] };
  outbound = [] ∷ [] ∷ [] ∷ [] ∷ queue ∷ [] ∷ [] ∷ [] ∷ [];
}

with_data-write_begin :
    write_begin (with_data (current_out ∷ [])) 7 ≡ (with_data [], writes current_out)
unfolding write_begin dequeue dequeue_loop is_live_origin live lookup
with_data-write_begin = refl

write_begin-IsCurrent_example : IsCurrent (with_data []) 7 current_out.origin
write_begin-IsCurrent_example =
    write_begin-IsCurrent (with_data (current_out ∷ [])) (with_data []) 7 current_out
      with_data-write_begin refl

start-open : start.is_closed ≡ false
unfolding fresh
start-open = refl

-- A call waits for its result.
shutdown_empties_example :
    let e' = shutdown (with_data []) canceled in
    (e'.is_closed ≡ true)
    × (e'.rpcs ≡ [])
    × (e'.results ≡ start.results ++ failures canceled (half_granted ∷ []))
shutdown_empties_example = shutdown_empties (with_data []) canceled start-open

start-dequeue : dequeue start ≡ none
unfolding dequeue dequeue_loop fresh
start-dequeue = refl

start-queues : length start.outbound ≡ 8
unfolding fresh
start-queues = refl

-- Two bytes in a segment, so that the three granted bytes take two segments.
abbrev narrow : Endpoint
narrow = fresh (record small { segment_bytes = 2 }) here true 6

narrow-positive : 1 ≤ narrow.cfg.segment_bytes
unfolding fresh
narrow-positive = omega arith

half_granted-none : (send_new narrow half_granted).2 ≡ none
unfolding fresh send_new send_new_loop send_segment segment count_retransmission send send_bytes
    enqueue origin_of lookup common cutoff_version find_cutoff Wire.new_common Wire.header
    Wire.header_size marshal checked_write expected_type payload_of write_packet marshal_common
    marshal_fields marshal_data marshal_ack put_byte put_u16 put_u32 put_u64 put_three copy_at
half_granted-none = refl

send_new_terminates_example : send_new_loop 1000 narrow half_granted ≡ send_new narrow half_granted
send_new_terminates_example =
    send_new_terminates narrow half_granted 1000 narrow-positive (omega arith)

send_new_sends_example : min 3 (length half_granted.tx) ≤ (send_new narrow half_granted).1.sent
send_new_sends_example = send_new_sends narrow half_granted narrow-positive half_granted-none

-- Bytes 1 to 2 again, after both segments have gone.
abbrev both_sent : Rpc
both_sent = record half_granted { sent = 4 }

resend_terminates_example :
    resend_loop 1000 narrow both_sent
      (1 / narrow.cfg.segment_bytes * narrow.cfg.segment_bytes)
      (min 3 4)
      5
    ≡ resend narrow both_sent 1 3 5
resend_terminates_example =
    resend_terminates narrow both_sent 1 3 5 1000 narrow-positive (omega arith)
