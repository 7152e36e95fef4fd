-- ===== src/Endpoint/Step.antt =====
-- The endpoint as a state machine: `New`, and every critical section of its loops, handlers and
-- callers as one step. The steps of a run come in any order.
use mac_homa.Common.{
  ℕ, ◌-◌, ◌%◌, ◌==◌, leb, Bool, false, not, ◌&&◌, ◌||◌, if◌then◌else◌, List, [], ◌∷◌, Option, none,
  some, replicate,
}
use mac_homa.Endpoint.{Ip, Addr, Key, Config, Outgoing, Endpoint, Failure, is_v4}
use mac_homa.Endpoint.Remove.{shutdown}
use mac_homa.Endpoint.Handlers.{handler_done}
use mac_homa.Endpoint.Loops.{write_begin, write_end, read_packet, timer_tick}
use mac_homa.Endpoint.Call.{begin_call, cancel_call, close}
use mac_homa.Endpoint.Defaults.{RawConfig, defaults}

-- The endpoint that `New` makes, from eight random bytes read as a number.
unfoldable pub fresh : Config → Addr → Bool → ℕ → Endpoint
fresh cfg local has_handler seed = record {
  core = record {
    local = local;
    cfg = cfg;
    has_handler = has_handler;
    rpcs = [];
    handlers = [];
    cutoffs = [];
    next_id = seed - seed % 2;
    next_ptr = 0;
    buffered_bytes = 0;
    is_closed = false;
  };
  outbound = replicate 8 [];
  stats = record {
    sent_packets = 0;
    received_packets = 0;
    retransmissions = 0;
    invalid_packets = 0;
    dropped_packets = 0;
    write_errors = 0;
    completed_calls = 0;
    handled_requests = 0;
  };
  results = [];
}

-- `New` for a packet I/O that is not nil; `none` is one of its errors. `seed` is `none` when the
-- random source fails.
unfoldable pub new : RawConfig → Addr → Bool → Option ℕ → Option Endpoint
new raw local has_handler seed = elim (defaults raw) [
  | none ↦ none
  | some cfg ↦
      if not (is_v4 local.ip) || local.port == 0 || (has_handler && leb 32768 local.port)
      then none
      else elim seed [ none ↦ none | some n ↦ some (fresh cfg local has_handler n) ]
]

pub data Event : Type 0 where
  -- A call with its context's error and deadline, its peer and request; and its cancellation.
  calls : ℕ → Option Failure → Option ℕ → Addr → List ℕ → Event
  cancels : Key → ℕ → Failure → Event
  -- ReadPacket gives a datagram, or an error.
  reads : ℕ → Ip → List ℕ → Event
  read_fails : Failure → Event
  -- The ticker fires; the writer takes a packet; a write ends.
  ticks : ℕ → Event
  takes : ℕ → Event
  written : Outgoing → Option Failure → Event
  -- A handler comes back with its response.
  returns : ℕ → Key → ℕ → List ℕ → Event
  closes : Event

unfoldable pub step : Endpoint → Event → Endpoint
step e (calls now ended limit peer request) = (begin_call e now ended limit peer request).0
step e (cancels key ptr x) = cancel_call e key ptr x
step e (reads now ip bytes) = read_packet e now ip bytes
step e (read_fails x) = shutdown e x
step e (ticks now) = timer_tick e now
step e (takes now) = if e.is_closed then e else (write_begin e now).0
step e (written p x) = write_end e p x
step e (returns now key ptr response) = handler_done e now key ptr response
step e closes = close e

unfoldable pub run : Endpoint → List Event → Endpoint
run e [] = e
run e (v ∷ vs) = run (step e v) vs
