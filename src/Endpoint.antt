-- ===== src/Endpoint.antt =====
-- endpoint.go and api.go: the state of one endpoint. Everything that the mutex guards is one value,
-- and each critical section is a function on it. A pointer `*rpc` is an entry of the table with the
-- number `ptr` that its allocation got; times are nanoseconds.
pub mod Defaults
pub mod Table
pub mod Reassembly
pub mod Send
pub mod Remove
pub mod Grants
pub mod Handlers
pub mod Data
pub mod Receive
pub mod Loops
pub mod Call
pub mod Step
pub mod Sound
pub mod Examples
use mac_homa.Common.{ℕ, ◌/◌, ◌%◌, ◌^◌, ◌==◌, Bool, true, false, ◌&&◌, List, Option}
use mac_homa.Wire.{Eight, Error}

-- netip.Addr: the zero value, an IPv4 address as a 32-bit number, or an IPv6 address.
pub data Ip : Type 0 where
  invalid : Ip
  v4 : ℕ → Ip
  v6 : ℕ → Ip

pub record Addr : Type 0 where
  pub ip : Ip
  pub port : ℕ

pub record Key : Type 0 where
  pub peer : Addr
  pub id : ℕ

pub record Config : Type 0 where
  pub max_message_size : ℕ
  pub max_rpcs : ℕ
  pub max_buffered_bytes : ℕ
  pub handler_workers : ℕ
  pub timeout : ℕ
  pub retry_interval : ℕ
  pub segment_bytes : ℕ
  pub unscheduled_bytes : ℕ
  pub grant_window : ℕ
  pub overcommit : ℕ

-- The errors that a call or an endpoint can end with. `crashed` is a Go panic.
pub data Failure : Type 0 where
  closed busy too_large protocol deadline_exceeded canceled crashed : Failure
  wire : Error → Failure
  io : ℕ → Failure

-- type assembly: the message so far and the bitmap of the bytes that have arrived.
pub record Assembly : Type 0 where
  pub payload : List ℕ
  pub bits : List ℕ
  pub count : ℕ
  pub contiguous : ℕ
  pub granted : ℕ

-- type rpc. `has_result` says that a caller waits on the channel `result`.
pub record Rpc : Type 0 where
  pub ptr : ℕ
  pub key : Key
  pub tx : List ℕ
  pub sent : ℕ
  pub granted : ℕ
  pub priority : ℕ
  pub rx : Option Assembly
  pub received : Bool
  pub handling : Bool
  pub deadline : ℕ
  pub last : ℕ
  pub last_cutoff : Option ℕ
  pub has_result : Bool

pub record CutoffEntry : Type 0 where
  pub ip : Ip
  pub values : Eight
  pub version : ℕ

-- The pointer to the RPC that a queued packet came from; its key and deadline never change.
pub record Origin : Type 0 where
  pub key : Key
  pub ptr : ℕ
  pub deadline : ℕ

pub record Outgoing : Type 0 where
  pub bytes : List ℕ
  pub peer : Ip
  pub priority : ℕ
  pub origin : Option Origin
  pub type : ℕ

-- A handler goroutine that has not come back: its RPC and the request that it owns.
pub record Running : Type 0 where
  pub key : Key
  pub ptr : ℕ
  pub request : List ℕ

-- What was sent on the channel `result` of a call; `failure` is the error of a CallError.
pub record Delivered : Type 0 where
  pub ptr : ℕ
  pub response : List ℕ
  pub failure : Option Failure
  pub sent : Bool

pub record Stats : Type 0 where
  pub sent_packets : ℕ
  pub received_packets : ℕ
  pub retransmissions : ℕ
  pub invalid_packets : ℕ
  pub dropped_packets : ℕ
  pub write_errors : ℕ
  pub completed_calls : ℕ
  pub handled_requests : ℕ

-- The tables and the account of an endpoint. `handlers` stands for the channel `workers`, which
-- holds one token for each handler that runs.
pub record Core : Type 0 where
  pub local : Addr
  pub cfg : Config
  pub has_handler : Bool
  pub rpcs : List Rpc
  pub handlers : List Running
  pub cutoffs : List CutoffEntry
  pub next_id : ℕ
  pub next_ptr : ℕ
  pub buffered_bytes : ℕ
  pub is_closed : Bool

-- The whole endpoint: its core, the eight queues to the writer, counters, and results delivered.
pub record Endpoint : Type 0 where
  pub core : Core
  pub open core use *
  pub outbound : List (List Outgoing)
  pub stats : Stats
  pub results : List Delivered

abbrev pub max_message_size : ℕ
max_message_size = 1000000

abbrev pub default_cutoffs : Eight
default_cutoffs = record {
  at0 = max_message_size;
  at1 = 0;
  at2 = 0;
  at3 = 0;
  at4 = max_message_size;
  at5 = 15000;
  at6 = 2800;
  at7 = 200;
}

abbrev pub is_v4 : Ip → Bool
is_v4 (v4 n) = true
is_v4 _ = false

-- 0.0.0.0 and ::
abbrev pub is_unspecified : Ip → Bool
is_unspecified invalid = false
is_unspecified (v4 n) = n == 0
is_unspecified (v6 n) = n == 0

-- 224.0.0.0/4 and ff00::/8
abbrev pub is_multicast : Ip → Bool
is_multicast invalid = false
is_multicast (v4 n) = n / 2 ^ 28 == 14
is_multicast (v6 n) = n / 2 ^ 120 == 255

abbrev pub eq_ip : Ip → Ip → Bool
eq_ip invalid invalid = true
eq_ip (v4 m) (v4 n) = m == n
eq_ip (v6 m) (v6 n) = m == n
eq_ip _ _ = false

abbrev pub eq_key : Key → Key → Bool
eq_key a b = eq_ip a.peer.ip b.peer.ip && a.peer.port == b.peer.port && a.id == b.id

-- `id & 1 == 1`: a server RPC.
abbrev pub is_server : ℕ → Bool
is_server id = id % 2 == 1
