-- ===== src/Endpoint/Sound.antt =====
-- The invariant of the endpoint's core: the account `BufferedBytes` is what the table and the
-- running handlers hold, and every limit of the configuration is kept.
pub mod Frame
pub mod Updates
pub mod Holds
pub mod Data
pub mod Packets
pub mod Rounds
pub mod Returns
pub mod Steps
use mac_homa.Common.{ℕ, ◌+◌, ◌%◌, ◌≤◌, ◌<◌, ◌≡◌, ◌⊎◌, Bool, true, false, [], length, All}
use mac_homa.Endpoint.{Core, Endpoint, Rpc, is_server}
use mac_homa.Endpoint.Table.{held, owned}
use mac_homa.Endpoint.Table.Laws.{Unique}
use mac_homa.Endpoint.Table.Runs.{Distinct, Fresh, Tied}

-- A server RPC has nothing to send before its handler has been started.
abbrev pub Quiet : Rpc → Type 0
Quiet r = (is_server r.key.id ≡ false) ⊎ (r.handling ≡ true) ⊎ (r.tx ≡ [])

-- The pointer of an RPC has been given out.
abbrev pub Old : ℕ → Rpc → Type 0
Old n r = r.ptr < n

pub record IsSound (c : Core) : Type 0 where
  pub balanced : c.buffered_bytes ≡ held c.rpcs + owned c.handlers
  pub within : c.buffered_bytes ≤ c.cfg.max_buffered_bytes
  pub rpcs_bounded : length c.rpcs ≤ c.cfg.max_rpcs
  pub handlers_bounded : length c.handlers ≤ c.cfg.handler_workers
  pub unique : Unique c.rpcs
  pub distinct : Distinct c.handlers
  pub fresh : Fresh c.next_ptr c.handlers
  pub tied : All (Tied c.handlers) c.rpcs
  pub old : All (Old c.next_ptr) c.rpcs
  pub quiet : All Quiet c.rpcs
  pub even : c.next_id % 2 ≡ 0

pub record IsConsistent (e : Endpoint) : Type 0 where
  pub core : IsSound e.core
