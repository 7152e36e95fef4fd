-- ===== src/Relay/Run.antt =====
-- The two directions of the relay as steps on one state. `lanToVM` and `vmToLAN` run at once, so a
-- round is cut where the mutex is free, and the state at the end of a round may be another than at its
-- beginning.
use mac_homa.Common.{ℕ, ◌<◌, ◌≡◌, Bool, List, Option}
use mac_homa.Wire.{ok}
use mac_homa.Endpoint.{Ip}
use mac_homa.Relay.State.{
  State, lan_begin, lan_end, lan_dropped, lan_frame, vm_begin, vm_dropped, vm_packet, vm_requested,
  vm_refused, vm_sent, SocketError, goes_on, stops,
}

-- What `vmToLAN` is doing: reading, writing a packet that it has counted, or nothing more.
pub data Phase : Type 0 where
  reading stopped : Phase
  writing : List ℕ → Phase

pub record Config : Type 0 where
  pub state : State
  pub phase : Phase

abbrev pub at : State → Phase → Config
at s phase = record { state = s; phase = phase }

-- A traffic class is a byte.
pub data Step (local peer : Ip) : Config → Config → Type 0 where
  lan_drops :
      (s t : State) (phase : Phase) (datagram : List ℕ) (truncated : Bool)
      → lan_begin s local peer datagram truncated ≡ ok (lan_dropped t)
      → Step local peer (at s phase) (at t phase)
  lan_relays :
      (r s t : State) (phase : Phase) (datagram p frame : List ℕ) (tos : ℕ) (truncated : Bool)
      → lan_begin r local peer datagram truncated ≡ ok (lan_frame p tos frame)
      → tos < 256
      → lan_end s p tos ≡ ok t
      → Step local peer (at s phase) (at t phase)
  vm_drops :
      (s t : State) (frame : List ℕ)
      → vm_begin s frame ≡ ok (vm_dropped t)
      → Step local peer (at s reading) (at t reading)
  vm_requests :
      (r s : State) (frame p : List ℕ) (tos : ℕ)
      → vm_begin r frame ≡ ok (vm_packet p tos)
      → tos < 256
      → Step local peer (at s reading) (at (vm_requested s tos) (writing p))
  vm_loses :
      (s t : State) (p : List ℕ) (e : SocketError)
      → vm_refused s e ≡ goes_on t
      → Step local peer (at s (writing p)) (at t reading)
  vm_sends :
      (s t : State) (p : List ℕ) (n : ℕ)
      → vm_sent s p n ≡ goes_on t
      → Step local peer (at s (writing p)) (at t reading)
  vm_fails :
      (s t : State) (p : List ℕ) (e : SocketError) (x : Option SocketError)
      → vm_refused s e ≡ stops t x
      → Step local peer (at s (writing p)) (at t stopped)
  vm_cuts :
      (s t : State) (p : List ℕ) (n : ℕ) (x : Option SocketError)
      → vm_sent s p n ≡ stops t x
      → Step local peer (at s (writing p)) (at t stopped)

pub data Run (local peer : Ip) : Config → Config → Type 0 where
  begin : (c : Config) → Run local peer c c
  follows : (a b c : Config) → Run local peer a b → Step local peer b c → Run local peer a c
