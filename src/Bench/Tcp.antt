-- ===== src/Bench/Tcp.antt =====
-- The echo over TCP: `writeFrame`, `tcpCall`, and what `serve` does on one connection. A connection is
-- the bytes on its stream, which ends after them.
use mac_homa.Common.{
  ℕ, zero, suc, ◌+◌, ◌/◌, ◌%◌, ◌^◌, ◌==◌, ltb, not, ◌||◌, if◌then◌else◌, List, [], ◌∷◌, ◌++◌,
  Option, none, some, length,
}
use mac_homa.Wire.{Result, ok}
use mac_homa.Wire.Bytes.{read_u32}
use mac_homa.Endpoint.{max_message_size}
use mac_homa.Relay.Nic.{read_full}

-- The prefix and the payload.
unfoldable pub frame_of : List ℕ → List ℕ
frame_of payload =
    let n = length payload % 2 ^ 32 in
    n / 2 ^ 24 % 256 ∷ n / 2 ^ 16 % 256 ∷ n / 256 % 256 ∷ n % 256 ∷ payload

pub data Failure : Type 0 where
  short_write stream_ended bad_length : Failure
  failed : ℕ → Failure

-- `answer` is the count and the error of WriteTo for the frame.
unfoldable pub write_frame : (List ℕ → ℕ × Option ℕ) → List ℕ → Option Failure
write_frame answer payload =
    let (n, e) = answer (frame_of payload) in
    elim e [
      | some x ↦ some (failed x)
      | none ↦ (if not (n == length payload + 4) then some short_write else none)
    ]

pub data Received : Type 0 where
  refused : Failure → Received
  received : List ℕ → List ℕ → Received

-- A prefix in range, then so many bytes. A header of four bytes is read without an error.
unfoldable pub receive_sized : List ℕ → Result ℕ → Received
receive_sized stream (ok n) =
    if n == 0 || ltb max_message_size n then refused bad_length else elim (read_full stream n) [
      | none ↦ refused stream_ended
      | some (payload, rest) ↦ received payload rest
    ]
receive_sized stream _ = refused stream_ended

unfoldable pub receive_frame : List ℕ → Received
receive_frame stream = elim (read_full stream 4) [
  | none ↦ refused stream_ended
  | some (header, rest) ↦ receive_sized rest (read_u32 header 0)
]

-- `expired` is the error of the context and `deadline` that of SetDeadline; `stream` has the replies.
unfoldable pub tcp_call : Option ℕ → Option ℕ → (List ℕ → ℕ × Option ℕ) → List ℕ → List ℕ → Received
tcp_call (some e) deadline answer stream payload = refused (failed e)
tcp_call none (some e) answer stream payload = refused (failed e)
tcp_call none none answer stream payload = elim (write_frame answer payload) [
  | some e ↦ refused e
  | none ↦ receive_frame stream
]

-- How a connection ends; `running` when the fuel is spent.
pub data Served : Type 0 where
  running : Served
  closed : Failure → Served

-- The loop of a connection, with the frames that it has sent whole so far. A frame takes 4 bytes at least.
unfoldable pub serve_loop : ℕ → (List ℕ → ℕ × Option ℕ) → List ℕ → List ℕ → List ℕ × Served
serve_loop zero answer stream sent = (sent, running)
serve_loop (suc fuel) answer stream sent = elim (receive_frame stream) [
  | refused e ↦ (sent, closed e)
  | received payload rest ↦ elim (write_frame answer payload) [
    | some e ↦ (sent, closed e)
    | none ↦ serve_loop fuel answer rest (sent ++ frame_of payload)
  ]
]

unfoldable pub serve_connection : (List ℕ → ℕ × Option ℕ) → List ℕ → List ℕ × Served
serve_connection answer stream = serve_loop (suc (length stream)) answer stream []
