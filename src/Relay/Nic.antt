-- ===== src/Relay/Nic.antt =====
-- The methods of `nic`: Ethernet frames with a length before each, on a stream to the virtual
-- machine. The connection is what it answers: how many bytes each Write took, and what it reads.
use mac_homa.Common.{
  ℕ, suc, ◌+◌, ◌%◌, ◌^◌, ◌==◌, ltb, Bool, not, ◌||◌, if◌then◌else◌, List, [], ◌∷◌, ◌++◌, Option,
  none, some, length, take, drop, replicate,
}
use mac_homa.Wire.{Result, ok, ◌>>=◌}
use mac_homa.Wire.Bytes.{byte_at, read_u16, read_u32, put_u16, put_u32, copy_at}
use mac_homa.Relay.{as_slice, virtual_host, virtual_guest, host_mac}
use mac_homa.Relay.Packet.{equal, slice}

-- The answer of a Write: how many bytes it took, and its error by a number. A Write that is cut takes
-- bytes and gives an error.
pub data Wrote : Type 0 where
  wrote : ℕ → Option ℕ → Wrote

-- How `write` ends; `blocked` while the connection has not answered, `crashed` for a panic.
pub data Written : Type 0 where
  done blocked short_write crashed : Written
  failed : ℕ → Written

-- `for len(b) > 0`, with the bytes that the connection has taken so far.
unfoldable pub write_loop : List Wrote → List ℕ → List ℕ → List ℕ × Written
write_loop answers [] sent = (sent, done)
write_loop [] (x ∷ b) sent = (sent, blocked)
write_loop (wrote n (some e) ∷ answers) (x ∷ b) sent = (sent ++ take n (x ∷ b), failed e)
write_loop (wrote n none ∷ answers) (x ∷ b) sent =
    let taken = sent ++ take n (x ∷ b) in
    let rest = write_loop answers (drop n (x ∷ b)) taken in
    if n == 0
    then (sent, short_write)
    else if ltb (suc (length b)) n
    then (taken, crashed)
    else rest

-- make([]byte, 4+len(frame)) with the length and the frame in it.
unfoldable pub framed : List ℕ → Result (List ℕ)
framed frame = do
  b ← put_u32 0 (length frame % 2 ^ 32) (replicate (4 + length frame) 0)
  copy_at 4 frame b

unfoldable pub write_framed : List Wrote → Result (List ℕ) → List ℕ × Written
write_framed answers (ok b) = write_loop answers b []
write_framed answers _ = ([], crashed)

-- `deadline` is the error of SetWriteDeadline.
unfoldable pub write : Option ℕ → List Wrote → List ℕ → List ℕ × Written
write (some e) answers frame = ([], failed e)
write none answers frame = write_framed answers (framed frame)

-- io.ReadFull on a stream that ends after the bytes it has.
unfoldable pub read_full : List ℕ → ℕ → Option (List ℕ × List ℕ)
read_full stream n = if ltb (length stream) n then none else some (take n stream, drop n stream)

pub data Read : Type 0 where
  got_frame : List ℕ → List ℕ → Read
  ended : Read
  bad_size : ℕ → Read
  read_panics : Read

unfoldable pub read_body : List ℕ → ℕ → Read
read_body stream size =
    if ltb size 14 || ltb (65535 + 14) size
    then bad_size size
    else elim (read_full stream size) [ none ↦ ended | some (b, rest) ↦ got_frame b rest ]

unfoldable pub read_sized : List ℕ → Result ℕ → Read
read_sized stream (ok size) = read_body stream size
read_sized stream _ = read_panics

unfoldable pub read : List ℕ → Read
read stream = elim (read_full stream 4) [
  | none ↦ ended
  | some (head, rest) ↦ read_sized rest (read_u32 head 0)
]

-- The guest asks for the host's address.
unfoldable pub is_arp_request : List ℕ → Result Bool
is_arp_request frame = do
  hardware ← read_u16 frame 14
  protocol ← read_u16 frame 16
  hardware_size ← byte_at frame 18
  protocol_size ← byte_at frame 19
  operation ← read_u16 frame 20
  from ← slice frame 28 32
  to ← slice frame 38 42
  ok (
      not (
        not (hardware == 1)
        || not (protocol == 0x0800)
        || not (hardware_size == 6)
        || not (protocol_size == 4)
        || not (operation == 1)
        || not (equal from (as_slice virtual_guest))
        || not (equal to (as_slice virtual_host))))

unfoldable pub arp_reply : List ℕ → Result (List ℕ)
arp_reply frame = do
  source ← slice frame 6 12
  kind ← slice frame 12 22
  sender ← slice frame 22 28
  address ← slice frame 28 32
  reply ← copy_at 0 source (replicate 42 0)
  reply ← copy_at 6 host_mac reply
  reply ← copy_at 12 kind reply
  reply ← put_u16 20 2 reply
  reply ← copy_at 22 host_mac reply
  reply ← copy_at 28 (as_slice virtual_host) reply
  reply ← copy_at 32 sender reply
  copy_at 38 address reply

-- The reply to write, if any.
unfoldable pub arp : List ℕ → Result (Option (List ℕ))
arp frame = if ltb (length frame) 42 then ok none else (do
  request ← is_arp_request frame
  if not request then ok none else (do reply ← arp_reply frame; ok (some reply)))
