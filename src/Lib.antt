-- ===== src/Lib.antt =====
-- MacHoma: the native Homa protocol (IP protocol 146) in user space, in Go.
--
-- The program's parts. internal/wire/wire.go is the wire format: it parses one datagram into a
-- packet and writes a packet into bytes. endpoint.go, with the types of api.go, is the endpoint. Its
-- reader parses datagrams and dispatches them under one mutex; its timer retries, expires RPCs and
-- grants; its writer takes packets from eight priority queues; callers start RPCs and wait for their
-- results; and handler goroutines answer requests. The endpoint uses the wire format through
-- `Parse`, `Marshal`, `ValidateBounds`, `LocalID` and `NewCommon`. rawip.go gives the endpoint its
-- packets from a raw IPv4 socket. interop/lanrelay/main.go relays datagrams between one LAN peer
-- and a Linux virtual machine, as Ethernet frames on a stream, and interop/vmcheck/main.go is a
-- packet I/O for the endpoint on such a stream. cmd/homa-bench/main.go measures echo calls through an
-- endpoint and through TCP, and cmd/homa-echo/main.go makes such calls as a test.
--
-- The files.
--   Common: Boolean tests on numbers, lists by native numbers, bytes as bit sets.
--   Wire: the packet structs, constants, `LocalID`, `NewCommon`, `ValidateBounds`, `HeaderSize`.
--     Wire/Bytes has slices and big-endian fields (encoding/binary), Wire/Marshal and Wire/Parse the
--     two directions, Wire/Valid the ranges of the fields, Wire/Layout the bytes of each packet as
--     they are documented; Wire/Safety, Wire/Write, Wire/RoundTrip and Wire/Bounds hold the proofs.
--   Endpoint: the state of an endpoint, everything that its mutex guards.
--     Endpoint/Defaults is `defaults`; Endpoint/Table the map of RPCs and the bytes they hold;
--     Endpoint/Reassembly the loops of `data` on one assembly; Endpoint/Send from `reserve` to
--     `resend`; Endpoint/Remove `remove`, `finish`, `ack`, `shutdown`; Endpoint/Grants
--     `requestMissing` and `schedule`; Endpoint/Handlers `startHandler` and its goroutine;
--     Endpoint/Data `data`; Endpoint/Receive `receive`; Endpoint/Loops the rounds of the writer, the
--     reader and the timer; Endpoint/Call `Call` and `Close`; Endpoint/Step `New` and the step
--     function. Endpoint/Sound is the invariant, with a module for each group of operations.
--   Proofs about a file stand below it: Defaults/Range, Reassembly/Complete, Send/Progress,
--     Send/Priority, Remove/Shutdown, Grants/Sorted, Grants/Rank, Grants/Order, Grants/Gaps,
--     Loops/Queues, Loops/Line, Loops/Refine, Loops/Stale.
--   RawIp: `OpenRaw`, `ReadPacket` and `WritePacket` of rawip.go; RawIp/Packets has the proofs.
--   Relay: the addresses of the relay. Relay/Checksum is `ipChecksum`, Relay/Packet `nativePacket`,
--     `allowedHoma` and `ethernetPacket`, Relay/Nic the methods of `nic`, Relay/State the report,
--     `noteAcks` and the rounds of `lanToVM` and `vmToLAN`. Relay/Run has both directions as
--     steps on one state; Relay/Frame, Relay/Cut, Relay/Stream, Relay/Safety, Relay/Deliver,
--     Relay/Acks and Relay/Account hold the proofs.
--   Vmcheck: the methods of its `nic`, with proofs in Vmcheck/Frames and Vmcheck/Ends.
--   Bench: cmd/homa-bench/main.go. Bench/Latency is `latencySummary`, Bench/Tcp `writeFrame`, `tcpCall`
--     and the loop of a connection of `serve`, Bench/Sizes `parseSizes`, Bench/Client the rounds of
--     `client`; Bench/Report says what its report should be; Bench/Quantiles, Bench/Echo,
--     Bench/Accepted, Bench/Calls, Bench/Plan and Bench/Passes hold the proofs.
--   EchoCommand: the calls and the report of cmd/homa-echo/main.go, with proofs in
--     EchoCommand/Verified.
--   The Examples of a component apply the theorems to concrete packets and runs.
--
-- How code corresponds. Each critical section of endpoint.go is one function on the state, and an
-- `Event` names the sections that can come next; a run is any list of events. A pointer `*rpc` is a
-- table entry with the number that its allocation got, so that a pointer to an RPC that has left the
-- map, or whose key is used again, is told from the entry there. A Go panic is the result `panic` of
-- the wire format. An unsigned field is a number whose range is a hypothesis, and conversions keep
-- their `% 2 ^ w`. The clock is a number of nanoseconds, read once in each critical section; a Go
-- map is a list, and a loop over it goes in the order of the list. The counters of `Stats` do not
-- wrap. `BufferedBytes` is a natural number, whose subtraction stops at zero.
--
-- Bounds and fuel. The loop of `sendNew` has the length of the message as fuel, the loop of `resend`
-- its end, and the loop on `contiguous` the length of the payload; each round moves by a byte at
-- least when the segment size is positive, as every accepted configuration has it.
--
-- The loop of vmcheck's `ReadPacket` has the length of the stream as fuel, since a frame takes 4 bytes
-- at least, and the folding of a checksum has two rounds, which bring every uint32 below 65536.
--
-- The loop of a TCP connection has the length of its stream as fuel, since a frame takes 4 bytes at
-- least.
--
-- A round of the relay is cut where it writes; the maps of counters by traffic class are functions.
-- A socket or a connection is what it answers: an error by its number, the count of a write, or the
-- bytes on its stream.
--
-- The application handler, the packet I/O, the clock, the random source and the context are not
-- code of the repository: what they give is a field of an event or an argument of `new`.
--
-- The benchmark's rounds take what each exchange gives as a function of the call's number, and
-- durations as nanoseconds; the figures that are computed in floating point for the report stand as
-- the numbers they come from. What strconv.Atoi gives for a part of the list of sizes is a function.
--
-- Not modelled: the wake channel, the wait group and context cancellation, which carry no state
-- here; ParseAddr and the String methods; the flags, sockets and printing of the commands; what
-- starts QEMU and writes reports in the relay and vmcheck; the scripts under interop.
pub mod Common
pub mod Wire
pub mod Endpoint
pub mod Relay
pub mod RawIp
pub mod Vmcheck
pub mod Bench
pub mod EchoCommand
