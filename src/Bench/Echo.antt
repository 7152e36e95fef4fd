-- ===== src/Bench/Echo.antt =====
-- The TCP echo gives every payload back, and a connection's loop ends.
use mac_homa.Common.{
  ℕ, zero, suc, ◌+◌, ◌≤◌, ◌<◌, ◌≡◌, ◌==◌, ltb, true, false, ◌||◌, List, [], ◌∷◌, ◌++◌, Option, none,
  some, length, take, drop, All, arith, refl, ap, ◌∙◌, sym, length-append, length-drop,
  Option-cases, Bool-cases, inl, inr, ◌⊎◌,
}
use mathlib.Core.List.{append_assoc, append-nil}
use mac_homa.Wire.{Result, ok, err, panic}
use mac_homa.Endpoint.{max_message_size}
use mac_homa.Relay.Nic.{read_full}
use mac_homa.Relay.Stream.{read_full-append, read_u32-head}
use mac_homa.Bench.Tcp.{
  frame_of, Failure, stream_ended, write_frame, Received, refused, received, receive_sized,
  receive_frame, tcp_call, closed, serve_loop, serve_connection,
}

-- A size that both ends accept.
abbrev pub IsPayload : List ℕ → Type 0
IsPayload p = (1 ≤ length p) × (length p ≤ 1000000)

-- Every write takes the whole frame.
abbrev pub IsOpen : (List ℕ → ℕ × Option ℕ) → Type 0
IsOpen answer = (f : List ℕ) → answer f ≡ (length f, none)

unfoldable pub frames : List (List ℕ) → List ℕ
frames [] = []
frames (p ∷ payloads) = frame_of p ++ frames payloads

-- Calls one after the other on one connection, and their replies.
unfoldable pub call_all : (List ℕ → ℕ × Option ℕ) → List (List ℕ) → List ℕ → Option (List (List ℕ))
call_all answer [] stream = some []
call_all answer (p ∷ payloads) stream = elim (tcp_call none none answer stream p) [
  | refused e ↦ none
  | received reply rest ↦ elim (call_all answer payloads rest) [
    | none ↦ none
    | some replies ↦ some (reply ∷ replies)
  ]
]

received_inj : {a b c d : List ℕ} → received a b ≡ received c d → b ≡ d
received_inj h = cc h

pair_second :
    {a b c d : List ℕ} → ◌≡◌ {A = Option (List ℕ × List ℕ)} (some (a, b)) (some (c, d)) → b ≡ d
pair_second h = cc h

read_full-shorter :
    (stream a b : List ℕ) (n : ℕ) → read_full stream n ≡ some (a, b) → length b + n ≡ length stream
unfolding read_full
read_full-shorter stream a b n h = elim (Bool-cases (ltb (length stream) n)) [
  | inl short ↦ absurd (ground (arith, h, short))
  | inr long ↦
      let same : drop n stream ≡ b = pair_second (rw (long, read_full) at h) in
      ground (arith, long, ap length same, length-drop n stream)
]

length-frame_of : (p : List ℕ) → length (frame_of p) ≡ length p + 4
unfolding frame_of
length-frame_of p = omega arith

write_frame-none :
    (answer : List ℕ → ℕ × Option ℕ) (p : List ℕ) → IsOpen answer → write_frame answer p ≡ none
unfolding write_frame
write_frame-none answer p h =
    let whole : (length (frame_of p) == length p + 4) ≡ true = ground (arith, length-frame_of p) in
    let count : (answer (frame_of p)).0 ≡ length (frame_of p) =
      ap (λ (z : ℕ × Option ℕ). z.0) (h (frame_of p)) in
    let good : (answer (frame_of p)).1 ≡ none = ap (λ (z : ℕ × Option ℕ). z.1) (h (frame_of p)) in
    rw (write_frame, good, count, whole) refl

receive_sized-append :
    (p rest : List ℕ) → IsPayload p → receive_sized (p ++ rest) (ok (length p)) ≡ received p rest
unfolding receive_sized
receive_sized-append p rest v =
    let h : (length p == 0 || ltb max_message_size (length p)) ≡ false = ground (arith, v.0, v.1) in
    rw (h, read_full-append p rest) refl

receive-frame_of :
    (p rest : List ℕ) → IsPayload p → receive_frame (frame_of p ++ rest) ≡ received p rest
unfolding receive_frame frame_of
receive-frame_of p rest v =
    let first : read_full (frame_of p ++ rest) 4 ≡ some (take 4 (frame_of p), p ++ rest) =
      read_full-append (take 4 (frame_of p)) (p ++ rest) in
    rw (receive_frame, first, read_u32-head p (omega (arith, v.1))) (receive_sized-append p rest v)

tcp_call-frame_of :
    (answer : List ℕ → ℕ × Option ℕ) (p rest : List ℕ)
    → IsOpen answer
    → IsPayload p
    → tcp_call none none answer (frame_of p ++ rest) p ≡ received p rest
unfolding tcp_call
tcp_call-frame_of answer p rest h v =
    rw (tcp_call, write_frame-none answer p h) (receive-frame_of p rest v)

call_all-next :
    (answer : List ℕ → ℕ × Option ℕ) (p reply : List ℕ) (payloads replies : List (List ℕ))
    (stream rest : List ℕ)
    → tcp_call none none answer stream p ≡ received reply rest
    → call_all answer payloads rest ≡ some replies
    → call_all answer (p ∷ payloads) stream ≡ some (reply ∷ replies)
unfolding call_all
call_all-next answer p reply payloads replies stream rest e f = rw (call_all, e, f) refl

call_all-frames :
    (answer : List ℕ → ℕ × Option ℕ) (payloads : List (List ℕ)) (rest : List ℕ)
    → IsOpen answer
    → All IsPayload payloads
    → call_all answer payloads (frames payloads ++ rest) ≡ some payloads
unfolding call_all frames
call_all-frames answer [] rest h v = refl
call_all-frames answer (p ∷ payloads) rest h v =
    let split = append_assoc (frame_of p) (frames payloads) rest in
    call_all-next answer p p payloads payloads _ (frames payloads ++ rest)
      (ap (λ stream. tcp_call none none answer stream p) split
        ∙ tcp_call-frame_of answer p (frames payloads ++ rest) h v.0)
      (call_all-frames answer payloads rest h v.1)

receive-nil : receive_frame [] ≡ refused stream_ended
unfolding receive_frame read_full
receive-nil = refl

serve_loop-frames :
    (answer : List ℕ → ℕ × Option ℕ) (payloads : List (List ℕ)) (fuel : ℕ) (sent : List ℕ)
    → IsOpen answer
    → All IsPayload payloads
    → length (frames payloads) < fuel
    → serve_loop fuel answer (frames payloads) sent ≡ (sent ++ frames payloads, closed stream_ended)
unfolding serve_loop frames
serve_loop-frames answer payloads zero sent h v l = absurd (omega arith)
serve_loop-frames answer [] (suc fuel) sent h v l =
    rw (serve_loop, receive-nil) (ap (λ b. (b, closed stream_ended)) (sym (append-nil sent)))
serve_loop-frames answer (p ∷ payloads) (suc fuel) sent h v l =
    let n : length (frame_of p ++ frames payloads) ≡ length p + 4 + length (frames payloads) =
      length-append (frame_of p) (frames payloads)
      ∙ ap (λ k. k + length (frames payloads)) (length-frame_of p) in
    rw
      (
        serve_loop,
        receive-frame_of p (frames payloads) v.0,
        write_frame-none answer p h,
        serve_loop-frames answer payloads fuel (sent ++ frame_of p) h v.1 (omega (arith, n, l)),
      )
      (ap (λ b. (b, closed stream_ended)) (append_assoc sent (frame_of p) (frames payloads)))

-- When both ends' writes go through whole, payloads of 1 to 1,000,000 bytes that go over one
-- connection to the server come back as the replies of the calls, each to its own, and the server
-- closes the connection only at the end of the stream.
pub call_all-serve_connection :
    (client server : List ℕ → ℕ × Option ℕ) (payloads : List (List ℕ))
    → IsOpen client
    → IsOpen server
    → All IsPayload payloads
    → (call_all client payloads (serve_connection server (frames payloads)).0 ≡ some payloads)
      × ((serve_connection server (frames payloads)).1 ≡ closed stream_ended)
unfolding serve_connection
call_all-serve_connection client server payloads h k v =
    let served =
      serve_loop-frames server payloads (suc (length (frames payloads))) [] k v (omega arith) in
    let back = call_all-frames client payloads [] h v in
    rw served (rw (append-nil (frames payloads)) at back, refl)

-- What comes in takes five bytes of the stream at least.
receive_sized-shorter :
    (stream payload rest : List ℕ) (size : Result ℕ)
    → receive_sized stream size ≡ received payload rest
    → length rest ≤ length stream
unfolding receive_sized
receive_sized-shorter stream payload rest panic h = absurd (ground arith)
receive_sized-shorter stream payload rest (err e) h = absurd (ground arith)
receive_sized-shorter stream payload rest (ok n) h =
    elim (Bool-cases (n == 0 || ltb max_message_size n)) [
      | inl out ↦ absurd (ground (arith, h, out))
      | inr fits ↦ elim (Option-cases (read_full stream n)) [
        | inl none' ↦ absurd (ground (arith, h, fits, none'))
        | inr ((p, left), some') ↦
            let same : left ≡ rest = received_inj (rw (fits, some') at h) in
            let l = read_full-shorter stream p left n some' in omega (arith, l, ap length same)
      ]
    ]

receive_frame-shorter :
    (stream payload rest : List ℕ)
    → receive_frame stream ≡ received payload rest
    → length rest < length stream
unfolding receive_frame
receive_frame-shorter stream payload rest h = elim (Option-cases (read_full stream 4)) [
  | inl none' ↦ absurd (ground (arith, h, none'))
  | inr ((header, left), some') ↦
      let l = receive_sized-shorter left payload rest _ (rw (some', receive_frame) at h) in
      omega (arith, l, read_full-shorter stream header left 4 some')
]

Received-cases :
    (r : Received)
    → ((e : Failure) × (r ≡ refused e)) ⊎ ((p : List ℕ) × (rest : List ℕ) × (r ≡ received p rest))
Received-cases (refused e) = inl (e, refl)
Received-cases (received p rest) = inr (p, rest, refl)

serve_loop-closed :
    (answer : List ℕ → ℕ × Option ℕ) (fuel : ℕ) (stream sent : List ℕ)
    → length stream < fuel
    → (e : Failure) × ((serve_loop fuel answer stream sent).1 ≡ closed e)
unfolding serve_loop
serve_loop-closed answer zero stream sent l = absurd (omega arith)
serve_loop-closed answer (suc fuel) stream sent l = elim (Received-cases (receive_frame stream)) [
  | inl (e, is) ↦ (e, rw (serve_loop, is) refl)
  | inr (p, rest, is) ↦
      let n = receive_frame-shorter stream p rest is in
      elim (Option-cases (write_frame answer p)) [
        | inr (e, some') ↦ (e, rw (serve_loop, is, some') refl)
        | inl none' ↦
            let (e, ends) =
              serve_loop-closed answer fuel rest (sent ++ frame_of p) (omega (arith, n, l)) in
            (e, rw (serve_loop, is, none') ends)
      ]
]

-- On any stream that ends, and however the writes go, the loop of a connection ends, and it closes the
-- connection.
pub serve_connection_closes :
    (answer : List ℕ → ℕ × Option ℕ) (stream : List ℕ)
    → (e : Failure) × ((serve_connection answer stream).1 ≡ closed e)
unfolding serve_connection
serve_connection_closes answer stream =
    serve_loop-closed answer (suc (length stream)) stream [] (omega arith)
