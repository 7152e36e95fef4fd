-- ===== src/Relay/Stream.antt =====
-- The frames on the stream: what `write` puts there, `read` takes back.
use mac_homa.Common.{
  ℕ, ◌+◌, ◌/◌, ◌%◌, ◌^◌, ◌≤◌, ◌<◌, ◌≡◌, ltb, false, ◌||◌, List, [], ◌∷◌, ◌++◌, Option, none, some,
  length, take, replicate-add, arith, refl, ap, ◌∙◌, sym, take-append, drop-append, length-append,
  ◌↔◌, inl,
}
use mathlib.Core.List.{append-nil}
use mac_homa.Wire.{ok}
use mac_homa.Wire.Bytes.{byte_at, read_u32, be_u32, put_byte, put_u32, copy_at}
use mac_homa.Wire.Write.{copy-replicate}
use mac_homa.Relay.Nic.{
  Wrote, done, failed, framed, write_framed, write, read_full, got_frame, read_body, read_sized,
  read,
}
use mac_homa.Relay.Cut.{
  IsPrefix, Takes, failed_inj, stopped, write_loop-IsPrefix, write_loop-eq-done_iff,
}

-- The length as four bytes, and the frame.
abbrev pub on_stream : List ℕ → List ℕ
on_stream f =
    let n = length f % 2 ^ 32 in n / 2 ^ 24 % 256 ∷ n / 2 ^ 16 % 256 ∷ n / 256 % 256 ∷ n % 256 ∷ f

framed-bytes : (f : List ℕ) → framed f ≡ ok (on_stream f)
unfolding framed put_u32 put_byte copy_at
framed-bytes f = rw (replicate-add {A = ℕ} 4 (length f) 0, copy-replicate f)

pub read_full-append : (f rest : List ℕ) → read_full (f ++ rest) (length f) ≡ some (f, rest)
unfolding read_full
read_full-append f rest =
    let n = length-append f rest in
    let h : ltb (length (f ++ rest)) (length f) ≡ false = ground arith in
    rw (h, take-append (length f) f rest refl, drop-append (length f) f rest refl)

pub read_u32-head :
    (f : List ℕ) → length f < 2 ^ 32 → read_u32 (take 4 (on_stream f)) 0 ≡ ok (length f)
unfolding read_u32 byte_at be_u32
read_u32-head f h = ap ok (omega arith)

read-some :
    (stream head rest : List ℕ)
    → read_full stream 4 ≡ some (head, rest)
    → read stream ≡ read_sized rest (read_u32 head 0)
unfolding read
read-some stream head rest h = rw (h, read)

read_body-append :
    (f rest : List ℕ)
    → 14 ≤ length f
    → length f ≤ 65535 + 14
    → read_body (f ++ rest) (length f) ≡ got_frame f rest
unfolding read_body
read_body-append f rest l m =
    let h : (ltb (length f) 14 || ltb (65535 + 14) (length f)) ≡ false = ground arith in
    rw (h, read_full-append f rest)

read-on_stream :
    (f rest : List ℕ)
    → 14 ≤ length f
    → length f ≤ 65535 + 14
    → read (on_stream f ++ rest) ≡ got_frame f rest
unfolding read_sized
read-on_stream f rest l m =
    let first : read_full (on_stream f ++ rest) 4 ≡ some (take 4 (on_stream f), f ++ rest) =
      read_full-append (take 4 (on_stream f)) (f ++ rest) in
    read-some (on_stream f ++ rest) _ _ first
    ∙ ap (λ size. read_sized (f ++ rest) size) (read_u32-head f (omega arith))
    ∙ read_body-append f rest l m

-- However the connection cuts the writes, with an error or without, and however they end, it has
-- got the frame with its length before it or a part of that from its beginning. It has got the
-- whole when `write` gives no error; and when it has got the whole, no Write gave an error, and
-- `write` has not panicked on a count that is too large, then `write` gives no error. An error that
-- `write` gives back is that of the deadline or of a Write. `write` gives no error exactly when the
-- deadline is set without one and the Writes take the bytes between them, each some of what is
-- left, with no error from any of them.
pub write-IsPrefix :
    (deadline : Option ℕ) (answers : List Wrote) (f : List ℕ)
    → IsPrefix (on_stream f) deadline answers (write deadline answers f)
      × (((write deadline answers f).1 ≡ done)
          ↔ ((deadline ≡ none) × Takes (length (on_stream f)) answers))
unfolding write write_framed
write-IsPrefix (some e) answers f = (
  stopped (on_stream f) [] _ (some e) answers _ (failed e) (λ d. ground arith)
      (λ j d. inl (ap some (failed_inj d))) refl,
  (λ d. absurd (ground (arith, d)), λ t. absurd (ground (arith, t.0))),
)
write-IsPrefix none answers f =
    let ends = write_loop-eq-done_iff answers (on_stream f) [] in
    rw (framed-bytes f) (
      write_loop-IsPrefix (on_stream f) answers (on_stream f) [] refl,
      (λ d. (refl, ends.0 d), λ t. ends.1 t.1),
    )

-- Whatever follows on the stream, `read` takes back the frame that `write` has put there whole.
pub read-write :
    (answers : List Wrote) (f rest : List ℕ)
    → 14 ≤ length f
    → length f ≤ 65535 + 14
    → (write none answers f).1 ≡ done
    → read ((write none answers f).0 ++ rest) ≡ got_frame f rest
read-write answers f rest l m h =
    let p = (write-IsPrefix none answers f).0 in
    let same : (write none answers f).0 ≡ on_stream f =
      sym (append-nil (write none answers f).0)
      ∙ ap (λ t. (write none answers f).0 ++ t) (sym (p.done-whole h))
      ∙ p.split in
    rw same (read-on_stream f rest l m)
