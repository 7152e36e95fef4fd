-- ===== src/Endpoint/Reassembly/Complete.antt =====
-- Reassembly of a message from its segments, in any order, with overlaps and duplicates.
use mac_homa.Common.{
  ℕ, some_inj, suc, ◌/◌, ◌+◌, ◌<◌, ◌≤◌, ltb, ◌&&◌, ◌≡◌, ◌↔◌, refl, ap, ◌∙◌, sym, subst, max, Bool,
  true, false, ◌||◌, List, [], ◌∷◌, Option, some, none, length, get_or, arith,
}
use mathlib.Core.Path.{ap₂}
use mac_homa.Endpoint.{Assembly}
use mac_homa.Endpoint.Reassembly.{
  new_assembly, has_byte, accept, advance_loop, advance, insert_segment,
}
use mac_homa.Endpoint.Reassembly.Bitmap.{tally_full, full_tally, has_byte-replicate_zero}
use mac_homa.Endpoint.Reassembly.Message.{
  IsPart, IsSegment, new_assembly-IsPart, no_conflicts, accept-IsPart, within, has_byte-accept_all,
  advance_loop-IsPart, advance_loop-bits, advance_loop_stops,
}

-- A DATA packet's offset, payload and `Incoming`.
pub record Segment : Type 0 where
  pub start : ℕ
  pub bytes : List ℕ
  pub incoming : ℕ

-- The segments go in one after the other.
unfoldable pub insert_all : Assembly → List Segment → Option Assembly
insert_all a [] = some a
insert_all a (s ∷ ss) = elim (insert_segment a s.start s.bytes s.incoming) [
  | none ↦ none
  | some a' ↦ insert_all a' ss
]

abbrev pub AllSegments : List ℕ → List Segment → Type 0
AllSegments message [] = Unit {0}
AllSegments message (s ∷ ss) = IsSegment message s.bytes s.start × AllSegments message ss

abbrev pub covered : List Segment → ℕ → Bool
covered [] j = false
covered (s ∷ ss) j = within s.start (length s.bytes) j || covered ss j

-- `contiguous` is at the first byte that is missing, or at the end.
abbrev Stops : Assembly → Type 0
Stops a = (ltb a.contiguous (length a.payload) && has_byte a.bits a.contiguous) ≡ false

-- What one segment makes of a part of the message.
record Inserted (message : List ℕ) (a : Assembly) (s : Segment) (b : Assembly) : Type 0 where
  done : insert_segment a s.start s.bytes s.incoming ≡ some b
  part : IsPart message b
  marks : (j : ℕ) → has_byte b.bits j ≡ (within s.start (length s.bytes) j || has_byte a.bits j)
  stops : Stops b

granted_to : Assembly → ℕ → Assembly
granted_to a incoming = record a { granted = max a.granted incoming }

insert_segment-Inserted :
    (message : List ℕ) (a : Assembly) (s : Segment)
    → IsPart message a
    → IsSegment message s.bytes s.start
    → (b : Assembly) × Inserted message a s b
unfolding granted_to
insert_segment-Inserted message a s v g =
    let a' = accept s.bytes s.start a in
    let c = granted_to a' s.incoming in
    let w = accept-IsPart message s.bytes s.start a v g in
    let u : IsPart message c = record {
      size = w.size;
      room = w.room;
      bytes = w.bytes;
      agrees = w.agrees;
      counted = w.counted;
      prefix = w.prefix;
      inside = w.inside;
    } in
    (
      advance_loop (length c.payload) c,
      record {
        done = unfold insert_segment advance in rw (no_conflicts message s.bytes s.start a v g);
        part = advance_loop-IsPart message (length c.payload) c u;
        marks = λ j.
            ap (λ bits. has_byte bits j) (advance_loop-bits (length c.payload) c)
            ∙ has_byte-accept_all message s.bytes s.start a j v g;
        stops = advance_loop_stops (length c.payload) c (omega arith);
      },
    )

record AllInserted (message : List ℕ) (a : Assembly) (ss : List Segment) (b : Assembly)
    : Type 0 where
  done : insert_all a ss ≡ some b
  part : IsPart message b
  marks : (j : ℕ) → has_byte b.bits j ≡ (covered ss j || has_byte a.bits j)
  stops : Stops b

insert_all-AllInserted :
    (message : List ℕ) (ss : List Segment) (a : Assembly)
    → IsPart message a
    → Stops a
    → AllSegments message ss
    → (b : Assembly) × AllInserted message a ss b
unfolding insert_all
insert_all-AllInserted message [] a v h g =
    (a, record { done = refl; part = v; marks = λ j. refl; stops = h })
insert_all-AllInserted message (s ∷ ss) a v h g =
    let (b, one) = insert_segment-Inserted message a s v g.0 in
    let (c, rest) = insert_all-AllInserted message ss b one.part one.stops g.1 in
    (
      c,
      record {
        done = rw (one.done, insert_all) rest.done;
        part = rest.part;
        marks = λ j. ground (arith, rest.marks j, one.marks j);
        stops = rest.stops;
      },
    )

-- Two lists of one length that agree at every place are equal.
list_ext :
    (xs ys : List ℕ)
    → length xs ≡ length ys
    → ((j : ℕ) → j < length ys → get_or xs j 0 ≡ get_or ys j 0)
    → xs ≡ ys
list_ext [] [] e h = refl
list_ext [] (y ∷ ys) e h = absurd (omega arith)
list_ext (x ∷ xs) [] e h = absurd (omega arith)
list_ext (x ∷ xs) (y ∷ ys) e h =
    ap₂ ◌∷◌ (h 0 (omega arith)) (list_ext xs ys (omega arith) (λ j l. h (suc j) (omega arith)))

empty_marks : (n incoming j : ℕ) (c : Bool) → (c || has_byte (new_assembly n incoming).bits j) ≡ c
unfolding new_assembly
empty_marks n incoming j c = let h = has_byte-replicate_zero ((n + 7) / 8) j in ground arith

new_assembly-Stops : (n incoming : ℕ) → Stops (new_assembly n incoming)
new_assembly-Stops n incoming =
    let none_yet = empty_marks n incoming 0 false in unfold new_assembly in ground arith

complete-IsPart :
    (message : List ℕ) (b : Assembly)
    → IsPart message b
    → b.count ≡ length message
    → b.payload ≡ message
complete-IsPart message b part e =
    list_ext b.payload message part.size
      (λ j l. part.agrees j (tally_full b.bits (length message) j (sym part.counted ∙ e) l))

-- Whatever segments of one message arrive, with any boundaries, in any order, overlapping or
-- repeated: none of them is refused as a conflict, and the count reaches the length of the message
-- exactly when every byte of it has come in some segment.
pub insert_all_complete :
    (message : List ℕ) (incoming : ℕ) (ss : List Segment)
    → AllSegments message ss
    → (b : Assembly) × (insert_all (new_assembly (length message) incoming) ss ≡ some b)
      × ((b.count ≡ length message) ↔ ((j : ℕ) → j < length message → covered ss j ≡ true))
insert_all_complete message incoming ss g =
    let n = length message in
    let (b, all) =
      insert_all-AllInserted message ss (new_assembly n incoming)
        (new_assembly-IsPart message incoming) (new_assembly-Stops (length message) incoming) g in
    let marks : (j : ℕ) → has_byte b.bits j ≡ covered ss j =
      λ j. all.marks j ∙ empty_marks n incoming j (covered ss j) in
    (
      b,
      all.done,
      (
        λ e j l. sym (marks j) ∙ tally_full b.bits n j (sym all.part.counted ∙ e) l,
        λ h. all.part.counted ∙ full_tally b.bits n (λ j l. marks j ∙ h j l),
      ),
    )

-- When segments of one message have gone in, in any order, overlapping or repeated, and the count
-- is the length of the message, then the assembled bytes are the message.
pub insert_all-payload :
    (message : List ℕ) (incoming : ℕ) (ss : List Segment) (b : Assembly)
    → AllSegments message ss
    → insert_all (new_assembly (length message) incoming) ss ≡ some b
    → b.count ≡ length message
    → b.payload ≡ message
insert_all-payload message incoming ss b g h e =
    let (c, all) =
      insert_all-AllInserted message ss (new_assembly (length message) incoming)
        (new_assembly-IsPart message incoming) (new_assembly-Stops (length message) incoming) g in
    let same : c ≡ b = some_inj (sym all.done ∙ h) in
    complete-IsPart message b (subst (IsPart message) same all.part) e

-- When segments of one message have gone in, in any order, overlapping or repeated, `contiguous` is
-- the length of the longest prefix of the message that has come: every byte below it has come in
-- some segment, and the byte at it has not, unless it is the end of the message.
pub insert_all-contiguous :
    (message : List ℕ) (incoming : ℕ) (ss : List Segment) (b : Assembly)
    → AllSegments message ss
    → insert_all (new_assembly (length message) incoming) ss ≡ some b
    → (b.contiguous ≤ length message)
      × ((j : ℕ) → j < b.contiguous → covered ss j ≡ true)
      × ((ltb b.contiguous (length message) && covered ss b.contiguous) ≡ false)
insert_all-contiguous message incoming ss b g h =
    let n = length message in
    let (c, all) =
      insert_all-AllInserted message ss (new_assembly n incoming)
        (new_assembly-IsPart message incoming) (new_assembly-Stops n incoming) g in
    let same : c ≡ b = some_inj (sym all.done ∙ h) in
    let marks : (j : ℕ) → has_byte c.bits j ≡ covered ss j =
      λ j. all.marks j ∙ empty_marks n incoming j (covered ss j) in
    subst
      (λ d.
        (d.contiguous ≤ n)
        × ((j : ℕ) → j < d.contiguous → covered ss j ≡ true)
        × ((ltb d.contiguous n && covered ss d.contiguous) ≡ false))
      same
      (
        all.part.inside,
        λ j l. sym (marks j) ∙ all.part.prefix j l,
        cc (all.stops, marks c.contiguous, all.part.size),
      )
