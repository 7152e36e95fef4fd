-- ===== src/Endpoint/Reassembly/Message.antt =====
-- An assembly that holds part of a given message, under the loops of `data`.
use mac_homa.Common.{
  ℕ, zero, suc, ◌+◌, ◌/◌, ◌≤◌, ◌<◌, ◌≡◌, ◌≢◌, refl, ◌∙◌, sym, Bool, true, false, not, ◌&&◌, ◌||◌,
  ◌==◌, ltb, List, [], ◌∷◌, length, get_or, set, All, get_or-set_self, get_or-set_ne, length-set,
  length-replicate, arith, Bool-cases, inl, inr, ==_iff,
}
use mac_homa.Endpoint.{Assembly}
use mac_homa.Endpoint.Reassembly.{
  new_assembly, has_byte, mark, conflicts, accept_byte, accept, advance_loop,
}
use mac_homa.Endpoint.Reassembly.Bitmap.{
  IsByte, mark-All, All-replicate_zero, has_byte-mark, has_byte-replicate_zero, tally, tally-mark,
  tally-replicate_zero,
}

-- What has arrived is the message's, is counted, and begins with a whole prefix up to `contiguous`.
pub record IsPart (message : List ℕ) (a : Assembly) : Type 0 where
  pub size : length a.payload ≡ length message
  pub room : length a.bits ≡ (length message + 7) / 8
  pub bytes : All IsByte a.bits
  pub agrees : (j : ℕ) → has_byte a.bits j ≡ true → get_or a.payload j 0 ≡ get_or message j 0
  pub counted : a.count ≡ tally a.bits (length message)
  pub prefix : (j : ℕ) → j < a.contiguous → has_byte a.bits j ≡ true
  pub inside : a.contiguous ≤ length message

pub new_assembly-IsPart :
    (message : List ℕ) (incoming : ℕ) → IsPart message (new_assembly (length message) incoming)
unfolding new_assembly
new_assembly-IsPart message incoming =
    let zero_byte : ℕ = 0 in
    record {
      size = length-replicate (length message) zero_byte;
      room = length-replicate ((length message + 7) / 8) zero_byte;
      bytes = All-replicate_zero ((length message + 7) / 8);
      agrees = λ j h. cc (has_byte-replicate_zero ((length message + 7) / 8) j);
      counted = sym (tally-replicate_zero ((length message + 7) / 8) (length message));
      prefix = λ j h. absurd (omega arith);
      inside = omega arith;
    }

-- The segment at `at` of the message.
abbrev pub IsSegment : List ℕ → List ℕ → ℕ → Type 0
IsSegment message [] at = at ≤ length message
IsSegment message (x ∷ xs) at =
    (at < length message) × (x ≡ get_or message at 0) × IsSegment message xs (suc at)

-- A byte that is new is marked, written and counted.
module _ (message : List ℕ) (at x : ℕ) (a : Assembly) (v : IsPart message a)
    (l : at < length message) where
  fits : at / 8 < length a.bits
  fits = omega (arith, v.room)

  pub has_byte-accept :
      (j : ℕ) → has_byte (accept_byte at x a).bits j ≡ ((at == j) || has_byte a.bits j)
  unfolding accept_byte
  has_byte-accept j = elim (Bool-cases (has_byte a.bits at)) [
    | inl old ↦ elim (Bool-cases (at == j)) [
      | inl same ↦ let e : j ≡ at = sym ((==_iff at j).0 same) in rw (old, same) (rw e old)
      | inr other ↦ rw (old, other)
    ]
    | inr new ↦ rw new (has_byte-mark a.bits at j v.bytes fits)
  ]

  agrees_new :
      x ≡ get_or message at 0
      → (j : ℕ) → has_byte (mark a.bits at) j ≡ true
      → get_or (set a.payload at x) j 0 ≡ get_or message j 0
  agrees_new is j h = elim (Bool-cases (at == j)) [
    | inl same ↦
        let e : j ≡ at = sym ((==_iff at j).0 same) in
        rw e (get_or-set_self a.payload at x 0 (omega (arith, v.size)) ∙ is)
    | inr other ↦
        let ne : at ≢ j = ground arith in
        get_or-set_ne a.payload at j x 0 ne
        ∙ v.agrees j (ground (arith, has_byte-mark a.bits at j v.bytes fits))
  ]

  pub accept_byte-IsPart : x ≡ get_or message at 0 → IsPart message (accept_byte at x a)
  unfolding accept_byte
  accept_byte-IsPart is = elim (Bool-cases (has_byte a.bits at)) [
    | inl old ↦ rw old v
    | inr new ↦ rw new (record {
      size = length-set a.payload at x ∙ v.size;
      room = unfold mark in length-set a.bits (at / 8) _ ∙ v.room;
      bytes = mark-All a.bits at v.bytes;
      agrees = agrees_new is;
      counted = ground (arith, tally-mark a.bits at (length message) v.bytes fits new, v.counted);
      prefix = λ j h. ground (arith, has_byte-mark a.bits at j v.bytes fits, v.prefix j h);
      inside = v.inside;
    })
  ]

-- A segment of the message conflicts with no part of it.
pub no_conflicts :
    (message xs : List ℕ) (at : ℕ) (a : Assembly)
    → IsPart message a
    → IsSegment message xs at
    → conflicts xs at a ≡ false
unfolding conflicts
no_conflicts message [] at a v s = refl
no_conflicts message (x ∷ xs) at a v s =
    ground (arith, v.agrees at, no_conflicts message xs (suc at) a v s.2)

pub accept-IsPart :
    (message xs : List ℕ) (at : ℕ) (a : Assembly)
    → IsPart message a
    → IsSegment message xs at
    → IsPart message (accept xs at a)
unfolding accept
accept-IsPart message [] at a v s = v
accept-IsPart message (x ∷ xs) at a v s =
    accept-IsPart message xs (suc at) (accept_byte at x a)
      (accept_byte-IsPart message at x a v s.0 s.1) s.2

-- `at <= j < at + n`
abbrev pub within : ℕ → ℕ → ℕ → Bool
within at n j = not (ltb j at) && ltb j (at + n)

-- After a segment, the bytes that were there and those of the segment have arrived.
pub has_byte-accept_all :
    (message xs : List ℕ) (at : ℕ) (a : Assembly) (j : ℕ)
    → IsPart message a
    → IsSegment message xs at
    → has_byte (accept xs at a).bits j ≡ (within at (length xs) j || has_byte a.bits j)
unfolding accept
has_byte-accept_all message [] at a j v s = ground arith
has_byte-accept_all message (x ∷ xs) at a j v s = ground (
  arith,
  has_byte-accept_all message xs (suc at) (accept_byte at x a) j
      (accept_byte-IsPart message at x a v s.0 s.1) s.2,
  has_byte-accept message at x a v s.0 j,
)

next_prefix :
    (a : Assembly) (j : ℕ)
    → ((i : ℕ) → i < a.contiguous → has_byte a.bits i ≡ true)
    → has_byte a.bits a.contiguous ≡ true
    → j < a.contiguous + 1
    → has_byte a.bits j ≡ true
next_prefix a j p last l = elim (Bool-cases (j == a.contiguous)) [
  | inl same ↦ let e : j ≡ a.contiguous = (==_iff j a.contiguous).0 same in rw e last
  | inr other ↦ p j (ground arith)
]

-- `contiguous` moves over bytes that have arrived, and nothing else changes.
pub advance_loop-IsPart :
    (message : List ℕ) (n : ℕ) (a : Assembly) → IsPart message a → IsPart message (advance_loop n a)
unfolding advance_loop
advance_loop-IsPart message zero a v = v
advance_loop-IsPart message (suc n) a v =
    let a' : Assembly = record a { contiguous = a.contiguous + 1 } in
    elim (Bool-cases (ltb a.contiguous (length a.payload) && has_byte a.bits a.contiguous)) [
      | inr stop ↦ rw (stop, advance_loop) v
      | inl more ↦
          rw (more, advance_loop)
            (advance_loop-IsPart message n a' (record {
              size = v.size;
              room = v.room;
              bytes = v.bytes;
              agrees = v.agrees;
              counted = v.counted;
              prefix = λ j h. next_prefix a j v.prefix (ground arith) h;
              inside = let s = v.size in ground arith;
            }))
    ]

pub advance_loop-bits : (n : ℕ) (a : Assembly) → (advance_loop n a).bits ≡ a.bits
unfolding advance_loop
advance_loop-bits zero a = refl
advance_loop-bits (suc n) a =
    elim (Bool-cases (ltb a.contiguous (length a.payload) && has_byte a.bits a.contiguous)) [
      | inr stop ↦ rw (stop, advance_loop)
      | inl more ↦
          rw (more, advance_loop) (advance_loop-bits n (record a { contiguous = a.contiguous + 1 }))
    ]

-- With rounds enough, the loop ends at the first byte that is missing, or at the end.
pub advance_loop_stops :
    (n : ℕ) (a : Assembly)
    → length a.payload ≤ a.contiguous + n
    → let b = advance_loop n a in
      (ltb b.contiguous (length b.payload) && has_byte b.bits b.contiguous) ≡ false
unfolding advance_loop
advance_loop_stops zero a h = ground arith
advance_loop_stops (suc n) a h =
    elim (Bool-cases (ltb a.contiguous (length a.payload) && has_byte a.bits a.contiguous)) [
      | inr stop ↦ rw (stop, advance_loop) stop
      | inl more ↦
          rw (more, advance_loop)
            (advance_loop_stops n (record a { contiguous = a.contiguous + 1 }) (omega arith))
    ]
