-- ===== src/Relay/Cut.antt =====
-- The loop of `write` on a connection that cuts its Writes or fails.
use mac_homa.Common.{
  ℕ, ◌≢◌, zero, suc, ◌≤◌, ◌<◌, ◌≡◌, ◌==◌, ltb, List, [], ◌∷◌, ◌++◌, Option, none, some, length,
  take, drop, arith, refl, ap, ◌∙◌, sym, ◌-◌, ◌↔◌, subst, Bool-cases, inl, inr, ◌⊎◌, All,
}
use mathlib.Core.List.{append_assoc}
use mac_homa.Relay.Nic.{
  Wrote, wrote, Written, done, blocked, short_write, crashed, failed, write_loop,
}

take-drop : (n : ℕ) (b : List ℕ) → take n b ++ drop n b ≡ b
take-drop zero b = refl
take-drop (suc n) [] = refl
take-drop (suc n) (x ∷ b) = ap (◌∷◌ x) (take-drop n b)

abbrev pub error_of : Wrote → Option ℕ
error_of (wrote n e) = e

-- One of the Writes gave this error.
abbrev pub Gives : ℕ → List Wrote → Type 0
Gives e [] = ⊥
Gives e (a ∷ answers) = (error_of a ≡ some e) ⊎ Gives e answers

-- What the connection has got is the whole or a part from its beginning. It is the whole when `write`
-- gives no error; and when it is the whole, no Write gave an error, and `write` has not panicked, then
-- `write` gives none. An error that comes back is that of the deadline or of a Write.
pub record IsPrefix (whole : List ℕ) (deadline : Option ℕ) (answers : List Wrote)
    (out : List ℕ × Written) : Type 0 where
  pub rest : List ℕ
  pub split : out.0 ++ rest ≡ whole
  pub done-whole : out.1 ≡ done → rest ≡ []
  pub whole-done : All (λ a. error_of a ≡ none) answers → out.1 ≢ crashed → rest ≡ [] → out.1 ≡ done
  pub failure : (e : ℕ) → out.1 ≡ failed e → (deadline ≡ some e) ⊎ Gives e answers

pub failed_inj : {m n : ℕ} → failed m ≡ failed n → m ≡ n
failed_inj h = cc h

-- The loop stops with something left to send.
pub stopped :
    (whole sent b : List ℕ) (deadline : Option ℕ) (answers : List Wrote) (x : ℕ) (w : Written)
    → w ≢ done
    → ((e : ℕ) → w ≡ failed e → (deadline ≡ some e) ⊎ Gives e answers)
    → sent ++ (x ∷ b) ≡ whole
    → IsPrefix whole deadline answers (sent, w)
stopped whole sent b deadline answers x w n f e = record {
  rest = x ∷ b;
  split = e;
  done-whole = λ d. absurd (n d);
  whole-done = λ v c d. absurd (ground arith);
  failure = f;
}

pub write_loop-IsPrefix :
    (whole : List ℕ) (answers : List Wrote) (b sent : List ℕ)
    → sent ++ b ≡ whole
    → IsPrefix whole none answers (write_loop answers b sent)
unfolding write_loop
write_loop-IsPrefix whole answers [] sent e = record {
  rest = [];
  split = e;
  done-whole = λ d. refl;
  whole-done = λ v c d. refl;
  failure = λ n d. absurd (ground arith);
}
write_loop-IsPrefix whole [] (x ∷ b) sent e =
    stopped whole sent b none [] x blocked (λ d. ground arith) (λ n d. absurd (ground arith)) e
write_loop-IsPrefix whole (wrote n (some k) ∷ answers) (x ∷ b) sent e = record {
  rest = drop n (x ∷ b);
  split = append_assoc sent _ _ ∙ ap (λ t. sent ++ t) (take-drop n (x ∷ b)) ∙ e;
  done-whole = λ d. absurd (ground (arith, d));
  whole-done = λ v c d. absurd (ground (arith, v.0));
  failure = λ j d. inr (inl (ap some (failed_inj d)));
}
write_loop-IsPrefix whole (wrote n none ∷ answers) (x ∷ b) sent e =
    let split : (sent ++ take n (x ∷ b)) ++ drop n (x ∷ b) ≡ whole =
      append_assoc sent _ _ ∙ ap (λ t. sent ++ t) (take-drop n (x ∷ b)) ∙ e in
    elim (Bool-cases (n == 0)) [
      | inl idle ↦ rw idle (
          stopped whole sent b none (wrote n none ∷ answers) x short_write (λ d. ground arith)
            (λ j d. absurd (ground arith)) e)
      | inr some' ↦ elim (Bool-cases (ltb (suc (length b)) n)) [
        | inl over ↦
            rw (some', over)
              (record {
                rest = drop n (x ∷ b);
                split = split;
                done-whole = λ d. absurd (ground (arith, d));
                whole-done = λ v c d. absurd (c refl);
                failure = λ j d. absurd (ground (arith, d));
              })
        | inr within ↦
            let next =
              write_loop-IsPrefix whole answers (drop n (x ∷ b)) (sent ++ take n (x ∷ b)) split in
            rw (some', within)
              (record {
                rest = next.rest;
                split = next.split;
                done-whole = next.done-whole;
                whole-done = λ v c d. next.whole-done v.1 c d;
                failure = λ j d. elim (next.failure j d) [ inl h ↦ inl h | inr h ↦ inr (inr h) ];
              })
      ]
    ]

abbrev pub count_of : Wrote → ℕ
count_of (wrote n e) = n

-- The Writes take n bytes between them, each some of what is left, and none gives an error before that.
abbrev pub Takes : ℕ → List Wrote → Type 0
Takes n [] = n ≡ 0
Takes n (a ∷ answers) =
    (n ≡ 0)
    ⊎ ((error_of a ≡ none) × (0 < count_of a) × (count_of a ≤ n) × Takes (n - count_of a) answers)

Takes-zero : (answers : List Wrote) → Takes 0 answers
Takes-zero [] = refl
Takes-zero (a ∷ answers) = inl refl

length-drop : (n : ℕ) (b : List ℕ) → length (drop n b) ≡ length b - n
length-drop zero b = omega arith
length-drop (suc n) [] = omega arith
length-drop (suc n) (x ∷ b) = length-drop n b ∙ omega arith

pub write_loop-eq-done_iff :
    (answers : List Wrote) (b sent : List ℕ)
    → ((write_loop answers b sent).1 ≡ done) ↔ Takes (length b) answers
unfolding write_loop
write_loop-eq-done_iff answers [] sent = (λ d. Takes-zero answers, λ t. refl)
write_loop-eq-done_iff [] (x ∷ b) sent =
    (λ d. absurd (ground (arith, d)), λ t. absurd (ground (arith, t)))
write_loop-eq-done_iff (wrote n (some e) ∷ answers) (x ∷ b) sent =
    (λ d. absurd (ground (arith, d)), λ t. absurd (ground (arith, t)))
write_loop-eq-done_iff (wrote n none ∷ answers) (x ∷ b) sent =
    let next = write_loop-eq-done_iff answers (drop n (x ∷ b)) (sent ++ take n (x ∷ b)) in
    let left : length (drop n (x ∷ b)) ≡ suc (length b) - n = length-drop n (x ∷ b) in
    elim (Bool-cases (n == 0)) [
      | inl idle ↦ rw idle (
        λ d. absurd (ground (arith, d)),
        λ t. absurd (elim t [
          | inl z ↦ omega (arith, z)
          | inr (none', some', fit, rest) ↦ ground (arith, some', idle)
        ]),
      )
      | inr some' ↦ elim (Bool-cases (ltb (suc (length b)) n)) [
        | inl over ↦
            rw (some', over)
              (
                λ d. absurd (ground (arith, d)),
                λ t. absurd (elim t [
                  | inl z ↦ omega (arith, z)
                  | inr (none', some'', fit, rest) ↦ ground (arith, fit, over)
                ]),
              )
        | inr within ↦
            rw (some', within)
              (
                λ d. inr (
                  refl,
                  ground (arith, some'),
                  ground (arith, within),
                  subst (λ k. Takes k answers) left (next.0 d),
                ),
                λ t. elim t [
                  | inl z ↦ absurd (omega (arith, z))
                  | inr (none', some'', fit, rest) ↦
                      next.1 (subst (λ k. Takes k answers) (sym left) rest)
                ],
              )
      ]
    ]
