-- ===== src/Bench/Calls.antt =====
-- The calls of a measurement that passes.
use mac_homa.Common.{
  ℕ, zero, suc, ◌+◌, ◌*◌, ◌/◌, ◌%◌, ◌<◌, ◌≡◌, get_or, true, List, [], ◌∷◌, ◌++◌, length, arith,
  refl, ap, ◌∙◌, sym, subst, Bool-cases, inl, inr, ◌⊎◌, ==_iff,
}
use Prim.Native.Nat.{bit_xor}
use mathlib.Core.List.{append_assoc, append-nil}
use mac_homa.Wire.{Result, ok, err, panic}
use mac_homa.Relay.Packet.{equal}
use mac_homa.Bench.Latency.{Summary, latency_summary}
use mac_homa.Bench.Client.{
  Transport, Exchanged, breaks, replies, Options, Measurement, Outcome, call_failed, echo_mismatch,
  no_samples, passed, ◌>>=◌, payload_from, samples_for, checked_call, warm_loop, sample_loop,
  summarize, measure,
}
use mac_homa.Bench.Report.{count_for, item, item_of, IsPayload, IsMeasured}

-- A chain that passes has passed its first part.
pub >>=-passed :
    {A B : Type 0} (m : Outcome A) (f : A → Outcome B) {b : B}
    → (m >>= f) ≡ passed b
    → (a : A) × (m ≡ passed a) × (f a ≡ passed b)
>>=-passed (call_failed e) f h = cc
>>=-passed echo_mismatch f h = cc
>>=-passed no_samples f h = cc
>>=-passed (passed a) f h = (a, refl, h)

pub passed_inj : {A : Type 0} {a b : A} → passed a ≡ passed b → a ≡ b
passed_inj h = cc h

pub equal_sound : (a b : List ℕ) → equal a b ≡ true → a ≡ b
equal_sound [] [] h = refl
equal_sound [] (y ∷ b) h = absurd (ground arith)
equal_sound (x ∷ a) [] h = absurd (ground arith)
equal_sound (x ∷ a) (y ∷ b) h =
    let e : x ≡ y = (==_iff x y).0 (ground (arith, h)) in
    let rest : a ≡ b = equal_sound a b (ground (arith, h)) in rw (e, rest) refl

pub Exchanged-cases :
    (x : Exchanged)
    → ((e : ℕ) × (x ≡ breaks e)) ⊎ ((reply : List ℕ) × (elapsed : ℕ) × (x ≡ replies reply elapsed))
Exchanged-cases (breaks e) = inl (e, refl)
Exchanged-cases (replies reply elapsed) = inr (reply, elapsed, refl)

pair_eq : {B : Type 0} {a c : ℕ} {b d : B} → a ≡ c → b ≡ d → ◌≡◌ {A = ℕ × B} (a, b) (c, d)
pair_eq e f = cc (e, f)

from_first :
    (P : ℕ → Type 0) (n : ℕ) → P 0 → ((k : ℕ) → k < n → P (suc k)) → (k : ℕ) → k < suc n → P k
from_first P n h next zero l = h
from_first P n h next (suc k) l = next k (omega (arith, l))

abbrev measured : ℕ → ℕ → Transport → ℕ → List ℕ → Summary → Measurement
measured round position t size samples s = record {
  round = round;
  order = position + 1;
  transport = t;
  bytes = size;
  count = length samples;
  payload_bytes = 2 * size * length samples;
  summary = s;
  samples = samples;
}

length-payload_from : (round i n : ℕ) → length (payload_from round i n) ≡ n
unfolding payload_from
length-payload_from round i zero = refl
length-payload_from round i (suc n) = ap suc (length-payload_from round (suc i) n)

payload_from-at :
    (round i n k : ℕ)
    → k < n
    → get_or (payload_from round i n) k 0
      ≡ bit_xor (bit_xor ((i + k) * 31) ((i + k) / 256)) round % 256
unfolding payload_from
payload_from-at round i zero k h = absurd (omega (arith, h))
payload_from-at round i (suc n) zero h =
    ap (λ (j : ℕ). bit_xor (bit_xor (j * 31) (j / 256)) round % 256) (omega arith)
payload_from-at round i (suc n) (suc k) h =
    payload_from-at round (suc i) n k (omega (arith, h))
    ∙ ap (λ (j : ℕ). bit_xor (bit_xor (j * 31) (j / 256)) round % 256) (omega arith)

payload_from-IsPayload : (round size : ℕ) → IsPayload round size (payload_from round 0 size)
payload_from-IsPayload round size = record {
  long = length-payload_from round 0 size;
  bytes = λ i l.
      payload_from-at round 0 size i l
      ∙ ap (λ (j : ℕ). bit_xor (bit_xor (j * 31) (j / 256)) round % 256) (omega arith);
}

module _ (exchange : ℕ → Transport → List ℕ → Exchanged) where
  checked_call-passed :
      (t : Transport) (payload : List ℕ) (calls elapsed : ℕ)
      → checked_call exchange t payload calls ≡ passed elapsed
      → exchange calls t payload ≡ replies payload elapsed
  unfolding checked_call
  checked_call-passed t payload calls elapsed h =
      elim (Exchanged-cases (exchange calls t payload)) [
        | inl (e, is) ↦ absurd (ground (arith, h, is))
        | inr (reply, taken, is) ↦ elim (Bool-cases (equal reply payload)) [
          | inr other ↦ absurd (ground (arith, h, is, other))
          | inl same ↦
              let time : taken ≡ elapsed = passed_inj (rw (checked_call, is, same) at h) in
              let back : reply ≡ payload = equal_sound reply payload same in
              is ∙ rw (time, back) refl
        ]
      ]

  warm_loop-passed :
      (n : ℕ) (t : Transport) (payload : List ℕ) (calls calls' : ℕ)
      → warm_loop exchange n t payload calls ≡ passed calls'
      → (calls' ≡ calls + n)
        × ((k : ℕ)
            → k < n
            → (elapsed : ℕ) × (exchange (calls + k) t payload ≡ replies payload elapsed))
  unfolding warm_loop
  warm_loop-passed zero t payload calls calls' h =
      (sym (passed_inj h) ∙ omega arith, λ k l. absurd (omega (arith, l)))
  warm_loop-passed (suc n) t payload calls calls' h =
      let (elapsed, first, rest) = >>=-passed (checked_call exchange t payload calls) _ h in
      let (stop, warm) = warm_loop-passed n t payload (suc calls) calls' rest in
      (
        omega (arith, stop),
        from_first (λ k. (time : ℕ) × (exchange (calls + k) t payload ≡ replies payload time)) n
            (
              elapsed,
              ap (λ i. exchange i t payload) (omega arith)
                  ∙ checked_call-passed t payload calls elapsed first,
            )
            (λ k l.
              let (time, e) = warm k l in (time, ap (λ i. exchange i t payload) (omega arith) ∙ e)),
      )

  pub sample_loop-passed :
      (n : ℕ) (t : Transport) (payload : List ℕ) (calls : ℕ) (samples : List ℕ) (taken : ℕ × List ℕ)
      → sample_loop exchange n t payload calls samples ≡ passed taken
      → (new : List ℕ) × (taken ≡ (calls + n, samples ++ new))
        × (length new ≡ n)
        × ((k : ℕ) → k < n → exchange (calls + k) t payload ≡ replies payload (get_or new k 0))
  unfolding sample_loop
  sample_loop-passed zero t payload calls samples taken h = (
    [],
    sym (passed_inj h) ∙ pair_eq (omega arith) (sym (append-nil samples)),
    refl,
    λ k l. absurd (omega (arith, l)),
  )
  sample_loop-passed (suc n) t payload calls samples taken h =
      let (elapsed, first, rest) = >>=-passed (checked_call exchange t payload calls) _ h in
      let (new, is, long, timed) =
        sample_loop-passed n t payload (suc calls) (samples ++ (elapsed ∷ [])) taken rest in
      (
        elapsed ∷ new,
        is ∙ pair_eq (omega arith) (append_assoc samples (elapsed ∷ []) new),
        omega (arith, long),
        from_first
            (λ k. exchange (calls + k) t payload ≡ replies payload (get_or (elapsed ∷ new) k 0)) n
            (ap (λ i. exchange i t payload) (omega arith)
              ∙ checked_call-passed t payload calls elapsed first)
            (λ k l. ap (λ i. exchange i t payload) (omega arith) ∙ timed k l),
      )

  summarize-passed :
      (round position size : ℕ) (t : Transport) (samples : List ℕ) (r : Result Summary)
      (m : Measurement)
      → summarize exchange round position t size samples r ≡ passed m
      → (s : Summary) × (measured round position t size samples s ≡ m)
  unfolding summarize
  summarize-passed round position size t samples panic m h = absurd (ground arith)
  summarize-passed round position size t samples (err e) m h = absurd (ground arith)
  summarize-passed round position size t samples (ok s) m h = (s, passed_inj h)

  -- One measurement, with its calls.
  pub measure-passed :
      (o : Options) (round position : ℕ) (t : Transport) (size calls : ℕ) (found : ℕ × Measurement)
      → measure exchange o round position t size calls ≡ passed found
      → IsMeasured exchange o.warmup calls found.1 found.0
        × (item_of found.1 ≡ item round (position + 1) t size (count_for o size))
  unfolding measure
  measure-passed o round position t size calls found h =
      let payload = payload_from round 0 size in
      let n = samples_for o size in
      let (warm, h0, h1) = >>=-passed (warm_loop exchange o.warmup t payload calls) _ h in
      let (stop, warmed) = warm_loop-passed o.warmup t payload calls warm h0 in
      let (taken, h2, h3) = >>=-passed (sample_loop exchange n t payload warm []) _ h1 in
      let (new, is, long, timed) = sample_loop-passed n t payload warm [] taken h2 in
      let (m, h4, h5) =
        >>=-passed (summarize exchange round position t size taken.1 (latency_summary taken.1)) _
          h3 in
      let (s, same) =
        summarize-passed round position size t taken.1 (latency_summary taken.1) m h4 in
      let samples : taken.1 ≡ new = ap (λ (z : ℕ × List ℕ). z.1) is in
      let end : taken.0 ≡ warm + n = ap (λ (z : ℕ × List ℕ). z.0) is in
      let whole : measured round position t size new s ≡ m =
        ap (λ (b : List ℕ). measured round position t size b s) (sym samples) ∙ same in
      let count : samples_for o size ≡ count_for o size = ground arith in
      let found_is : (warm + n, measured round position t size new s) ≡ found =
        pair_eq (sym end) whole ∙ passed_inj h5 in
      subst
        (λ (z : ℕ × Measurement).
          IsMeasured exchange o.warmup calls z.1 z.0
          × (item_of z.1 ≡ item round (position + 1) t size (count_for o size)))
        found_is
        (
          record {
            payload = payload;
            is_payload = payload_from-IsPayload round size;
            ends = omega (arith, stop, long);
            warm = warmed;
            timed = λ k l.
                ap (λ i. exchange (i + k) t payload) (sym stop) ∙ timed k (omega (arith, l, long));
            counted = refl;
            total = refl;
          },
          ap (item round (position + 1) t size) (long ∙ count),
        )
