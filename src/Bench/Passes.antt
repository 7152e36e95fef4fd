-- ===== src/Bench/Passes.antt =====
-- A benchmark over exchanges that echo passes.
use mac_homa.Common.{
  ℕ, zero, suc, ◌<◌, ◌≡◌, true, List, [], ◌∷◌, ◌++◌, length, arith, refl, ap, ◌∙◌, ==_refl,
}
use mac_homa.Relay.Packet.{equal}
use mac_homa.Bench.Latency.{latency_summary}
use mac_homa.Bench.Quantiles.{latency_summary-IsQuantile}
use mac_homa.Bench.Client.{
  Transport, Exchanged, replies, Options, Measurement, Outcome, passed, ◌>>=◌, payload_from,
  samples_for, order_of, checked_call, warm_loop, sample_loop, summarize, measure, transport_loop,
  payload_loop, round_loop, client,
}
use mac_homa.Bench.Calls.{sample_loop-passed}

-- Every exchange gives the payload back.
abbrev pub IsEchoing : (ℕ → Transport → List ℕ → Exchanged) → Type 0
IsEchoing exchange =
    (k : ℕ) (t : Transport) (payload : List ℕ)
    → (elapsed : ℕ) × (exchange k t payload ≡ replies payload elapsed)

abbrev Passes : {A : Type 0} → Outcome A → Type 0
Passes {A = A} m = (a : A) × (m ≡ passed a)

equal_refl : (b : List ℕ) → equal b b ≡ true
equal_refl [] = refl
equal_refl (x ∷ b) = ground (arith, ==_refl x, equal_refl b)

-- Chains of outcomes that pass.
Passes-bind :
    {A B : Type 0} (m : Outcome A) (f : A → Outcome B)
    → Passes m
    → ((a : A) → m ≡ passed a → Passes (f a))
    → Passes (m >>= f)
Passes-bind m f (a, e) k = let (b, g) = k a e in (b, rw e g)

module _ (exchange : ℕ → Transport → List ℕ → Exchanged) (echoes : IsEchoing exchange) where
  checked_call-Passes :
      (t : Transport) (payload : List ℕ) (calls : ℕ)
      → Passes (checked_call exchange t payload calls)
  unfolding checked_call
  checked_call-Passes t payload calls =
      let (elapsed, e) = echoes calls t payload in
      (elapsed, rw (checked_call, e, equal_refl payload) refl)

  warm_loop-Passes :
      (n : ℕ) (t : Transport) (payload : List ℕ) (calls : ℕ)
      → Passes (warm_loop exchange n t payload calls)
  unfolding warm_loop
  warm_loop-Passes zero t payload calls = (calls, refl)
  warm_loop-Passes (suc n) t payload calls =
      Passes-bind _ _ (checked_call-Passes t payload calls)
        λ elapsed e. warm_loop-Passes n t payload (suc calls)

  sample_loop-Passes :
      (n : ℕ) (t : Transport) (payload : List ℕ) (calls : ℕ) (samples : List ℕ)
      → Passes (sample_loop exchange n t payload calls samples)
  unfolding sample_loop
  sample_loop-Passes zero t payload calls samples = ((calls, samples), refl)
  sample_loop-Passes (suc n) t payload calls samples =
      Passes-bind _ _ (checked_call-Passes t payload calls)
        λ elapsed e. sample_loop-Passes n t payload (suc calls) (samples ++ (elapsed ∷ []))

  module _ (o : Options) (small : 0 < o.small_samples) (large : 0 < o.large_samples) where
    measure-Passes :
        (round position : ℕ) (t : Transport) (size calls : ℕ)
        → Passes (measure exchange o round position t size calls)
    unfolding measure summarize
    measure-Passes round position t size calls =
        let payload = payload_from round 0 size in
        let n = samples_for o size in
        let some' : 0 < n = ground (arith, small, large) in
        Passes-bind _ _ (warm_loop-Passes o.warmup t payload calls) λ warm e.
          Passes-bind _ _ (sample_loop-Passes n t payload warm []) λ taken f.
            let (new, is, long, timed) = sample_loop-passed exchange n t payload warm [] taken f in
            let l : length taken.1 ≡ n = ap (λ (z : ℕ × List ℕ). length z.1) is ∙ long in
            let found = latency_summary-IsQuantile taken.1 (omega (arith, l, some')) in
            Passes-bind (summarize exchange round position t size taken.1 (latency_summary taken.1))
              _ (rw found.1 (_, refl)) λ m h. ((taken.0, m), refl)

    transport_loop-Passes :
        (round position : ℕ) (order : List Transport) (size calls : ℕ) (results : List Measurement)
        → Passes (transport_loop exchange o round position order size calls results)
    unfolding transport_loop
    transport_loop-Passes round position [] size calls results = ((calls, results), refl)
    transport_loop-Passes round position (t ∷ order) size calls results =
        Passes-bind _ _ (measure-Passes round position t size calls)
          λ m e. transport_loop-Passes round (suc position) order size m.0 (results ++ (m.1 ∷ []))

    payload_loop-Passes :
        (round : ℕ) (sizes : List ℕ) (calls : ℕ) (results : List Measurement)
        → Passes (payload_loop exchange o round sizes calls results)
    unfolding payload_loop
    payload_loop-Passes round [] calls results = ((calls, results), refl)
    payload_loop-Passes round (size ∷ sizes) calls results =
        Passes-bind _ _ (transport_loop-Passes round 0 (order_of round) size calls results)
          λ m e. payload_loop-Passes round sizes m.0 m.1

    round_loop-Passes :
        (n round calls : ℕ) (results : List Measurement)
        → Passes (round_loop exchange o n round calls results)
    unfolding round_loop
    round_loop-Passes zero round calls results = ((calls, results), refl)
    round_loop-Passes (suc n) round calls results =
        Passes-bind _ _ (payload_loop-Passes round o.sizes calls results)
          λ m e. round_loop-Passes n (suc round) m.0 m.1

-- When every exchange gives its payload back and there is a sample at least of each kind, the rounds of
-- `client` pass.
pub client_passes :
    (exchange : ℕ → Transport → List ℕ → Exchanged) (o : Options)
    → IsEchoing exchange
    → 0 < o.small_samples
    → 0 < o.large_samples
    → (calls : ℕ) × (results : List Measurement) × (client exchange o ≡ passed (calls, results))
unfolding client
client_passes exchange o echoes small large =
    let (found, e) = round_loop-Passes exchange echoes o small large o.rounds 1 0 [] in
    (found.0, found.1, e)
