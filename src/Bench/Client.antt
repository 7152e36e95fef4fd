-- ===== src/Bench/Client.antt =====
-- The rounds of `client`: warm calls, measured calls, and a measurement for each. A floating point
-- figure of a measurement is what it is computed from.
use mac_homa.Common.{
  ℕ, zero, suc, ◌+◌, ◌*◌, ◌/◌, ◌%◌, ◌^◌, ◌==◌, ltb, not, if◌then◌else◌, List, [], ◌∷◌, ◌++◌, length,
}
use Prim.Native.Nat.{bit_xor}
use mac_homa.Wire.{Result, ok}
use mac_homa.Relay.Packet.{equal}
use mac_homa.Bench.Latency.{Summary, latency_summary}

pub data Transport : Type 0 where
  homa tcp : Transport

-- What an exchange gives: an error, or the reply and the nanoseconds that it took.
pub data Exchanged : Type 0 where
  breaks : ℕ → Exchanged
  replies : List ℕ → ℕ → Exchanged

pub record Options : Type 0 where
  pub sizes : List ℕ
  pub warmup : ℕ
  pub small_samples : ℕ
  pub large_samples : ℕ
  pub rounds : ℕ

pub record Measurement : Type 0 where
  pub round : ℕ
  pub order : ℕ
  pub transport : Transport
  pub bytes : ℕ
  pub count : ℕ
  pub payload_bytes : ℕ
  pub summary : Summary
  pub samples : List ℕ

pub data Outcome {ℓ} (A : Type ℓ) : Type ℓ where
  call_failed : ℕ → Outcome A
  echo_mismatch : Outcome A
  no_samples : Outcome A
  passed : A → Outcome A

infixl 5 ◌>>=◌
abbrev pub ◌>>=◌ {ℓ κ} : {A : Type ℓ} {B : Type κ} → Outcome A → (A → Outcome B) → Outcome B
passed a >>= f = f a
call_failed e >>= f = call_failed e
echo_mismatch >>= f = echo_mismatch
no_samples >>= f = no_samples

-- The bytes of a payload from `i` on.
unfoldable pub payload_from : ℕ → ℕ → ℕ → List ℕ
payload_from round i zero = []
payload_from round i (suc n) =
    bit_xor (bit_xor (i * 31) (i / 2 ^ 8)) round % 256 ∷ payload_from round (suc i) n

abbrev pub samples_for : Options → ℕ → ℕ
samples_for o size = if ltb size 65536 then o.small_samples else o.large_samples

abbrev pub order_of : ℕ → List Transport
order_of round = if round % 2 == 0 then tcp ∷ homa ∷ [] else homa ∷ tcp ∷ []

-- `exchange` is what the call of that number gives.
module _ (exchange : ℕ → Transport → List ℕ → Exchanged) where
  unfoldable pub checked_call : Transport → List ℕ → ℕ → Outcome ℕ
  checked_call t payload calls = elim (exchange calls t payload) [
    | breaks e ↦ call_failed e
    | replies reply elapsed ↦ (if not (equal reply payload) then echo_mismatch else passed elapsed)
  ]

  unfoldable pub warm_loop : ℕ → Transport → List ℕ → ℕ → Outcome ℕ
  warm_loop zero t payload calls = passed calls
  warm_loop (suc n) t payload calls = do
    elapsed ← checked_call t payload calls
    warm_loop n t payload (suc calls)

  unfoldable pub sample_loop : ℕ → Transport → List ℕ → ℕ → List ℕ → Outcome (ℕ × List ℕ)
  sample_loop zero t payload calls samples = passed (calls, samples)
  sample_loop (suc n) t payload calls samples = do
    elapsed ← checked_call t payload calls
    sample_loop n t payload (suc calls) (samples ++ (elapsed ∷ []))

  -- `latencySummary` needs one sample.
  unfoldable pub summarize : ℕ → ℕ → Transport → ℕ → List ℕ → Result Summary → Outcome Measurement
  summarize round position t size samples (ok s) = passed (record {
    round = round;
    order = position + 1;
    transport = t;
    bytes = size;
    count = length samples;
    payload_bytes = 2 * size * length samples;
    summary = s;
    samples = samples;
  })
  summarize round position t size samples _ = no_samples

  unfoldable pub measure : Options → ℕ → ℕ → Transport → ℕ → ℕ → Outcome (ℕ × Measurement)
  measure o round position t size calls = do
    let payload = payload_from round 0 size
    warm ← warm_loop o.warmup t payload calls
    taken ← sample_loop (samples_for o size) t payload warm []
    m ← summarize round position t size taken.1 (latency_summary taken.1)
    passed (taken.0, m)

  unfoldable pub transport_loop :
      Options → ℕ → ℕ → List Transport → ℕ → ℕ → List Measurement → Outcome (ℕ × List Measurement)
  transport_loop o round position [] size calls results = passed (calls, results)
  transport_loop o round position (t ∷ order) size calls results = do
    measured ← measure o round position t size calls
    transport_loop o round (suc position) order size measured.0 (results ++ (measured.1 ∷ []))

  unfoldable pub payload_loop :
      Options → ℕ → List ℕ → ℕ → List Measurement → Outcome (ℕ × List Measurement)
  payload_loop o round [] calls results = passed (calls, results)
  payload_loop o round (size ∷ sizes) calls results = do
    measured ← transport_loop o round 0 (order_of round) size calls results
    payload_loop o round sizes measured.0 measured.1

  unfoldable pub round_loop :
      Options → ℕ → ℕ → ℕ → List Measurement → Outcome (ℕ × List Measurement)
  round_loop o zero round calls results = passed (calls, results)
  round_loop o (suc n) round calls results = do
    measured ← payload_loop o round o.sizes calls results
    round_loop o n (suc round) measured.0 measured.1

  unfoldable pub client : Options → Outcome (ℕ × List Measurement)
  client o = round_loop o o.rounds 1 0 []
