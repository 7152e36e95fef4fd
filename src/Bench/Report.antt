-- ===== src/Bench/Report.antt =====
-- What a report of `client` should be: the planned measurements, and the calls that they stand for.
use mac_homa.Common.{
  ℕ, zero, suc, ◌+◌, ◌*◌, ◌/◌, ◌%◌, ◌<◌, ◌≡◌, leb, if◌then◌else◌, get_or, List, [], ◌∷◌, ◌++◌,
  length,
}
use Prim.Native.Nat.{bit_xor}
use mac_homa.Bench.Client.{Transport, Exchanged, replies, Options, Measurement}

-- The heads of a measurement, without what the run has found.
pub record Item : Type 0 where
  pub round : ℕ
  pub order : ℕ
  pub transport : Transport
  pub bytes : ℕ
  pub count : ℕ

abbrev pub item : ℕ → ℕ → Transport → ℕ → ℕ → Item
item round order transport bytes count = record {
  round = round;
  order = order;
  transport = transport;
  bytes = bytes;
  count = count;
}

abbrev pub item_of : Measurement → Item
item_of m = item m.round m.order m.transport m.bytes (length m.samples)

-- Messages of 65536 bytes and more are the large ones.
abbrev pub count_for : Options → ℕ → ℕ
count_for o size = if leb 65536 size then o.large_samples else o.small_samples

abbrev pub sizes_plan : Options → ℕ → Transport → Transport → List ℕ → List Item
sizes_plan o round first second [] = []
sizes_plan o round first second (size ∷ sizes) =
    item round 1 first size (count_for o size)
    ∷ item round 2 second size (count_for o size)
    ∷ sizes_plan o round first second sizes

-- Every size with both transports in each round; the next round has them the other way around.
abbrev pub round_plan : Options → ℕ → ℕ → Transport → Transport → List Item
round_plan o zero round first second = []
round_plan o (suc n) round first second =
    sizes_plan o round first second o.sizes ++ round_plan o n (suc round) second first

-- The payload of a size in a round.
pub record IsPayload (round size : ℕ) (payload : List ℕ) : Type 0 where
  pub long : length payload ≡ size
  pub bytes :
      (i : ℕ) → i < size → get_or payload i 0 ≡ bit_xor (bit_xor (i * 31) (i / 256)) round % 256

-- The calls from `start` to `stop` are those of a measurement: first the warm ones, then one for each
-- sample. Each sent the payload of the measurement's round and size over its transport and got it
-- back, a measured one in the time that its sample is.
pub record IsMeasured (exchange : ℕ → Transport → List ℕ → Exchanged) (warmup start : ℕ)
    (m : Measurement) (stop : ℕ) : Type 0 where
  pub payload : List ℕ
  pub is_payload : IsPayload m.round m.bytes payload
  pub ends : stop ≡ start + (warmup + length m.samples)
  pub warm :
      (k : ℕ)
      → k < warmup
      → (elapsed : ℕ) × (exchange (start + k) m.transport payload ≡ replies payload elapsed)
  pub timed :
      (k : ℕ)
      → k < length m.samples
      → exchange (start + warmup + k) m.transport payload ≡ replies payload (get_or m.samples k 0)
  pub counted : m.count ≡ length m.samples
  pub total : m.payload_bytes ≡ 2 * m.bytes * length m.samples

-- The calls from `start` to `stop` are those of the measurements, in their order.
abbrev pub IsReport : (ℕ → Transport → List ℕ → Exchanged) → ℕ → ℕ → List Measurement → ℕ → Type 0
IsReport exchange warmup start [] stop = start ≡ stop
IsReport exchange warmup start (m ∷ results) stop =
    (mid : ℕ) × IsMeasured exchange warmup start m mid × IsReport exchange warmup mid results stop
