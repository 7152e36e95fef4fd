-- ===== src/Bench/Plan.antt =====
-- A benchmark that passes has measured what was planned, with every echo verified.
use mac_homa.Common.{ℕ, zero, suc, ◌≡◌, List, [], ◌∷◌, ◌++◌, map, arith, refl, ap, ◌∙◌, sym, subst}
use mathlib.Core.List.{append_assoc, append-nil}
use mac_homa.Bench.Client.{
  Transport, homa, tcp, Exchanged, Options, Measurement, passed, order_of, measure, transport_loop,
  payload_loop, round_loop, client,
}
use mac_homa.Bench.Report.{
  count_for, Item, item, item_of, sizes_plan, round_plan, IsMeasured, IsReport,
}
use mac_homa.Bench.Calls.{>>=-passed, passed_inj, measure-passed}

items-step :
    (results : List Measurement) (m : Measurement) (plan : List Item) {i : Item}
    → item_of m ≡ i
    → map item_of (results ++ (m ∷ [])) ++ plan ≡ map item_of results ++ (i ∷ plan)
items-step [] m plan e = ap (λ (i : Item). i ∷ plan) e
items-step (x ∷ results) m plan e = ap (◌∷◌ (item_of x)) (items-step results m plan e)

order_of-suc-suc : (round : ℕ) → order_of (suc (suc round)) ≡ order_of round
order_of-suc-suc round = ground arith

module _ (exchange : ℕ → Transport → List ℕ → Exchanged) where
  IsReport-snoc :
      (warmup start mid stop : ℕ) (results : List Measurement) (m : Measurement)
      → IsReport exchange warmup start results mid
      → IsMeasured exchange warmup mid m stop
      → IsReport exchange warmup start (results ++ (m ∷ [])) stop
  IsReport-snoc warmup start mid stop [] m v w =
      (stop, subst (λ i. IsMeasured exchange warmup i m stop) (sym v) w, refl)
  IsReport-snoc warmup start mid stop (q ∷ results) m (next, first, rest) w =
      (next, first, IsReport-snoc warmup next mid stop results m rest w)

  -- The report so far, with the plan for what has been added to it.
  abbrev IsPlanned : ℕ → List Measurement → List Item → ℕ × List Measurement → Type 0
  IsPlanned warmup results plan found =
      IsReport exchange warmup 0 found.1 found.0
      × (map item_of found.1 ≡ map item_of results ++ plan)

  -- Both transports for a size.
  transport_loop-IsPlanned :
      (o : Options) (round : ℕ) (first second : Transport) (size calls : ℕ)
      (results : List Measurement) (found : ℕ × List Measurement)
      → IsReport exchange o.warmup 0 results calls
      → transport_loop exchange o round 0 (first ∷ second ∷ []) size calls results ≡ passed found
      → IsPlanned o.warmup results
          (item round 1 first size (count_for o size)
            ∷ item round 2 second size (count_for o size)
            ∷ [])
          found
  unfolding transport_loop
  transport_loop-IsPlanned o round first second size calls results found v h =
      let (m, h0, h1) = >>=-passed (measure exchange o round 0 first size calls) _ h in
      let (w, e) = measure-passed exchange o round 0 first size calls m h0 in
      let (n, h2, h3) = >>=-passed (measure exchange o round 1 second size m.0) _ h1 in
      let (x, f) = measure-passed exchange o round 1 second size m.0 n h2 in
      let one = IsReport-snoc o.warmup 0 calls m.0 results m.1 v w in
      let two = IsReport-snoc o.warmup 0 m.0 n.0 (results ++ (m.1 ∷ [])) n.1 one x in
      subst (IsPlanned o.warmup results _) (passed_inj h3) (
        two,
        sym (append-nil _)
            ∙ items-step (results ++ (m.1 ∷ [])) n.1 [] f
            ∙ items-step results m.1 (item round 2 second size (count_for o size) ∷ []) e,
      )

  payload_loop-IsPlanned :
      (o : Options) (round : ℕ) (first second : Transport) (sizes : List ℕ) (calls : ℕ)
      (results : List Measurement) (found : ℕ × List Measurement)
      → order_of round ≡ (first ∷ second ∷ [])
      → IsReport exchange o.warmup 0 results calls
      → payload_loop exchange o round sizes calls results ≡ passed found
      → IsPlanned o.warmup results (sizes_plan o round first second sizes) found
  unfolding payload_loop
  payload_loop-IsPlanned o round first second [] calls results found order v h =
      subst (IsPlanned o.warmup results []) (passed_inj h)
        (v, sym (append-nil (map item_of results)))
  payload_loop-IsPlanned o round first second (size ∷ sizes) calls results found order v h =
      let (m, h0, h1) =
        >>=-passed (transport_loop exchange o round 0 (order_of round) size calls results) _ h in
      let both =
        subst (λ b. transport_loop exchange o round 0 b size calls results ≡ passed m) order h0 in
      let (w, e) = transport_loop-IsPlanned o round first second size calls results m v both in
      let (x, f) = payload_loop-IsPlanned o round first second sizes m.0 m.1 found order w h1 in
      let rest = sizes_plan o round first second sizes in
      (x, f ∙ ap (λ b. b ++ rest) e ∙ append_assoc (map item_of results) _ rest)

  round_loop-IsPlanned :
      (o : Options) (n round : ℕ) (first second : Transport) (calls : ℕ)
      (results : List Measurement) (found : ℕ × List Measurement)
      → order_of round ≡ (first ∷ second ∷ [])
      → order_of (suc round) ≡ (second ∷ first ∷ [])
      → IsReport exchange o.warmup 0 results calls
      → round_loop exchange o n round calls results ≡ passed found
      → IsPlanned o.warmup results (round_plan o n round first second) found
  unfolding round_loop
  round_loop-IsPlanned o zero round first second calls results found this next v h =
      subst (IsPlanned o.warmup results []) (passed_inj h)
        (v, sym (append-nil (map item_of results)))
  round_loop-IsPlanned o (suc n) round first second calls results found this next v h =
      let (m, h0, h1) = >>=-passed (payload_loop exchange o round o.sizes calls results) _ h in
      let (w, e) = payload_loop-IsPlanned o round first second o.sizes calls results m this v h0 in
      let (x, f) =
        round_loop-IsPlanned o n (suc round) second first m.0 m.1 found next
          (order_of-suc-suc round ∙ this) w h1 in
      let rest = round_plan o n (suc round) second first in
      (
        x,
        f
            ∙ ap (λ b. b ++ rest) e
            ∙ append_assoc (map item_of results) (sizes_plan o round first second o.sizes) rest,
      )

-- When the rounds of `client` pass, the report has one measurement for each round, size and transport:
-- Homa first in the first round, and the other way around in each next one, with as many samples as the
-- options ask for a size below 65536 or from there on. The calls are those of the measurements in
-- their order, first the warm ones and then one for each sample; each sent the payload of its
-- round and size over the transport of its measurement and got it back, a measured one in the time
-- that its sample is.
pub client-IsPlanned :
    (exchange : ℕ → Transport → List ℕ → Exchanged) (o : Options) (calls : ℕ)
    (results : List Measurement)
    → client exchange o ≡ passed (calls, results)
    → (map item_of results ≡ round_plan o o.rounds 1 homa tcp)
      × IsReport exchange o.warmup 0 results calls
unfolding client
client-IsPlanned exchange o calls results h =
    let (v, e) =
      round_loop-IsPlanned exchange o o.rounds 1 homa tcp 0 [] (calls, results) refl refl refl h in
    (e, v)
