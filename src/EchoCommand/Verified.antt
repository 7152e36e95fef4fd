-- ===== src/EchoCommand/Verified.antt =====
-- A run that gives a report has verified every echo, and its figures are those of its calls.
use mac_homa.Common.{
  ℕ, zero, suc, ◌+◌, ◌-◌, ◌*◌, ◌/◌, ◌≤◌, ◌<◌, ◌≡◌, ◌==◌, List, [], ◌∷◌, ◌++◌, length, get_or,
  get_elem?-get_or, length-append, arith, refl, ◌∙◌, subst, Bool-cases, inl, inr, ==_iff,
}
use mac_homa.Relay.Packet.{equal}
use mac_homa.Bench.Latency.{sort}
use mac_homa.Bench.Quantiles.{IsQuantile, sort-IsSorted, sort-counts, sorted-counts}
use mac_homa.Bench.Client.{Exchanged, replies, passed}
use mac_homa.Bench.Calls.{>>=-passed, passed_inj, equal_sound, Exchanged-cases}
use mac_homa.EchoCommand.{payload, Report, report_of, echo_call, call_loop, run_calls}

-- Each of the calls brought its payload of `size` bytes back, in the time of the list.
abbrev pub IsEchoed : (ℕ → List ℕ → Exchanged) → ℕ → List ℕ → Type 0
IsEchoed exchange size latencies =
    (k : ℕ)
    → k < length latencies
    → exchange k (payload k 0 size) ≡ replies (payload k 0 size) (get_or latencies k 0)

get_or-before : (xs ys : List ℕ) (k : ℕ) → k < length xs → get_or (xs ++ ys) k 0 ≡ get_or xs k 0
get_or-before [] ys k h = absurd (omega arith)
get_or-before (x ∷ xs) ys zero h = refl
get_or-before (x ∷ xs) ys (suc k) h = get_or-before xs ys k (omega arith)

get_or-last : (xs : List ℕ) (x : ℕ) → get_or (xs ++ (x ∷ [])) (length xs) 0 ≡ x
get_or-last [] x = refl
get_or-last (y ∷ xs) x = get_or-last xs x

-- What the report says of the latencies.
pub record IsReport (size : ℕ) (latencies : List ℕ) (r : Report) : Type 0 where
  pub calls : r.calls ≡ length latencies
  pub bytes : r.bytes ≡ size
  pub median : IsQuantile 50 r.median latencies
  pub maximum : IsQuantile 100 r.maximum latencies

-- What stands at place `i` of the sorted latencies.
place-IsQuantile :
    (percent i : ℕ) (latencies : List ℕ)
    → i < length latencies
    → percent * length latencies ≤ 100 * suc i
    → 100 * i < percent * length latencies
    → IsQuantile percent (get_or (sort latencies) i 0) latencies
place-IsQuantile percent i latencies l reach near =
    let v = get_or (sort latencies) i 0 in
    let (m, a, b) = sort-counts v latencies in
    let (at_most, below) =
      sorted-counts (sort latencies) i (sort-IsSorted latencies) (omega (arith, m, l)) in
    record { reached = omega (arith, at_most, a, reach); nearest = omega (arith, below, b, near) }

report_of-IsReport :
    (size : ℕ) (latencies : List ℕ) (r : Report)
    → 0 < length latencies
    → report_of size (sort latencies) ≡ passed r
    → IsReport size latencies r
unfolding report_of
report_of-IsReport size latencies r l h =
    let m = (sort-counts 0 latencies).0 in
    let n = length (sort latencies) in
    let middle = get_elem?-get_or (sort latencies) ((n - 1) / 2) 0 (omega (arith, m, l)) in
    let last = get_elem?-get_or (sort latencies) (n - 1) 0 (omega (arith, m, l)) in
    let e = passed_inj (rw (report_of, middle, last) at h) in
    subst (IsReport size latencies) e (record {
      calls = m;
      bytes = refl;
      median =
          place-IsQuantile 50 ((n - 1) / 2) latencies (omega (arith, m, l)) (omega (arith, m, l))
            (omega (arith, m, l));
      maximum =
          place-IsQuantile 100 (n - 1) latencies (omega (arith, m, l)) (omega (arith, m, l))
            (omega (arith, m, l));
    })

module _ (exchange : ℕ → List ℕ → Exchanged) (size : ℕ) where
  echo_call-passed :
      (i elapsed : ℕ)
      → echo_call exchange i size ≡ passed elapsed
      → exchange i (payload i 0 size) ≡ replies (payload i 0 size) elapsed
  unfolding echo_call
  echo_call-passed i elapsed h = elim (Exchanged-cases (exchange i (payload i 0 size))) [
    | inl (e, is) ↦ absurd (ground (arith, h, is))
    | inr (reply, taken, is) ↦ elim (Bool-cases (equal reply (payload i 0 size))) [
      | inr other ↦ absurd (ground (arith, h, is, other))
      | inl same ↦
          let time : taken ≡ elapsed = passed_inj (rw (echo_call, is, same) at h) in
          let back : reply ≡ payload i 0 size = equal_sound reply (payload i 0 size) same in
          is ∙ rw (time, back) refl
    ]
  ]

  IsEchoed-snoc :
      (latencies : List ℕ) (elapsed : ℕ)
      → IsEchoed exchange size latencies
      → echo_call exchange (length latencies) size ≡ passed elapsed
      → IsEchoed exchange size (latencies ++ (elapsed ∷ []))
  IsEchoed-snoc latencies elapsed v h k l =
      let n = length-append latencies (elapsed ∷ []) in
      elim (Bool-cases (k == length latencies)) [
        | inl same ↦
            let e : k ≡ length latencies = (==_iff k (length latencies)).0 same in
            rw (e, get_or-last latencies elapsed) (echo_call-passed (length latencies) elapsed h)
        | inr other ↦
            let before : k < length latencies = ground (arith, other, l, n) in
            rw (get_or-before latencies (elapsed ∷ []) k before) (v k before)
      ]

  call_loop-IsEchoed :
      (count : ℕ) (latencies found : List ℕ)
      → IsEchoed exchange size latencies
      → call_loop exchange count (length latencies) size latencies ≡ passed found
      → IsEchoed exchange size found × (length found ≡ length latencies + count)
  unfolding call_loop
  call_loop-IsEchoed zero latencies found v h =
      subst (λ b. IsEchoed exchange size b × (length b ≡ length latencies + 0)) (passed_inj h)
        (v, omega arith)
  call_loop-IsEchoed (suc count) latencies found v h =
      let (elapsed, first, rest) = >>=-passed (echo_call exchange (length latencies) size) _ h in
      let more = latencies ++ (elapsed ∷ []) in
      let n : suc (length latencies) ≡ length more =
        omega (arith, length-append latencies (elapsed ∷ [])) in
      let (w, m) =
        call_loop-IsEchoed count more found (IsEchoed-snoc latencies elapsed v first)
          (subst (λ i. call_loop exchange count i size more ≡ passed found) n rest) in
      (w, omega (arith, n, m))

-- When `run` gives its report for one call or more, there are latencies of so many calls, each of
-- which brought its payload back in that time, and the report has their number, the size, the median
-- and the maximum.
pub run_calls-IsReport :
    (exchange : ℕ → List ℕ → Exchanged) (size count : ℕ) (r : Report)
    → 0 < count
    → run_calls exchange size count ≡ passed r
    → (latencies : List ℕ) × (length latencies ≡ count)
      × IsEchoed exchange size latencies
      × IsReport size latencies r
unfolding run_calls
run_calls-IsReport exchange size count r l h =
    let (latencies, first, rest) = >>=-passed (call_loop exchange count 0 size []) _ h in
    let (v, n) =
      call_loop-IsEchoed exchange size count [] latencies (λ k l. absurd (omega (arith, l)))
        first in
    let m : length latencies ≡ count = omega (arith, n) in
    (latencies, m, v, report_of-IsReport size latencies r (omega (arith, m, l)) rest)
