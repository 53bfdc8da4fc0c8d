-- ===== src/Chaos/Scores.antt =====
-- backend/internal/chaos/runner.go: what a scorecard says of the visits that it was made from.
use shc.Base.{
  ℕ, zero, suc, ◌+◌, ◌≤◌, ◌<◌, ◌≡◌, refl, subst, inl, inr, List, [], ◌∷◌, Option, none, some, Bool,
  true, false, arith, ◌==◌, holds, text_discrete, if◌then◌else◌, length, get_or, Bool-cases,
}
use shc.Base.Floats.{Floats}
use shc.Base.Sort.{sort}
use shc.Base.Sort.Laws.{IsSorted, sort-IsSorted, length-sort, get_or-All}
use shc.Http.{Reply, no_request, no_response, answered}
use shc.Chaos.{
  Config, GetResult, Visit, Tally, no_visits, visit, work, Scorecard, Share, scorecard, run,
}

-- The tally of n visits.
pub record IsTally (n : ℕ) (t : Tally) : Type 0 where
  pub counted : t.success_count + t.failed_count ≡ n
  pub failovers : t.failover_count ≤ t.success_count
  pub corruptions : t.corrupt_count ≡ 0
  pub measured : length t.latencies ≡ n

failed-IsTally :
    (n : ℕ) (t : Tally) (latency : ℕ)
    → IsTally n t
    → IsTally
        (n + 1)
        (record t { failed_count = t.failed_count + 1; latencies = latency ∷ t.latencies })
failed-IsTally n t latency h = record {
  counted = omega (arith, h.counted);
  failovers = h.failovers;
  corruptions = h.corruptions;
  measured = omega (arith, h.measured);
}

visit-IsTally : (n : ℕ) (t : Tally) (v : Visit) → IsTally n t → IsTally (n + 1) (visit t v)
unfolding visit
visit-IsTally n t v h = replied v.got
  where
    hit : (res : GetResult) → IsTally (n + 1) (visit t (record v { got = answered 200 (some res) }))
    hit res = elim (Bool-cases (holds (text_discrete res.status "hit"))) [
      | inr e ↦ rw e (failed-IsTally n t v.latency h)
      | inl e ↦ rw e (record {
        counted = omega (arith, h.counted);
        failovers = counts res.is_failover;
        corruptions = h.corruptions;
        measured = omega (arith, h.measured);
      })
    ]
      where
        counts :
            (b : Bool)
            → (if b then t.failover_count + 1 else t.failover_count) ≤ t.success_count + 1
        counts true = omega (arith, h.failovers)
        counts false = omega (arith, h.failovers)

    decoded :
        (body : Option GetResult) → IsTally (n + 1) (visit t (record v { got = answered 200 body }))
    decoded none = failed-IsTally n t v.latency h
    decoded (some res) = hit res

    replied : (r : Reply GetResult) → IsTally (n + 1) (visit t (record v { got = r }))
    replied no_request = failed-IsTally n t v.latency h
    replied no_response = failed-IsTally n t v.latency h
    replied (answered status body) = elim (Bool-cases (status == 200)) [
      | inl e ↦ rw e (decoded body)
      | inr e ↦ rw e (failed-IsTally n t v.latency h)
    ]

work-IsTally :
    (n : ℕ) (t : Tally) (vs : List Visit) → IsTally n t → IsTally (n + length vs) (work t vs)
unfolding work
work-IsTally n t [] h = rw (n_plus_0 n) h
  where
    n_plus_0 : (m : ℕ) → m + 0 ≡ m
    n_plus_0 m = omega arith
work-IsTally n t (v ∷ vs) h =
    subst (λ k. IsTally k (work (visit t v) vs)) (omega arith)
      (work-IsTally (n + 1) (visit t v) vs (visit-IsTally n t v h))

-- The latencies at two places of a sorted list.
get_or-le :
    (xs : List ℕ) (i j : ℕ) → IsSorted xs → i ≤ j → j < length xs → get_or xs i 0 ≤ get_or xs j 0
get_or-le [] i j s h k = absurd (omega (arith, k))
get_or-le (x ∷ xs) zero zero s h k = omega arith
get_or-le (x ∷ xs) zero (suc j) s h k = get_or-All x 0 j xs s.0 (omega (arith, k))
get_or-le (x ∷ xs) (suc i) zero s h k = absurd (omega (arith, h))
get_or-le (x ∷ xs) (suc i) (suc j) s h k =
    get_or-le xs i j s.1 (omega (arith, h)) (omega (arith, k))

-- int(float64(n) * p / 100) of a positive n is an index, and grows with p.
pub record IsShare (share : Share) : Type 0 where
  pub inside : (p n : ℕ) → 0 < n → p < 100 → share p n < n
  pub grows : (p q n : ℕ) → p ≤ q → share p n ≤ share q n

-- A scorecard of so many visits.
pub record IsScored {F : Type 0} (n : ℕ) (card : Scorecard F) : Type 0 where
  pub total : card.total_requests ≡ n
  pub parts : card.successful_requests + card.failed_requests ≡ n
  pub failovers : card.failover_hits ≤ card.successful_requests
  pub corruptions : card.data_corruptions ≡ 0
  pub min_p50 : card.min_latency_ms ≤ card.p50_latency_ms
  pub p50_p95 : card.p50_latency_ms ≤ card.p95_latency_ms
  pub p95_p99 : card.p95_latency_ms ≤ card.p99_latency_ms
  pub p99_max : card.p99_latency_ms ≤ card.max_latency_ms

-- A scorecard counts each visit once, as a success or as a failure; the failovers are among the
-- successes; the latencies are in order from the least to the greatest; and no data corruption is
-- ever counted, whatever values the reads return. This needs at least one visit, and the index that
-- the machine computes for a share below 100 to be below the number of visits and to grow with
-- the share.
pub run-IsScored :
    {F : Type 0} (fl : Floats F) (share : Share) (cfg : Config) (vs : List Visit)
    → IsShare share
    → 0 < length vs
    → IsScored (length vs) (run fl share cfg vs)
unfolding run scorecard
run-IsScored fl share cfg vs law h =
    let tally =
      work-IsTally 0 no_visits vs
        (record { counted = refl; failovers = omega arith; corruptions = refl; measured = refl }) in
    let sorted = sort-IsSorted (work no_visits vs).latencies in
    let n : length (sort (work no_visits vs).latencies) ≡ length vs =
      omega (arith, length-sort (work no_visits vs).latencies, tally.measured) in
    let within : (p : ℕ)
        → p < 100
        → share p (length (sort (work no_visits vs).latencies))
          < length (sort (work no_visits vs).latencies) =
      λ p q. law.inside p _ (omega (arith, n, h)) q in
    record {
      total = omega (arith, tally.counted);
      parts = omega (arith, tally.counted);
      failovers = tally.failovers;
      corruptions = tally.corruptions;
      min_p50 = get_or-le _ 0 _ sorted (omega arith) (within 50 (omega arith));
      p50_p95 = get_or-le _ _ _ sorted (law.grows 50 95 _ (omega arith)) (within 95 (omega arith));
      p95_p99 = get_or-le _ _ _ sorted (law.grows 95 99 _ (omega arith)) (within 99 (omega arith));
      p99_max =
          get_or-le _ _ _ sorted (omega (arith, within 99 (omega arith))) (omega (arith, n, h));
    }
