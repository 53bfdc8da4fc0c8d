-- ===== src/Failover/Routing.antt =====
-- Which node serves a routed read.
use shc.Base.{
  ℕ, ◌-◌, ◌/◌, ◌≡◌, ◌≢◌, refl, sym, ap, ◌∙◌, ◌⊎◌, inl, inr, String, List, [], ◌∷◌, Option, none,
  some, true, false, arith, Bool-cases,
}
use shc.Http.{Network, Result, Failure, ok, err}
use shc.Hashing.{HashRing, NodeTarget, get_nodes}
use shc.Health.{Monitor, NodeState, alive, failed, is_alive, is_failed, get_node_state}
use shc.Failover.{
  Router, ReadResult, NodeGetPayload, served, known_state, result_from, count_total, read_from_node,
  try_replica, try_primary, route_get,
}

-- The primary is not thought ALIVE, or its read fails.
abbrev pub CannotServe : Monitor → String → Network NodeGetPayload → NodeTarget → Type 0
CannotServe monitor key first primary =
    (is_alive (known_state (get_node_state monitor primary.node_id)) ≡ false)
    ⊎ ((e : Failure) × (read_from_node first primary.addr key ≡ err e))

-- A read that is served: by the primary, which is thought ALIVE, or else by the replica, another
-- node of the key that is not thought FAILED; with what that node's /get answered.
pub data IsServed (ring : HashRing) (monitor : Monitor) (key : String)
    (first second : Network NodeGetPayload) (result : ReadResult) : Type 0 where
  direct :
      (primary : NodeTarget) (rest : List NodeTarget) (payload : NodeGetPayload)
      → get_nodes ring key 2 ≡ some (primary ∷ rest)
      → known_state (get_node_state monitor primary.node_id) ≡ alive
      → read_from_node first primary.addr key ≡ ok payload
      → result ≡ result_from payload primary false primary alive result.latency_ms
      → IsServed ring monitor key first second result
  by_replica :
      (primary replica : NodeTarget) (rest : List NodeTarget) (payload : NodeGetPayload)
      (state : NodeState)
      → get_nodes ring key 2 ≡ some (primary ∷ replica ∷ rest)
      → CannotServe monitor key first primary
      → known_state (get_node_state monitor replica.node_id) ≢ failed
      → read_from_node second replica.addr key ≡ ok payload
      → result ≡ result_from payload replica true primary state result.latency_ms
      → IsServed ring monitor key first second result

Result-cases : {A : Type 0} (r : Result A) → ((a : A) × (r ≡ ok a)) ⊎ ((e : Failure) × (r ≡ err e))
Result-cases (ok a) = inl (a, refl)
Result-cases (err e) = inr (e, refl)

is_alive-true : (s : NodeState) → is_alive s ≡ true → s ≡ alive
is_alive-true s e = ground arith

is_failed-false : (s : NodeState) → is_failed s ≡ false → s ≢ failed
is_failed-false s e = ground arith

module _ (ring : HashRing) (monitor : Monitor) (key : String)
    (first second : Network NodeGetPayload) (r : Router) (latency : ℕ) where
  try_replica-served :
      (primary : NodeTarget) (rest : List NodeTarget) (state : NodeState) (result : ReadResult)
      → get_nodes ring key 2 ≡ some (primary ∷ rest)
      → CannotServe monitor key first primary
      → (try_replica r monitor key primary state rest second latency).1 ≡ served result
      → IsServed ring monitor key first second result
  unfolding try_replica
  try_replica-served primary [] state result g c = λ e. absurd (cc)
  try_replica-served primary (replica ∷ rest) state result g c =
      elim (Bool-cases (is_failed (known_state (get_node_state monitor replica.node_id)))) [
        | inl f ↦ rw f (λ e. absurd (cc))
        | inr f ↦ elim (Result-cases (read_from_node second replica.addr key)) [
          | inr (x, q) ↦ rw (f, q) (λ e. absurd (cc))
          | inl (payload, q) ↦
              rw (f, q)
                (λ e.
                  let p : result_from payload replica true primary state latency ≡ result = cc in
                  by_replica primary replica rest payload state g c (is_failed-false _ f) q (
                    sym p
                    ∙ ap (result_from payload replica true primary state)
                        (ap (λ x. x.latency_ms) p)))
        ]
      ]

  try_primary-served :
      (targets : Option (List NodeTarget)) (result : ReadResult)
      → get_nodes ring key 2 ≡ targets
      → (try_primary r monitor key targets first second latency).1 ≡ served result
      → IsServed ring monitor key first second result
  unfolding try_primary
  try_primary-served none result g = λ e. absurd (cc)
  try_primary-served (some []) result g = λ e. absurd (cc)
  try_primary-served (some (primary ∷ rest)) result g =
      elim (Bool-cases (is_alive (known_state (get_node_state monitor primary.node_id)))) [
        | inr a ↦ rw a (try_replica-served primary rest _ result g (inl a))
        | inl a ↦ elim (Result-cases (read_from_node first primary.addr key)) [
          | inr (x, q) ↦ rw (a, q) (try_replica-served primary rest _ result g (inr (x, q)))
          | inl (payload, q) ↦
              let up : known_state (get_node_state monitor primary.node_id) ≡ alive =
                is_alive-true _ a in
              rw (a, q, up)
                (λ e.
                  let p : result_from payload primary false primary alive latency ≡ result = cc in
                  direct primary rest payload g up q (
                    sym p
                    ∙ ap (result_from payload primary false primary alive)
                        (ap (λ x. x.latency_ms) p)))
        ]
      ]

-- Every read that is served comes from the key's primary node if that is thought ALIVE and answers,
-- and otherwise, marked as a failover, from the key's second node, which is not thought FAILED;
-- the value is what that node answered.
pub route_get-IsServed :
    (r : Router) (ring : HashRing) (monitor : Monitor) (key : String)
    (first second : Network NodeGetPayload) (start finish : ℕ) (result : ReadResult)
    → (route_get r ring monitor key first second start finish).1 ≡ served result
    → IsServed ring monitor key first second result
unfolding route_get
route_get-IsServed r ring monitor key first second start finish result =
    try_primary-served ring monitor key first second (count_total r) _ (get_nodes ring key 2) result
      refl

replica_serves :
    (r : Router) (monitor : Monitor) (key : String) (primary replica : NodeTarget)
    (rest : List NodeTarget) (state : NodeState) (second : Network NodeGetPayload) (latency : ℕ)
    (payload : NodeGetPayload)
    → known_state (get_node_state monitor replica.node_id) ≢ failed
    → read_from_node second replica.addr key ≡ ok payload
    → (try_replica r monitor key primary state (replica ∷ rest) second latency).1
      ≡ served (result_from payload replica true primary state latency)
unfolding try_replica
replica_serves r monitor key primary replica rest state second latency payload n q = ground arith

-- A read is not lost while the second node of the key can answer: whatever the state of the primary
-- and its reply, if the ring knows two nodes for the key, the second is not thought FAILED and it
-- answers with a hit, then the read is served.
pub route_get-available :
    (r : Router) (ring : HashRing) (monitor : Monitor) (key : String)
    (first second : Network NodeGetPayload) (start finish : ℕ) (primary replica : NodeTarget)
    (rest : List NodeTarget) (payload : NodeGetPayload)
    → get_nodes ring key 2 ≡ some (primary ∷ replica ∷ rest)
    → known_state (get_node_state monitor replica.node_id) ≢ failed
    → read_from_node second replica.addr key ≡ ok payload
    → (result : ReadResult) × ((route_get r ring monitor key first second start finish).1
        ≡ served result)
unfolding route_get try_primary
route_get-available r ring monitor key first second start finish primary replica rest payload g n
      q =
    elim (Bool-cases (is_alive state)) [
      | inr a ↦ (from_replica, rw (g, try_primary) (rw a fallback))
      | inl a ↦ elim (Result-cases (read_from_node first primary.addr key)) [
        | inr (x, p) ↦ (from_replica, rw (g, try_primary) (rw (a, p) fallback))
        | inl (got, p) ↦
            (result_from got primary false primary state latency, rw (g, try_primary) (rw (a, p)))
      ]
    ]
  where
    state : NodeState
    state = known_state (get_node_state monitor primary.node_id)

    latency : ℕ
    latency = (finish - start) / 1000000

    from_replica : ReadResult
    from_replica = result_from payload replica true primary state latency

    fallback :
        (try_replica (count_total r) monitor key primary state (replica ∷ rest) second latency).1
        ≡ served from_replica
    fallback =
        replica_serves (count_total r) monitor key primary replica rest state second latency payload
          n q
