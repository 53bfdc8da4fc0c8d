-- ===== src/Cluster/Reports.antt =====
-- What a check of the peers reports, against what the peers answered.
use Prim.Native.String.{◌++◌}
use shc.Base.{
  ◌≡◌, ◌≢◌, refl, sym, ap, subst, ◌∙◌, ◌↔◌, ◌⊎◌, inl, inr, String, List, [], ◌∷◌, Option, none,
  some, true, false, arith, ite, In, Distinct, text_discrete,
}
use shc.Base.GoMap.{GoMap, text_comparable, lookup, insert, keys}
use shc.Base.GoMap.Laws.{
  lookup-insert, lookup-insert_self, lookup-insert_other, lookup-none_of_not-In, insert-Distinct,
}
use shc.Base.Int.{ℤ}
use shc.Http.{Reply, Result, Failure, ok, err, no_request, no_response, answered, fetch_json}
use shc.Cluster.{
  InternalHealth, InternalStats, PeerStatus, PeerManager, Surroundings, ping_peer, fetch_peer_stats,
  check_peer, check_in_order, stats_of, check_all_peers, copy_map, get_peers_status, unchecked,
  unchecked_states, new_peer_manager,
}

fetch_json-ok :
    {A : Type 0} (r : Reply A) (a : A) → (fetch_json r ≡ ok a) ↔ (r ≡ answered 200 (some a))
unfolding fetch_json
fetch_json-ok no_request a = (λ e. cc, λ e. cc)
fetch_json-ok no_response a = (λ e. cc, λ e. cc)
fetch_json-ok (answered status none) a = (λ e. ground arith, λ e. cc)
fetch_json-ok (answered status (some b)) a = (λ e. ground arith, λ e. ground arith)

module _ (w : Surroundings) where
  check_in_order-kept :
      (p : String) (order : List String) (r s : GoMap String PeerStatus)
      → (lookup p r ≡ some (check_peer w p)
          → lookup p (check_in_order w order (r, s)).0 ≡ some (check_peer w p))
        × (lookup p s ≡ some (check_peer w p)
            → lookup p (check_in_order w order (r, s)).1 ≡ some (check_peer w p))
  unfolding check_in_order
  check_in_order-kept p [] r s = (λ h. h, λ h. h)
  check_in_order-kept p (q ∷ rest) r s =
      let (f, g) =
        check_in_order-kept p rest (insert q (check_peer w q) r) (insert q (check_peer w q) s) in
      (λ h. f (again r h), λ h. g (again s h))
    where
      again :
          (m : GoMap String PeerStatus)
          → lookup p m ≡ some (check_peer w p)
          → lookup p (insert q (check_peer w q) m) ≡ some (check_peer w p)
      again m h = elim (text_discrete q p) [
        | yes e ↦
            subst (λ k. lookup k (insert q (check_peer w q) m) ≡ some (check_peer w k)) e
              (lookup-insert_self q (check_peer w q) m)
        | no n ↦ lookup-insert_other q p (check_peer w q) m n ∙ h
      ]

  check_in_order-listed :
      (p : String) (order : List String) (r s : GoMap String PeerStatus)
      → In p order
      → (lookup p (check_in_order w order (r, s)).0 ≡ some (check_peer w p))
        × (lookup p (check_in_order w order (r, s)).1 ≡ some (check_peer w p))
  unfolding check_in_order
  check_in_order-listed p [] r s i = absurd i
  check_in_order-listed p (q ∷ rest) r s i = elim i [
    | inr j ↦
        check_in_order-listed p rest (insert q (check_peer w q) r) (insert q (check_peer w q) s) j
    | inl e ↦
        let (f, g) =
          check_in_order-kept p rest (insert q (check_peer w q) r) (insert q (check_peer w q) s) in
        (f (just e r), g (just e s))
  ]
    where
      just :
          (q ≡ p)
          → (m : GoMap String PeerStatus)
          → lookup p (insert q (check_peer w q) m) ≡ some (check_peer w p)
      just e m =
          subst (λ k. lookup k (insert q (check_peer w q) m) ≡ some (check_peer w k)) e
            (lookup-insert_self q (check_peer w q) m)

  check_in_order-other :
      (p : String) (order : List String) (r s : GoMap String PeerStatus)
      → ¬ In p order
      → (lookup p (check_in_order w order (r, s)).0 ≡ lookup p r)
        × (lookup p (check_in_order w order (r, s)).1 ≡ lookup p s)
  unfolding check_in_order
  check_in_order-other p [] r s n = (refl, refl)
  check_in_order-other p (q ∷ rest) r s n =
      let (f, g) =
        check_in_order-other p rest (insert q (check_peer w q) r) (insert q (check_peer w q) s)
          (λ i. n (inr i)) in
      (
        f ∙ lookup-insert_other q p (check_peer w q) r (λ e. n (inl e)),
        g ∙ lookup-insert_other q p (check_peer w q) s (λ e. n (inl e)),
      )

  check_in_order-Distinct :
      (order : List String) (r s : GoMap String PeerStatus)
      → Distinct (keys s)
      → Distinct (keys (check_in_order w order (r, s)).1)
  unfolding check_in_order
  check_in_order-Distinct [] r s d = d
  check_in_order-Distinct (q ∷ rest) r s d =
      check_in_order-Distinct rest (insert q (check_peer w q) r) (insert q (check_peer w q) s)
        (insert-Distinct q (check_peer w q) s d)

lookup-copy_map :
    (p : String) (m copy : GoMap String PeerStatus)
    → Distinct (keys m)
    → lookup p (copy_map m copy) ≡ elim (lookup p m) [ none ↦ lookup p copy | some v ↦ some v ]
unfolding copy_map lookup
lookup-copy_map p [] copy d = refl
lookup-copy_map p ((k, v) ∷ rest) copy d = lookup-copy_map p rest (insert k v copy) d.1 ∙ step
  where
    step :
        elim (lookup p rest) [ none ↦ lookup p (insert k v copy) | some x ↦ some x ]
        ≡ elim (ite (text_discrete k p) (some v) (lookup p rest)) [
          | none ↦ lookup p copy
          | some x ↦ some x
        ]
    step = ground (arith, lookup-insert k p v copy, lookup-none_of_not-In k rest)

lookup-get_peers_status :
    (pm : PeerManager) (p : String)
    → Distinct (keys pm.peer_states)
    → lookup p (get_peers_status pm) ≡ lookup p pm.peer_states
unfolding get_peers_status lookup
lookup-get_peers_status pm p d =
    lookup-copy_map p pm.peer_states [] d ∙ same (lookup p pm.peer_states)
  where
    same : (o : Option PeerStatus) → elim o [ none ↦ none | some v ↦ some v ] ≡ o
    same none = refl
    same (some v) = refl

-- The manager keeps one status for a peer.
abbrev pub IsTracked : PeerManager → Type 0
IsTracked pm = Distinct (keys pm.peer_states)

-- A status says what the peer answered.
pub record IsReport (w : Surroundings) (p : String) (s : PeerStatus) : Type 0 where
  pub addr : s.addr ≡ p
  pub checked : s.last_checked ≡ w.clock p
  pub up :
      (h : InternalHealth)
      → w.health (p ++ "/internal/health") ≡ answered 200 (some h)
      → (s.reachable ≡ true) × (s.node_id ≡ h.node_id) × (s.state ≡ h.state) × (s.last_error ≡ none)
  pub down :
      ((h : InternalHealth) → w.health (p ++ "/internal/health") ≢ answered 200 (some h))
      → (s.reachable ≡ false) × ((e : Failure) × (s.last_error ≡ some e))
  pub counters :
      (t : InternalStats)
      → (s.stats ≡ some t)
        ↔ ((s.reachable ≡ true) × (w.stats (p ++ "/internal/stats") ≡ answered 200 (some t)))

pub Result-cases :
    {A : Type 0} (r : Result A) → ((a : A) × (r ≡ ok a)) ⊎ ((e : Failure) × (r ≡ err e))
Result-cases (ok a) = inl (a, refl)
Result-cases (err e) = inr (e, refl)

stats_of-some : (r : Result InternalStats) (t : InternalStats) → (stats_of r ≡ some t) ↔ (r ≡ ok t)
stats_of-some (ok a) t = (λ e. cc, λ e. cc)
stats_of-some (err f) t = (λ e. cc, λ e. cc)

check_peer-IsReport : (w : Surroundings) (p : String) → IsReport w p (check_peer w p)
unfolding check_peer ping_peer fetch_peer_stats
check_peer-IsReport w p =
    let health = w.health (p ++ "/internal/health") in
    let stats = w.stats (p ++ "/internal/stats") in
    elim (Result-cases (fetch_json health)) [
      | inr (f, q) ↦ record {
        addr = rw q refl;
        checked = rw q refl;
        up = λ h e. absurd (split h f ((fetch_json-ok health h).1 e) q);
        down = λ n. (rw q refl, (f, rw q refl));
        counters = λ t. (
          rw q (λ e. absurd (no_counters t e)),
          λ e. absurd (unreachable (sym (rw q refl) ∙ e.0)),
        );
      }
      | inl (h, q) ↦ record {
        addr = rw q refl;
        checked = rw q refl;
        up = λ g e.
            let same = ((fetch_json-ok health g).1 e) in
            rw q (
              refl,
              ap (λ x. x.node_id) (hit h g q same),
              ap (λ x. x.state) (hit h g q same),
              refl,
            );
        down = λ n. absurd (n h ((fetch_json-ok health h).0 q));
        counters = λ t. rw q (
          λ e. (refl, (fetch_json-ok stats t).0 ((stats_of-some (fetch_json stats) t).0 e)),
          λ e. (stats_of-some (fetch_json stats) t).1 ((fetch_json-ok stats t).1 e.1),
        );
      }
    ]
  where
    split : {A : Type 0} {r : Result A} (a : A) (f : Failure) → r ≡ ok a → r ≡ err f → ⊥
    split a f e q = cc

    hit : {A : Type 0} {r : Result A} (a b : A) → r ≡ ok a → r ≡ ok b → a ≡ b
    hit a b e q = cc

    no_counters : (t : InternalStats) → none ≡ some t → ⊥
    no_counters t e = cc

    unreachable : false ≡ true → ⊥
    unreachable e = cc

-- A new manager keeps one unchecked status for each peer, and a check keeps it so.
pub new_peer_manager-IsTracked :
    (self_node_id self_addr : String) (peers : List String) (timeout : ℤ)
    → IsTracked (new_peer_manager self_node_id self_addr peers timeout)
unfolding new_peer_manager unchecked_states
new_peer_manager-IsTracked self_node_id self_addr peers timeout = all peers [] tt
  where
    all :
        (ps : List String) (m : GoMap String PeerStatus)
        → Distinct (keys m)
        → Distinct (keys (unchecked_states ps m))
    all [] m d = d
    all (q ∷ rest) m d = all rest (insert q (unchecked q) m) (insert-Distinct q (unchecked q) m d)

pub check_all_peers-IsTracked :
    (pm : PeerManager) (order : List String) (w : Surroundings)
    → IsTracked pm
    → IsTracked (check_all_peers pm order w).0
unfolding check_all_peers lookup
check_all_peers-IsTracked pm order w d = check_in_order-Distinct w order [] pm.peer_states d

-- On a manager that keeps one status for a peer, after a check, in whatever order the goroutines
-- end, both its result and what GetPeersStatus then returns hold for each peer a status that says
-- what that peer answered; for any other address the result has nothing and the status kept is as
-- it was.
pub check_all_peers-IsReport :
    (pm : PeerManager) (order : List String) (w : Surroundings) (p : String)
    → IsTracked pm
    → ((q : String) → In q order ↔ In q pm.peers)
    → let (pm', results) = check_all_peers pm order w in
      (In p pm.peers
        → (s : PeerStatus) × (lookup p results ≡ some s)
          × (lookup p (get_peers_status pm') ≡ some s)
          × IsReport w p s)
      × (¬ In p pm.peers
          → (lookup p results ≡ none)
            × (lookup p (get_peers_status pm') ≡ lookup p (get_peers_status pm)))
unfolding check_all_peers lookup
check_all_peers-IsReport pm order w p d listed =
    let kept =
      lookup-get_peers_status (check_all_peers pm order w).0 p
        (check_all_peers-IsTracked pm order w d) in
    (
      λ i.
          let (r, s) = check_in_order-listed w p order [] pm.peer_states ((listed p).1 i) in
          (check_peer w p, r, kept ∙ s, check_peer-IsReport w p),
      λ n.
          let (r, s) = check_in_order-other w p order [] pm.peer_states (λ i. n ((listed p).0 i)) in
          (r, kept ∙ s ∙ sym (lookup-get_peers_status pm p d)),
    )
