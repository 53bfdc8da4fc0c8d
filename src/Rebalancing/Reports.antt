-- ===== src/Rebalancing/Reports.antt =====
-- What RebalanceForNewNode returns and keeps.
use Prim.Native.String.{◌++◌}
use shc.Base.{
  ℕ, ◌≡◌, ◌≢◌, refl, ◌⊎◌, inl, inr, String, List, [], ◌∷◌, ◌++◌ as append, Option, none, some,
  length,
}
use shc.Http.{Reply, no_request, no_response, answered, Failure, ok, err}
use shc.Cache.{Cache, keys}
use shc.Hashing.{HashRing, add_node}
use shc.Rebalancing.{
  Manager, DumpItem, BulkPost, RebalanceReport, Rebalanced, keys_to_migrate, transfer, make_report,
  finish_rebalance, rebalance_for_new_node,
}

-- There is nothing to send, or the new node answers, and the report is returned and kept; or there is
-- something to send and no answer comes, and an error is returned and nothing is kept.
abbrev pub Outcome : Manager → List DumpItem → Reply (Option String) → ℕ → Rebalanced → Type 0
Outcome m items reply evaluated r =
    (((items ≡ [])
        ⊎ ((status : ℕ) × (body : Option (Option String)) × (reply ≡ answered status body)))
      × (report : RebalanceReport) × (r.result ≡ ok report)
      × (r.manager.reports ≡ append m.reports (report ∷ []))
      × (report.keys_evaluated ≡ evaluated)
      × (report.keys_moved ≡ length items))
    ⊎ ((items ≢ [])
        × ((reply ≡ no_request) ⊎ (reply ≡ no_response))
        × (e : Failure) × (r.result ≡ err e)
        × (r.manager ≡ m))

cons≢nil : {A : Type 0} (x : A) (xs : List A) → x ∷ xs ≢ []
cons≢nil x xs e = cc

finish_rebalance-Outcome :
    (m : Manager) (node_id : String) (ring : HashRing) (c : Cache) (items : List DumpItem)
    (reply : Reply (Option String)) (evaluated start finish stamp : ℕ)
    → let report = make_report m node_id evaluated (length items) start finish stamp in
      Outcome m items reply evaluated (finish_rebalance (transfer items reply) m ring c report)
unfolding finish_rebalance transfer make_report
finish_rebalance-Outcome m node_id ring c [] reply evaluated start finish stamp =
    inl (inl refl, _, refl, refl, refl, refl)
finish_rebalance-Outcome m node_id ring c (x ∷ rest) (answered status body) evaluated start finish
      stamp =
    inl (inr (status, body, refl), _, refl, refl, refl, refl)
finish_rebalance-Outcome m node_id ring c (x ∷ rest) no_request evaluated start finish stamp =
    inr (cons≢nil x rest, inl refl, _, refl, refl)
finish_rebalance-Outcome m node_id ring c (x ∷ rest) no_response evaluated start finish stamp =
    inr (cons≢nil x rest, inr refl, _, refl, refl)

finish_rebalance-ring :
    (failure : Option Failure) (m : Manager) (ring : HashRing) (c : Cache)
    (report : RebalanceReport)
    → (finish_rebalance failure m ring c report).ring ≡ ring
unfolding finish_rebalance
finish_rebalance-ring none m ring c report = refl
finish_rebalance-ring (some e) m ring c report = refl

-- RebalanceForNewNode leaves the node in the ring whether or not the transfer succeeds. If no items are to
-- be sent, or if the new node answers the POST of the items, with whatever status, it returns a report,
-- which it keeps behind the earlier ones and which counts the keys that Keys lists and the items. If
-- there are items and the request cannot be made or gets no response, it returns an error and keeps no
-- report.
pub rebalance_for_new_node-Outcome :
    (m : Manager) (ring : HashRing) (c : Cache) (node_id addr : String) (post : BulkPost) (now : ℕ)
    (at until : String → ℕ) (start finish stamp : ℕ)
    → let r = rebalance_for_new_node m ring c node_id addr post now at until start finish stamp in
      let items =
        (keys_to_migrate node_id (add_node ring node_id addr) c (keys c now) at until).1 in
      let reply =
        post
          (addr ++ "/internal/sync/bulk")
          (record { source_node = m.self_node_id; items = items }) in
      (r.ring ≡ add_node ring node_id addr) × Outcome m items reply (length (keys c now)) r
unfolding rebalance_for_new_node
rebalance_for_new_node-Outcome m ring c node_id addr post now at until start finish stamp = (
  finish_rebalance-ring _ m (add_node ring node_id addr) _ _,
  finish_rebalance-Outcome m node_id (add_node ring node_id addr) _ _ _ _ start finish stamp,
)
