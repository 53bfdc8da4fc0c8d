-- ===== src/Gateway/Overrides.antt =====
-- backend/internal/gateway/gateway.go, backend/internal/health/monitor.go: a node that is marked FAILED by
-- hand gets no more writes.
use shc.Base.{ℕ, ◌≡◌, refl, ap, String, List, [], ◌∷◌, some, Bool, true, false, arith}
use shc.Base.Texts.{is_empty}
use shc.Base.GoMap.{text_comparable, lookup}
use shc.Hashing.{NodeTarget, get_nodes}
use shc.Health.{Monitor, MemberInfo, NodeState, failed, get_node_state, set_node_state_manual}
use shc.Health.Detection.{Pings, run}
use shc.Health.Overrides.{AllAnswered, set_node_state_manual-IsHeld}
use shc.Database.{Database}
use shc.Server.Requests.{post_method}
use shc.Gateway.{
  Gateway, ClientSetRequest, post_set, Json, set_url, Written, write_through, stored, mirror,
  store_at, handle_api_set,
}
use shc.Gateway.Status.{target_state, handle_api_node_state}

handle_api_node_state-monitor :
    {S : Type 0} (g : Gateway S) (node_id text : String) (state : NodeState) (mem : MemberInfo)
    (now : ℕ)
    → is_empty node_id ≡ false
    → is_empty text ≡ false
    → target_state text ≡ some state
    → lookup node_id g.health_monitor.members ≡ some mem
    → (handle_api_node_state g post_method (some (node_id, text)) now).0
      ≡ record g { health_monitor = (set_node_state_manual g.health_monitor node_id state now).0 }
unfolding handle_api_node_state set_node_state_manual
handle_api_node_state-monitor g node_id text state mem now i t e m =
    rw (i, t) (rw e (rw (m, set_node_state_manual) refl))

no_mirror :
    (req : ClientSetRequest) (replica : NodeTarget) (rest : List NodeTarget)
    → mirror req replica (replica ∷ rest) ≡ []
no_mirror req replica rest = ground arith

store_at-down :
    {S F : Type 0} (m : Monitor) (w : Written S F) (primary replica : NodeTarget)
    (rest : List NodeTarget) (first second : String → Bool)
    → get_node_state m primary.node_id ≡ some failed
    → first (set_url replica.addr) ≡ true
    → store_at m w (some (primary ∷ replica ∷ rest)) first second
      ≡ (stored w replica true, post_set (set_url replica.addr) w.req ∷ [])
unfolding store_at
store_at-down m w primary replica rest first second d f =
    rw (d, f) (rw (no_mirror w.req replica rest) refl)

-- From the moment that /api/node/state marks a node of the cluster FAILED, and through any heartbeats that
-- the node answers, a write of a key whose primary it is goes to the key's second node, as a failover,
-- and is sent to no other node, if the second node answers.
pub handle_api_node_state-handle_api_set :
    {S F : Type 0} (database : Database S F) (json : Json F) (g : Gateway S) (node_id text : String)
    (mem : MemberInfo) (now : ℕ) (h : Pings) (req : ClientSetRequest) (replica : NodeTarget)
    (addr : String) (rest : List NodeTarget) (first second : String → Bool)
    → is_empty node_id ≡ false
    → is_empty text ≡ false
    → target_state text ≡ some failed
    → lookup node_id g.health_monitor.members ≡ some mem
    → AllAnswered node_id h
    → is_empty req.key ≡ false
    → get_nodes g.hash_ring req.key 2
      ≡ some (record { node_id = node_id; addr = addr } ∷ replica ∷ rest)
    → first (set_url replica.addr) ≡ true
    → let marked = (handle_api_node_state g post_method (some (node_id, text)) now).0 in
      let later = record marked { health_monitor = run marked.health_monitor h } in
      let w = write_through database json g.db req in
      let (g', response, calls) =
        handle_api_set database json later post_method (some req) first second in
      (response ≡ stored w replica true) × (calls ≡ post_set (set_url replica.addr) w.req ∷ [])
unfolding handle_api_set
handle_api_node_state-handle_api_set database json g node_id text mem now h req replica addr rest
      first second i t e m a k n f =
    let w = write_through database json g.db req in
    let stays = set_node_state_manual-IsHeld g.health_monitor node_id mem now h m a in
    let sent =
      store_at-down (run (set_node_state_manual g.health_monitor node_id failed now).0 h) w
        (record { node_id = node_id; addr = addr }) replica rest first second stays f in
    rw (handle_api_node_state-monitor g node_id text failed mem now i t e m)
      (rw (k, n) (ap (λ p. p.0) sent, ap (λ p. p.1) sent))
