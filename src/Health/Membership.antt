-- ===== src/Health/Membership.antt =====
-- Who is a member, what the view counts, and when callbacks run.
use shc.Base.{
  ℕ, ◌+◌, ◌≡◌, ◌≢◌, refl, sym, ap, ◌∙◌, inl, inr, String, List, [], ◌∷◌, some, true, false, ◌&&◌,
  ◌==◌, arith, if◌then◌else◌, holds, text_discrete, Bool-cases, length, In, All,
}
use shc.Base.Int.{ℤ}
use shc.Base.GoMap.{GoMap, text_comparable, lookup, insert}
use shc.Base.GoMap.Laws.{lookup-insert_other}
use shc.Health.Detection.{pinged, ping_peer-own, ping_peer-other}
use shc.Health.{
  alive, suspected, failed, same_state, is_alive, is_failed, MemberInfo, Monitor, Probe, Health,
  Notification, no_request, no_response, answered, count_state, get_cluster_view, register_peers,
  new_member, other_members, peers_to_ping, ping_peer, ping_all_peers, notify_state_change,
  record_success, record_failure, succeed, miss,
}

count_state_total :
    (m : GoMap String MemberInfo)
    → count_state alive m + count_state suspected m + count_state failed m ≡ length m
unfolding count_state
count_state_total [] = refl
count_state_total ((node_id, mem) ∷ rest) = ground (arith, count_state_total rest)

-- The view's live and failed nodes, and the suspected ones that it does not count, are its nodes.
pub get_cluster_view_total :
    (m : Monitor) (now : ℕ)
    → let v = get_cluster_view m now in
      v.alive_nodes + count_state suspected v.members + v.failed_nodes ≡ v.total_nodes
unfolding get_cluster_view
get_cluster_view_total m now = count_state_total m.members

register_peers-kept :
    (self : String) (peers : GoMap String String) (clock : String → ℕ)
    (members : GoMap String MemberInfo)
    → lookup self (register_peers self peers clock members) ≡ lookup self members
unfolding register_peers
register_peers-kept self [] clock members = refl
register_peers-kept self ((node_id, addr) ∷ rest) clock members =
    elim (text_discrete node_id self)
      as (λ d.
        lookup self (
          register_peers self rest clock (
            if holds d
            then members
            else insert node_id (new_member node_id addr (clock node_id)) members))
        ≡ lookup self members) [
          | yes p ↦ register_peers-kept self rest clock members
          | no p ↦
              register_peers-kept self rest clock _
              ∙ lookup-insert_other node_id self (new_member node_id addr (clock node_id)) members p
        ]

-- No name among the members is the monitor's own under another key.
abbrev pub KeyedByName : GoMap String MemberInfo → Type 0
KeyedByName m = All (λ e. e.1.node_id ≡ e.0) m

not_self :
    (self : String) (m : GoMap String MemberInfo) (mem : MemberInfo)
    → KeyedByName m
    → In mem (other_members self m)
    → mem.node_id ≢ self
unfolding other_members
not_self self [] mem k = λ i. absurd i
not_self self ((node_id, other) ∷ rest) mem k =
    elim (text_discrete node_id self)
      as (λ d.
        In mem (if holds d then other_members self rest else other ∷ other_members self rest)
        → mem.node_id ≢ self) [
          | yes p ↦ not_self self rest mem k.1
          | no p ↦ λ i q. elim i [
            | inl e ↦ p (sym k.0 ∙ ap (λ x. x.node_id) e ∙ q)
            | inr j ↦ not_self self rest mem k.1 j q
          ]
        ]

-- The results of a cycle are those of the members that it pinged.
abbrev pub FromCycle : Monitor → List (String × Probe × ℕ) → Type 0
FromCycle m finished =
    All (λ f. (mem : MemberInfo) × In mem (peers_to_ping m) × (mem.node_id ≡ f.0)) finished

cycle-keeps :
    (m : Monitor) (key : String) (finished : List (String × Probe × ℕ))
    → All (λ f. f.0 ≢ key) finished
    → lookup key (ping_all_peers m finished).0.members ≡ lookup key m.members
unfolding ping_all_peers
cycle-keeps m key [] n = refl
cycle-keeps m key ((node_id, probe, now) ∷ finished) n =
    cycle-keeps (ping_peer m node_id probe now).0 key finished n.1
    ∙ ping_peer-other m node_id key probe now apart
  where
    apart : holds (text_discrete node_id key) ≡ false
    apart = ground (arith, n.0)

-- A heartbeat cycle never changes the monitor's own entry, in whatever order its pings end, if
-- each member is kept under its own name.
pub ping_all_peers_self :
    (m : Monitor) (finished : List (String × Probe × ℕ))
    → KeyedByName m.members
    → FromCycle m finished
    → lookup m.config.self_node_id (ping_all_peers m finished).0.members
      ≡ lookup m.config.self_node_id m.members
unfolding peers_to_ping
ping_all_peers_self m finished k c =
    cycle-keeps m m.config.self_node_id finished (others finished c)
  where
    others :
        (fs : List (String × Probe × ℕ))
        → FromCycle m fs
        → All (λ f. f.0 ≢ m.config.self_node_id) fs
    others [] d = tt
    others (f ∷ fs) d =
        let (mem, i, e) = d.0 in
        ((λ p. not_self m.config.self_node_id m.members mem k i (e ∙ p)), others fs d.1)

record_failure-sent :
    (m : Monitor) (node_id reason : String) (now : ℕ) (mem : MemberInfo)
    → lookup node_id m.members ≡ some mem
    → (record_failure m node_id reason now).1 ≡ (
        if same_state (miss m.config mem reason now).state mem.state
        then []
        else notify_state_change m node_id mem.state (miss m.config mem reason now).state)
unfolding record_failure
record_failure-sent m node_id reason now mem e = rw (e, record_failure)

succeed-sent :
    (m : Monitor) (node_id : String) (latency : ℤ) (health : Health) (now : ℕ) (mem : MemberInfo)
    → (if mem.manual_override && is_failed mem.state
        then []
        else (if is_alive mem.state then [] else notify_state_change m node_id mem.state alive))
      ≡ (if same_state (succeed mem latency health now).state mem.state
          then []
          else notify_state_change m node_id mem.state (succeed mem latency health now).state)
unfolding succeed
succeed-sent m node_id latency health now mem = ground arith

record_success-sent :
    (m : Monitor) (node_id : String) (latency : ℤ) (health : Health) (now : ℕ) (mem : MemberInfo)
    → lookup node_id m.members ≡ some mem
    → (record_success m node_id latency health now).1 ≡ (
        if same_state (succeed mem latency health now).state mem.state
        then []
        else notify_state_change m node_id mem.state (succeed mem latency health now).state)
unfolding record_success
record_success-sent m node_id latency health now mem e =
    rw (e, record_success) (succeed-sent m node_id latency health now mem)

-- What a ping of a member that was `mem` sends.
abbrev sent : Monitor → String → Probe → ℕ → MemberInfo → List Notification
sent m node_id probe now mem =
    if same_state (pinged m.config mem probe now).state mem.state
    then []
    else notify_state_change m node_id mem.state (pinged m.config mem probe now).state

ping_peer-sent :
    (m : Monitor) (node_id : String) (probe : Probe) (now : ℕ) (mem : MemberInfo)
    → lookup node_id m.members ≡ some mem
    → (ping_peer m node_id probe now).1 ≡ sent m node_id probe now mem
unfolding ping_peer
ping_peer-sent m node_id (no_request reason) now mem e =
    record_failure-sent m node_id reason now mem e
ping_peer-sent m node_id (no_response reason) now mem e =
    record_failure-sent m node_id reason now mem e
ping_peer-sent m node_id (answered status text latency health) now mem e =
    elim (Bool-cases (status == 200)) [
      | inl q ↦ rw q (record_success-sent m node_id _ health now mem e)
      | inr q ↦ rw q (record_failure-sent m node_id text now mem e)
    ]

-- A ping of a member calls every listener once, with its old and its new state, if it changed the
-- state, and no listener otherwise; here `mem` and `mem'` are the member before and after.
pub ping_peer_notifies :
    (m : Monitor) (node_id : String) (probe : Probe) (now : ℕ) (mem mem' : MemberInfo)
    → lookup node_id m.members ≡ some mem
    → lookup node_id (ping_peer m node_id probe now).0.members ≡ some mem'
    → (ping_peer m node_id probe now).1 ≡ (
        if same_state mem'.state mem.state
        then []
        else notify_state_change m node_id mem.state mem'.state)
ping_peer_notifies m node_id probe now mem mem' e e' =
    let same : pinged m.config mem probe now ≡ mem' =
      cc (ping_peer-own m node_id node_id probe now mem self e) in
    ping_peer-sent m node_id probe now mem e
    ∙ ap
        (λ x.
          if same_state x.state mem.state
          then []
          else notify_state_change m node_id mem.state x.state)
        same
  where
    self : holds (text_discrete node_id node_id) ≡ true
    self = ground arith
