-- ===== src/Health.antt =====
-- backend/internal/health/monitor.go: the failure detector.
-- The HTTP client is outside: a ping is given as what it returned (Probe). A callback is named by a
-- number, and what `go cb(...)` starts is returned as a list of notifications.
pub mod Examples
pub mod Detection
pub mod Overrides
pub mod Membership
use shc.Base.{
  ℕ, suc, ◌+◌, String, List, [], ◌∷◌, ◌++◌, map, Option, none, some, Bool, true, false, ◌&&◌, ◌==◌,
  if◌then◌else◌, holds, length, text_discrete, not,
}
use shc.Base.Int.{ℤ, pos, negsuc, sub_ℕ, leb_ℤ, is_positive}
use shc.Base.Words.{second}
use shc.Base.GoMap.{GoMap, text_comparable, lookup, insert}

pub data NodeState : Type 0 where
  alive suspected failed : NodeState

abbrev pub is_alive : NodeState → Bool
is_alive alive = true
is_alive _ = false

abbrev pub is_failed : NodeState → Bool
is_failed failed = true
is_failed _ = false

abbrev pub same_state : NodeState → NodeState → Bool
same_state alive alive = true
same_state suspected suspected = true
same_state failed failed = true
same_state _ _ = false

pub record MemberInfo : Type 0 where
  pub node_id : String
  pub addr : String
  pub state : NodeState
  pub latency_ms : ℤ
  pub primary_keys : ℤ
  pub replica_keys : ℤ
  pub hit_count : ℕ
  pub manual_override : Bool
  pub last_seen : ℕ
  pub missed_pings : ℕ
  pub last_error : String

pub record ClusterView : Type 0 where
  pub self_node_id : String
  pub total_nodes : ℕ
  pub alive_nodes : ℕ
  pub failed_nodes : ℕ
  pub members : GoMap String MemberInfo
  pub timestamp : ℕ

pub record Config : Type 0 where
  pub self_node_id : String
  pub self_addr : String
  pub peers : GoMap String String
  pub heartbeat_interval : ℤ
  pub suspect_timeout : ℤ
  pub fail_timeout : ℤ

pub record Monitor : Type 0 where
  pub config : Config
  pub members : GoMap String MemberInfo
  pub stopped : Bool
  pub listeners : List ℕ

pub record Notification : Type 0 where
  pub listener : ℕ
  pub node_id : String
  pub old_state : NodeState
  pub new_state : NodeState

-- A member as it is registered: ALIVE, and the zero values.
abbrev pub new_member : String → String → ℕ → MemberInfo
new_member node_id addr now = record {
  node_id = node_id;
  addr = addr;
  state = alive;
  latency_ms = pos 0;
  primary_keys = pos 0;
  replica_keys = pos 0;
  hit_count = 0;
  manual_override = false;
  last_seen = now;
  missed_pings = 0;
  last_error = "";
}

abbrev or_default : ℤ → ℕ → ℤ
or_default d default = if is_positive d then d else pos default

-- The loop of NewMonitor over the peers; `clock` is time.Now() as each node is registered.
unfoldable pub register_peers :
    String → GoMap String String → (String → ℕ) → GoMap String MemberInfo → GoMap String MemberInfo
register_peers self [] clock members = members
register_peers self ((node_id, addr) ∷ rest) clock members = register_peers self rest clock (
    if holds (text_discrete node_id self)
    then members
    else insert node_id (new_member node_id addr (clock node_id)) members)

unfoldable pub new_monitor : Config → (String → ℕ) → Monitor
unfolding register_peers
new_monitor cfg clock = record {
  config = record cfg {
    heartbeat_interval = or_default cfg.heartbeat_interval second;
    suspect_timeout = or_default cfg.suspect_timeout 2000000000;
    fail_timeout = or_default cfg.fail_timeout 4000000000;
  };
  members =
      register_peers cfg.self_node_id cfg.peers clock (
        (cfg.self_node_id, new_member cfg.self_node_id cfg.self_addr (clock cfg.self_node_id))
        ∷ []);
  stopped = false;
  listeners = [];
}

unfoldable pub stop : Monitor → Monitor
stop m = record m { stopped = true }

abbrev put_member : Monitor → String → MemberInfo → Monitor
put_member m node_id mem = record m { members = insert node_id mem m.members }

unfoldable pub add_node : Monitor → String → String → ℕ → Monitor
add_node m node_id addr now = elim (lookup node_id m.members) [
  | none ↦ put_member m node_id (new_member node_id addr now)
  | some mem ↦ put_member m node_id (record mem { addr = addr })
]

unfoldable pub on_state_change : Monitor → ℕ → Monitor
on_state_change m cb = record m { listeners = m.listeners ++ cb ∷ [] }

-- The loop of GetClusterView counts the members of one state.
unfoldable pub count_state : NodeState → GoMap String MemberInfo → ℕ
count_state s [] = 0
count_state s ((node_id, mem) ∷ rest) =
    let n = count_state s rest in if same_state mem.state s then suc n else n

unfoldable pub get_cluster_view : Monitor → ℕ → ClusterView
unfolding count_state
get_cluster_view m now = record {
  self_node_id = m.config.self_node_id;
  total_nodes = length m.members;
  alive_nodes = count_state alive m.members;
  failed_nodes = count_state failed m.members;
  members = m.members;
  timestamp = now;
}

abbrev state_of : Option MemberInfo → Option NodeState
state_of none = none
state_of (some mem) = some mem.state

unfoldable pub get_node_state : Monitor → String → Option NodeState
get_node_state m node_id = state_of (lookup node_id m.members)

unfoldable pub notify_state_change : Monitor → String → NodeState → NodeState → List Notification
notify_state_change m node_id old_state new_state =
    map
      (λ cb. record {
        listener = cb;
        node_id = node_id;
        old_state = old_state;
        new_state = new_state;
      })
      m.listeners

-- The fields that a manual change sets; SUSPECTED sets none but the state.
unfoldable pub force_state : MemberInfo → NodeState → ℕ → MemberInfo
force_state mem alive now = record mem {
  state = alive;
  manual_override = false;
  last_seen = now;
  missed_pings = 0;
  last_error = "";
}
force_state mem failed now = record mem {
  state = failed;
  manual_override = true;
  last_error = "Manually marked FAILED by user via dashboard";
}
force_state mem suspected now = record mem { state = suspected }

unfoldable pub set_node_state_manual :
    Monitor → String → NodeState → ℕ → Monitor × Bool × List Notification
unfolding force_state notify_state_change
set_node_state_manual m node_id new_state now = elim (lookup node_id m.members) [
  | none ↦ (m, false, [])
  | some mem ↦ (
    put_member m node_id (force_state mem new_state now),
    true,
    notify_state_change m node_id mem.state new_state,
  )
]

-- What the body of a health response decodes to; undecodable parts are zero values.
pub record Health : Type 0 where
  pub primary_keys : ℤ
  pub replica_keys : ℤ
  pub hit_count : ℕ

-- The member after a heartbeat that was answered.
unfoldable pub succeed : MemberInfo → ℤ → Health → ℕ → MemberInfo
succeed mem latency health now =
    let seen = record mem {
      last_seen = now;
      latency_ms = latency;
      primary_keys = health.primary_keys;
      replica_keys = health.replica_keys;
      hit_count = health.hit_count;
      missed_pings = 0;
      last_error = "";
    } in
    if mem.manual_override && is_failed mem.state then seen else record seen { state = alive }

unfoldable pub record_success : Monitor → String → ℤ → Health → ℕ → Monitor × List Notification
unfolding succeed notify_state_change
record_success m node_id latency health now = elim (lookup node_id m.members) [
  | none ↦ (m, [])
  | some mem ↦
      let m' = put_member m node_id (succeed mem latency health now) in
      (
        m',
        if mem.manual_override && is_failed mem.state
            then []
            else (if is_alive mem.state then [] else notify_state_change m node_id mem.state alive),
      )
]

-- The state after a missed heartbeat; `seen` and `now` are LastSeen and time.Now().
unfoldable pub state_after : Config → NodeState → ℕ → ℕ → NodeState
state_after cfg old seen now =
    if leb_ℤ cfg.fail_timeout (sub_ℕ now seen)
    then failed
    else (if leb_ℤ cfg.suspect_timeout (sub_ℕ now seen) then suspected else old)

unfoldable pub miss : Config → MemberInfo → String → ℕ → MemberInfo
unfolding state_after
miss cfg mem reason now = record mem {
  missed_pings = mem.missed_pings + 1;
  last_error = reason;
  state = state_after cfg mem.state mem.last_seen now;
}

unfoldable pub record_failure : Monitor → String → String → ℕ → Monitor × List Notification
unfolding miss notify_state_change
record_failure m node_id reason now = elim (lookup node_id m.members) [
  | none ↦ (m, [])
  | some mem ↦
      let mem' = miss m.config mem reason now in
      (
        put_member m node_id mem',
        if same_state mem'.state mem.state
            then []
            else notify_state_change m node_id mem.state mem'.state,
      )
]

-- What the HTTP client made of a ping.
pub data Probe : Type 0 where
  no_request : String → Probe
  no_response : String → Probe
  answered : ℕ → String → ℤ → Health → Probe

-- `answered status text latency health`: `text` is the error text for a status other than 200.
unfoldable pub ping_peer : Monitor → String → Probe → ℕ → Monitor × List Notification
unfolding record_failure record_success
ping_peer m node_id (no_request reason) now = record_failure m node_id reason now
ping_peer m node_id (no_response reason) now = record_failure m node_id reason now
ping_peer m node_id (answered status text latency health) now =
    if status == 200
    then record_success m node_id (if is_positive latency then latency else pos 1) health now
    else record_failure m node_id text now

-- The loop that copies the members to ping: all but the monitor's own node.
unfoldable pub other_members : String → GoMap String MemberInfo → List MemberInfo
other_members self [] = []
other_members self ((node_id, mem) ∷ rest) =
    let others = other_members self rest in
    if holds (text_discrete node_id self) then others else mem ∷ others

unfoldable pub peers_to_ping : Monitor → List MemberInfo
unfolding other_members
peers_to_ping m = other_members m.config.self_node_id m.members

-- One cycle. The goroutines of pingAllPeers run at once; `finished` lists them in the order in
-- which they take the lock to record their result.
unfoldable pub ping_all_peers : Monitor → List (String × Probe × ℕ) → Monitor × List Notification
unfolding ping_peer
ping_all_peers m [] = (m, [])
ping_all_peers m ((node_id, probe, now) ∷ finished) =
    let (m', sent) = ping_peer m node_id probe now in
    let (m'', later) = ping_all_peers m' finished in (m'', sent ++ later)
