-- ===== src/Config.antt =====
-- backend/internal/config/config.go: the configuration of a node. The environment is a function
-- that gives "" for an unset variable, as os.Getenv does; the flags are what the package flag has
-- read from the command line, `none` for one that is not given. `parse_duration` is
-- time.ParseDuration.
pub mod Peers
pub mod Examples
use shc.Base.{ℕ, ◌+◌, ◌-◌, ◌%◌, String, List, [], ◌∷◌, Option, none, some, if◌then◌else◌}
use shc.Base.Int.{ℤ, pos, pos_part, neg_part}
use shc.Base.Words.{u64_mod, second}
use shc.Base.Texts.{is_empty, trim_space, split, parse_int}

abbrev pub Environment : Type 0
Environment = String → String

abbrev pub ParseDuration : Type 0
ParseDuration = String → Option ℤ

pub record NodeConfig : Type 0 where
  pub node_id : String
  pub host_id : String
  pub host : String
  pub port : ℤ
  pub peers : List String
  pub cleanup_interval : ℤ
  pub ping_timeout : ℤ
  pub heartbeat_interval : ℤ
  pub suspect_timeout : ℤ
  pub fail_timeout : ℤ
  pub hotkey_window : ℤ
  pub hotkey_threshold : ℕ

unfoldable pub get_first_env : Environment → List String → String → String
get_first_env env [] fallback = fallback
get_first_env env (k ∷ keys) fallback =
    let later = get_first_env env keys fallback in if is_empty (env k) then later else env k

abbrev pub or_else : {A : Type 0} → Option A → A → A
or_else none fallback = fallback
or_else (some a) fallback = a

-- A variable that is set to no number is passed over.
unfoldable pub get_first_env_int : Environment → List String → ℤ → ℤ
get_first_env_int env [] fallback = fallback
get_first_env_int env (k ∷ keys) fallback =
    let later = get_first_env_int env keys fallback in
    if is_empty (env k) then later else or_else (parse_int (env k)) later

unfoldable pub get_env : Environment → String → String → String
get_env env key fallback = if is_empty (env key) then fallback else env key

unfoldable pub get_env_int : Environment → String → ℤ → ℤ
get_env_int env key fallback =
    if is_empty (env key) then fallback else or_else (parse_int (env key)) fallback

unfoldable pub get_env_duration : Environment → ParseDuration → String → ℤ → ℤ
get_env_duration env parse_duration key fallback =
    if is_empty (env key) then fallback else or_else (parse_duration (env key)) fallback

-- uint64 of an int.
abbrev pub to_uint64 : ℤ → ℕ
to_uint64 z = (pos_part z % u64_mod + u64_mod - neg_part z % u64_mod) % u64_mod

abbrev pub keep_peer : String → List String → List String
keep_peer p peers = if is_empty p then peers else p ∷ peers

-- The loop over the parts of the list of peers.
unfoldable pub trim_peers : List String → List String
trim_peers [] = []
trim_peers (p ∷ parts) = keep_peer (trim_space p) (trim_peers parts)

-- 44 is the comma.
unfoldable pub read_peers : String → List String
unfolding trim_peers
read_peers raw = if is_empty raw then [] else trim_peers (split 44 raw)

pub record Flags : Type 0 where
  pub id : Option String
  pub host_id : Option String
  pub host : Option String
  pub port : Option ℤ
  pub peers : Option String
  pub cleanup : Option ℤ
  pub ping_timeout : Option ℤ
  pub heartbeat : Option ℤ
  pub suspect_timeout : Option ℤ
  pub fail_timeout : Option ℤ
  pub hotkey_window : Option ℤ
  pub hotkey_threshold : Option ℕ

unfoldable pub parse_flags : Environment → ParseDuration → Flags → NodeConfig
unfolding get_first_env get_first_env_int get_env_int get_env_duration read_peers
parse_flags env parse_duration flags =
    let duration = get_env_duration env parse_duration in
    record {
      node_id = or_else flags.id (get_first_env env ("NODE_ID" ∷ "CACHE_NODE_ID" ∷ []) "node-a");
      host_id = or_else flags.host_id (get_first_env env ("HOST_ID" ∷ "EC2_HOST_ID" ∷ []) "EC2-A");
      host = or_else flags.host (get_first_env env ("NODE_ADDRESS" ∷ "CACHE_HOST" ∷ []) "0.0.0.0");
      port = or_else flags.port (get_first_env_int env ("PORT" ∷ "NODE_PORT" ∷ []) (pos 8001));
      peers = read_peers (
          or_else flags.peers (get_first_env env ("PEER_NODES" ∷ "PEERS" ∷ "CACHE_PEERS" ∷ []) ""));
      cleanup_interval = or_else flags.cleanup (duration "CLEANUP_INTERVAL" (pos second));
      ping_timeout = or_else flags.ping_timeout (duration "PING_TIMEOUT" (pos 2000000000));
      heartbeat_interval = or_else flags.heartbeat (duration "HEARTBEAT_INTERVAL" (pos second));
      suspect_timeout = or_else flags.suspect_timeout (duration "SUSPECT_TIMEOUT" (pos 2000000000));
      fail_timeout = or_else flags.fail_timeout (duration "FAIL_TIMEOUT" (pos 4000000000));
      hotkey_window = or_else flags.hotkey_window (duration "HOTKEY_WINDOW" (pos 5000000000));
      hotkey_threshold =
          or_else flags.hotkey_threshold (to_uint64 (get_env_int env "HOTKEY_THRESHOLD" (pos 20)));
    }
