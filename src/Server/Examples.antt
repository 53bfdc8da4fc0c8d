-- ===== src/Server/Examples.antt =====
-- A write, a read and a delete at one of two nodes.
use shc.Base.{
  ◌<◌, ◌≡◌, refl, ◌↔◌, inl, inr, [], ◌∷◌, none, some, true, false, arith, In, text_discrete,
  ℕ_discrete,
}
use shc.Base.Int.{pos}
use shc.Base.Words.{seconds}
use shc.Base.Sort.{binary_search}
use shc.Base.GoMap.{text_comparable, nat_comparable, lookup, insert}
use shc.Cache.{Cache, set_with_metadata, next_version}
use shc.Cache.Items.{Item}
use shc.Hashing.{get_nodes}
use shc.Hashing.Examples.{two_nodes}
use shc.HotKey.{Detector}
use shc.Replication.{replicate_payload}
use shc.Server.{Node, replicate, handle_set, handle_get, handle_delete, handle_internal_replicate}
use shc.Server.Requests.{
  get_method, post_method, delete_method, is_blank, SetRequest, SetResponse, GetResponse,
  DeleteResponse, replied,
}
use shc.Server.Locate.{
  LocateResponse, IsLocation, handle_debug_locate, handle_debug_locate-IsLocation,
}
use shc.Server.Data.{
  alone, Serves, handle_set-handle_get, handle_delete-handle_get,
  handle_set-handle_internal_replicate, handle_internal_replicate-sub_second,
}

abbrev empty : Cache
empty = record {
  items = [];
  hit_count = 0;
  miss_count = 0;
  set_count = 0;
  delete_count = 0;
  expired_count = 0;
  start_time = 0;
  stopped = false;
}

abbrev detector : Detector
detector = record {
  config = record { window_duration = pos 5000000000; threshold_count = 20 };
  key_access = [];
  hot_keys = [];
}

abbrev pub node : Node
node = record {
  node_id = "a";
  host = "10.0.0.1";
  port = pos 8001;
  cache = empty;
  peers = record {
    self_node_id = "a";
    self_addr = "http://a";
    peers = "http://b" ∷ [];
    timeout = pos 2;
    peer_states = [];
  };
  ring = two_nodes;
  replicator = record { total = 0; successes = 0; failures = 0 };
  monitor = record {
    config = record {
      self_node_id = "a";
      self_addr = "http://a";
      peers = [];
      heartbeat_interval = pos 10;
      suspect_timeout = pos 20;
      fail_timeout = pos 40;
    };
    members = [];
    stopped = false;
    listeners = [];
  };
  router = record { total_routed = 0; direct_hits = 0; failover_hits = 0; failures = 0 };
  manager = record { self_node_id = "a"; self_addr = "http://a"; reports = [] };
  detector = detector;
}

abbrev other_node : Node
other_node = record node { node_id = "bb" }

abbrev pub request : SetRequest
request = record {
  key = "user";
  value = "ada";
  ttl_seconds = pos 60;
  version = 0;
  is_replica = false;
}

not_blank : is_blank "user" ≡ false
unfolding is_blank
not_blank = refl

handle_set-handle_get_example :
    let (s', r, sends) = handle_set node post_method request 10 in
    (body : SetResponse) × (r ≡ replied 200 body)
    × Serves (handle_get alone s' get_method "user" 20 20 21 22).1 "user" "ada" body.version false
unfolding seconds
handle_set-handle_get_example =
    handle_set-handle_get node request 10 20 21 22 not_blank (inr (omega arith))

handle_delete-handle_get_example :
    let (s', r, sends) = handle_delete node delete_method "user" none in
    (((answer : DeleteResponse) × (r ≡ replied 200 answer))
      ↔ ((item : Item) × (lookup "user" empty.items ≡ some item)))
    × ((missed : GetResponse) × ((handle_get alone s' get_method "user" 20 20 21 22).1
          ≡ replied 404 missed))
handle_delete-handle_get_example = handle_delete-handle_get node "user" none 20 21 22 tt not_blank

user-sent :
    In
      (replicate "http://b" "user" "ada" (pos 60000000000) 1)
      (handle_set node post_method request 10).2
unfolding handle_set get_nodes set_with_metadata lookup text_discrete ℕ_discrete binary_search
    seconds is_blank insert next_version
user-sent = inl refl

handle_set-handle_internal_replicate_example :
    let payload = replicate_payload "user" "ada" (pos 60000000000) 1 in
    let (other', r) = handle_internal_replicate other_node post_method (some payload) 30 in
    (item : Item) × (lookup "user" other'.cache.items ≡ some item)
    × (item.value ≡ "ada")
    × (item.is_replica ≡ true)
    × (item.expires_at ≡ 60000000030)
    × (0 < 1 → (item.version ≡ 1) × (1 ≡ next_version 0 none))
unfolding lookup
handle_set-handle_internal_replicate_example =
    handle_set-handle_internal_replicate node other_node request 60 10 30 "http://b" "user" "ada"
      (pos 60000000000) 1 refl (omega arith) user-sent

handle_debug_locate-IsLocation_example :
    (body : LocateResponse) × (handle_debug_locate node get_method "user" ≡ some (replied 200 body))
    × IsLocation node "user" body
handle_debug_locate-IsLocation_example =
    handle_debug_locate-IsLocation node "user" ((omega arith, tt), (tt, tt)) (omega arith) not_blank

handle_internal_replicate-sub_second_example :
    let payload = replicate_payload "user" "ada" (pos 500000000) 1 in
    let (other', r) = handle_internal_replicate other_node post_method (some payload) 30 in
    (payload.ttl_seconds ≡ pos 0)
    × ((item : Item) × (lookup "user" other'.cache.items ≡ some item)
        × (item.value ≡ "ada")
        × (item.is_replica ≡ true)
        × (item.expires_at ≡ 0))
handle_internal_replicate-sub_second_example =
    handle_internal_replicate-sub_second other_node "user" "ada" 500000000 1 30 (omega arith)
      (omega arith)
