-- ===== src/Server.antt =====
-- backend/internal/server/server.go: the handlers that read and write the data of a node.
-- A request reaches them decoded: handle_set begins behind the reading of the body and of the
-- query (Server/Input), and a body that cannot be decoded is `none`. What a handler starts in a goroutine is
-- returned as a list of sends, which other modules run.
pub mod Examples
pub mod Requests
pub mod Input
pub mod Data
pub mod Locate
pub mod Recovery
pub mod Status
pub mod Setup
pub mod Soundness
use shc.Base.{
  ℕ, String, List, [], ◌∷◌, Option, none, some, Bool, true, false, ◌&&◌, ◌||◌, not, if◌then◌else◌,
  holds, text_discrete,
}
use shc.Base.Int.{ℤ, pos, is_positive}
use shc.Base.Words.{seconds}
use shc.Cache.{Cache, set_with_metadata, get, remove}
use shc.Cache.Items.{Item, ttl_remaining}
use shc.Hashing.{HashRing, NodeTarget, get_nodes}
use shc.HotKey.{Detector, record_access}
use shc.Cluster.{PeerManager}
use shc.Health.{Monitor}
use shc.Failover.{Router}
use shc.Rebalancing.{Manager}
use shc.Replication.{Replicator, ReplicatePayload}
use Requests.{
  Method, is_get, is_post, is_delete, is_blank, is_empty, SetRequest, SetResponse, GetResponse,
  DeleteResponse, Response, replied, rejected,
}

-- The components of Server, and the parts of its configuration that the handlers read.
pub record Node : Type 0 where
  pub node_id : String
  pub host : String
  pub port : ℤ
  pub cache : Cache
  pub peers : PeerManager
  pub ring : HashRing
  pub replicator : Replicator
  pub monitor : Monitor
  pub router : Router
  pub manager : Manager
  pub detector : Detector

-- A call of the replicator that a goroutine makes: ReplicateSet or ReplicateDelete.
pub data Send : Type 0 where
  replicate : String → String → String → ℤ → ℕ → Send
  replicate_delete : String → String → Send

-- `var ttl`, set if the seconds are positive.
abbrev pub request_ttl : ℤ → ℤ
request_ttl ttl_seconds = if is_positive ttl_seconds then seconds ttl_seconds else pos 0

-- targets[i], if there are so many and the lookup is no error.
abbrev pub second_of : Option (List NodeTarget) → Option NodeTarget
second_of (some (first ∷ second ∷ rest)) = some second
second_of _ = none

abbrev pub third_of : Option (List NodeTarget) → Option NodeTarget
third_of (some (first ∷ second ∷ third ∷ rest)) = some third
third_of _ = none

-- The target is another node, with an address.
abbrev pub is_remote : Node → NodeTarget → Bool
is_remote s to = not (holds (text_discrete to.node_id s.node_id)) && not (is_empty to.addr)

abbrev pub sends_to : Node → Option NodeTarget → (NodeTarget → Send) → List Send
sends_to s none send = []
sends_to s (some to) send = if is_remote s to then send to ∷ [] else []

abbrev pub node_id_of : Option NodeTarget → String
node_id_of none = ""
node_id_of (some to) = to.node_id

-- handleSet, from its last check of the key.
unfoldable pub set_request : Node → SetRequest → ℕ → Node × Response SetResponse × List Send
set_request s req now =
    let ttl = request_ttl req.ttl_seconds in
    let (c, item) =
      set_with_metadata s.cache req.key req.value ttl req.version req.is_replica now in
    let to = if req.is_replica then none else second_of (get_nodes s.ring req.key 2) in
    if is_blank req.key then (s, rejected 400, []) else (
      record s { cache = c },
      replied 200 (record {
        status = "stored";
        key = item.key;
        node_id = s.node_id;
        version = item.version;
        is_replica = item.is_replica;
        replica_node = node_id_of to;
      }),
      sends_to s to (λ t. replicate t.addr item.key item.value ttl item.version),
    )

unfoldable pub handle_set : Node → Method → SetRequest → ℕ → Node × Response SetResponse × List Send
unfolding set_request
handle_set s method req now =
    if is_post method then set_request s req now else (s, rejected 405, [])

abbrev miss_response : Node → String → Response GetResponse
miss_response s key = replied 404 (record {
  status = "miss";
  key = key;
  value = "";
  ttl_remaining = pos 0;
  version = 0;
  is_replica = false;
  is_hot = false;
  request_count = 0;
  node_id = s.node_id;
  message = "Key not found or expired";
})

-- A hit: the access is recorded, and a hot key is sent to one more replica.
unfoldable pub serve_item : Node → Item → String → ℕ → ℕ → Node × Response GetResponse × List Send
serve_item s item key now until =
    let (d, is_hot, count) = record_access s.detector key now in
    let to = if is_hot then third_of (get_nodes s.ring key 3) else none in
    (
      record s { detector = d },
      replied 200 (record {
        status = "hit";
        key = item.key;
        value = item.value;
        ttl_remaining = ttl_remaining item until;
        version = item.version;
        is_replica = item.is_replica;
        is_hot = is_hot;
        request_count = count;
        node_id = s.node_id;
        message = "";
      }),
      sends_to s to (λ t.
          replicate t.addr item.key item.value (request_ttl (ttl_remaining item until))
            item.version),
    )

unfoldable pub answer_get :
    Node → Option Item → String → ℕ → ℕ → Node × Response GetResponse × List Send
unfolding serve_item
answer_get s none key now until = (s, miss_response s key, [])
answer_get s (some item) key now until = serve_item s item key now until

-- `others` is what other goroutines do to the cache inside Get, which reads the clock at `at` and
-- `later`; `now` and `until` are the readings of RecordAccess and of TTLRemaining.
unfoldable pub handle_get :
    (Cache → Cache)
    → Node
    → Method
    → String
    → ℕ
    → ℕ
    → ℕ
    → ℕ
    → Node × Response GetResponse × List Send
unfolding answer_get
handle_get others s method key at later now until =
    let (c, found) = get others s.cache key at later in
    if is_get method
    then (if is_blank key
        then (s, rejected 400, [])
        else answer_get (record s { cache = c }) found key now until)
    else (s, rejected 405, [])

-- The key of the query, or else of the body.
abbrev pub delete_key : String → Option String → String
delete_key key none = key
delete_key key (some body_key) = if is_empty key then body_key else key

unfoldable pub delete_request : Node → String → Node × Response DeleteResponse × List Send
delete_request s key =
    let (c, deleted) = remove s.cache key in
    let sends =
      sends_to s (second_of (get_nodes s.ring key 2)) (λ t. replicate_delete t.addr key) in
    if is_blank key then (s, rejected 400, []) else (
      record s { cache = c },
      if deleted
          then replied 200
              (record { status = "deleted"; key = key; node_id = s.node_id; message = "" })
          else replied 404 (record {
            status = "not_found";
            key = key;
            node_id = s.node_id;
            message = "Key does not exist";
          }),
      sends,
    )

unfoldable pub handle_delete :
    Node → Method → String → Option String → Node × Response DeleteResponse × List Send
unfolding delete_request
handle_delete s method key body =
    if is_delete method || is_post method
    then delete_request s (delete_key key body)
    else (s, rejected 405, [])

abbrev store_replica : Node → Option ReplicatePayload → ℕ → Node × Response SetResponse
store_replica s none now = (s, rejected 400)
store_replica s (some req) now =
    let (c, item) =
      set_with_metadata s.cache req.key req.value (request_ttl req.ttl_seconds) req.version true
        now in
    (
      record s { cache = c },
      replied 200 (record {
        status = "replicated";
        key = item.key;
        node_id = s.node_id;
        version = item.version;
        is_replica = true;
        replica_node = "";
      }),
    )

-- The body has the fields of a SetRequest; its is_replica is not looked at.
unfoldable pub handle_internal_replicate :
    Node → Method → Option ReplicatePayload → ℕ → Node × Response SetResponse
handle_internal_replicate s method req now =
    if is_post method then store_replica s req now else (s, rejected 405)

unfoldable pub handle_internal_replicate_delete : Node → Method → String → Node × Response String
handle_internal_replicate_delete s method key =
    if is_delete method || is_post method
    then (if is_empty key
        then (s, rejected 400)
        else (record s { cache = (remove s.cache key).0 }, replied 200 key))
    else (s, rejected 405)
