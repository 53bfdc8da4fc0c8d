-- ===== src/Rebalancing.antt =====
-- backend/internal/rebalancing/rebalance.go: dumps, bulk loads and the move to a new node.
-- The manager shares the cache and the ring with the server; both are passed in and returned.
-- `at` and `until` are the readings of time.Now() by Get and by TTLRemaining at each key.
pub mod Examples
pub mod Transfer
pub mod Moves
pub mod Adoption
pub mod Ingest
pub mod Reports
use Prim.Native.String.{◌++◌}
use shc.Base.{
  ℕ, zero, suc, ◌+◌, ◌-◌, ◌/◌, ltb, String, List, [], ◌∷◌, ◌++◌ as append, Option, none, some, Bool,
  true, false, ◌||◌, if◌then◌else◌, holds, length, text_discrete,
}
use shc.Base.Int.{ℤ, pos, is_positive}
use shc.Base.Words.{seconds}
use shc.Base.GoMap.{GoMap, text_comparable, insert}
use shc.Http.{
  Network, Reply, Result, Failure, ok, err, no_request, no_response, answered, fetch_json,
  request_failed, call_failed,
}
use shc.Cache.{Cache, get, keys, set_with_metadata}
use shc.Cache.Items.{Item, ttl_remaining}
use shc.Hashing.{HashRing, NodeTarget, get_nodes, add_node}

pub record DumpItem : Type 0 where
  pub key : String
  pub value : String
  pub ttl_seconds : ℤ
  pub version : ℕ
  pub is_replica : Bool

pub record BulkSyncPayload : Type 0 where
  pub source_node : String
  pub items : List DumpItem

pub record RebalanceReport : Type 0 where
  pub id : ℕ
  pub triggered_at : ℕ
  pub added_node_id : String
  pub keys_evaluated : ℕ
  pub keys_moved : ℕ
  pub keys_per_node : GoMap String ℕ
  pub duration_ms : ℕ
  pub status : String

pub record Manager : Type 0 where
  pub self_node_id : String
  pub self_addr : String
  pub reports : List RebalanceReport

unfoldable pub new_manager : String → String → Manager
new_manager self_node_id self_addr = record {
  self_node_id = self_node_id;
  self_addr = self_addr;
  reports = [];
}

abbrev pub dump_item : Item → ℕ → Bool → DumpItem
dump_item item until is_replica = record {
  key = item.key;
  value = item.value;
  ttl_seconds = ttl_remaining item until;
  version = item.version;
  is_replica = is_replica;
}

-- One goroutine reads the cache, with nobody in between.
abbrev pub alone : Cache → Cache
alone c = c

abbrev pub dump_found : Option Item → (String → ℕ) → String → List DumpItem → List DumpItem
dump_found none until key items = items
dump_found (some item) until key items = dump_item item (until key) item.is_replica ∷ items

-- The loop of DumpLocalKeys. Get may remove what has expired, so the cache comes back changed.
unfoldable pub dump_keys : Cache → List String → (String → ℕ) → (String → ℕ) → Cache × List DumpItem
dump_keys c [] at until = (c, [])
dump_keys c (key ∷ rest) at until =
    let (c', found) = get alone c key (at key) (at key) in
    let (c'', items) = dump_keys c' rest at until in (c'', dump_found found until key items)

unfoldable pub dump_local_keys : Cache → ℕ → (String → ℕ) → (String → ℕ) → Cache × List DumpItem
unfolding dump_keys
dump_local_keys c now at until = dump_keys c (keys c now) at until

-- `var ttl`, set if the seconds are positive.
abbrev pub item_ttl : ℤ → ℤ
item_ttl ttl_seconds = if is_positive ttl_seconds then seconds ttl_seconds else pos 0

abbrev pub load_item : Cache → DumpItem → Bool → ℕ → Cache
load_item c item is_replica now =
    (set_with_metadata c item.key item.value (item_ttl item.ttl_seconds) item.version is_replica
      now).0

-- `clock` is time.Now() as each key is stored.
unfoldable pub ingest_bulk_keys : Cache → List DumpItem → (String → ℕ) → Cache × ℕ
ingest_bulk_keys c [] clock = (c, 0)
ingest_bulk_keys c (item ∷ rest) clock =
    let (c', n) = ingest_bulk_keys (load_item c item item.is_replica (clock item.key)) rest clock in
    (c', suc n)

-- Whether a node is the primary or the replica of a key.
pub record Role : Type 0 where
  pub is_primary : Bool
  pub is_replica : Bool

unfoldable pub role : String → Option (List NodeTarget) → Role
role self none = record { is_primary = false; is_replica = false }
role self (some []) = record { is_primary = false; is_replica = false }
role self (some (first ∷ [])) = record {
  is_primary = holds (text_discrete first.node_id self);
  is_replica = false;
}
role self (some (first ∷ second ∷ rest)) = record {
  is_primary = holds (text_discrete first.node_id self);
  is_replica = holds (text_discrete second.node_id self);
}

-- The loop of SyncFromPeer: it stores the items that belong on this node.
unfoldable pub adopt_items : String → HashRing → Cache → List DumpItem → (String → ℕ) → Cache × ℕ
unfolding role
adopt_items self ring c [] clock = (c, 0)
adopt_items self ring c (item ∷ rest) clock =
    let r = role self (get_nodes ring item.key 2) in
    let mine = r.is_primary || r.is_replica in
    let (c', n) =
      adopt_items self ring (if mine then load_item c item r.is_replica (clock item.key) else c)
        rest clock in
    (c', if mine then suc n else n)

abbrev adopted :
    String → HashRing → Cache → Result (List DumpItem) → (String → ℕ) → Cache × Result ℕ
adopted self ring c (err e) clock = (c, err e)
adopted self ring c (ok items) clock =
    let (c', n) = adopt_items self ring c items clock in (c', ok n)

unfoldable pub sync_from_peer :
    Manager → HashRing → Cache → String → Network (List DumpItem) → (String → ℕ) → Cache × Result ℕ
unfolding adopt_items fetch_json
sync_from_peer m ring c peer_addr network clock =
    adopted m.self_node_id ring c (fetch_json (network (peer_addr ++ "/internal/dump"))) clock

abbrev first_is : String → Option (List NodeTarget) → Bool
first_is node_id none = false
first_is node_id (some []) = false
first_is node_id (some (first ∷ rest)) = holds (text_discrete first.node_id node_id)

abbrev pub move_found : Option Item → (String → ℕ) → String → List DumpItem → List DumpItem
move_found none until key items = items
move_found (some item) until key items = dump_item item (until key) false ∷ items

-- The loop of RebalanceForNewNode: the keys whose primary is now the new node.
unfoldable pub keys_to_migrate :
    String → HashRing → Cache → List String → (String → ℕ) → (String → ℕ) → Cache × List DumpItem
keys_to_migrate node_id ring c [] at until = (c, [])
keys_to_migrate node_id ring c (key ∷ rest) at until =
    let moves = first_is node_id (get_nodes ring key 2) in
    let (c', found) = get alone c key (at key) (at key) in
    let (c'', items) = keys_to_migrate node_id ring (if moves then c' else c) rest at until in
    (c'', if moves then move_found found until key items else items)

-- The transfer: no request is made without keys, and the status of the reply is not looked at.
unfoldable pub transfer : List DumpItem → Reply (Option String) → Option Failure
transfer [] reply = none
transfer (item ∷ rest) no_request = some request_failed
transfer (item ∷ rest) no_response = some call_failed
transfer (item ∷ rest) (answered status body) = none

abbrev pub BulkPost : Type 0
BulkPost = String → BulkSyncPayload → Reply (Option String)

-- What is left after RebalanceForNewNode, and its report or error.
pub record Rebalanced : Type 0 where
  pub manager : Manager
  pub ring : HashRing
  pub cache : Cache
  pub result : Result RebalanceReport

-- `start`, `finish` and `stamp` are the readings of the clock that the report shows.
unfoldable pub make_report : Manager → String → ℕ → ℕ → ℕ → ℕ → ℕ → RebalanceReport
make_report m node_id evaluated moved start finish stamp = record {
  id = stamp;
  triggered_at = start;
  added_node_id = node_id;
  keys_evaluated = evaluated;
  keys_moved = moved;
  keys_per_node = insert m.self_node_id (evaluated - moved) (insert node_id moved []);
  duration_ms = (finish - start) / 1000000;
  status = "COMPLETED";
}

unfoldable pub finish_rebalance :
    Option Failure → Manager → HashRing → Cache → RebalanceReport → Rebalanced
finish_rebalance (some e) m ring c report = record {
  manager = m;
  ring = ring;
  cache = c;
  result = err e;
}
finish_rebalance none m ring c report = record {
  manager = record m { reports = append m.reports (report ∷ []) };
  ring = ring;
  cache = c;
  result = ok report;
}

unfoldable pub rebalance_for_new_node :
    Manager
    → HashRing
    → Cache
    → String
    → String
    → BulkPost
    → ℕ
    → (String → ℕ)
    → (String → ℕ)
    → ℕ
    → ℕ
    → ℕ
    → Rebalanced
unfolding keys_to_migrate transfer make_report finish_rebalance
rebalance_for_new_node m ring c node_id addr post now at until start finish stamp =
    let ring' = add_node ring node_id addr in
    let all = keys c now in
    let (c', items) = keys_to_migrate node_id ring' c all at until in
    let failure = transfer items (
      post (addr ++ "/internal/sync/bulk")
        (record { source_node = m.self_node_id; items = items })) in
    finish_rebalance failure m ring' c'
      (make_report m node_id (length all) (length items) start finish stamp)

unfoldable pub get_reports : Manager → List RebalanceReport
get_reports m = m.reports
