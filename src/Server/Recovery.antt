-- ===== src/Server/Recovery.antt =====
-- backend/internal/server/server.go: the endpoints that move data between nodes and that look at
-- the peers.
use shc.Base.{
  ℕ, String, List, [], ◌∷◌, Option, none, some, ◌&&◌, ◌||◌, not, if◌then◌else◌, length, holds,
  text_discrete,
}
use shc.Base.GoMap.{GoMap}
use shc.Http.{Result, ok, err}
use shc.Hashing.{HashRing, add_node}
use shc.Cluster.{PeerStatus, Surroundings, check_all_peers, get_peers_status}
use shc.Rebalancing.{
  DumpItem, BulkSyncPayload, BulkPost, RebalanceReport, dump_local_keys, ingest_bulk_keys,
  rebalance_for_new_node, get_reports,
}
use shc.Server.{Node}
use shc.Server.Requests.{Method, is_get, is_post, is_empty, Response, replied, rejected}

pub record DumpResponse : Type 0 where
  pub node_id : String
  pub count : ℕ
  pub items : List DumpItem

-- `now` is the reading of Keys; `at` and `until` are those of Get and TTLRemaining at each key.
unfoldable pub handle_internal_dump :
    Node → Method → ℕ → (String → ℕ) → (String → ℕ) → Node × Response DumpResponse
handle_internal_dump s method now at until =
    let (c, items) = dump_local_keys s.cache now at until in
    if is_get method
    then (
      record s { cache = c },
      replied 200 (record { node_id = s.node_id; count = length items; items = items }),
    )
    else (s, rejected 405)

pub record BulkSyncResponse : Type 0 where
  pub status : String
  pub node_id : String
  pub ingested : ℕ

abbrev ingest : Node → Option BulkSyncPayload → (String → ℕ) → Node × Response BulkSyncResponse
ingest s none clock = (s, rejected 400)
ingest s (some payload) clock =
    let (c, ingested) = ingest_bulk_keys s.cache payload.items clock in
    (
      record s { cache = c },
      replied 200 (record { status = "bulk_synced"; node_id = s.node_id; ingested = ingested }),
    )

-- A body that cannot be decoded is `none`.
unfoldable pub handle_internal_sync_bulk :
    Node → Method → Option BulkSyncPayload → (String → ℕ) → Node × Response BulkSyncResponse
handle_internal_sync_bulk s method payload clock =
    if is_post method then ingest s payload clock else (s, rejected 405)

-- The body of POST /internal/rebalance.
pub record NewNode : Type 0 where
  pub node_id : String
  pub addr : String

-- What the network and the clock answer during one rebalance.
pub record Transfer : Type 0 where
  pub post : BulkPost
  pub now : ℕ
  pub at : String → ℕ
  pub until : String → ℕ
  pub start : ℕ
  pub finish : ℕ
  pub stamp : ℕ

abbrev reported : Result RebalanceReport → Response RebalanceReport
reported (ok report) = replied 200 report
reported (err e) = rejected 500

abbrev rebalance : Node → Option NewNode → Transfer → Node × Response RebalanceReport
rebalance s none w = (s, rejected 400)
rebalance s (some req) w =
    let r =
      rebalance_for_new_node s.manager s.ring s.cache req.node_id req.addr w.post w.now w.at w.until
        w.start w.finish w.stamp in
    if is_empty req.node_id || is_empty req.addr
    then (s, rejected 400)
    else (record s { manager = r.manager; ring = r.ring; cache = r.cache }, reported r.result)

unfoldable pub handle_internal_rebalance :
    Node → Method → Option NewNode → Transfer → Node × Response RebalanceReport
handle_internal_rebalance s method req w =
    if is_post method then rebalance s req w else (s, rejected 405)

pub record ReportsResponse : Type 0 where
  pub node_id : String
  pub count : ℕ
  pub reports : List RebalanceReport

unfoldable pub handle_debug_rebalance_stats : Node → Method → Response ReportsResponse
handle_debug_rebalance_stats s method =
    let reports = get_reports s.manager in
    if is_get method
    then replied 200 (record { node_id = s.node_id; count = length reports; reports = reports })
    else rejected 405

-- The loop over the statuses of a refresh: a reachable peer joins the ring under the name it gives.
unfoldable pub join_peers : HashRing → GoMap String PeerStatus → HashRing
join_peers ring [] = ring
join_peers ring ((addr, status) ∷ rest) =
    join_peers
      (if status.reachable && not (is_empty status.node_id)
        then add_node ring status.node_id addr
        else ring)
      rest

pub record PeersResponse : Type 0 where
  pub self_node_id : String
  pub peers : GoMap String PeerStatus

-- `refresh` is the query; `order` and `w` are those of CheckAllPeers.
unfoldable pub handle_internal_peers :
    Node → Method → String → List String → Surroundings → Node × Response PeersResponse
unfolding join_peers
handle_internal_peers s method refresh order w =
    let (pm, results) = check_all_peers s.peers order w in
    if is_get method
    then (if holds (text_discrete refresh "true")
        then (
          record s { peers = pm; ring = join_peers s.ring results },
          replied 200 (record { self_node_id = s.node_id; peers = results }),
        )
        else (
          s,
          replied 200 (record { self_node_id = s.node_id; peers = get_peers_status s.peers }),
        ))
    else (s, rejected 405)
