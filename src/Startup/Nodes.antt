-- ===== src/Startup/Nodes.antt =====
-- backend/cmd/node/main.go: the node that a command starts, and all that it serves.
use shc.Base.{◌<◌, ◌≡◌, some, false, length, inl, inr, Bool-cases, ℕ, String, List, [], ◌∷◌}
use shc.Base.GoMap.{GoMap}
use shc.Http.{Network}
use shc.Cache
use shc.Hashing.{HashFunc}
use shc.Cluster.{PeerStatus, Surroundings, check_all_peers}
use shc.Cluster.Reports.{check_all_peers-IsTracked}
use shc.Config.{NodeConfig}
use shc.Rebalancing.{DumpItem, sync_from_peer}
use shc.Server.{Node}
use shc.Server.Requests.{get_method, is_blank, replied}
use shc.Server.Locate.{
  LocateResponse, IsLocation, handle_debug_locate, handle_debug_locate-IsLocation,
}
use shc.Server.Soundness.{Request, IsSound, run}
use shc.Server.Soundness.Parts.{sync_from_peer-IsValid}
use shc.Server.Soundness.Runs.{new_server-IsSound, run-IsSound}
use shc.Startup.{server_config, boot, restore, discover}

restore-IsSound :
    (s : Node) (results : GoMap String PeerStatus) (dumps : Network (List DumpItem))
    (clock : String → ℕ)
    → IsSound s
    → IsSound (restore s results dumps clock)
unfolding restore
restore-IsSound s [] dumps clock v = v
restore-IsSound s ((addr, status) ∷ rest) dumps clock v = elim (Bool-cases status.reachable) [
  | inr e ↦ rw e (restore-IsSound s rest dumps clock v)
  | inl e ↦
      let taken : Node = record s {
        cache = (sync_from_peer s.manager s.ring s.cache addr dumps clock).0;
      } in
      rw e (
        restore-IsSound taken rest dumps clock (record {
          cache = sync_from_peer-IsValid s addr dumps clock v.cache;
          ring = v.ring;
          peers = v.peers;
        }))
]

discover-IsSound :
    (s : Node) (order : List String) (w : Surroundings) (dumps : Network (List DumpItem))
    (clock : String → ℕ)
    → IsSound s
    → IsSound (discover s order w dumps clock)
unfolding discover
discover-IsSound s order w dumps clock v =
    restore-IsSound _ (check_all_peers s.peers order w).1 dumps clock (record {
      cache = v.cache;
      ring = v.ring;
      peers = check_all_peers-IsTracked s.peers order w v.peers;
    })

boot-IsSound :
    (default_hash : HashFunc) (cfg : NodeConfig) (now : ℕ) (clock times : String → ℕ)
    (before after : List Request) (order : List String) (w : Surroundings)
    (dumps : Network (List DumpItem))
    → IsSound
        (run (discover (run (boot default_hash cfg now clock) before) order w dumps times) after)
unfolding boot Cache.new
boot-IsSound default_hash cfg now clock times before after order w dumps = run-IsSound _ after (
    discover-IsSound _ order w dumps times (
      run-IsSound _ before (
        new_server-IsSound default_hash (server_config cfg) (Cache.new cfg.cleanup_interval now).0
          clock tt)))

-- A node that a command starts from any configuration, that serves any requests, looks for its peers and
-- takes their keys, and serves any more requests, none of which panics, answers a GET of
-- /debug/locate for a key that is not blank with 200 and without a panic, if a token is left on its
-- ring: the primary node, its address and the hash are those that GetPrimaryNode gives, is_local says
-- whether the primary is this node, and a replica that is named is another node than the primary.
pub boot-handle_debug_locate :
    (default_hash : HashFunc) (cfg : NodeConfig) (now : ℕ) (clock times : String → ℕ)
    (before after : List Request) (order : List String) (w : Surroundings)
    (dumps : Network (List DumpItem)) (key : String)
    → let s =
        run (discover (run (boot default_hash cfg now clock) before) order w dumps times) after in
      0 < length s.ring.ring
      → is_blank key ≡ false
      → (body : LocateResponse) × (handle_debug_locate s get_method key ≡ some (replied 200 body))
        × IsLocation s key body
boot-handle_debug_locate default_hash cfg now clock times before after order w dumps key l b =
    let v = boot-IsSound default_hash cfg now clock times before after order w dumps in
    handle_debug_locate-IsLocation _ key v.ring.sorted l b
