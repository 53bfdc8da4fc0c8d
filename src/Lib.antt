-- ===== src/Lib.antt =====
-- Verification of SHC, a self-healing distributed cache (the Go code under backend and sdk/go).
--
-- The program: each node keeps a store of items with TTLs (cache), knows a consistent hash ring of
-- all nodes (hashing), and serves HTTP requests (server). A write at a node is replicated to the
-- second node of its key in the background (replication); a read that goes through a router is
-- served by the primary, or by the replica if the primary is down (failover), as the heartbeat
-- monitor thinks of them (health). Keys that are read often are found by a sliding window (hotkey).
-- When a node joins or comes back, keys are dumped, sent and taken over (rebalancing). A node asks
-- its peers for their own reports (cluster). A node is configured by its environment and its flags
-- (config), and when it starts it takes from its peers what belongs to it. In front of the nodes stands
-- the gateway, which places writes and reads by a ring and a monitor of its own and keeps the cache in
-- step with a database of trips (database), where an edit of one field recalculates the others. The
-- chaos runner writes and reads through the gateway while nodes are killed.
--
-- Files and code:
--   Base          shared types, lists, integers, machine words, sorting, Go's map (GoMap), its strings
--                 (Texts) and the operations of float64 as a parameter (Floats).
--   Cache         backend/internal/cache/cache.go: Cache, SetWithMetadata (set_with_metadata), Get
--                 (get), Delete (remove), Stats, Keys, Close, the cleanup worker. Cache/Items: Item.
--                 Cache/Views: what a reader sees. Cache/History: calls in the order of time.
--                 Cache/Accounts: the counters and the lists of keys.
--   Hashing       backend/internal/hashing/ring.go: AddNode, RemoveNode, GetPrimaryNode, GetNodes,
--                 GetTopology. Children: Names (the text of a virtual node), Successor (the binary
--                 search), Invariant, Owners, Remapping, Joining, Members, Rejoining, Room, Replicas,
--                 Placement, Collisions.
--   Health        backend/internal/health/monitor.go: the members, pings, the manual override and the
--                 cluster view. Children: Detection, Overrides, Membership.
--   HotKey        backend/internal/hotkey/detector.go. Children: Window, Listing.
--   Http          what a call of Go's HTTP client comes to.
--   Cluster       backend/internal/cluster/peer.go. Child: Reports.
--   Failover      backend/internal/failover/router.go. Children: Counters, Routing.
--   Replication   backend/internal/replication/replicator.go. Child: Delivery.
--   Rebalancing   backend/internal/rebalancing/rebalance.go. Children: Transfer, Moves, Adoption,
--                 Ingest, Reports.
--   Server        backend/internal/server/server.go: the handlers of the data. Children: Requests,
--                 Input (the reading of a request), Locate, Recovery (dump, bulk load, rebalancing,
--                 peers), Status (the handlers that show a node), Setup (New), Data (one request
--                 after another), Soundness (any sequence of requests).
--   Config        backend/internal/config/config.go. Child: Peers (the list of peers).
--   Startup       backend/cmd/node/main.go, backend/cmd/router/main.go. Child: Nodes.
--   Gateway       backend/internal/gateway/gateway.go: handleAPISet. Children: Reads (handleAPIGet),
--                 Deletes (handleAPIDelete), Trips (handleAPITrip), Setup (New), Status (the other handlers), Keys
--                 (the row of a key), Through (the write-through), Writes, Overrides, EndToEnd (gateway,
--                 router and node together).
--   Database      backend/internal/database/database.go: the records, the contract of a database and
--                 CalculateTripCascade. Children: Open, Sql (what the drivers share), Sqlite and
--                 Postgres (sqlite.go, postgres.go), Cascade, Written.
--   Chaos         backend/internal/chaos/runner.go. Child: Scores.
--   Client        sdk/go/shc.go.
-- A module Examples beside the theorems has concrete runs of them.
--
-- How the code is read:
--   - A time is its distance from Go's zero time in nanoseconds; every reading of the clock is an
--     argument. Durations are int64, with their wrap-around where the code multiplies; where the
--     code cuts a duration's `float64` seconds to an integer, they are rounded as a float64 is.
--   - uint64 counters and versions wrap around at 2 ^ 64.
--   - A map is an association list with one entry for a key; the order of the list stands for the
--     order of a `range` loop, which Go leaves open.
--   - A method under its lock is one step. Where a method takes the lock twice (Get), what others do
--     in between is an argument; where goroutines end in any order (heartbeats, checks of peers), the
--     order is an argument.
--   - The ring's methods are followed where they do not panic; Hashing.remove_panics is the one test
--     of a removal that does.
--   - What net/url reads as the key from the query of a URL is an argument where it matters.
--   - The network is an argument: each call has its reply. What a handler starts in a goroutine is
--     returned as a list of sends.
--   - The hash function is an argument, as hashing.New takes one; the default is SHA-256 of Go's
--     standard library, cut to 32 bits.
--   - encoding/json, regexp, the SQL of the database, float64 and time.ParseDuration are parameters; a
--     theorem that relies on SQL or on the index of a percentile names what it relies on. Requests
--     and responses are passed decoded.
--   - Every loop is structural recursion. GetNodes has as many rounds as the ring has tokens, and the
--     binary search as many as the ring is long, which suffices since the range shrinks each time.
--
-- Not modelled: the opening of a connection to a database, its pool and the maps of its
-- statistics; CORS headers, HTTP timeouts, signals, the mux itself; the duration, the throughput
-- and the events of a scorecard; the chaos command, which starts scripts and prints; the clients
-- in other languages and the dashboard; the other capacities of slices, log lines, the texts of most errors.
pub mod Base
pub mod Cache
pub mod Chaos
pub mod Config
pub mod Database
pub mod Gateway
pub mod Startup
pub mod Client
pub mod Hashing
pub mod Health
pub mod HotKey
pub mod Http
pub mod Cluster
pub mod Failover
pub mod Replication
pub mod Rebalancing
pub mod Server
