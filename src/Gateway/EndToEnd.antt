-- ===== src/Gateway/EndToEnd.antt =====
-- backend/internal/gateway/gateway.go, backend/internal/failover/router.go,
-- backend/internal/server/server.go: a request through the gateway, the router and a node.
use shc.Base.{
  ℕ, ◌+◌, ◌*◌, ◌≤◌, ◌≡◌, refl, sym, ap, subst, ◌∙◌, ◌⊎◌, inl, inr, String, List, [], ◌∷◌, none,
  some, Bool, true, false, arith, In, text_discrete,
}
use shc.Base.Int.{ℤ, pos, pos_part, is_positive}
use shc.Base.Texts.{is_empty, is_blank}
use shc.Base.Words.{seconds}
use shc.Http.{Reply, answered, ok, fetch_json}
use shc.Hashing.{NodeTarget, get_nodes}
use shc.Health.{NodeState, Monitor, is_alive, is_failed, get_node_state}
use shc.Failover.{
  ReadResult, NodeGetPayload, get_url, known_state, read_from_node, route_get, try_primary,
  only_hit,
}
use shc.Database.{TaxiTrip, found, Database}
use shc.Server.{Node, request_ttl, handle_set, handle_get}
use shc.Server.Data.{alone, handle_set-handle_get, is_empty_of_not-is_blank}
use shc.Server.Requests.{
  get_method, post_method, SetRequest, GetResponse, Response, replied, rejected,
}
use shc.Server.Input.{bare, complete, complete-bare}
use shc.Gateway.{
  Gateway, ClientSetRequest, post_set, Json, set_url, row_of, Written, write_through, stored,
  store_at, handle_api_set,
}
use shc.Gateway.Writes.{body_of, write_through-key}
use shc.Gateway.Through.{IsWritten, write_through-IsWritten}
use shc.Gateway.Reads.{Routing, GetBody, cached, from_database, hit_of, answer_get, handle_api_get}

-- The body of a POST to /set as the node decodes it: the fields that it lacks are zero.
abbrev pub node_request : ClientSetRequest → SetRequest
node_request req = record {
  key = req.key;
  value = req.value;
  ttl_seconds = req.ttl_seconds;
  version = 0;
  is_replica = false;
}

abbrev pub payload_of : GetResponse → NodeGetPayload
payload_of body = record {
  status = body.status;
  key = body.key;
  value = body.value;
  ttl_remaining = body.ttl_remaining;
  version = body.version;
  is_replica = body.is_replica;
  node_id = body.node_id;
}

-- The response of a node to GET /get as readFromNode decodes it.
abbrev pub wire : Response GetResponse → Reply NodeGetPayload
wire (replied status body) = answered status (some (payload_of body))
wire (rejected status) = answered status none

-- What a node that was sent a request answers to a read that follows, of the key that it reads from the
-- query. The POST has no query, so that handleSet scans no text for a time to live.
abbrev pub reply_after : Node → ClientSetRequest → String → ℕ → ℕ → ℕ → ℕ → Reply NodeGetPayload
reply_after s req key now at access until =
    let (s', response, sends) =
      handle_set s post_method (complete (λ text n. n) bare (node_request req)) now in
    let (s'', answer, later) = handle_get alone s' get_method key at at access until in wire answer

-- Until the deadline of the request, if it has one.
abbrev pub IsInTime : ClientSetRequest → ℕ → ℕ → Type 0
IsInTime req now at =
    (is_positive (request_ttl req.ttl_seconds) ≡ false)
    ⊎ (at ≤ now + pos_part (request_ttl req.ttl_seconds))

-- A read that the cache answers with this value, read from the key's primary.
abbrev pub IsHit : {F : Type 0} → Response (GetBody F) → NodeTarget → String → Type 0
IsHit response primary value =
    (result : ReadResult) × (latency : ℕ) × (response ≡ replied 200 (cached result latency))
    × (result.value ≡ value)
    × (result.served_by ≡ primary.node_id)
    × (result.is_failover ≡ false)

reply_after-hit :
    (s : Node) (req : ClientSetRequest) (now at access until : ℕ)
    → is_blank req.key ≡ false
    → is_blank req.value ≡ false
    → IsInTime req now at
    → (payload : NodeGetPayload) × (only_hit
          (fetch_json (reply_after s req req.key now at access until))
        ≡ ok payload)
      × (payload.value ≡ req.value)
unfolding only_hit fetch_json text_discrete
reply_after-hit s req now at access until b v live =
    let (answer, r, (body, q, status, key, value, version, mark)) =
      handle_set-handle_get s (node_request req) now at access until b live in
    (
      payload_of body,
      rw (complete-bare (λ text n. n) (node_request req) b v) (rw q (rw status refl)),
      value,
    )

at_alive :
    {S F : Type 0} (m : Monitor) (written : Written S F) (primary : NodeTarget)
    (rest : List NodeTarget) (first second : String → Bool)
    → is_alive (known_state (get_node_state m primary.node_id)) ≡ true
    → first (set_url primary.addr) ≡ true
    → let (response, calls) = store_at m written (some (primary ∷ rest)) first second in
      (response ≡ stored written primary false)
      × In (post_set (set_url primary.addr) written.req) calls
unfolding store_at
at_alive m written primary [] first second a f = rw f (refl, inl refl)
at_alive m written primary (replica ∷ rest) first second a f =
    rw (up (known_state (get_node_state m primary.node_id)) a, f) (refl, inl refl)
  where
    up : (state : NodeState) → is_alive state ≡ true → is_failed state ≡ false
    up state h = ground arith

-- `url_key` is the `key` that net/http and net/url read at the node from the query of a URL. The router puts
-- the key into the URL as it is, so that a key with a character such as + % & # is read back otherwise.
module _ {S F : Type 0} (database : Database S F) (json : Json F) (url_key : String → String) where
  routed-IsHit :
      (g : Gateway S) (key : String) (primary : NodeTarget) (rest : List NodeTarget) (w : Routing)
      (payload : NodeGetPayload)
      → is_empty key ≡ false
      → get_nodes g.hash_ring key 2 ≡ some (primary ∷ rest)
      → is_alive (known_state (get_node_state g.health_monitor primary.node_id)) ≡ true
      → read_from_node w.first primary.addr key ≡ ok payload
      → is_empty payload.value ≡ false
      → IsHit (handle_api_get database json g get_method key w).1 primary payload.value
  unfolding handle_api_get answer_get route_get try_primary
  routed-IsHit g key primary rest w payload k n a r v =
      rw (k, n) (rw (a, r) (rw v (_, _, refl, refl, refl, refl)))

  -- The read that follows a request to a node is answered by the cache with the value of the request.
  sent-handle_api_get :
      (g : Gateway S) (s : Node) (req : ClientSetRequest) (primary : NodeTarget)
      (rest : List NodeTarget) (w : Routing) (now at access until : ℕ)
      → is_blank req.key ≡ false
      → is_blank req.value ≡ false
      → IsInTime req now at
      → get_nodes g.hash_ring req.key 2 ≡ some (primary ∷ rest)
      → is_alive (known_state (get_node_state g.health_monitor primary.node_id)) ≡ true
      → w.first (get_url primary.addr req.key) ≡ reply_after s req req.key now at access until
      → IsHit (handle_api_get database json g get_method req.key w).1 primary req.value
  unfolding read_from_node
  sent-handle_api_get g s req primary rest w now at access until b v live n a e =
      let (payload, p, same) = reply_after-hit s req now at access until b v live in
      let (result, latency, r, value, by, direct) =
        routed-IsHit g req.key primary rest w payload (is_empty_of_not-is_blank req.key b) n a
          (ap (λ x. only_hit (fetch_json x)) e ∙ p)
          (ap is_empty same ∙ is_empty_of_not-is_blank req.value v) in
      (result, latency, r, value ∙ same, by, direct)

  -- A write of a key that is not blank, whose primary is thought ALIVE and answers, is put to the database if
  -- it is an edit; the answer is 200, in the primary's name, and shows the value after that; with that
  -- value it was sent to the primary. Once the primary has handled it, until its deadline, a read of the
  -- key through the gateway is a hit with that value, from the primary, if the value is not blank, the
  -- node reads the same key back from the URL of the router, and the network brings the node's answer.
  pub handle_api_set-handle_api_get :
      (g : Gateway S) (s : Node) (req : ClientSetRequest) (primary : NodeTarget)
      (rest : List NodeTarget) (first second : String → Bool) (w : Routing)
      (now at access until : ℕ)
      → is_blank req.key ≡ false
      → is_blank (write_through database json g.db req).req.value ≡ false
      → IsInTime (write_through database json g.db req).req now at
      → get_nodes g.hash_ring req.key 2 ≡ some (primary ∷ rest)
      → is_alive (known_state (get_node_state g.health_monitor primary.node_id)) ≡ true
      → first (set_url primary.addr) ≡ true
      → url_key (get_url primary.addr req.key) ≡ req.key
      → w.first (get_url primary.addr req.key)
        ≡ reply_after s
            (write_through database json g.db req).req
            (url_key (get_url primary.addr req.key))
            now
            at
            access
            until
      → let written = write_through database json g.db req in
        let (g', response, calls) =
          handle_api_set database json g post_method (some req) first second in
        IsWritten database json g.db req written
        × (g'.db ≡ written.db)
        × (response ≡ replied 200 (body_of written primary false))
        × In (post_set (set_url primary.addr) written.req) calls
        × IsHit (handle_api_get database json g' get_method req.key w).1 primary written.req.value
  unfolding handle_api_set
  handle_api_set-handle_api_get g s req primary rest first second w now at access until b v live n a
        f heard e =
      let written = write_through database json g.db req in
      let named = write_through-key database json g.db req in
      let hit =
        sent-handle_api_get (record g { db = written.db }) s written.req primary rest w now at
          access until (ap is_blank named ∙ b) v live
          (ap (λ k. get_nodes g.hash_ring k 2) named ∙ n) a
          (ap (λ k. w.first (get_url primary.addr k)) named
            ∙ e
            ∙ ap (λ k. reply_after s written.req k now at access until) (heard ∙ sym named)) in
      rw (is_empty_of_not-is_blank req.key b, n)
        (let (response, sent) = at_alive g.health_monitor written primary rest first second a f in
          (
            write_through-IsWritten database json g.db req,
            refl,
            response,
            sent,
            subst
                (λ k.
                  IsHit
                    (handle_api_get database json (record g { db = written.db }) get_method k w).1
                    primary written.req.value)
                named hit,
          ))

  handle_api_get-row :
      (g : Gateway S) (key value : String) (db db' : S) (row : ℤ) (trip : TaxiTrip F)
      (primary : NodeTarget) (rest : List NodeTarget) (w : Routing)
      → let sent : ClientSetRequest = record { key = key; value = value; ttl_seconds = pos 300 } in
        let routed =
          route_get g.failover g.hash_ring g.health_monitor key w.first w.second w.start w.finish in
        is_empty key ≡ false
        → hit_of routed.1 ≡ none
        → g.db ≡ some db
        → row_of key ≡ some row
        → database.query_trip_by_id db row ≡ (db', found (some trip))
        → json.marshal (some trip) ≡ some value
        → get_nodes g.hash_ring key 2 ≡ some (primary ∷ rest)
        → handle_api_get database json g get_method key w ≡ (
          record g { failover = routed.0; db = some db' },
          replied 200 (from_database value trip w.total),
          post_set (set_url primary.addr) sent ∷ [],
        )
  unfolding handle_api_get answer_get
  handle_api_get-row g key value db db' row trip primary rest w k h d r q m n =
      rw (k, h) (rw (d, r) (rw (q, m) (rw n refl)))

  -- A read of a key that the cache does not answer and that names a row of the database is answered with the
  -- text of that row; the row is sent to the key's primary; and once the primary has handled it, for
  -- the 300 seconds of its time to live, the next read of the key is a hit with the same text, from the
  -- primary, if that is thought ALIVE, the text is not blank, the node reads the same key back from the
  -- URL of the router, and the network brings the node's answer.
  pub handle_api_get-hydrates :
      (g : Gateway S) (s : Node) (key value : String) (db db' : S) (row : ℤ) (trip : TaxiTrip F)
      (primary : NodeTarget) (rest : List NodeTarget) (missed next : Routing)
      (now at access until : ℕ)
      → let sent : ClientSetRequest = record { key = key; value = value; ttl_seconds = pos 300 } in
        is_blank key ≡ false
        → hit_of
            (route_get g.failover g.hash_ring g.health_monitor key missed.first missed.second
              missed.start missed.finish).1
          ≡ none
        → g.db ≡ some db
        → row_of key ≡ some row
        → database.query_trip_by_id db row ≡ (db', found (some trip))
        → json.marshal (some trip) ≡ some value
        → is_blank value ≡ false
        → get_nodes g.hash_ring key 2 ≡ some (primary ∷ rest)
        → is_alive (known_state (get_node_state g.health_monitor primary.node_id)) ≡ true
        → at ≤ now + 300 * 1000000000
        → url_key (get_url primary.addr key) ≡ key
        → next.first (get_url primary.addr key)
          ≡ reply_after s sent (url_key (get_url primary.addr key)) now at access until
        → let (g', response, calls) = handle_api_get database json g get_method key missed in
          (response ≡ replied 200 (from_database value trip missed.total))
          × (calls ≡ post_set (set_url primary.addr) sent ∷ [])
          × IsHit (handle_api_get database json g' get_method key next).1 primary value
  unfolding seconds
  handle_api_get-hydrates g s key value db db' row trip primary rest missed next now at access until
        b h d r q m v n a live heard e =
      let sent : ClientSetRequest = record { key = key; value = value; ttl_seconds = pos 300 } in
      let routed =
        route_get g.failover g.hash_ring g.health_monitor key missed.first missed.second
          missed.start missed.finish in
      rw
        (handle_api_get-row g key value db db' row trip primary rest missed
          (is_empty_of_not-is_blank key b) h d r q m n)
        (
          refl,
          refl,
          sent-handle_api_get (record g { failover = routed.0; db = some db' }) s sent primary rest
              next now at access until b v (inr live) n a
              (e ∙ ap (λ k. reply_after s sent k now at access until) heard),
        )
