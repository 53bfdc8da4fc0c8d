-- ===== src/Gateway/Writes.antt =====
-- backend/internal/gateway/gateway.go: which node a write reaches.
use shc.Base.{
  ◌≡◌, refl, ap, ◌⊎◌, inl, inr, String, List, [], ◌∷◌, Option, none, some, Bool, true, false,
  Bool-cases, In,
}
use shc.Base.Texts.{is_empty}
use shc.Hashing.{NodeTarget, get_nodes}
use shc.Health.{Monitor, is_failed, get_node_state}
use shc.Failover.{known_state}
use shc.Base.Int.{ℤ}
use shc.Database.{Database, Value, Answer, found, failure}
use shc.Server.Requests.{Method, post_method, is_post, Response, replied}
use shc.Gateway.Through.{IsWritten, write_through-IsWritten}
use shc.Gateway.{
  Gateway, ClientSetRequest, Call, post_set, Json, set_url, Written, SetBody, write_through,
  store_at, handle_api_set, with_value, after_update, write_field, write_row,
}

-- The monitor knows the node as FAILED.
abbrev pub IsDown : Monitor → NodeTarget → Bool → Type 0
IsDown m to b = is_failed (known_state (get_node_state m to.node_id)) ≡ b

abbrev pub body_of : {S F : Type 0} → Written S F → NodeTarget → Bool → SetBody F
body_of w to is_failover = record {
  key = w.req.key;
  value = w.req.value;
  trip = w.full_trip;
  db_updated = w.db_updated;
  served_by = to.node_id;
  is_failover = is_failover;
}

replied-body :
    {F : Type 0} {b c : SetBody F}
    → ◌≡◌ {A = Response (SetBody F)} (replied 200 b) (replied 200 c)
    → c ≡ b
replied-body e = cc

-- A write that is stored: at the primary, which answers and is not known to be FAILED while there is a
-- replica; or at the replica, which answers, when the primary is FAILED or does not answer. The node
-- was sent the request that the write-through left, and the body of the answer shows it.
pub data IsStored {S F : Type 0} (g : Gateway S) (w : Written S F) (first second : String → Bool)
    (body : SetBody F) (calls : List Call) : Type 0 where
  at_primary :
      (primary : NodeTarget) (rest : List NodeTarget)
      → get_nodes g.hash_ring w.req.key 2 ≡ some (primary ∷ rest)
      → (rest ≡ []) ⊎ IsDown g.health_monitor primary false
      → first (set_url primary.addr) ≡ true
      → body ≡ body_of w primary false
      → In (post_set (set_url primary.addr) w.req) calls
      → IsStored g w first second body calls
  at_replica :
      (primary replica : NodeTarget) (rest : List NodeTarget)
      → get_nodes g.hash_ring w.req.key 2 ≡ some (primary ∷ replica ∷ rest)
      → (IsDown g.health_monitor primary true × (first (set_url replica.addr) ≡ true))
        ⊎ (IsDown g.health_monitor primary false
            × (first (set_url primary.addr) ≡ false)
            × (second (set_url replica.addr) ≡ true))
      → body ≡ body_of w replica true
      → In (post_set (set_url replica.addr) w.req) calls
      → IsStored g w first second body calls

module _ {S F : Type 0} (database : Database S F) (json : Json F) where
  after_update-key :
      (req : ClientSetRequest) (r : S × Answer F)
      → (after_update database json req r).req.key ≡ req.key
  after_update-key req (db, found none) = refl
  after_update-key req (db, failure e) = refl
  after_update-key req (db, found (some trip)) = named (json.marshal (some trip))
    where
      named : (o : Option String) → (with_value database json req o).key ≡ req.key
      named none = refl
      named (some value) = refl

  write_field-key :
      (db : S) (req : ClientSetRequest) (row : ℤ) (o : Option (String × Value F))
      → (write_field database json db req row o).req.key ≡ req.key
  write_field-key db req row none = refl
  write_field-key db req row (some (field, value)) = after_update-key req _

  write_row-key :
      (db : S) (req : ClientSetRequest) (o : Option ℤ)
      → (write_row database json db req o).req.key ≡ req.key
  write_row-key db req none = refl
  write_row-key db req (some row) = write_field-key db req row _

  pub write_through-key :
      (db : Option S) (req : ClientSetRequest)
      → (write_through database json db req).req.key ≡ req.key
  unfolding write_through
  write_through-key none req = refl
  write_through-key (some db) req = write_row-key db req _

  module _ (g : Gateway S) (w : Written S F) (first second : String → Bool) where
    alone-IsStored :
        (primary : NodeTarget) (body : SetBody F)
        → get_nodes g.hash_ring w.req.key 2 ≡ some (primary ∷ [])
        → (store_at g.health_monitor w (some (primary ∷ [])) first second).0 ≡ replied 200 body
        → IsStored g w first second body
            (store_at g.health_monitor w (some (primary ∷ [])) first second).1
    unfolding store_at
    alone-IsStored primary body n = elim (Bool-cases (first (set_url primary.addr))) [
      | inl f ↦ rw f (λ e. at_primary primary [] n (inl refl) f (replied-body e) (inl refl))
      | inr f ↦ rw f (λ e. absurd (cc))
    ]

    down-IsStored :
        (primary replica : NodeTarget) (rest : List NodeTarget) (body : SetBody F)
        → get_nodes g.hash_ring w.req.key 2 ≡ some (primary ∷ replica ∷ rest)
        → IsDown g.health_monitor primary true
        → (store_at g.health_monitor w (some (primary ∷ replica ∷ rest)) first second).0
          ≡ replied 200 body
        → IsStored g w first second body
            (store_at g.health_monitor w (some (primary ∷ replica ∷ rest)) first second).1
    unfolding store_at
    down-IsStored primary replica rest body n d = elim (Bool-cases (first (set_url replica.addr))) [
      | inl f ↦
          rw (d, f)
            (λ e. at_replica primary replica rest n (inl (d, f)) (replied-body e) (inl refl))
      | inr f ↦ rw (d, f) (λ e. absurd (cc))
    ]

    up-IsStored :
        (primary replica : NodeTarget) (rest : List NodeTarget) (body : SetBody F)
        → get_nodes g.hash_ring w.req.key 2 ≡ some (primary ∷ replica ∷ rest)
        → IsDown g.health_monitor primary false
        → (store_at g.health_monitor w (some (primary ∷ replica ∷ rest)) first second).0
          ≡ replied 200 body
        → IsStored g w first second body
            (store_at g.health_monitor w (some (primary ∷ replica ∷ rest)) first second).1
    unfolding store_at
    up-IsStored primary replica rest body n d = elim (Bool-cases (first (set_url primary.addr))) [
      | inl f ↦
          rw (d, f)
            (λ e. at_primary primary (replica ∷ rest) n (inr d) f (replied-body e) (inl refl))
      | inr f ↦ elim (Bool-cases (second (set_url replica.addr))) [
        | inl h ↦
            rw (d, f, h)
              (λ e.
                at_replica primary replica rest n (inr (d, f, h)) (replied-body e) (inr (inl refl)))
        | inr h ↦ rw (d, f, h) (λ e. absurd (cc))
      ]
    ]

    store_at-IsStored :
        (targets : Option (List NodeTarget)) (body : SetBody F)
        → get_nodes g.hash_ring w.req.key 2 ≡ targets
        → (store_at g.health_monitor w targets first second).0 ≡ replied 200 body
        → IsStored g w first second body (store_at g.health_monitor w targets first second).1
    unfolding store_at
    store_at-IsStored none body n = λ e. absurd (cc)
    store_at-IsStored (some []) body n = λ e. absurd (cc)
    store_at-IsStored (some (primary ∷ [])) body n = alone-IsStored primary body n
    store_at-IsStored (some (primary ∷ replica ∷ rest)) body n =
        elim (Bool-cases
          (is_failed (known_state (get_node_state g.health_monitor primary.node_id)))) [
            | inl d ↦ down-IsStored primary replica rest body n d
            | inr d ↦ up-IsStored primary replica rest body n d
          ]

  written-IsStored :
      (g : Gateway S) (method : Method) (req : ClientSetRequest) (first second : String → Bool)
      (body : SetBody F)
      → (handle_api_set database json g method (some req) first second).1 ≡ replied 200 body
      → let w = write_through database json g.db req in
        ((handle_api_set database json g method (some req) first second).0.db ≡ w.db)
        × IsStored g w first second body
            (handle_api_set database json g method (some req) first second).2
  unfolding handle_api_set
  written-IsStored g method req first second body = elim (Bool-cases (is_post method)) [
    | inr p ↦ rw p (λ e. absurd (cc))
    | inl p ↦ rw p (elim (Bool-cases (is_empty req.key)) [
      | inl k ↦ rw k (λ e. absurd (cc))
      | inr k ↦ rw k (λ e. (
        refl,
        store_at-IsStored g (write_through database json g.db req) first second _ body
            (same_key req) e,
      ))
    ])
  ]
    where
      same_key :
          (req : ClientSetRequest)
          → get_nodes g.hash_ring (write_through database json g.db req).req.key 2
            ≡ get_nodes g.hash_ring req.key 2
      same_key req = ap (λ k. get_nodes g.hash_ring k 2) (write_through-key g.db req)

  -- Every write that is answered with 200 was put to the database, if there is one and the key and the value
  -- ask for an edit of a row, and left as it is otherwise; where the database answers with the row, the
  -- row's text is its new value. So it was sent to a node of the key whose answer came: to the primary,
  -- not known to be FAILED if there is a replica, or to the replica, when the primary is FAILED or did
  -- not answer; and the answer shows it and names that node and whether it is the replica.
  pub handle_api_set-IsStored :
      (g : Gateway S) (method : Method) (req : ClientSetRequest) (first second : String → Bool)
      (body : SetBody F)
      → (let (g', response, calls) =
            handle_api_set database json g method (some req) first second in
          response)
        ≡ replied 200 body
      → (w : Written S F) × IsWritten database json g.db req w
        × ((handle_api_set database json g method (some req) first second).0.db ≡ w.db)
        × IsStored g w first second body
            (handle_api_set database json g method (some req) first second).2
  handle_api_set-IsStored g method req first second body e =
      let (kept, sent) = written-IsStored g method req first second body e in
      (
        write_through database json g.db req,
        write_through-IsWritten database json g.db req,
        kept,
        sent,
      )

  store_at-available :
      (m : Monitor) (w : Written S F) (primary replica : NodeTarget) (rest : List NodeTarget)
      (first second : String → Bool)
      → first (set_url replica.addr) ≡ true
      → second (set_url replica.addr) ≡ true
      → (body : SetBody F) × ((store_at m w (some (primary ∷ replica ∷ rest)) first second).0
          ≡ replied 200 body)
  unfolding store_at
  store_at-available m w primary replica rest first second f h =
      elim (Bool-cases (is_failed (known_state (get_node_state m primary.node_id)))) [
        | inl d ↦ rw (d, f) (_, refl)
        | inr d ↦ elim (Bool-cases (first (set_url primary.addr))) [
          | inl p ↦ rw (d, p) (_, refl)
          | inr p ↦ rw (d, p, h) (_, refl)
        ]
      ]

  -- A write of a key that is not empty is answered with 200 whatever becomes of the primary, if the key
  -- has a second node that answers.
  pub handle_api_set-available :
      (g : Gateway S) (req : ClientSetRequest) (primary replica : NodeTarget)
      (rest : List NodeTarget) (first second : String → Bool)
      → is_empty req.key ≡ false
      → get_nodes g.hash_ring req.key 2 ≡ some (primary ∷ replica ∷ rest)
      → first (set_url replica.addr) ≡ true
      → second (set_url replica.addr) ≡ true
      → (body : SetBody F) × ((let (g', response, calls) =
              handle_api_set database json g post_method (some req) first second in
            response)
          ≡ replied 200 body)
  unfolding handle_api_set
  handle_api_set-available g req primary replica rest first second k n f h =
      rw (k, n)
        (store_at-available g.health_monitor (write_through database json g.db req) primary replica
          rest first second f h)
