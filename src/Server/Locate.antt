-- ===== src/Server/Locate.antt =====
-- backend/internal/server/server.go: the endpoint /debug/locate, which tells where a key belongs.
use shc.Base.{
  ℕ, ◌<◌, ◌≡◌, ◌≢◌, refl, ◌↔◌, ◌⊎◌, inl, inr, String, List, [], ◌∷◌, Option, none, some, Bool, true,
  false, arith, if◌then◌else◌, holds, length, text_discrete, Distinct, subst,
}
use shc.Base.Sort.Laws.{IsSorted}
use shc.Hashing.{NodeTarget, get_nodes, get_primary_node, hash_key}
use shc.Hashing.Placement.{ids, IsPlacement, get_nodes-IsPlacement}
use shc.Server.{Node}
use shc.Server.Requests.{Method, get_method, is_get, is_blank, Response, replied, rejected}

pub record LocateResponse : Type 0 where
  pub key : String
  pub hash : ℕ
  pub primary_node : String
  pub primary_addr : String
  pub replica_node : String
  pub replica_addr : String
  pub is_local : Bool

-- The second node, if there is one; otherwise its fields keep their zero values.
abbrev replica_of : List NodeTarget → NodeTarget
replica_of [] = record { node_id = ""; addr = "" }
replica_of (second ∷ rest) = second

-- `none` is the panic of nodes[0] on an empty list.
unfoldable pub locate : Node → String → Option (List NodeTarget) → Option (Response LocateResponse)
locate s key none = some (rejected 500)
locate s key (some []) = none
locate s key (some (first ∷ rest)) = some (
    replied 200 (record {
      key = key;
      hash = hash_key s.ring key;
      primary_node = first.node_id;
      primary_addr = first.addr;
      replica_node = (replica_of rest).node_id;
      replica_addr = (replica_of rest).addr;
      is_local = holds (text_discrete first.node_id s.node_id);
    }))

unfoldable pub handle_debug_locate : Node → Method → String → Option (Response LocateResponse)
unfolding locate
handle_debug_locate s method key =
    if is_get method
    then (if is_blank key then some (rejected 400) else locate s key (get_nodes s.ring key 2))
    else some (rejected 405)

-- The answer for a key that is not blank, on a ring that has a token.
pub record IsLocation (s : Node) (key : String) (body : LocateResponse) : Type 0 where
  pub primary :
      get_primary_node s.ring key
      ≡ some (record { node_id = body.primary_node; addr = body.primary_addr }, body.hash)
  pub local : (body.is_local ≡ true) ↔ (body.primary_node ≡ s.node_id)
  pub apart : (body.replica_node ≡ "") ⊎ (body.replica_node ≢ body.primary_node)

located :
    (s : Node) (key : String) (first : NodeTarget) (rest : List NodeTarget)
    → IsPlacement s.ring key 2 (first ∷ rest)
    → get_primary_node s.ring key ≡ some (first, s.ring.hash_func key)
    → (body : LocateResponse) × (locate s key (some (first ∷ rest)) ≡ some (replied 200 body))
      × IsLocation s key body
unfolding locate hash_key
located s key first rest p e = (
  _,
  refl,
  record {
    primary = e;
    local = is_local (text_discrete first.node_id s.node_id);
    apart = other rest p.distinct;
  },
)
  where
    is_local :
        (d : Dec (first.node_id ≡ s.node_id)) → (holds d ≡ true) ↔ (first.node_id ≡ s.node_id)
    is_local d = ground arith

    other :
        (more : List NodeTarget)
        → Distinct (ids (first ∷ more))
        → ((replica_of more).node_id ≡ "") ⊎ ((replica_of more).node_id ≢ first.node_id)
    other [] d = inl refl
    other (second ∷ others) d = inr (λ q. d.0 (inl q))

-- On a sorted ring that is not empty, a GET of /debug/locate for a key that is not blank never
-- panics and is answered with 200: the primary node, its address and the hash are those that
-- GetPrimaryNode gives, is_local says whether the primary is this node, and a replica that is named
-- is another node than the primary.
pub handle_debug_locate-IsLocation :
    (s : Node) (key : String)
    → IsSorted s.ring.ring
    → 0 < length s.ring.ring
    → is_blank key ≡ false
    → (body : LocateResponse) × (handle_debug_locate s get_method key ≡ some (replied 200 body))
      × IsLocation s key body
unfolding handle_debug_locate
handle_debug_locate-IsLocation s key v l b =
    let (nodes, g, p) = get_nodes-IsPlacement s.ring key 1 v l in
    let (first, rest, q, e) = p.primary in
    rw (b, g, q) (located s key first rest (subst (IsPlacement s.ring key 2) q p) e)
