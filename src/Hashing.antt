-- ===== src/Hashing.antt =====
-- backend/internal/hashing/ring.go: the consistent hash ring.
-- The hash function is an argument, as in the source; a text stands for its bytes. The methods run
-- under the ring's lock, so each is one step.
pub mod Examples
pub mod Names
pub mod Owners
pub mod Successor
pub mod Invariant
pub mod Remapping
pub mod Joining
pub mod Members
pub mod Rejoining
pub mod Room
pub mod Replicas
pub mod Placement
pub mod Collisions
use shc.Base.{
  ℕ, zero, suc, ◌+◌, ◌-◌, ◌%◌, String, List, [], ◌∷◌, ◌++◌, Option, none, some, Bool, true, false,
  ltb, leb, ◌==◌, if◌then◌else◌, holds, not, ◌&&◌, length, get_or, ite, text_discrete,
}
use shc.Base.Int.{ℤ, pos_part, is_positive}
use shc.Base.Sort.{sort, binary_search}
use shc.Base.GoMap.{GoMap, text_comparable, nat_comparable, lookup, insert, delete, value_or}
use Names.{vnode_key}

abbrev pub HashFunc : Type 0
HashFunc = String → ℕ

pub record NodeTarget : Type 0 where
  pub node_id : String
  pub addr : String

pub record VnodeInfo : Type 0 where
  pub hash : ℕ
  pub node_id : String
  pub vnode : ℕ

pub record RingTopology : Type 0 where
  pub total_vnodes : ℕ
  pub nodes : List NodeTarget
  pub vnodes : List VnodeInfo

pub record HashRing : Type 0 where
  pub vnodes : ℕ
  pub hash_func : HashFunc
  pub ring : List ℕ
  pub vnode_to_node : GoMap ℕ String
  pub node_addresses : GoMap String String
  pub nodes : GoMap String Bool

-- `default_hash` is the truncated SHA-256, which crypto/sha256 computes.
unfoldable pub new : HashFunc → ℤ → Option HashFunc → HashRing
new default_hash vnodes hash_func = record {
  vnodes = if is_positive vnodes then pos_part vnodes else 50;
  hash_func = value_or default_hash hash_func;
  ring = [];
  vnode_to_node = [];
  node_addresses = [];
  nodes = [];
}

-- The zero values of a missing key: no text, and false.
abbrev pub owner : HashRing → ℕ → String
owner h token = value_or "" (lookup token h.vnode_to_node)

abbrev pub address : HashRing → String → String
address h node_id = value_or "" (lookup node_id h.node_addresses)

abbrev pub has_node : HashRing → String → Bool
has_node h node_id = value_or false (lookup node_id h.nodes)

-- The loop of internalRemoveNode, which deletes from the map as it reads it.
unfoldable pub remove_tokens : String → List ℕ → GoMap ℕ String → List ℕ × GoMap ℕ String
remove_tokens node_id [] owners = ([], owners)
remove_tokens node_id (hash ∷ rest) owners =
    let mine = holds (text_discrete (value_or "" (lookup hash owners)) node_id) in
    let (kept, left) = remove_tokens node_id rest (if mine then delete hash owners else owners) in
    (if mine then kept else hash ∷ kept, left)

-- internalRemoveNode makes the new ring with room for len(h.ring) - h.vnodes tokens, which panics if the
-- ring is shorter than that.
unfoldable pub remove_panics : HashRing → String → Bool
remove_panics h node_id = has_node h node_id && ltb (length h.ring) h.vnodes

-- What a call that does not panic leaves.
unfoldable pub internal_remove_node : HashRing → String → HashRing
internal_remove_node h node_id =
    let (kept, left) = remove_tokens node_id h.ring h.vnode_to_node in
    if has_node h node_id
    then record h {
      nodes = delete node_id h.nodes;
      node_addresses = delete node_id h.node_addresses;
      ring = kept;
      vnode_to_node = left;
    }
    else h

-- The loop of AddNode from `i` on, with `left` rounds to go.
unfoldable pub place_vnodes :
    HashFunc → String → ℕ → ℕ → List ℕ → GoMap ℕ String → List ℕ × GoMap ℕ String
place_vnodes hash_func node_id zero i ring owners = (ring, owners)
place_vnodes hash_func node_id (suc left) i ring owners =
    let hash = hash_func (vnode_key node_id i) in
    place_vnodes hash_func node_id left (i + 1) (ring ++ hash ∷ []) (insert hash node_id owners)

-- AddNode behind the removal of a placeholder.
unfoldable pub register_node : HashRing → String → String → HashRing
register_node h node_id addr =
    let (ring, owners) = place_vnodes h.hash_func node_id h.vnodes 0 h.ring h.vnode_to_node in
    if has_node h node_id
    then record h { node_addresses = insert node_id addr h.node_addresses }
    else record h {
      nodes = insert node_id true h.nodes;
      node_addresses = insert node_id addr h.node_addresses;
      ring = sort ring;
      vnode_to_node = owners;
    }

unfoldable pub add_node : HashRing → String → String → HashRing
unfolding register_node internal_remove_node
add_node h node_id addr =
    let placeholder = not (holds (text_discrete node_id addr)) && has_node h addr in
    register_node (if placeholder then internal_remove_node h addr else h) node_id addr

unfoldable pub remove_node : HashRing → String → HashRing
unfolding internal_remove_node
remove_node h node_id = internal_remove_node h node_id

-- The index of the first token at or after a hash, and 0 past the last.
unfoldable pub start_index : HashRing → ℕ → ℕ
start_index h key_hash =
    let idx = binary_search (length h.ring) (λ i. leb key_hash (get_or h.ring i 0)) in
    if idx == length h.ring then 0 else idx

abbrev target : HashRing → ℕ → NodeTarget
target h token =
    let node_id = owner h token in record { node_id = node_id; addr = address h node_id }

-- `none` is ErrNoNodesInRing.
unfoldable pub get_primary_node : HashRing → String → Option (NodeTarget × ℕ)
unfolding start_index
get_primary_node h key =
    if length h.ring == 0
    then none
    else (let key_hash = h.hash_func key in
        some (target h (get_or h.ring (start_index h key_hash) 0), key_hash))

-- The loop of GetNodes from `i` on, with `left` rounds to the length of the ring.
unfoldable pub collect_nodes :
    HashRing → ℕ → ℕ → ℕ → ℕ → GoMap String Bool → List NodeTarget → List NodeTarget
collect_nodes h idx count zero i seen unique = unique
collect_nodes h idx count (suc left) i seen unique =
    let vnode_hash = get_or h.ring ((idx + i) % length h.ring) 0 in
    let node_id = owner h vnode_hash in
    let old = value_or false (lookup node_id seen) in
    let rest =
      collect_nodes h idx count left (i + 1) (if old then seen else insert node_id true seen)
        (if old then unique else unique ++ target h vnode_hash ∷ []) in
    if ltb (length unique) count then rest else unique

unfoldable pub get_nodes : HashRing → String → ℕ → Option (List NodeTarget)
unfolding start_index collect_nodes
get_nodes h key count =
    if length h.ring == 0
    then none
    else some (collect_nodes h (start_index h (h.hash_func key)) count (length h.ring) 0 [] [])

-- The two loops of GetTopology. VNodes are listed with the zero index, which the source leaves.
unfoldable pub list_nodes : GoMap String Bool → GoMap String String → List NodeTarget
list_nodes [] addresses = []
list_nodes ((node_id, b) ∷ rest) addresses =
    record { node_id = node_id; addr = value_or "" (lookup node_id addresses) }
    ∷ list_nodes rest addresses

unfoldable pub list_vnodes : List ℕ → GoMap ℕ String → List VnodeInfo
list_vnodes [] owners = []
list_vnodes (hash ∷ rest) owners =
    record { hash = hash; node_id = value_or "" (lookup hash owners); vnode = 0 }
    ∷ list_vnodes rest owners

unfoldable pub get_topology : HashRing → RingTopology
unfolding list_nodes list_vnodes
get_topology h = record {
  total_vnodes = length h.ring;
  nodes = list_nodes h.nodes h.node_addresses;
  vnodes = list_vnodes h.ring h.vnode_to_node;
}

unfoldable pub hash_key : HashRing → String → ℕ
hash_key h key = h.hash_func key

unfoldable pub node_count : HashRing → ℕ
node_count h = length h.nodes
