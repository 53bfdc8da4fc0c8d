-- ===== src/Hashing/Invariant.antt =====
-- What the ring keeps under AddNode and RemoveNode.
use shc.Base.{
  ℕ, ◌≡◌, ◌≢◌, refl, ap, ◌∙◌, ◌⊎◌, inl, inr, ite, String, List, [], ◌∷◌, ◌++◌, Option, none, some,
  true, false, not, ◌&&◌, arith, if◌then◌else◌, holds, In, Distinct, In-append_left,
  In-append_right, In-append_cases, text_discrete, Bool-cases,
}
use shc.Base.Int.{ℤ}
use shc.Base.Sort.{sort}
use shc.Base.Sort.Laws.{IsSorted, sort-IsSorted, In-sort, sort-In}
use shc.Base.GoMap.{GoMap, text_comparable, nat_comparable, lookup, insert, delete, value_or}
use shc.Base.GoMap
use shc.Base.GoMap.Laws.{lookup-insert, lookup-delete, insert-Distinct, delete-Distinct}
use shc.Hashing.Owners.{
  vnode_tokens, place_vnodes-ring, place_vnodes-owner, place_vnodes-Distinct,
  remove_tokens-Distinct, remove_tokens-IsSorted,
}
use shc.Hashing.{
  HashFunc, HashRing, new, owner, address, has_node, place_vnodes, remove_tokens,
  internal_remove_node, register_node, add_node, remove_node,
}

-- The tokens stand in order, and no map holds a key twice.
pub record IsOrdered (h : HashRing) : Type 0 where
  pub sorted : IsSorted h.ring
  pub owners : Distinct (GoMap.keys h.vnode_to_node)
  pub addresses : Distinct (GoMap.keys h.node_addresses)
  pub registered : Distinct (GoMap.keys h.nodes)

pub new-IsOrdered :
    (default_hash : HashFunc) (vnodes : ℤ) (f : Option HashFunc)
    → IsOrdered (new default_hash vnodes f)
unfolding new
new-IsOrdered default_hash vnodes f = record {
  sorted = tt;
  owners = tt;
  addresses = tt;
  registered = tt;
}

pub internal_remove_node-IsOrdered :
    (h : HashRing) (node_id : String) → IsOrdered h → IsOrdered (internal_remove_node h node_id)
unfolding internal_remove_node
internal_remove_node-IsOrdered h node_id v = elim (Bool-cases (has_node h node_id)) [
  | inr e ↦ rw e v
  | inl e ↦ rw e (record {
    sorted = remove_tokens-IsSorted node_id h.ring h.vnode_to_node v.sorted;
    owners = remove_tokens-Distinct node_id h.ring h.vnode_to_node v.owners;
    addresses = delete-Distinct node_id h.node_addresses v.addresses;
    registered = delete-Distinct node_id h.nodes v.registered;
  })
]

register_node-IsOrdered :
    (h : HashRing) (node_id addr : String) → IsOrdered h → IsOrdered (register_node h node_id addr)
unfolding register_node
register_node-IsOrdered h node_id addr v = elim (Bool-cases (has_node h node_id)) [
  | inl e ↦ rw e (record {
    sorted = v.sorted;
    owners = v.owners;
    addresses = insert-Distinct node_id addr h.node_addresses v.addresses;
    registered = v.registered;
  })
  | inr e ↦ rw e (record {
    sorted = sort-IsSorted _;
    owners = place_vnodes-Distinct h.hash_func node_id h.vnodes 0 h.ring h.vnode_to_node v.owners;
    addresses = insert-Distinct node_id addr h.node_addresses v.addresses;
    registered = insert-Distinct node_id true h.nodes v.registered;
  })
]

pub add_node-IsOrdered :
    (h : HashRing) (node_id addr : String) → IsOrdered h → IsOrdered (add_node h node_id addr)
unfolding add_node
add_node-IsOrdered h node_id addr v =
    elim (Bool-cases (not (holds (text_discrete node_id addr)) && has_node h addr)) [
      | inl e ↦
          rw e (register_node-IsOrdered _ node_id addr (internal_remove_node-IsOrdered h addr v))
      | inr e ↦ rw e (register_node-IsOrdered h node_id addr v)
    ]

pub data Change : Type 0 where
  adds : String → String → Change
  removes : String → Change

unfoldable pub run : HashRing → List Change → HashRing
run h [] = h
run h (adds node_id addr ∷ rest) = run (add_node h node_id addr) rest
run h (removes node_id ∷ rest) = run (remove_node h node_id) rest

-- From a ring that is sorted and whose maps hold each key once, whatever nodes come and go, and
-- however their hashes collide, the ring stays sorted and its maps hold each key once.
pub run-IsOrdered : (h : HashRing) (changes : List Change) → IsOrdered h → IsOrdered (run h changes)
unfolding run remove_node
run-IsOrdered h [] v = v
run-IsOrdered h (adds node_id addr ∷ rest) v =
    run-IsOrdered (add_node h node_id addr) rest (add_node-IsOrdered h node_id addr v)
run-IsOrdered h (removes node_id ∷ rest) v =
    run-IsOrdered (remove_node h node_id) rest (internal_remove_node-IsOrdered h node_id v)

-- The hashes that a new node brings.
abbrev pub node_tokens : HashRing → String → List ℕ
node_tokens h node_id = vnode_tokens h.hash_func node_id h.vnodes 0

abbrev pub added : HashRing → String → String → HashRing
added h node_id addr = record h {
  nodes = insert node_id true h.nodes;
  node_addresses = insert node_id addr h.node_addresses;
  ring = sort (place_vnodes h.hash_func node_id h.vnodes 0 h.ring h.vnode_to_node).0;
  vnode_to_node = (place_vnodes h.hash_func node_id h.vnodes 0 h.ring h.vnode_to_node).1;
}

abbrev pub removed : HashRing → String → HashRing
removed h node_id = record h {
  nodes = delete node_id h.nodes;
  node_addresses = delete node_id h.node_addresses;
  ring = (remove_tokens node_id h.ring h.vnode_to_node).0;
  vnode_to_node = (remove_tokens node_id h.ring h.vnode_to_node).1;
}

-- The ring that a new node joins: AddNode first removes a placeholder under its address.
abbrev pub cleared : HashRing → String → String → HashRing
cleared h node_id addr = if holds (text_discrete node_id addr) then h else remove_node h addr

pub cleared-IsOrdered :
    (h : HashRing) (node_id addr : String) → IsOrdered h → IsOrdered (cleared h node_id addr)
unfolding remove_node
cleared-IsOrdered h node_id addr v = elim (Bool-cases (holds (text_discrete node_id addr))) [
  | inl p ↦ rw p v
  | inr p ↦ rw p (internal_remove_node-IsOrdered h addr v)
]

has_node-internal_remove_node :
    (h : HashRing) (node_id other : String)
    → IsOrdered h
    → has_node h other ≡ false
    → has_node (internal_remove_node h node_id) other ≡ false
unfolding internal_remove_node
has_node-internal_remove_node h node_id other v e = elim (Bool-cases (has_node h node_id)) [
  | inr absent ↦ rw absent e
  | inl present ↦
      rw present (ap (value_or false) (lookup-delete node_id other h.nodes v.registered) ∙ left)
]
  where
    left : value_or false (ite (text_discrete node_id other) none (lookup other h.nodes)) ≡ false
    left = ground arith

pub has_node-cleared :
    (h : HashRing) (node_id addr : String)
    → IsOrdered h
    → has_node h node_id ≡ false
    → has_node (cleared h node_id addr) node_id ≡ false
unfolding remove_node
has_node-cleared h node_id addr v e = elim (Bool-cases (holds (text_discrete node_id addr))) [
  | inl p ↦ rw p e
  | inr p ↦ rw p (has_node-internal_remove_node h addr node_id v e)
]

register_node-added :
    (h : HashRing) (node_id addr : String)
    → has_node h node_id ≡ false
    → register_node h node_id addr ≡ added h node_id addr
unfolding register_node
register_node-added h node_id addr e = rw e refl

add_node-register_node :
    (h : HashRing) (node_id addr : String)
    → add_node h node_id addr ≡ register_node (cleared h node_id addr) node_id addr
unfolding add_node remove_node internal_remove_node
add_node-register_node h node_id addr = elim (Bool-cases (holds (text_discrete node_id addr))) [
  | inl p ↦ rw p refl
  | inr p ↦ elim (Bool-cases (has_node h addr)) [ inl e ↦ rw (p, e) refl | inr e ↦ rw (p, e) refl ]
]

pub add_node-added :
    (h : HashRing) (node_id addr : String)
    → IsOrdered h
    → has_node h node_id ≡ false
    → add_node h node_id addr ≡ added (cleared h node_id addr) node_id addr
add_node-added h node_id addr v e =
    add_node-register_node h node_id addr
    ∙ register_node-added (cleared h node_id addr) node_id addr
        (has_node-cleared h node_id addr v e)

pub remove_node-removed :
    (h : HashRing) (node_id : String)
    → has_node h node_id ≡ true
    → remove_node h node_id ≡ removed h node_id
unfolding remove_node internal_remove_node
remove_node-removed h node_id e = rw e

pub In-added :
    (h : HashRing) (node_id addr : String) (t : ℕ)
    → In t (added h node_id addr).ring
    → In t h.ring ⊎ In t (node_tokens h node_id)
In-added h node_id addr t m = In-append_cases h.ring (node_tokens h node_id) t (
    rw (place_vnodes-ring h.hash_func node_id h.vnodes 0 h.ring h.vnode_to_node) at (In-sort t _ m))

pub added-In :
    (h : HashRing) (node_id addr : String) (t : ℕ)
    → In t h.ring ⊎ In t (node_tokens h node_id)
    → In t (added h node_id addr).ring
added-In h node_id addr t m =
    sort-In t _
      (rw (place_vnodes-ring h.hash_func node_id h.vnodes 0 h.ring h.vnode_to_node) (put m))
  where
    put : In t h.ring ⊎ In t (node_tokens h node_id) → In t (h.ring ++ node_tokens h node_id)
    put (inl p) = In-append_left h.ring (node_tokens h node_id) t p
    put (inr q) = In-append_right h.ring (node_tokens h node_id) t q

-- The target of a token: it moves to the new node or stays as it was.
pub added-owner :
    (h : HashRing) (node_id addr : String) (t : ℕ)
    → ((owner (added h node_id addr) t ≡ node_id) × In t (node_tokens h node_id))
      ⊎ ((owner (added h node_id addr) t ≡ owner h t) × (¬ In t (node_tokens h node_id)))
added-owner h node_id addr t =
    elim (place_vnodes-owner h.hash_func node_id h.vnodes 0 h.ring h.vnode_to_node t) [
      | inl e ↦ inl (ap (value_or "") e.0, e.1)
      | inr e ↦ inr (ap (value_or "") e.0, e.1)
    ]

pub added-address :
    (h : HashRing) (node_id addr other : String)
    → other ≢ node_id
    → address (added h node_id addr) other ≡ address h other
added-address h node_id addr other n =
    ap (value_or "") (lookup-insert node_id other addr h.node_addresses ∙ there)
  where
    there :
        ite (text_discrete node_id other) (some addr) (lookup other h.node_addresses)
        ≡ lookup other h.node_addresses
    there = ground arith

pub removed-address :
    (h : HashRing) (node_id other : String)
    → IsOrdered h
    → other ≢ node_id
    → address (removed h node_id) other ≡ address h other
removed-address h node_id other v n =
    ap (value_or "") (lookup-delete node_id other h.node_addresses v.addresses ∙ there)
  where
    there :
        ite (text_discrete node_id other) none (lookup other h.node_addresses)
        ≡ lookup other h.node_addresses
    there = ground arith

pub node_tokens-owner :
    (h : HashRing) (node_id addr : String) (t : ℕ)
    → In t (node_tokens h node_id)
    → owner (added h node_id addr) t ≡ node_id
node_tokens-owner h node_id addr t m = elim (added-owner h node_id addr t) [
  | inl e ↦ e.0
  | inr e ↦ absurd (e.1 m)
]
