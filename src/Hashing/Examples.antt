-- ===== src/Hashing/Examples.antt =====
-- A small ring with one token for a node, and the theorems about rings at it.
use Prim.Native.String.{count}
use shc.Base.{
  ◌≡◌, ◌≢◌, refl, subst, text_discrete, ℕ_discrete, inl, inr, String, List, [], ◌∷◌, map, take,
  some, true, false, ℕ, ◌<◌, ◌++◌, length, arith, In,
}
use shc.Base.GoMap.{text_comparable, nat_comparable, lookup}
use shc.Hashing.{
  HashFunc, HashRing, NodeTarget, owner, has_node, add_node, remove_node, get_primary_node,
  get_nodes, internal_remove_node, remove_panics,
}
use shc.Hashing.Successor.{IsSuccessor}
use shc.Hashing.Invariant.{IsOrdered, cleared, node_tokens}
use shc.Hashing.Joining.{Placed, add_node-remapping}
use shc.Hashing.Names.{vnode_key, itoa}
use shc.Hashing.Members.{
  IsMember, IsConsistent, IsFresh, change-IsConsistent, get_primary_node-IsMember,
}
use shc.Hashing.Rejoining.{remove_node-add_node, remove_node-reroutes}
use shc.Hashing.Replicas.{clockwise, named, first_places, get_nodes-clockwise}
use shc.Hashing.Placement.{IsPlacement, get_nodes-IsPlacement}
use shc.Hashing.Collisions.{remove_node-orphan}

-- One hash for each length of a text: the tokens of "a", "bb" and "ccc" are 9, 10 and 11.
abbrev by_length : HashFunc
by_length s = count s

abbrev pub two_nodes : HashRing
two_nodes = record {
  vnodes = 1;
  hash_func = by_length;
  ring = 9 ∷ 10 ∷ [];
  vnode_to_node = (9, "a") ∷ (10, "bb") ∷ [];
  node_addresses = ("a", "http://a") ∷ ("bb", "http://b") ∷ [];
  nodes = ("a", true) ∷ ("bb", true) ∷ [];
}

apart : ◌≢◌ {A = String} "bb" "a"
apart e = cc

pub two_nodes-IsOrdered : IsOrdered two_nodes
two_nodes-IsOrdered = record {
  sorted = ((omega arith, tt), (tt, tt));
  owners = (λ i. elim i [ inl e ↦ omega (arith, e) | inr n ↦ n ], ((λ n. n), tt));
  addresses = (λ i. elim i [ inl e ↦ apart e | inr n ↦ n ], ((λ n. n), tt));
  registered = (λ i. elim i [ inl e ↦ apart e | inr n ↦ n ], ((λ n. n), tt));
}

a-IsMember : IsMember two_nodes (owner two_nodes 9)
unfolding lookup text_discrete ℕ_discrete
a-IsMember = record { present = refl; at = "http://a"; reachable = refl }

b-IsMember : IsMember two_nodes (owner two_nodes 10)
unfolding lookup text_discrete ℕ_discrete
b-IsMember = record { present = refl; at = "http://b"; reachable = refl }

two_nodes-IsConsistent : IsConsistent two_nodes
two_nodes-IsConsistent = record {
  ordered = two_nodes-IsOrdered;
  no_collision = (λ i. elim i [ inl e ↦ omega (arith, e) | inr n ↦ n ], ((λ n. n), tt));
  owned = λ t i. elim i [
    | inl e ↦ subst (λ u. IsMember two_nodes (owner two_nodes u)) e a-IsMember
    | inr j ↦ elim j [
      | inl e ↦ subst (λ u. IsMember two_nodes (owner two_nodes u)) e b-IsMember
      | inr n ↦ absurd n
    ]
  ];
}

pub c-absent : has_node two_nodes "ccc" ≡ false
unfolding lookup text_discrete ℕ_discrete
c-absent = refl

c-IsFresh : IsFresh (cleared two_nodes "ccc" "http://c") "ccc"
unfolding vnode_key itoa lookup text_discrete remove_node internal_remove_node
c-IsFresh = (
  (λ i. elim i [
    | inl e ↦ omega (arith, e)
    | inr j ↦ elim j [ inl e ↦ omega (arith, e) | inr n ↦ n ]
  ]),
  ((λ i. elim i [ inl e ↦ omega (arith, e) | inr n ↦ n ]), ((λ n. n), tt)),
)

pub c-room : 0 < length (cleared two_nodes "ccc" "http://c").ring
unfolding lookup text_discrete remove_node internal_remove_node
c-room = omega arith

add_node-remapping_example :
    let before = cleared two_nodes "ccc" "http://c" in
    (t : ℕ) × IsSuccessor (before.hash_func "user") (before.ring ++ node_tokens before "ccc") t
    × Placed before (add_node two_nodes "ccc" "http://c") "ccc" "http://c" "user" t
add_node-remapping_example =
    add_node-remapping two_nodes "ccc" "http://c" "user" two_nodes-IsOrdered c-absent c-room

remove_node-reroutes_example :
    ((to : NodeTarget) (hash : ℕ)
      → get_primary_node (remove_node two_nodes "bb") "user" ≡ some (to, hash)
      → to.node_id ≢ "bb")
    × ((from : NodeTarget) (hash : ℕ)
        → get_primary_node two_nodes "user" ≡ some (from, hash)
        → from.node_id ≢ "bb"
        → get_primary_node (remove_node two_nodes "bb") "user" ≡ some (from, hash))
remove_node-reroutes_example = remove_node-reroutes two_nodes "bb" "user" two_nodes-IsConsistent

change-IsConsistent_example :
    (has_node two_nodes "ccc" ≡ false
      → IsFresh (cleared two_nodes "ccc" "http://c") "ccc"
      → IsConsistent (add_node two_nodes "ccc" "http://c"))
    × IsConsistent (remove_node two_nodes "ccc")
change-IsConsistent_example = change-IsConsistent two_nodes "ccc" "http://c" two_nodes-IsConsistent

get_primary_node-IsMember_example :
    (to : NodeTarget) × (get_primary_node two_nodes "user" ≡ some (to, 4))
    × (has_node two_nodes to.node_id ≡ true)
    × (lookup to.node_id two_nodes.node_addresses ≡ some to.addr)
get_primary_node-IsMember_example =
    get_primary_node-IsMember two_nodes "user" two_nodes-IsConsistent (omega arith)

remove_node-add_node_example :
    get_primary_node (remove_node (add_node two_nodes "ccc" "http://c") "ccc") "user"
    ≡ get_primary_node (cleared two_nodes "ccc" "http://c") "user"
remove_node-add_node_example =
    remove_node-add_node two_nodes "ccc" "http://c" "user" two_nodes-IsConsistent c-absent c-IsFresh
      c-room

get_nodes-clockwise_example :
    get_nodes two_nodes "user" 2
    ≡ some (
        map
          (named two_nodes)
          (take 2 (first_places [] (map (owner two_nodes) (clockwise two_nodes 4)))))
get_nodes-clockwise_example =
    get_nodes-clockwise two_nodes "user" 2 ((omega arith, tt), (tt, tt)) (omega arith)

get_nodes-IsPlacement_example :
    (nodes : List NodeTarget) × (get_nodes two_nodes "user" 2 ≡ some nodes)
    × IsPlacement two_nodes "user" 2 nodes
get_nodes-IsPlacement_example =
    get_nodes-IsPlacement two_nodes "user" 1 ((omega arith, tt), (tt, tt)) (omega arith)

-- The virtual nodes of "a" collide.
abbrev collided : HashRing
collided = record {
  vnodes = 2;
  hash_func = λ s. 9;
  ring = 9 ∷ 9 ∷ [];
  vnode_to_node = (9, "a") ∷ [];
  node_addresses = ("a", "http://a") ∷ [];
  nodes = ("a", true) ∷ [];
}

collided-IsOrdered : IsOrdered collided
collided-IsOrdered = record {
  sorted = ((omega arith, tt), (tt, tt));
  owners = ((λ n. n), tt);
  addresses = ((λ n. n), tt);
  registered = ((λ n. n), tt);
}

collided-a : (has_node collided "a" ≡ true) × (lookup 9 collided.vnode_to_node ≡ some "a")
unfolding lookup text_discrete ℕ_discrete
collided-a = (refl, refl)

unnamed : ◌≢◌ {A = String} "" "a"
unnamed e = cc

remove_node-orphan_example :
    In 9 (remove_node collided "a").ring × (owner (remove_node collided "a") 9 ≡ "")
remove_node-orphan_example =
    remove_node-orphan collided "a" 9 collided-IsOrdered unnamed collided-a.0 collided-a.1
      (inl (refl, inl refl))

-- A ring with fewer tokens than a node is given: its removal panics.
two_nodes-panics : remove_panics (record two_nodes { vnodes = 3 }) "a" ≡ true
unfolding remove_panics lookup text_discrete
two_nodes-panics = refl
