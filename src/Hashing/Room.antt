-- ===== src/Hashing/Room.antt =====
-- When a removal has room in the slice that it makes.
use shc.Base.{
  ℕ, zero, suc, ◌+◌, ◌≤◌, ◌≡◌, ap, ◌∙◌, String, refl, false, arith, length, length-append,
}
use shc.Base.Sort.Laws.{length-sort}
use shc.Hashing.Owners.{vnode_tokens, place_vnodes-ring}
use shc.Hashing.Invariant.{IsOrdered, cleared, added, node_tokens, add_node-added}
use shc.Hashing.{HashFunc, HashRing, has_node, place_vnodes, remove_panics, add_node}

length-vnode_tokens :
    (f : HashFunc) (node_id : String) (left i : ℕ) → length (vnode_tokens f node_id left i) ≡ left
length-vnode_tokens f node_id zero i = refl
length-vnode_tokens f node_id (suc left) i = ap suc (length-vnode_tokens f node_id left (i + 1))

length-added :
    (h : HashRing) (node_id addr : String)
    → length (added h node_id addr).ring ≡ length h.ring + h.vnodes
length-added h node_id addr =
    length-sort (place_vnodes h.hash_func node_id h.vnodes 0 h.ring h.vnode_to_node).0
    ∙ ap length (place_vnodes-ring h.hash_func node_id h.vnodes 0 h.ring h.vnode_to_node)
    ∙ length-append h.ring (node_tokens h node_id)
    ∙ ap (λ n. length h.ring + n) (length-vnode_tokens h.hash_func node_id h.vnodes 0)

room-remove_panics :
    (h : HashRing) (node_id : String) → h.vnodes ≤ length h.ring → remove_panics h node_id ≡ false
unfolding remove_panics
room-remove_panics h node_id l = ground arith

-- Once a new node has joined, the next removal, of whichever node, has room and does not panic.
pub remove_panics-add_node :
    (h : HashRing) (node_id addr other : String)
    → IsOrdered h
    → has_node h node_id ≡ false
    → remove_panics (add_node h node_id addr) other ≡ false
remove_panics-add_node h node_id addr other v n =
    let before : HashRing = cleared h node_id addr in
    ap (λ g. remove_panics g other) (add_node-added h node_id addr v n)
    ∙ room-remove_panics (added before node_id addr) other
        (omega (arith, length-added before node_id addr))
