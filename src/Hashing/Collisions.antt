-- ===== src/Hashing/Collisions.antt =====
-- What a hash collision does to the ring when the node that owns the token leaves.
use shc.Base.{
  ℕ, ◌≡◌, ◌≢◌, ap, ◌∙◌, ◌⊎◌, inl, inr, ite, String, List, [], ◌∷◌, none, some, true, false, arith,
  holds, In, Distinct, Bool-cases, text_discrete, ℕ_discrete,
}
use shc.Base.GoMap.{GoMap, nat_comparable, text_comparable, lookup, delete, value_or}
use shc.Base.GoMap
use shc.Base.GoMap.Laws.{lookup-delete, delete-Distinct}
use shc.Hashing.Invariant.{IsOrdered, remove_node-removed}
use shc.Hashing.{HashRing, owner, has_node, remove_tokens, remove_node}

abbrev pub StandsTwice : ℕ → List ℕ → Type 0
StandsTwice t [] = ⊥
StandsTwice t (u ∷ ring) = ((u ≡ t) × In t ring) ⊎ StandsTwice t ring

abbrev Orphan : ℕ → List ℕ × GoMap ℕ String → Type 0
Orphan t result = In t result.0 × (lookup t result.1 ≡ none)

orphan_without_owner :
    (node_id : String) (ring : List ℕ) (owners : GoMap ℕ String) (t : ℕ)
    → "" ≢ node_id
    → Distinct (GoMap.keys owners)
    → lookup t owners ≡ none
    → (lookup t (remove_tokens node_id ring owners).1 ≡ none)
      × (In t ring → In t (remove_tokens node_id ring owners).0)
unfolding remove_tokens
orphan_without_owner node_id [] owners t n d e = (e, λ m. m)
orphan_without_owner node_id (u ∷ ring) owners t n d e =
    elim (Bool-cases (holds (text_discrete (value_or "" (lookup u owners)) node_id))) [
      | inl q ↦
          let (a, b) =
            orphan_without_owner node_id ring (delete u owners) t n (delete-Distinct u owners d)
              (lookup-delete u t owners d ∙ still) in
          rw q (a, λ m. elim m [ inl p ↦ absurd (not_mine p q) | inr j ↦ b j ])
      | inr q ↦
          let (a, b) = orphan_without_owner node_id ring owners t n d e in
          rw q (a, λ m. elim m [ inl p ↦ inl p | inr j ↦ inr (b j) ])
    ]
  where
    still : ite (ℕ_discrete u t) none (lookup t owners) ≡ none
    still = ground arith

    not_mine : u ≡ t → holds (text_discrete (value_or "" (lookup u owners)) node_id) ≡ true → ⊥
    not_mine p q = ground (arith, ap (λ x. lookup x owners) p)

Orphan-of_twice :
    (node_id : String) (ring : List ℕ) (owners : GoMap ℕ String) (t : ℕ)
    → "" ≢ node_id
    → Distinct (GoMap.keys owners)
    → lookup t owners ≡ some node_id
    → StandsTwice t ring
    → Orphan t (remove_tokens node_id ring owners)
unfolding remove_tokens
Orphan-of_twice node_id [] owners t n d e = λ m. absurd m
Orphan-of_twice node_id (u ∷ ring) owners t n d e =
    elim (Bool-cases (holds (text_discrete (value_or "" (lookup u owners)) node_id))) [
      | inl q ↦ rw q (λ m. elim (ℕ_discrete u t) [
        | yes p ↦
            let (a, b) =
              orphan_without_owner node_id ring (delete u owners) t n (delete-Distinct u owners d)
                (lookup-delete u t owners d ∙ gone p) in
            (b (further m), a)
        | no p ↦
            Orphan-of_twice node_id ring (delete u owners) t n (delete-Distinct u owners d)
              (lookup-delete u t owners d ∙ stays p) (later p m)
      ])
      | inr q ↦ rw q (λ m.
          let p : u ≢ t = λ r. not_other r q in
          let (a, b) = Orphan-of_twice node_id ring owners t n d e (later p m) in (inr a, b))
    ]
  where
    gone : u ≡ t → ite (ℕ_discrete u t) none (lookup t owners) ≡ none
    gone p = ground arith

    stays : u ≢ t → ite (ℕ_discrete u t) none (lookup t owners) ≡ some node_id
    stays p = ground arith

    twice_in : (xs : List ℕ) → StandsTwice t xs → In t xs
    twice_in [] m = absurd m
    twice_in (x ∷ xs) (inl h) = inl h.0
    twice_in (x ∷ xs) (inr h) = inr (twice_in xs h)

    further : StandsTwice t (u ∷ ring) → In t ring
    further (inl h) = h.1
    further (inr h) = twice_in ring h

    later : u ≢ t → StandsTwice t (u ∷ ring) → StandsTwice t ring
    later p (inl h) = absurd (p h.0)
    later p (inr h) = h

    not_other : u ≡ t → holds (text_discrete (value_or "" (lookup u owners)) node_id) ≡ false → ⊥
    not_other p q = ground (arith, ap (λ x. lookup x owners) p)

-- When the hashes of two virtual nodes are equal, on an ordered ring, and their owner, a
-- registered node with a name, leaves, the ring keeps the token once more with no owner:
-- RemoveNode does not remove all of the node.
pub remove_node-orphan :
    (h : HashRing) (node_id : String) (t : ℕ)
    → IsOrdered h
    → "" ≢ node_id
    → has_node h node_id ≡ true
    → lookup t h.vnode_to_node ≡ some node_id
    → StandsTwice t h.ring
    → In t (remove_node h node_id).ring × (owner (remove_node h node_id) t ≡ "")
remove_node-orphan h node_id t v n present e m =
    let (a, b) = Orphan-of_twice node_id h.ring h.vnode_to_node t n v.owners e m in
    rw (remove_node-removed h node_id present) (a, ap (value_or "") b)
