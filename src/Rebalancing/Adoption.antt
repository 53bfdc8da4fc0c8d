-- ===== src/Rebalancing/Adoption.antt =====
-- Which keys SyncFromPeer changes, and to what.
use shc.Base.{
  ℕ, ◌<◌, ◌≡◌, ◌≢◌, refl, sym, ap, subst, ◌∙◌, ◌⊎◌, inl, inr, String, List, [], ◌∷◌, Option, none,
  some, Bool, true, false, ◌||◌, arith, if◌then◌else◌, holds, Bool-cases, text_discrete, true≢false,
}
use shc.Base.GoMap.{text_comparable, lookup}
use shc.Base.GoMap.Laws.{lookup-insert_self, lookup-insert_other}
use shc.Cache.{Cache, set_with_metadata}
use shc.Cache.Items.{Item}
use shc.Hashing.{HashRing, NodeTarget, get_nodes}
use shc.Rebalancing.{DumpItem, role, load_item, adopt_items}
use shc.Rebalancing.Transfer.{next_version-pos}

-- The node is the primary or the replica of the key.
abbrev owns : String → HashRing → String → Bool
owns self ring key =
    (role self (get_nodes ring key 2)).is_primary || (role self (get_nodes ring key 2)).is_replica

-- The last item with a key in a dump.
unfoldable pub last_item : String → List DumpItem → Option DumpItem
last_item key [] = none
last_item key (item ∷ rest) = elim (last_item key rest) [
  | some later ↦ some later
  | none ↦ if holds (text_discrete item.key key) then some item else none
]

-- The entry holds what a dump item says; version 0 asks for the next version.
pub record Holds (o : Option Item) (x : DumpItem) : Type 0 where
  pub item : Item
  pub found : o ≡ some item
  pub value : item.value ≡ x.value
  pub version : 0 < x.version → item.version ≡ x.version

-- The first, or the second, of a key's nodes has this id.
abbrev pub FirstIs : String → Option (List NodeTarget) → Type 0
FirstIs self nodes =
    (first : NodeTarget) × (rest : List NodeTarget) × (nodes ≡ some (first ∷ rest))
    × (first.node_id ≡ self)

abbrev pub SecondIs : String → Option (List NodeTarget) → Type 0
SecondIs self nodes =
    (first : NodeTarget) × (second : NodeTarget) × (rest : List NodeTarget) × (nodes
      ≡ some (first ∷ second ∷ rest))
    × (second.node_id ≡ self)

-- The entry holds what a dump item says, as a replica or not.
pub record IsAdopted (o : Option Item) (x : DumpItem) (is_replica : Bool) : Type 0 where
  pub holds_it : Holds o x
  pub marked : holds_it.item.is_replica ≡ is_replica

holds_of : (n self : String) → n ≡ self → holds (text_discrete n self) ≡ true
holds_of n self e = ground arith

of_holds : (n self : String) → holds (text_discrete n self) ≡ true → n ≡ self
of_holds n self e = ground arith

role-first :
    (self : String) (nodes : Option (List NodeTarget))
    → FirstIs self nodes
    → (role self nodes).is_primary ≡ true
unfolding role
role-first self nodes (first, [], e, n) = rw e (holds_of first.node_id self n)
role-first self nodes (first, second ∷ rest, e, n) = rw e (holds_of first.node_id self n)

role-second :
    (self : String) (nodes : Option (List NodeTarget))
    → SecondIs self nodes
    → (role self nodes).is_replica ≡ true
unfolding role
role-second self nodes (first, second, rest, e, n) = rw e (holds_of second.node_id self n)

first-role :
    (self : String) (nodes : Option (List NodeTarget))
    → (role self nodes).is_primary ≡ true
    → FirstIs self nodes
unfolding role
first-role self none e = absurd (true≢false (sym e))
first-role self (some []) e = absurd (true≢false (sym e))
first-role self (some (first ∷ [])) e = (first, [], refl, of_holds first.node_id self e)
first-role self (some (first ∷ second ∷ rest)) e =
    (first, second ∷ rest, refl, of_holds first.node_id self e)

second-role :
    (self : String) (nodes : Option (List NodeTarget))
    → (role self nodes).is_replica ≡ true
    → SecondIs self nodes
unfolding role
second-role self none e = absurd (true≢false (sym e))
second-role self (some []) e = absurd (true≢false (sym e))
second-role self (some (first ∷ [])) e = absurd (true≢false (sym e))
second-role self (some (first ∷ second ∷ rest)) e =
    (first, second, rest, refl, of_holds second.node_id self e)

or_true : (a b : Bool) → (a || b) ≡ true → (a ≡ true) ⊎ (b ≡ true)
or_true true b e = inl refl
or_true false b e = inr e

true_or : (a b : Bool) → (a ≡ true) ⊎ (b ≡ true) → (a || b) ≡ true
true_or true b h = refl
true_or false b (inl e) = absurd (true≢false (sym e))
true_or false b (inr e) = e

owns-listed :
    (self : String) (ring : HashRing) (key : String)
    → FirstIs self (get_nodes ring key 2) ⊎ SecondIs self (get_nodes ring key 2)
    → owns self ring key ≡ true
owns-listed self ring key (inl f) = true_or _ _ (inl (role-first self (get_nodes ring key 2) f))
owns-listed self ring key (inr f) = true_or _ _ (inr (role-second self (get_nodes ring key 2) f))

owns-foreign :
    (self : String) (ring : HashRing) (key : String)
    → (¬ FirstIs self (get_nodes ring key 2)) × (¬ SecondIs self (get_nodes ring key 2))
    → owns self ring key ≡ false
owns-foreign self ring key (f, g) = elim (Bool-cases (owns self ring key)) [
  | inr e ↦ e
  | inl e ↦ elim (or_true _ _ e) [
    | inl p ↦ absurd (f (first-role self (get_nodes ring key 2) p))
    | inr p ↦ absurd (g (second-role self (get_nodes ring key 2) p))
  ]
]

pub load_item-own :
    (c : Cache) (x : DumpItem) (is_replica : Bool) (now : ℕ)
    → Holds (lookup x.key (load_item c x is_replica now).items) x
unfolding set_with_metadata
load_item-own c x is_replica now = record {
  item = _;
  found = lookup-insert_self x.key _ c.items;
  value = refl;
  version = next_version-pos x.version (lookup x.key c.items);
}

pub load_item-other :
    (c : Cache) (x : DumpItem) (is_replica : Bool) (now : ℕ) (key : String)
    → x.key ≢ key
    → lookup key (load_item c x is_replica now).items ≡ lookup key c.items
unfolding set_with_metadata
load_item-other c x is_replica now key n = lookup-insert_other x.key key _ c.items n

load_item-IsAdopted :
    (c : Cache) (x : DumpItem) (is_replica : Bool) (now : ℕ)
    → IsAdopted (lookup x.key (load_item c x is_replica now).items) x is_replica
unfolding set_with_metadata
load_item-IsAdopted c x is_replica now = record {
  holds_it = record {
    item = _;
    found = lookup-insert_self x.key _ c.items;
    value = refl;
    version = next_version-pos x.version (lookup x.key c.items);
  };
  marked = refl;
}

-- The cache that the loop goes on with after an item.
abbrev after : String → HashRing → Cache → DumpItem → (String → ℕ) → Cache
after self ring c x clock =
    load_item c x (role self (get_nodes ring x.key 2)).is_replica (clock x.key)

adopt_items-mine :
    (self : String) (ring : HashRing) (c : Cache) (x : DumpItem) (rest : List DumpItem)
    (clock : String → ℕ)
    → owns self ring x.key ≡ true
    → (adopt_items self ring c (x ∷ rest) clock).0
      ≡ (adopt_items self ring (after self ring c x clock) rest clock).0
unfolding adopt_items
adopt_items-mine self ring c x rest clock e = rw e refl

adopt_items-foreign :
    (self : String) (ring : HashRing) (c : Cache) (x : DumpItem) (rest : List DumpItem)
    (clock : String → ℕ)
    → owns self ring x.key ≡ false
    → (adopt_items self ring c (x ∷ rest) clock).0 ≡ (adopt_items self ring c rest clock).0
unfolding adopt_items
adopt_items-foreign self ring c x rest clock e = rw e refl

adopt_items-not_owned :
    (self : String) (ring : HashRing) (c : Cache) (items : List DumpItem) (clock : String → ℕ)
    (key : String)
    → owns self ring key ≡ false
    → lookup key (adopt_items self ring c items clock).0.items ≡ lookup key c.items
unfolding adopt_items
adopt_items-not_owned self ring c [] clock key o = refl
adopt_items-not_owned self ring c (x ∷ rest) clock key o =
    elim (Bool-cases (owns self ring x.key)) [
      | inr e ↦
          ap (λ d. lookup key d.items) (adopt_items-foreign self ring c x rest clock e)
          ∙ adopt_items-not_owned self ring c rest clock key o
      | inl e ↦
          ap (λ d. lookup key d.items) (adopt_items-mine self ring c x rest clock e)
          ∙ adopt_items-not_owned self ring (after self ring c x clock) rest clock key o
          ∙ load_item-other c x (role self (get_nodes ring x.key 2)).is_replica (clock x.key) key
              (λ p. true≢false (sym e ∙ ap (owns self ring) p ∙ o))
    ]

pub last_item-rest :
    (key : String) (x : DumpItem) (rest : List DumpItem)
    → last_item key (x ∷ rest) ≡ none
    → (last_item key rest ≡ none) × (x.key ≢ key)
unfolding last_item
last_item-rest key x rest e = ground arith

adopt_items-not_listed :
    (self : String) (ring : HashRing) (c : Cache) (items : List DumpItem) (clock : String → ℕ)
    (key : String)
    → last_item key items ≡ none
    → lookup key (adopt_items self ring c items clock).0.items ≡ lookup key c.items
unfolding adopt_items
adopt_items-not_listed self ring c [] clock key n = refl
adopt_items-not_listed self ring c (x ∷ rest) clock key n =
    let (m, d) = last_item-rest key x rest n in
    elim (Bool-cases (owns self ring x.key)) [
      | inr e ↦
          ap (λ d. lookup key d.items) (adopt_items-foreign self ring c x rest clock e)
          ∙ adopt_items-not_listed self ring c rest clock key m
      | inl e ↦
          ap (λ d. lookup key d.items) (adopt_items-mine self ring c x rest clock e)
          ∙ adopt_items-not_listed self ring (after self ring c x clock) rest clock key m
          ∙ load_item-other c x (role self (get_nodes ring x.key 2)).is_replica (clock x.key) key d
    ]

pub last_item-last :
    (key : String) (x y : DumpItem) (rest : List DumpItem)
    → last_item key (x ∷ rest) ≡ some y
    → (last_item key rest ≡ some y) ⊎ ((last_item key rest ≡ none) × (x.key ≡ key) × (x ≡ y))
unfolding last_item
last_item-last key x y rest e = ground arith

adopt_items-listed :
    (self : String) (ring : HashRing) (c : Cache) (items : List DumpItem) (clock : String → ℕ)
    (key : String) (y : DumpItem)
    → owns self ring key ≡ true
    → last_item key items ≡ some y
    → IsAdopted
        (lookup key (adopt_items self ring c items clock).0.items)
        y
        (role self (get_nodes ring key 2)).is_replica
unfolding last_item
adopt_items-listed self ring c [] clock key y o f = cc
adopt_items-listed self ring c (x ∷ rest) clock key y o f = elim (last_item-last key x y rest f) [
  | inl later ↦ elim (Bool-cases (owns self ring x.key)) [
    | inr e ↦
        subst (λ d. IsAdopted (lookup key d.items) y (role self (get_nodes ring key 2)).is_replica)
          (sym (adopt_items-foreign self ring c x rest clock e))
          (adopt_items-listed self ring c rest clock key y o later)
    | inl e ↦
        subst (λ d. IsAdopted (lookup key d.items) y (role self (get_nodes ring key 2)).is_replica)
          (sym (adopt_items-mine self ring c x rest clock e))
          (adopt_items-listed self ring (after self ring c x clock) rest clock key y o later)
  ]
  | inr (n, p, q) ↦
      subst (λ l. IsAdopted l y (role self (get_nodes ring key 2)).is_replica)
        (sym (
          ap (λ d. lookup key d.items)
            (adopt_items-mine self ring c x rest clock (ap (owns self ring) p ∙ o))
          ∙ adopt_items-not_listed self ring (after self ring c x clock) rest clock key n))
        (subst
          (λ k.
            IsAdopted (lookup k (after self ring c x clock).items) y
              (role self (get_nodes ring k 2)).is_replica)
          p
          (subst
            (λ z.
              IsAdopted (lookup x.key (after self ring c x clock).items) z
                (role self (get_nodes ring x.key 2)).is_replica)
            q
            (load_item-IsAdopted c x (role self (get_nodes ring x.key 2)).is_replica
              (clock x.key))))
]

-- After a dump is taken over, a key that the dump lists and for which the ring names this node first or
-- second holds the value of the last item of the dump with that key and, unless that is 0, its version,
-- even if the node held a newer one; it is marked as a replica if and only if the ring names the node
-- second. A key that the ring gives to other nodes, or that the dump does not list, is as it was.
pub adopt_items-last :
    (self : String) (ring : HashRing) (c : Cache) (items : List DumpItem) (clock : String → ℕ)
    (key : String)
    → let nodes = get_nodes ring key 2 in
      let entry = lookup key (adopt_items self ring c items clock).0.items in
      ((x : DumpItem)
        → FirstIs self nodes ⊎ SecondIs self nodes
        → last_item key items ≡ some x
        → (is_replica : Bool) × IsAdopted entry x is_replica
          × (is_replica ≡ true → SecondIs self nodes)
          × (SecondIs self nodes → is_replica ≡ true))
      × (((¬ FirstIs self nodes) × (¬ SecondIs self nodes)) ⊎ (last_item key items ≡ none)
          → entry ≡ lookup key c.items)
adopt_items-last self ring c items clock key = (
  λ x o l. (
    (role self (get_nodes ring key 2)).is_replica,
    adopt_items-listed self ring c items clock key x (owns-listed self ring key o) l,
    second-role self (get_nodes ring key 2),
    role-second self (get_nodes ring key 2),
  ),
  λ h. elim h [
    | inl o ↦ adopt_items-not_owned self ring c items clock key (owns-foreign self ring key o)
    | inr n ↦ adopt_items-not_listed self ring c items clock key n
  ],
)
