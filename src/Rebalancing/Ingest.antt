-- ===== src/Rebalancing/Ingest.antt =====
-- Which keys IngestBulkKeys changes, and to what.
use shc.Base.{
  ℕ, ◌≡◌, refl, sym, ap, subst, ◌∙◌, inl, inr, String, List, [], ◌∷◌, none, some, suc, length,
}
use shc.Base.GoMap.{text_comparable, lookup}
use shc.Cache.{Cache}
use shc.Rebalancing.{DumpItem, load_item, ingest_bulk_keys}
use shc.Rebalancing.Adoption.{
  Holds, last_item, last_item-rest, last_item-last, load_item-own, load_item-other,
}

module _ (clock : String → ℕ) (key : String) where
  ingest_bulk_keys-not_listed :
      (c : Cache) (items : List DumpItem)
      → last_item key items ≡ none
      → lookup key (ingest_bulk_keys c items clock).0.items ≡ lookup key c.items
  unfolding ingest_bulk_keys
  ingest_bulk_keys-not_listed c [] n = refl
  ingest_bulk_keys-not_listed c (x ∷ rest) n =
      let (m, d) = last_item-rest key x rest n in
      ingest_bulk_keys-not_listed (load_item c x x.is_replica (clock x.key)) rest m
      ∙ load_item-other c x x.is_replica (clock x.key) key d

  ingest_bulk_keys-listed :
      (c : Cache) (items : List DumpItem) (y : DumpItem)
      → last_item key items ≡ some y
      → Holds (lookup key (ingest_bulk_keys c items clock).0.items) y
  unfolding ingest_bulk_keys last_item
  ingest_bulk_keys-listed c [] y f = cc
  ingest_bulk_keys-listed c (x ∷ rest) y f = elim (last_item-last key x y rest f) [
    | inl later ↦ ingest_bulk_keys-listed (load_item c x x.is_replica (clock x.key)) rest y later
    | inr (n, p, q) ↦
        subst (λ l. Holds l y)
          (sym (ingest_bulk_keys-not_listed (load_item c x x.is_replica (clock x.key)) rest n))
          (subst (λ k. Holds (lookup k (load_item c x x.is_replica (clock x.key)).items) y) p
            (subst (λ z. Holds (lookup x.key (load_item c x x.is_replica (clock x.key)).items) z) q
              (load_item-own c x x.is_replica (clock x.key))))
  ]

ingest_bulk_keys-count :
    (c : Cache) (items : List DumpItem) (clock : String → ℕ)
    → (ingest_bulk_keys c items clock).1 ≡ length items
unfolding ingest_bulk_keys
ingest_bulk_keys-count c [] clock = refl
ingest_bulk_keys-count c (x ∷ rest) clock =
    ap suc (ingest_bulk_keys-count (load_item c x x.is_replica (clock x.key)) rest clock)

-- A bulk load counts every item of its list; afterwards each key of the list holds the value of its
-- last item and, unless that is 0, its version, and every other key is as it was.
pub ingest_bulk_keys-last :
    (c : Cache) (items : List DumpItem) (clock : String → ℕ) (key : String)
    → ((ingest_bulk_keys c items clock).1 ≡ length items)
      × ((x : DumpItem)
          → last_item key items ≡ some x
          → Holds (lookup key (ingest_bulk_keys c items clock).0.items) x)
      × (last_item key items ≡ none
          → lookup key (ingest_bulk_keys c items clock).0.items ≡ lookup key c.items)
ingest_bulk_keys-last c items clock key = (
  ingest_bulk_keys-count c items clock,
  ingest_bulk_keys-listed clock key c items,
  ingest_bulk_keys-not_listed clock key c items,
)
