-- ===== src/HotKey/Listing.antt =====
-- The list of the hot keys against the test of one key.
use shc.Base.{
  ℕ, ◌<◌, ◌≡◌, refl, sym, ◌∙◌, ◌↔◌, ◌≢◌, subst, true≢false, inl, inr, String, List, [], ◌∷◌, map,
  none, Bool, true, false, leb, arith, if◌then◌else◌, In, Distinct, text_discrete,
}
use shc.Base.GoMap.{GoMap, text_comparable, lookup, keys, value_or}
use shc.Base.GoMap.Laws.{lookup-none_of_not-In}
use shc.HotKey.{Config, Detector, KeyBucket, HotKeyInfo, total_from, hot_list, get_hot_keys, is_hot}

abbrev pub names : List HotKeyInfo → List String
names = map (λ info. info.key)

-- The key has enough accesses in its buckets.
abbrev is_over : Config → ℕ → GoMap String (List KeyBucket) → String → Bool
is_over cfg now access key =
    leb cfg.threshold_count (total_from cfg now 0 (value_or [] (lookup key access)))

is_over-none :
    (cfg : Config) (now : ℕ) (access : GoMap String (List KeyBucket)) (key : String)
    → 0 < cfg.threshold_count
    → lookup key access ≡ none
    → is_over cfg now access key ≡ false
unfolding total_from
is_over-none cfg now access key p e = rw e (none_over cfg.threshold_count p)
  where
    none_over : (n : ℕ) → 0 < n → leb n 0 ≡ false
    none_over n h = ground arith

-- One round of the loop: the list gains the key of this round if it is hot.
names_after :
    (hot before over : Bool) (k key : String) (info : HotKeyInfo) (infos : List HotKeyInfo)
    → info.key ≡ k
    → In key (names infos) ↔ (before ≡ true)
    → (k ≡ key → (before ≡ false) × (over ≡ hot))
    → (k ≢ key → over ≡ before)
    → In key (names (if hot then info ∷ infos else infos)) ↔ (over ≡ true)
names_after true before over k key info infos e f same other = elim (text_discrete k key) [
  | yes p ↦ ((λ i. (same p).1), (λ o. inl (e ∙ p)))
  | no n ↦ (
    (λ i. other n ∙ elim i [ inl q ↦ absurd (n (sym e ∙ q)) | inr j ↦ f.0 j ]),
    (λ o. inr (f.1 (sym (other n) ∙ o))),
  )
]
names_after false before over k key info infos e f same other = elim (text_discrete k key) [
  | yes p ↦ (
    (λ i. absurd (true≢false (sym (f.0 i) ∙ (same p).0))),
    (λ o. absurd (true≢false (sym o ∙ (same p).1))),
  )
  | no n ↦ ((λ i. other n ∙ f.0 i), (λ o. f.1 (sym (other n) ∙ o)))
]

names-hot_list :
    (cfg : Config) (now : ℕ) (access : GoMap String (List KeyBucket)) (hot_keys : GoMap String ℕ)
    (key : String)
    → Distinct (keys access)
    → 0 < cfg.threshold_count
    → In key (names (hot_list cfg now access hot_keys).2) ↔ (is_over cfg now access key ≡ true)
unfolding hot_list lookup
names-hot_list cfg now [] hot_keys key d p =
    ((λ i. absurd i), (λ o. absurd (true≢false (sym o ∙ is_over-none cfg now [] key p refl))))
names-hot_list cfg now ((k, buckets) ∷ rest) hot_keys key d p =
    names_after (leb cfg.threshold_count (total_from cfg now 0 buckets)) (is_over cfg now rest key)
      (is_over cfg now ((k, buckets) ∷ rest) key) k key _ _ refl
      (names-hot_list cfg now rest _ key d.1 p)
      (λ e. (
        is_over-none cfg now rest key p
            (lookup-none_of_not-In key rest (λ i. d.0 (subst (λ j. In j (keys rest)) (sym e) i))),
        own e,
      ))
      apart
  where
    own :
        k ≡ key
        → is_over cfg now ((k, buckets) ∷ rest) key
          ≡ leb cfg.threshold_count (total_from cfg now 0 buckets)
    own e = ground arith

    apart : k ≢ key → is_over cfg now ((k, buckets) ∷ rest) key ≡ is_over cfg now rest key
    apart n = ground arith

-- On a detector that keeps one entry for a key and whose threshold is not 0, as NewDetector makes
-- it, GetHotKeys lists exactly the keys for which IsHot answers yes at the same time.
pub get_hot_keys-is_hot :
    (d : Detector) (key : String) (now : ℕ)
    → Distinct (keys d.key_access)
    → 0 < d.config.threshold_count
    → In key (names (get_hot_keys d now).1) ↔ ((is_hot d key now).0 ≡ true)
unfolding get_hot_keys is_hot
get_hot_keys-is_hot d key now u p = names-hot_list d.config now d.key_access d.hot_keys key u p
