-- ===== src/HotKey/Examples.antt =====
-- Accesses to two keys, and the theorem about the detector at them.
use shc.HotKey.Listing.{names, get_hot_keys-is_hot}
use shc.Base.{◌↔◌, ◌≢◌, inl, inr, In, String, true, suc, ◌≡◌, refl, [], ◌∷◌, leb, arith}
use shc.Base.Int.{pos}
use shc.HotKey.{Detector, record_access, is_hot, get_hot_keys}
use shc.HotKey.Window.{Accesses, run, count_recent, record_access-count}

abbrev detector : Detector
detector = record {
  config = record { window_duration = pos 30; threshold_count = 2 };
  key_access = [];
  hot_keys = [];
}

abbrev accesses : Accesses
accesses = (45, "user:1") ∷ (42, "user:2") ∷ (10, "user:1") ∷ []

record_access-count_example :
    let n = count_recent detector.config "user:1" 50 accesses in
    ((record_access (run detector accesses) "user:1" 50).1 ≡ leb 2 (suc n))
    × ((record_access (run detector accesses) "user:1" 50).2 ≡ suc n)
    × (is_hot (run detector accesses) "user:1" 50 ≡ (leb 2 n, n))
record_access-count_example =
    record_access-count detector "user:1" 50 accesses refl
      (omega arith, (omega arith, (omega arith, tt))) (omega arith)

abbrev busy : Detector
busy = record detector {
  key_access =
      ("user:1", record { count = 1; timestamp = 45 } ∷ record { count = 1; timestamp = 40 } ∷ [])
      ∷ ("eve", record { count = 1; timestamp = 42 } ∷ [])
      ∷ [];
}

apart : ◌≢◌ {A = String} "eve" "user:1"
apart e = cc

get_hot_keys-is_hot_example :
    In "user:1" (names (get_hot_keys busy 50).1) ↔ ((is_hot busy "user:1" 50).0 ≡ true)
get_hot_keys-is_hot_example =
    get_hot_keys-is_hot busy "user:1" 50
      ((λ i. elim i [ inl e ↦ apart e | inr n ↦ n ]), ((λ n. n), tt)) (omega arith)
