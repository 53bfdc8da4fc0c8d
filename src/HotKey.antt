-- ===== src/HotKey.antt =====
-- backend/internal/hotkey/detector.go: request counts over a sliding window.
-- Each method holds the lock to its end. Times are nanoseconds after the zero Time; a rate is
-- given as the two operands of its floating-point division.
pub mod Examples
pub mod Window
pub mod Listing
use shc.Base.{
  ℕ, suc, ◌+◌, String, List, [], ◌∷◌, ◌++◌, Option, none, some, Bool, true, false, ◌==◌, leb,
  if◌then◌else◌,
}
use shc.Base.Int.{ℤ, pos, ◌-ℤ◌, ltb_ℤ, is_positive}
use shc.Base.Words.{inc64, add64}
use shc.Base.GoMap.{GoMap, text_comparable, lookup, insert, delete, value_or}

pub record KeyBucket : Type 0 where
  pub count : ℕ
  pub timestamp : ℕ

pub record HotKeyInfo : Type 0 where
  pub key : String
  pub request_count : ℕ
  pub request_rate : ℕ × ℤ
  pub detected_at : ℕ
  pub is_hot : Bool

pub record Config : Type 0 where
  pub window_duration : ℤ
  pub threshold_count : ℕ

pub record Detector : Type 0 where
  pub config : Config
  pub key_access : GoMap String (List KeyBucket)
  pub hot_keys : GoMap String ℕ

unfoldable pub new_detector : Config → Detector
new_detector cfg = record {
  config = record {
    window_duration =
        if is_positive cfg.window_duration then cfg.window_duration else pos 5000000000;
    threshold_count = if cfg.threshold_count == 0 then 20 else cfg.threshold_count;
  };
  key_access = [];
  hot_keys = [];
}

-- b.timestamp.After(now.Add(-window))
abbrev pub in_window : Config → ℕ → KeyBucket → Bool
in_window cfg now b = ltb_ℤ (pos now -ℤ cfg.window_duration) (pos b.timestamp)

-- The loop over the buckets of a key: those in the window, and their total.
unfoldable pub valid_buckets : Config → ℕ → List KeyBucket → List KeyBucket
valid_buckets cfg now [] = []
valid_buckets cfg now (b ∷ bs) =
    let rest = valid_buckets cfg now bs in if in_window cfg now b then b ∷ rest else rest

unfoldable pub total_from : Config → ℕ → ℕ → List KeyBucket → ℕ
total_from cfg now total [] = total
total_from cfg now total (b ∷ bs) =
    total_from cfg now (if in_window cfg now b then add64 total b.count else total) bs

abbrev pub buckets_of : Detector → String → List KeyBucket
buckets_of d key = value_or [] (lookup key d.key_access)

-- The change of the hot-key table in RecordAccess.
unfoldable pub mark_hot : Bool → String → ℕ → GoMap String ℕ → GoMap String ℕ
mark_hot false key now hot_keys = delete key hot_keys
mark_hot true key now hot_keys = elim (lookup key hot_keys) [
  | none ↦ insert key now hot_keys
  | some detected ↦ hot_keys
]

unfoldable pub record_access : Detector → String → ℕ → Detector × Bool × ℕ
unfolding valid_buckets total_from mark_hot
record_access d key now =
    let buckets = buckets_of d key in
    let total = inc64 (total_from d.config now 0 buckets) in
    let is_hot = leb d.config.threshold_count total in
    (
      record d {
        key_access =
            insert key
              (valid_buckets d.config now buckets ++ record { count = 1; timestamp = now } ∷ [])
              d.key_access;
        hot_keys = mark_hot is_hot key now d.hot_keys;
      },
      is_hot,
      total,
    )

-- The method IsHot.
unfoldable pub is_hot : Detector → String → ℕ → Bool × ℕ
unfolding total_from
is_hot d key now =
    let total = total_from d.config now 0 (buckets_of d key) in
    (leb d.config.threshold_count total, total)

-- The loop of GetHotKeys: the buckets that stay, the hot-key table, and the keys that are hot.
unfoldable pub hot_list :
    Config
    → ℕ
    → GoMap String (List KeyBucket)
    → GoMap String ℕ
    → GoMap String (List KeyBucket) × GoMap String ℕ × List HotKeyInfo
hot_list cfg now [] hot_keys = ([], hot_keys, [])
hot_list cfg now ((key, buckets) ∷ rest) hot_keys =
    let total = total_from cfg now 0 buckets in
    let hot = leb cfg.threshold_count total in
    let known = value_or 0 (lookup key hot_keys) in
    let detected = if known == 0 then now else known in
    let marked = if known == 0 then insert key now hot_keys else hot_keys in
    let (access, hot_keys', infos) =
      hot_list cfg now rest (if hot then marked else delete key hot_keys) in
    (
      (key, valid_buckets cfg now buckets) ∷ access,
      hot_keys',
      if hot
          then record {
            key = key;
            request_count = total;
            request_rate = (total, cfg.window_duration);
            detected_at = detected;
            is_hot = true;
          }
            ∷ infos
          else infos,
    )

unfoldable pub get_hot_keys : Detector → ℕ → Detector × List HotKeyInfo
unfolding hot_list valid_buckets total_from
get_hot_keys d now =
    let (access, hot_keys, infos) = hot_list d.config now d.key_access d.hot_keys in
    (record d { key_access = access; hot_keys = hot_keys }, infos)
