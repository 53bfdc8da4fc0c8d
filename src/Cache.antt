-- ===== src/Cache.antt =====
-- backend/internal/cache/cache.go: the store of one node.
-- A time.Time is its distance from the zero Time in nanoseconds, so `IsZero` is a test for 0.
-- Each reading of time.Now() is an argument; a method that takes the lock twice also takes the
-- change that other goroutines make in between.
pub mod Examples
pub mod Items
pub mod Views
pub mod History
pub mod Accounts
use Items.{Item, is_expired, ttl_remaining}
use shc.Base.{
  ℕ, suc, ◌+◌, ◌-◌, String, List, [], ◌∷◌, ◌++◌, Option, none, some, Bool, true, false, ltb, ◌==◌,
  if◌then◌else◌, length, not, ◌&&◌,
}
use shc.Base.Int.{ℤ, pos, pos_part, is_positive}
use shc.Base.Words.{inc64, whole_seconds, saturated, second}
use shc.Base.GoMap.{GoMap, text_comparable, lookup, insert, delete}

pub record Cache : Type 0 where
  pub items : GoMap String Item
  pub hit_count : ℕ
  pub miss_count : ℕ
  pub set_count : ℕ
  pub delete_count : ℕ
  pub expired_count : ℕ
  pub start_time : ℕ
  pub stopped : Bool

pub record Stats : Type 0 where
  pub total_keys : ℕ
  pub primary_keys : ℕ
  pub replica_keys : ℕ
  pub hit_count : ℕ
  pub miss_count : ℕ
  pub set_count : ℕ
  pub delete_count : ℕ
  pub expired_count : ℕ
  pub uptime_seconds : ℕ

-- The cache, and the interval that the cleanup worker is started with.
unfoldable pub new : ℤ → ℕ → Cache × ℤ
new cleanup_interval now = (
  record {
    items = [];
    hit_count = 0;
    miss_count = 0;
    set_count = 0;
    delete_count = 0;
    expired_count = 0;
    start_time = now;
    stopped = false;
  },
  if is_positive cleanup_interval then cleanup_interval else pos second,
)

-- The version that a write stores: the given one, or for 0 the successor of the present one.
unfoldable pub next_version : ℕ → Option Item → ℕ
next_version version none = if version == 0 then 1 else version
next_version version (some existing) = if version == 0 then inc64 existing.version else version

abbrev new_item : GoMap String Item → String → String → ℤ → ℕ → Bool → ℕ → Item
new_item items key value ttl version is_replica now = record {
  key = key;
  value = value;
  created_at = now;
  expires_at = if is_positive ttl then now + pos_part ttl else 0;
  version = next_version version (lookup key items);
  is_replica = is_replica;
}

unfoldable pub set_with_metadata : Cache → String → String → ℤ → ℕ → Bool → ℕ → Cache × Item
set_with_metadata c key value ttl version is_replica now =
    let item = new_item c.items key value ttl version is_replica now in
    (record c { items = insert key item c.items; set_count = inc64 c.set_count }, item)

unfoldable pub set : Cache → String → String → ℤ → ℕ → Cache × Item
unfolding set_with_metadata
set c key value ttl now = set_with_metadata c key value ttl 0 false now

-- Under the write lock: the item is looked up once more, and removed if it has expired.
unfoldable pub drop_expired : Option Item → Cache → String → ℕ → Cache
drop_expired none c key now = c
drop_expired (some item) c key now =
    if is_expired item now
    then record c { items = delete key c.items; expired_count = inc64 c.expired_count }
    else c

abbrev miss : Cache → Cache × Option Item
miss c = (record c { miss_count = inc64 c.miss_count }, none)

-- `others` is what other goroutines do between the read lock and the write lock.
unfoldable pub get_item :
    (Cache → Cache) → Cache → String → Option Item → ℕ → ℕ → Cache × Option Item
unfolding drop_expired
get_item others c key none now later = miss (others c)
get_item others c key (some item) now later =
    let c' = others c in
    if is_expired item now
    then miss (drop_expired (lookup key c'.items) c' key later)
    else (record c' { hit_count = inc64 c'.hit_count }, some item)

unfoldable pub get : (Cache → Cache) → Cache → String → ℕ → ℕ → Cache × Option Item
unfolding get_item
get others c key now later = get_item others c key (lookup key c.items) now later

unfoldable pub remove_entry : Option Item → Cache → String → Cache × Bool
remove_entry none c key = (c, false)
remove_entry (some item) c key =
    (record c { items = delete key c.items; delete_count = inc64 c.delete_count }, true)

-- The method Delete.
unfoldable pub remove : Cache → String → Cache × Bool
unfolding remove_entry
remove c key = remove_entry (lookup key c.items) c key

-- The loop of Stats counts the items of one kind.
unfoldable pub count_replicas : Bool → GoMap String Item → ℕ
count_replicas b [] = 0
count_replicas b ((k, item) ∷ m) =
    let rest = count_replicas b m in
    if item.is_replica then (if b then suc rest else rest) else (if b then rest else suc rest)

unfoldable pub stats : Cache → ℕ → Stats
unfolding count_replicas
stats c now = record {
  total_keys = length c.items;
  primary_keys = count_replicas false c.items;
  replica_keys = count_replicas true c.items;
  hit_count = c.hit_count;
  miss_count = c.miss_count;
  set_count = c.set_count;
  delete_count = c.delete_count;
  expired_count = c.expired_count;
  uptime_seconds = whole_seconds (saturated (now - c.start_time));
}

-- The loop of Keys.
unfoldable pub active_keys : GoMap String Item → ℕ → List String
active_keys [] now = []
active_keys ((k, item) ∷ m) now =
    let rest = active_keys m now in
    if item.expires_at == 0 then k ∷ rest else (if ltb now item.expires_at then k ∷ rest else rest)

-- The method Keys.
unfoldable pub keys : Cache → ℕ → List String
unfolding active_keys
keys c now = active_keys c.items now

unfoldable pub close : Cache → Cache
close c = record c { stopped = true }

-- The loop of purgeExpired: Go allows a delete during `range`.
unfoldable pub purge_items : GoMap String Item → ℕ → ℕ → GoMap String Item × ℕ
purge_items [] expired now = ([], expired)
purge_items ((k, item) ∷ m) expired now =
    let (rest, n) = purge_items m (if is_expired item now then inc64 expired else expired) now in
    if is_expired item now then (rest, n) else ((k, item) ∷ rest, n)

unfoldable pub purge_expired : Cache → ℕ → Cache
unfolding purge_items
purge_expired c now =
    let (items, expired) = purge_items c.items c.expired_count now in
    record c { items = items; expired_count = expired }

-- What the cleanup worker's `select` receives: a tick, at some time, or the closed channel.
pub data Signal : Type 0 where
  tick : ℕ → Signal
  stop : Signal

unfoldable pub cleanup_worker : Cache → List Signal → Cache
unfolding purge_expired
cleanup_worker c [] = c
cleanup_worker c (tick now ∷ rest) = cleanup_worker (purge_expired c now) rest
cleanup_worker c (stop ∷ rest) = c
