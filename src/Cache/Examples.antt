-- ===== src/Cache/Examples.antt =====
-- A short history of calls, and the theorems about the cache at it.
use shc.Base.{◌≡◌, ◌≢◌, [], ◌∷◌, some, false, true, arith, In}
use shc.Base.Int.{pos}
use shc.Cache.{Cache, get, keys}
use shc.Cache.Items.{Item}
use shc.Cache.History.{
  sets, gets, removes, purges, History, run, fresh, value_of, last_write, get-last_write,
}
use shc.Cache.Accounts.{IsAccounted, run-IsAccounted, keys-get}

abbrev calls : History
calls =
    (40, purges)
    ∷ (30, gets "user:1")
    ∷ (20, removes "user:2")
    ∷ (15, sets "user:2" "eve" (pos 0) 0 true)
    ∷ (10, sets "user:1" "ada" (pos 100) 0 false)
    ∷ []

get-last_write_example :
    value_of (get (λ c. c) (run (fresh (pos 0) 0) calls) "user:1" 50 50).1
    ≡ last_write "user:1" 50 calls
get-last_write_example =
    get-last_write (pos 0) 0 50 50 calls "user:1" (λ c. c)
      (omega arith, (omega arith, (omega arith, (omega arith, (omega arith, tt)))))

run-IsAccounted_example : IsAccounted (run (fresh (pos 0) 0) calls) 2 1
run-IsAccounted_example = run-IsAccounted (pos 0) 0 calls (omega arith)

abbrev ada : Item
ada = record {
  key = "user:1";
  value = "ada";
  created_at = 10;
  expires_at = 110;
  version = 1;
  is_replica = false;
}

abbrev one_item : Cache
one_item = record {
  items = ("user:1", ada) ∷ [];
  hit_count = 0;
  miss_count = 0;
  set_count = 1;
  delete_count = 0;
  expired_count = 0;
  start_time = 0;
  stopped = false;
}

keys-get_example :
    (In "user:1" (keys one_item 60)
      → (item : Item) × ((get (λ c. c) one_item "user:1" 60 60).1 ≡ some item))
    × ((item : Item)
        → (get (λ c. c) one_item "user:1" 60 60).1 ≡ some item
        → item.expires_at ≢ 60
        → In "user:1" (keys one_item 60))
keys-get_example = keys-get (λ c. c) one_item "user:1" 60 60 ((λ n. n), tt)
