-- ===== src/Replication/Delivery.antt =====
-- What a replicated write counts, and what deadline arrives at the replica.
use shc.Base.{ℕ, ◌+◌, ◌%◌, ◌≡◌, ◌↔◌, String, Option, none, Bool, true, false, arith}
use shc.Base.Int.{ℤ}
use shc.Base.Words.{u64_mod, inc64}
use shc.Http.{Reply, no_request, no_response, answered}
use shc.Replication.{Replicator, Post, post_set, replicate_set}

abbrev pub IsBalanced : Replicator → Type 0
IsBalanced r = (r.successes + r.failures) % u64_mod ≡ r.total % u64_mod

post_set-IsBalanced :
    (r : Replicator) (marshalled : Bool) (reply : Reply (Option String))
    → (r.successes + r.failures + 1) % u64_mod ≡ r.total % u64_mod
    → let (r', e) = post_set r marshalled reply in
      IsBalanced r'
      × (r'.total ≡ r.total)
      × ((e ≡ none) ↔ ((r'.successes ≡ inc64 r.successes) × (r'.failures ≡ r.failures)))
unfolding post_set
post_set-IsBalanced r false reply b = ground arith
post_set-IsBalanced r true no_request b = ground arith
post_set-IsBalanced r true no_response b = ground arith
post_set-IsBalanced r true (answered status body) b = ground arith

-- If the successes and failures add up to the total, modulo 2^64, they do so after an attempt,
-- which is counted once in the total, and which returns no error exactly if it is counted as a
-- success and not as a failure.
pub replicate_set-IsBalanced :
    (r : Replicator) (post : Post) (marshalled : Bool) (addr key value : String) (ttl : ℤ)
    (version : ℕ)
    → IsBalanced r
    → let (r', e) = replicate_set r post marshalled addr key value ttl version in
      IsBalanced r'
      × (r'.total ≡ inc64 r.total)
      × ((e ≡ none) ↔ ((r'.successes ≡ inc64 r.successes) × (r'.failures ≡ r.failures)))
unfolding replicate_set
replicate_set-IsBalanced r post marshalled addr key value ttl version b =
    post_set-IsBalanced (record r { total = inc64 r.total }) marshalled _ (omega arith)
