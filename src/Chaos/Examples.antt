-- ===== src/Chaos/Examples.antt =====
-- The scorecard of two visits, one of which is answered by a replica.
use shc.Base.{if◌then◌else◌, ℕ, ◌+◌, ◌-◌, ◌*◌, ◌/◌, [], ◌∷◌, some, true, ltb, leb, arith}
use shc.Base.Int.{pos, pos_part}
use shc.Base.Floats.{Floats}
use shc.Http.{no_response, answered}
use shc.Chaos.{primary_kill, Config, Visit, Share, run}
use shc.Chaos.Scores.{IsShare, IsScored, run-IsScored}

abbrev percents : Floats ℕ
percents = record {
  lit = λ n. n;
  add = λ x y. x + y;
  subtract = λ x y. x - y;
  times = λ x y. x * y / 100;
  divide = λ x y. x * 100 / y;
  negate = λ x. x;
  less = ltb;
  at_most = leb;
  whole = λ x. x / 100 * 100;
  of_int = λ z. pos_part z * 100;
  scan = λ s. 0;
}

-- The share that rounds to the first or to the last index.
abbrev share : Share
share p n = if ltb 50 p then n - 1 else 0

share-IsShare : IsShare share
share-IsShare = record { inside = λ p n h k. ground arith; grows = λ p q n h. ground arith }

abbrev cfg : Config
cfg = record {
  gateway_url = "";
  scenario = primary_kill;
  total_requests = pos 2;
  concurrency = pos 1;
  request_delay = pos 0;
  chaos_delay = pos 0;
}

abbrev failover_hit : Visit
failover_hit = record {
  item = record { id = 0; key = "chaos:key:0"; val = "val_ver_0" };
  got = answered 200 (some (record { status = "hit"; value = "stale"; is_failover = true }));
  latency = 9;
}

abbrev lost : Visit
lost = record {
  item = record { id = 1; key = "chaos:key:1"; val = "val_ver_1" };
  got = no_response;
  latency = 4;
}

run-IsScored_example : IsScored 2 (run percents share cfg (failover_hit ∷ lost ∷ []))
run-IsScored_example =
    run-IsScored percents share cfg (failover_hit ∷ lost ∷ []) share-IsShare (omega arith)
