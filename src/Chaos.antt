-- ===== src/Chaos.antt =====
-- backend/internal/chaos/runner.go: the experiment that writes and reads through the gateway while nodes
-- are killed, and its scorecard. The workers run at once and share atomic counters and a list under a
-- lock: a run is the list of what they saw, item by item, in the order in which they recorded it.
pub mod Scores
pub mod Examples
use Prim.Native.String.{◌++◌}
use shc.Base.{
  ℕ, zero, suc, ◌+◌, ◌-◌, ◌%◌, String, List, [], ◌∷◌, Option, none, some, Bool, true, false, ◌==◌,
  ltb, if◌then◌else◌, holds, text_discrete, length, get_or,
}
use shc.Base.Int.{ℤ, pos, is_positive}
use shc.Base.Floats.{Floats}
use shc.Base.Sort.{sort}
use shc.Base.Texts.{is_empty, itoa}
use shc.Http.{Reply, no_request, no_response, answered}

pub data Scenario : Type 0 where
  primary_kill node_flap cascading heavy_load : Scenario

pub record Config : Type 0 where
  pub gateway_url : String
  pub scenario : Scenario
  pub total_requests : ℤ
  pub concurrency : ℤ
  pub request_delay : ℤ
  pub chaos_delay : ℤ

abbrev or_default : ℤ → ℕ → ℤ
or_default n default = if is_positive n then n else pos default

unfoldable pub new_runner : Config → Config
new_runner cfg = record cfg {
  gateway_url = if is_empty cfg.gateway_url then "http://localhost:8000" else cfg.gateway_url;
  total_requests = or_default cfg.total_requests 50;
  concurrency = or_default cfg.concurrency 5;
  chaos_delay = or_default cfg.chaos_delay 600000000;
}

pub record WorkItem : Type 0 where
  pub id : ℕ
  pub key : String
  pub val : String

-- The loop that fills the channel, from `i` on, with `left` items to go.
unfoldable pub work_items : ℕ → ℕ → List WorkItem
work_items zero i = []
work_items (suc left) i =
    record { id = i; key = "chaos:key:" ++ itoa (i % 15); val = "val_ver_" ++ itoa i }
    ∷ work_items left (i + 1)

-- The body of the GET as a worker decodes it.
pub record GetResult : Type 0 where
  pub status : String
  pub value : String
  pub is_failover : Bool

-- What a worker sees of an item: the reply to its GET, and the milliseconds of both calls. The reply to
-- its POST decides nothing.
pub record Visit : Type 0 where
  pub item : WorkItem
  pub got : Reply GetResult
  pub latency : ℕ

pub record Tally : Type 0 where
  pub success_count : ℕ
  pub failed_count : ℕ
  pub failover_count : ℕ
  pub corrupt_count : ℕ
  pub latencies : List ℕ

abbrev pub no_visits : Tally
no_visits = record {
  success_count = 0;
  failed_count = 0;
  failover_count = 0;
  corrupt_count = 0;
  latencies = [];
}

abbrev fail : Tally → Tally
fail t = record t { failed_count = t.failed_count + 1 }

abbrev count_result : Tally → Option GetResult → Tally
count_result t none = fail t
count_result t (some res) =
    if holds (text_discrete res.status "hit")
    then record t {
      success_count = t.success_count + 1;
      failover_count = if res.is_failover then t.failover_count + 1 else t.failover_count;
    }
    else fail t

abbrev count_reply : Tally → Reply GetResult → Tally
count_reply t no_request = fail t
count_reply t no_response = fail t
count_reply t (answered status body) = if status == 200 then count_result t body else fail t

-- One round of a worker. The order of the latencies does not matter: they are sorted.
unfoldable pub visit : Tally → Visit → Tally
visit t v = count_reply (record t { latencies = v.latency ∷ t.latencies }) v.got

unfoldable pub work : Tally → List Visit → Tally
unfolding visit
work t [] = t
work t (v ∷ rest) = work (visit t v) rest

pub record Scorecard (F : Type 0) : Type 0 where
  pub scenario : Scenario
  pub total_requests : ℕ
  pub successful_requests : ℕ
  pub failed_requests : ℕ
  pub failover_hits : ℕ
  pub success_rate : F
  pub data_corruptions : ℕ
  pub min_latency_ms : ℕ
  pub p50_latency_ms : ℕ
  pub p95_latency_ms : ℕ
  pub p99_latency_ms : ℕ
  pub max_latency_ms : ℕ

-- `share p n` is int(float64(n) * p / 100), of the machine's arithmetic.
abbrev pub Share : Type 0
Share = ℕ → ℕ → ℕ

-- The latency at an index of the sorted list, and 0 if there is none.
abbrev pub at_share : Share → ℕ → List ℕ → ℕ
at_share share p sorted = get_or sorted (share p (length sorted)) 0

unfoldable pub scorecard : {F : Type 0} → Floats F → Share → Scenario → Tally → Scorecard F
scorecard fl share scenario t =
    let sorted = sort t.latencies in
    let total = t.success_count + t.failed_count in
    record {
      scenario = scenario;
      total_requests = total;
      successful_requests = t.success_count;
      failed_requests = t.failed_count;
      failover_hits = t.failover_count;
      success_rate =
          if ltb 0 total
          then fl.times (fl.divide (fl.of_int (pos t.success_count)) (fl.of_int (pos total)))
              (fl.lit 10000)
          else fl.lit 0;
      data_corruptions = t.corrupt_count;
      min_latency_ms = get_or sorted 0 0;
      p50_latency_ms = at_share share 50 sorted;
      p95_latency_ms = at_share share 95 sorted;
      p99_latency_ms = at_share share 99 sorted;
      max_latency_ms = get_or sorted (length sorted - 1) 0;
    }

unfoldable pub run : {F : Type 0} → Floats F → Share → Config → List Visit → Scorecard F
unfolding work scorecard
run fl share cfg visits = scorecard fl share cfg.scenario (work no_visits visits)

-- The calls of the hook, in their order, with the pauses between them: what is done, to which node, on
-- which port.
pub data Step : Type 0 where
  hook : String → String → ℕ → Step
  pause : ℕ → Step

unfoldable pub chaos_steps : Scenario → List Step
chaos_steps primary_kill = hook "kill" "node-c" 8003 ∷ []
chaos_steps node_flap =
    hook "kill" "node-c" 8003 ∷ pause 400000000 ∷ hook "start" "node-c" 8003 ∷ []
chaos_steps cascading = hook "kill" "node-c" 8003 ∷ pause 300000000 ∷ hook "kill" "node-b" 8002 ∷ []
chaos_steps heavy_load = []
