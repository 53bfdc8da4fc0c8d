-- ===== src/Replication.antt =====
-- backend/internal/replication/replicator.go: writes and deletes sent on to a replica.
pub mod Delivery
use Prim.Native.String.{◌++◌}
use shc.Base.{ℕ, ◌≤◌, String, Option, none, some, Bool, true, false, ◌==◌, if◌then◌else◌, ◌||◌}
use shc.Base.Int.{ℤ, pos, pos_part, is_positive}
use shc.Base.Words.{inc64, whole_seconds}
use shc.Http.{Network, Reply, no_request, no_response, answered}

pub record ReplicatePayload : Type 0 where
  pub key : String
  pub value : String
  pub ttl_seconds : ℤ
  pub version : ℕ
  pub is_replica : Bool

pub record Stats : Type 0 where
  pub replications_total : ℕ
  pub replication_successes : ℕ
  pub replication_failures : ℕ

pub record Replicator : Type 0 where
  pub total : ℕ
  pub successes : ℕ
  pub failures : ℕ

unfoldable pub new_replicator : Replicator
new_replicator = record { total = 0; successes = 0; failures = 0 }

pub data SetError : Type 0 where
  marshal_failed request_failed write_failed : SetError
  bad_status : ℕ → SetError

-- The body of the request: the TTL in whole seconds, and 0 without one.
unfoldable pub replicate_payload : String → String → ℤ → ℕ → ReplicatePayload
replicate_payload key value ttl version = record {
  key = key;
  value = value;
  ttl_seconds = if is_positive ttl then pos (whole_seconds (pos_part ttl)) else pos 0;
  version = version;
  is_replica = true;
}

abbrev fail : Replicator → SetError → Replicator × Option SetError
fail r e = (record r { failures = inc64 r.failures }, some e)

-- The replicator and the error, for the reply to the POST. `marshalled` says whether json.Marshal
-- encoded the payload.
unfoldable pub post_set : Replicator → Bool → Reply (Option String) → Replicator × Option SetError
post_set r false reply = fail r marshal_failed
post_set r true no_request = fail r request_failed
post_set r true no_response = fail r write_failed
post_set r true (answered status body) =
    if status == 200 || status == 201
    then (record r { successes = inc64 r.successes }, none)
    else fail r (bad_status status)

-- A POST by URL and body.
abbrev pub Post : Type 0
Post = String → ReplicatePayload → Reply (Option String)

unfoldable pub replicate_set :
    Replicator → Post → Bool → String → String → String → ℤ → ℕ → Replicator × Option SetError
unfolding post_set replicate_payload
replicate_set r post marshalled replica_addr key value ttl version =
    post_set (record r { total = inc64 r.total }) marshalled
      (post (replica_addr ++ "/internal/replicate") (replicate_payload key value ttl version))

-- ReplicateDelete counts nothing, and takes any status for success.
unfoldable pub replicate_delete : Network (Option String) → String → String → Option SetError
replicate_delete network replica_addr key =
    elim (network (replica_addr ++ "/internal/replicate-delete?key=" ++ key)) [
      | no_request ↦ some request_failed
      | no_response ↦ some write_failed
      | answered status body ↦ none
    ]

unfoldable pub stats : Replicator → Stats
stats r = record {
  replications_total = r.total;
  replication_successes = r.successes;
  replication_failures = r.failures;
}
