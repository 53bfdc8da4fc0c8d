-- ===== src/Http.antt =====
-- What a call of Go's HTTP client comes to, as the code of every component tells it apart. The
-- network is outside the program: each call is given its reply.
use shc.Base.{ℕ, String, Option, none, some, ◌==◌, if◌then◌else◌}

pub data Reply (A : Type 0) : Type 0 where
  -- http.NewRequest fails.
  no_request : Reply A
  -- client.Do fails.
  no_response : Reply A
  -- A status, and the decoded body unless it cannot be decoded.
  answered : ℕ → Option A → Reply A

-- The replies of the network at the time of a call, by URL.
abbrev pub Network : Type 0 → Type 0
Network A = String → Reply A

pub data Failure : Type 0 where
  request_failed call_failed undecodable : Failure
  bad_status : ℕ → Failure
  not_hit : String → Failure

pub data Result (A : Type 0) : Type 0 where
  ok : A → Result A
  err : Failure → Result A

abbrev decoded : {A : Type 0} → Option A → Result A
decoded none = err undecodable
decoded (some a) = ok a

-- The pattern of PingPeer, FetchPeerStats, SyncFromPeer and readFromNode: any status but 200 is an
-- error, and so is a body that cannot be decoded.
unfoldable pub fetch_json : {A : Type 0} → Reply A → Result A
fetch_json no_request = err request_failed
fetch_json no_response = err call_failed
fetch_json (answered status body) = if status == 200 then decoded body else err (bad_status status)
