-- ===== src/Server/Requests.antt =====
-- backend/internal/server/server.go: the requests and the responses of the data endpoints.
use Prim.Native.String.{String}
pub use shc.Base.Texts.{is_empty}
unfoldable pub use shc.Base.Texts.{is_blank}
use shc.Base.{ℕ, Bool, true, false}
use shc.Base.Int.{ℤ}

-- The methods that the handlers tell apart.
pub data Method : Type 0 where
  get_method post_method delete_method other_method : Method

abbrev pub is_get : Method → Bool
is_get get_method = true
is_get _ = false

abbrev pub is_post : Method → Bool
is_post post_method = true
is_post _ = false

abbrev pub is_delete : Method → Bool
is_delete delete_method = true
is_delete _ = false

pub record SetRequest : Type 0 where
  pub key : String
  pub value : String
  pub ttl_seconds : ℤ
  pub version : ℕ
  pub is_replica : Bool

pub record SetResponse : Type 0 where
  pub status : String
  pub key : String
  pub node_id : String
  pub version : ℕ
  pub is_replica : Bool
  pub replica_node : String

pub record GetResponse : Type 0 where
  pub status : String
  pub key : String
  pub value : String
  pub ttl_remaining : ℤ
  pub version : ℕ
  pub is_replica : Bool
  pub is_hot : Bool
  pub request_count : ℕ
  pub node_id : String
  pub message : String

pub record DeleteResponse : Type 0 where
  pub status : String
  pub key : String
  pub node_id : String
  pub message : String

-- A response: its status and its body. The text of an error is left out.
pub data Response (A : Type 0) : Type 0 where
  replied : ℕ → A → Response A
  rejected : ℕ → Response A
