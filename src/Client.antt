-- ===== src/Client.antt =====
-- sdk/go/shc.go: the client of the gateway. A context that is done is one of the ways in which a call
-- fails.
use Prim.Native.String.{◌++◌}
use shc.Base.{String, none, some, Bool}
use shc.Base.Int.{ℤ}
use shc.Base.Texts.{trim_suffix}
use shc.Http.{
  Reply, no_request, no_response, answered, request_failed, call_failed, undecodable, Result, ok,
  err,
}
use shc.Gateway.{ClientSetRequest}

-- The fields of a response that the client knows.
pub record ClientResponse : Type 0 where
  pub status : String
  pub key : String
  pub value : String
  pub source : String
  pub served_by : String
  pub is_failover : Bool
  pub db_updated : Bool
  pub message : String

pub record Client : Type 0 where
  pub host : String

-- 47 is the slash.
unfoldable pub new_client : String → Client
new_client host = record { host = trim_suffix host 47 }

-- A request to the gateway, by its method.
pub data ApiCall : Type 0 where
  post_api_set : String → ClientSetRequest → ApiCall
  get_api_get : String → ApiCall
  delete_api_delete : String → ApiCall

-- Any status is taken, if the body can be decoded.
unfoldable pub read_response : Reply ClientResponse → Result ClientResponse
read_response no_request = err request_failed
read_response no_response = err call_failed
read_response (answered status none) = err undecodable
read_response (answered status (some r)) = ok r

unfoldable pub set :
    Client → (ApiCall → Reply ClientResponse) → String → String → ℤ → Result ClientResponse
unfolding read_response
set c gateway key value ttl_seconds = read_response (
    gateway (
      post_api_set (c.host ++ "/api/set")
        (record { key = key; value = value; ttl_seconds = ttl_seconds })))

-- The key stands in the URL as it is.
unfoldable pub get : Client → (ApiCall → Reply ClientResponse) → String → Result ClientResponse
unfolding read_response
get c gateway key = read_response (gateway (get_api_get (c.host ++ "/api/get?key=" ++ key)))

unfoldable pub evict : Client → (ApiCall → Reply ClientResponse) → String → Result ClientResponse
unfolding read_response
evict c gateway key =
    read_response (gateway (delete_api_delete (c.host ++ "/api/delete?key=" ++ key)))
