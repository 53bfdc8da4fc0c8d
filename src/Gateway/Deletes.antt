-- ===== src/Gateway/Deletes.antt =====
-- backend/internal/gateway/gateway.go: the delete of a key at its nodes. `builds` says of a URL whether
-- http.NewRequest accepts it: where it does not, the request is nil and client.Do panics, which is
-- `none`.
use Prim.Native.String.{◌++◌}
use shc.Base.{String, List, [], ◌∷◌, Option, none, some, Bool, ◌||◌, if◌then◌else◌}
use shc.Base.Texts.{is_empty}
use shc.Hashing.{NodeTarget, get_nodes}
use shc.Server.Requests.{Method, is_post, is_delete, Response, replied, rejected}
use shc.Gateway.{Gateway, Call, delete_at}

-- The key stands in the URL as it is.
abbrev delete_url : String → NodeTarget → String
delete_url key to = to.addr ++ "/delete?key=" ++ key

abbrev deleted : NodeTarget → List String → Option (Response String × List Call)
deleted primary [] = some (replied 200 primary.node_id, [])
deleted primary (url ∷ []) = some (replied 200 primary.node_id, delete_at url ∷ [])
deleted primary (url ∷ second ∷ more) =
    some (replied 200 primary.node_id, delete_at url ∷ delete_at second ∷ [])

-- The replica is asked only if the primary does not answer; the response is the same either way.
abbrev delete_from :
    String
    → Option (List NodeTarget)
    → (String → Bool)
    → (String → Bool)
    → Option (Response String × List Call)
delete_from key none builds answers = some (rejected 503, [])
delete_from key (some []) builds answers = some (rejected 503, [])
delete_from key (some (primary ∷ [])) builds answers =
    if builds (delete_url key primary) then deleted primary (delete_url key primary ∷ []) else none
delete_from key (some (primary ∷ replica ∷ rest)) builds answers =
    if builds (delete_url key primary)
    then (if answers (delete_url key primary)
        then deleted primary (delete_url key primary ∷ [])
        else (if builds (delete_url key replica)
            then deleted primary (delete_url key primary ∷ delete_url key replica ∷ [])
            else none))
    else none

-- The body is `served_by`.
unfoldable pub handle_api_delete :
    {S : Type 0}
    → Gateway S
    → Method
    → String
    → (String → Bool)
    → (String → Bool)
    → Option (Response String × List Call)
handle_api_delete g method key builds answers =
    if is_delete method || is_post method
    then (if is_empty key
        then some (rejected 400, [])
        else delete_from key (get_nodes g.hash_ring key 2) builds answers)
    else some (rejected 405, [])
