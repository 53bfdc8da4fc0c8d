-- ===== src/Server/Data.antt =====
-- backend/internal/server/server.go: what one request leaves for the next, at a node and its replica.
use shc.Base.{
  ℕ, ◌+◌, ◌*◌, ◌≤◌, ◌<◌, ltb, ◌≡◌, refl, sym, ap, subst, ◌∙◌, ◌↔◌, ◌⊎◌, inl, inr, String, Option,
  none, some, Bool, true, false, arith, if◌then◌else◌, ite, In, text_discrete,
}
use shc.Base.Int.{ℤ, pos, pos_part, is_positive}
use shc.Base.Words.{second, seconds-exact, whole_seconds, whole_seconds-whole, whole_seconds-short}
use shc.Base.GoMap.{text_comparable, lookup, insert}
use shc.Base.GoMap.Laws.{lookup-insert_self}
use shc.Cache.{Cache, set_with_metadata, remove, remove_entry, next_version}
use shc.Cache.Items.{Item, is_expired}
use shc.Cache.Views.{IsValid, unexpired, visible, get_result, remove-visible}
use shc.Rebalancing.Transfer.{next_version-pos}
use shc.Replication.{replicate_payload}
use shc.Server.{
  Node, delete_key, replicate, request_ttl, set_request, handle_set, handle_get, answer_get,
  serve_item, delete_request, handle_delete, handle_internal_replicate,
}
use shc.Server.Requests.{
  get_method, post_method, delete_method, is_blank, is_empty, SetRequest, SetResponse, GetResponse,
  DeleteResponse, Response, replied, rejected,
}

-- Nobody else uses the cache while a request is handled.
abbrev pub alone : Cache → Cache
alone c = c

-- A hit with this value and version.
abbrev pub Serves : Response GetResponse → String → String → ℕ → Bool → Type 0
Serves r key value version is_replica =
    (body : GetResponse) × (r ≡ replied 200 body)
    × (body.status ≡ "hit")
    × (body.key ≡ key)
    × (body.value ≡ value)
    × (body.version ≡ version)
    × (body.is_replica ≡ is_replica)

handle_get-hit :
    (s : Node) (key : String) (at now until : ℕ) (item : Item)
    → is_blank key ≡ false
    → visible s.cache key at ≡ some item
    → Serves
        (handle_get alone s get_method key at at now until).1
        item.key
        item.value
        item.version
        item.is_replica
unfolding handle_get answer_get serve_item
handle_get-hit s key at now until item b e =
    rw (b, get_result alone s.cache key at at ∙ e) (_, refl, refl, refl, refl, refl, refl)

handle_get-miss :
    (s : Node) (key : String) (at now until : ℕ)
    → is_blank key ≡ false
    → visible s.cache key at ≡ none
    → (body : GetResponse) × ((handle_get alone s get_method key at at now until).1
        ≡ replied 404 body)
unfolding handle_get answer_get
handle_get-miss s key at now until b e = rw (b, get_result alone s.cache key at at ∙ e) (_, refl)

set_with_metadata-alive :
    (c : Cache) (key value : String) (ttl : ℤ) (version : ℕ) (is_replica : Bool) (now at : ℕ)
    → (is_positive ttl ≡ false) ⊎ (at ≤ now + pos_part ttl)
    → let (c', item) = set_with_metadata c key value ttl version is_replica now in
      visible c' key at ≡ some item
unfolding set_with_metadata unexpired is_expired
set_with_metadata-alive c key value ttl version is_replica now at alive =
    ap (λ o. unexpired o at) (lookup-insert_self key _ c.items) ∙ live alive
  where
    live :
        (is_positive ttl ≡ false) ⊎ (at ≤ now + pos_part ttl)
        → unexpired (some (set_with_metadata c key value ttl version is_replica now).1) at
          ≡ some (set_with_metadata c key value ttl version is_replica now).1
    live (inl p) = rw p refl
    live (inr h) = ground arith

handle_set-response :
    (s : Node) (req : SetRequest) (now : ℕ)
    → is_blank req.key ≡ false
    → let (c, item) =
        set_with_metadata s.cache req.key req.value
          (request_ttl req.ttl_seconds)
          req.version
          req.is_replica
          now in
      let (s', r, sends) = handle_set s post_method req now in
      (s'.cache ≡ c)
      × ((body : SetResponse) × (r ≡ replied 200 body) × (body.version ≡ item.version))
unfolding handle_set set_request
handle_set-response s req now b = rw b (refl, (_, refl, refl))

-- A POST to /set of a key that is not blank is answered with 200, and until its deadline, if it has
-- one, a GET of the key from the same node is answered with 200 and the status hit, with the value,
-- the version of the first answer and the replica mark.
pub handle_set-handle_get :
    (s : Node) (req : SetRequest) (now at access until : ℕ)
    → is_blank req.key ≡ false
    → (is_positive (request_ttl req.ttl_seconds) ≡ false)
      ⊎ (at ≤ now + pos_part (request_ttl req.ttl_seconds))
    → let (s', r, sends) = handle_set s post_method req now in
      (body : SetResponse) × (r ≡ replied 200 body)
      × Serves
          (handle_get alone s' get_method req.key at at access until).1
          req.key
          req.value
          body.version
          req.is_replica
unfolding set_with_metadata
handle_set-handle_get s req now at access until b alive =
    let ttl = request_ttl req.ttl_seconds in
    let (same, (body, r, v)) = handle_set-response s req now b in
    let hit =
      handle_get-hit (handle_set s post_method req now).0 req.key at access until
        (set_with_metadata s.cache req.key req.value ttl req.version req.is_replica now).1 b
        (ap (λ c. visible c req.key at) same
          ∙ set_with_metadata-alive s.cache req.key req.value ttl req.version req.is_replica now at
              alive) in
    let (found, q, status, k, value, version, mark) = hit in
    (body, r, (found, q, status, k, value, version ∙ sym v, mark))

pub is_empty_of_not-is_blank : (s : String) → is_blank s ≡ false → is_empty s ≡ false
unfolding is_blank
is_empty_of_not-is_blank String.[] b = cc
is_empty_of_not-is_blank (String.◌∷◌ c s) b = refl

delete_key-kept :
    (key : String) (body : Option String) → is_empty key ≡ false → delete_key key body ≡ key
delete_key-kept key none e = refl
delete_key-kept key (some k) e = rw e refl

status_of : {A : Type 0} → Response A → ℕ
status_of (replied n body) = n
status_of (rejected n) = n

delete_request-cache :
    (s : Node) (key : String) (o : Option Item)
    → lookup key s.cache.items ≡ o
    → is_blank key ≡ false
    → let (s', r, sends) = delete_request s key in
      (s'.cache ≡ (remove s.cache key).0)
      × (((answer : DeleteResponse) × (r ≡ replied 200 answer))
          ↔ ((item : Item) × (lookup key s.cache.items ≡ some item)))
unfolding delete_request remove remove_entry status_of
delete_request-cache s key none e b =
    rw b (rw e (refl, (λ r. absurd (differ {a = r.0} r.1), λ i. absurd (nothing i.0 i.1))))
  where
    differ : {r : DeleteResponse} {a : DeleteResponse} → replied 404 r ≡ replied 200 a → ⊥
    differ e = omega (arith, ap status_of e)

    nothing : (i : Item) → none ≡ some i → ⊥
    nothing i e = cc
delete_request-cache s key (some item) e b = rw b (rw e (refl, (λ r. (item, refl), λ i. (_, refl))))

-- On a cache with one entry for a key, a DELETE of a key that is not blank is answered with 200
-- exactly if the node has an entry for the key, expired or not, and a GET of the key from the same
-- node that follows is answered with 404.
pub handle_delete-handle_get :
    (s : Node) (key : String) (body : Option String) (at access until : ℕ)
    → IsValid s.cache
    → is_blank key ≡ false
    → let (s', r, sends) = handle_delete s delete_method key body in
      (((answer : DeleteResponse) × (r ≡ replied 200 answer))
        ↔ ((item : Item) × (lookup key s.cache.items ≡ some item)))
      × ((missed : GetResponse) × ((handle_get alone s' get_method key at at access until).1
            ≡ replied 404 missed))
unfolding handle_delete
handle_delete-handle_get s key body at access until v b =
    rw (delete_key-kept key body (is_empty_of_not-is_blank key b)) (
      let (same, answered) = delete_request-cache s key (lookup key s.cache.items) refl b in
      (
        answered,
        handle_get-miss (delete_request s key).0 key at access until b
            (ap (λ c. visible c key at) same ∙ gone),
      ))
  where
    gone : visible (remove s.cache key).0 key at ≡ none
    gone = remove-visible s.cache key key at v ∙ itself
      where
        itself : ite (text_discrete key key) none (visible s.cache key at) ≡ none
        itself = ground arith

sends-own :
    (s : Node) (req : SetRequest) (now : ℕ) (addr key value : String) (ttl : ℤ) (version : ℕ)
    → In (replicate addr key value ttl version) (handle_set s post_method req now).2
    → let (c, item) =
        set_with_metadata s.cache req.key req.value
          (request_ttl req.ttl_seconds)
          req.version
          req.is_replica
          now in
      (key ≡ req.key)
      × (value ≡ req.value)
      × (ttl ≡ request_ttl req.ttl_seconds)
      × (version ≡ item.version)
unfolding handle_set set_request set_with_metadata
sends-own s req now addr key value ttl version i = ground arith

replicated_ttl :
    (key value : String) (n version : ℕ)
    → n ≤ 9223372036
    → request_ttl (replicate_payload key value (request_ttl (pos n)) version).ttl_seconds
      ≡ pos (n * second)
unfolding replicate_payload
replicated_ttl key value n version h = ground (arith, seconds-exact n, whole_seconds-whole n h)

-- What a primary write with a TTL of 0 to 9223372036 seconds sends in the background, once a node
-- has handled it, stands at that node as a replica with the value and, unless the version sent is
-- 0, with that version, the one that the first node stores; it has no deadline for 0 seconds, and
-- otherwise one as far from its own write as the request asked for.
pub handle_set-handle_internal_replicate :
    (s other : Node) (req : SetRequest) (n now later : ℕ) (addr key value : String) (ttl : ℤ)
    (version : ℕ)
    → req.ttl_seconds ≡ pos n
    → n ≤ 9223372036
    → In (replicate addr key value ttl version) (handle_set s post_method req now).2
    → let payload = replicate_payload key value ttl version in
      let (other', r) = handle_internal_replicate other post_method (some payload) later in
      (item : Item) × (lookup req.key other'.cache.items ≡ some item)
      × (item.value ≡ req.value)
      × (item.is_replica ≡ true)
      × (item.expires_at ≡ (if ltb 0 n then later + n * second else 0))
      × (0 < version
          → (item.version ≡ version)
            × (version ≡ next_version req.version (lookup req.key s.cache.items)))
unfolding handle_internal_replicate set_with_metadata replicate_payload
handle_set-handle_internal_replicate s other req n now later addr key value ttl version e h i =
    let (k, v, t, w) = sends-own s req now addr key value ttl version i in
    let left : request_ttl (replicate_payload key value ttl version).ttl_seconds
        ≡ pos (n * second) =
      ap (λ z. request_ttl (replicate_payload key value z version).ttl_seconds)
        (t ∙ ap request_ttl e)
      ∙ replicated_ttl key value n version h in
    let item : Item =
      (set_with_metadata other.cache key value
        (request_ttl (replicate_payload key value ttl version).ttl_seconds) version true later).1 in
    (
      item,
      subst (λ j. lookup j (insert key item other.cache.items) ≡ some item) k
          (lookup-insert_self key item other.cache.items),
      v,
      refl,
      ap (λ z. if is_positive z then later + pos_part z else 0) left ∙ deadline,
      λ p. (next_version-pos version (lookup key other.cache.items) p, w),
    )
  where
    deadline :
        (if is_positive (pos (n * second)) then later + n * second else 0)
        ≡ (if ltb 0 n then later + n * second else 0)
    deadline = ground arith

sub_second : (ttl : ℕ) → ttl < second → whole_seconds ttl ≡ 0
sub_second ttl h = whole_seconds-short ttl (omega arith) ∙ omega arith

-- A TTL that is positive and under one second is sent as 0 seconds, and a node that handles the POST of
-- such a write stores a replica with its value that has no deadline.
pub handle_internal_replicate-sub_second :
    (other : Node) (key value : String) (ttl version now : ℕ)
    → 0 < ttl
    → ttl < second
    → let payload = replicate_payload key value (pos ttl) version in
      let (other', r) = handle_internal_replicate other post_method (some payload) now in
      (payload.ttl_seconds ≡ pos 0)
      × ((item : Item) × (lookup key other'.cache.items ≡ some item)
          × (item.value ≡ value)
          × (item.is_replica ≡ true)
          × (item.expires_at ≡ 0))
unfolding handle_internal_replicate set_with_metadata replicate_payload
handle_internal_replicate-sub_second other key value ttl version now h k =
    let none_left : whole_seconds ttl ≡ 0 = sub_second ttl k in
    let up : ltb 0 ttl ≡ true = ground arith in
    rw (up, none_left) (refl, (_, lookup-insert_self key _ other.cache.items, refl, refl, refl))
