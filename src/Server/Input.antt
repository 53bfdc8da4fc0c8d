-- ===== src/Server/Input.antt =====
-- backend/internal/server/server.go: how handleSet comes by the request that it stores: from the body, and
-- for what the body lacks from the query and the form. `find` gives the first group of the leftmost match of
-- a pattern (regexp), `scan` what Sscanf with %d leaves in a variable (package fmt).
use Prim.Native.Char.{code}
use Prim.Native.String.{◌++◌}
use shc.Base.{
  inl, inr, ℕ, ◌≡◌, refl, ap, String, List, [], ◌∷◌, Option, none, some, Bool, false, ◌&&◌, ◌||◌,
  ◌==◌, if◌then◌else◌, Bool-cases,
}
use shc.Base.Int.{ℤ, pos}
use shc.Base.Texts.{is_empty, is_blank}
use shc.Server.Requests.{SetRequest}

abbrev pub Find : Type 0
Find = String → String → Option String

abbrev pub Scan : Type 0
Scan = String → ℤ → ℤ

-- The quotation marks and the space.
abbrev is_quote : ℕ → Bool
is_quote c = c == 34 || c == 39 || c == 32

unfoldable pub trim_quotes_left : String → String
trim_quotes_left String.[] = String.[]
trim_quotes_left (String.◌∷◌ c s) =
    let rest = trim_quotes_left s in if is_quote (code c) then rest else String.◌∷◌ c s

unfoldable pub trim_quotes_right : String → String
trim_quotes_right String.[] = String.[]
trim_quotes_right (String.◌∷◌ c s) =
    let rest = trim_quotes_right s in
    if is_empty rest && is_quote (code c) then String.[] else String.◌∷◌ c rest

unfoldable pub patterns : String → List String
patterns field =
    ("\"" ++ field ++ "\"\\s*:\\s*\"([^\"]+)\"")
    ∷ ("\"" ++ field ++ "\"\\s*:\\s*([^,}\\s]+)")
    ∷ ("\\b" ++ field ++ "\\s*:\\s*\"([^\"]+)\"")
    ∷ ("\\b" ++ field ++ "\\s*:\\s*([^,}\\s]+)")
    ∷ []

abbrev match_or : Option String → String → String
match_or none later = later
match_or (some group) later = trim_quotes_right (trim_quotes_left group)

-- The loop over the patterns.
unfoldable pub first_match : Find → List String → String → String
unfolding trim_quotes_left trim_quotes_right
first_match find [] raw = ""
first_match find (p ∷ rest) raw = match_or (find p raw) (first_match find rest raw)

unfoldable pub extract_field : Find → String → String → String
unfolding first_match patterns
extract_field find raw field = first_match find (patterns field) raw

-- The body: none, one that decodes, or a text that does not, with what Unmarshal has filled in of it.
pub data Body : Type 0 where
  no_body : Body
  decoded : SetRequest → Body
  undecoded : SetRequest → String → Body

abbrev empty_request : SetRequest
empty_request = record {
  key = "";
  value = "";
  ttl_seconds = pos 0;
  version = 0;
  is_replica = false;
}

unfoldable pub read_body : Find → Scan → Body → SetRequest
unfolding extract_field
read_body find scan no_body = empty_request
read_body find scan (decoded req) = req
read_body find scan (undecoded req raw) =
    let ttl = extract_field find raw "ttl_seconds" in
    record req {
      key = extract_field find raw "key";
      value = extract_field find raw "value";
      ttl_seconds = if is_empty ttl then req.ttl_seconds else scan ttl req.ttl_seconds;
    }

-- The query and the values of the form; "" where there is none.
pub record Form : Type 0 where
  pub query : String → String
  pub form_value : String → String

abbrev or_form : Form → String → String → String
or_form form name value =
    if is_blank value
    then (if is_empty (form.query name) then form.form_value name else form.query name)
    else value

abbrev is_zero : ℤ → Bool
is_zero (pos n) = n == 0
is_zero _ = false

abbrev or_query : Scan → Form → ℤ → ℤ
or_query scan form ttl =
    if is_zero ttl
    then (if is_empty (form.query "ttl_seconds")
        then (if is_empty (form.query "ttl") then ttl else scan (form.query "ttl") ttl)
        else scan (form.query "ttl_seconds") ttl)
    else ttl

unfoldable pub complete : Scan → Form → SetRequest → SetRequest
complete scan form req = record req {
  key = or_form form "key" req.key;
  value = or_form form "value" req.value;
  ttl_seconds = or_query scan form req.ttl_seconds;
}

unfoldable pub read_request : Find → Scan → Body → Form → SetRequest
unfolding read_body complete
read_request find scan body form = complete scan form (read_body find scan body)

-- A request without a query and a form.
abbrev pub bare : Form
bare = record { query = λ name. ""; form_value = λ name. "" }

-- What stands in the body stays, where the query and the form are empty and neither the key nor the value
-- is blank.
pub complete-bare :
    (scan : Scan) (req : SetRequest)
    → is_blank req.key ≡ false
    → is_blank req.value ≡ false
    → complete scan bare req ≡ req
unfolding complete
complete-bare scan req k v =
    rw (k, v) (ap (λ ttl. record req { ttl_seconds = ttl }) (kept req.ttl_seconds))
  where
    kept : (ttl : ℤ) → or_query scan bare ttl ≡ ttl
    kept ttl = elim (Bool-cases (is_zero ttl)) [ inl e ↦ rw e refl | inr e ↦ rw e refl ]
