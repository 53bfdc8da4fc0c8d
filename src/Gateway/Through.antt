-- ===== src/Gateway/Through.antt =====
-- backend/internal/gateway/gateway.go: what the write-through makes of a request.
use shc.Base.{
  ◌≡◌, ◌≢◌, refl, sym, ap, ◌∙◌, ◌⊎◌, inl, inr, String, Option, none, some, true, false, arith,
  Bool-cases,
}
use shc.Base.Int.{ℤ, is_positive}
use shc.Base.Texts.{is_empty, trim_prefix, parse_int}
use shc.Base.GoMap.{GoMap, text_comparable, lookup}
use shc.Database.{Database, TaxiTrip, Value, text, number, integer, other, Answer, found, failure}
use shc.Gateway.{
  ClientSetRequest, Json, Written, value_or_nil, positive_row, row_of, edited_field, edit_of,
  with_value, after_update, write_field, write_row, write_through,
}

-- A request that edits a field of a row: its key is the row's number, with or without the prefixes, and its
-- value is an object that names the field and may give the field's value.
pub record IsEdit {F : Type 0} (json : Json F) (req : ClientSetRequest) (row : ℤ) (field : String)
    (value : Value F) : Type 0 where
  pub number : parse_int (trim_prefix (trim_prefix req.key "trip:") "prod:") ≡ some row
  pub positive : is_positive row ≡ true
  pub parsed : GoMap String (Value F)
  pub object : json.unmarshal req.value ≡ some parsed
  pub named : lookup "field_modified" parsed ≡ some (text field)
  pub filled : is_empty field ≡ false
  pub given : (lookup field parsed ≡ some value) ⊎ ((lookup field parsed ≡ none) × (value ≡ other))

-- What becomes of a request, and of the database: without a database, or without an edit, both stay as they
-- are. An edit is put to the database. If that answers with the row's trip, the trip's text is the new
-- value of the request, unless the trip has no text; otherwise the request stays as it is.
pub data IsWritten {S F : Type 0} (database : Database S F) (json : Json F) (before : Option S)
    (req : ClientSetRequest) (w : Written S F) : Type 0 where
  updated :
      (db db' : S) (row : ℤ) (field : String) (value : Value F) (trip : TaxiTrip F)
      → before ≡ some db
      → IsEdit json req row field value
      → database.update_trip_field db row field value ≡ (db', found (some trip))
      → w.db ≡ some db'
      → (w.req.key ≡ req.key) × (w.req.ttl_seconds ≡ req.ttl_seconds)
      → (json.marshal (some trip) ≡ some w.req.value)
        ⊎ ((json.marshal (some trip) ≡ none) × (w.req.value ≡ req.value))
      → (w.full_trip ≡ some trip) × (w.db_updated ≡ true)
      → IsWritten database json before req w
  refused :
      (db db' : S) (row : ℤ) (field : String) (value : Value F) (answer : Answer F)
      → before ≡ some db
      → IsEdit json req row field value
      → database.update_trip_field db row field value ≡ (db', answer)
      → ((trip : TaxiTrip F) → answer ≢ found (some trip))
      → w ≡ record { db = some db'; req = req; full_trip = none; db_updated = false }
      → IsWritten database json before req w
  no_edit :
      ((db : S) (row : ℤ) (field : String) (value : Value F)
        → before ≡ some db
        → ¬ IsEdit json req row field value)
      → w ≡ record { db = before; req = req; full_trip = none; db_updated = false }
      → IsWritten database json before req w

some≢none : {A : Type 0} {a : A} → some a ≡ none → ⊥
some≢none e = cc

module _ {F : Type 0} (json : Json F) where
  given-value_or_nil :
      (o : Option (Value F)) (value : Value F)
      → (o ≡ some value) ⊎ ((o ≡ none) × (value ≡ other))
      → value_or_nil o ≡ value
  given-value_or_nil o value (inl e) = ap value_or_nil e
  given-value_or_nil o value (inr e) = ap value_or_nil e.0 ∙ sym e.1

  value_or_nil-given :
      (o : Option (Value F)) → (o ≡ some (value_or_nil o)) ⊎ ((o ≡ none) × (value_or_nil o ≡ other))
  value_or_nil-given none = inr (refl, refl)
  value_or_nil-given (some value) = inl refl

  edit-row :
      (req : ClientSetRequest) (row : ℤ) (field : String) (value : Value F)
      → IsEdit json req row field value
      → row_of req.key ≡ some row
  unfolding row_of
  edit-row req row field value e = rw (e.number) (rw (e.positive) refl)

  edit-field :
      (req : ClientSetRequest) (row : ℤ) (field : String) (value : Value F)
      → IsEdit json req row field value
      → edit_of (json.unmarshal req.value) ≡ some (field, value)
  unfolding edit_of
  edit-field req row field value e = rw (e.object) (
      rw (e.named) (
        rw (e.filled)
          (ap (λ v. some (field, v)) (given-value_or_nil (lookup field e.parsed) value e.given))))

  positive_row-some :
      (o : Option ℤ) (row : ℤ)
      → positive_row o ≡ some row
      → (o ≡ some row) × (is_positive row ≡ true)
  positive_row-some none row e = absurd (cc)
  positive_row-some (some id) row e = ground arith

  edited :
      (req : ClientSetRequest) (row : ℤ) (parsed : GoMap String (Value F)) (field : String)
      (value : Value F)
      → row_of req.key ≡ some row
      → json.unmarshal req.value ≡ some parsed
      → (named : Option (Value F)) → lookup "field_modified" parsed ≡ named
      → edited_field parsed named ≡ some (field, value)
      → IsEdit json req row field value
  unfolding row_of
  edited req row parsed field value r u (some (text name)) n = elim (Bool-cases (is_empty name)) [
    | inl e ↦ rw e (λ f. absurd (cc))
    | inr e ↦ rw e (λ f.
        let (digits, above) =
          positive_row-some (parse_int (trim_prefix (trim_prefix req.key "trip:") "prod:")) row r in
        let same : name ≡ field = cc in
        let kept : value_or_nil (lookup name parsed) ≡ value = cc in
        record {
          number = digits;
          positive = above;
          parsed = parsed;
          object = u;
          named = n ∙ ap (λ s. some (text s)) same;
          filled = sym (ap is_empty same) ∙ e;
          given = rw (sym kept, sym same) (value_or_nil-given (lookup name parsed));
        })
  ]
  edited req row parsed field value r u (some (number x)) n = λ f. absurd (cc)
  edited req row parsed field value r u (some (integer x)) n = λ f. absurd (cc)
  edited req row parsed field value r u (some other) n = λ f. absurd (cc)
  edited req row parsed field value r u none n = λ f. absurd (cc)

  edit_of-IsEdit :
      (req : ClientSetRequest) (row : ℤ) (field : String) (value : Value F)
      → row_of req.key ≡ some row
      → (o : Option (GoMap String (Value F))) → json.unmarshal req.value ≡ o
      → edit_of o ≡ some (field, value)
      → IsEdit json req row field value
  unfolding edit_of
  edit_of-IsEdit req row field value r none u e = absurd (cc)
  edit_of-IsEdit req row field value r (some parsed) u e =
      edited req row parsed field value r u (lookup "field_modified" parsed) refl e

module _ {S F : Type 0} (database : Database S F) (json : Json F) where
  after_update-IsWritten :
      (db : S) (req : ClientSetRequest) (row : ℤ) (field : String) (value : Value F)
      → IsEdit json req row field value
      → (r : S × Answer F) → database.update_trip_field db row field value ≡ r
      → IsWritten database json (some db) req (after_update database json req r)
  after_update-IsWritten db req row field value e (db', found none) u =
      refused db db' row field value (found none) refl e u (λ trip p. cc) refl
  after_update-IsWritten db req row field value e (db', failure f) u =
      refused db db' row field value (failure f) refl e u (λ trip p. cc) refl
  after_update-IsWritten db req row field value e (db', found (some trip)) u =
      updated db db' row field value trip refl e u refl
        (same_key (json.marshal (some trip)), same_ttl (json.marshal (some trip)))
        (text_of (json.marshal (some trip))) (refl, refl)
    where
      same_key : (o : Option String) → (with_value database json req o).key ≡ req.key
      same_key none = refl
      same_key (some v) = refl

      same_ttl :
          (o : Option String) → (with_value database json req o).ttl_seconds ≡ req.ttl_seconds
      same_ttl none = refl
      same_ttl (some v) = refl

      text_of :
          (o : Option String)
          → (o ≡ some (with_value database json req o).value)
            ⊎ ((o ≡ none) × ((with_value database json req o).value ≡ req.value))
      text_of none = inr (refl, refl)
      text_of (some v) = inl refl

  write_field-IsWritten :
      (db : S) (req : ClientSetRequest) (row : ℤ)
      → row_of req.key ≡ some row
      → (o : Option (String × Value F)) → edit_of (json.unmarshal req.value) ≡ o
      → IsWritten database json (some db) req (write_field database json db req row o)
  write_field-IsWritten db req row r (some (field, value)) e =
      after_update-IsWritten db req row field value
        (edit_of-IsEdit json req row field value r (json.unmarshal req.value) refl e) _ refl
  write_field-IsWritten db req row r none e =
      no_edit
        (λ db' row' field value p i.
          absurd (some≢none (sym (edit-field json req row' field value i) ∙ e)))
        refl

  write_row-IsWritten :
      (db : S) (req : ClientSetRequest) (o : Option ℤ)
      → row_of req.key ≡ o
      → IsWritten database json (some db) req (write_row database json db req o)
  write_row-IsWritten db req (some row) r = write_field-IsWritten db req row r _ refl
  write_row-IsWritten db req none r =
      no_edit
        (λ db' row field value p i.
          absurd (some≢none (sym (edit-row json req row field value i) ∙ r)))
        refl

  pub write_through-IsWritten :
      (db : Option S) (req : ClientSetRequest)
      → IsWritten database json db req (write_through database json db req)
  unfolding write_through
  write_through-IsWritten none req = no_edit (λ db row field value p i. absurd (cc)) refl
  write_through-IsWritten (some db) req = write_row-IsWritten db req (row_of req.key) refl
