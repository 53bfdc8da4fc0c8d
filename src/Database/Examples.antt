-- ===== src/Database/Examples.antt =====
-- A table of one row, amounts in hundredths, and the theorems about an edit at them.
use shc.Base.{
  ℕ, ◌+◌, ◌-◌, ◌*◌, ◌/◌, ◌≡◌, refl, sym, ap, ◌∙◌, String, Option, none, some, true, ltb, leb,
}
use shc.Base.Int.{ℤ, pos, pos_part}
use shc.Base.Floats.{Floats}
use shc.Database.{TaxiTrip, found, failure, number, calculate_trip_cascade}
use shc.Database.Sql.{Row, Update, Selected, no_rows, one_row, Sql, trip_of}
use shc.Database.Sqlite.{SqliteDb, query_trip_by_id, update_trip_field}
use shc.Database.Written.{updated, IsSql, query-update, query-update_lost}

abbrev hundredths : Floats ℕ
hundredths = record {
  lit = λ n. n;
  add = λ x y. x + y;
  subtract = λ x y. x - y;
  times = λ x y. x * y / 100;
  divide = λ x y. x * 100 / y;
  negate = λ x. x;
  less = ltb;
  at_most = leb;
  whole = λ x. x / 100 * 100;
  of_int = λ z. pos_part z * 100;
  scan = λ s. 0;
}

-- A table that has one row, whatever its number, or none.
abbrev select : Option (Row ℕ) → ℤ → Selected ℕ
select none id = no_rows
select (some r) id = one_row r

abbrev exec : Option (Row ℕ) → Update ℕ → ℤ → Option (Row ℕ) × Option String
exec none u id = (none, none)
exec (some r) u id = (some (updated r u), none)

abbrev one_table : Sql (Option (Row ℕ)) ℕ
one_table = record { select = select; exec = exec }

one_table-IsSql : IsSql one_table
one_table-IsSql = record { select-exec = selects; exec-no_rows = keeps }
  where
    selects :
        (s s' : Option (Row ℕ)) (u : Update ℕ) (id : ℤ) (r : Row ℕ)
        → select s id ≡ one_row r
        → exec s u id ≡ (s', none)
        → select s' id ≡ one_row (updated r u)
    selects none s' u id r h k = absurd (cc)
    selects (some q) s' u id r h k =
        sym (ap (λ p. select (p.0) id) k) ∙ ap (λ x. one_row (updated x u)) (same h)
      where
        row_or : Selected ℕ → Row ℕ
        row_or (one_row x) = x
        row_or _ = q

        same : one_row q ≡ one_row r → q ≡ r
        same e = ap row_or e

    keeps :
        (s : Option (Row ℕ)) (u : Update ℕ) (id : ℤ)
        → select s id ≡ no_rows
        → exec s u id ≡ (s, none)
    keeps none u id h = refl
    keeps (some r) u id h = absurd (cc)

abbrev row : Row ℕ
row = record {
  id = pos 7;
  vendor_id = none;
  pickup = some "08:00";
  dropoff = none;
  pass_count = none;
  distance = some 200;
  rate_code = none;
  pu_loc = none;
  do_loc = none;
  pay_type = none;
  fare = some 1000;
  tip = some 200;
  total = some 1300;
}

abbrev db : Option (Row ℕ) → SqliteDb (Option (Row ℕ))
db table = record {
  connected = true;
  table = table;
  db_path = "2019-01.sqlite";
  total_rows = 7667792;
  query_count = 0;
  write_count = 0;
}

query-update_example :
    (query_trip_by_id hundredths one_table
      (update_trip_field hundredths one_table "now" "later"
        (db (some row))
        (pos 7)
        "tip_amount"
        (number 300)).0
      (pos 7)).1
    ≡ found (
        some (
          calculate_trip_cascade hundredths
            (trip_of hundredths (pos 7) row)
            "tip_amount"
            (number 300)))
unfolding update_trip_field query_trip_by_id
query-update_example =
    query-update hundredths one_table one_table-IsSql "now" "later" (db (some row)) (pos 7)
      "tip_amount" (number 300) row
      (calculate_trip_cascade hundredths (trip_of hundredths (pos 7) row) "tip_amount" (number 300))
      refl refl refl

query-update_lost_example :
    let (s', answer) =
      update_trip_field hundredths one_table "now" "later"
        (db none)
        (pos 7)
        "tip_amount"
        (number 300) in
    (t : TaxiTrip ℕ) × (e : String) × (answer ≡ found (some t))
    × ((query_trip_by_id hundredths one_table (db none) (pos 7)).1 ≡ failure e)
    × ((query_trip_by_id hundredths one_table s' (pos 7)).1 ≡ failure e)
query-update_lost_example =
    query-update_lost hundredths one_table one_table-IsSql "now" "later" (db none) (pos 7)
      "tip_amount" (number 300) refl refl
