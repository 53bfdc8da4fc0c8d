-- ===== src/Database/Written.antt =====
-- backend/internal/database/sqlite.go: a trip that was edited is read back, and an edit of a row that
-- is not there.
use shc.Base.{◌≡◌, refl, sym, ap, ◌∙◌, String, Option, none, some, true}
use shc.Base.Int.{ℤ}
use shc.Database.{Floats, TaxiTrip, Value, found, failure, calculate_trip_cascade}
use shc.Database.Cascade.{IsSameTrip, calculate_trip_cascade-IsSameTrip}
use shc.Database.Sql.{Row, Update, no_rows, one_row, Sql, trip_of, baseline, update_of}
use shc.Database.Sqlite.{SqliteDb, executed, query_trip_by_id, update_trip_field}

-- The row with the columns of an update.
abbrev pub updated : {F : Type 0} → Row F → Update F → Row F
updated r u = record r {
  distance = some u.trip_distance;
  fare = some u.fare_amount;
  tip = some u.tip_amount;
  total = some u.total_amount;
  pass_count = u.passenger_count;
  pu_loc = u.pu_location_id;
  do_loc = u.do_location_id;
}

-- What SQL says of the UPDATE by row id: a row that is there has the new columns when it is selected,
-- and where there is no row nothing changes and Exec reports no error.
pub record IsSql {S F : Type 0} (sql : Sql S F) : Type 0 where
  pub select-exec :
      (s s' : S) (u : Update F) (id : ℤ) (r : Row F)
      → sql.select s id ≡ one_row r
      → sql.exec s u id ≡ (s', none)
      → sql.select s' id ≡ one_row (updated r u)
  pub exec-no_rows :
      (s : S) (u : Update F) (id : ℤ) → sql.select s id ≡ no_rows → sql.exec s u id ≡ (s, none)

module _ {S F : Type 0} (fl : Floats F) (sql : Sql S F) (law : IsSql sql) where
  trip_of-updated :
      (row_id : ℤ) (r : Row F) (t : TaxiTrip F)
      → IsSameTrip (trip_of fl row_id r) t
      → trip_of fl row_id (updated r (update_of t)) ≡ t
  unfolding trip_of update_of
  trip_of-updated row_id r t same = λ i. record {
    trip_id = sym same.trip_id i;
    row_id = sym same.row_id i;
    vendor_id = sym same.vendor_id i;
    pickup_datetime = sym same.pickup_datetime i;
    dropoff_datetime = sym same.dropoff_datetime i;
    passenger_count = t.passenger_count;
    trip_distance = t.trip_distance;
    ratecode_id = sym same.ratecode_id i;
    pu_location_id = t.pu_location_id;
    do_location_id = t.do_location_id;
    payment_type = sym same.payment_type i;
    fare_amount = t.fare_amount;
    tip_amount = t.tip_amount;
    total_amount = t.total_amount;
  }

  answer_none :
      (e : Option String) (t u : TaxiTrip F)
      → executed fl sql t e ≡ found (some u)
      → (e ≡ none) × (t ≡ u)
  answer_none none t u h = (refl, cc)
  answer_none (some e) t u h = absurd (cc)

  -- A trip that UpdateTripField returns for a row that is there is the trip that QueryTripByID returns
  -- from then on, if SELECT and UPDATE do what SQL says: what the edit calculated is what is stored.
  pub query-update :
      (pickup dropoff : String) (s : SqliteDb S) (row_id : ℤ) (field : String) (value : Value F)
      (r : Row F) (t : TaxiTrip F)
      → s.connected ≡ true
      → sql.select s.table row_id ≡ one_row r
      → (update_trip_field fl sql pickup dropoff s row_id field value).1 ≡ found (some t)
      → (query_trip_by_id fl sql
          (update_trip_field fl sql pickup dropoff s row_id field value).0
          row_id).1
        ≡ found (some t)
  unfolding update_trip_field query_trip_by_id
  query-update pickup dropoff s row_id field value r t c h =
      rw (c, h)
        (λ e.
          let (no_error, same) = answer_none _ _ t e in
          rw
            (law.select-exec s.table _ (update_of new) row_id r h
              (λ i. ((sql.exec s.table (update_of new) row_id).0, no_error i)))
            (ap (λ x. found (some x))
              (trip_of-updated row_id r new
                  (calculate_trip_cascade-IsSameTrip fl (trip_of fl row_id r) field value)
                ∙ same)))
    where
      new : TaxiTrip F
      new = calculate_trip_cascade fl (trip_of fl row_id r) field value

  -- An edit of a row that QueryTripByID does not find is answered with a trip, as if it were stored, if
  -- SELECT and UPDATE do what SQL says; and then QueryTripByID still does not find the row, and its answer
  -- is the error that it was.
  pub query-update_lost :
      (pickup dropoff : String) (s : SqliteDb S) (row_id : ℤ) (field : String) (value : Value F)
      → s.connected ≡ true
      → sql.select s.table row_id ≡ no_rows
      → let (s', answer) = update_trip_field fl sql pickup dropoff s row_id field value in
        (t : TaxiTrip F) × (e : String) × (answer ≡ found (some t))
        × ((query_trip_by_id fl sql s row_id).1 ≡ failure e)
        × ((query_trip_by_id fl sql s' row_id).1 ≡ failure e)
  unfolding update_trip_field query_trip_by_id
  query-update_lost pickup dropoff s row_id field value c h =
      rw (c, h)
        (rw (law.exec-no_rows s.table (update_of new) row_id h) (new, _, refl, refl, rw h refl))
    where
      new : TaxiTrip F
      new = calculate_trip_cascade fl (baseline fl row_id pickup dropoff) field value
