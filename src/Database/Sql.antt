-- ===== src/Database/Sql.antt =====
-- backend/internal/database/sqlite.go, backend/internal/database/postgres.go: what the two drivers
-- share. The SQL database and database/sql are outside: a parameter (Sql).
use Prim.Native.String.{◌++◌}
use shc.Base.{String, Option, none, some}
use shc.Base.Int.{ℤ}
use shc.Base.Texts.{format_int}
use shc.Database.{Floats, TaxiTrip}

-- The columns that Scan fills; a NULL is `none`.
pub record Row (F : Type 0) : Type 0 where
  pub id : ℤ
  pub vendor_id : Option F
  pub pickup : Option String
  pub dropoff : Option String
  pub pass_count : Option F
  pub distance : Option F
  pub rate_code : Option F
  pub pu_loc : Option F
  pub do_loc : Option F
  pub pay_type : Option F
  pub fare : Option F
  pub tip : Option F
  pub total : Option F

-- sql.ErrNoRows, another error, or a row.
pub data Selected (F : Type 0) : Type 0 where
  no_rows : Selected F
  scan_failed : String → Selected F
  one_row : Row F → Selected F

-- The arguments of the UPDATE before the row id.
pub record Update (F : Type 0) : Type 0 where
  pub trip_distance : F
  pub fare_amount : F
  pub tip_amount : F
  pub total_amount : F
  pub passenger_count : Option F
  pub pu_location_id : Option F
  pub do_location_id : Option F

-- The SELECT and the UPDATE on a table of type S; an error of Exec is `some`.
pub record Sql (S F : Type 0) : Type 0 where
  pub select : S → ℤ → Selected F
  pub exec : S → Update F → ℤ → S × Option String

abbrev pub or_zero : {A : Type 0} → A → Option A → A
or_zero zero none = zero
or_zero zero (some a) = a

unfoldable pub trip_of : {F : Type 0} → Floats F → ℤ → Row F → TaxiTrip F
trip_of fl row_id r = record {
  trip_id = "trip:" ++ format_int row_id;
  row_id = r.id;
  vendor_id = r.vendor_id;
  pickup_datetime = or_zero "" r.pickup;
  dropoff_datetime = or_zero "" r.dropoff;
  passenger_count = r.pass_count;
  trip_distance = or_zero (fl.lit 0) r.distance;
  ratecode_id = r.rate_code;
  pu_location_id = r.pu_loc;
  do_location_id = r.do_loc;
  payment_type = r.pay_type;
  fare_amount = or_zero (fl.lit 0) r.fare;
  tip_amount = or_zero (fl.lit 0) r.tip;
  total_amount = or_zero (fl.lit 0) r.total;
}

-- The trip that stands in for one that cannot be read; `pickup` and `dropoff` are the two texts of
-- time.Now().
unfoldable pub baseline : {F : Type 0} → Floats F → ℤ → String → String → TaxiTrip F
baseline fl row_id pickup dropoff = record {
  trip_id = "trip:" ++ format_int row_id;
  row_id = row_id;
  vendor_id = none;
  pickup_datetime = pickup;
  dropoff_datetime = dropoff;
  passenger_count = none;
  trip_distance = fl.lit 350;
  ratecode_id = none;
  pu_location_id = none;
  do_location_id = none;
  payment_type = none;
  fare_amount = fl.lit 1250;
  tip_amount = fl.lit 250;
  total_amount = fl.lit 1630;
}

unfoldable pub update_of : {F : Type 0} → TaxiTrip F → Update F
update_of t = record {
  trip_distance = t.trip_distance;
  fare_amount = t.fare_amount;
  tip_amount = t.tip_amount;
  total_amount = t.total_amount;
  passenger_count = t.passenger_count;
  pu_location_id = t.pu_location_id;
  do_location_id = t.do_location_id;
}
