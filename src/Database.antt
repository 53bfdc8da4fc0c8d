-- ===== src/Database.antt =====
-- backend/internal/database/database.go: the trip records, the contract of a database, and the
-- calculation that an edit of one field starts.
-- The operations of float64 are parameters (Floats).
pub mod Sql
pub mod Sqlite
pub mod Postgres
pub mod Cascade
pub mod Written
pub mod Open
pub mod Examples
use shc.Base.{
  ℕ, String, Option, none, some, Bool, true, false, if◌then◌else◌, ◌||◌, holds, text_discrete,
}
use shc.Base.Int.{ℤ}
pub use shc.Base.Floats.{Floats}

pub record TaxiTrip (F : Type 0) : Type 0 where
  pub trip_id : String
  pub row_id : ℤ
  pub vendor_id : Option F
  pub pickup_datetime : String
  pub dropoff_datetime : String
  pub passenger_count : Option F
  pub trip_distance : F
  pub ratecode_id : Option F
  pub pu_location_id : Option F
  pub do_location_id : Option F
  pub payment_type : Option F
  pub fare_amount : F
  pub tip_amount : F
  pub total_amount : F

-- An interface value, as ToFloat tells its types apart: a float64 or a float32, an int or an int64,
-- a string, anything else.
pub data Value (F : Type 0) : Type 0 where
  number : F → Value F
  integer : ℤ → Value F
  text : String → Value F
  other : Value F

-- What a method returns: a pointer to a trip and an error; `found none` is nil without an error.
pub data Answer (F : Type 0) : Type 0 where
  found : Option (TaxiTrip F) → Answer F
  failure : String → Answer F

-- The interface, on a database of type S.
pub record Database (S F : Type 0) : Type 0 where
  pub query_trip_by_id : S → ℤ → S × Answer F
  pub update_trip_field : S → ℤ → String → Value F → S × Answer F

module _ {F : Type 0} (fl : Floats F) where
  unfoldable pub to_float : Value F → F
  to_float (number x) = x
  to_float (integer n) = fl.of_int n
  to_float (text s) = fl.scan s
  to_float other = fl.lit 0

  -- float64(int(x*100+0.5)) / 100
  unfoldable pub cents : F → F
  cents x = fl.divide (fl.whole (fl.add (fl.times x (fl.lit 10000)) (fl.lit 50))) (fl.lit 10000)

  -- `if x < low { x = low }`
  unfoldable pub at_least : F → F → F
  at_least low x = if fl.less x low then low else x

  unfoldable pub rate_per_mile : TaxiTrip F → F
  rate_per_mile t =
      let rate = fl.divide t.fare_amount t.trip_distance in
      if fl.less (fl.lit 0) t.trip_distance
      then (if fl.less (fl.lit 0) t.fare_amount
          then (if fl.less rate (fl.lit 100)
              then fl.lit 100
              else (if fl.less (fl.lit 2000) rate then fl.lit 2000 else rate))
          else fl.lit 350)
      else fl.lit 350

  unfoldable pub fixed_surcharges : TaxiTrip F → F
  unfolding at_least
  fixed_surcharges t =
      at_least (fl.lit 80) (fl.subtract t.total_amount (fl.add t.fare_amount t.tip_amount))

  -- The total of a fare, a tip and the surcharges.
  unfoldable pub total_of : F → F → F → F
  unfolding cents
  total_of fare tip surcharges = cents (fl.add (fl.add fare tip) surcharges)

  unfoldable pub tip_ratio : F → F → F
  tip_ratio fare tip =
      let ratio = fl.divide tip fare in
      if fl.less (fl.lit 0) fare
      then (if fl.less (fl.lit 0) tip
          then (if fl.at_most ratio (fl.lit 0) || fl.less (fl.lit 50) ratio
              then fl.lit 18
              else ratio)
          else fl.lit 18)
      else fl.lit 18

  -- case "trip_distance"
  unfoldable pub set_distance : TaxiTrip F → F → F → F → TaxiTrip F
  unfolding cents at_least tip_ratio total_of
  set_distance t rate surcharges value =
      let distance = at_least (fl.lit 10) value in
      let fare = at_least (fl.lit 250) (cents (fl.times distance rate)) in
      let tip = cents (fl.times fare (tip_ratio fare t.tip_amount)) in
      record t {
        trip_distance = cents distance;
        fare_amount = fare;
        tip_amount = tip;
        total_amount = total_of fare tip surcharges;
      }

  -- case "fare_amount"
  unfoldable pub set_fare : TaxiTrip F → F → F → F → TaxiTrip F
  unfolding cents at_least total_of
  set_fare t rate surcharges value =
      let new_fare = at_least (fl.lit 250) value in
      record t {
        fare_amount = cents new_fare;
        trip_distance = at_least (fl.lit 10) (cents (fl.divide new_fare rate));
        total_amount = total_of (cents new_fare) t.tip_amount surcharges;
      }

  -- case "tip_amount"
  unfoldable pub set_tip : TaxiTrip F → F → F → TaxiTrip F
  unfolding cents at_least total_of
  set_tip t surcharges value =
      let tip = cents (at_least (fl.lit 0) value) in
      record t { tip_amount = tip; total_amount = total_of t.fare_amount tip surcharges }

  -- case "total_amount"
  unfoldable pub set_total : TaxiTrip F → F → F → F → TaxiTrip F
  unfolding cents at_least
  set_total t rate surcharges value =
      let total = cents (at_least (fl.lit 330) value) in
      let available = fl.subtract total (fl.add t.tip_amount surcharges) in
      let short = fl.less available (fl.lit 250) in
      let fare = cents (if short then fl.lit 250 else available) in
      record t {
        total_amount = total;
        tip_amount =
            if short
            then at_least (fl.lit 0) (fl.subtract (fl.subtract total (fl.lit 250)) surcharges)
            else t.tip_amount;
        fare_amount = fare;
        trip_distance = cents (fl.divide fare rate);
      }

  -- case "passenger_count"
  unfoldable pub set_passengers : TaxiTrip F → F → TaxiTrip F
  set_passengers t value = record t {
    passenger_count = some (
        if fl.less value (fl.lit 100)
        then fl.lit 100
        else (if fl.less (fl.lit 600) value then fl.lit 600 else value));
  }

  -- The distance of two zones, and what follows from it.
  unfoldable pub zones : TaxiTrip F → F → F → Option F → Option F → TaxiTrip F
  unfolding cents total_of
  zones t rate surcharges (some pu) (some do_zone) =
      let diff = fl.subtract pu do_zone in
      let apart = if fl.less diff (fl.lit 0) then fl.negate diff else diff in
      let estimated = cents (fl.add (fl.times apart (fl.lit 6)) (fl.lit 120)) in
      let fare = cents (fl.times estimated rate) in
      record t {
        trip_distance = estimated;
        fare_amount = fare;
        total_amount = total_of fare t.tip_amount surcharges;
      }
  zones t rate surcharges none do_zone = t
  zones t rate surcharges (some pu) none = t

  -- case "pu_location_id"
  unfoldable pub set_pu : TaxiTrip F → F → F → F → TaxiTrip F
  unfolding zones
  set_pu t rate surcharges value =
      zones (record t { pu_location_id = some value }) rate surcharges (some value) t.do_location_id

  -- case "do_location_id"
  unfoldable pub set_do : TaxiTrip F → F → F → F → TaxiTrip F
  unfolding zones
  set_do t rate surcharges value =
      zones (record t { do_location_id = some value }) rate surcharges t.pu_location_id (some value)

-- The cases of the switch.
pub data Field : Type 0 where
  distance fare tip total passengers pickup dropoff unknown : Field

unfoldable pub field_of : String → Field
field_of name =
    if holds (text_discrete name "trip_distance")
    then distance
    else (if holds (text_discrete name "fare_amount")
        then fare
        else (if holds (text_discrete name "tip_amount")
            then tip
            else (if holds (text_discrete name "total_amount")
                then total
                else (if holds (text_discrete name "passenger_count")
                    then passengers
                    else (if holds (text_discrete name "pu_location_id")
                          || holds (text_discrete name "pulocationid")
                        then pickup
                        else (if holds (text_discrete name "do_location_id")
                              || holds (text_discrete name "dolocationid")
                            then dropoff
                            else unknown))))))

unfoldable pub edit : {F : Type 0} → Floats F → TaxiTrip F → Field → F → TaxiTrip F
unfolding rate_per_mile fixed_surcharges set_distance set_fare set_tip set_total set_passengers
    set_pu set_do
edit fl t distance value = set_distance fl t (rate_per_mile fl t) (fixed_surcharges fl t) value
edit fl t fare value = set_fare fl t (rate_per_mile fl t) (fixed_surcharges fl t) value
edit fl t tip value = set_tip fl t (fixed_surcharges fl t) value
edit fl t total value = set_total fl t (rate_per_mile fl t) (fixed_surcharges fl t) value
edit fl t passengers value = set_passengers fl t value
edit fl t pickup value = set_pu fl t (rate_per_mile fl t) (fixed_surcharges fl t) value
edit fl t dropoff value = set_do fl t (rate_per_mile fl t) (fixed_surcharges fl t) value
edit fl t unknown value = t

unfoldable pub calculate_trip_cascade :
    {F : Type 0} → Floats F → TaxiTrip F → String → Value F → TaxiTrip F
unfolding to_float field_of edit
calculate_trip_cascade fl t field value = edit fl t (field_of field) (to_float fl value)
