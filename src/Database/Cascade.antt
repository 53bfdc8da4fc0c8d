-- ===== src/Database/Cascade.antt =====
-- backend/internal/database/database.go: what an edit of one field leaves alone, and how the amounts
-- of the edited trip belong together.
use shc.Base.{◌≡◌, ◌≢◌, refl, String, Option, none, some, ◌⊎◌, inl, inr}
use shc.Database.{
  Floats, TaxiTrip, Value, Field, distance, fare, tip, total, passengers, pickup, dropoff, unknown,
  to_float, total_of, fixed_surcharges, set_distance, set_fare, set_tip, set_total, set_passengers,
  set_pu, set_do, zones, edit, field_of, calculate_trip_cascade,
}

-- What no edit changes: who, when and how the trip was paid.
pub record IsSameTrip {F : Type 0} (t u : TaxiTrip F) : Type 0 where
  pub trip_id : u.trip_id ≡ t.trip_id
  pub row_id : u.row_id ≡ t.row_id
  pub vendor_id : u.vendor_id ≡ t.vendor_id
  pub pickup_datetime : u.pickup_datetime ≡ t.pickup_datetime
  pub dropoff_datetime : u.dropoff_datetime ≡ t.dropoff_datetime
  pub ratecode_id : u.ratecode_id ≡ t.ratecode_id
  pub payment_type : u.payment_type ≡ t.payment_type

-- The amounts of a trip: kept, or with a total that is the sum of the fare, the tip and the
-- surcharges of the trip before, in cents.
pub record HasAmounts {F : Type 0} (t u : TaxiTrip F) : Type 0 where
  pub trip_distance : u.trip_distance ≡ t.trip_distance
  pub fare_amount : u.fare_amount ≡ t.fare_amount
  pub tip_amount : u.tip_amount ≡ t.tip_amount
  pub total_amount : u.total_amount ≡ t.total_amount

abbrev pub IsTotalled : {F : Type 0} → Floats F → TaxiTrip F → TaxiTrip F → Type 0
IsTotalled fl t u = u.total_amount ≡ total_of fl u.fare_amount u.tip_amount (fixed_surcharges fl t)

module _ {F : Type 0} (fl : Floats F) where
  same_trip : (t : TaxiTrip F) → IsSameTrip t t
  same_trip t = record {
    trip_id = refl;
    row_id = refl;
    vendor_id = refl;
    pickup_datetime = refl;
    dropoff_datetime = refl;
    ratecode_id = refl;
    payment_type = refl;
  }

  same_amounts : (t : TaxiTrip F) → HasAmounts t t
  same_amounts t = record {
    trip_distance = refl;
    fare_amount = refl;
    tip_amount = refl;
    total_amount = refl;
  }

  zones-IsSameTrip :
      (t : TaxiTrip F) (rate surcharges : F) (pu do_zone : Option F)
      → IsSameTrip t (zones fl t rate surcharges pu do_zone)
  unfolding zones
  zones-IsSameTrip t rate surcharges none do_zone = same_trip t
  zones-IsSameTrip t rate surcharges (some pu) none = same_trip t
  zones-IsSameTrip t rate surcharges (some pu) (some do_zone) = record {
    trip_id = refl;
    row_id = refl;
    vendor_id = refl;
    pickup_datetime = refl;
    dropoff_datetime = refl;
    ratecode_id = refl;
    payment_type = refl;
  }

  edit-IsSameTrip : (t : TaxiTrip F) (f : Field) (value : F) → IsSameTrip t (edit fl t f value)
  unfolding edit set_distance set_fare set_tip set_total set_passengers set_pu set_do
  edit-IsSameTrip t distance value = record {
    trip_id = refl;
    row_id = refl;
    vendor_id = refl;
    pickup_datetime = refl;
    dropoff_datetime = refl;
    ratecode_id = refl;
    payment_type = refl;
  }
  edit-IsSameTrip t fare value = record {
    trip_id = refl;
    row_id = refl;
    vendor_id = refl;
    pickup_datetime = refl;
    dropoff_datetime = refl;
    ratecode_id = refl;
    payment_type = refl;
  }
  edit-IsSameTrip t tip value = record {
    trip_id = refl;
    row_id = refl;
    vendor_id = refl;
    pickup_datetime = refl;
    dropoff_datetime = refl;
    ratecode_id = refl;
    payment_type = refl;
  }
  edit-IsSameTrip t total value = record {
    trip_id = refl;
    row_id = refl;
    vendor_id = refl;
    pickup_datetime = refl;
    dropoff_datetime = refl;
    ratecode_id = refl;
    payment_type = refl;
  }
  edit-IsSameTrip t passengers value = record {
    trip_id = refl;
    row_id = refl;
    vendor_id = refl;
    pickup_datetime = refl;
    dropoff_datetime = refl;
    ratecode_id = refl;
    payment_type = refl;
  }
  edit-IsSameTrip t pickup value =
      let same =
        zones-IsSameTrip (record t { pu_location_id = some value }) _ _ (some value)
          t.do_location_id in
      record {
        trip_id = same.trip_id;
        row_id = same.row_id;
        vendor_id = same.vendor_id;
        pickup_datetime = same.pickup_datetime;
        dropoff_datetime = same.dropoff_datetime;
        ratecode_id = same.ratecode_id;
        payment_type = same.payment_type;
      }
  edit-IsSameTrip t dropoff value =
      let same =
        zones-IsSameTrip (record t { do_location_id = some value }) _ _ t.pu_location_id
          (some value) in
      record {
        trip_id = same.trip_id;
        row_id = same.row_id;
        vendor_id = same.vendor_id;
        pickup_datetime = same.pickup_datetime;
        dropoff_datetime = same.dropoff_datetime;
        ratecode_id = same.ratecode_id;
        payment_type = same.payment_type;
      }
  edit-IsSameTrip t unknown value = same_trip t

  zones-amounts :
      (t : TaxiTrip F) (rate surcharges : F) (pu do_zone : Option F)
      → HasAmounts t (zones fl t rate surcharges pu do_zone)
        ⊎ ((zones fl t rate surcharges pu do_zone).total_amount
            ≡ total_of fl
                (zones fl t rate surcharges pu do_zone).fare_amount
                (zones fl t rate surcharges pu do_zone).tip_amount
                surcharges)
  unfolding zones
  zones-amounts t rate surcharges none do_zone = inl (same_amounts t)
  zones-amounts t rate surcharges (some pu) none = inl (same_amounts t)
  zones-amounts t rate surcharges (some pu) (some do_zone) = inr refl

  edit-amounts :
      (t : TaxiTrip F) (f : Field) (value : F)
      → f ≢ total
      → HasAmounts t (edit fl t f value) ⊎ IsTotalled fl t (edit fl t f value)
  unfolding edit set_distance set_fare set_tip set_total set_passengers set_pu set_do
  edit-amounts t distance value n = inr refl
  edit-amounts t fare value n = inr refl
  edit-amounts t tip value n = inr refl
  edit-amounts t total value n = absurd (n refl)
  edit-amounts t passengers value n =
      inl (record {
        trip_distance = refl;
        fare_amount = refl;
        tip_amount = refl;
        total_amount = refl;
      })
  edit-amounts t pickup value n =
      elim (zones-amounts (record t { pu_location_id = some value }) _ _ (some value)
        t.do_location_id) [
          | inl h ↦ inl (record {
            trip_distance = h.trip_distance;
            fare_amount = h.fare_amount;
            tip_amount = h.tip_amount;
            total_amount = h.total_amount;
          })
          | inr e ↦ inr e
        ]
  edit-amounts t dropoff value n =
      elim (zones-amounts (record t { do_location_id = some value }) _ _ t.pu_location_id
        (some value)) [
          | inl h ↦ inl (record {
            trip_distance = h.trip_distance;
            fare_amount = h.fare_amount;
            tip_amount = h.tip_amount;
            total_amount = h.total_amount;
          })
          | inr e ↦ inr e
        ]
  edit-amounts t unknown value n = inl (same_amounts t)

  pub calculate_trip_cascade-IsSameTrip :
      (t : TaxiTrip F) (field : String) (value : Value F)
      → IsSameTrip t (calculate_trip_cascade fl t field value)
  unfolding calculate_trip_cascade
  calculate_trip_cascade-IsSameTrip t field value =
      edit-IsSameTrip t (field_of field) (to_float fl value)

  -- An edit of any field but the total, whatever the value, keeps the distance, the fare, the tip and
  -- the total as they are, or makes the total the sum of the new fare, the new tip and the
  -- surcharges of the trip before the edit, in cents; a nil trip and the total itself are left out.
  pub calculate_trip_cascade-total :
      (t : TaxiTrip F) (field : String) (value : Value F)
      → field_of field ≢ total
      → HasAmounts t (calculate_trip_cascade fl t field value)
        ⊎ IsTotalled fl t (calculate_trip_cascade fl t field value)
  unfolding calculate_trip_cascade
  calculate_trip_cascade-total t field value n =
      edit-amounts t (field_of field) (to_float fl value) n
