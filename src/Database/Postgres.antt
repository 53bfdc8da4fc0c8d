-- ===== src/Database/Postgres.antt =====
-- backend/internal/database/postgres.go: the driver that the gateway reads and writes through.
use Prim.Native.String.{◌++◌}
use shc.Base.{ℕ, String, Option, none, some, Bool, if◌then◌else◌}
use shc.Base.Int.{ℤ}
use shc.Base.Words.{inc64}
use shc.Base.Texts.{format_int}
use shc.Database.{Floats, TaxiTrip, Value, Answer, found, failure, Database, calculate_trip_cascade}
use shc.Database.Sql.{Selected, no_rows, scan_failed, one_row, Sql, trip_of, baseline, update_of}

-- `connected` says that the handle is not nil; `table` is what the handle reaches.
pub record PostgresDb (S : Type 0) : Type 0 where
  pub connected : Bool
  pub table : S
  pub query_count : ℕ
  pub write_count : ℕ

module _ {S F : Type 0} (fl : Floats F) (sql : Sql S F) where
  abbrev selected : ℤ → Selected F → Answer F
  selected row_id no_rows =
      failure ("trip with id " ++ format_int row_id ++ " not found in RDS PostgreSQL")
  selected row_id (scan_failed e) = failure e
  selected row_id (one_row r) = found (some (trip_of fl row_id r))

  unfoldable pub query_trip_by_id : PostgresDb S → ℤ → PostgresDb S × Answer F
  unfolding trip_of
  query_trip_by_id s row_id =
      if s.connected
      then (
        record s { query_count = inc64 s.query_count },
        selected row_id (sql.select s.table row_id),
      )
      else (s, failure "postgres database not connected")

  -- The trip that an edit starts from: a nil trip without an error does not come from the query.
  abbrev pub current_trip : ℤ → String → String → Answer F → TaxiTrip F
  current_trip row_id pickup dropoff (found (some t)) = t
  current_trip row_id pickup dropoff (found none) = baseline fl row_id pickup dropoff
  current_trip row_id pickup dropoff (failure e) = baseline fl row_id pickup dropoff

  abbrev executed : TaxiTrip F → Option String → Answer F
  executed t none = found (some t)
  executed t (some e) = failure ("failed to update postgres db: " ++ e)

  unfoldable pub update_trip_field :
      String → String → PostgresDb S → ℤ → String → Value F → PostgresDb S × Answer F
  unfolding baseline update_of calculate_trip_cascade query_trip_by_id
  update_trip_field pickup dropoff s row_id field value =
      let (read, answer) =
        query_trip_by_id (record s { write_count = inc64 s.write_count }) row_id in
      let t = calculate_trip_cascade fl (current_trip row_id pickup dropoff answer) field value in
      let (table, e) = sql.exec read.table (update_of t) row_id in
      if s.connected
      then (record read { table = table }, executed t e)
      else (s, failure "postgres database not connected")

  -- The driver as the gateway knows it.
  unfoldable pub as_database : String → String → Database (PostgresDb S) F
  as_database pickup dropoff = record {
    query_trip_by_id = query_trip_by_id;
    update_trip_field = update_trip_field pickup dropoff;
  }
