-- ===== src/Database/Open.antt =====
-- backend/internal/database/database.go: Open, which chooses the driver. The environment gives "" for an
-- unset variable, as os.Getenv does; the opening of the driver itself belongs to database/sql.
use Prim.Native.String.{◌++◌}
use shc.Base.{◌==◌, String, ◌&&◌, ◌||◌, not, if◌then◌else◌, holds, text_discrete}
use shc.Base.Int.{ℤ, pos}
use shc.Base.Texts.{is_empty, format_int}

pub record Config : Type 0 where
  pub driver : String
  pub url : String
  pub host : String
  pub port : ℤ
  pub user : String
  pub password : String
  pub db_name : String
  pub ssl_mode : String
  pub path : String

pub data Driver : Type 0 where
  postgres : String → Driver
  sqlite : String → Driver

abbrev pub Environment : Type 0
Environment = String → String

-- The first of two texts that is not empty.
abbrev or_text : String → String → String
or_text s t = if is_empty s then t else s

abbrev or_port : ℤ → ℤ
or_port (pos n) = if n == 0 then pos 5432 else pos n
or_port z = z

unfoldable pub postgres_url : Config → Environment → String
postgres_url cfg env =
    "postgres://"
    ++ or_text cfg.user (env "DATABASE_USER")
    ++ ":"
    ++ or_text cfg.password (env "DATABASE_PASSWORD")
    ++ "@"
    ++ or_text cfg.host (env "DATABASE_HOST")
    ++ ":"
    ++ format_int (or_port cfg.port)
    ++ "/"
    ++ or_text cfg.db_name (or_text (env "DATABASE_NAME") "shc_db")
    ++ "?sslmode="
    ++ or_text cfg.ssl_mode (or_text (env "DATABASE_SSLMODE") "require")

unfoldable pub open_database : Config → Environment → Driver
unfolding postgres_url
open_database cfg env =
    let given = or_text cfg.url (env "DATABASE_URL") in
    let url =
      if is_empty given && (not (is_empty cfg.host) || not (is_empty (env "DATABASE_HOST")))
      then postgres_url cfg env
      else given in
    if not (is_empty url) || holds (text_discrete cfg.driver "postgres")
    then postgres url
    else sqlite (or_text cfg.path (env "SQLITE_PATH"))
