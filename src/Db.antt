-- ===== src/Db.antt =====
-- gobackendkit/db: one interface to PostgreSQL and SQL Server. The two drivers are left out: what
-- opening a connection gives is the parameter `Drivers`, what a query gives is an argument.
pub mod Placeholders
pub mod Kinds
pub mod Calls
use go_project.Base.{
  ℕ, zero, suc, ◌+◌, ◌-◌, ◌/◌, ◌%◌, ◌^◌, List, [], ◌∷◌, ◌++◌, Option, none, some, Bool, true, false,
  ◌&&◌, ltb, if◌then◌else◌,
}
use go_project.Base.Dict.{same}
use go_project.Dialect.{postgresql, sqlserver, set_kind}
use go_project.EnvFile.{DbConfig}
use go_project.Text.{codes, is_empty}
use go_project.Text.Decimal.{print_int}
use go_project.Int64

abbrev pub postgres_info : DbConfig → List ℕ
postgres_info c =
    codes "host="
    ++ (c.host
        ++ (codes " port="
            ++ (print_int c.port
                ++ (codes " user="
                    ++ (c.user
                        ++ (codes " password="
                            ++ (c.password
                                ++ (codes " dbname="
                                    ++ (c.db_name ++ codes " sslmode=disable")))))))))

abbrev pub mssql_info : DbConfig → List ℕ
mssql_info c =
    if is_empty c.user && is_empty c.password
    then codes "server="
      ++ (c.host
          ++ (codes ";port="
              ++ (print_int c.port
                  ++ (codes ";database="
                      ++ (c.db_name ++ codes ";trusted_connection=yes;encrypt=disable")))))
    else codes "server="
      ++ (c.host
          ++ (codes ";port="
              ++ (print_int c.port
                  ++ (codes ";user id="
                      ++ (c.user
                          ++ (codes ";password="
                              ++ (c.password
                                  ++ (codes ";database="
                                      ++ (c.db_name ++ codes ";encrypt=disable")))))))))

-- pgxpool.New and sql.Open, by their connection string, and the Ping of what they give.
pub record Drivers (C : Type 0) : Type 0 where
  pub new_pool : List ℕ → Option C
  pub open_mssql : List ℕ → Option C
  pub ping : C → Bool

-- A connection of the package, by its driver.
pub data Db (C : Type 0) : Type 0 where
  postgres_db : C → Db C
  mssql_db : C → Db C

-- A connection, or an error; `closed` is that of a connection that failed its test.
pub data Opened (C : Type 0) : Type 0 where
  connected : Db C → Opened C
  closed : C → Opened C
  not_opened : Opened C
  unknown_type : List ℕ → Opened C

module _ {C : Type 0} (drivers : Drivers C) where
  -- The connection's test; it is closed where that fails.
  abbrev pub tested : (C → Db C) → Option C → Opened C
  tested wrap none = not_opened
  tested wrap (some c) = if drivers.ping c then connected (wrap c) else closed c

  unfoldable pub new_postgres_db : DbConfig → Opened C
  new_postgres_db config = tested postgres_db (drivers.new_pool (postgres_info config))

  unfoldable pub new_mssql_db : DbConfig → Opened C
  new_mssql_db config = tested mssql_db (drivers.open_mssql (mssql_info config))

  unfoldable pub new_db : List ℕ → DbConfig → Opened C
  new_db db_type config =
      if same db_type postgresql
      then new_postgres_db config
      else if same db_type sqlserver
      then new_mssql_db config
      else unknown_type db_type

-- definesDBType, and currentKind of package dialect.
pub record Globals : Type 0 where
  pub defines_db_type : List ℕ
  pub current_kind : List ℕ

abbrev pub initial_globals : Globals
initial_globals = record { defines_db_type = []; current_kind = postgresql }

-- SetDBType and, in it, dialect.SetKind
unfoldable pub set_db_type : List ℕ → Globals → Globals
set_db_type db_type g = record {
  defines_db_type = db_type;
  current_kind = set_kind db_type g.current_kind;
}

unfoldable pub get_db_type : Globals → List ℕ
get_db_type g = if is_empty g.defines_db_type then postgresql else g.defines_db_type

-- IsPostgreSQL and IsSQLServer of this package
unfoldable pub is_postgresql : Globals → Bool
is_postgresql g = same (get_db_type g) postgresql

unfoldable pub is_sqlserver : Globals → Bool
is_sqlserver g = same (get_db_type g) sqlserver

abbrev db_of : {C : Type 0} → Opened C → Option (Db C)
db_of (connected d) = some d
db_of _ = none

-- InitDB: no connection where NewDB gives an error.
unfoldable pub init_db : {C : Type 0} → Drivers C → Globals → DbConfig → Option (Db C)
init_db drivers g config =
    db_of
      (new_db drivers (if is_empty g.defines_db_type then postgresql else g.defines_db_type) config)

-- GetDBType of a connection
abbrev pub db_type_of : {C : Type 0} → Db C → List ℕ
db_type_of (postgres_db c) = postgresql
db_type_of (mssql_db c) = sqlserver

pub data TableError : Type 0 where
  query_failed scan_failed rows_failed : TableError

pub data TableNames : Type 0 where
  names : List (List ℕ) → TableNames
  refused : TableError → TableNames

-- The loop of GetTableNames: the rows are what their Scan gives, `ok` that rows.Err is nil.
abbrev scan_names : List (Option (List ℕ)) → Bool → List (List ℕ) → TableNames
scan_names [] ok found = if ok then names found else refused rows_failed
scan_names (none ∷ rows) ok found = refused scan_failed
scan_names (some name ∷ rows) ok found = scan_names rows ok (found ++ (name ∷ []))

-- `query` gives the rows of one of the two statements, `none` for an error.
unfoldable pub get_table_names :
    {C : Type 0} → (List ℕ → Option (List (Option (List ℕ)) × Bool)) → Db C → TableNames
get_table_names query db =
    elim (query (
      if same (db_type_of db) sqlserver
      then codes
          "\n\t\t\tSELECT TABLE_NAME\n\t\t\tFROM INFORMATION_SCHEMA.TABLES\n\t\t\tWHERE TABLE_TYPE = 'BASE TABLE'\n\t\t\tORDER BY TABLE_NAME\n\t\t"
      else codes
          "\n\t\t\tSELECT table_name\n\t\t\tFROM information_schema.tables\n\t\t\tWHERE table_schema = 'public'\n\t\t\t  AND table_type = 'BASE TABLE'\n\t\t\tORDER BY table_name\n\t\t")) [
            | none ↦ refused query_failed
            | some (rows, ok) ↦ scan_names rows ok []
          ]

-- One turn of the loop of ListenForNotifications: the context is done, the wait gives an error (of
-- its time limit or another, `stopped` where the context has ended by then), or a notification.
pub data Turn : Type 0 where
  context_done timed_out : Turn
  wait_failed : Bool → Turn
  notified : Option (List ℕ) → Turn

abbrev pub notifications : List ℕ → List Turn → List (List ℕ × List ℕ)
notifications channel [] = []
notifications channel (context_done ∷ turns) = []
notifications channel (timed_out ∷ turns) = notifications channel turns
notifications channel (wait_failed true ∷ turns) = []
notifications channel (wait_failed false ∷ turns) = notifications channel turns
notifications channel (notified none ∷ turns) = notifications channel turns
notifications channel (notified (some payload) ∷ turns) =
    (channel, payload) ∷ notifications channel turns

-- ListenForNotifications: the calls of `onChange`. `acquired` and `listening` say that Acquire and
-- the statement LISTEN succeed.
unfoldable pub listen_for_notifications :
    {C : Type 0} → Db C → List ℕ → Bool → Bool → List Turn → List (List ℕ × List ℕ)
listen_for_notifications (mssql_db c) channel acquired listening turns = []
listen_for_notifications (postgres_db c) channel acquired listening turns =
    if acquired && listening then notifications channel turns else []
