-- ===== src/Db/Calls.antt =====
-- Exec, Query and QueryRow of the connections of gobackendkit/db, and their results. What the pool
-- of pgx and database/sql do with a statement is a parameter; the context is left out.
use go_project.Base.{ℕ, List, Bool}
use go_project.Text.{Casing}
use go_project.Db.{Db, postgres_db, mssql_db}
use go_project.Db.Placeholders.{convert_placeholders}
use go_project.Dialect.{postgresql, sqlserver}
use go_project.Dialect.Render.{render}

-- A value, or the error of the driver.
pub data Answer (E X : Type 0) : Type 0 where
  refused : E → Answer E X
  answered : X → Answer E X

-- ExecContext, QueryContext and QueryRowContext, over the driver's results, rows and row.
pub record Statements (C A E T S R : Type 0) : Type 0 where
  pub exec : C → List ℕ → List A → Answer E T
  pub query : C → List ℕ → List A → Answer E S
  pub query_row : C → List ℕ → List A → R

-- pgxResult and sqlResult, pgxRows and sqlRows, pgxRow and sqlRow.
pub data Wrapped (P M : Type 0) : Type 0 where
  of_pgx : P → Wrapped P M
  of_sql : M → Wrapped P M

abbrev wrapped : {E X Y : Type 0} → (X → Y) → Answer E X → Answer E Y
wrapped f (refused e) = refused e
wrapped f (answered x) = answered (f x)

-- The query as each of the two connections hands it to its driver.
abbrev pub postgres_query : Casing → List ℕ → List ℕ
postgres_query cs query = render cs postgresql query

abbrev pub mssql_query : Casing → List ℕ → List ℕ
mssql_query cs query = convert_placeholders (render cs sqlserver query)

-- The statement that reaches the driver.
unfoldable pub statement : {C : Type 0} → Casing → Db C → List ℕ → List ℕ
statement cs (postgres_db c) query = postgres_query cs query
statement cs (mssql_db c) query = mssql_query cs query

module _ {C A E T S R : Type 0} (cs : Casing) (driver : Statements C A E T S R) where
  -- Exec, Query and QueryRow of *postgresDB.
  module _ {X : Type 0} where
    unfoldable pub postgres_exec : C → List ℕ → List A → Answer E (Wrapped T X)
    postgres_exec c query args = wrapped of_pgx (driver.exec c (postgres_query cs query) args)

    unfoldable pub postgres_rows : C → List ℕ → List A → Answer E (Wrapped S X)
    postgres_rows c query args = wrapped of_pgx (driver.query c (postgres_query cs query) args)

    unfoldable pub postgres_row : C → List ℕ → List A → Wrapped R X
    postgres_row c query args = of_pgx (driver.query_row c (postgres_query cs query) args)

  -- The same of *mssqlDB.
  module _ {X : Type 0} where
    unfoldable pub mssql_exec : C → List ℕ → List A → Answer E (Wrapped X T)
    mssql_exec c query args = wrapped of_sql (driver.exec c (mssql_query cs query) args)

    unfoldable pub mssql_rows : C → List ℕ → List A → Answer E (Wrapped X S)
    mssql_rows c query args = wrapped of_sql (driver.query c (mssql_query cs query) args)

    unfoldable pub mssql_row : C → List ℕ → List A → Wrapped X R
    mssql_row c query args = of_sql (driver.query_row c (mssql_query cs query) args)

-- The methods of the interface DB, by the type of the connection.
module _ {C A E T1 S1 R1 T2 S2 R2 : Type 0} (cs : Casing) (pgx : Statements C A E T1 S1 R1)
    (sql : Statements C A E T2 S2 R2) where
  unfoldable pub exec : Db C → List ℕ → List A → Answer E (Wrapped T1 T2)
  exec (postgres_db c) query args = postgres_exec cs pgx c query args
  exec (mssql_db c) query args = mssql_exec cs sql c query args

  unfoldable pub query_rows : Db C → List ℕ → List A → Answer E (Wrapped S1 S2)
  query_rows (postgres_db c) query args = postgres_rows cs pgx c query args
  query_rows (mssql_db c) query args = mssql_rows cs sql c query args

  unfoldable pub query_row : Db C → List ℕ → List A → Wrapped R1 R2
  query_row (postgres_db c) query args = postgres_row cs pgx c query args
  query_row (mssql_db c) query args = mssql_row cs sql c query args

-- RowsAffected: the error of database/sql is dropped.
unfoldable pub rows_affected : {T1 T2 : Type 0} → (T1 → ℕ) → (T2 → ℕ × Bool) → Wrapped T1 T2 → ℕ
rows_affected of_tag of_result (of_pgx tag) = of_tag tag
rows_affected of_tag of_result (of_sql result) = let (n, ok) = of_result result in n
