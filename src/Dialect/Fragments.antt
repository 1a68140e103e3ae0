-- ===== src/Dialect/Fragments.antt =====
-- The fragments of gobackendkit/dialect, and what Render makes of those of SQL Server.
use go_project.Base.{ℕ, ◌≡◌, refl, List, Bool, false, if◌then◌else◌, Bool-cases, inl, inr}
use go_project.Base.Dict.{same}
use go_project.Text.{is_empty, Casing}
use go_project.Dialect.{sqlserver, dialect_for, sql_server_dialect, postgres_dialect}
use go_project.Dialect.Columns.{IsWord, flag_column}
use go_project.Dialect.Flags.{normalized, normalized_bool}
use go_project.Dialect.Render.{is_pgsql_bool_column, render}

render_theirs :
    (cs : Casing) (kind alias name : List ℕ) (value : Bool)
    → IsWord alias
    → IsWord name
    → is_empty name ≡ false
    → render cs kind (sql_server_dialect.bool_bit_eq (flag_column alias name) value)
      ≡ (if is_pgsql_bool_column cs (flag_column alias name)
            then dialect_for kind
            else sql_server_dialect).bool_bit_eq
          (flag_column alias name)
          value
unfolding render dialect_for sql_server_dialect postgres_dialect
render_theirs cs kind alias name value h k e = elim (Bool-cases (same kind sqlserver)) [
  | inl s ↦ rw s (elim (Bool-cases (is_pgsql_bool_column cs (flag_column alias name))) [
    | inl b ↦ rw b refl
    | inr b ↦ rw b refl
  ])
  | inr s ↦
      rw (s, normalized cs alias name h k e value)
        (elim (Bool-cases (is_pgsql_bool_column cs (flag_column alias name))) [
          | inl b ↦ rw b refl
          | inr b ↦ rw b refl
        ])
]

render_own :
    (cs : Casing) (kind alias name : List ℕ) (value : Bool)
    → IsWord alias
    → IsWord name
    → is_empty name ≡ false
    → render cs kind ((dialect_for kind).bool_bit_eq (flag_column alias name) value)
      ≡ (dialect_for kind).bool_bit_eq (flag_column alias name) value
unfolding render dialect_for sql_server_dialect postgres_dialect
render_own cs kind alias name value h k e = elim (Bool-cases (same kind sqlserver)) [
  | inl s ↦ rw s refl
  | inr s ↦ rw s (normalized_bool cs alias name h k e value)
]

-- Of a column `is_…` or `alias.is_…` of ASCII letters, digits and `_`, on whatever dialect: Render
-- turns SQL Server's comparison with a BIT into the dialect's own if isPGSQLBoolColumn takes the
-- column for one, and leaves it as it is otherwise; and the dialect's own it leaves as it is.
pub render-bool_bit_eq :
    (cs : Casing) (kind alias name : List ℕ) (value : Bool)
    → IsWord alias
    → IsWord name
    → is_empty name ≡ false
    → (render cs kind (sql_server_dialect.bool_bit_eq (flag_column alias name) value)
        ≡ (if is_pgsql_bool_column cs (flag_column alias name)
              then dialect_for kind
              else sql_server_dialect).bool_bit_eq
            (flag_column alias name)
            value)
      × (render cs kind ((dialect_for kind).bool_bit_eq (flag_column alias name) value)
          ≡ (dialect_for kind).bool_bit_eq (flag_column alias name) value)
render-bool_bit_eq cs kind alias name value h k e =
    (render_theirs cs kind alias name value h k e, render_own cs kind alias name value h k e)
