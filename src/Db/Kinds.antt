-- ===== src/Db/Kinds.antt =====
-- SetDBType sets the type of database for this package and for the dialects; how far they agree.
use mathlib.Core.Path.{subst}
use go_project.Base.{
  ℕ, ◌≡◌, refl, ◌∙◌, sym, ap, List, Option, none, some, false, not, arith, Bool-cases, inl, inr,
}
use go_project.Base.Dict.{same, same_sound}
use go_project.Dialect
use go_project.Dialect.{postgresql, sqlserver, dialect_for, postgres_dialect, sql_server_dialect}
use go_project.EnvFile.{DbConfig}
use go_project.Db.{
  Drivers, Db, postgres_db, mssql_db, Opened, connected, closed, not_opened, unknown_type, tested,
  new_postgres_db, new_mssql_db, new_db, Globals, set_db_type, get_db_type, is_sqlserver,
  db_type_of,
}
use go_project.Text.{is_empty}

-- A connection is of this type and its dialect's too; the error of an unknown type is only of one.
abbrev pub IsOfType : {C : Type 0} → List ℕ → Opened C → Type 0
IsOfType t (connected d) = (db_type_of d ≡ t) × ((dialect_for t).kind ≡ t)
IsOfType t (closed c) = Unit {0}
IsOfType t not_opened = Unit {0}
IsOfType t (unknown_type u) = (u ≡ t) × (same t postgresql ≡ false) × (same t sqlserver ≡ false)

module _ {C : Type 0} (drivers : Drivers C) where
  tested-IsOfType :
      (wrap : C → Db C) (t : List ℕ) (o : Option C)
      → ((c : C) → db_type_of (wrap c) ≡ t)
      → (dialect_for t).kind ≡ t
      → IsOfType t (tested drivers wrap o)
  tested-IsOfType wrap t none h k = tt
  tested-IsOfType wrap t (some c) h k = elim (Bool-cases (drivers.ping c)) [
    | inl up ↦ rw up (h c, k)
    | inr down ↦ rw down tt
  ]

  postgres-IsOfType : (config : DbConfig) → IsOfType postgresql (new_postgres_db drivers config)
  unfolding new_postgres_db dialect_for postgres_dialect same
  postgres-IsOfType config = tested-IsOfType postgres_db postgresql _ (λ c. refl) refl

  mssql-IsOfType : (config : DbConfig) → IsOfType sqlserver (new_mssql_db drivers config)
  unfolding new_mssql_db dialect_for sql_server_dialect same
  mssql-IsOfType config = tested-IsOfType mssql_db sqlserver _ (λ c. refl) refl

  pub new_db-IsOfType : (t : List ℕ) (config : DbConfig) → IsOfType t (new_db drivers t config)
  unfolding new_db
  new_db-IsOfType t config = elim (Bool-cases (same t postgresql)) [
    | inl p ↦ rw p (
        subst (λ u. IsOfType u (new_postgres_db drivers config)) (sym (same_sound t postgresql p))
          (postgres-IsOfType config))
    | inr p ↦ elim (Bool-cases (same t sqlserver)) [
      | inl m ↦
          rw (p, m)
            (subst (λ u. IsOfType u (new_mssql_db drivers config)) (sym (same_sound t sqlserver m))
              (mssql-IsOfType config))
      | inr m ↦ rw (p, m) (refl, p, m)
    ]
  ]

dialect_for-is_sqlserver : (t : List ℕ) → Dialect.is_sqlserver t ≡ same t sqlserver
unfolding Dialect.is_sqlserver Dialect.current_dialect dialect_for postgres_dialect
    sql_server_dialect same
dialect_for-is_sqlserver t = elim (Bool-cases (same t sqlserver)) [
  | inl m ↦ rw m refl
  | inr m ↦ rw m refl
]

get_db_type-set_db_type :
    (t : List ℕ) (g : Globals) → is_empty t ≡ false → get_db_type (set_db_type t g) ≡ t
unfolding get_db_type set_db_type
get_db_type-set_db_type t g h = rw h refl

is_sqlserver-set_db_type :
    (t : List ℕ) (g : Globals)
    → is_empty t ≡ false
    → is_sqlserver (set_db_type t g) ≡ Dialect.is_sqlserver t
unfolding is_sqlserver
is_sqlserver-set_db_type t g h =
    ap (λ u. same u sqlserver) (get_db_type-set_db_type t g h) ∙ sym (dialect_for-is_sqlserver t)

module _ {C : Type 0} (drivers : Drivers C) where
  -- When SetDBType has set a type that is not empty: NewDB of the type that GetDBType gives refuses
  -- it as unknown only where it is neither of the two, and a connection that it gives is of that
  -- type, which is also the kind of the current dialect; this package and the dialects agree
  -- whether it is SQL Server; and for any other type, known or not, the dialect is PostgreSQL's.
  pub set_db_type-IsOfType :
      (t : List ℕ) (g : Globals) (config : DbConfig)
      → is_empty t ≡ false
      → IsOfType t (new_db drivers (get_db_type (set_db_type t g)) config)
        × (is_sqlserver (set_db_type t g) ≡ Dialect.is_sqlserver (set_db_type t g).current_kind)
        × (Dialect.is_postgresql (set_db_type t g).current_kind
            ≡ not (is_sqlserver (set_db_type t g)))
  unfolding set_db_type
  set_db_type-IsOfType t g config h =
      let same_kind = is_sqlserver-set_db_type t g h in
      (
        subst (λ u. IsOfType t (new_db drivers u config)) (sym (get_db_type-set_db_type t g h))
            (new_db-IsOfType drivers t config),
        same_kind,
        ground (arith, same_kind, Dialect.one_kind t),
      )
