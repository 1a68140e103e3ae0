-- ===== src/Dialect.antt =====
-- gobackendkit/dialect: the kinds of database and the fragments of SQL that the two dialects give.
-- Render and ConvertDDL, which are chains of regular expressions, are left out; `none` is a panic.
pub mod Itoa
pub mod Patterns
pub mod Render
pub mod Columns
pub mod Quiet
pub mod Comparison
pub mod Flags
pub mod Fragments
use go_project.Base.{
  ℕ, ◌≡◌, ◌≢◌, refl, List, [], ◌∷◌, ◌++◌, Option, none, some, Bool, not, true, false, if◌then◌else◌,
  Bool-cases, inl, inr, arith,
}
use go_project.Base.Dict.{same}
use go_project.Text.{codes, is_empty}
use go_project.Dialect.Itoa.{itoa}

pub record Schema : Type 0 where
  pub table_exists : List ℕ
  pub column_exists : List ℕ

-- The methods of the interface Dialect that this models.
pub record Dialect : Type 0 where
  pub kind : List ℕ
  pub now : List ℕ
  pub is_null : List ℕ → List ℕ → List ℕ
  pub bool_bit_eq : List ℕ → Bool → List ℕ
  pub bool_bit_literal : Bool → List ℕ
  pub not_deleted : List ℕ → List ℕ
  pub int_flag_eq : List ℕ → ℕ → Option (List ℕ)
  pub page_clause : ℕ → ℕ → Option (List ℕ)
  pub placeholder : ℕ → Option (List ℕ)
  pub meta : Schema

abbrev pub postgresql : List ℕ
postgresql = codes "postgresql"

abbrev pub sqlserver : List ℕ
sqlserver = codes "sqlserver"

abbrev pub deleted_column : List ℕ → List ℕ
deleted_column alias = if is_empty alias then codes "is_delete" else alias ++ codes ".is_delete"

abbrev flag_eq : List ℕ → ℕ → Option (List ℕ)
flag_eq column value = elim (itoa value) [
  | none ↦ none
  | some v ↦ some (column ++ (codes " = " ++ v))
]

abbrev page : ℕ → ℕ → Option (List ℕ)
page offset_arg limit_arg = elim (itoa offset_arg) [
  | none ↦ none
  | some o ↦ elim (itoa limit_arg) [
    | none ↦ none
    | some l ↦
        some (codes "OFFSET ?" ++ (o ++ (codes " ROWS FETCH NEXT ?" ++ (l ++ codes " ROWS ONLY"))))
  ]
]

abbrev numbered : ℕ → Option (List ℕ)
numbered n = elim (itoa n) [ none ↦ none | some v ↦ some (codes "?" ++ v) ]

unfoldable pub postgres_dialect : Dialect
postgres_dialect = record {
  kind = postgresql;
  now = codes "CURRENT_TIMESTAMP";
  is_null = λ expr fallback. codes "COALESCE(" ++ (expr ++ (codes ", " ++ (fallback ++ codes ")")));
  bool_bit_eq = λ column value. column ++ (if value then codes " = true" else codes " = false");
  bool_bit_literal = λ value. if value then codes "true" else codes "false";
  not_deleted = λ alias. deleted_column alias ++ codes " = false";
  int_flag_eq = flag_eq;
  page_clause = page;
  placeholder = numbered;
  meta = record {
    table_exists =
        codes
          "\nSELECT COUNT(*) FROM information_schema.tables\nWHERE table_schema = 'public' AND table_name = $1";
    column_exists =
        codes
          "\nSELECT COUNT(*) FROM information_schema.columns\nWHERE table_schema = 'public' AND table_name = $1 AND column_name = $2";
  };
}

unfoldable pub sql_server_dialect : Dialect
sql_server_dialect = record {
  kind = sqlserver;
  now = codes "GETDATE()";
  is_null = λ expr fallback. codes "ISNULL(" ++ (expr ++ (codes ", " ++ (fallback ++ codes ")")));
  bool_bit_eq = λ column value. column ++ (if value then codes " = 1" else codes " = 0");
  bool_bit_literal = λ value. if value then codes "1" else codes "0";
  not_deleted = λ alias. deleted_column alias ++ codes " = 0";
  int_flag_eq = flag_eq;
  page_clause = page;
  placeholder = numbered;
  meta = record {
    table_exists = codes "SELECT COUNT(*) FROM INFORMATION_SCHEMA.TABLES WHERE TABLE_NAME = ?1";
    column_exists =
        codes
          "SELECT COUNT(*) FROM INFORMATION_SCHEMA.COLUMNS WHERE TABLE_NAME = ?1 AND COLUMN_NAME = ?2";
  };
}

-- For: any kind but SQLServer is taken for PostgreSQL.
unfoldable pub dialect_for : List ℕ → Dialect
dialect_for kind = if same kind sqlserver then sql_server_dialect else postgres_dialect

-- SetKind, on currentKind; and Current.
abbrev pub set_kind : List ℕ → List ℕ → List ℕ
set_kind kind current_kind = kind

unfoldable pub current_dialect : List ℕ → Dialect
current_dialect current_kind = dialect_for current_kind

-- IsPostgreSQL and IsSQLServer, by the kind that is set.
unfoldable pub is_postgresql : List ℕ → Bool
is_postgresql current_kind = same (current_dialect current_kind).kind postgresql

unfoldable pub is_sqlserver : List ℕ → Bool
is_sqlserver current_kind = same (current_dialect current_kind).kind sqlserver

bool_bit_eq-bool_bit_literal :
    (value : Bool) (kind column : List ℕ)
    → (dialect_for kind).bool_bit_eq column value
      ≡ column ++ (codes " = " ++ (dialect_for kind).bool_bit_literal value)
unfolding dialect_for postgres_dialect sql_server_dialect
bool_bit_eq-bool_bit_literal true kind column = elim (Bool-cases (same kind sqlserver)) [
  | inl e ↦ rw e
  | inr e ↦ rw e
]
bool_bit_eq-bool_bit_literal false kind column = elim (Bool-cases (same kind sqlserver)) [
  | inl e ↦ rw e
  | inr e ↦ rw e
]

not_deleted-bool_bit_eq :
    (kind alias : List ℕ)
    → (dialect_for kind).not_deleted alias
      ≡ (dialect_for kind).bool_bit_eq (deleted_column alias) false
unfolding dialect_for postgres_dialect sql_server_dialect
not_deleted-bool_bit_eq kind alias = elim (Bool-cases (same kind sqlserver)) [
  | inl e ↦ rw e
  | inr e ↦ rw e
]

pub one_kind : (kind : List ℕ) → is_sqlserver kind ≡ not (is_postgresql kind)
unfolding current_dialect dialect_for is_postgresql is_sqlserver postgres_dialect sql_server_dialect
    same
one_kind kind = elim (Bool-cases (same kind sqlserver)) [ inl e ↦ rw e | inr e ↦ rw e ]

-- In every kind that may be set, just one of IsPostgreSQL and IsSQLServer holds; BoolBitEq compares
-- with BoolBitLiteral; and NotDeleted is BoolBitEq of the alias's column with `false`.
pub dialect_for-agrees :
    (kind alias column : List ℕ) (value : Bool)
    → (is_sqlserver kind ≡ not (is_postgresql kind))
      × ((dialect_for kind).bool_bit_eq column value
          ≡ column ++ (codes " = " ++ (dialect_for kind).bool_bit_literal value))
      × ((dialect_for kind).not_deleted alias
          ≡ (dialect_for kind).bool_bit_eq (deleted_column alias) false)
dialect_for-agrees kind alias column value = (
  one_kind kind,
  bool_bit_eq-bool_bit_literal value kind column,
  not_deleted-bool_bit_eq kind alias,
)
