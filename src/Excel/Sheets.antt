-- ===== src/Excel/Sheets.antt =====
-- ReadFile of gobackendkit/schema/excelddl/excel.go, from the sheets of the opened workbook.
use go_project.Base.{
  ℕ, ◌+◌, List, [], ◌∷◌, ◌++◌, Option, none, some, Bool, true, false, ◌||◌, length, ltb, get_or,
  if◌then◌else◌,
}
use go_project.Text.{codes, is_empty, trim_space, has_prefix, to_upper, to_lower, one_of, Casing}
use go_project.Excel.{Column, Table, default_audit_columns, audit_names}

abbrev pub Row : Type 0
Row = List (List ℕ)

-- A sheet's rows, or `none` where they cannot be read.
pub record Sheet : Type 0 where
  pub title : List ℕ
  pub rows : Option (List Row)

unfoldable pub is_meta_sheet : List ℕ → Bool
is_meta_sheet name = let n = trim_space name in is_empty n || has_prefix n (codes "_")

unfoldable pub cell : Row → ℕ → List ℕ
cell row i = get_or row i []

-- The error of a sheet that cannot be read, or of a column with no type, by its row.
pub data ReadError : Type 0 where
  no_rows : List ℕ → ReadError
  no_type : List ℕ → ℕ → ReadError

pub data Read (A : Type 0) : Type 0 where
  got : A → Read A
  refused : ReadError → Read A

-- `if err != nil { return nil, err }`
abbrev pub and_then : {A B : Type 0} → Read A → (A → Read B) → Read B
and_then (got x) next = next x
and_then (refused e) next = refused e

-- A table whose name is empty is dropped.
abbrev pub named_table : List ℕ → List Column → Option Table
named_table name columns =
    if is_empty name then none else some (record { name = name; columns = columns })

abbrev pub with_table : List Table → Option Table → List Table
with_table tables none = tables
with_table tables (some t) = tables ++ (t ∷ [])

module _ (cs : Casing) where
  unfoldable pub parse_bool : List ℕ → Bool
  parse_bool s =
      one_of (trim_space (to_lower cs s))
        (codes "1" ∷ codes "true" ∷ codes "yes" ∷ codes "y" ∷ codes "是" ∷ [])

  unfoldable pub is_reserved_audit_name : List ℕ → Bool
  is_reserved_audit_name name = one_of (to_lower cs name) audit_names

  abbrev pub column_of : Row → Column
  column_of row = record {
    comment = trim_space (cell row 0);
    name = trim_space (cell row 1);
    kind = to_upper cs (trim_space (cell row 2));
    size = trim_space (cell row 3);
    not_null = parse_bool (cell row 4);
    unique = parse_bool (cell row 5);
    primary = parse_bool (cell row 6);
    default = trim_space (cell row 7);
  }

  -- `continue` on a row that is too short, has no name, or repeats an audit column.
  unfoldable pub is_skipped : Row → Bool
  is_skipped row =
      ltb (length row) 3
      || is_empty (trim_space (cell row 1))
      || is_reserved_audit_name (trim_space (cell row 1))

  -- The loop over the rows from the third on; `i` counts them.
  unfoldable pub read_rows : List ℕ → ℕ → List Row → List Column → Read (List Column)
  read_rows table i [] columns = got columns
  read_rows table i (row ∷ rows) columns = elim (is_skipped row) [
    | true ↦ read_rows table (i + 1) rows columns
    | false ↦ elim (is_empty (column_of row).kind) [
      | true ↦ refused (no_type table (i + 3))
      | false ↦ read_rows table (i + 1) rows (columns ++ (column_of row ∷ []))
    ]
  ]

  -- A sheet with fewer than three rows is no table.
  unfoldable pub read_table : List ℕ → List Row → Read (Option Table)
  read_table title (first ∷ second ∷ third ∷ rows) =
      and_then (read_rows (trim_space title) 0 (third ∷ rows) default_audit_columns)
        (λ columns. got (named_table (trim_space title) columns))
  read_table title rows = got none

  abbrev pub read_table_sheet : List ℕ → Option (List Row) → List Table → Read (List Table)
  read_table_sheet title none tables = refused (no_rows title)
  read_table_sheet title (some rows) tables =
      and_then (read_table title rows) (λ t. got (with_table tables t))

  -- One turn of the loop over the sheets.
  unfoldable pub read_sheet : Sheet → List Table → Read (List Table)
  read_sheet sheet tables =
      if is_meta_sheet sheet.title
      then got tables
      else read_table_sheet sheet.title sheet.rows tables

  unfoldable pub read_sheets : List Sheet → List Table → Read (List Table)
  read_sheets [] tables = got tables
  read_sheets (sheet ∷ sheets) tables =
      and_then (read_sheet sheet tables) (λ more. read_sheets sheets more)
