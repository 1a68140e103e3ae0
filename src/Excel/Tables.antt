-- ===== src/Excel/Tables.antt =====
-- What ReadFile gives: tables with a name, the columns of the audit, and the columns of their rows.
use mathlib.Core.Path.{subst}
use go_project.Base.{
  ℕ, ◌+◌, ◌≡◌, sym, List, [], ◌∷◌, ◌++◌, Option, none, some, Bool, true, false, ◌||◌, All,
  All-append, append_assoc, append-nil, arith, length, ltb, Bool-cases, inl, inr,
}
use go_project.Text.{is_empty, trim_space, Casing}
use go_project.Text.Trim.{trim_space_again}
use go_project.Excel.{Column, Table, default_audit_columns}
use go_project.Excel.Sheets.{
  Row, Sheet, Read, got, refused, no_type, cell, column_of, is_skipped, is_meta_sheet,
  is_reserved_audit_name, read_rows, read_table, read_sheet, read_sheets, read_table_sheet,
  and_then, named_table, with_table,
}

-- A column that has a name.
abbrev pub IsNamed : Column → Type 0
IsNamed c = is_empty (trim_space c.name) ≡ false

-- A result that satisfies `P`, or an error.
abbrev pub Gives : {A : Type 0} → (A → Type 0) → Read A → Type 0
Gives P (got x) = P x
Gives P (refused e) = Unit {0}

and_then-Gives :
    {A B : Type 0}
    → {P : A → Type 0} → (Q : B → Type 0) → (r : Read A) → (next : A → Read B) → Gives P r
    → ((x : A) → P x → Gives Q (next x))
    → Gives Q (and_then r next)
and_then-Gives Q (got x) next h k = k x h
and_then-Gives Q (refused e) next h k = tt

pub Gives-weaken :
    {A : Type 0} (P Q : A → Type 0) → ((x : A) → P x → Q x) → (r : Read A) → Gives P r → Gives Q r
Gives-weaken P Q f (got x) h = f x h
Gives-weaken P Q f (refused e) h = tt

or_false : (a b c : Bool) → (a || b || c) ≡ false → (b ≡ false) × (c ≡ false)
or_false a b c h = ground (arith, h)

module _ (cs : Casing) where
  -- A column from a row: it has a name, which is none of the audit columns', and a type.
  abbrev pub IsUser : Column → Type 0
  IsUser c = IsNamed c × (is_reserved_audit_name cs c.name ≡ false) × (is_empty c.kind ≡ false)

  -- The columns of a table: those of the audit, and behind them those of the rows.
  abbrev pub AreColumns : List Column → Type 0
  AreColumns columns =
      (user : List Column) × (columns ≡ default_audit_columns ++ user) × All IsUser user

  abbrev pub IsTable : Table → Type 0
  IsTable t = (is_empty (trim_space t.name) ≡ false) × AreColumns t.columns

  -- No table, or one of these.
  abbrev Kept : Option Table → Type 0
  Kept none = Unit {0}
  Kept (some t) = IsTable t

  kept-IsNamed :
      (row : Row)
      → is_skipped cs row ≡ false
      → IsNamed (column_of cs row) × (is_reserved_audit_name cs (column_of cs row).name ≡ false)
  unfolding is_skipped
  kept-IsNamed row h =
      let (named, fresh) =
        or_false (ltb (length row) 3) (is_empty (trim_space (cell row 1)))
          (is_reserved_audit_name cs (trim_space (cell row 1))) h in
      (trim_space_again (cell row 1) named, fresh)

  module _ (table : List ℕ) where
    read_rows_skip :
        (i : ℕ) (row : Row) (rows : List Row) (columns : List Column)
        → is_skipped cs row ≡ true
        → read_rows cs table i (row ∷ rows) columns ≡ read_rows cs table (i + 1) rows columns
    unfolding read_rows
    read_rows_skip i row rows columns h = rw (h, read_rows)

    read_rows_keep :
        (i : ℕ) (row : Row) (rows : List Row) (columns : List Column)
        → is_skipped cs row ≡ false
        → is_empty (column_of cs row).kind ≡ false
        → read_rows cs table i (row ∷ rows) columns
          ≡ read_rows cs table (i + 1) rows (columns ++ (column_of cs row ∷ []))
    unfolding read_rows
    read_rows_keep i row rows columns h k = rw (h, read_rows, k)

    read_rows_refuse :
        (i : ℕ) (row : Row) (rows : List Row) (columns : List Column)
        → is_skipped cs row ≡ false
        → is_empty (column_of cs row).kind ≡ true
        → read_rows cs table i (row ∷ rows) columns ≡ refused (no_type table (i + 3))
    unfolding read_rows
    read_rows_refuse i row rows columns h k = rw (h, read_rows, k)

    AreColumns-put :
        (columns : List Column) (c : Column)
        → AreColumns columns
        → IsUser c
        → AreColumns (columns ++ (c ∷ []))
    AreColumns-put columns c (user, e, users) h = (
      user ++ (c ∷ []),
      rw e (append_assoc default_audit_columns user (c ∷ [])),
      All-append IsUser user (c ∷ []) users (h, tt),
    )

    read_rows-Gives :
        (rows : List Row) (i : ℕ) (columns : List Column)
        → AreColumns columns
        → Gives AreColumns (read_rows cs table i rows columns)
    unfolding read_rows
    read_rows-Gives [] i columns h = h
    read_rows-Gives (row ∷ rows) i columns h = elim (Bool-cases (is_skipped cs row)) [
      | inl skip ↦
          subst (Gives AreColumns) (sym (read_rows_skip i row rows columns skip))
            (read_rows-Gives rows (i + 1) columns h)
      | inr keep ↦ elim (Bool-cases (is_empty (column_of cs row).kind)) [
        | inl empty ↦
            subst (Gives AreColumns) (sym (read_rows_refuse i row rows columns keep empty)) tt
        | inr typed ↦
            let (named, fresh) = kept-IsNamed row keep in
            subst (Gives AreColumns) (sym (read_rows_keep i row rows columns keep typed)) (
              read_rows-Gives rows (i + 1) (columns ++ (column_of cs row ∷ []))
                (AreColumns-put columns (column_of cs row) h (named, fresh, typed)))
      ]
    ]

  named_table-IsTable :
      (title : List ℕ) (columns : List Column)
      → AreColumns columns
      → Kept (named_table (trim_space title) columns)
  named_table-IsTable title columns h = elim (Bool-cases (is_empty (trim_space title))) [
    | inl empty ↦ rw empty tt
    | inr named ↦ rw named (trim_space_again title named, h)
  ]

  with_table-All :
      (tables : List Table) (t : Option Table)
      → All IsTable tables
      → Kept t
      → All IsTable (with_table tables t)
  with_table-All tables none hs h = hs
  with_table-All tables (some t) hs h = All-append IsTable tables (t ∷ []) hs (h, tt)

  read_table-Gives : (title : List ℕ) (rows : List Row) → Gives Kept (read_table cs title rows)
  unfolding read_table
  read_table-Gives title [] = tt
  read_table-Gives title (first ∷ []) = tt
  read_table-Gives title (first ∷ (second ∷ [])) = tt
  read_table-Gives title (first ∷ (second ∷ (third ∷ rows))) =
      and_then-Gives Kept (read_rows cs (trim_space title) 0 (third ∷ rows) default_audit_columns)
        (λ columns. got (named_table (trim_space title) columns))
        (read_rows-Gives (trim_space title) (third ∷ rows) 0 default_audit_columns
          ([], sym (append-nil default_audit_columns), tt))
        (λ columns h. named_table-IsTable title columns h)

  read_table_sheet-Gives :
      (title : List ℕ) (rows : Option (List Row)) (tables : List Table)
      → All IsTable tables
      → Gives (All IsTable) (read_table_sheet cs title rows tables)
  read_table_sheet-Gives title none tables hs = tt
  read_table_sheet-Gives title (some rows) tables hs =
      and_then-Gives (All IsTable) (read_table cs title rows) (λ t. got (with_table tables t))
        (read_table-Gives title rows) (λ t h. with_table-All tables t hs h)

  read_sheet-Gives :
      (sheet : Sheet) (tables : List Table)
      → All IsTable tables
      → Gives (All IsTable) (read_sheet cs sheet tables)
  unfolding read_sheet
  read_sheet-Gives sheet tables hs = elim (Bool-cases (is_meta_sheet sheet.title)) [
    | inl meta ↦ rw meta hs
    | inr table ↦ rw table (read_table_sheet-Gives sheet.title sheet.rows tables hs)
  ]

  pub read_sheets-Gives :
      (sheets : List Sheet) (tables : List Table)
      → All IsTable tables
      → Gives (All IsTable) (read_sheets cs sheets tables)
  unfolding read_sheets
  read_sheets-Gives [] tables hs = hs
  read_sheets-Gives (sheet ∷ sheets) tables hs =
      and_then-Gives (All IsTable) (read_sheet cs sheet tables) (read_sheets cs sheets)
        (read_sheet-Gives sheet tables hs) (λ more h. read_sheets-Gives sheets more h)
