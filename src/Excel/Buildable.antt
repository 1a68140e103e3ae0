-- ===== src/Excel/Buildable.antt =====
-- The tables of a workbook, and BuildMSSQLDDL on them.
use mathlib.Core.Path.{subst}
use go_project.Base.{ℕ, refl, sym, List, [], ◌∷◌, Bool, All, All-append}
use go_project.Text.{trim_space, trim_left, trim_right, to_upper, Casing}
use go_project.Excel.{Column, Table, default_audit_columns}
use go_project.Excel.Sheets.{Sheet, read_sheets}
use go_project.Excel.Ddl
use go_project.Excel.Ddl.{
  DdlError, no_table_name, no_column_name, unsupported, Ddl, built, failed, TypeText, whole,
  started, unknown, type_text, written, column_ddl, build_columns, build_mssql_ddl,
}
use go_project.Excel.Tables.{IsNamed, Gives, Gives-weaken, IsUser, IsTable, read_sheets-Gives}

module _ (cs : Casing) where
  -- The statement, or an error for a type that the switch does not know.
  abbrev pub OnlyUnsupported : Ddl → Type 0
  OnlyUnsupported (built text) = Unit {0}
  OnlyUnsupported (failed (unsupported kind name)) = Unit {0}
  OnlyUnsupported (failed no_table_name) = ⊥
  OnlyUnsupported (failed no_column_name) = ⊥

  IsUser-IsNamed : (cols : List Column) → All (IsUser cs) cols → All IsNamed cols
  IsUser-IsNamed [] hs = tt
  IsUser-IsNamed (c ∷ cols) ((h, k, l), hs) = (h, IsUser-IsNamed cols hs)

  default_audit_columns-IsNamed : All IsNamed default_audit_columns
  unfolding default_audit_columns trim_space trim_left trim_right
  default_audit_columns-IsNamed = (refl, (refl, (refl, (refl, (refl, (refl, tt))))))

  and_then-OnlyUnsupported :
      (d : Ddl) (next : List ℕ → Ddl)
      → OnlyUnsupported d
      → ((text : List ℕ) → OnlyUnsupported (next text))
      → OnlyUnsupported (Ddl.and_then d next)
  and_then-OnlyUnsupported (built text) next h k = k text
  and_then-OnlyUnsupported (failed e) next h k = h

  module _ (is_float : List ℕ → Bool) where
    written-OnlyUnsupported :
        (c : Column) (typ name : List ℕ) (t : TypeText)
        → OnlyUnsupported (written cs is_float c typ name t)
    written-OnlyUnsupported c typ name (whole text) = tt
    written-OnlyUnsupported c typ name (started text) = tt
    written-OnlyUnsupported c typ name unknown = tt

    column_ddl-OnlyUnsupported :
        (c : Column) → IsNamed c → OnlyUnsupported (column_ddl cs is_float c)
    unfolding column_ddl
    column_ddl-OnlyUnsupported c h = rw h (
        written-OnlyUnsupported c (to_upper cs (trim_space c.kind)) (trim_space c.name)
          (type_text c (to_upper cs (trim_space c.kind))))

    build_columns-OnlyUnsupported :
        (cols : List Column) (text : List ℕ)
        → All IsNamed cols
        → OnlyUnsupported (build_columns cs is_float cols text)
    unfolding build_columns
    build_columns-OnlyUnsupported [] text hs = tt
    build_columns-OnlyUnsupported (c ∷ cols) text (h, hs) =
        and_then-OnlyUnsupported (column_ddl cs is_float c) _ (column_ddl-OnlyUnsupported c h)
          (λ line. build_columns-OnlyUnsupported cols _ hs)

    build-OnlyUnsupported :
        (t : Table) → IsTable cs t → OnlyUnsupported (build_mssql_ddl cs is_float t)
    unfolding build_mssql_ddl
    build-OnlyUnsupported t (named, (user, e, users)) =
        let columns = subst (All IsNamed) (sym e) (
          All-append IsNamed default_audit_columns user default_audit_columns-IsNamed
            (IsUser-IsNamed user users)) in
        rw named (
          and_then-OnlyUnsupported (build_columns cs is_float t.columns _) _
            (build_columns-OnlyUnsupported t.columns _ columns) (λ text. tt))

    abbrev pub IsBuildable : Table → Type 0
    IsBuildable t = IsTable cs t × OnlyUnsupported (build_mssql_ddl cs is_float t)

    All-IsBuildable : (tables : List Table) → All (IsTable cs) tables → All IsBuildable tables
    All-IsBuildable [] hs = tt
    All-IsBuildable (t ∷ tables) (h, hs) =
        ((h, build-OnlyUnsupported t h), All-IsBuildable tables hs)

    -- For every workbook: where ReadFile gives tables, each has a name and the six audit columns,
    -- then the columns of its rows, each of which has a name that is none of the audit columns' and
    -- a type; and BuildMSSQLDDL gives its statement, or the error of a type that it does not
    -- support, and never the error of a table or a column without a name.
    pub read_sheets-IsBuildable :
        (sheets : List Sheet) → Gives (All IsBuildable) (read_sheets cs sheets [])
    read_sheets-IsBuildable sheets =
        Gives-weaken (All (IsTable cs)) (All IsBuildable) All-IsBuildable (read_sheets cs sheets [])
          (read_sheets-Gives cs sheets [] tt)
