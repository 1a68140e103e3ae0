-- ===== src/Excel.antt =====
-- gobackendkit/schema/excelddl: tables that are described in the sheets of a workbook, and their
-- CREATE TABLE statements. The package excelize, which opens the workbook, is left out: a sheet is
-- its name and its rows. Text is the list of its code points.
pub mod Sheets
pub mod Ddl
pub mod Tables
pub mod Buildable
pub mod Command
pub mod Main
use go_project.Base.{ℕ, List, [], ◌∷◌, Bool, true, false}
use go_project.Text.{codes}

pub record Column : Type 0 where
  pub comment : List ℕ
  pub name : List ℕ
  pub kind : List ℕ
  pub size : List ℕ
  pub not_null : Bool
  pub unique : Bool
  pub primary : Bool
  pub default : List ℕ

pub record Table : Type 0 where
  pub name : List ℕ
  pub columns : List Column

abbrev column : List ℕ → List ℕ → List ℕ → Bool → Bool → List ℕ → List ℕ → Column
column name kind size not_null primary default comment = record {
  comment = comment;
  name = name;
  kind = kind;
  size = size;
  not_null = not_null;
  unique = false;
  primary = primary;
  default = default;
}

unfoldable pub default_audit_columns : List Column
default_audit_columns =
    column (codes "id") (codes "INT") [] false true [] (codes "主键")
    ∷ column (codes "create_time") (codes "TIMESTAMP") [] true false [] (codes "创建时间")
    ∷ column (codes "create_user") (codes "NVARCHAR") (codes "64") true false (codes "''")
        (codes "创建人")
    ∷ column (codes "update_time") (codes "TIMESTAMP") [] true false [] (codes "更新时间")
    ∷ column (codes "update_user") (codes "NVARCHAR") (codes "64") true false (codes "''")
        (codes "更新人")
    ∷ column (codes "is_delete") (codes "BIT") [] true false (codes "0") (codes "软删")
    ∷ []

abbrev pub audit_names : List (List ℕ)
audit_names =
    codes "id"
    ∷ codes "create_time"
    ∷ codes "create_user"
    ∷ codes "update_time"
    ∷ codes "update_user"
    ∷ codes "is_delete"
    ∷ []
