-- ===== src/Excel/Ddl.antt =====
-- BuildMSSQLDDL and columnDDL of gobackendkit/schema/excelddl/excel.go.
use go_project.Base.{ℕ, List, [], ◌∷◌, ◌++◌, map, Bool, not, ◌&&◌, if◌then◌else◌}
use go_project.Base.Dict.{same}
use go_project.Text.{
  codes, is_empty, trim_space, has_prefix, replace_all, to_upper, one_of, ascii_upper, Casing,
}
use go_project.Excel.{Column, Table}

pub data DdlError : Type 0 where
  no_table_name no_column_name : DdlError
  unsupported : List ℕ → List ℕ → DdlError

pub data Ddl : Type 0 where
  built : List ℕ → Ddl
  failed : DdlError → Ddl

-- `if err != nil { return "", err }`
abbrev pub and_then : Ddl → (List ℕ → Ddl) → Ddl
and_then (built text) next = next text
and_then (failed e) next = failed e

-- What the switch writes: the whole column, its type, or nothing that is known.
pub data TypeText : Type 0 where
  whole : List ℕ → TypeText
  started : List ℕ → TypeText
  unknown : TypeText

-- strings.EqualFold with a text of the letters M, A and X, which fold to no others.
abbrev pub is_max : List ℕ → Bool
is_max s = same (map ascii_upper s) (codes "MAX")

abbrev pub identity_key : List ℕ
identity_key = codes "INT IDENTITY(1,1) PRIMARY KEY"

abbrev pub char_type : List ℕ → List ℕ
char_type size =
    if is_max size then codes "NVARCHAR(MAX)" else codes "NVARCHAR(" ++ (size ++ codes ")")

abbrev pub decimal_type : List ℕ → List ℕ
decimal_type size =
    if is_empty size then codes "DECIMAL(18,2)" else codes "DECIMAL(" ++ (size ++ codes ")")

unfoldable pub type_text : Column → List ℕ → TypeText
type_text c typ =
    if one_of typ (codes "INT" ∷ codes "INTEGER" ∷ [])
    then (if c.primary then whole identity_key else started (codes "INT"))
    else if same typ (codes "BIGINT")
    then started (codes "BIGINT")
    else if same typ (codes "SERIAL")
    then whole identity_key
    else if one_of typ (codes "VARCHAR" ∷ codes "NVARCHAR" ∷ [])
    then started (char_type (if is_empty c.size then codes "255" else c.size))
    else if same typ (codes "TEXT")
    then started (codes "NVARCHAR(MAX)")
    else if one_of typ (codes "BOOLEAN" ∷ codes "BOOL" ∷ codes "BIT" ∷ [])
    then started (codes "BIT")
    else if one_of typ (codes "TIMESTAMP" ∷ codes "DATETIME" ∷ codes "DATETIME2" ∷ [])
    then started (codes "DATETIME2")
    else if one_of typ (codes "DECIMAL" ∷ codes "NUMERIC" ∷ [])
    then started (decimal_type (replace_all b'.' (codes ",") c.size))
    else if same typ (codes "FLOAT")
    then started (codes "FLOAT")
    else if one_of typ (codes "JSON" ∷ codes "JSONB" ∷ [])
    then started (codes "NVARCHAR(MAX)")
    else unknown

-- `is_float`: strconv.ParseFloat takes the text for a number.
module _ (cs : Casing) (is_float : List ℕ → Bool) where
  unfoldable pub normalize_default : List ℕ → List ℕ → List ℕ
  normalize_default typ def =
      let d = trim_space def in
      let u = to_upper cs typ in
      if one_of u (codes "BIT" ∷ codes "BOOLEAN" ∷ codes "BOOL" ∷ [])
      then (if one_of d (codes "true" ∷ codes "TRUE" ∷ codes "1" ∷ [])
          then codes "1"
          else codes "0")
      else if one_of u (codes "NVARCHAR" ∷ codes "VARCHAR" ∷ codes "TEXT" ∷ [])
          && not (has_prefix d (codes "N'"))
          && not (has_prefix d (codes "'"))
          && not (is_float d)
      then codes "N'" ++ (replace_all b'\'' (codes "''") d ++ codes "'")
      else d

  -- What stands behind the type.
  abbrev pub constraints : Column → List ℕ → List ℕ
  constraints c typ =
      (if c.primary && not (one_of typ (codes "INT" ∷ codes "INTEGER" ∷ codes "SERIAL" ∷ []))
        then codes " PRIMARY KEY"
        else [])
      ++ ((if c.not_null then codes " NOT NULL" else [])
          ++ ((if c.unique then codes " UNIQUE" else [])
              ++ (if is_empty c.default
                  then []
                  else codes " DEFAULT " ++ normalize_default typ c.default)))

  -- The column's line, from its name and its type.
  abbrev pub written : Column → List ℕ → List ℕ → TypeText → Ddl
  written c typ name (whole text) = built (name ++ (codes " " ++ text))
  written c typ name (started text) = built (name ++ (codes " " ++ (text ++ constraints c typ)))
  written c typ name unknown = failed (unsupported typ name)

  unfoldable pub column_ddl : Column → Ddl
  column_ddl c =
      let name = trim_space c.name in
      let typ = to_upper cs (trim_space c.kind) in
      if is_empty name then failed no_column_name else written c typ name (type_text c typ)

  abbrev pub comma : List Column → List ℕ
  comma [] = []
  comma (c ∷ columns) = codes ","

  -- The loop over the columns; a comma behind each but the last.
  unfoldable pub build_columns : List Column → List ℕ → Ddl
  build_columns [] text = built text
  build_columns (c ∷ columns) text = and_then (column_ddl c) (λ line.
      build_columns columns (text ++ (codes "  " ++ (line ++ (comma columns ++ codes "\n")))))

  unfoldable pub build_mssql_ddl : Table → Ddl
  build_mssql_ddl t =
      if is_empty (trim_space t.name)
      then failed no_table_name
      else and_then (build_columns t.columns (codes "CREATE TABLE " ++ (t.name ++ codes " (\n")))
          (λ text. built (text ++ codes ")"))
