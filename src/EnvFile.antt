-- ===== src/EnvFile.antt =====
-- The configuration files of KEY=VALUE lines: loadEnvDB of gobackendkit/cmd/excelddl/main.go. The
-- file's contents are an argument, `none` where the file cannot be read.
pub mod Quickstart
pub mod Fields
pub mod Last
pub mod Printed
use go_project.Base.{
  ℕ, ◌+◌, ◌-◌, ◌*◌, ◌%◌, ◌^◌, List, [], ◌∷◌, Option, none, some, Bool, true, false, not, ◌&&◌, ◌||◌,
  ◌==◌, leb, ltb, if◌then◌else◌,
}
use go_project.Base.Dict.{same}
use go_project.Text.{codes, is_empty, trim_space, has_prefix, to_lower, one_of, Casing}

-- DBConfig; the port is the bit pattern of an int.
pub record DbConfig : Type 0 where
  pub host : List ℕ
  pub port : ℕ
  pub user : List ℕ
  pub password : List ℕ
  pub db_name : List ℕ

-- What the function keeps: its `cfg` and its `dbType`.
pub record Settings : Type 0 where
  pub config : DbConfig
  pub db_type : List ℕ

abbrev pub default_config : DbConfig
default_config = record {
  host = codes "127.0.0.1";
  port = 5432;
  user = codes "postgres";
  password = [];
  db_name = codes "postgres";
}

abbrev pub default_settings : Settings
default_settings = record { config = default_config; db_type = codes "postgresql" }

-- strings.Split at one code point.
abbrev prepend : ℕ → List (List ℕ) → List (List ℕ)
prepend c [] = (c ∷ []) ∷ []
prepend c (part ∷ parts) = (c ∷ part) ∷ parts

unfoldable pub split : ℕ → List ℕ → List (List ℕ)
split sep [] = [] ∷ []
split sep (c ∷ s) = let rest = split sep s in if c == sep then [] ∷ rest else prepend c rest

-- strings.Cut at one code point, `none` where strings.Contains finds none.
abbrev with_first : ℕ → Option (List ℕ × List ℕ) → Option (List ℕ × List ℕ)
with_first c none = none
with_first c (some (k, v)) = some (c ∷ k, v)

unfoldable pub cut : ℕ → List ℕ → Option (List ℕ × List ℕ)
cut sep [] = none
cut sep (c ∷ s) = let rest = cut sep s in if c == sep then some ([], s) else with_first c rest

-- strings.Trim of quotation marks
abbrev pub is_quote : ℕ → Bool
is_quote c = (c == 34) || (c == 39)

abbrev pub trim_left_quotes : List ℕ → List ℕ
trim_left_quotes [] = []
trim_left_quotes (c ∷ s) = let rest = trim_left_quotes s in if is_quote c then rest else c ∷ s

abbrev put_quoted : ℕ → List ℕ → List ℕ
put_quoted c [] = if is_quote c then [] else c ∷ []
put_quoted c (d ∷ s) = c ∷ d ∷ s

abbrev pub trim_right_quotes : List ℕ → List ℕ
trim_right_quotes [] = []
trim_right_quotes (c ∷ s) = put_quoted c (trim_right_quotes s)

unfoldable pub trim_quotes : List ℕ → List ℕ
trim_quotes s = trim_right_quotes (trim_left_quotes s)

-- strconv.Atoi: a sign, then digits; `none` for another text and for a number out of range.
abbrev digits_value : ℕ → List ℕ → Option ℕ
digits_value v [] = some v
digits_value v (c ∷ s) =
    let rest = digits_value (v * 10 + (c - b'0')) s in
    if leb b'0' c && leb c b'9' then rest else none

abbrev some_digits : List ℕ → Option ℕ
some_digits [] = none
some_digits (c ∷ s) = digits_value 0 (c ∷ s)

abbrev positive : Option ℕ → Option ℕ
positive none = none
positive (some v) = if ltb v (2 ^ 63) then some v else none

abbrev negative : Option ℕ → Option ℕ
negative none = none
negative (some v) = if leb v (2 ^ 63) then some ((2 ^ 64 - v) % 2 ^ 64) else none

unfoldable pub atoi : List ℕ → Option ℕ
atoi [] = none
atoi (c ∷ s) =
    if c == b'-'
    then negative (some_digits s)
    else if c == b'+'
    then positive (some_digits s)
    else positive (some_digits (c ∷ s))

-- The key and the value of a line, `none` where the loop goes on with the next.
abbrev pair_of : Option (List ℕ × List ℕ) → Option (List ℕ × List ℕ)
pair_of none = none
pair_of (some (k, v)) = some (trim_space k, trim_quotes (trim_space v))

unfoldable pub assignment : List ℕ → Option (List ℕ × List ℕ)
assignment text =
    let line = trim_space text in
    if is_empty line || has_prefix line (codes "#") then none else pair_of (cut b'=' line)

-- The type of database as written: in lower case, `postgres` for `postgresql`.
abbrev pub normal_type : Casing → List ℕ → List ℕ
normal_type cs v =
    let t = to_lower cs v in if same t (codes "postgres") then codes "postgresql" else t

abbrev pub with_port : Option ℕ → DbConfig → DbConfig
with_port none c = c
with_port (some p) c = record c { port = p }

-- The cases of the switch over the keys.
pub data Field : Type 0 where
  for_host for_port for_user for_password for_db_name for_db_type for_none : Field

unfoldable pub field_of : List ℕ → Field
field_of k =
    if one_of k (codes "ERP_DB_HOST" ∷ codes "DB_HOST" ∷ [])
    then for_host
    else if one_of k (codes "ERP_DB_PORT" ∷ codes "DB_PORT" ∷ [])
    then for_port
    else if one_of k (codes "ERP_DB_USER" ∷ codes "DB_USER" ∷ [])
    then for_user
    else if one_of k (codes "ERP_DB_PASSWORD" ∷ codes "DB_PASSWORD" ∷ [])
    then for_password
    else if one_of k (codes "ERP_DB_NAME" ∷ codes "DB_NAME" ∷ [])
    then for_db_name
    else if one_of k (codes "ERP_DB_TYPE" ∷ codes "DB_TYPE" ∷ [])
    then for_db_type
    else for_none

module _ (cs : Casing) where
  -- What each of them sets.
  abbrev pub set : Field → List ℕ → Settings → Settings
  set for_host v s = record s { config = record s.config { host = v } }
  set for_port v s = record s { config = with_port (atoi v) s.config }
  set for_user v s = record s { config = record s.config { user = v } }
  set for_password v s = record s { config = record s.config { password = v } }
  set for_db_name v s = record s { config = record s.config { db_name = v } }
  set for_db_type v s = record s { db_type = normal_type cs v }
  set for_none v s = s

  abbrev pub set_pair : Option (List ℕ × List ℕ) → Settings → Settings
  set_pair none s = s
  set_pair (some (k, v)) s = set (field_of k) v s

  -- The loop over the lines.
  unfoldable pub set_lines : List (List ℕ) → Settings → Settings
  set_lines [] s = s
  set_lines (line ∷ lines) s = set_lines lines (set_pair (assignment line) s)

  -- The settings, and whether the file was read.
  unfoldable pub load_env_db : Option (List ℕ) → Settings × Bool
  load_env_db none = (default_settings, false)
  load_env_db (some text) = (set_lines (split b'\n' text) default_settings, true)
