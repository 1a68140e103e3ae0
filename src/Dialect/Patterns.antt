-- ===== src/Dialect/Patterns.antt =====
-- The regular expressions of gobackendkit/dialect/postgres_render.go.
use Prim.Native.String.{String}
use go_project.Base.{ℕ, ◌+◌, List, [], ◌∷◌, ◌&&◌, leb, if◌then◌else◌}
use go_project.Regexp.{
  Class, exact, fold, space, digit, word, none_of, Re, one, many, few, seq, either, maybe, group,
  edge, start_of_text, end_of_text, nothing,
}
use go_project.Text.{codes}

abbrev pub row : List Re → Re
row [] = nothing
row (r ∷ []) = r
row (r ∷ (q ∷ rs)) = seq r (row (q ∷ rs))

-- A code point under the flag i.
abbrev pub folded : ℕ → Class
folded c =
    if leb b'a' c && leb c b'z'
    then fold c
    else if leb b'A' c && leb c b'Z'
    then fold (c + 32)
    else exact c

abbrev ones : (ℕ → Class) → List ℕ → List Re
ones f [] = []
ones f (c ∷ s) = one (f c) ∷ ones f s

-- A text under the flag i, and one without it.
abbrev pub any_case : String → Re
any_case s = row (ones folded (codes s))

abbrev pub plain : String → Re
plain s = row (ones exact (codes s))

abbrev pub some_of : Class → Re
some_of cl = seq (one cl) (many cl)

abbrev pub spaces : Re
spaces = many space

abbrev pub numeral : Re
numeral = some_of digit

-- `(?:\w+\.)?is_\w+`
abbrev pub qualifier : Re
qualifier = maybe (seq (some_of word) (plain "."))

abbrev pub bool_column : Re
bool_column = seq qualifier (seq (any_case "is_") (some_of word))

-- `NAME\s*\(`
abbrev pub call : String → Re
call name = row (any_case name ∷ spaces ∷ plain "(" ∷ [])

abbrev pub placeholder_re : Re
placeholder_re = seq (plain "?") (group 1 numeral)

abbrev pub is_null_re : Re
is_null_re = seq edge (call "ISNULL")

abbrev pub get_date_re : Re
get_date_re = row (edge ∷ call "GETDATE" ∷ spaces ∷ plain ")" ∷ [])

abbrev pub sys_utc_re : Re
sys_utc_re = row (edge ∷ call "SYSUTCDATETIME" ∷ spaces ∷ plain ")" ∷ [])

abbrev pub unicode_str_re : Re
unicode_str_re = seq edge (plain "N'")

abbrev pub select_top_re : Re
select_top_re = row (
    start_of_text
    ∷ group 1 (seq spaces (any_case "SELECT"))
    ∷ some_of space
    ∷ any_case "TOP"
    ∷ some_of space
    ∷ group 2 numeral
    ∷ some_of space
    ∷ [])

abbrev pub identity_pk_re : Re
identity_pk_re = row (
    any_case "INT"
    ∷ some_of space
    ∷ call "IDENTITY"
    ∷ spaces
    ∷ plain "1"
    ∷ spaces
    ∷ plain ","
    ∷ spaces
    ∷ plain "1"
    ∷ spaces
    ∷ plain ")"
    ∷ some_of space
    ∷ any_case "PRIMARY"
    ∷ some_of space
    ∷ any_case "KEY"
    ∷ [])

abbrev pub nvarchar_max_re : Re
nvarchar_max_re = row (call "NVARCHAR" ∷ spaces ∷ any_case "MAX" ∷ spaces ∷ plain ")" ∷ [])

-- `NVARCHAR\s*\(\s*(\d+)\s*\)`, with the number of the group.
abbrev pub sized_nvarchar : ℕ → Re
sized_nvarchar n = row (call "NVARCHAR" ∷ spaces ∷ group n numeral ∷ spaces ∷ plain ")" ∷ [])

abbrev pub nvarchar_re : Re
nvarchar_re = sized_nvarchar 1

abbrev pub date_time2_re : Re
date_time2_re = any_case "DATETIME2"

abbrev pub date_time_re : Re
date_time_re = row (edge ∷ any_case "DATETIME" ∷ edge ∷ [])

-- `BIT\s+NOT\s+NULL`
abbrev pub bit_not_null_re : Re
bit_not_null_re =
    row (any_case "BIT" ∷ some_of space ∷ any_case "NOT" ∷ some_of space ∷ any_case "NULL" ∷ [])

abbrev pub default_zero : Re
default_zero = row (any_case "DEFAULT" ∷ some_of space ∷ plain "0" ∷ [])

abbrev pub bit_default0_re : Re
bit_default0_re = row (bit_not_null_re ∷ some_of space ∷ default_zero ∷ [])

-- `ADD\s+(\w+)\s+`
abbrev pub add_column : Re
add_column = row (any_case "ADD" ∷ some_of space ∷ group 1 (some_of word) ∷ some_of space ∷ [])

abbrev pub add_bit_re : Re
add_bit_re = row (
    add_column
    ∷ bit_not_null_re
    ∷ some_of space
    ∷ any_case "CONSTRAINT"
    ∷ some_of space
    ∷ some_of word
    ∷ some_of space
    ∷ default_zero
    ∷ [])

abbrev pub add_nvarchar_re : Re
add_nvarchar_re = seq add_column (sized_nvarchar 2)

abbrev pub add_nvarchar_max_re : Re
add_nvarchar_max_re = seq add_column nvarchar_max_re

abbrev pub constraint_default_re : Re
constraint_default_re = row (
    some_of space
    ∷ any_case "CONSTRAINT"
    ∷ some_of space
    ∷ some_of word
    ∷ some_of space
    ∷ any_case "DEFAULT"
    ∷ some_of space
    ∷ some_of (none_of (b',' ∷ b')' ∷ []))
    ∷ [])

-- `\b(…)\s*=\s*0\b`, and the same with 1.
abbrev pub column_is : String → Re
column_is value =
    row (edge ∷ group 1 bool_column ∷ spaces ∷ plain "=" ∷ spaces ∷ plain value ∷ edge ∷ [])

abbrev pub bool_col_eq0_re : Re
bool_col_eq0_re = column_is "0"

abbrev pub bool_col_eq1_re : Re
bool_col_eq1_re = column_is "1"

abbrev pub coalesce_bool0_re : Re
coalesce_bool0_re = row (
    call "COALESCE"
    ∷ spaces
    ∷ group 1 bool_column
    ∷ spaces
    ∷ plain ","
    ∷ spaces
    ∷ plain "0"
    ∷ spaces
    ∷ plain ")"
    ∷ [])

abbrev pub coalesce_eq0_re : Re
coalesce_eq0_re = row (
    group 1
      (row (call "COALESCE" ∷ spaces ∷ bool_column ∷ many (none_of (b')' ∷ [])) ∷ plain ")" ∷ []))
    ∷ spaces
    ∷ plain "="
    ∷ spaces
    ∷ plain "0"
    ∷ edge
    ∷ [])

-- `\$\d+` and the spaces around it.
abbrev argument : Re
argument = row (spaces ∷ plain "$" ∷ numeral ∷ spaces ∷ plain "," ∷ [])

abbrev pub insert_tpl_true_re : Re
insert_tpl_true_re = row (
    group 1 (row (call "VALUES" ∷ argument ∷ argument ∷ argument ∷ []))
    ∷ spaces
    ∷ plain "1"
    ∷ spaces
    ∷ plain ","
    ∷ [])

abbrev pub insert_tail_zero_re : Re
insert_tail_zero_re =
    row (plain "," ∷ spaces ∷ plain "0" ∷ spaces ∷ plain ")" ∷ spaces ∷ end_of_text ∷ [])

-- `\?\d+|\$\d+|\d+`
abbrev count : Re
count = either (seq (plain "?") numeral) (either (seq (plain "$") numeral) numeral)

abbrev pub offset_fetch_re : Re
offset_fetch_re = row (
    some_of space
    ∷ any_case "OFFSET"
    ∷ some_of space
    ∷ group 1 count
    ∷ some_of space
    ∷ any_case "ROWS"
    ∷ some_of space
    ∷ any_case "FETCH"
    ∷ some_of space
    ∷ any_case "NEXT"
    ∷ some_of space
    ∷ group 2 count
    ∷ some_of space
    ∷ any_case "ROWS"
    ∷ some_of space
    ∷ any_case "ONLY"
    ∷ [])

abbrev pub cast_nvarchar_re : Re
cast_nvarchar_re = row (
    call "CAST"
    ∷ spaces
    ∷ group 1 (seq (one (none_of (b')' ∷ []))) (few (none_of (b')' ∷ []))))
    ∷ some_of space
    ∷ any_case "AS"
    ∷ some_of space
    ∷ sized_nvarchar 2
    ∷ plain ")"
    ∷ [])

abbrev pub coalesce_content_re : Re
coalesce_content_re = row (
    call "COALESCE"
    ∷ spaces
    ∷ any_case "content"
    ∷ spaces
    ∷ plain ","
    ∷ spaces
    ∷ plain "''"
    ∷ spaces
    ∷ plain ")"
    ∷ [])

abbrev pub coalesce_inner_col_re : Re
coalesce_inner_col_re = seq qualifier (group 1 (seq (any_case "is_") (some_of word)))
