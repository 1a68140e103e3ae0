-- ===== src/Dialect/Render.antt =====
-- Render and ConvertDDL of gobackendkit/dialect: SQL in the style of SQL Server, rewritten for
-- PostgreSQL by the regular expressions of postgres_render.go.
use go_project.Base.{
  ℕ, zero, suc, ◌+◌, List, [], ◌∷◌, ◌++◌, none, some, Bool, not, ◌&&◌, ◌||◌, ◌==◌, if◌then◌else◌,
}
use go_project.Base.Dict.{same}
use go_project.Dialect.{sqlserver}
use go_project.Dialect.Patterns.{
  placeholder_re, is_null_re, get_date_re, sys_utc_re, unicode_str_re, select_top_re,
  identity_pk_re, nvarchar_max_re, nvarchar_re, date_time2_re, date_time_re, bit_not_null_re,
  bit_default0_re, add_bit_re, add_nvarchar_re, add_nvarchar_max_re, constraint_default_re,
  bool_col_eq0_re, bool_col_eq1_re, coalesce_bool0_re, coalesce_eq0_re, insert_tpl_true_re,
  insert_tail_zero_re, offset_fetch_re, cast_nvarchar_re, coalesce_content_re,
  coalesce_inner_col_re,
}
use go_project.Regexp.{Re, Groups, group_text, find_submatch, replace_matches}
use go_project.Text.{
  codes, is_empty, trim_space, trim_right_of, contains, has_prefix, after_last, to_upper, to_lower,
  one_of, Casing,
}
use go_project.Text.Decimal.{print_int}

-- The replacements: a fixed text, and one around the text of a group.
abbrev pub by_text : List ℕ → List ℕ → Groups → List ℕ
by_text text match g = text

abbrev pub by_group : ℕ → List ℕ → List ℕ → List ℕ → Groups → List ℕ
by_group n before after match g = before ++ (group_text n g ++ after)

abbrev pub by_two : ℕ → ℕ → List ℕ → List ℕ → List ℕ → List ℕ → Groups → List ℕ
by_two n m before between after match g =
    before ++ (group_text n g ++ (between ++ (group_text m g ++ after)))

-- A function that looks for the expression again in the text of the match.
abbrev pub again : Re → (List ℕ → Groups → List ℕ) → List ℕ → Groups → List ℕ
again re f match g = elim (find_submatch re match) [ none ↦ match | some h ↦ f match h ]

-- The placeholders without a number are numbered from `i` on.
abbrev pub number_bare : ℕ → List ℕ → List ℕ
number_bare i [] = []
number_bare i (c ∷ s) =
    let numbered = b'$' ∷ (print_int i ++ number_bare (i + 1) s) in
    let rest = c ∷ number_bare i s in if c == b'?' then numbered else rest

unfoldable pub bare_placeholders : List ℕ → List ℕ
bare_placeholders q =
    if contains q (codes "?") && not (contains q (codes "$")) then number_bare 1 q else q

abbrev pub is_cut : ℕ → Bool
is_cut c = (c == b';') || (c == 32) || (c == 9) || (c == 13) || (c == 10)

module _ (cs : Casing) where
  unfoldable pub is_pgsql_bool_column : List ℕ → Bool
  is_pgsql_bool_column column =
      let col = to_lower cs (trim_space column) in
      let name = after_last b'.' col col in
      has_prefix name (codes "is_")
      && not (one_of name (codes "is_completed" ∷ codes "is_selected" ∷ []))

  -- What stands for a match on a column that is no BIT.
  abbrev pub for_column : List ℕ → List ℕ → List ℕ → Groups → List ℕ
  for_column before after match g =
      if is_pgsql_bool_column (group_text 1 g) then before ++ (group_text 1 g ++ after) else match

  abbrev pub for_inner_column : List ℕ → Groups → List ℕ
  for_inner_column match g = elim (find_submatch coalesce_inner_col_re (group_text 1 g)) [
    | none ↦ match
    | some h ↦
        if is_pgsql_bool_column (group_text 1 h) then group_text 1 g ++ codes " = false" else match
  ]

  unfoldable pub replace_bool_comparisons : List ℕ → List ℕ
  replace_bool_comparisons q =
      let q1 =
        replace_matches bool_col_eq0_re (again bool_col_eq0_re (for_column [] (codes " = false")))
          q in
      let q2 =
        replace_matches bool_col_eq1_re (again bool_col_eq1_re (for_column [] (codes " = true")))
          q1 in
      let q3 =
        replace_matches coalesce_bool0_re
          (again coalesce_bool0_re (for_column (codes "COALESCE(") (codes ", false)"))) q2 in
      replace_matches coalesce_eq0_re (again coalesce_eq0_re for_inner_column) q3

  -- SELECT TOP n: the number goes to the end, unless there is a LIMIT.
  unfoldable pub select_top : List ℕ → List ℕ
  select_top q = elim (find_submatch select_top_re q) [
    | none ↦ q
    | some g ↦
        let rest = replace_matches select_top_re (by_text (group_text 1 g ++ codes " ")) q in
        if contains (to_upper cs rest) (codes " LIMIT ")
        then rest
        else trim_right_of is_cut rest ++ (codes " LIMIT " ++ group_text 2 g)
  ]

  unfoldable pub bool_inserts : List ℕ → List ℕ
  bool_inserts q =
      let filled = replace_matches insert_tpl_true_re (by_group 1 [] (codes " true,")) q in
      if contains (to_upper cs filled) (codes "IS_DELETE")
        || contains (to_upper cs filled) (codes "IS_ACTIVE")
      then replace_matches insert_tail_zero_re (by_text (codes ", false)")) filled
      else filled

  -- The calls and the literals.
  unfoldable pub sql_functions : List ℕ → List ℕ
  sql_functions q =
      let q1 = replace_matches placeholder_re (by_group 1 (codes "$") []) q in
      let q2 = replace_matches is_null_re (by_text (codes "COALESCE(")) q1 in
      let q3 =
        replace_matches coalesce_content_re (by_text (codes "COALESCE(content::text, '')")) q2 in
      let q4 = replace_matches get_date_re (by_text (codes "CURRENT_TIMESTAMP")) q3 in
      let q5 = replace_matches sys_utc_re (by_text (codes "CURRENT_TIMESTAMP")) q4 in
      replace_matches unicode_str_re (by_text (codes "'")) q5

  -- The page and the casts.
  unfoldable pub page_and_casts : List ℕ → List ℕ
  page_and_casts q =
      let q1 =
        replace_matches offset_fetch_re
          (again offset_fetch_re (by_two 2 1 (codes " LIMIT ") (codes " OFFSET ") [])) q in
      replace_matches cast_nvarchar_re
        (by_two 1 2 (codes "CAST(") (codes " AS VARCHAR(") (codes "))")) q1

  unfoldable pub normalize_postgres_query : List ℕ → List ℕ
  normalize_postgres_query query =
      let q = trim_space query in
      if is_empty q
      then q
      else page_and_casts (
          bare_placeholders
            (bool_inserts (replace_bool_comparisons (sql_functions (select_top q)))))

  -- strings.ReplaceAll of "ADD COLUMN COLUMN" by "ADD COLUMN".
  abbrev pub once_column : ℕ → List ℕ → List ℕ
  once_column skip [] = []
  once_column (suc skip) (c ∷ s) = once_column skip s
  once_column zero (c ∷ s) =
      let replaced = codes "ADD COLUMN" ++ once_column 16 s in
      let rest = c ∷ once_column zero s in
      if has_prefix (c ∷ s) (codes "ADD COLUMN COLUMN") then replaced else rest

  -- The types, in the order of the source.
  unfoldable pub convert_types : List ℕ → List ℕ
  convert_types q =
      let q1 = replace_matches identity_pk_re (by_text (codes "SERIAL PRIMARY KEY")) q in
      let q2 = replace_matches nvarchar_max_re (by_text (codes "TEXT")) q1 in
      let q3 = replace_matches nvarchar_re (by_group 1 (codes "VARCHAR(") (codes ")")) q2 in
      let q4 = replace_matches date_time2_re (by_text (codes "TIMESTAMP")) q3 in
      let q5 = replace_matches date_time_re (by_text (codes "TIMESTAMP")) q4 in
      let q6 =
        replace_matches bit_default0_re (by_text (codes "BOOLEAN NOT NULL DEFAULT FALSE")) q5 in
      replace_matches bit_not_null_re (by_text (codes "BOOLEAN NOT NULL DEFAULT FALSE")) q6

  unfoldable pub convert_values : List ℕ → List ℕ
  convert_values q =
      let q1 = replace_matches get_date_re (by_text (codes "CURRENT_TIMESTAMP")) q in
      let q2 = replace_matches sys_utc_re (by_text (codes "CURRENT_TIMESTAMP")) q1 in
      replace_matches unicode_str_re (by_text (codes "'")) q2

  unfoldable pub convert_additions : List ℕ → List ℕ
  convert_additions q =
      let q1 =
        replace_matches add_bit_re
          (by_group 1 (codes "ADD COLUMN ") (codes " BOOLEAN NOT NULL DEFAULT FALSE")) q in
      let q2 =
        replace_matches add_nvarchar_max_re (by_group 1 (codes "ADD COLUMN ") (codes " TEXT")) q1 in
      let q3 =
        replace_matches add_nvarchar_re
          (by_two 1 2 (codes "ADD COLUMN ") (codes " VARCHAR(") (codes ")")) q2 in
      let q4 = replace_matches constraint_default_re (by_text []) q3 in once_column zero q4

  unfoldable pub convert_ddl_to_postgres : List ℕ → List ℕ
  convert_ddl_to_postgres ddl =
      replace_bool_comparisons (convert_additions (convert_values (convert_types ddl)))

  -- Render and ConvertDDL of the dialect of a kind.
  unfoldable pub render : List ℕ → List ℕ → List ℕ
  render kind query = if same kind sqlserver then query else normalize_postgres_query query

  unfoldable pub convert_ddl : List ℕ → List ℕ → List ℕ
  convert_ddl kind ddl = if same kind sqlserver then ddl else convert_ddl_to_postgres ddl

  -- SQL, by the kind that is set.
  abbrev pub sql : List ℕ → List ℕ → List ℕ
  sql current_kind query = render current_kind query
