-- ===== src/Dialect/Flags.antt =====
-- Render of gobackendkit/dialect on the comparisons that BoolBitEq and NotDeleted write.
use go_project.Base.{
  ℕ, ◌≡◌, refl, List, [], ◌++◌, Bool, true, false, if◌then◌else◌, arith, Bool-cases, inl, inr, ◌∙◌,
}
use go_project.Text.{codes, is_empty, Casing}
use go_project.Regexp.{exact, space, Groups, replace_matches, seq, edge, group, many}
use go_project.Regexp.Absent.{IsShort, Lacks, Lacks-append, IsShort-Lacks, Lacks-replace_matches}
use go_project.Regexp.Matching.{replace_matches_whole, find_submatch_first}
use go_project.Dialect.Patterns.{column_is, coalesce_eq0_re, coalesce_bool0_re, bool_column, plain}
use go_project.Dialect.Columns.{IsWord, flag_column, bit_digit, equals_bit, match_column}
use go_project.Dialect.Quiet.{
  IsQuiet, sql_functions_quiet, select_top_quiet, bool_inserts_quiet, bare_placeholders_quiet,
  page_and_casts_quiet, coalesces_quiet,
}
use go_project.Dialect.Render.{
  page_and_casts, bare_placeholders, bool_inserts, again, for_column, for_inner_column,
  is_pgsql_bool_column, replace_bool_comparisons, normalize_postgres_query,
}
use go_project.Dialect.Comparison.{
  equals_bool, flag_column-IsName, IsName-IsQuiet, no_equals, not_empty, IsTail, IsTail-IsQuiet,
  bit_trimmed, bool_trimmed, no_digit,
}

-- The step of replace_bool_comparisons for the value that the column is compared with.
module _ (cs : Casing) (alias name : List ℕ) (h : IsWord alias) (k : IsWord name)
    (e : is_empty name ≡ false) where
  abbrev flag : List ℕ
  flag = flag_column alias name

  compared :
      (value : Bool) (after : List ℕ)
      → replace_matches
          (column_is (bit_digit value))
          (again (column_is (bit_digit value)) (for_column cs [] after))
          (flag ++ equals_bit value)
        ≡ (if is_pgsql_bool_column cs flag then flag ++ after else flag ++ equals_bit value)
  compared value after =
      let m = match_column alias name value h k e in
      replace_matches_whole (column_is (bit_digit value)) _ (flag ++ equals_bit value) _
        (not_empty alias name (equals_bit value)) m
      ∙ rw
          (
            find_submatch_first (column_is (bit_digit value)) (flag ++ equals_bit value) [] _ m,
            again,
          )
          refl

  one_lacking :
      (f : List ℕ → Groups → List ℕ) (t : List ℕ)
      → Lacks b'=' b'1' t
      → replace_matches (column_is "1") f (flag ++ t) ≡ flag ++ t
  one_lacking f t l =
      Lacks-replace_matches b'=' b'1' edge (group 1 bool_column) (many space)
        (seq (many space) (seq (plain "1") edge)) f (flag ++ t) (omega arith)
        (Lacks-append b'=' b'1' flag t (no_equals flag (flag_column-IsName alias name h k)) l)

  zero_lacking :
      (f : List ℕ → Groups → List ℕ) (t : List ℕ)
      → Lacks b'=' b'0' t
      → replace_matches (column_is "0") f (flag ++ t) ≡ flag ++ t
  zero_lacking f t l =
      Lacks-replace_matches b'=' b'0' edge (group 1 bool_column) (many space)
        (seq (many space) (seq (plain "0") edge)) f (flag ++ t) (omega arith)
        (Lacks-append b'=' b'0' flag t (no_equals flag (flag_column-IsName alias name h k)) l)

  flag-IsQuiet : (t : List ℕ) → IsQuiet t → IsQuiet (flag ++ t)
  flag-IsQuiet t q = IsName-IsQuiet flag t (flag_column-IsName alias name h k) q

  -- What either step leaves passes the other and the two of COALESCE.
  settled :
      (t : List ℕ)
      → IsTail t
      → replace_matches coalesce_eq0_re (again coalesce_eq0_re (for_inner_column cs)) (
          replace_matches coalesce_bool0_re
            (again coalesce_bool0_re (for_column cs (codes "COALESCE(") (codes ", false)")))
            (flag ++ t))
        ≡ flag ++ t
  settled t q = coalesces_quiet cs _ _ (flag ++ t) (flag-IsQuiet t (IsTail-IsQuiet t q))

  false_flag :
      replace_bool_comparisons cs (flag ++ codes " = 0")
      ≡ (if is_pgsql_bool_column cs flag then flag ++ codes " = false" else flag ++ codes " = 0")
  unfolding replace_bool_comparisons
  false_flag =
      let pass = λ (t : List ℕ) (s : IsShort (exact b'1') 1 t).
        one_lacking (again (column_is "1") (for_column cs [] (codes " = true"))) t
          (IsShort-Lacks b'=' b'1' t s) in
      elim (Bool-cases (is_pgsql_bool_column cs flag)) [
        | inl b ↦
            rw (compared false (codes " = false"), b, pass (codes " = false") (omega arith))
              (settled (codes " = false") (refl, omega arith))
        | inr b ↦
            rw (compared false (codes " = false"), b, pass (codes " = 0") (omega arith))
              (settled (codes " = 0") (refl, omega arith))
      ]

  true_flag :
      replace_bool_comparisons cs (flag ++ codes " = 1")
      ≡ (if is_pgsql_bool_column cs flag then flag ++ codes " = true" else flag ++ codes " = 1")
  unfolding replace_bool_comparisons
  true_flag =
      let pass =
        zero_lacking (again (column_is "0") (for_column cs [] (codes " = false"))) (codes " = 1")
          (IsShort-Lacks b'=' b'0' (codes " = 1") (omega arith)) in
      elim (Bool-cases (is_pgsql_bool_column cs flag)) [
        | inl b ↦
            rw (pass, compared true (codes " = true"), b)
              (settled (codes " = true") (refl, omega arith))
        | inr b ↦
            rw (pass, compared true (codes " = true"), b)
              (settled (codes " = 1") (refl, omega arith))
      ]

  equals_bit-IsTail : (value : Bool) → IsTail (equals_bit value)
  equals_bit-IsTail true = (refl, omega arith)
  equals_bit-IsTail false = (refl, omega arith)

  equals_bool-IsTail : (value : Bool) → IsTail (equals_bool value)
  equals_bool-IsTail true = (refl, omega arith)
  equals_bool-IsTail false = (refl, omega arith)

  any_flag :
      (value : Bool)
      → replace_bool_comparisons cs (flag ++ equals_bit value) ≡ (
          if is_pgsql_bool_column cs flag
          then flag ++ equals_bool value
          else flag ++ equals_bit value)
  any_flag true = true_flag
  any_flag false = false_flag

  -- What is left to do behind the comparisons.
  passes :
      (t : List ℕ)
      → IsTail t
      → page_and_casts cs (bare_placeholders (bool_inserts cs (flag ++ t))) ≡ flag ++ t
  passes t q =
      let k = flag-IsQuiet t (IsTail-IsQuiet t q) in
      rw (bool_inserts_quiet cs (flag ++ t) k, bare_placeholders_quiet (flag ++ t) k)
        (page_and_casts_quiet cs (flag ++ t) k)

  pub normalized :
      (value : Bool)
      → normalize_postgres_query cs (flag ++ equals_bit value) ≡ (
          if is_pgsql_bool_column cs flag
          then flag ++ equals_bool value
          else flag ++ equals_bit value)
  unfolding normalize_postgres_query
  normalized value =
      let k =
        flag-IsQuiet (equals_bit value)
          (IsTail-IsQuiet (equals_bit value) (equals_bit-IsTail value)) in
      rw
        (
          bit_trimmed alias name value h,
          not_empty alias name (equals_bit value),
          select_top_quiet cs (flag ++ equals_bit value) k,
          sql_functions_quiet cs (flag ++ equals_bit value) k,
          any_flag value,
        )
        (elim (Bool-cases (is_pgsql_bool_column cs flag)) [
          | inl b ↦ rw b (passes (equals_bool value) (equals_bool-IsTail value))
          | inr b ↦ rw b (passes (equals_bit value) (equals_bit-IsTail value))
        ])

  -- A comparison with a truth value is left as it is.
  pub normalized_bool :
      (value : Bool)
      → normalize_postgres_query cs (flag ++ equals_bool value) ≡ flag ++ equals_bool value
  unfolding normalize_postgres_query replace_bool_comparisons
  normalized_bool value =
      let s = flag ++ equals_bool value in
      let k =
        flag-IsQuiet (equals_bool value)
          (IsTail-IsQuiet (equals_bool value) (equals_bool-IsTail value)) in
      rw
        (
          bool_trimmed alias name value h,
          not_empty alias name (equals_bool value),
          select_top_quiet cs s k,
          sql_functions_quiet cs s k,
          zero_lacking (again (column_is "0") (for_column cs [] (codes " = false")))
              (equals_bool value) (no_digit b'0' value refl refl),
          one_lacking (again (column_is "1") (for_column cs [] (codes " = true")))
              (equals_bool value) (no_digit b'1' value refl refl),
          settled (equals_bool value) (equals_bool-IsTail value),
        )
        (passes (equals_bool value) (equals_bool-IsTail value))
