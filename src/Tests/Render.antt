-- ===== src/Tests/Render.antt =====
-- Render and ConvertDDL on whole statements, those of the tests of gobackendkit/dialect among them,
-- and on single comparisons.
use go_project.Base.{ℕ, List, none, some, ◌≡◌, refl, take, true, ◌∷◌, [], if◌then◌else◌}
use go_project.Base.Dict.{same}
use go_project.Db.{postgres_db}
use go_project.Db.Calls.{statement}
use go_project.Dialect.{postgresql, dialect_for, sql_server_dialect}
use go_project.Dialect.Columns.{flag_column}
use go_project.Dialect.Fragments.{render-bool_bit_eq}
use go_project.Dialect.Render.{
  bare_placeholders, is_pgsql_bool_column, replace_bool_comparisons, select_top, bool_inserts,
  sql_functions, page_and_casts, normalize_postgres_query, convert_types, convert_values,
  convert_additions, convert_ddl_to_postgres, render, convert_ddl,
}
use go_project.Web.{
  Item, Call, Cursor, Outcome, rows_came, answer_of, response_of, items_query, demo_items,
  demo_items-response_of,
}
use go_project.Int64
use go_project.Regexp.{
  run_many, run_few, run, match_at, find_from, find_submatch, replace_from, replace_matches,
}
use go_project.Text.{
  codes, Casing, trim_space, trim_left, trim_right, to_upper, to_lower, trim_right_of,
}
use go_project.Text.Decimal.{print_int}

abbrev ascii_only : Casing
ascii_only = record { upper_of = λ c. c; lower_of = λ c. c }

render_page :
    normalize_postgres_query ascii_only (
      codes
        "SELECT id FROM user_todos WHERE is_delete = 0 AND ISNULL(is_completed,0) = 0 ORDER BY id OFFSET ?1 ROWS FETCH NEXT ?2 ROWS ONLY")
    ≡ codes
        "SELECT id FROM user_todos WHERE is_delete = false AND COALESCE(is_completed,0) = 0 ORDER BY id LIMIT $2 OFFSET $1"
unfolding bare_placeholders is_pgsql_bool_column replace_bool_comparisons select_top bool_inserts
    sql_functions page_and_casts normalize_postgres_query run_many run_few run match_at find_from
    find_submatch replace_from replace_matches trim_space trim_left trim_right to_upper to_lower
    trim_right_of same take
render_page = refl

render_top :
    normalize_postgres_query ascii_only
      (codes "SELECT TOP 5 u.name FROM users u WHERE u.is_active = 1 AND u.id = 3 AND u.dept = 4;")
    ≡ codes
        "SELECT u.name FROM users u WHERE u.is_active = true AND u.id = 3 AND u.dept = 4 LIMIT 5"
unfolding bare_placeholders is_pgsql_bool_column replace_bool_comparisons select_top bool_inserts
    sql_functions page_and_casts normalize_postgres_query run_many run_few run match_at find_from
    find_submatch replace_from replace_matches trim_space trim_left trim_right to_upper to_lower
    trim_right_of same take print_int
render_top = refl

convert_index :
    convert_ddl ascii_only postgresql
      (codes "CREATE UNIQUE INDEX uq ON project_deliveries(project_id) WHERE is_delete = 0")
    ≡ codes "CREATE UNIQUE INDEX uq ON project_deliveries(project_id) WHERE is_delete = false"
unfolding convert_ddl convert_ddl_to_postgres convert_types convert_values convert_additions
    is_pgsql_bool_column replace_bool_comparisons run_many run_few run match_at find_from
    find_submatch replace_from replace_matches trim_space trim_left trim_right to_lower same take
convert_index = refl

-- A default of 1 is kept behind the one that is added.
convert_default_one :
    convert_ddl ascii_only postgresql (codes "is_active BIT NOT NULL DEFAULT 1, note NVARCHAR(20)")
    ≡ codes "is_active BOOLEAN NOT NULL DEFAULT FALSE DEFAULT 1, note VARCHAR(20)"
unfolding convert_ddl convert_ddl_to_postgres convert_types convert_values convert_additions
    is_pgsql_bool_column replace_bool_comparisons run_many run_few run match_at find_from
    find_submatch replace_from replace_matches trim_space trim_left trim_right to_lower same take
convert_default_one = refl

-- A column that is added is not given the word COLUMN: BIT NOT NULL is gone by then.
convert_added_bit :
    convert_ddl ascii_only postgresql
      (codes "ALTER TABLE t ADD is_new BIT NOT NULL CONSTRAINT df_new DEFAULT 0")
    ≡ codes "ALTER TABLE t ADD is_new BOOLEAN NOT NULL DEFAULT FALSE"
unfolding convert_ddl convert_ddl_to_postgres convert_types convert_values convert_additions
    is_pgsql_bool_column replace_bool_comparisons run_many run_few run match_at find_from
    find_submatch replace_from replace_matches trim_space trim_left trim_right to_lower same take
convert_added_bit = refl

render-bool_bit_eq_example :
    (render ascii_only postgresql
        (sql_server_dialect.bool_bit_eq (flag_column (codes "u1") (codes "active")) true)
      ≡ (if is_pgsql_bool_column ascii_only (flag_column (codes "u1") (codes "active"))
            then dialect_for postgresql
            else sql_server_dialect).bool_bit_eq
          (flag_column (codes "u1") (codes "active"))
          true)
    × (render ascii_only postgresql
          ((dialect_for postgresql).bool_bit_eq (flag_column (codes "u1") (codes "active")) true)
        ≡ (dialect_for postgresql).bool_bit_eq (flag_column (codes "u1") (codes "active")) true)
render-bool_bit_eq_example =
    render-bool_bit_eq ascii_only postgresql (codes "u1") (codes "active") true (refl, (refl, tt))
      (refl, (refl, (refl, (refl, (refl, (refl, tt)))))) refl

number_placeholders : bare_placeholders (codes "a = ? AND b = ?") ≡ codes "a = $1 AND b = $2"
unfolding bare_placeholders print_int Int64.rank Int64.sub
number_placeholders = refl

abbrev two_items : List Item
two_items =
    record { id = 1; title = codes "pen"; qty = 3 } ∷ record { id = 4; title = []; qty = 0 } ∷ []

-- Two items, behind which an error ends the rows.
abbrev cut_off : Outcome
cut_off = rows_came two_items none (some (codes "connection lost"))

abbrev answer_items : List ℕ → Call Cursor
answer_items statement = answer_of cut_off

demo_items-response_of_example :
    demo_items {C = ℕ} ascii_only (postgres_db 7) answer_items ≡ response_of cut_off
demo_items-response_of_example =
    demo_items-response_of {C = ℕ} ascii_only (postgres_db 7) answer_items cut_off refl

items_statement :
    statement {C = ℕ} ascii_only (postgres_db 7) items_query
    ≡ codes "SELECT id, title, qty FROM demo_items WHERE is_delete = false ORDER BY id ASC"
unfolding statement render bare_placeholders is_pgsql_bool_column replace_bool_comparisons
    select_top bool_inserts sql_functions page_and_casts normalize_postgres_query run_many run_few
    run match_at find_from find_submatch replace_from replace_matches trim_space trim_left
    trim_right to_upper to_lower trim_right_of same take
items_statement = refl
