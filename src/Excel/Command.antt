-- ===== src/Excel/Command.antt =====
-- The command excelddl, gobackendkit/cmd/excelddl/main.go, behind the reading of its files: the loop
-- that creates the tables. `kind` is that of the current dialect; what the driver makes of a
-- statement is a parameter.
use mathlib.Core.Path.{subst}
use go_project.Base.{
  ℕ, zero, suc, ◌≡◌, refl, ap, sym, ◌∙◌, List, [], ◌∷◌, Option, none, some, Bool, true, false,
  Option-cases, inl, inr, ◌⊎◌, arith, ltb, lt→ltb,
}
use go_project.Text.{Casing}
use go_project.Db.{Db}
use go_project.Db.Calls.{statement}
use go_project.Dialect.{dialect_for}
use go_project.Dialect.Render.{convert_ddl}
use go_project.Excel.{Table}
use go_project.Excel.Ddl.{Ddl, DdlError, built, failed, build_mssql_ddl}

-- The driver: QueryRow of a statement with one argument and Scan of an int, `none` for an error; and
-- Exec, which says whether it ended without an error.
pub record Database (S : Type 0) : Type 0 where
  pub scan_row : List ℕ → List ℕ → S → Option ℕ
  pub exec : List ℕ → S → Bool × S

Ddl-cases : (d : Ddl) → ((e : DdlError) × (d ≡ failed e)) ⊎ ((text : List ℕ) × (d ≡ built text))
Ddl-cases (failed e) = inl (e, refl)
Ddl-cases (built text) = inr (text, refl)

module _ {C S : Type 0} (cs : Casing) (is_float : List ℕ → Bool) (database : Db C → Database S)
    (kind : List ℕ) where
  -- The statements as they reach the driver: QueryRow and Exec render them, the second behind
  -- ConvertDDL.
  abbrev pub exists_statement : Db C → List ℕ
  exists_statement conn = statement cs conn (dialect_for kind).meta.table_exists

  abbrev pub create_statement : Db C → List ℕ → List ℕ
  create_statement conn text = statement cs conn (convert_ddl cs kind text)

  abbrev positive : Option ℕ → Option Bool
  positive none = none
  positive (some n) = some (ltb 0 n)

  unfoldable pub table_exists : Db C → List ℕ → S → Option Bool
  table_exists conn name s = positive ((database conn).scan_row (exists_statement conn) name s)

  -- Whether the loop came to its end, or to a fatal error, and the state behind it. The connection is
  -- nil in a dry run, and otherwise was opened.
  unfoldable pub create_tables : Option (Db C) → List Table → S → Bool × S
  create_tables conn [] s = (true, s)
  create_tables conn (t ∷ tables) s = elim (build_mssql_ddl cs is_float t) [
    | failed e ↦ (false, s)
    | built text ↦ elim conn [
      | none ↦ create_tables conn tables s
      | some c ↦ elim (table_exists c t.name s) [
        | none ↦ (false, s)
        | some true ↦ create_tables conn tables s
        | some false ↦
            let (created, s') = (database c).exec (create_statement c text) s in
            elim created [ true ↦ create_tables conn tables s' | false ↦ (false, s') ]
      ]
    ]
  ]

  pub create_tables_dry : (tables : List Table) (s : S) → (create_tables none tables s).1 ≡ s
  unfolding create_tables
  create_tables_dry [] s = refl
  create_tables_dry (t ∷ tables) s = elim (Ddl-cases (build_mssql_ddl cs is_float t)) [
    | inl (e, h) ↦ rw (h, create_tables) refl
    | inr (text, h) ↦ rw (h, create_tables) (create_tables_dry tables s)
  ]

  -- From the state `s` to `s'`, table by table in their order: the database counts a table of the
  -- name already, or it counts none and the table's statement was executed without an error.
  abbrev pub Created : Db C → List Table → S → S → Type 0
  Created conn [] s s' = s' ≡ s
  Created conn (t ∷ tables) s s' =
      ((n : ℕ) × ((database conn).scan_row (exists_statement conn) t.name s ≡ some (suc n))
        × Created conn tables s s')
      ⊎ ((text : List ℕ) × (s'' : S) × (build_mssql_ddl cs is_float t ≡ built text)
          × ((database conn).scan_row (exists_statement conn) t.name s ≡ some 0)
          × ((database conn).exec (create_statement conn text) s ≡ (true, s''))
          × Created conn tables s'' s')

  abbrev pub Ended : Db C → List Table → S → Bool × S → Type 0
  Ended conn tables s (true, s') = Created conn tables s s'
  Ended conn tables s (false, s') = Unit {0}

  there-Ended :
      (conn : Db C) (t : Table) (tables : List Table) (s : S) (n : ℕ) (r : Bool × S)
      → (database conn).scan_row (exists_statement conn) t.name s ≡ some (suc n)
      → Ended conn tables s r
      → Ended conn (t ∷ tables) s r
  there-Ended conn t tables s n (true, s') k h = inl (n, k, h)
  there-Ended conn t tables s n (false, s') k h = tt

  made-Ended :
      (conn : Db C) (t : Table) (tables : List Table) (text : List ℕ) (s s'' : S) (r : Bool × S)
      → build_mssql_ddl cs is_float t ≡ built text
      → (database conn).scan_row (exists_statement conn) t.name s ≡ some 0
      → (database conn).exec (create_statement conn text) s ≡ (true, s'')
      → Ended conn tables s'' r
      → Ended conn (t ∷ tables) s r
  made-Ended conn t tables text s s'' (true, s') b k x h = inr (text, s'', b, k, x, h)
  made-Ended conn t tables text s s'' (false, s') b k x h = tt

  after_exec : Db C → List Table → Bool × S → Bool × S
  after_exec conn tables (true, s') = create_tables (some conn) tables s'
  after_exec conn tables (false, s') = (false, s')

  exec-Ended :
      (conn : Db C) (t : Table) (tables : List Table) (text : List ℕ) (s : S) (r : Bool × S)
      → build_mssql_ddl cs is_float t ≡ built text
      → (database conn).scan_row (exists_statement conn) t.name s ≡ some 0
      → (database conn).exec (create_statement conn text) s ≡ r
      → ((s' : S) → Ended conn tables s' (create_tables (some conn) tables s'))
      → Ended conn (t ∷ tables) s (after_exec conn tables r)
  unfolding after_exec
  exec-Ended conn t tables text s (true, s') b k x later =
      made-Ended conn t tables text s s' (create_tables (some conn) tables s') b k x (later s')
  exec-Ended conn t tables text s (false, s') b k x later = tt

  module _ (conn : Db C) (tables : List Table) where
    taken_apart :
        (r : Bool × S)
        → (elim r.0 [ true ↦ create_tables (some conn) tables r.1 | false ↦ (false, r.1) ])
          ≡ after_exec conn tables r
    unfolding after_exec
    taken_apart (true, s') = refl
    taken_apart (false, s') = refl

  missing :
      (conn : Db C) (t : Table) (tables : List Table) (text : List ℕ) (s : S)
      → build_mssql_ddl cs is_float t ≡ built text
      → (database conn).scan_row (exists_statement conn) t.name s ≡ some 0
      → create_tables (some conn) (t ∷ tables) s
        ≡ after_exec conn tables ((database conn).exec (create_statement conn text) s)
  unfolding create_tables table_exists after_exec
  missing conn t tables text s b k =
      rw (create_tables, b, table_exists, k)
        (taken_apart conn tables ((database conn).exec (create_statement conn text) s))

  some_found :
      (conn : Db C) (name : List ℕ) (s : S) (n : ℕ)
      → (database conn).scan_row (exists_statement conn) name s ≡ some (suc n)
      → table_exists conn name s ≡ some true
  unfolding table_exists
  some_found conn name s n k = ap positive k ∙ ap some (lt→ltb 0 (suc n) (omega arith))

  skipped :
      (conn : Db C) (t : Table) (tables : List Table) (text : List ℕ) (s : S)
      → build_mssql_ddl cs is_float t ≡ built text
      → table_exists conn t.name s ≡ some true
      → create_tables (some conn) (t ∷ tables) s ≡ create_tables (some conn) tables s
  unfolding create_tables
  skipped conn t tables text s b k = rw (create_tables, b, k) refl

  pub create_tables-Ended :
      (conn : Db C) (tables : List Table) (s : S)
      → Ended conn tables s (create_tables (some conn) tables s)
  unfolding create_tables table_exists
  create_tables-Ended conn [] s = refl
  create_tables-Ended conn (t ∷ tables) s = elim (Ddl-cases (build_mssql_ddl cs is_float t)) [
    | inl (e, h) ↦ rw (create_tables, h) tt
    | inr (text, h) ↦
        elim (Option-cases ((database conn).scan_row (exists_statement conn) t.name s)) [
          | inl k ↦ rw (create_tables, h, table_exists, k) tt
          | inr (suc n, k) ↦
              subst (Ended conn (t ∷ tables) s)
                (sym (skipped conn t tables text s h (some_found conn t.name s n k)))
                (there-Ended conn t tables s n (create_tables (some conn) tables s) k
                  (create_tables-Ended conn tables s))
          | inr (zero, k) ↦
              subst (Ended conn (t ∷ tables) s) (sym (missing conn t tables text s h k)) (
                exec-Ended conn t tables text s
                  ((database conn).exec (create_statement conn text) s) h k refl
                  (λ s'. create_tables-Ended conn tables s'))
        ]
  ]
