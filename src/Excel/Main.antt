-- ===== src/Excel/Main.antt =====
-- The command excelddl, gobackendkit/cmd/excelddl/main.go, behind its flags: the configuration, the
-- workbook, the connection and the tables. What it prints is left out, and so is -gen-sample.
use mathlib.Core.Path.{subst}
use go_project.Base.{
  ℕ, ◌≡◌, refl, sym, List, [], ◌∷◌, Option, none, some, Bool, true, false, Bool-cases, inl, inr,
  if◌then◌else◌,
}
use go_project.Db.{
  Db, Drivers, Opened, connected, closed, not_opened, unknown_type, Globals, set_db_type, new_db,
  db_type_of,
}
use go_project.Db.Kinds.{IsOfType, new_db-IsOfType}
use go_project.EnvFile.{Settings, load_env_db}
use go_project.Excel.{Table}
use go_project.Excel.Command.{
  Database, Created, Ended, create_tables, create_tables_dry, create_tables-Ended,
}
use go_project.Text.{is_empty, trim_space, Casing}

-- How the command ends: in a call of log.Fatal before the loop over the tables, or behind the loop,
-- which came to its end or not.
pub data Exit (S : Type 0) : Type 0 where
  no_path no_config no_workbook no_tables no_connection : Exit S
  ended : Bool × S → Exit S

module _ {C S : Type 0} (cs : Casing) (is_float : List ℕ → Bool) (drivers : Drivers C)
    (database : Db C → Database S) where
  -- Behind NewDB.
  abbrev pub with_connection : List ℕ → Opened C → List Table → S → Exit S
  with_connection kind (connected d) tables s =
      ended (create_tables cs is_float database kind (some d) tables s)
  with_connection kind (closed c) tables s = no_connection
  with_connection kind not_opened tables s = no_connection
  with_connection kind (unknown_type t) tables s = no_connection

  -- Behind SetDBType and ReadFile.
  abbrev pub with_workbook : Bool → Settings → Globals → Option (List Table) → S → Exit S
  with_workbook dry_run env g none s = no_workbook
  with_workbook dry_run env g (some []) s = no_tables
  with_workbook true env g (some (t ∷ tables)) s =
      ended (create_tables cs is_float database g.current_kind none (t ∷ tables) s)
  with_workbook false env g (some (t ∷ tables)) s =
      with_connection g.current_kind (new_db drivers env.db_type env.config) (t ∷ tables) s

  -- Behind loadEnvDB.
  abbrev pub with_env : Bool → Settings × Bool → Globals → Option (List Table) → S → Exit S
  with_env dry_run (env, false) g workbook s = no_config
  with_env dry_run (env, true) g workbook s =
      with_workbook dry_run env (set_db_type env.db_type g) workbook s

  unfoldable pub excelddl :
      List ℕ → Bool → Option (List ℕ) → Globals → Option (List Table) → S → Exit S
  excelddl excel_path dry_run env_file g workbook s =
      if is_empty (trim_space excel_path)
      then no_path
      else with_env dry_run (load_env_db cs env_file) g workbook s

  -- If the command came to its end: it has connected to the database that the configuration names,
  -- of its type, and the tables of the workbook were created there or found.
  abbrev pub IsDone : Settings → Option (List Table) → S → Exit S → Type 0
  IsDone env workbook s (ended (true, s')) =
      (d : Db C) × (tables : List Table) × (new_db drivers env.db_type env.config ≡ connected d)
      × (db_type_of d ≡ env.db_type)
      × (workbook ≡ some tables)
      × Created cs is_float database (db_type_of d) d tables s s'
  IsDone env workbook s _ = Unit {0}

  abbrev pub IsUnchanged : S → Exit S → Type 0
  IsUnchanged s (ended (finished, s')) = s' ≡ s
  IsUnchanged s _ = Unit {0}

  created-IsDone :
      (env : Settings) (d : Db C) (tables : List Table) (s : S)
      → new_db drivers env.db_type env.config ≡ connected d
      → db_type_of d ≡ env.db_type
      → (r : Bool × S) → Ended cs is_float database env.db_type d tables s r
      → IsDone env (some tables) s (ended r)
  created-IsDone env d tables s e t (false, s') h = tt
  created-IsDone env d tables s e t (true, s') h = (
    d,
    tables,
    e,
    t,
    refl,
    subst (λ kind. Created cs is_float database kind d tables s s') (sym t) h,
  )

  connection-IsDone :
      (env : Settings) (tables : List Table) (s : S) (o : Opened C)
      → new_db drivers env.db_type env.config ≡ o
      → IsOfType env.db_type o
      → IsDone env (some tables) s (with_connection env.db_type o tables s)
  connection-IsDone env tables s (connected d) e (t, k) =
      created-IsDone env d tables s e t _
        (create_tables-Ended cs is_float database env.db_type d tables s)
  connection-IsDone env tables s (closed c) e h = tt
  connection-IsDone env tables s not_opened e h = tt
  connection-IsDone env tables s (unknown_type t) e h = tt

  workbook-IsDone :
      (env : Settings) (g : Globals) (workbook : Option (List Table)) (s : S)
      → IsDone env workbook s (with_workbook false env (set_db_type env.db_type g) workbook s)
  unfolding set_db_type
  workbook-IsDone env g none s = tt
  workbook-IsDone env g (some []) s = tt
  workbook-IsDone env g (some (t ∷ tables)) s =
      connection-IsDone env (t ∷ tables) s (new_db drivers env.db_type env.config) refl
        (new_db-IsOfType drivers env.db_type env.config)

  workbook-IsUnchanged :
      (env : Settings) (g : Globals) (workbook : Option (List Table)) (s : S)
      → IsUnchanged s (with_workbook true env g workbook s)
  workbook-IsUnchanged env g none s = tt
  workbook-IsUnchanged env g (some []) s = tt
  workbook-IsUnchanged env g (some (t ∷ tables)) s =
      create_tables_dry cs is_float database g.current_kind (t ∷ tables) s

  env-IsUnchanged :
      (env : Settings × Bool) (g : Globals) (workbook : Option (List Table)) (s : S)
      → IsUnchanged s (with_env true env g workbook s)
  env-IsUnchanged (env, false) g workbook s = tt
  env-IsUnchanged (env, true) g workbook s =
      workbook-IsUnchanged env (set_db_type env.db_type g) workbook s

  env-IsDone :
      (env : Settings × Bool) (g : Globals) (workbook : Option (List Table)) (s : S)
      → IsDone env.0 workbook s (with_env false env g workbook s)
  env-IsDone (env, false) g workbook s = tt
  env-IsDone (env, true) g workbook s = workbook-IsDone env g workbook s

  -- The command excelddl: a dry run leaves the database as it is. Any other run that comes to its
  -- end has connected to the database that the configuration file names, which is of the type that
  -- it names; and for each table of the workbook in turn the database counted one of its name
  -- already, or it counted none, and the statement of the table, converted and rendered for the
  -- dialect of the connection's own type, was executed without an error.
  pub excelddl-IsDone :
      (excel_path : List ℕ) (env_file : Option (List ℕ)) (g : Globals)
      (workbook : Option (List Table)) (s : S)
      → IsUnchanged s (excelddl excel_path true env_file g workbook s)
        × IsDone
            (load_env_db cs env_file).0
            workbook
            s
            (excelddl excel_path false env_file g workbook s)
  unfolding excelddl
  excelddl-IsDone excel_path env_file g workbook s =
      let env = load_env_db cs env_file in
      elim (Bool-cases (is_empty (trim_space excel_path))) [
        | inl e ↦ rw e (tt, tt)
        | inr e ↦ rw e (env-IsUnchanged env g workbook s, env-IsDone env g workbook s)
      ]
