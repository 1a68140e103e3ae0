-- ===== src/Tests/Excelddl.antt =====
-- The command excelddl on one table, over databases in which a statement creates the table.
use go_project.Base.{ℕ, List, [], ◌∷◌, Option, some, Bool, true, false, if◌then◌else◌}
use go_project.Db.{Db, Drivers, initial_globals}
use go_project.EnvFile.{load_env_db}
use go_project.Excel.{Table, default_audit_columns}
use go_project.Excel.Command.{Database}
use go_project.Excel.Main.{excelddl, IsUnchanged, IsDone, excelddl-IsDone}
use go_project.Text.{codes, Casing}

abbrev plain_casing : Casing
plain_casing = record { upper_of = λ c. c; lower_of = λ c. c }

abbrev no_float : List ℕ → Bool
no_float s = false

abbrev reachable : Drivers ℕ
reachable = record { new_pool = λ info. some 1; open_mssql = λ info. some 2; ping = λ c. true }

abbrev at_once : Db ℕ → Database Bool
at_once d = record {
  scan_row = λ query name s. some (if s then 1 else 0);
  exec = λ text s. (true, true);
}

abbrev workbook : Option (List Table)
workbook = some (record { name = codes "items"; columns = default_audit_columns } ∷ [])

abbrev env_file : Option (List ℕ)
env_file = some (codes "DB_TYPE=sqlserver\nDB_HOST=h")

excelddl-IsDone_example :
    IsUnchanged plain_casing no_float reachable at_once false (
      excelddl plain_casing no_float reachable at_once
        (codes "t.xlsx")
        true
        env_file
        initial_globals
        workbook
        false)
    × IsDone plain_casing no_float reachable at_once
        (load_env_db plain_casing env_file).0
        workbook
        false
        (excelddl plain_casing no_float reachable at_once
          (codes "t.xlsx")
          false
          env_file
          initial_globals
          workbook
          false)
excelddl-IsDone_example =
    excelddl-IsDone plain_casing no_float reachable at_once (codes "t.xlsx") env_file
      initial_globals workbook false
