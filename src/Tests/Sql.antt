-- ===== src/Tests/Sql.antt =====
-- The helpers of the backend kit for Redis, workbooks, configuration files and SQL.
use mathlib.Core.Path.{subst}
use go_project.Base.{
  ℕ, ◌≡◌, ◌<◌, inl, inr, refl, ap, sym, List, [], ◌∷◌, Option, none, some, All, arith, Bool, true,
  false, not, ◌&&◌, ◌||◌, ◌==◌, keep, Bool-cases, length, keep-true, keep-false,
}
use go_project.Base.Dict.{same, same_sound, same_refl}
use go_project.Text.{codes, one_of, Casing}
use go_project.Excel.Sheets.{Sheet, read_sheets}
use go_project.Excel.Tables.{Gives}
use go_project.Excel.Buildable.{IsBuildable, read_sheets-IsBuildable}
use go_project.EnvFile.{DbConfig, load_env_db, split}
use go_project.EnvFile.Quickstart.{load_config, load_config-load_env_db}
use go_project.EnvFile.Printed.{IsKeyCode, IsPrinted, print_pairs, load_env_db-IsPrinted}
use go_project.EnvFile.Last.{IsLast, load_env_db-IsLast}
use go_project.Dialect
use go_project.Dialect.{sqlserver, postgresql}
use go_project.Db.{Drivers, new_db, set_db_type, get_db_type, is_sqlserver, initial_globals}
use go_project.Db.Placeholders.{convert_placeholders, IsQuery, convert_placeholders-query_text}
use go_project.Db.Kinds.{IsOfType, set_db_type-IsOfType}
use go_project.EnvFile.{atoi}
use go_project.Redis.{Key, Client, clear_find_table_cache_for_table, clear_all_find_table_caches}
use go_project.Redis.Safety.{IsServer, Keeps, clear-Keeps}

-- A pattern is text that may end with a star.
abbrev glob : Key → Key → Bool
glob [] [] = true
glob [] (d ∷ k) = false
glob (c ∷ pattern) [] = c == b'*'
glob (c ∷ pattern) (d ∷ k) = let rest = glob pattern k in (c == b'*') || ((c == d) && rest)

-- A server that gives all its keys at once.
abbrev one_scan : Client (List Key)
one_scan = record {
  scan = λ cursor pattern s. some (keep (glob pattern) s, 0);
  del = λ keys s. (some (length keys), keep (λ k. not (one_of k keys)) s);
}

keep-All : (p : Key → Bool) (s : List Key) → All (λ k. p k ≡ true) (keep p s)
keep-All p [] = tt
keep-All p (k ∷ s) = elim (Bool-cases (p k)) [
  | inl e ↦ subst (All (λ k. p k ≡ true)) (sym (keep-true p k s e)) (e, keep-All p s)
  | inr e ↦ subst (All (λ k. p k ≡ true)) (sym (keep-false p k s e)) (keep-All p s)
]

one_of-absent :
    (k : Key) (keys : List Key) → All (λ j. same j k ≡ false) keys → one_of k keys ≡ false
one_of-absent k [] h = refl
one_of-absent k (j ∷ keys) (h, hs) = elim (Bool-cases (same k j)) [
  | inl e ↦ absurd (ground (arith, h, same_refl k, ap (λ x. same x k) (same_sound k j e)))
  | inr e ↦ rw e (one_of-absent k keys hs)
]

one_of-keep :
    (p : Key → Bool) (k : Key) (s : List Key)
    → p k ≡ true
    → one_of k s ≡ true
    → one_of k (keep p s) ≡ true
one_of-keep p k [] h m = m
one_of-keep p k (x ∷ s) h m = elim (Bool-cases (same k x)) [
  | inl e ↦
      let kept : p x ≡ true = subst (λ (y : Key). p y ≡ true) (same_sound k x e) h in
      subst (λ (l : List Key). one_of k l ≡ true) (sym (keep-true p x s kept)) (rw e refl)
  | inr e ↦ let later = one_of-keep p k s h (ground (arith, m, e)) in ground (arith, later, e)
]

glob-literal :
    (c : ℕ) (pattern k : Key)
    → 97 < c
    → c < 123
    → glob (c ∷ pattern) k ≡ true
    → (rest : Key) × (k ≡ c ∷ rest)
glob-literal c pattern [] a b m = absurd (ground (arith, a, m))
glob-literal c pattern (d ∷ k) a b m =
    let e : d ≡ c = ground (arith, a, m) in (k, ap (λ (x : ℕ). x ∷ k) e)

abbrev first_two : Option (List Key × ℕ) → List Key × ℕ
first_two none = ([], 0)
first_two (some x) = x

abbrev one_scan-IsServer : IsServer one_scan
one_scan-IsServer = record {
  Has = λ s k. one_of k s ≡ true;
  matches = glob;
  scanned = λ cursor pattern s keys next e.
      subst (All (λ k. glob pattern k ≡ true)) (ap (λ x. (first_two x).0) e)
        (keep-All (glob pattern) s);
  rounds = λ cursor. 0;
  progress = λ cursor pattern s keys next e. inl (sym (ap (λ x. (first_two x).1) e));
  literal = λ c pattern k a b m. glob-literal c pattern k a b m;
  deleted = λ keys s k h m.
      one_of-keep (λ j. not (one_of j keys)) k s (ap not (one_of-absent k keys h)) m;
}

abbrev sessions : List Key
sessions = codes "token:7" ∷ codes "ft:users:all" ∷ codes "findTable_users_1" ∷ []

clear-Keeps_example :
    Keeps one_scan one_scan-IsServer
      (codes "7")
      (clear_find_table_cache_for_table 1 (some one_scan) (codes "users") sessions)
    × Keeps one_scan one_scan-IsServer
        (codes "7")
        (clear_all_find_table_caches 1 (some one_scan) sessions)
unfolding same
clear-Keeps_example =
    clear-Keeps one_scan one_scan-IsServer (codes "7") 1 (omega arith) (codes "users") sessions refl

abbrev ascii : Casing
ascii = record { upper_of = λ c. c; lower_of = λ c. c }

abbrev header : List (List ℕ)
header = codes "comment" ∷ codes "name" ∷ codes "type" ∷ []

abbrev workbook : List Sheet
workbook =
    record { title = codes "_lists"; rows = none }
    ∷ record {
      title = codes " items ";
      rows = some (
          header
          ∷ header
          ∷ (codes "title" ∷ codes "title" ∷ codes "nvarchar" ∷ [])
          ∷ (codes "" ∷ codes "ID" ∷ codes "int" ∷ [])
          ∷ []);
    }
    ∷ []

read_sheets-IsBuildable_example :
    Gives (All (IsBuildable ascii (λ s. false))) (read_sheets ascii workbook [])
read_sheets-IsBuildable_example = read_sheets-IsBuildable ascii (λ s. false) workbook

abbrev env_text : List ℕ
env_text = codes "# kit\nDB_HOST = 'a'\nDB_PORT=x\nERP_DB_HOST=b\nDB_TYPE=Postgres\n"

load_env_db-IsLast_example :
    IsLast ascii (split b'\n' env_text) (load_env_db ascii (some env_text)).0
    × ((load_env_db ascii (some env_text)).1 ≡ true)
load_env_db-IsLast_example = load_env_db-IsLast ascii env_text

-- DB_PORT=9
abbrev port_line : List (List ℕ × List ℕ)
port_line = (codes "DB_PORT", codes "9") ∷ []

port_key : All IsKeyCode (codes "DB_PORT")
port_key = (refl, (refl, (refl, (refl, (refl, (refl, (refl, tt)))))))

load_env_db-IsPrinted_example :
    IsPrinted ascii port_line (load_env_db ascii (some (print_pairs port_line))).0
    × ((load_env_db ascii (some (print_pairs port_line))).1 ≡ true)
load_env_db-IsPrinted_example =
    load_env_db-IsPrinted ascii port_line ((port_key, ((refl, refl), tt)), tt)

load_config-load_env_db_example :
    ((load_config ascii (some env_text)).0.settings ≡ (load_env_db ascii (some env_text)).0)
    × ((load_config ascii (some env_text)).1 ≡ (load_env_db ascii (some env_text)).1)
load_config-load_env_db_example = load_config-load_env_db ascii (some env_text)

abbrev pieces : List (List ℕ × List ℕ)
pieces = (codes "a = ", codes "1") ∷ (codes " AND b = ", codes "12") ∷ []

pieces-IsQuery : IsQuery pieces (codes ";")
unfolding atoi
pieces-IsQuery = (
  (refl, (refl, (refl, (refl, tt)))),
  ((refl, tt), refl, (1, refl)),
  (
    (refl, (refl, (refl, (refl, (refl, (refl, (refl, (refl, (refl, tt))))))))),
    refl,
    ((refl, (refl, tt)), refl, (12, refl)),
    ((refl, tt), refl),
  ),
)

convert_placeholders-query_text_example :
    (convert_placeholders (codes "a = $1 AND b = $12;") ≡ codes "a = @p1 AND b = @p12;")
    × (convert_placeholders (codes "a = @p1 AND b = @p12;") ≡ codes "a = @p1 AND b = @p12;")
convert_placeholders-query_text_example =
    convert_placeholders-query_text pieces (codes ";") pieces-IsQuery

abbrev one_driver : Drivers ℕ
one_driver = record { new_pool = λ info. some 1; open_mssql = λ info. some 2; ping = λ c. true }

abbrev local : DbConfig
local = record { host = codes "h"; port = 1433; user = []; password = []; db_name = codes "d" }

set_db_type-IsOfType_example :
    IsOfType sqlserver
      (new_db one_driver (get_db_type (set_db_type sqlserver initial_globals)) local)
    × (is_sqlserver (set_db_type sqlserver initial_globals)
        ≡ Dialect.is_sqlserver (set_db_type sqlserver initial_globals).current_kind)
    × (Dialect.is_postgresql (set_db_type sqlserver initial_globals).current_kind
        ≡ not (is_sqlserver (set_db_type sqlserver initial_globals)))
set_db_type-IsOfType_example = set_db_type-IsOfType one_driver sqlserver initial_globals local refl
