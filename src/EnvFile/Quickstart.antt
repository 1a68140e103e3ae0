-- ===== src/EnvFile/Quickstart.antt =====
-- loadConfig of gobackendkit/examples/quickstart/main.go.
use go_project.Base.{
  ℕ, ◌≡◌, refl, sym, ◌∙◌, List, [], ◌∷◌, Option, none, some, Bool, true, false, if◌then◌else◌, ap,
  arith,
}
use go_project.Text.{codes, one_of, Casing}
use go_project.EnvFile.{
  Settings, Field, for_host, for_port, for_user, for_password, for_db_name, for_db_type, for_none,
  field_of, default_settings, split, atoi, assignment, set, set_pair, set_lines, load_env_db,
}

-- The six results of the function.
pub record QuickConfig : Type 0 where
  pub settings : Settings
  pub redis_addr : List ℕ
  pub redis_pass : List ℕ
  pub redis_db : ℕ
  pub http_addr : List ℕ

abbrev pub default_quick : QuickConfig
default_quick = record {
  settings = default_settings;
  redis_addr = codes "127.0.0.1:6379";
  redis_pass = [];
  redis_db = 0;
  http_addr = codes ":8090";
}

abbrev with_redis_db : Option ℕ → QuickConfig → QuickConfig
with_redis_db none q = q
with_redis_db (some n) q = record q { redis_db = n }

-- The cases of the switch over the keys: those of the database, and the server's own.
pub data QuickField : Type 0 where
  database : Field → QuickField
  for_redis_addr for_redis_pass for_redis_db for_http_addr for_nothing : QuickField

-- The last four.
unfoldable pub server_field_of : List ℕ → QuickField
server_field_of k =
    if one_of k (codes "REDIS_ADDR" ∷ codes "ERP_REDIS_ADDR" ∷ [])
    then for_redis_addr
    else if one_of k (codes "REDIS_PASSWORD" ∷ codes "ERP_REDIS_PASSWORD" ∷ [])
    then for_redis_pass
    else if one_of k (codes "REDIS_DB" ∷ codes "ERP_REDIS_DB" ∷ [])
    then for_redis_db
    else if one_of k (codes "HTTP_ADDR" ∷ [])
    then for_http_addr
    else for_nothing

unfoldable pub quick_field_of : List ℕ → QuickField
quick_field_of k =
    if one_of k (codes "DB_HOST" ∷ codes "ERP_DB_HOST" ∷ [])
    then database for_host
    else if one_of k (codes "DB_PORT" ∷ codes "ERP_DB_PORT" ∷ [])
    then database for_port
    else if one_of k (codes "DB_USER" ∷ codes "ERP_DB_USER" ∷ [])
    then database for_user
    else if one_of k (codes "DB_PASSWORD" ∷ codes "ERP_DB_PASSWORD" ∷ [])
    then database for_password
    else if one_of k (codes "DB_NAME" ∷ codes "ERP_DB_NAME" ∷ [])
    then database for_db_name
    else if one_of k (codes "DB_TYPE" ∷ codes "ERP_DB_TYPE" ∷ [])
    then database for_db_type
    else server_field_of k

module _ (cs : Casing) where
  abbrev pub set_all : QuickField → List ℕ → QuickConfig → QuickConfig
  set_all (database field) v q = record q { settings = set cs field v q.settings }
  set_all for_redis_addr v q = record q { redis_addr = v }
  set_all for_redis_pass v q = record q { redis_pass = v }
  set_all for_redis_db v q = with_redis_db (atoi v) q
  set_all for_http_addr v q = record q { http_addr = v }
  set_all for_nothing v q = q

  abbrev pub set_all_pair : Option (List ℕ × List ℕ) → QuickConfig → QuickConfig
  set_all_pair none q = q
  set_all_pair (some (k, v)) q = set_all (quick_field_of k) v q

  unfoldable pub set_all_lines : List (List ℕ) → QuickConfig → QuickConfig
  set_all_lines [] q = q
  set_all_lines (line ∷ lines) q = set_all_lines lines (set_all_pair (assignment line) q)

  unfoldable pub load_config : Option (List ℕ) → QuickConfig × Bool
  load_config none = (default_quick, false)
  load_config (some text) = (set_all_lines (split b'\n' text) default_quick, true)

-- The case of the shorter switch.
abbrev field_in : QuickField → Field
field_in (database field) = field
field_in _ = for_none

either : (k a b : List ℕ) → one_of k (a ∷ b ∷ []) ≡ one_of k (b ∷ a ∷ [])
either k a b = ground arith

if_same :
    (b c : Bool) (f g : QuickField) (f' g' : Field)
    → b ≡ c
    → field_in f ≡ f'
    → field_in g ≡ g'
    → field_in (if b then f else g) ≡ (if c then f' else g')
if_same true c f g f' g' e h k = rw (sym e) h
if_same false c f g f' g' e h k = rw (sym e) k

server_field_of-none : (k : List ℕ) → field_in (server_field_of k) ≡ for_none
unfolding server_field_of
server_field_of-none k = ground arith

quick_field_of-field_of : (k : List ℕ) → field_in (quick_field_of k) ≡ field_of k
unfolding quick_field_of field_of
quick_field_of-field_of k = if_same _ _ _ _ _ _ (either k _ _) refl (
    if_same _ _ _ _ _ _ (either k _ _) refl (
      if_same _ _ _ _ _ _ (either k _ _) refl (
        if_same _ _ _ _ _ _ (either k _ _) refl (
          if_same _ _ _ _ _ _ (either k _ _) refl
            (if_same _ _ _ _ _ _ (either k _ _) refl (server_field_of-none k))))))

module _ (cs : Casing) where
  set_all-set :
      (f : QuickField) (v : List ℕ) (q : QuickConfig)
      → (set_all cs f v q).settings ≡ set cs (field_in f) v q.settings
  set_all-set (database field) v q = refl
  set_all-set for_redis_addr v q = refl
  set_all-set for_redis_pass v q = refl
  set_all-set for_redis_db v q = elim (atoi v) as (λ n. (with_redis_db n q).settings ≡ q.settings) [
    | none ↦ refl
    | some n ↦ refl
  ]
  set_all-set for_http_addr v q = refl
  set_all-set for_nothing v q = refl

  set_all_pair-set_pair :
      (o : Option (List ℕ × List ℕ)) (q : QuickConfig)
      → (set_all_pair cs o q).settings ≡ set_pair cs o q.settings
  set_all_pair-set_pair none q = refl
  set_all_pair-set_pair (some (k, v)) q =
      set_all-set (quick_field_of k) v q
      ∙ ap (λ f. set cs f v q.settings) (quick_field_of-field_of k)

  set_all_lines-set_lines :
      (lines : List (List ℕ)) (q : QuickConfig)
      → (set_all_lines cs lines q).settings ≡ set_lines cs lines q.settings
  unfolding set_all_lines set_lines
  set_all_lines-set_lines [] q = refl
  set_all_lines-set_lines (line ∷ lines) q =
      set_all_lines-set_lines lines (set_all_pair cs (assignment line) q)
      ∙ ap (set_lines cs lines) (set_all_pair-set_pair (assignment line) q)

  -- On every file, read or not, the loader of the quickstart and that of excelddl give the same
  -- settings of the database, and agree whether the file was read.
  pub load_config-load_env_db :
      (file : Option (List ℕ))
      → ((load_config cs file).0.settings ≡ (load_env_db cs file).0)
        × ((load_config cs file).1 ≡ (load_env_db cs file).1)
  unfolding load_config load_env_db
  load_config-load_env_db none = (refl, refl)
  load_config-load_env_db (some text) =
      (set_all_lines-set_lines (split b'\n' text) default_quick, refl)
