-- ===== src/Redis.antt =====
-- gobackendkit/redis/redis_cache.go: the caches of tables. The server is a parameter: what SCAN and
-- DEL answer on a state, `none` being an error.
pub mod Safety
use go_project.Base.{
  ℕ, zero, suc, List, [], ◌∷◌, ◌++◌, Option, none, some, Bool, true, false, ◌==◌, if◌then◌else◌,
}
use go_project.Int64
use go_project.Text.{codes, is_empty, trim_space}

abbrev pub Key : Type 0
Key = List ℕ

-- SCAN by a cursor and a pattern gives keys and the next cursor.
pub record Client (S : Type 0) : Type 0 where
  pub scan : ℕ → Key → S → Option (List Key × ℕ)
  pub del : List Key → S → Option ℕ × S

-- What a call leaves: the number of keys, whether it ended with an error, and the state.
pub record Deleted (S : Type 0) : Type 0 where
  pub deleted : ℕ
  pub failed : Bool
  pub state : S

abbrev pub prefix : Key
prefix = codes "ft:"

unfoldable pub find_table_all_key : Key → Key
find_table_all_key table = prefix ++ (table ++ codes ":all")

unfoldable pub find_table_item_key : Key → Key → Key → Key
find_table_item_key table field escaped =
    prefix ++ (table ++ (codes ":item:" ++ (field ++ (codes ":" ++ escaped))))

abbrev pub count_deleted : {S : Type 0} → ℕ → Option ℕ → S → Deleted S
count_deleted deleted none s = record { deleted = deleted; failed = true; state = s }
count_deleted deleted (some n) s = record {
  deleted = Int64.add deleted n;
  failed = false;
  state = s;
}

module _ {S : Type 0} (client : Client S) where
  -- The call of DEL in one round, if there is a key.
  unfoldable pub remove : List Key → ℕ → S → Deleted S
  remove [] deleted s = record { deleted = deleted; failed = false; state = s }
  remove (k ∷ ks) deleted s =
      let (answer, s') = client.del (k ∷ ks) s in count_deleted deleted answer s'

  -- The loop until the cursor is zero; `none` is the end of the fuel.
  unfoldable pub scan_loop : ℕ → Key → ℕ → ℕ → S → Option (Deleted S)
  scan_loop zero pattern cursor deleted s = none
  scan_loop (suc fuel) pattern cursor deleted s = elim (client.scan cursor pattern s) [
    | none ↦ some (record { deleted = deleted; failed = true; state = s })
    | some (keys, next) ↦
        let r = remove keys deleted s in
        elim r.failed [
          | true ↦ some r
          | false ↦ elim (next == 0) [
            | true ↦ some r
            | false ↦ scan_loop fuel pattern next r.deleted r.state
          ]
        ]
  ]

-- `none` in place of a client is the nil client.
unfoldable pub scan_delete_by_prefix :
    {S : Type 0} → ℕ → Option (Client S) → Key → S → Option (Deleted S)
scan_delete_by_prefix fuel none pattern s = some (record { deleted = 0; failed = false; state = s })
scan_delete_by_prefix fuel (some client) pattern s =
    if is_empty (trim_space pattern)
    then some (record { deleted = 0; failed = false; state = s })
    else scan_loop client fuel (trim_space pattern) 0 0 s

-- The loop over the patterns of a cache.
unfoldable pub clear_patterns :
    {S : Type 0} → ℕ → Option (Client S) → List Key → ℕ → S → Option (Deleted S)
clear_patterns fuel client [] total s = some (record { deleted = total; failed = false; state = s })
clear_patterns fuel client (p ∷ ps) total s = elim (scan_delete_by_prefix fuel client p s) [
  | none ↦ none
  | some r ↦ elim r.failed [
    | true ↦ some (record { deleted = Int64.add total r.deleted; failed = true; state = r.state })
    | false ↦ clear_patterns fuel client ps (Int64.add total r.deleted) r.state
  ]
]

abbrev pub table_patterns : Key → List Key
table_patterns table =
    (prefix ++ (table ++ codes ":*"))
    ∷ (codes "findTableNameHandler_" ++ (table ++ codes "*"))
    ∷ (codes "findTable_" ++ (table ++ codes "_*"))
    ∷ []

unfoldable pub clear_find_table_cache_for_table :
    {S : Type 0} → ℕ → Option (Client S) → Key → S → Option (Deleted S)
clear_find_table_cache_for_table fuel client table s =
    if is_empty (trim_space table)
    then some (record { deleted = 0; failed = false; state = s })
    else clear_patterns fuel client (table_patterns (trim_space table)) 0 s

abbrev pub all_patterns : List Key
all_patterns = (prefix ++ codes "*") ∷ codes "findTableNameHandler_*" ∷ codes "findTable_*" ∷ []

unfoldable pub clear_all_find_table_caches :
    {S : Type 0} → ℕ → Option (Client S) → S → Option (Deleted S)
clear_all_find_table_caches fuel client s = clear_patterns fuel client all_patterns 0 s
