-- ===== src/EnvFile/Last.antt =====
-- What loadEnvDB gives, key by key: the last value that a line of the file assigns.
use go_project.Base.{
  ℕ, ◌≡◌, refl, ap, ◌∙◌, List, [], ◌∷◌, ◌++◌, Option, none, some, true, last_of, if◌then◌else◌,
  arith, Bool-cases, inl, inr, ◌⊎◌,
}
use go_project.Base.Dict.{same, same_sound}
use go_project.Text.{codes, Casing, one_of}
use go_project.EnvFile.{
  Settings, default_settings, Field, field_of, split, atoi, assignment, normal_type, load_env_db,
  set_lines, set,
}
use go_project.EnvFile.Fields.{
  pair_values, values, set_lines-last, hosts, users, passwords, db_names, db_types, number, ports,
  host_step, user_step, password_step, db_name_step, port_step, db_type_step,
}

-- The lines that assign a key of `keys`, with the values that `conv` makes of theirs.
module _ {A : Type 0} (keys : List (List ℕ)) (conv : List ℕ → List A) where
  abbrev pub pair_assigned : Option (List ℕ × List ℕ) → List A
  pair_assigned none = []
  pair_assigned (some (k, v)) = if one_of k keys then conv v else []

  abbrev pub assigned : List (List ℕ) → List A
  assigned [] = []
  assigned (line ∷ lines) = pair_assigned (assignment line) ++ assigned lines

  module _ (given : Field → List ℕ → List A)
      (agree : (k v : List ℕ) → given (field_of k) v ≡ (if one_of k keys then conv v else [])) where
    pair_assigned-given : (o : Option (List ℕ × List ℕ)) → pair_values given o ≡ pair_assigned o
    pair_assigned-given none = refl
    pair_assigned-given (some (k, v)) = agree k v

    assigned-given : (lines : List (List ℕ)) → values given lines ≡ assigned lines
    assigned-given [] = refl
    assigned-given (line ∷ lines) =
        ap (λ l. l ++ values given lines) (pair_assigned-given (assignment line))
        ∙ ap (λ l. pair_assigned (assignment line) ++ l) (assigned-given lines)

-- A text that is one of two keys.
one_of-cases : (k a b : List ℕ) → one_of k (a ∷ b ∷ []) ≡ true → (k ≡ a) ⊎ (k ≡ b)
one_of-cases k a b h = elim (Bool-cases (same k a)) [
  | inl e ↦ inl (same_sound k a e)
  | inr e ↦ inr (same_sound k b (ground (arith, h, e)))
]

abbrev pub host_keys : List (List ℕ)
host_keys = codes "DB_HOST" ∷ codes "ERP_DB_HOST" ∷ []

abbrev pub port_keys : List (List ℕ)
port_keys = codes "DB_PORT" ∷ codes "ERP_DB_PORT" ∷ []

abbrev pub user_keys : List (List ℕ)
user_keys = codes "DB_USER" ∷ codes "ERP_DB_USER" ∷ []

abbrev pub password_keys : List (List ℕ)
password_keys = codes "DB_PASSWORD" ∷ codes "ERP_DB_PASSWORD" ∷ []

abbrev pub db_name_keys : List (List ℕ)
db_name_keys = codes "DB_NAME" ∷ codes "ERP_DB_NAME" ∷ []

abbrev pub db_type_keys : List (List ℕ)
db_type_keys = codes "DB_TYPE" ∷ codes "ERP_DB_TYPE" ∷ []

hosts-host_keys :
    (k v : List ℕ) → hosts (field_of k) v ≡ (if one_of k host_keys then v ∷ [] else [])
unfolding field_of same
hosts-host_keys k v = elim (Bool-cases (one_of k host_keys)) [
  | inl e ↦ elim (one_of-cases k (codes "DB_HOST") (codes "ERP_DB_HOST") e) [
    | inl f ↦ rw f refl
    | inr f ↦ rw f refl
  ]
  | inr e ↦ ground (arith, e)
]

ports-port_keys :
    (k v : List ℕ) → ports (field_of k) v ≡ (if one_of k port_keys then number (atoi v) else [])
unfolding field_of same
ports-port_keys k v = elim (Bool-cases (one_of k port_keys)) [
  | inl e ↦ elim (one_of-cases k (codes "DB_PORT") (codes "ERP_DB_PORT") e) [
    | inl f ↦ rw f refl
    | inr f ↦ rw f refl
  ]
  | inr e ↦ ground (arith, e)
]

users-user_keys :
    (k v : List ℕ) → users (field_of k) v ≡ (if one_of k user_keys then v ∷ [] else [])
unfolding field_of same
users-user_keys k v = elim (Bool-cases (one_of k user_keys)) [
  | inl e ↦ elim (one_of-cases k (codes "DB_USER") (codes "ERP_DB_USER") e) [
    | inl f ↦ rw f refl
    | inr f ↦ rw f refl
  ]
  | inr e ↦ ground (arith, e)
]

passwords-password_keys :
    (k v : List ℕ) → passwords (field_of k) v ≡ (if one_of k password_keys then v ∷ [] else [])
unfolding field_of same
passwords-password_keys k v = elim (Bool-cases (one_of k password_keys)) [
  | inl e ↦ elim (one_of-cases k (codes "DB_PASSWORD") (codes "ERP_DB_PASSWORD") e) [
    | inl f ↦ rw f refl
    | inr f ↦ rw f refl
  ]
  | inr e ↦ ground (arith, e)
]

db_names-db_name_keys :
    (k v : List ℕ) → db_names (field_of k) v ≡ (if one_of k db_name_keys then v ∷ [] else [])
unfolding field_of same
db_names-db_name_keys k v = elim (Bool-cases (one_of k db_name_keys)) [
  | inl e ↦ elim (one_of-cases k (codes "DB_NAME") (codes "ERP_DB_NAME") e) [
    | inl f ↦ rw f refl
    | inr f ↦ rw f refl
  ]
  | inr e ↦ ground (arith, e)
]

db_types-db_type_keys :
    (cs : Casing) (k v : List ℕ)
    → db_types cs (field_of k) v ≡ (if one_of k db_type_keys then normal_type cs v ∷ [] else [])
unfolding field_of same
db_types-db_type_keys cs k v = elim (Bool-cases (one_of k db_type_keys)) [
  | inl e ↦ elim (one_of-cases k (codes "DB_TYPE") (codes "ERP_DB_TYPE") e) [
    | inl f ↦ rw f refl
    | inr f ↦ rw f refl
  ]
  | inr e ↦ ground (arith, e)
]

module _ (cs : Casing) where
  -- The steps of a setting, by the keys.
  setting :
      {A : Type 0} (keys : List (List ℕ)) (conv : List ℕ → List A) (given : Field → List ℕ → List A)
      (agree : (k v : List ℕ) → given (field_of k) v ≡ (if one_of k keys then conv v else []))
      (get : Settings → A)
      (step : (f : Field) (v : List ℕ) (s : Settings)
        → get (set cs f v s) ≡ last_of (get s) (given f v))
      (lines : List (List ℕ))
      → get (set_lines cs lines default_settings)
        ≡ last_of (get default_settings) (assigned keys conv lines)
  setting keys conv given agree get step lines =
      set_lines-last given cs get step lines default_settings
      ∙ ap (λ l. last_of (get default_settings) l) (assigned-given keys conv given agree lines)

  -- What the two results are, field by field, from the lines of the file.
  abbrev pub IsLast : List (List ℕ) → Settings → Type 0
  IsLast lines s =
      (s.config.host ≡ last_of (codes "127.0.0.1") (assigned host_keys (λ v. v ∷ []) lines))
      × (s.config.port ≡ last_of 5432 (assigned port_keys (λ v. number (atoi v)) lines))
      × (s.config.user ≡ last_of (codes "postgres") (assigned user_keys (λ v. v ∷ []) lines))
      × (s.config.password ≡ last_of [] (assigned password_keys (λ v. v ∷ []) lines))
      × (s.config.db_name ≡ last_of (codes "postgres") (assigned db_name_keys (λ v. v ∷ []) lines))
      × (s.db_type
          ≡ last_of (codes "postgresql") (assigned db_type_keys (λ v. normal_type cs v ∷ []) lines))

  -- For every file that is read, each setting is the last value that a line of the file assigns to
  -- one of its two keys, of a port the last that is a number in range, of a type in lower case with
  -- `postgresql` for `postgres`; and where no line assigns any, the default.
  pub load_env_db-IsLast :
      (text : List ℕ)
      → IsLast (split b'\n' text) (load_env_db cs (some text)).0
        × ((load_env_db cs (some text)).1 ≡ true)
  unfolding load_env_db
  load_env_db-IsLast text =
      let lines = split b'\n' text in
      (
        (
          setting host_keys (λ v. v ∷ []) hosts hosts-host_keys (λ t. t.config.host) (host_step cs)
              lines,
          setting port_keys (λ v. number (atoi v)) ports ports-port_keys (λ t. t.config.port)
              (port_step cs) lines,
          setting user_keys (λ v. v ∷ []) users users-user_keys (λ t. t.config.user) (user_step cs)
              lines,
          setting password_keys (λ v. v ∷ []) passwords passwords-password_keys
              (λ t. t.config.password) (password_step cs) lines,
          setting db_name_keys (λ v. v ∷ []) db_names db_names-db_name_keys (λ t. t.config.db_name)
              (db_name_step cs) lines,
          setting db_type_keys (λ v. normal_type cs v ∷ []) (db_types cs) (db_types-db_type_keys cs)
              (λ t. t.db_type) (db_type_step cs) lines,
        ),
        refl,
      )
