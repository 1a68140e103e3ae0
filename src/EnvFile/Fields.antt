-- ===== src/EnvFile/Fields.antt =====
-- What a line of the file does to each setting, by the case of the switch of loadEnvDB that it takes.
use go_project.Base.{
  ℕ, ◌≡◌, refl, ap, ◌∙◌, sym, List, [], ◌∷◌, ◌++◌, Option, none, some, last_of, last_of-append,
}
use go_project.Text.{Casing}
use go_project.EnvFile.{
  Settings, Field, for_host, for_port, for_user, for_password, for_db_name, for_db_type, for_none,
  field_of, atoi, assignment, normal_type, with_port, set, set_pair, set_lines,
}

-- The values that each field is given, in the order of the lines.
module _ {A : Type 0} (given : Field → List ℕ → List A) where
  abbrev pub pair_values : Option (List ℕ × List ℕ) → List A
  pair_values none = []
  pair_values (some (k, v)) = given (field_of k) v

  abbrev pub values : List (List ℕ) → List A
  values [] = []
  values (line ∷ lines) = pair_values (assignment line) ++ values lines

  module _ (cs : Casing) (get : Settings → A)
      (step : (f : Field) (v : List ℕ) (s : Settings)
        → get (set cs f v s) ≡ last_of (get s) (given f v)) where
    set_pair-last :
        (o : Option (List ℕ × List ℕ)) (s : Settings)
        → get (set_pair cs o s) ≡ last_of (get s) (pair_values o)
    set_pair-last none s = refl
    set_pair-last (some (k, v)) s = step (field_of k) v s

    pub set_lines-last :
        (lines : List (List ℕ)) (s : Settings)
        → get (set_lines cs lines s) ≡ last_of (get s) (values lines)
    unfolding set_lines
    set_lines-last [] s = refl
    set_lines-last (line ∷ lines) s =
        set_lines-last lines (set_pair cs (assignment line) s)
        ∙ ap (λ a. last_of a (values lines)) (set_pair-last (assignment line) s)
        ∙ sym (last_of-append (get s) (pair_values (assignment line)) (values lines))

abbrev pub hosts : Field → List ℕ → List (List ℕ)
hosts for_host v = v ∷ []
hosts _ v = []

abbrev pub users : Field → List ℕ → List (List ℕ)
users for_user v = v ∷ []
users _ v = []

abbrev pub passwords : Field → List ℕ → List (List ℕ)
passwords for_password v = v ∷ []
passwords _ v = []

abbrev pub db_names : Field → List ℕ → List (List ℕ)
db_names for_db_name v = v ∷ []
db_names _ v = []

abbrev pub db_types : Casing → Field → List ℕ → List (List ℕ)
db_types cs for_db_type v = normal_type cs v ∷ []
db_types cs _ v = []

abbrev pub number : Option ℕ → List ℕ
number none = []
number (some n) = n ∷ []

abbrev pub ports : Field → List ℕ → List ℕ
ports for_port v = number (atoi v)
ports _ v = []

module _ (cs : Casing) where
  pub host_step :
      (f : Field) (v : List ℕ) (s : Settings)
      → (set cs f v s).config.host ≡ last_of s.config.host (hosts f v)
  host_step for_host v s = refl
  host_step for_port v s = elim (atoi v) as (λ o. (with_port o s.config).host ≡ s.config.host) [
    | none ↦ refl
    | some p ↦ refl
  ]
  host_step for_user v s = refl
  host_step for_password v s = refl
  host_step for_db_name v s = refl
  host_step for_db_type v s = refl
  host_step for_none v s = refl

  pub user_step :
      (f : Field) (v : List ℕ) (s : Settings)
      → (set cs f v s).config.user ≡ last_of s.config.user (users f v)
  user_step for_host v s = refl
  user_step for_port v s = elim (atoi v) as (λ o. (with_port o s.config).user ≡ s.config.user) [
    | none ↦ refl
    | some p ↦ refl
  ]
  user_step for_user v s = refl
  user_step for_password v s = refl
  user_step for_db_name v s = refl
  user_step for_db_type v s = refl
  user_step for_none v s = refl

  pub password_step :
      (f : Field) (v : List ℕ) (s : Settings)
      → (set cs f v s).config.password ≡ last_of s.config.password (passwords f v)
  password_step for_host v s = refl
  password_step for_port v s =
      elim (atoi v) as (λ o. (with_port o s.config).password ≡ s.config.password) [
        | none ↦ refl
        | some p ↦ refl
      ]
  password_step for_user v s = refl
  password_step for_password v s = refl
  password_step for_db_name v s = refl
  password_step for_db_type v s = refl
  password_step for_none v s = refl

  pub db_name_step :
      (f : Field) (v : List ℕ) (s : Settings)
      → (set cs f v s).config.db_name ≡ last_of s.config.db_name (db_names f v)
  db_name_step for_host v s = refl
  db_name_step for_port v s =
      elim (atoi v) as (λ o. (with_port o s.config).db_name ≡ s.config.db_name) [
        | none ↦ refl
        | some p ↦ refl
      ]
  db_name_step for_user v s = refl
  db_name_step for_password v s = refl
  db_name_step for_db_name v s = refl
  db_name_step for_db_type v s = refl
  db_name_step for_none v s = refl

  pub port_step :
      (f : Field) (v : List ℕ) (s : Settings)
      → (set cs f v s).config.port ≡ last_of s.config.port (ports f v)
  port_step for_host v s = refl
  port_step for_port v s =
      elim (atoi v) as (λ o. (with_port o s.config).port ≡ last_of s.config.port (number o)) [
        | none ↦ refl
        | some p ↦ refl
      ]
  port_step for_user v s = refl
  port_step for_password v s = refl
  port_step for_db_name v s = refl
  port_step for_db_type v s = refl
  port_step for_none v s = refl

  pub db_type_step :
      (f : Field) (v : List ℕ) (s : Settings)
      → (set cs f v s).db_type ≡ last_of s.db_type (db_types cs f v)
  db_type_step for_host v s = refl
  db_type_step for_port v s = refl
  db_type_step for_user v s = refl
  db_type_step for_password v s = refl
  db_type_step for_db_name v s = refl
  db_type_step for_db_type v s = refl
  db_type_step for_none v s = refl
