-- ===== src/EnvFile/Printed.antt =====
-- A configuration file that is written as conf/env.example of gobackendkit/examples/quickstart is,
-- one KEY=VALUE a line, and what loadEnvDB reads from it.
use go_project.Base.{
  ℕ, ◌≡◌, refl, ap, ◌∙◌, List, [], ◌∷◌, ◌++◌, none, some, All, All-append, Bool, true, false, ◌&&◌,
  ◌||◌, ◌==◌, leb, last_of, if◌then◌else◌, arith,
}
use go_project.Text.{codes, Casing, one_of, is_space, trim_left, trim_right, trim_space}
use go_project.EnvFile.{
  Settings, split, cut, atoi, assignment, normal_type, load_env_db, is_quote, trim_left_quotes,
  trim_right_quotes, trim_quotes,
}
use go_project.EnvFile.Fields.{number}
use go_project.EnvFile.Last.{
  assigned, host_keys, port_keys, user_keys, password_keys, db_name_keys, db_type_keys,
  load_env_db-IsLast,
}

-- A capital letter or an underscore; and a code point that is no space and no quotation mark.
abbrev pub IsKeyCode : ℕ → Type 0
IsKeyCode c = ((leb 65 c && leb c 90) || (c == 95)) ≡ true

abbrev pub IsPlainCode : ℕ → Type 0
IsPlainCode c = (is_space c ≡ false) × (is_quote c ≡ false)

key-IsPlainCode : (c : ℕ) → IsKeyCode c → IsPlainCode c
key-IsPlainCode c h = (ground (arith, h), ground (arith, h))

trim_left-plain : (s : List ℕ) → All IsPlainCode s → trim_left s ≡ s
unfolding trim_left
trim_left-plain [] h = refl
trim_left-plain (c ∷ s) ((h, q), hs) = rw h refl

trim_right-plain : (s : List ℕ) → All IsPlainCode s → trim_right s ≡ s
unfolding trim_right
trim_right-plain [] h = refl
trim_right-plain (c ∷ []) ((h, q), hs) = rw h refl
trim_right-plain (c ∷ d ∷ s) (h, hs) = rw (trim_right-plain (d ∷ s) hs) refl

trim_space-plain : (s : List ℕ) → All IsPlainCode s → trim_space s ≡ s
unfolding trim_space
trim_space-plain s h = ap trim_right (trim_left-plain s h) ∙ trim_right-plain s h

left_quotes-plain : (s : List ℕ) → All IsPlainCode s → trim_left_quotes s ≡ s
left_quotes-plain [] h = refl
left_quotes-plain (c ∷ s) ((h, q), hs) = rw q refl

right_quotes-plain : (s : List ℕ) → All IsPlainCode s → trim_right_quotes s ≡ s
right_quotes-plain [] h = refl
right_quotes-plain (c ∷ []) ((h, q), hs) = rw q refl
right_quotes-plain (c ∷ d ∷ s) (h, hs) = rw (right_quotes-plain (d ∷ s) hs) refl

trim_quotes-plain : (s : List ℕ) → All IsPlainCode s → trim_quotes s ≡ s
unfolding trim_quotes
trim_quotes-plain s h = ap trim_right_quotes (left_quotes-plain s h) ∙ right_quotes-plain s h

cut-key : (k v : List ℕ) → All IsKeyCode k → cut b'=' (k ++ (b'=' ∷ v)) ≡ some (k, v)
unfolding cut
cut-key [] v h = refl
cut-key (c ∷ k) v (h, hs) =
    let other : (c == b'=') ≡ false = ground (arith, h) in rw (cut-key k v hs, other) refl

split-line :
    (line s : List ℕ)
    → All IsPlainCode line
    → split b'\n' (line ++ (b'\n' ∷ s)) ≡ line ∷ split b'\n' s
unfolding split
split-line [] s h = refl
split-line (c ∷ line) s ((h, q), hs) =
    let other : (c == b'\n') ≡ false = ground (arith, h) in rw (split-line line s hs, other) refl

keys-IsPlainCode : (k : List ℕ) → All IsKeyCode k → All IsPlainCode k
keys-IsPlainCode [] h = tt
keys-IsPlainCode (c ∷ k) (h, hs) = (key-IsPlainCode c h, keys-IsPlainCode k hs)

-- A key, of a letter and more, and a value without spaces and quotation marks.
abbrev pub Pair : Type 0
Pair = List ℕ × List ℕ

abbrev pub IsPair : Pair → Type 0
IsPair ([], v) = Path Bool true false
IsPair (c ∷ k, v) = All IsKeyCode (c ∷ k) × All IsPlainCode v

abbrev line_of : Pair → List ℕ
line_of (k, v) = k ++ (b'=' ∷ v)

line-IsPlainCode : (p : Pair) → IsPair p → All IsPlainCode (line_of p)
line-IsPlainCode ([], v) h = absurd (ground (arith, h))
line-IsPlainCode (c ∷ k, v) (h, hv) =
    All-append IsPlainCode (c ∷ k) (b'=' ∷ v) (keys-IsPlainCode (c ∷ k) h) ((refl, refl), hv)

assignment-line : (p : Pair) → IsPair p → assignment (line_of p) ≡ some p
unfolding assignment
assignment-line ([], v) h = absurd (ground (arith, h))
assignment-line (c ∷ k, v) (h, hv) =
    let letter : (b'#' == c) ≡ false = ground (arith, h.0) in
    rw
      (
        trim_space-plain (line_of (c ∷ k, v)) (line-IsPlainCode (c ∷ k, v) (h, hv)),
        letter,
        cut-key (c ∷ k) v h,
        trim_space-plain (c ∷ k) (keys-IsPlainCode (c ∷ k) h),
        trim_space-plain v hv,
        trim_quotes-plain v hv,
      )
      refl

empty_line : assignment [] ≡ none
unfolding assignment trim_space trim_left trim_right
empty_line = refl

-- The file.
unfoldable pub print_pairs : List Pair → List ℕ
print_pairs [] = []
print_pairs (p ∷ ps) = line_of p ++ (b'\n' ∷ print_pairs ps)

-- The values of the pairs that have one of the keys.
module _ {A : Type 0} (keys : List (List ℕ)) (conv : List ℕ → List A) where
  abbrev pub printed : List Pair → List A
  printed [] = []
  printed ((k, v) ∷ ps) = (if one_of k keys then conv v else []) ++ printed ps

  assigned-printed :
      (ps : List Pair)
      → All IsPair ps
      → assigned keys conv (split b'\n' (print_pairs ps)) ≡ printed ps
  unfolding print_pairs split
  assigned-printed [] h = rw empty_line refl
  assigned-printed (p ∷ ps) (h, hs) =
      rw
        (
          split-line (line_of p) (print_pairs ps) (line-IsPlainCode p h),
          assignment-line p h,
          assigned-printed ps hs,
        )
        refl

module _ (cs : Casing) (ps : List Pair) where
  -- The settings of the pairs, with the defaults of those that have none.
  abbrev pub IsPrinted : Settings → Type 0
  IsPrinted s =
      (s.config.host ≡ last_of (codes "127.0.0.1") (printed host_keys (λ v. v ∷ []) ps))
      × (s.config.port ≡ last_of 5432 (printed port_keys (λ v. number (atoi v)) ps))
      × (s.config.user ≡ last_of (codes "postgres") (printed user_keys (λ v. v ∷ []) ps))
      × (s.config.password ≡ last_of [] (printed password_keys (λ v. v ∷ []) ps))
      × (s.config.db_name ≡ last_of (codes "postgres") (printed db_name_keys (λ v. v ∷ []) ps))
      × (s.db_type
          ≡ last_of (codes "postgresql") (printed db_type_keys (λ v. normal_type cs v ∷ []) ps))

  -- A file of lines KEY=VALUE, with keys of capital letters and underscores and values without
  -- spaces and quotation marks: it is read, and each setting is the value of the last line with one
  -- of its two keys, of a port the last that is a number in range, of a type in lower case with
  -- `postgresql` for `postgres`; and where there is no such line, the default.
  pub load_env_db-IsPrinted :
      All IsPair ps
      → IsPrinted (load_env_db cs (some (print_pairs ps))).0
        × ((load_env_db cs (some (print_pairs ps))).1 ≡ true)
  load_env_db-IsPrinted h =
      let ((host, port, user, password, db_name, db_type), read) =
        load_env_db-IsLast cs (print_pairs ps) in
      (
        (
          host ∙ ap (last_of _) (assigned-printed host_keys (λ v. v ∷ []) ps h),
          port ∙ ap (last_of _) (assigned-printed port_keys (λ v. number (atoi v)) ps h),
          user ∙ ap (last_of _) (assigned-printed user_keys (λ v. v ∷ []) ps h),
          password ∙ ap (last_of _) (assigned-printed password_keys (λ v. v ∷ []) ps h),
          db_name ∙ ap (last_of _) (assigned-printed db_name_keys (λ v. v ∷ []) ps h),
          db_type
              ∙ ap (last_of _) (assigned-printed db_type_keys (λ v. normal_type cs v ∷ []) ps h),
        ),
        read,
      )
