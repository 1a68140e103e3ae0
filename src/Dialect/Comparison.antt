-- ===== src/Dialect/Comparison.antt =====
-- The texts of comparisons of a column `is_…` with a BIT and with a truth value.
use go_project.Base.{
  ℕ, ◌≡◌, refl, List, [], ◌∷◌, ◌++◌, Bool, true, false, ◌&&◌, ◌||◌, ◌==◌, leb, if◌then◌else◌, All,
  All-append, arith,
}
use go_project.Text.{codes, is_empty, is_space, trim_left, trim_right, trim_space}
use go_project.Text.Trim.{trim_right_tail}
use go_project.Regexp.{space, is_word}
use go_project.Regexp.Absent.{IsShort, Lacks, IsShort-Lacks}
use go_project.Dialect.Columns.{IsWord, flag_column, equals_bit}
use go_project.Dialect.Quiet.{is_quiet, IsQuiet}

-- What PostgreSQL compares with.
abbrev pub equals_bool : Bool → List ℕ
equals_bool value = if value then codes " = true" else codes " = false"

abbrev IsName : List ℕ → Type 0
IsName s = All (λ (c : ℕ). (is_word c || (c == b'.')) ≡ true) s

word-IsName : (s : List ℕ) → IsWord s → IsName s
word-IsName [] h = tt
word-IsName (c ∷ s) (e, h) = (ground (arith, e), word-IsName s h)

pub flag_column-IsName :
    (alias name : List ℕ) → IsWord alias → IsWord name → IsName (flag_column alias name)
flag_column-IsName [] name h k = (refl, (refl, (refl, word-IsName name k)))
flag_column-IsName (c ∷ alias) name h k =
    All-append _ (c ∷ alias) (codes ".is_" ++ name) (word-IsName (c ∷ alias) h)
      (refl, (refl, (refl, (refl, word-IsName name k))))

pub IsName-IsQuiet : (s t : List ℕ) → IsName s → IsQuiet t → IsQuiet (s ++ t)
IsName-IsQuiet [] t h q = q
IsName-IsQuiet (c ∷ s) t (e, h) q =
    let (l, n) = IsName-IsQuiet s t h q in ((ground (arith, e), l), ground (arith, e, n))

pub no_equals : (s : List ℕ) → IsName s → All (λ (c : ℕ). (c == b'=') ≡ false) s
no_equals [] h = tt
no_equals (c ∷ s) (e, h) = (ground (arith, e), no_equals s h)

pub not_empty : (alias name t : List ℕ) → is_empty (flag_column alias name ++ t) ≡ false
not_empty [] name t = refl
not_empty (c ∷ alias) name t = refl

-- IsQuiet, for a text that is known.
abbrev all_quiet : List ℕ → Bool
all_quiet [] = true
all_quiet (c ∷ s) = is_quiet c && all_quiet s

all_quiet_lem : (s : List ℕ) → all_quiet s ≡ true → All (λ (c : ℕ). is_quiet c ≡ true) s
all_quiet_lem [] h = tt
all_quiet_lem (c ∷ s) h = (ground (arith, h), all_quiet_lem s (ground (arith, h)))

abbrev pub IsTail : List ℕ → Type 0
IsTail t = (all_quiet t ≡ true) × IsShort space 3 t

pub IsTail-IsQuiet : (t : List ℕ) → IsTail t → IsQuiet t
IsTail-IsQuiet t (h, k) = (all_quiet_lem t h, k)

pub word_not_space : (c : ℕ) → is_word c ≡ true → is_space c ≡ false
word_not_space c e = ground (arith, e)

trimmed :
    (alias name t : List ℕ)
    → IsWord alias
    → trim_right t ≡ t
    → is_empty t ≡ false
    → trim_space (flag_column alias name ++ t) ≡ flag_column alias name ++ t
unfolding trim_space trim_left
trimmed [] name t h e n = trim_right_tail (codes "is_" ++ name) t e n
trimmed (c ∷ alias) name t (k, h) e n =
    rw (word_not_space c k) (trim_right_tail (flag_column (c ∷ alias) name) t e n)

pub bit_trimmed :
    (alias name : List ℕ) (value : Bool)
    → IsWord alias
    → trim_space (flag_column alias name ++ equals_bit value)
      ≡ flag_column alias name ++ equals_bit value
unfolding trim_right
bit_trimmed alias name true h = trimmed alias name (codes " = 1") h refl refl
bit_trimmed alias name false h = trimmed alias name (codes " = 0") h refl refl

pub bool_trimmed :
    (alias name : List ℕ) (value : Bool)
    → IsWord alias
    → trim_space (flag_column alias name ++ equals_bool value)
      ≡ flag_column alias name ++ equals_bool value
unfolding trim_right
bool_trimmed alias name true h = trimmed alias name (codes " = true") h refl refl
bool_trimmed alias name false h = trimmed alias name (codes " = false") h refl refl

pub no_digit :
    (d : ℕ) (value : Bool)
    → leb d b'9' ≡ true
    → leb b'0' d ≡ true
    → Lacks b'=' d (equals_bool value)
no_digit d true h k = IsShort-Lacks b'=' d (codes " = true") (ground (arith, h, k))
no_digit d false h k = IsShort-Lacks b'=' d (codes " = false") (ground (arith, h, k))
