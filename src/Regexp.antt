-- ===== src/Regexp.antt =====
-- Package regexp, as far as gobackendkit/dialect uses it: expressions whose repetitions are of one
-- class of code points, the leftmost match, of which the first choices are preferred, the text of
-- its groups, and the replacement of all matches. Text is the list of its code points.
pub mod Refuted
pub mod Absent
pub mod Matching
use go_project.Base.{
  ℕ, zero, suc, ◌+◌, ◌-◌, List, [], ◌∷◌, ◌++◌, Option, none, some, Bool, true, false, not, ◌&&◌,
  ◌||◌, ◌==◌, leb, length, take, if◌then◌else◌,
}
use go_project.Text.{codes}

-- `fold` is a letter in lower case that stands for itself in either case, with the two letters
-- beyond ASCII that unicode.SimpleFold gives k and s; `word` is `\w` with these two, as it is under
-- the flag i.
pub data Class : Type 0 where
  exact : ℕ → Class
  fold : ℕ → Class
  space digit word : Class
  none_of : List ℕ → Class

abbrev pub is_decimal : ℕ → Bool
is_decimal c = leb b'0' c && leb c b'9'

-- What `\b` takes for a part of a word, which is ASCII under every flag.
abbrev pub is_word : ℕ → Bool
is_word c = is_decimal c || (leb b'a' c && leb c b'z') || (leb b'A' c && leb c b'Z') || (c == b'_')

abbrev pub is_blank : ℕ → Bool
is_blank c = (c == 9) || (c == 10) || (c == 12) || (c == 13) || (c == 32)

abbrev pub among : List ℕ → ℕ → Bool
among [] c = false
among (d ∷ ds) c = (c == d) || among ds c

abbrev pub in_class : Class → ℕ → Bool
in_class (exact d) c = c == d
in_class (fold d) c =
    (c == d) || (c + 32 == d) || ((d == b'k') && (c == 8490)) || ((d == b's') && (c == 383))
in_class space c = is_blank c
in_class digit c = is_decimal c
in_class word c = is_word c || (c == 8490) || (c == 383)
in_class (none_of ds) c = not (among ds c)

pub data Re : Type 0 where
  one : Class → Re
  many few : Class → Re
  seq either : Re → Re → Re
  maybe : Re → Re
  group : ℕ → Re → Re
  edge start_of_text end_of_text nothing : Re

-- The texts of the groups by their numbers, the last first.
abbrev pub Groups : Type 0
Groups = List (ℕ × List ℕ)

-- What is left of the text behind a match, and its groups.
abbrev pub Found : Type 0
Found = Option (List ℕ × Groups)

-- What comes behind a place: the code point before it, the text from it on and the groups so far.
abbrev pub Next : Type 0
Next = Option ℕ → List ℕ → Groups → Found

abbrev pub or_else : Found → Found → Found
or_else (some x) other = some x
or_else none other = other

abbrev pub consumed : List ℕ → List ℕ → List ℕ
consumed s t = take (length s - length t) s

abbrev before_word : Option ℕ → Bool
before_word none = false
before_word (some c) = is_word c

abbrev behind_word : List ℕ → Bool
behind_word [] = false
behind_word (c ∷ s) = is_word c

-- `\b`
abbrev pub at_edge : Option ℕ → List ℕ → Bool
at_edge prev s = if before_word prev then not (behind_word s) else behind_word s

-- As many as there are, then fewer.
unfoldable pub run_many : Class → Option ℕ → List ℕ → Groups → Next → Found
run_many cl prev [] g next = next prev [] g
run_many cl prev (c ∷ s) g next = elim (in_class cl c) [
  | false ↦ next prev (c ∷ s) g
  | true ↦ or_else (run_many cl (some c) s g next) (next prev (c ∷ s) g)
]

-- As few as will do.
unfoldable pub run_few : Class → Option ℕ → List ℕ → Groups → Next → Found
run_few cl prev [] g next = next prev [] g
run_few cl prev (c ∷ s) g next = elim (in_class cl c) [
  | false ↦ next prev (c ∷ s) g
  | true ↦ or_else (next prev (c ∷ s) g) (run_few cl (some c) s g next)
]

abbrev pub run_one : Class → List ℕ → Groups → Next → Found
run_one cl [] g next = none
run_one cl (c ∷ s) g next = elim (in_class cl c) [ true ↦ next (some c) s g | false ↦ none ]

abbrev pub run_start : Option ℕ → List ℕ → Groups → Next → Found
run_start none s g next = next none s g
run_start (some c) s g next = none

abbrev pub run_end : Option ℕ → List ℕ → Groups → Next → Found
run_end prev [] g next = next prev [] g
run_end prev (c ∷ s) g next = none

unfoldable pub run : Re → Option ℕ → List ℕ → Groups → Next → Found
run (one cl) prev s g next = run_one cl s g next
run (many cl) prev s g next = run_many cl prev s g next
run (few cl) prev s g next = run_few cl prev s g next
run (seq a b) prev s g next = run a prev s g (λ p t h. run b p t h next)
run (either a b) prev s g next = or_else (run a prev s g next) (run b prev s g next)
run (maybe a) prev s g next = or_else (run a prev s g next) (next prev s g)
run (group n a) prev s g next = run a prev s g (λ p t h. next p t ((n, consumed s t) ∷ h))
run edge prev s g next = elim (at_edge prev s) [ true ↦ next prev s g | false ↦ none ]
run start_of_text prev s g next = run_start prev s g next
run end_of_text prev s g next = run_end prev s g next
run nothing prev s g next = next prev s g

abbrev pub stop : Next
stop prev s g = some (s, g)

unfoldable pub match_at : Re → Option ℕ → List ℕ → Found
match_at re prev s = run re prev s [] stop

-- FindStringSubmatch: the groups of the leftmost match.
unfoldable pub find_from : Re → Option ℕ → List ℕ → Option Groups
find_from re prev [] = elim (match_at re prev []) [ none ↦ none | some (t, g) ↦ some g ]
find_from re prev (c ∷ s) = elim (match_at re prev (c ∷ s)) [
  | none ↦ find_from re (some c) s
  | some (t, g) ↦ some g
]

unfoldable pub find_submatch : Re → List ℕ → Option Groups
find_submatch re s = find_from re none s

-- The text of a group, empty for one that took no part.
abbrev pub group_text : ℕ → Groups → List ℕ
group_text n [] = []
group_text n ((m, text) ∷ g) = if m == n then text else group_text n g

-- The loop of ReplaceAllStringFunc and ReplaceAllString, for expressions that match no empty text:
-- `skip` code points of a match are still to be passed over.
unfoldable pub replace_from : Re → (List ℕ → Groups → List ℕ) → Option ℕ → ℕ → List ℕ → List ℕ
replace_from re f prev skip [] = []
replace_from re f prev (suc skip) (c ∷ s) = replace_from re f (some c) skip s
replace_from re f prev zero (c ∷ s) = elim (match_at re prev (c ∷ s)) [
  | none ↦ c ∷ replace_from re f (some c) zero s
  | some (t, g) ↦ f (consumed (c ∷ s) t) g ++ replace_from re f (some c) (length s - length t) s
]

unfoldable pub replace_matches : Re → (List ℕ → Groups → List ℕ) → List ℕ → List ℕ
replace_matches re f s = replace_from re f none zero s
