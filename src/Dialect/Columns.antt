-- ===== src/Dialect/Columns.antt =====
-- Comparisons of a column `is_…`, as the expressions of gobackendkit/dialect/postgres_render.go
-- match them.
use Prim.Native.String.{String}
use go_project.Base.{
  ℕ, ◌≡◌, refl, List, [], ◌∷◌, ◌++◌, append_assoc, Option, none, some, Bool, true, false, ◌==◌,
  if◌then◌else◌, All, arith, ◌∙◌,
}
use go_project.Text.{codes, is_empty}
use go_project.Regexp.{
  exact, word, space, in_class, is_word, seq, edge, many, Groups, Next, run, run_one, run_many,
  match_at, stop, consumed, at_edge,
}
use go_project.Regexp.Refuted.{run-Refuted}
use go_project.Regexp.Absent.{IsShort, IsShort-Scarce}
use go_project.Regexp.Matching.{before_end, run_many_all, consumed-append}
use go_project.Dialect.Patterns.{any_case, plain, some_of, qualifier, bool_column, column_is}

-- ASCII letters, digits and `_`
abbrev pub IsWord : List ℕ → Type 0
IsWord s = All (λ (c : ℕ). is_word c ≡ true) s

-- The column `is_` and `name` of a table's alias, if there is one.
abbrev pub flag_column : List ℕ → List ℕ → List ℕ
flag_column alias name =
    if is_empty alias then codes "is_" ++ name else alias ++ (codes ".is_" ++ name)

word-in_class : (s : List ℕ) → IsWord s → All (λ (c : ℕ). in_class word c ≡ true) s
word-in_class [] h = tt
word-in_class (c ∷ s) (e, h) = (ground (arith, e), word-in_class s h)

-- `is_\w+` before a space
run_flag :
    (name rest : List ℕ) (prev : Option ℕ) (g : Groups) (next : Next) (x : List ℕ × Groups)
    → IsWord name
    → is_empty name ≡ false
    → ((p : Option ℕ) → next p (32 ∷ rest) g ≡ some x)
    → run (seq (any_case "is_") (some_of word)) prev (codes "is_" ++ (name ++ (32 ∷ rest))) g next
      ≡ some x
unfolding run
run_flag [] rest prev g next x h e n = absurd (ground (arith, e))
run_flag (c ∷ name) rest prev g next x (k, h) e n =
    let (l, ls) = word-in_class (c ∷ name) (k, h) in
    rw (l, run_one)
      (run_many_all word name 32 rest (some c) g next x ls refl (n (before_end (some c) name)))

-- No qualifier before a text without a point.
run_unqualified :
    (s : List ℕ) (prev : Option ℕ) (g : Groups) (next : Next)
    → IsShort (exact b'.') 1 s
    → run qualifier prev s g next ≡ next prev s g
unfolding run
run_unqualified s prev g next h =
    rw
      (
        run,
        run-Refuted (exact b'.') (IsShort (exact b'.')) (IsShort-Scarce (exact b'.'))
            (seq (some_of word) (plain ".")) 0 next (λ q t k r. absurd (omega (arith, r))) prev s g
            (omega (arith, h)),
      )
      refl

run_qualified :
    (alias rest : List ℕ) (prev : Option ℕ) (g : Groups) (next : Next) (x : List ℕ × Groups)
    → IsWord alias
    → is_empty alias ≡ false
    → next (some b'.') rest g ≡ some x
    → run qualifier prev (alias ++ (b'.' ∷ rest)) g next ≡ some x
unfolding run
run_qualified [] rest prev g next x h e n = absurd (ground (arith, e))
run_qualified (c ∷ alias) rest prev g next x (k, h) e n =
    let (l, ls) = word-in_class (c ∷ alias) (k, h) in
    rw
      (
        run,
        l,
        run_one,
        run_many_all word alias b'.' rest (some c) g (λ q t m. run (plain ".") q t m next) x ls refl
            n,
      )
      refl

IsShort-append :
    (d : ℕ) (a b : List ℕ)
    → All (λ (c : ℕ). (c == d) ≡ false) a
    → IsShort (exact d) 1 b
    → IsShort (exact d) 1 (a ++ b)
IsShort-append d [] b h k = k
IsShort-append d (c ∷ a) b (e, h) k = let r = IsShort-append d a b h k in ground (arith, e, r)

pub differs :
    (d : ℕ) (s : List ℕ) → is_word d ≡ false → IsWord s → All (λ (c : ℕ). (c == d) ≡ false) s
differs d [] e h = tt
differs d (c ∷ s) e (k, h) = (ground (arith, e, k), differs d s e h)

run_column :
    (alias name rest : List ℕ) (prev : Option ℕ) (g : Groups) (next : Next) (x : List ℕ × Groups)
    → IsWord alias
    → IsWord name
    → is_empty name ≡ false
    → IsShort (exact b'.') 1 (32 ∷ rest)
    → ((p : Option ℕ) → next p (32 ∷ rest) g ≡ some x)
    → run bool_column prev (flag_column alias name ++ (32 ∷ rest)) g next ≡ some x
unfolding run
run_column [] name rest prev g next x h k e d n =
    run_unqualified (codes "is_" ++ (name ++ (32 ∷ rest))) prev g
      (λ p t m. run (seq (any_case "is_") (some_of word)) p t m next)
      (let r = IsShort-append b'.' name (32 ∷ rest) (differs b'.' name refl k) d in
        omega (arith, r))
    ∙ run_flag name rest prev g next x k e n
run_column (c ∷ alias) name rest prev g next x h k e d n =
    rw (append_assoc (c ∷ alias) (codes ".is_" ++ name) (32 ∷ rest)) (
      run_qualified (c ∷ alias) (codes "is_" ++ (name ++ (32 ∷ rest))) prev g
        (λ p t m. run (seq (any_case "is_") (some_of word)) p t m next) x h refl
        (run_flag name rest (some b'.') g next x k e n))

abbrev pub bit_digit : Bool → String
bit_digit true = "1"
bit_digit false = "0"

-- The end of a comparison with a BIT.
abbrev pub equals_bit : Bool → List ℕ
equals_bit value = if value then codes " = 1" else codes " = 0"

starts_with_word :
    (alias name t : List ℕ) → IsWord alias → at_edge none (flag_column alias name ++ t) ≡ true
starts_with_word [] name t h = refl
starts_with_word (c ∷ alias) name t (e, h) = e

match_end :
    (value : Bool) (column : List ℕ) (p : Option ℕ)
    → run
        (seq (many space) (seq (plain "=") (seq (many space) (seq (plain (bit_digit value)) edge))))
        p
        (equals_bit value)
        ((1, consumed (column ++ equals_bit value) (equals_bit value)) ∷ [])
        stop
      ≡ some ([], (1, column) ∷ [])
unfolding run run_many
match_end true column p = rw (consumed-append column (codes " = 1")) refl
match_end false column p = rw (consumed-append column (codes " = 0")) refl

no_point : (value : Bool) → IsShort (exact b'.') 1 (equals_bit value)
no_point true = omega arith
no_point false = omega arith

pub match_column :
    (alias name : List ℕ) (value : Bool)
    → IsWord alias
    → IsWord name
    → is_empty name ≡ false
    → match_at (column_is (bit_digit value)) none (flag_column alias name ++ equals_bit value)
      ≡ some ([], (1, flag_column alias name) ∷ [])
unfolding match_at run
match_column alias name true h k e =
    rw (starts_with_word alias name (equals_bit true) h, run)
      (run_column alias name (codes "= 1") none [] _ _ h k e (no_point true)
        (match_end true (flag_column alias name)))
match_column alias name false h k e =
    rw (starts_with_word alias name (equals_bit false) h, run)
      (run_column alias name (codes "= 0") none [] _ _ h k e (no_point false)
        (match_end false (flag_column alias name)))
