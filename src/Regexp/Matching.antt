-- ===== src/Regexp/Matching.antt =====
-- The match that takes as much as a class allows, and what becomes of a text that is one match.
use go_project.Base.{
  ℕ, zero, suc, ◌-◌, ◌≡◌, refl, List, [], ◌∷◌, ◌++◌, Option, none, some, true, false, length,
  length-append, take-append, arith, All, append-nil,
}
use mathlib.Core.Path.{subst}
use go_project.Text.{is_empty}
use go_project.Regexp.{
  Class, in_class, Re, Groups, Next, run_many, match_at, find_from, find_submatch, replace_from,
  replace_matches, consumed,
}

-- The code point before the end of a text, of which the one before is `prev`.
abbrev pub before_end : Option ℕ → List ℕ → Option ℕ
before_end prev [] = prev
before_end prev (c ∷ s) = before_end (some c) s

pub run_many_all :
    (cl : Class) (w : List ℕ) (d : ℕ) (rest : List ℕ) (prev : Option ℕ) (g : Groups) (next : Next)
    (x : List ℕ × Groups)
    → All (λ (c : ℕ). in_class cl c ≡ true) w
    → in_class cl d ≡ false
    → next (before_end prev w) (d ∷ rest) g ≡ some x
    → run_many cl prev (w ++ (d ∷ rest)) g next ≡ some x
unfolding run_many
run_many_all cl [] d rest prev g next x h e n = rw (e, run_many) n
run_many_all cl (c ∷ w) d rest prev g next x (k, h) e n =
    rw (k, run_many, run_many_all cl w d rest (some c) g next x h e n) refl

pub consumed-append : (a b : List ℕ) → consumed (a ++ b) b ≡ a
consumed-append a b =
    take-append (length (a ++ b) - length b) a b (omega (arith, length-append a b))

replace_from_rest :
    (re : Re) (f : List ℕ → Groups → List ℕ) (prev : Option ℕ) (n : ℕ) (s : List ℕ)
    → n ≡ length s
    → replace_from re f prev n s ≡ []
unfolding replace_from
replace_from_rest re f prev n [] e = refl
replace_from_rest re f prev zero (c ∷ s) e = absurd (omega (arith, e))
replace_from_rest re f prev (suc n) (c ∷ s) e =
    replace_from_rest re f (some c) n s (omega (arith, e))

whole_length : (c : ℕ) (s : List ℕ) → consumed (c ∷ s) [] ≡ c ∷ s
whole_length c s =
    subst (λ (t : List ℕ). consumed t [] ≡ c ∷ s) (append-nil (c ∷ s)) (consumed-append (c ∷ s) [])

-- A text that is one match.
pub replace_matches_whole :
    (re : Re) (f : List ℕ → Groups → List ℕ) (s : List ℕ) (g : Groups)
    → is_empty s ≡ false
    → match_at re none s ≡ some ([], g)
    → replace_matches re f s ≡ f s g
unfolding replace_matches replace_from
replace_matches_whole re f [] g e m = absurd (ground (arith, e))
replace_matches_whole re f (c ∷ s) g e m =
    rw
      (
        m,
        replace_from,
        whole_length c s,
        replace_from_rest re f (some c) (length s - 0) s (omega arith),
      )
      (append-nil (f (c ∷ s) g))

pub find_submatch_first :
    (re : Re) (s t : List ℕ) (g : Groups)
    → match_at re none s ≡ some (t, g)
    → find_submatch re s ≡ some g
unfolding find_submatch find_from
find_submatch_first re [] t g m = rw (m, find_from) refl
find_submatch_first re (c ∷ s) t g m = rw (m, find_from) refl
