-- ===== src/Regexp/Absent.antt =====
-- Texts in which an expression has no match: they are left as they are.
use go_project.Base.{
  ℕ, zero, ◌+◌, ◌<◌, ◌≡◌, refl, List, [], ◌∷◌, ◌++◌, Option, none, some, true, false, ◌==◌,
  if◌then◌else◌, Bool-cases, inl, inr, arith, All,
}
use go_project.Regexp.{
  Class, exact, in_class, Re, one, seq, Groups, Next, run_one, run, match_at, stop, find_from,
  find_submatch, replace_from, replace_matches,
}
use go_project.Regexp.Refuted.{needed, Scarce, Refuted, run-Refuted}

module _ (re : Re) (Q : List ℕ → Type 0) (behind : (c : ℕ) (s : List ℕ) → Q (c ∷ s) → Q s)
    (absent : (prev : Option ℕ) (s : List ℕ) → Q s → match_at re prev s ≡ none) where
  replace_from_absent :
      (f : List ℕ → Groups → List ℕ) (prev : Option ℕ) (s : List ℕ)
      → Q s
      → replace_from re f prev zero s ≡ s
  unfolding replace_from
  replace_from_absent f prev [] q = refl
  replace_from_absent f prev (c ∷ s) q =
      rw (absent prev (c ∷ s) q, replace_from, replace_from_absent f (some c) s (behind c s q)) refl

  pub replace_matches_absent :
      (f : List ℕ → Groups → List ℕ) (s : List ℕ) → Q s → replace_matches re f s ≡ s
  unfolding replace_matches
  replace_matches_absent f s q = replace_from_absent f none s q

  find_from_absent : (prev : Option ℕ) (s : List ℕ) → Q s → find_from re prev s ≡ none
  unfolding find_from
  find_from_absent prev [] q = rw (absent prev [] q, find_from) refl
  find_from_absent prev (c ∷ s) q =
      rw (absent prev (c ∷ s) q, find_from, find_from_absent (some c) s (behind c s q)) refl

  pub find_submatch_absent : (s : List ℕ) → Q s → find_submatch re s ≡ none
  unfolding find_submatch
  find_submatch_absent s q = find_from_absent none s q

-- How many code points of a class there are.
abbrev pub count : Class → List ℕ → ℕ
count cl [] = 0
count cl (c ∷ s) = (if in_class cl c then 1 else 0) + count cl s

abbrev pub IsShort : Class → ℕ → List ℕ → Type 0
IsShort cl m s = count cl s < m

pub IsShort-Scarce : (cl : Class) → Scarce cl (IsShort cl)
IsShort-Scarce cl = record {
  fewer = λ n m s h. omega (arith, h);
  behind = λ m c s h. omega (arith, h);
  taken = λ m c s e h. ground (arith, e, h);
}

IsShort-match_at :
    (cl : Class) (re : Re) (prev : Option ℕ) (s : List ℕ)
    → IsShort cl (needed cl re + 0) s
    → match_at re prev s ≡ none
unfolding match_at
IsShort-match_at cl re prev s h =
    run-Refuted cl (IsShort cl) (IsShort-Scarce cl) re 0 stop (λ q t g k. absurd (omega (arith, k)))
      prev s [] h

pub IsShort-replace_matches :
    (cl : Class) (re : Re) (f : List ℕ → Groups → List ℕ) (s : List ℕ)
    → IsShort cl (needed cl re + 0) s
    → replace_matches re f s ≡ s
IsShort-replace_matches cl re f s h =
    replace_matches_absent re (IsShort cl (needed cl re + 0)) (λ c t k. omega (arith, k))
      (IsShort-match_at cl re) f s h

pub IsShort-find_submatch :
    (cl : Class) (re : Re) (s : List ℕ)
    → IsShort cl (needed cl re + 0) s
    → find_submatch re s ≡ none
IsShort-find_submatch cl re s h =
    find_submatch_absent re (IsShort cl (needed cl re + 0)) (λ c t k. omega (arith, k))
      (IsShort-match_at cl re) s h

-- Behind every `d` there is no `e`.
abbrev pub Lacks : ℕ → ℕ → List ℕ → Type 0
Lacks d e [] = Unit
Lacks d e (c ∷ s) = ((c == d) ≡ true → IsShort (exact e) 1 s) × Lacks d e s

pub Lacks-append :
    (d e : ℕ) (a b : List ℕ)
    → All (λ (c : ℕ). (c == d) ≡ false) a
    → Lacks d e b
    → Lacks d e (a ++ b)
Lacks-append d e [] b h l = l
Lacks-append d e (c ∷ a) b (n, h) l = (λ y. ground (arith, n, y), Lacks-append d e a b h l)

Lacks-Scarce : (d e : ℕ) → Scarce (exact e) (λ m s. Lacks d e s)
Lacks-Scarce d e = record {
  fewer = λ n m s l. l;
  behind = λ m c s (x, l). l;
  taken = λ m c s y (x, l). l;
}

then_lacking :
    (d e : ℕ) (rest : Re) (next : Next)
    → needed (exact e) rest ≡ 1
    → Refuted (λ m s. Lacks d e s) 0 (λ prev s g. run (seq (one (exact d)) rest) prev s g next)
unfolding run
then_lacking d e rest next n prev [] g l = refl
then_lacking d e rest next n prev (c ∷ s) g (x, l) = elim (Bool-cases (c == d)) [
  | inr y ↦ rw (y, run_one) refl
  | inl y ↦
      rw (y, run_one)
        (run-Refuted (exact e) (IsShort (exact e)) (IsShort-Scarce (exact e)) rest 0 next
          (λ q t k h. absurd (omega (arith, h))) (some c) s g (let h = x y in omega (arith, h, n)))
]

-- Three expressions, a `d`, and one that needs an `e`.
pub Lacks-replace_matches :
    (d e : ℕ) (r1 r2 r3 rest : Re) (f : List ℕ → Groups → List ℕ) (s : List ℕ)
    → needed (exact e) rest ≡ 1
    → Lacks d e s
    → replace_matches (seq r1 (seq r2 (seq r3 (seq (one (exact d)) rest)))) f s ≡ s
unfolding match_at run
Lacks-replace_matches d e r1 r2 r3 rest f s n l =
    let re = seq r1 (seq r2 (seq r3 (seq (one (exact d)) rest))) in
    let by = λ (r : Re) (next : Next) (h : Refuted (λ m s. Lacks d e s) 0 next).
      run-Refuted (exact e) (λ m s. Lacks d e s) (Lacks-Scarce d e) r 0 next h in
    replace_matches_absent re (Lacks d e) (λ c t (x, k). k)
      (λ prev t k.
        by r1
          (λ p u g.
            run r2 p u g
              (λ p u g. run r3 p u g (λ p u g. run (seq (one (exact d)) rest) p u g stop)))
          (by r2 (λ p u g. run r3 p u g (λ p u g. run (seq (one (exact d)) rest) p u g stop))
            (by r3 (λ p u g. run (seq (one (exact d)) rest) p u g stop)
              (then_lacking d e rest stop n)))
          prev t [] k)
      f s l

pub IsShort-Lacks : (d e : ℕ) (s : List ℕ) → IsShort (exact e) 1 s → Lacks d e s
IsShort-Lacks d e [] h = tt
IsShort-Lacks d e (c ∷ s) h = (λ y. omega (arith, h), IsShort-Lacks d e s (omega (arith, h)))
