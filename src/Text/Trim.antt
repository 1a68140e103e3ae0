-- ===== src/Text/Trim.antt =====
-- What strings.TrimSpace leaves begins with no space, and trimming it again leaves something.
use go_project.Base.{ℕ, ◌≡◌, refl, List, [], ◌∷◌, ◌++◌, false, ◌⊎◌, inl, inr, Bool-cases, arith}
use go_project.Text.{is_empty, is_space, put, trim_left, trim_right, trim_space}

abbrev Begins : List ℕ → Type 0
Begins s = (s ≡ []) ⊎ ((c : ℕ) × (r : List ℕ) × (s ≡ c ∷ r) × (is_space c ≡ false))

trim_left-Begins : (s : List ℕ) → Begins (trim_left s)
unfolding trim_left
trim_left-Begins [] = inl refl
trim_left-Begins (c ∷ s) = elim (Bool-cases (is_space c)) [
  | inl space ↦ rw space (trim_left-Begins s)
  | inr letter ↦ rw letter (inr (c, s, refl, letter))
]

put_letter : (c : ℕ) (s : List ℕ) → is_space c ≡ false → put c s ≡ c ∷ s
put_letter c [] h = rw h
put_letter c (d ∷ s) h = refl

pub trim_space-letter :
    (c : ℕ) (s : List ℕ) → is_space c ≡ false → trim_space (c ∷ s) ≡ c ∷ trim_right s
unfolding trim_space trim_left trim_right
trim_space-letter c s h = rw h (put_letter c (trim_right s) h)

trim_space-Begins : (s : List ℕ) → Begins (trim_space s)
unfolding trim_space trim_right
trim_space-Begins s = elim (trim_left-Begins s) [
  | inl e ↦ inl (rw e refl)
  | inr (c, r, e, h) ↦ inr (c, trim_right r, rw e (put_letter c (trim_right r) h), h)
]

pub trim_space_again :
    (s : List ℕ) → is_empty (trim_space s) ≡ false → is_empty (trim_space (trim_space s)) ≡ false
trim_space_again s h = elim (trim_space-Begins s) [
  | inl e ↦ ground (arith, h, e)
  | inr (c, r, e, l) ↦ rw e (rw (trim_space-letter c r l) refl)
]

put_before : (c : ℕ) (a t : List ℕ) → is_empty t ≡ false → put c (a ++ t) ≡ c ∷ (a ++ t)
put_before c [] [] n = absurd (ground (arith, n))
put_before c [] (d ∷ t) n = refl
put_before c (d ∷ a) t n = refl

-- A text that ends in one that is trimmed.
pub trim_right_tail :
    (a t : List ℕ) → trim_right t ≡ t → is_empty t ≡ false → trim_right (a ++ t) ≡ a ++ t
unfolding trim_right
trim_right_tail [] t e n = e
trim_right_tail (c ∷ a) t e n = rw (trim_right_tail a t e n) (put_before c a t n)
