-- ===== src/Storage/Engine/Keys.antt =====
-- The keys of the writers: dates have ten bytes, so that two devices or two dates never share one.
use go_project.Base.{
  ℕ, ◌+◌, ◌≡◌, ◌∙◌, refl, ap, List, [], ◌∷◌, ◌++◌, true, false, ◌&&◌, length, length-append, arith,
  Bool-cases, inl, inr,
}
use go_project.Base.Dict.{same, same_sound}
use go_project.Storage.{writer_key}

same-length : (xs ys : List ℕ) → same xs ys ≡ true → length xs ≡ length ys
same-length xs ys h = ap (λ (l : List ℕ). length l) (same_sound xs ys h)

longer : (xs ys : List ℕ) → (length xs ≡ length ys → ⊥) → same xs ys ≡ false
longer xs ys h = elim (Bool-cases (same xs ys)) [
  | inr differ ↦ differ
  | inl agree ↦ absurd (h (same-length xs ys agree))
]

pub same-writer_key :
    (device other date day : List ℕ)
    → length date ≡ length day
    → same (writer_key device date) (writer_key other day) ≡ (same device other && same date day)
unfolding writer_key same
same-writer_key [] [] date day h = refl
same-writer_key [] (y ∷ other) date day h =
    let size : length (other ++ (b'_' ∷ day)) ≡ length other + (length day + 1) =
      length-append other (b'_' ∷ day) ∙ omega arith in
    let differ : same date (other ++ (b'_' ∷ day)) ≡ false =
      longer date (other ++ (b'_' ∷ day)) (λ e. omega (arith, h, e, size)) in
    ground (arith, differ)
same-writer_key (x ∷ device) [] date day h =
    let size : length (device ++ (b'_' ∷ date)) ≡ length device + (length date + 1) =
      length-append device (b'_' ∷ date) ∙ omega arith in
    let differ : same (device ++ (b'_' ∷ date)) day ≡ false =
      longer (device ++ (b'_' ∷ date)) day (λ e. omega (arith, h, e, size)) in
    ground (arith, differ)
same-writer_key (x ∷ device) (y ∷ other) date day h =
    ground (arith, same-writer_key device other date day h)
