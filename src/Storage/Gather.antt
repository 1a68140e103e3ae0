-- ===== src/Storage/Gather.antt =====
-- What is collected from days in any order, as a multiset: the points of each of the days, once.
use mathlib.Core.Path.{subst}
use mathlib.Core.Logic.{∥∥₁_elim}
use mathlib.Core.List.{Perm, Permᴰ, perm_middle, perm_append_comm, Perm-prop}
use mathlib.Core.List.Perm
use go_project.Base.{
  ℕ, ◌≡◌, refl, ap, ◌∙◌, sym, List, [], ◌∷◌, ◌++◌, append_assoc, true, false, inl, inr, keep,
  keep-true, keep-false, All, Bool-cases, arith,
}
use go_project.Base.Dict.{same, same_sound, same_refl}
use go_project.Point.{SimpleDataPoint}
use go_project.Storage.{Calendar}
use go_project.Storage.Grouping.{on_day}
use go_project.Storage.Days.{Searched}

module _ (f : ℕ → List SimpleDataPoint) where
  abbrev pub gather : List ℕ → List SimpleDataPoint
  gather [] = []
  gather (d ∷ ds) = f d ++ gather ds

  gather_swap : (c d : ℕ) (ds : List ℕ) → Perm (gather (c ∷ d ∷ ds)) (gather (d ∷ c ∷ ds))
  gather_swap c d ds =
      subst (λ (l : List SimpleDataPoint). Perm l (f d ++ (f c ++ gather ds)))
        (append_assoc (f c) (f d) (gather ds))
        (subst (λ (l : List SimpleDataPoint). Perm ((f c ++ f d) ++ gather ds) l)
          (append_assoc (f d) (f c) (gather ds))
          (Perm.append_right (gather ds) (perm_append_comm (f c) (f d))))

  gather-Permᴰ : {ds es : List ℕ} → Permᴰ ds es → Perm (gather ds) (gather es)
  gather-Permᴰ Permᴰ.nil = Perm.nil
  gather-Permᴰ (Permᴰ.cons {a = a} {b = b} {l₁ = l₁} {l₂ = l₂} e p) =
      subst (λ (c : ℕ). Perm (f a ++ gather l₁) (f c ++ gather l₂)) e
        (Perm.append_left (f a) (gather-Permᴰ p))
  gather-Permᴰ (Permᴰ.swap {a = a} {b = b} {a' = a'} {b' = b'} {l = l} e e') =
      subst (λ (c : ℕ). Perm (gather (a ∷ b ∷ l)) (gather (c ∷ b' ∷ l))) e'
        (subst (λ (c : ℕ). Perm (gather (a ∷ b ∷ l)) (gather (b ∷ c ∷ l))) e (gather_swap a b l))
  gather-Permᴰ (Permᴰ.trans p q) = Perm.trans (gather-Permᴰ p) (gather-Permᴰ q)

  pub gather-Perm : {ds es : List ℕ} → Perm ds es → Perm (gather ds) (gather es)
  gather-Perm p = ∥∥₁_elim p Perm-prop gather-Permᴰ

-- Days of which no two have the same date.
abbrev pub AreApart : Calendar → List ℕ → Type 0
AreApart cal [] = Unit {0}
AreApart cal (d ∷ ds) = All (λ e. same (cal.date_of d) (cal.date_of e) ≡ false) ds × AreApart cal ds

module _ (cal : Calendar) where
  abbrev pub points_on : List SimpleDataPoint → ℕ → List SimpleDataPoint
  points_on ps d = keep (on_day cal (cal.date_of d)) ps

  gather_absent :
      (q : SimpleDataPoint) (ps : List SimpleDataPoint) (ds : List ℕ)
      → All (λ e. on_day cal (cal.date_of e) q ≡ false) ds
      → gather (points_on (q ∷ ps)) ds ≡ gather (points_on ps) ds
  gather_absent q ps [] h = refl
  gather_absent q ps (d ∷ ds) (h, hs) =
      rw (keep-false (on_day cal (cal.date_of d)) q ps h)
        (ap (λ l. points_on ps d ++ l) (gather_absent q ps ds hs))

  absent_behind :
      (q : SimpleDataPoint) (d : ℕ) (ds : List ℕ)
      → on_day cal (cal.date_of d) q ≡ true
      → All (λ e. same (cal.date_of d) (cal.date_of e) ≡ false) ds
      → All (λ e. on_day cal (cal.date_of e) q ≡ false) ds
  absent_behind q d ds h =
      subst
        (λ (date : List ℕ).
          All (λ e. same date (cal.date_of e) ≡ false) ds
          → All (λ e. on_day cal (cal.date_of e) q ≡ false) ds)
        (same_sound (cal.date_of q.timestamp) (cal.date_of d) h) (λ a. a)

  Searched-behind :
      (q : SimpleDataPoint) (d : ℕ) (ds : List ℕ)
      → on_day cal (cal.date_of d) q ≡ false
      → Searched cal (cal.date_of q.timestamp) (d ∷ ds)
      → Searched cal (cal.date_of q.timestamp) ds
  Searched-behind q d ds h (e, inr there, date) = (e, there, date)
  Searched-behind q d ds h (e, inl here, date) =
      let today : same (cal.date_of q.timestamp) (cal.date_of d) ≡ true =
        subst (λ (day : List ℕ). same (cal.date_of q.timestamp) day ≡ true)
          (sym date ∙ ap cal.date_of here) (same_refl (cal.date_of q.timestamp)) in
      absurd (ground (arith, today, h))

  gather_cons :
      (q : SimpleDataPoint) (ps : List SimpleDataPoint) (ds : List ℕ)
      → AreApart cal ds
      → Searched cal (cal.date_of q.timestamp) ds
      → Perm (gather (points_on (q ∷ ps)) ds) (q ∷ gather (points_on ps) ds)
  gather_cons q ps [] apart (d, here, date) = absurd here
  gather_cons q ps (d ∷ ds) (apart, aparts) found =
      elim (Bool-cases (on_day cal (cal.date_of d) q)) [
        | inl today ↦
            rw
              (
                keep-true (on_day cal (cal.date_of d)) q ps today,
                gather_absent q ps ds (absent_behind q d ds today apart),
              )
              (Perm.refl (q ∷ (points_on ps d ++ gather (points_on ps) ds)))
        | inr other ↦ rw (keep-false (on_day cal (cal.date_of d)) q ps other) (
            Perm.trans
              (Perm.append_left (points_on ps d)
                (gather_cons q ps ds aparts (Searched-behind q d ds other found)))
              (perm_middle (points_on ps d) (gather (points_on ps) ds)))
      ]

  gather_none : (ds : List ℕ) → gather (points_on []) ds ≡ []
  gather_none [] = refl
  gather_none (d ∷ ds) = gather_none ds

  -- Days with different dates, among which the date of each point is, give each point once.
  pub gather_all :
      (ps : List SimpleDataPoint) (ds : List ℕ)
      → AreApart cal ds
      → All (λ q. Searched cal (cal.date_of q.timestamp) ds) ps
      → Perm (gather (points_on ps) ds) ps
  gather_all [] ds apart found = rw (gather_none ds) Perm.nil
  gather_all (q ∷ ps) ds apart (found, founds) =
      Perm.trans (gather_cons q ps ds apart found) (Perm.cons q (gather_all ps ds apart founds))
