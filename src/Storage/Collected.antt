-- ===== src/Storage/Collected.antt =====
-- Storage.Query over several days: whatever the order in which the goroutines end, each point of
-- the range is in the result once.
use mathlib.Core.Path.{subst}
use mathlib.Core.List.{Perm}
use mathlib.Core.List.Perm
use go_project.Base.{
  ℕ, zero, suc, ◌+◌, ◌<◌, ◌≤◌, ◌^◌, ◌≡◌, ◌≢◌, ◌⊎◌, refl, ap, ◌∙◌, sym, List, [], ◌∷◌, ◌++◌,
  append_assoc, append-nil, some, Bool, true, false, inl, inr, keep, keep-true, keep-false, All,
  Bool-cases, arith, ltb, ◌&&◌, leb→le,
}
use go_project.Base.Dict.{same, same_sound}
use go_project.Int64
use go_project.Zstd.{Zstd}
use go_project.Point.{SimpleDataPoint}
use go_project.Reader.{in_range}
use go_project.Storage.{Calendar, day_ns}
use go_project.Storage.Grouping.{on_day}
use go_project.Storage.Days.{
  Files, days_from, query_days, query_day, collect, query_storage, Searched, query_days-Searched,
}
use go_project.Storage.Gather.{gather, gather-Perm, gather_all, points_on, AreApart}

-- A calendar without changes of the clock: no 24 hours touch more than two dates, and times that
-- are 24 hours or more apart have different dates.
pub record IsRegular (cal : Calendar) : Type 0 where
  pub two_dates :
      (d u : ℕ)
      → d ≤ u
      → u < d + day_ns
      → (cal.date_of u ≡ cal.date_of d) ⊎ (cal.date_of u ≡ cal.date_of (d + day_ns))
  pub later_date : (d e : ℕ) → d + day_ns ≤ e → cal.date_of d ≢ cal.date_of e

keep-keep :
    (p q : SimpleDataPoint → Bool) (ps : List SimpleDataPoint)
    → keep p (keep q ps) ≡ keep q (keep p ps)
keep-keep p q [] = refl
keep-keep p q (x ∷ ps) = ground (arith, keep-keep p q ps)

All-keep :
    (P : SimpleDataPoint → Type 0) (p : SimpleDataPoint → Bool) (ps : List SimpleDataPoint)
    → ((x : SimpleDataPoint) → p x ≡ true → P x)
    → All P (keep p ps)
All-keep P p [] h = tt
All-keep P p (x ∷ ps) h = elim (Bool-cases (p x)) [
  | inl e ↦ subst (All P) (sym (keep-true p x ps e)) (h x e, All-keep P p ps h)
  | inr e ↦ subst (All P) (sym (keep-false p x ps e)) (All-keep P p ps h)
]

earlier : (d : ℕ) (ds : List ℕ) → All (λ e. d + day_ns ≤ e) ds → All (λ e. d ≤ e) ds
earlier d [] h = tt
earlier d (e ∷ ds) (h, hs) = (omega arith, earlier d ds hs)

days_from-late : (n d limit : ℕ) → All (λ e. d ≤ e) (days_from n d limit)
unfolding days_from
days_from-late zero d limit = tt
days_from-late (suc n) d limit = elim (Bool-cases (ltb d limit)) [
  | inl more ↦ rw more (
    omega arith,
    earlier d (days_from n (d + day_ns) limit) (days_from-late n (d + day_ns) limit),
  )
  | inr end ↦ rw end tt
]

module _ (cal : Calendar) (regular : IsRegular cal) where
  later-different :
      (d : ℕ) (ds : List ℕ)
      → All (λ e. d + day_ns ≤ e) ds
      → All (λ e. same (cal.date_of d) (cal.date_of e) ≡ false) ds
  later-different d [] h = tt
  later-different d (e ∷ ds) (h, hs) = elim (Bool-cases (same (cal.date_of d) (cal.date_of e))) [
    | inl equal ↦
        absurd (regular.later_date d e h (same_sound (cal.date_of d) (cal.date_of e) equal))
    | inr different ↦ (different, later-different d ds hs)
  ]

  days_from-AreApart : (n d limit : ℕ) → AreApart cal (days_from n d limit)
  unfolding days_from
  days_from-AreApart zero d limit = tt
  days_from-AreApart (suc n) d limit = elim (Bool-cases (ltb d limit)) [
    | inl more ↦ rw more (
      later-different d (days_from n (d + day_ns) limit) (days_from-late n (d + day_ns) limit),
      days_from-AreApart n (d + day_ns) limit,
    )
    | inr end ↦ rw end tt
  ]

module _ (z : Zstd) (cal : Calendar) (files : Files) (start_time end_time : ℕ)
    (f : ℕ → List SimpleDataPoint)
    (answers : (d : ℕ) → query_day z cal files start_time end_time d ≡ some (f d)) where
  collect-gather :
      (ds : List ℕ) (ps : List SimpleDataPoint)
      → collect z cal files start_time end_time ds ps ≡ some (ps ++ gather f ds)
  unfolding collect
  collect-gather [] ps = ap some (sym (append-nil ps))
  collect-gather (d ∷ ds) ps =
      rw (answers d, collect)
        (collect-gather ds (ps ++ f d) ∙ ap some (append_assoc ps (f d) (gather f ds)))

both_true : (x y : Bool) → (x && y) ≡ true → (x ≡ true) × (y ≡ true)
both_true x y h = ground (arith, h)

in_range-between :
    (start_time end_time : ℕ) (p : SimpleDataPoint)
    → start_time < 2 ^ 63
    → end_time < 2 ^ 63
    → p.timestamp < 2 ^ 63
    → in_range start_time end_time p ≡ true
    → (start_time ≤ p.timestamp) × (p.timestamp ≤ end_time)
unfolding Int64.rank
in_range-between start_time end_time p a b t h =
    let (low, high) =
      both_true (Int64.le start_time p.timestamp) (Int64.le p.timestamp end_time) h in
    let after : Int64.rank start_time ≤ Int64.rank p.timestamp = leb→le _ _ low in
    let before : Int64.rank p.timestamp ≤ Int64.rank end_time = leb→le _ _ high in
    (omega arith, omega arith)

module _ (cal : Calendar) (regular : IsRegular cal) (start_time end_time : ℕ)
    (start_fits : start_time < 2 ^ 63) (end_fits : end_time < 2 ^ 63) where
  kept-Searched :
      (ps : List SimpleDataPoint)
      → All (λ p. p.timestamp < 2 ^ 63) ps
      → All
          (λ p. Searched cal (cal.date_of p.timestamp) (query_days start_time end_time))
          (keep (in_range start_time end_time) ps)
  kept-Searched [] h = tt
  kept-Searched (p ∷ ps) (h, hs) = elim (Bool-cases (in_range start_time end_time p)) [
    | inr out ↦ rw (keep-false (in_range start_time end_time) p ps out) (kept-Searched ps hs)
    | inl e ↦
        let (low, high) = in_range-between start_time end_time p start_fits end_fits h e in
        rw (keep-true (in_range start_time end_time) p ps e) (
          query_days-Searched cal start_time end_time p.timestamp regular.two_dates low high,
          kept-Searched ps hs,
        )
  ]

  query_days-AreApart : AreApart cal (query_days start_time end_time)
  unfolding query_days
  query_days-AreApart = days_from-AreApart cal regular _ start_time _

  -- Where every searched day answers with the points of its date in the range: in whatever order
  -- the goroutines end, the result has just the points of the range, each as often as it was there.
  pub query_storage-Perm :
      (z : Zstd) (files : Files) (order : List ℕ → List ℕ) (ps : List SimpleDataPoint)
      → Perm (order (query_days start_time end_time)) (query_days start_time end_time)
      → All (λ p. p.timestamp < 2 ^ 63) ps
      → ((d : ℕ)
          → query_day z cal files start_time end_time d
            ≡ some (keep (in_range start_time end_time) (keep (on_day cal (cal.date_of d)) ps)))
      → (result : List SimpleDataPoint) × (query_storage z cal files start_time end_time order
          ≡ some result)
        × Perm result (keep (in_range start_time end_time) ps)
  unfolding query_storage
  query_storage-Perm z files order ps turns fits answers =
      let kept : List SimpleDataPoint = keep (in_range start_time end_time) ps in
      let days : List ℕ = query_days start_time end_time in
      (
        gather (points_on cal kept) (order days),
        collect-gather z cal files start_time end_time (points_on cal kept)
            (λ d.
              answers d
              ∙ ap some (keep-keep (in_range start_time end_time) (on_day cal (cal.date_of d)) ps))
            (order days) [],
        Perm.trans (gather-Perm (points_on cal kept) turns)
            (gather_all cal kept days query_days-AreApart (kept-Searched ps fits)),
      )
