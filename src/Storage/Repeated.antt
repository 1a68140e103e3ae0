-- ===== src/Storage/Repeated.antt =====
-- Storage.Query where a date has more than 24 hours, as where the clock is put back: the days that
-- are searched are 24 hours apart, and two of them may have the same date.
use go_project.Base.{
  ℕ, zero, suc, ◌+◌, ◌-◌, ◌/◌, ◌<◌, ◌≤◌, ◌≡◌, refl, ap, ◌∙◌, List, [], ◌∷◌, ◌++◌, some, arith,
  le→ltb,
}
use go_project.Zstd.{Zstd}
use go_project.Point.{SimpleDataPoint}
use go_project.Storage.{Calendar, day_ns}
use go_project.Storage.Days.{
  Files, days_from, days_from_step, query_days, query_day, collect, query_storage,
}

days_from_end : (n d limit : ℕ) → limit ≤ d → days_from n d limit ≡ []
unfolding days_from
days_from_end zero d limit h = refl
days_from_end (suc n) d limit h = rw (le→ltb d limit h) refl

two_days :
    (n start_time limit : ℕ)
    → start_time + day_ns < limit
    → limit ≤ start_time + day_ns + day_ns
    → days_from (suc (suc n)) start_time limit ≡ start_time ∷ (start_time + day_ns) ∷ []
two_days n start_time limit a b =
    days_from_step (suc n) start_time limit (omega arith)
    ∙ ap (λ (ds : List ℕ). start_time ∷ ds)
        (days_from_step n (start_time + day_ns) limit a
          ∙ ap (λ (ds : List ℕ). (start_time + day_ns) ∷ ds)
              (days_from_end n (start_time + day_ns + day_ns) limit b))

query_days_two :
    (start_time end_time : ℕ)
    → start_time < end_time
    → end_time ≤ start_time + day_ns
    → query_days start_time end_time ≡ start_time ∷ (start_time + day_ns) ∷ []
unfolding query_days
query_days_two start_time end_time a b =
    let rounds : (end_time + day_ns - start_time) / day_ns + 1
        ≡ suc (suc ((end_time + day_ns - start_time) / day_ns - 1)) =
      omega arith in
    ap (λ (n : ℕ). days_from n start_time (end_time + day_ns)) rounds
    ∙ two_days ((end_time + day_ns - start_time) / day_ns - 1) start_time (end_time + day_ns)
        (omega arith) (omega arith)

module _ (z : Zstd) (cal : Calendar) (files : Files) (start_time end_time : ℕ) where
  query_day_again :
      (d e : ℕ)
      → cal.date_of d ≡ cal.date_of e
      → query_day z cal files start_time end_time d ≡ query_day z cal files start_time end_time e
  unfolding query_day
  query_day_again d e h = rw h refl

  collect_two :
      (c d : ℕ) (ps qs : List SimpleDataPoint)
      → query_day z cal files start_time end_time c ≡ some ps
      → query_day z cal files start_time end_time d ≡ some qs
      → collect z cal files start_time end_time (c ∷ d ∷ []) [] ≡ some (ps ++ qs)
  unfolding collect
  collect_two c d ps qs h k = rw (h, collect, k) refl

  -- A range of at most 24 hours whose beginning has the same date 24 hours later, as happens where
  -- the clock is put back: every point that the day answers with is in the result twice.
  pub query_storage_twice :
      (ps : List SimpleDataPoint)
      → start_time < end_time
      → end_time ≤ start_time + day_ns
      → cal.date_of (start_time + day_ns) ≡ cal.date_of start_time
      → query_day z cal files start_time end_time start_time ≡ some ps
      → query_storage z cal files start_time end_time (λ ds. ds) ≡ some (ps ++ ps)
  unfolding query_storage
  query_storage_twice ps a b same answer =
      ap (λ (ds : List ℕ). collect z cal files start_time end_time ds [])
        (query_days_two start_time end_time a b)
      ∙ collect_two start_time (start_time + day_ns) ps ps answer
          (query_day_again (start_time + day_ns) start_time same ∙ answer)
