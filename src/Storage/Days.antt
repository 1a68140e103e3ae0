-- ===== src/Storage/Days.antt =====
-- Storage.Query: the days that are searched, and what is collected from them. Times are taken as
-- the nanoseconds since 1970, so those before it are left out.
use go_project.Base.{
  ℕ, zero, suc, ◌+◌, ◌-◌, ◌*◌, ◌/◌, ◌<◌, ◌≤◌, ◌≡◌, ◌⊎◌, inl, inr, refl, ap, sym, List, [], ◌∷◌,
  ◌++◌, Option, arith, ltb, ltb→lt, if◌then◌else◌, Bool-cases,
}
use go_project.Zstd.{Zstd}
use go_project.Point.{SimpleDataPoint}
use go_project.Reader.Query.{Run, done, io_error, panicked}
use go_project.Storage.{day_ns, Calendar, Tier, hot, cold}
use go_project.Storage.Query.{query_file}

-- `for d := startDate; d.Before(endDate.Add(24 * time.Hour)); d = d.Add(24 * time.Hour)`.
unfoldable pub days_from : ℕ → ℕ → ℕ → List ℕ
days_from zero d limit = []
days_from (suc n) d limit =
    let rest = days_from n (d + day_ns) limit in if ltb d limit then d ∷ rest else []

unfoldable pub query_days : ℕ → ℕ → List ℕ
query_days start_time end_time =
    let limit = end_time + day_ns in days_from ((limit - start_time) / day_ns + 1) start_time limit

-- The data file and the index file of a device and a date, in each tier.
abbrev pub Files : Type 0
Files = Tier → List ℕ → Option (List ℕ) × Option (List ℕ)

-- An error gives no points; a panic ends the process.
abbrev pub or_nothing : Run (List SimpleDataPoint) → Option (List SimpleDataPoint)
or_nothing (done ps) = Option.some ps
or_nothing io_error = Option.some []
or_nothing panicked = Option.none

abbrev pub both :
    Option (List SimpleDataPoint) → Option (List SimpleDataPoint) → Option (List SimpleDataPoint)
both Option.none cold_points = Option.none
both (Option.some points) Option.none = Option.none
both (Option.some points) (Option.some cold_points) = Option.some (points ++ cold_points)

module _ (z : Zstd) (cal : Calendar) (files : Files) (start_time end_time : ℕ) where
  -- The hot file of a date with its index file, then the cold one with its own.
  abbrev pub both_tiers :
      Option (List ℕ) × Option (List ℕ)
      → Option (List ℕ) × Option (List ℕ)
      → Option (List SimpleDataPoint)
  both_tiers (hot_file, hot_idx) (cold_file, cold_idx) =
      both (or_nothing (query_file z start_time end_time hot_file hot_idx))
        (or_nothing (query_file z start_time end_time cold_file cold_idx))

  -- One goroutine.
  unfoldable pub query_day : ℕ → Option (List SimpleDataPoint)
  query_day d = both_tiers (files hot (cal.date_of d)) (files cold (cal.date_of d))

  unfoldable pub collect : List ℕ → List SimpleDataPoint → Option (List SimpleDataPoint)
  collect [] all_points = Option.some all_points
  collect (d ∷ ds) all_points = elim (query_day d) [
    | Option.none ↦ Option.none
    | Option.some points ↦ collect ds (all_points ++ points)
  ]

  -- `order` is the order in which the goroutines get the mutex.
  unfoldable pub query_storage : (List ℕ → List ℕ) → Option (List SimpleDataPoint)
  query_storage order = collect (order (query_days start_time end_time)) []

-- A day is among the days.
abbrev pub IsIn : ℕ → List ℕ → Type 0
IsIn d [] = ⊥
IsIn d (e ∷ es) = (d ≡ e) ⊎ IsIn d es

pub days_from_step :
    (n d limit : ℕ) → d < limit → days_from (suc n) d limit ≡ d ∷ days_from n (d + day_ns) limit
unfolding days_from
days_from_step n d limit h = ground arith

-- The last day that begins by `t` is searched, and the next one too unless `t` is its beginning.
abbrev Covers : ℕ → List ℕ → Type 0
Covers t ds = (e : ℕ) × IsIn e ds × (e ≤ t) × (t < e + day_ns) × ((t ≡ e) ⊎ IsIn (e + day_ns) ds)

Covers-cons : (t d : ℕ) (ds : List ℕ) → Covers t ds → Covers t (d ∷ ds)
Covers-cons t d ds (e, here, low, high, inl same) = (e, inr here, low, high, inl same)
Covers-cons t d ds (e, here, low, high, inr next) = (e, inr here, low, high, inr (inr next))

next_day :
    (n d limit t : ℕ)
    → d ≤ t
    → t + day_ns ≤ limit
    → limit ≤ d + day_ns + n * day_ns
    → (t ≡ d) ⊎ IsIn (d + day_ns) (days_from n (d + day_ns) limit)
next_day zero d limit t a b c = inl (omega arith)
next_day (suc n) d limit t a b c = elim (Bool-cases (ltb d t)) [
  | inr same ↦ inl (ground arith)
  | inl after ↦
      let more : d + day_ns < limit = ground arith in
      inr (rw (days_from_step n (d + day_ns) limit more) (inl refl))
]

days_from-Covers :
    (n d limit t : ℕ)
    → d ≤ t
    → t + day_ns ≤ limit
    → limit ≤ d + n * day_ns
    → Covers t (days_from n d limit)
days_from-Covers zero d limit t a b c = absurd (omega arith)
days_from-Covers (suc n) d limit t a b c =
    let early : d < limit = omega arith in
    rw (days_from_step n d limit early) (elim (Bool-cases (ltb t (d + day_ns))) [
      | inr later ↦
          let after : d + day_ns ≤ t = ground arith in
          Covers-cons t d _ (days_from-Covers n (d + day_ns) limit t after b (omega arith))
      | inl today ↦
          let before : t < d + day_ns = ltb→lt t (d + day_ns) today in
          (
            d,
            inl refl,
            a,
            before,
            elim (next_day n d limit t a b (omega arith)) [ inl e ↦ inl e | inr i ↦ inr (inr i) ],
          )
    ])

query_days-Covers :
    (start_time end_time t : ℕ)
    → start_time ≤ t
    → t ≤ end_time
    → Covers t (query_days start_time end_time)
unfolding query_days
query_days-Covers start_time end_time t a b =
    days_from-Covers ((end_time + day_ns - start_time) / day_ns + 1) start_time (end_time + day_ns)
      t a (omega arith) (omega arith)

-- Some day that is searched has the date `date`.
abbrev pub Searched : Calendar → List ℕ → List ℕ → Type 0
Searched cal date ds = (d : ℕ) × IsIn d ds × (cal.date_of d ≡ date)

-- In a calendar where no 24 hours touch more than two dates, the date of every time of the range
-- is searched, those of its two ends included.
pub query_days-Searched :
    (cal : Calendar) (start_time end_time t : ℕ)
    → ((d u : ℕ)
        → d ≤ u
        → u < d + day_ns
        → (cal.date_of u ≡ cal.date_of d) ⊎ (cal.date_of u ≡ cal.date_of (d + day_ns)))
    → start_time ≤ t
    → t ≤ end_time
    → Searched cal (cal.date_of t) (query_days start_time end_time)
query_days-Searched cal start_time end_time t two a b =
    let (d, here, low, high, next) = query_days-Covers start_time end_time t a b in
    elim (two d t low high) [
      | inl e ↦ (d, here, sym e)
      | inr e ↦ elim next [
        | inl same ↦ (d, here, ap cal.date_of (sym same))
        | inr there ↦ (d + day_ns, there, sym e)
      ]
    ]
