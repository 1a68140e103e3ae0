-- ===== src/Writer/Order.antt =====
-- Points in the order of time give an index in order.
use native.Mathlib.Nat.{le_refl}
use go_project.Base.{
  ℕ, ◌+◌, ◌≤◌, ◌<◌, ◌≡◌, refl, List, [], ◌∷◌, ◌++◌, length, All, arith, keep, last_of,
}
use go_project.Int64.{rank}
use go_project.Zstd.{Zstd}
use go_project.Point.{SimpleDataPoint}
use go_project.Reader.{in_range}
use go_project.Index.{IndexEntry}
use go_project.Index.Search.{IsOrdered}
use go_project.Writer.{block_bytes}
use go_project.Writer.Blocks.{Block, points_of, all_points, entries_of}

abbrev pub From : ℕ → List SimpleDataPoint → Type 0
From t ps = All (λ p. t ≤ rank p.timestamp) ps

abbrev pub UpTo : ℕ → List SimpleDataPoint → Type 0
UpTo t ps = All (λ p. rank p.timestamp ≤ t) ps

-- The timestamps never fall.
abbrev pub IsSorted : List SimpleDataPoint → Type 0
IsSorted [] = Unit
IsSorted (p ∷ ps) = From (rank p.timestamp) ps × IsSorted ps

From-weaken : (s t : ℕ) (ps : List SimpleDataPoint) → s ≤ t → From t ps → From s ps
From-weaken s t [] h a = tt
From-weaken s t (p ∷ ps) h (hp, hps) = (omega arith, From-weaken s t ps h hps)

From-left : (t : ℕ) (ps qs : List SimpleDataPoint) → From t (ps ++ qs) → From t ps
From-left t [] qs h = tt
From-left t (p ∷ ps) qs (h, hs) = (h, From-left t ps qs hs)

From-right : (t : ℕ) (ps qs : List SimpleDataPoint) → From t (ps ++ qs) → From t qs
From-right t [] qs h = h
From-right t (p ∷ ps) qs (h, hs) = From-right t ps qs hs

pub IsSorted-left : (ps qs : List SimpleDataPoint) → IsSorted (ps ++ qs) → IsSorted ps
IsSorted-left [] qs h = tt
IsSorted-left (p ∷ ps) qs (h, hs) = (From-left _ ps qs h, IsSorted-left ps qs hs)

pub IsSorted-right : (ps qs : List SimpleDataPoint) → IsSorted (ps ++ qs) → IsSorted qs
IsSorted-right [] qs h = h
IsSorted-right (p ∷ ps) qs (h, hs) = IsSorted-right ps qs hs

-- The points of `qs` come no earlier than the last of `p ∷ ps`.
last-From :
    (p : SimpleDataPoint) (ps qs : List SimpleDataPoint)
    → IsSorted (p ∷ (ps ++ qs))
    → From (rank (last_of p ps).timestamp) qs
last-From p [] qs h = h.0
last-From p (x ∷ ps) qs (h, hs) = last-From x ps qs hs

pub last-UpTo :
    (p : SimpleDataPoint) (ps : List SimpleDataPoint)
    → IsSorted (p ∷ ps)
    → UpTo (rank (last_of p ps).timestamp) (p ∷ ps)
last-UpTo p [] h = (le_refl _, tt)
last-UpTo p (x ∷ ps) ((h, _), hs) = let rest = last-UpTo x ps hs in (omega (arith, rest.0), rest)

module _ (z : Zstd) (index_interval : ℕ) where
  entries-From :
      (lo hi : ℕ) (bs : List Block) (offset : ℕ)
      → From lo (all_points bs)
      → From hi (all_points bs)
      → IsSorted (all_points bs)
      → All
          (λ (e : IndexEntry). (lo ≤ rank e.start_time) × (hi ≤ rank e.end_time))
          (entries_of z index_interval offset bs)
  unfolding entries_of
  entries-From lo hi [] offset l h s = tt
  entries-From lo hi (b ∷ bs) offset l h s = (
    (l.0, omega (arith, (last-UpTo b.first b.others (IsSorted-left (points_of b) _ s)).0, h.0)),
    entries-From lo hi bs (offset + length (block_bytes z index_interval (points_of b)))
        (From-right lo (points_of b) _ l) (From-right hi (points_of b) _ h)
        (IsSorted-right (points_of b) _ s),
  )

  -- The entries that a writer makes of points in the order of time are in order.
  pub entries_of-IsOrdered :
      (bs : List Block) (offset : ℕ)
      → IsSorted (all_points bs)
      → IsOrdered (entries_of z index_interval offset bs)
  unfolding entries_of
  entries_of-IsOrdered [] offset s = tt
  entries_of-IsOrdered (b ∷ bs) offset s = (
    (last-UpTo b.first b.others (IsSorted-left (points_of b) _ s)).0,
    entries-From _ _ bs _ (From-right _ b.others _ s.0) (last-From b.first b.others _ s)
        (IsSorted-right (points_of b) _ s),
    entries_of-IsOrdered bs (offset + length (block_bytes z index_interval (points_of b)))
        (IsSorted-right (points_of b) _ s),
  )

module _ (start_time end_time : ℕ) where
  pub keep_too_late :
      (ps : List SimpleDataPoint) (t : ℕ)
      → rank end_time < t
      → From t ps
      → keep (in_range start_time end_time) ps ≡ []
  keep_too_late [] t h a = refl
  keep_too_late (p ∷ ps) t h (hp, hps) = ground (arith, keep_too_late ps t h hps)

  pub keep_too_early :
      (ps : List SimpleDataPoint) (t : ℕ)
      → t < rank start_time
      → UpTo t ps
      → keep (in_range start_time end_time) ps ≡ []
  keep_too_early [] t h a = refl
  keep_too_early (p ∷ ps) t h (hp, hps) = ground (arith, keep_too_early ps t h hps)
