-- ===== src/Index/Search.antt =====
-- On an index whose entries are in order, binarySearchIndex finds the first block that does not
-- end before the target.
use go_project.Base.{
  ℕ, zero, suc, ◌+◌, ◌-◌, ◌/◌, ◌≤◌, ◌<◌, ◌≡◌, refl, List, [], ◌∷◌, Option, none, some, length, All,
  arith, get_elem?, get_or, false, leb, leb→le, ltb→lt, if◌then◌else◌, Bool-cases, inl, inr,
}
use native.Mathlib.Nat.{le_refl}
use go_project.Int64
use go_project.Int64.{rank}
use go_project.Index.{IndexEntry, walk_back, search_loop, binary_search_index}

-- No block ends before it starts, and the blocks are in order by their starts and by their ends.
abbrev pub IsOrdered : List IndexEntry → Type 0
IsOrdered [] = Unit
IsOrdered (e ∷ es) =
    (rank e.start_time ≤ rank e.end_time)
    × All (λ x. (rank e.start_time ≤ rank x.start_time) × (rank e.end_time ≤ rank x.end_time)) es
    × IsOrdered es

-- A total read for statements; every use stands under a bound on the index.
abbrev pub nothing : IndexEntry
nothing = record { start_time = 0; end_time = 0; offset = 0; block_length = 0; crc32 = 0 }

abbrev pub start_at : List IndexEntry → ℕ → ℕ
start_at es i = rank (get_or es i nothing).start_time

abbrev pub end_at : List IndexEntry → ℕ → ℕ
end_at es i = rank (get_or es i nothing).end_time

All-at :
    (P : IndexEntry → Type 0) (es : List IndexEntry) (i : ℕ)
    → All P es
    → i < length es
    → P (get_or es i nothing)
All-at P [] i h b = absurd (omega arith)
All-at P (e ∷ es) zero h b = h.0
All-at P (e ∷ es) (suc i) h b = All-at P es i h.1 (omega arith)

starts_before_end :
    (es : List IndexEntry) (i : ℕ) → IsOrdered es → i < length es → start_at es i ≤ end_at es i
starts_before_end [] i h b = absurd (omega arith)
starts_before_end (e ∷ es) zero h b = h.0
starts_before_end (e ∷ es) (suc i) h b = starts_before_end es i h.2 (omega arith)

pub ordered :
    (es : List IndexEntry) (i j : ℕ)
    → IsOrdered es
    → i ≤ j
    → j < length es
    → (start_at es i ≤ start_at es j) × (end_at es i ≤ end_at es j)
ordered [] i j h p b = absurd (omega arith)
ordered (e ∷ es) zero zero h p b = (le_refl _, le_refl _)
ordered (e ∷ es) (suc i) zero h p b = absurd (omega arith)
ordered (e ∷ es) zero (suc j) h p b = All-at _ es j h.1 (omega arith)
ordered (e ∷ es) (suc i) (suc j) h p b = ordered es i j h.2 (omega arith) (omega arith)

get_elem?-eq-get_or :
    (es : List IndexEntry) (i : ℕ) → i < length es → get_elem? es i ≡ some (get_or es i nothing)
get_elem?-eq-get_or [] i h = absurd (omega arith)
get_elem?-eq-get_or (e ∷ es) zero h = refl
get_elem?-eq-get_or (e ∷ es) (suc i) h = get_elem?-eq-get_or es i (omega arith)

-- `r` splits the index into blocks that end before the target and blocks that do not.
abbrev pub Splits : List IndexEntry → ℕ → ℕ → Type 0
Splits es target r =
    (r ≤ length es)
    × ((i : ℕ) → i < r → end_at es i < rank target)
    × ((i : ℕ) → r ≤ i → i < length es → rank target ≤ end_at es i)

-- The search returns an index, and it satisfies `P`.
abbrev pub Finds : Option ℕ → (ℕ → Type 0) → Type 0
Finds none P = ⊥
Finds (some r) P = P r

pub Finds-some : (o : Option ℕ) (P : ℕ → Type 0) → Finds o P → (r : ℕ) × (o ≡ some r) × P r
Finds-some none P h = absurd h
Finds-some (some r) P h = (r, refl, h)

gt_of_leb : (a b : ℕ) → leb a b ≡ false → b < a
gt_of_leb a b h = ground arith

module _ (es : List IndexEntry) (target : ℕ) (order : IsOrdered es) where
  walk_back-Splits :
      (mid : ℕ)
      → mid < length es
      → rank target ≤ end_at es mid
      → Finds (walk_back es target mid) (Splits es target)
  unfolding walk_back
  walk_back-Splits zero b t =
      (omega arith, λ i p. absurd (omega arith), λ i p q. omega (arith, ordered es 0 i order p q))
  walk_back-Splits (suc m) b t =
      rw (get_elem?-eq-get_or es m (omega arith), walk_back)
        (elim (Bool-cases (Int64.le target (get_or es m nothing).end_time)) [
          | inl before ↦ rw before (walk_back-Splits m (omega arith) (ground arith))
          | inr after ↦ rw after (
            omega arith,
            λ i p. ground (arith, (ordered es i m order (omega arith) (omega arith)).1),
            λ i p q. omega (arith, ordered es (suc m) i order p q),
          )
        ])

  -- Before `left` all blocks end too early, and from `stop` on all start too late.
  record Inv (left stop : ℕ) : Type 0 where
    bounds : left ≤ stop
    inside : stop ≤ length es
    early : (i : ℕ) → i < left → end_at es i < rank target
    late : (i : ℕ) → stop ≤ i → i < length es → rank target < start_at es i

  Inv-Splits : {left : ℕ} → Inv left left → Splits es target left
  Inv-Splits v =
      (v.inside, v.early, λ i p q. omega (arith, v.late i p q, starts_before_end es i order q))

  module _ {left stop : ℕ} (v : Inv left stop) (more : left < stop) where
    abbrev mid : ℕ
    mid = (left + stop - 1) / 2

    above-Inv : end_at es mid < rank target → Inv (mid + 1) stop
    above-Inv h = record {
      bounds = omega arith;
      inside = v.inside;
      early = λ i p. omega (arith, ordered es i mid order (omega arith) (omega (arith, v.inside)));
      late = v.late;
    }

    below-Inv : rank target < start_at es mid → Inv left mid
    below-Inv h = record {
      bounds = omega arith;
      inside = omega (arith, v.inside);
      early = v.early;
      late = λ i p q. omega (arith, ordered es mid i order p q);
    }

  -- One round of the loop, on a range that is not empty.
  round :
      (fuel left stop : ℕ)
      → left < stop
      → stop ≤ length es
      → search_loop es target (suc fuel) left stop ≡ (
          if Int64.lt (get_or es ((left + stop - 1) / 2) nothing).end_time target
          then search_loop es target fuel ((left + stop - 1) / 2 + 1) stop
          else if Int64.lt target (get_or es ((left + stop - 1) / 2) nothing).start_time
          then search_loop es target fuel left ((left + stop - 1) / 2)
          else walk_back es target ((left + stop - 1) / 2))
  unfolding search_loop
  round fuel left stop p q = ground (arith, get_elem?-eq-get_or es ((left + stop - 1) / 2))

  search_loop-Splits :
      (fuel left stop : ℕ)
      → stop - left < fuel
      → Inv left stop
      → Finds (search_loop es target fuel left stop) (Splits es target)
  unfolding search_loop
  search_loop-Splits zero left stop f v = absurd (omega arith)
  search_loop-Splits (suc fuel) left stop f v = elim (Bool-cases (leb stop left)) [
    | inl over ↦
        let same : stop ≡ left = omega (arith, v.bounds, leb→le stop left over) in
        rw over (Inv-Splits (rw same at v))
    | inr goes_on ↦
        let more : left < stop = omega (arith, gt_of_leb stop left goes_on) in
        rw (round fuel left stop more v.inside)
          (elim (Bool-cases (Int64.lt (get_or es (mid v more) nothing).end_time target)) [
            | inl early ↦ rw early (
                search_loop-Splits fuel (mid v more + 1) stop (omega arith)
                  (above-Inv v more (ltb→lt _ _ early)))
            | inr reaches ↦
                rw reaches
                  (elim (Bool-cases (Int64.lt target (get_or es (mid v more) nothing).start_time)) [
                    | inl late ↦ rw late (
                        search_loop-Splits fuel left (mid v more) (omega arith)
                          (below-Inv v more (ltb→lt _ _ late)))
                    | inr hit ↦
                        rw hit
                          (walk_back-Splits (mid v more) (omega (arith, v.inside)) (ground arith))
                  ])
          ])
  ]

  -- On an ordered index the search returns a place: every entry before it ends before the target,
  -- and no entry from it on does.
  pub binary_search_index-Splits : Finds (binary_search_index es target) (Splits es target)
  unfolding binary_search_index
  binary_search_index-Splits =
      search_loop-Splits (suc (length es)) 0 (length es) (omega arith) (record {
        bounds = omega arith;
        inside = omega arith;
        early = λ i p. absurd (omega arith);
        late = λ i p q. absurd (omega arith);
      })
