-- ===== src/Reader/Parse.antt =====
-- The parsing loop ends, and finds just the points of the queried range.
use go_project.Base.{
  ℕ, zero, suc, ◌+◌, ◌≤◌, ◌<◌, ◌≡◌, refl, ap, ◌∙◌, sym, List, [], ◌∷◌, ◌++◌, length, All, arith,
  keep, ◌⊎◌, inl, inr, length-append, append_assoc,
}
use native.Mathlib.Nat.{le_refl}
use go_project.Bytes.{little_endian}
use go_project.Point.{
  SimpleDataPoint, IsPoint, Next, short, overrun, point, next_point, encode_simple_point,
}
use go_project.Point.Layout.{next_point_takes, next_point_short}
use go_project.Point.RoundTrip.{next_point-encode_simple_point, length-encode_simple_point}
use go_project.Reader.{in_range, parse_loop, parse_points, parse_legacy_format}

next_cases :
    (n : Next)
    → ((n ≡ short) ⊎ ((k : ℕ) × (n ≡ overrun k)))
      ⊎ ((x : SimpleDataPoint) × (rest : List ℕ) × (n ≡ point x rest))
next_cases short = inl (inl refl)
next_cases (overrun k) = inl (inr (k, refl))
next_cases (point x rest) = inr (x, rest, refl)

-- What one point after the other is written as.
unfoldable pub encode_all : List SimpleDataPoint → List ℕ
encode_all [] = []
encode_all (p ∷ ps) = encode_simple_point p ++ encode_all ps

sizes :
    (p : SimpleDataPoint) (ps : List SimpleDataPoint) (tail : List ℕ)
    → length (encode_all ps ++ tail) + 10 ≤ length (encode_all (p ∷ ps) ++ tail)
unfolding encode_all
sizes p ps tail = rw append_assoc (
    omega (
      arith,
      length-append (encode_simple_point p) (encode_all ps ++ tail),
      length-encode_simple_point p,
    ))

module _ (start_time end_time : ℕ) where
  parse_loop_step :
      (fuel : ℕ) (d : List ℕ) (p : SimpleDataPoint) (rest : List ℕ)
      → next_point little_endian d ≡ point p rest
      → parse_loop (suc fuel) d start_time end_time
        ≡ keep (in_range start_time end_time) (p ∷ []) ++ parse_loop fuel rest start_time end_time
  unfolding parse_loop
  parse_loop_step fuel d p rest e = ground (arith, e)

  parse_loop_stop :
      (fuel : ℕ) (d : List ℕ) → length d < 10 → parse_loop fuel d start_time end_time ≡ []
  unfolding parse_loop
  parse_loop_stop zero d h = refl
  parse_loop_stop (suc fuel) d h = ground (arith, next_point_short little_endian d h)

  pub parse_loop-encode_all :
      (ps : List SimpleDataPoint) (tail : List ℕ) (fuel : ℕ)
      → All IsPoint ps
      → length tail < 10
      → length (encode_all ps ++ tail) ≤ fuel
      → parse_loop fuel (encode_all ps ++ tail) start_time end_time
        ≡ keep (in_range start_time end_time) ps
  unfolding encode_all
  parse_loop-encode_all [] tail fuel h t f = parse_loop_stop fuel tail t
  parse_loop-encode_all (p ∷ ps) tail zero (hp, hps) t f = absurd (omega (arith, sizes p ps tail))
  parse_loop-encode_all (p ∷ ps) tail (suc fuel) (hp, hps) t f =
      parse_loop_step fuel _ p (encode_all ps ++ tail)
        (rw append_assoc (next_point-encode_simple_point p (encode_all ps ++ tail) hp))
      ∙ rw (parse_loop-encode_all ps tail fuel hps t (omega (arith, sizes p ps tail)))
          (ground arith)

  -- Any two fuels that are at least the number of bytes give the same points: the loop needs no
  -- more rounds than that.
  pub parse_loop_fuel :
      (f g : ℕ) (d : List ℕ)
      → length d ≤ f
      → length d ≤ g
      → parse_loop f d start_time end_time ≡ parse_loop g d start_time end_time
  parse_loop_fuel zero g d p q =
      parse_loop_stop zero d (omega arith) ∙ sym (parse_loop_stop g d (omega arith))
  parse_loop_fuel (suc f) zero d p q =
      parse_loop_stop (suc f) d (omega arith) ∙ sym (parse_loop_stop zero d (omega arith))
  parse_loop_fuel (suc f) (suc g) d p q = elim (next_cases (next_point little_endian d)) [
    | inl stop ↦ unfold parse_loop in ground (arith, stop)
    | inr (x, rest, e) ↦
        parse_loop_step f d x rest e
        ∙ ap (λ (l : List SimpleDataPoint). keep (in_range start_time end_time) (x ∷ []) ++ l)
            (parse_loop_fuel f g rest (omega (arith, next_point_takes little_endian d e))
              (omega (arith, next_point_takes little_endian d e)))
        ∙ sym (parse_loop_step g d x rest e)
  ]

  -- Parsing the bytes of points that fit the format, and fewer than ten bytes behind them, gives the
  -- points of the range, in order.
  pub parse_points-encode_all :
      (ps : List SimpleDataPoint) (tail : List ℕ)
      → All IsPoint ps
      → length tail < 10
      → parse_points (encode_all ps ++ tail) start_time end_time
        ≡ keep (in_range start_time end_time) ps
  unfolding parse_points
  parse_points-encode_all ps tail h t = parse_loop-encode_all ps tail _ h t (le_refl _)

  -- The parser of the old format reads the same.
  pub parse_legacy_format-encode_all :
      (ps : List SimpleDataPoint) (tail : List ℕ)
      → All IsPoint ps
      → length tail < 10
      → parse_legacy_format (encode_all ps ++ tail) start_time end_time
        ≡ keep (in_range start_time end_time) ps
  unfolding parse_legacy_format
  parse_legacy_format-encode_all ps tail h t = parse_loop-encode_all ps tail _ h t (le_refl _)
