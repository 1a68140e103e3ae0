-- ===== src/Point/Layout.antt =====
-- Reading back, in either byte order, what was written.
use go_project.Base.{
  ℕ, ◌+◌, ◌*◌, ◌^◌, ◌≤◌, ◌<◌, ◌≡◌, refl, ap, ◌∙◌, List, [], ◌∷◌, ◌++◌, length, All, arith,
  length-append, append_assoc, drop, drop-append, length-drop, le→ltb, lt→ltb,
}
use go_project.Bytes.{ByteOrder, drop-put}
use go_project.Point.{
  SimpleDataPoint, IsPoint, encode_values, decode_values, encode_point, short, point, next_point,
}

module _ (b : ByteOrder) where
  pub length-encode_values : (vs : List ℕ) → length (encode_values b vs) ≡ length vs * 4
  unfolding encode_values
  length-encode_values [] = omega arith
  length-encode_values (v ∷ vs) =
      rw length-append (omega (arith, b.length-put 4 v, length-encode_values vs))

  pub length-encode_point :
      (p : SimpleDataPoint) → length (encode_point b p) ≡ 10 + length p.values * 4
  unfolding encode_point
  length-encode_point p = simp length-append (
      omega (
        arith,
        b.length-put 8 p.timestamp,
        b.length-put 2 (length p.values),
        length-encode_values p.values,
      ))

  pub decode_values-encode_values :
      (vs : List ℕ) (rest : List ℕ)
      → All (λ v. v < 2 ^ 32) vs
      → decode_values b (length vs) (encode_values b vs ++ rest) ≡ vs
  unfolding encode_values decode_values
  decode_values-encode_values [] rest h = refl
  decode_values-encode_values (v ∷ vs) rest (hv, hvs) = simp (
    append_assoc,
    b.get-put 4 v (encode_values b vs ++ rest) hv,
    drop-put b,
    decode_values-encode_values vs rest hvs,
  )

  module _ (p : SimpleDataPoint) (rest : List ℕ) where
    -- The bytes of a point, with what follows them, field by field.
    unfolded :
        encode_point b p ++ rest
        ≡ b.put 8 p.timestamp ++ (b.put 2 (length p.values) ++ (encode_values b p.values ++ rest))
    unfolding encode_point
    unfolded = simp append_assoc

    header :
        encode_point b p ++ rest
        ≡ (b.put 8 p.timestamp ++ b.put 2 (length p.values)) ++ (encode_values b p.values ++ rest)
    unfolding encode_point
    header = simp append_assoc

    after_header : drop 10 (encode_point b p ++ rest) ≡ encode_values b p.values ++ rest
    after_header =
        ap (drop 10) header
        ∙ drop-append 10 _ _ (
            length-append (b.put 8 p.timestamp) (b.put 2 (length p.values))
            ∙ omega (arith, b.length-put 8 p.timestamp, b.length-put 2 (length p.values)))

    after_point : drop (10 + length p.values * 4) (encode_point b p ++ rest) ≡ rest
    after_point = drop-append _ (encode_point b p) rest (length-encode_point p)

    size : length (encode_point b p ++ rest) ≡ 10 + length p.values * 4 + length rest
    size = rw length-append (omega (arith, length-encode_point p))

    module _ (h : IsPoint p) where
      stamp : b.get 8 (encode_point b p ++ rest) ≡ p.timestamp
      stamp = ap (b.get 8) unfolded ∙ b.get-put 8 p.timestamp _ h.stamp_fits

      count : b.get 2 (drop 8 (encode_point b p ++ rest)) ≡ length p.values
      count =
          ap (λ (l : List ℕ). b.get 2 (drop 8 l)) unfolded
          ∙ ap (b.get 2) (drop-put b 8 p.timestamp _)
          ∙ b.get-put 2 (length p.values) _ h.count_fits

      values : decode_values b (length p.values) (drop 10 (encode_point b p ++ rest)) ≡ p.values
      values =
          ap (decode_values b (length p.values)) after_header
          ∙ decode_values-encode_values p.values rest h.values_fit

      -- A well-formed point is read back, and what follows it is left.
      pub next_point-encode_point : next_point b (encode_point b p ++ rest) ≡ point p rest
      unfolding next_point
      next_point-encode_point = rw (
        count,
        le→ltb (length (encode_point b p ++ rest)) 10 (omega (arith, size)),
        le→ltb (length (encode_point b p ++ rest)) (10 + length p.values * 4) (omega (arith, size)),
        stamp,
        values,
        after_point,
      )

  -- What is read takes at least the ten bytes of its header.
  pub next_point_takes :
      (d : List ℕ) {p : SimpleDataPoint} {rest : List ℕ}
      → next_point b d ≡ point p rest
      → length rest + 10 ≤ length d
  unfolding next_point
  next_point_takes d e = ground (arith, length-drop (10 + b.get 2 (drop 8 d) * 4) d)

  -- Fewer than ten bytes hold no point.
  pub next_point_short : (d : List ℕ) → length d < 10 → next_point b d ≡ short
  unfolding next_point
  next_point_short d h = rw (lt→ltb (length d) 10 h)
