-- ===== src/Point/Fields.antt =====
-- ToMap of tffiles/simple_datapoint.go, and what it gives for the schemas that registerSchema of
-- tffiles/storage.go makes. A float32 is its bits.
use mathlib.Core.Path.{subst}
use go_project.Base.{
  ℕ, zero, suc, ◌+◌, ◌≡◌, refl, sym, ap, ◌∙◌, List, [], ◌∷◌, Option, none, some, Bool, true, ◌&&◌,
  get_elem?, length, ◌++◌, ltb, leb, ◌==◌, if◌then◌else◌, Bool-cases, inl, inr, arith,
}
use go_project.Base.Dict.{same, same_refl, same_sound, lookup, insert, lookup-insert}
use go_project.Point.{SimpleDataPoint, IsPoint, encode_simple_point, decode_simple_point}
use go_project.Point.RoundTrip.{decode_simple_point-encode_simple_point}
use go_project.Storage.{Storage, FieldName, field_names, register_schema, get_device_schema}
use go_project.Storage.Grouping.{get_device_schema-register_schema}

abbrev pub put_value : List ℕ → Option ℕ → List (List ℕ × ℕ) → List (List ℕ × ℕ)
put_value name none m = m
put_value name (some v) m = insert name v m

-- The loop, from the index `i` on.
unfoldable pub to_map_from : List ℕ → ℕ → List (List ℕ) → List (List ℕ × ℕ) → List (List ℕ × ℕ)
to_map_from values i [] m = m
to_map_from values i (name ∷ names) m =
    to_map_from values (i + 1) names (put_value name (get_elem? values i) m)

unfoldable pub to_map : List (List ℕ) → SimpleDataPoint → List (List ℕ × ℕ)
to_map names p = to_map_from p.values 0 names []

abbrev or_else : Option ℕ → Option ℕ → Option ℕ
or_else none other = other
or_else (some v) other = some v

or_else-none : (o : Option ℕ) → or_else o none ≡ o
or_else-none none = refl
or_else-none (some v) = refl

lookup-put_value :
    (k j : List ℕ) (value : Option ℕ) (m : List (List ℕ × ℕ))
    → lookup j (put_value k value m) ≡ (if same k j then or_else value (lookup j m) else lookup j m)
lookup-put_value k j none m = elim (Bool-cases (same k j)) [ inl e ↦ rw e refl | inr e ↦ rw e refl ]
lookup-put_value k j (some v) m = lookup-insert k j v m

-- The names of different fields differ.
abbrev pub IsApart : FieldName → Type 0
IsApart name = (i j : ℕ) → name i ≡ name j → i ≡ j

module _ (name : FieldName) (apart : IsApart name) where
  same_name : (i j : ℕ) → same (name i) (name j) ≡ (i == j)
  same_name i j = elim (Bool-cases (same (name i) (name j))) [
    | inl e ↦ let k = apart i j (same_sound (name i) (name j) e) in rw e (ground (arith, k))
    | inr e ↦ elim (Bool-cases (i == j)) [
      | inr d ↦ e ∙ sym d
      | inl d ↦
          let k : i ≡ j = ground (arith, d) in
          absurd (
            ground
              (arith, e, subst (λ (l : ℕ). same (name i) (name l) ≡ true) k (same_refl (name i))))
    ]
  ]

  -- The value of the field `i` behind the loop over the names from `k` on.
  abbrev expected : List ℕ → ℕ → ℕ → ℕ → Option ℕ → Option ℕ
  expected values k n i old =
      if leb k i && ltb i (k + n) then or_else (get_elem? values i) old else old

  here :
      (values : List ℕ) (n i : ℕ) (old : Option ℕ)
      → expected values (i + 1) n i (or_else (get_elem? values i) old)
        ≡ expected values i (suc n) i old
  here values n i old = ground arith

  expected_step :
      (values : List ℕ) (k n i : ℕ) (old : Option ℕ)
      → expected values (k + 1) n i (if k == i then or_else (get_elem? values k) old else old)
        ≡ expected values k (suc n) i old
  expected_step values k n i old = elim (Bool-cases (k == i)) [
    | inl e ↦
        let same_index : i ≡ k = ground (arith, e) in
        rw e (
          subst
            (λ (l : ℕ).
              expected values (l + 1) n i (or_else (get_elem? values l) old)
              ≡ expected values l (suc n) i old)
            same_index (here values n i old))
    | inr e ↦ ground (arith, e)
  ]

  lookup-to_map_from :
      (values : List ℕ) (k n i : ℕ) (m : List (List ℕ × ℕ))
      → lookup (name i) (to_map_from values k (field_names name k n) m)
        ≡ expected values k n i (lookup (name i) m)
  unfolding to_map_from field_names
  lookup-to_map_from values k zero i m = ground arith
  lookup-to_map_from values k (suc n) i m =
      lookup-to_map_from values (k + 1) n i (put_value (name k) (get_elem? values k) m)
      ∙ ap (expected values (k + 1) n i) (
          lookup-put_value (name k) (name i) (get_elem? values k) m
          ∙ ap
              (λ (b : Bool).
                if b then or_else (get_elem? values k) (lookup (name i) m) else lookup (name i) m)
              (same_name k i))
      ∙ expected_step values k n i (lookup (name i) m)

  whole :
      (values : List ℕ) (n i : ℕ)
      → expected values 0 n i none ≡ (if ltb i n then get_elem? values i else none)
  whole values n i = let e = or_else-none (get_elem? values i) in ground (arith, e)

  -- ToMap, of a point and a schema with `n` fields, has for the name of each of them the value of
  -- the point at its place, where the point has one, and nothing for the name of any other field;
  -- if the names of different fields differ.
  pub to_map-field_names :
      (p : SimpleDataPoint) (n i : ℕ)
      → lookup (name i) (to_map (field_names name 0 n) p)
        ≡ (if ltb i n then get_elem? p.values i else none)
  unfolding to_map lookup
  to_map-field_names p n i = lookup-to_map_from p.values 0 n i [] ∙ whole p.values n i

-- The field of a name, as a reader of the bytes of a point of the device finds it.
unfoldable pub field_value : Storage → List ℕ → List ℕ → List ℕ → Option ℕ
field_value s device name bytes = elim (decode_simple_point bytes) [
  | none ↦ none
  | some p ↦ elim (get_device_schema device s) [
    | none ↦ none
    | some names ↦ lookup name (to_map names p)
  ]
]

get_elem?_beyond :
    (values : List ℕ) (i : ℕ)
    → (if ltb i (length values) then get_elem? values i else none) ≡ get_elem? values i
get_elem?_beyond [] i = ground arith
get_elem?_beyond (v ∷ values) zero = ground arith
get_elem?_beyond (v ∷ values) (suc i) = let e = get_elem?_beyond values i in ground (arith, e)

schema_of :
    (name : FieldName) (device : List ℕ) (count : ℕ) (s : Storage)
    → get_device_schema device s ≡ none
    → get_device_schema device (register_schema name device count s)
      ≡ some (field_names name 0 count)
schema_of name device count s new =
    get_device_schema-register_schema name device device count s ∙ rw (new, same_refl device) refl

-- The first batch of a device registers a schema with a name for each value of its first point. By
-- that schema, and through the bytes of the point, whatever follows them, every name gives the
-- point's value at its place: if the point's fields fit, and the names of different fields differ.
pub field_value-encode_simple_point :
    (name : FieldName) (p : SimpleDataPoint) (device rest : List ℕ) (s : Storage) (i : ℕ)
    → IsApart name
    → IsPoint p
    → get_device_schema device s ≡ none
    → field_value
        (register_schema name device (length p.values) s)
        device
        (name i)
        (encode_simple_point p ++ rest)
      ≡ get_elem? p.values i
unfolding field_value
field_value-encode_simple_point name p device rest s i apart h new =
    rw
      (
        decode_simple_point-encode_simple_point p rest h,
        field_value,
        schema_of name device (length p.values) s new,
      )
      (to_map-field_names name apart p (length p.values) i ∙ get_elem?_beyond p.values i)
