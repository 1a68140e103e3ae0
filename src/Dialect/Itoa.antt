-- ===== src/Dialect/Itoa.antt =====
-- itoa of gobackendkit/dialect: the digits are put into an array of twelve bytes from its end, and
-- one more is a panic, `none`. A number is the bit pattern of an int.
use native.Mathlib.Nat.{pow-suc}
use go_project.Base.{
  ℕ, zero, suc, ◌+◌, ◌-◌, ◌*◌, ◌/◌, ◌%◌, ◌^◌, ◌<◌, ◌≤◌, ◌≡◌, refl, ap, ◌∙◌, List, [], ◌∷◌, Option,
  none, some, Bool, true, false, if◌then◌else◌, arith, lt→ltb, ◌==◌,
}
use go_project.Int64

-- `i` is the number of bytes left.
unfoldable pub digits : ℕ → ℕ → List ℕ → Option (ℕ × List ℕ)
digits zero n b = if Int64.lt 0 n then none else some (0, b)
digits (suc i) n b = elim (Int64.lt 0 n) [
  | true ↦ digits i (n / 10) ((b'0' + n % 10) ∷ b)
  | false ↦ some (suc i, b)
]

abbrev signed : Bool → ℕ → List ℕ → Option (List ℕ)
signed false i b = some b
signed true zero b = none
signed true (suc i) b = some (b'-' ∷ b)

unfoldable pub itoa : ℕ → Option (List ℕ)
itoa n =
    if n == 0
    then some (b'0' ∷ [])
    else (let neg = Int64.lt n 0 in
        elim (digits 12 (if neg then Int64.sub 0 n else n) []) [
          | none ↦ none
          | some (i, b) ↦ signed neg i b
        ])

-- The number that a row of digits is read as, behind the digits of `v`.
abbrev pub decimal : ℕ → List ℕ → ℕ
decimal v [] = v
decimal v (c ∷ s) = decimal (v * 10 + (c - b'0')) s

positive : (n : ℕ) → n < 2 ^ 63 → 0 < n → Int64.lt 0 n ≡ true
unfolding Int64.rank
positive n w h = lt→ltb ((0 + 2 ^ 63) % 2 ^ 64) ((n + 2 ^ 63) % 2 ^ 64) (omega arith)

digits_step :
    (i n : ℕ) (b : List ℕ)
    → Int64.lt 0 n ≡ true
    → digits (suc i) n b ≡ digits i (n / 10) ((b'0' + n % 10) ∷ b)
unfolding digits
digits_step i n b h = rw (h, digits)

digits_full : (n : ℕ) (b : List ℕ) → Int64.lt 0 n ≡ true → digits 0 n b ≡ none
unfolding digits
digits_full n b h = rw h

digits_end : (i : ℕ) (b : List ℕ) → digits i 0 b ≡ some (i, b)
unfolding digits Int64.rank
digits_end zero b = refl
digits_end (suc i) b = refl

digits-decimal :
    (i n : ℕ) (b : List ℕ)
    → n < 2 ^ 63
    → n < 10 ^ i
    → (j : ℕ) × (d : List ℕ) × (digits i n b ≡ some (j, d)) × (decimal 0 d ≡ decimal n b)
digits-decimal i zero b w h = (i, b, digits_end i b, refl)
digits-decimal zero (suc n) b w h = absurd (omega arith)
digits-decimal (suc i) (suc m) b w h =
    let n : ℕ = suc m in
    let few : n / 10 < 10 ^ i = omega (arith, pow-suc 10 i) in
    let (j, d, e, v) = digits-decimal i (n / 10) ((b'0' + n % 10) ∷ b) (omega arith) few in
    let back : n / 10 * 10 + (b'0' + n % 10 - b'0') ≡ n = omega arith in
    (j, d, digits_step i n b (positive n w (omega arith)) ∙ e, v ∙ ap (λ (x : ℕ). decimal x b) back)

ten_power : (i : ℕ) → 0 < 10 ^ i
ten_power zero = omega arith
ten_power (suc i) = omega (arith, pow-suc 10 i, ten_power i)

digits_panics : (i n : ℕ) (b : List ℕ) → n < 2 ^ 63 → 10 ^ i ≤ n → digits i n b ≡ none
digits_panics zero n b w h =
    let one : 10 ^ 0 ≡ 1 = refl in digits_full n b (positive n w (omega (arith, one)))
digits_panics (suc i) n b w h =
    let many : 10 ^ i ≤ n / 10 = omega (arith, pow-suc 10 i) in
    let some_left : 0 < n = omega (arith, many, ten_power i) in
    digits_step i n b (positive n w some_left)
    ∙ digits_panics i (n / 10) ((b'0' + n % 10) ∷ b) (omega arith) many

itoa_positive :
    (n : ℕ)
    → n < 2 ^ 63
    → 0 < n
    → itoa n ≡ (elim (digits 12 n []) [ none ↦ none | some (i, b) ↦ some b ])
unfolding itoa Int64.rank
itoa_positive n w h = ground arith

-- A number from 1 on and below 10^12 is written in digits that read as the number.
pub itoa-decimal :
    (n : ℕ) → 0 < n → n < 10 ^ 12 → (d : List ℕ) × (itoa n ≡ some d) × (decimal 0 d ≡ n)
itoa-decimal n h l =
    let (i, d, e, v) = digits-decimal 12 n [] (omega arith) l in
    (d, itoa_positive n (omega arith) h ∙ rw e refl, v)

-- From 10^12 on, a number that is not negative panics.
pub itoa_panics : (n : ℕ) → 10 ^ 12 ≤ n → n < 2 ^ 63 → itoa n ≡ none
itoa_panics n l w = itoa_positive n w (omega arith) ∙ rw (digits_panics 12 n [] w l) refl
