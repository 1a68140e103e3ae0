-- ===== src/Bits.antt =====
-- Go's `|` and `&` on unsigned numbers, as the encoders use them: to set and clear the top bit of
-- a byte, and to join numbers whose bits do not overlap.
use Prim.Native.Nat.{max, bit_and, bit_or, digits, bit_or-bitwise}
use native.Mathlib.Nat.{pow-suc, le_refl}
use go_project.Base.{
  ℕ, zero, suc, ◌+◌, ◌*◌, ◌/◌, ◌%◌, ◌^◌, ◌≤◌, ◌<◌, ◌≡◌, refl, ap, ◌∙◌, Bool, true, arith, ◌==◌,
  ==_iff, ltb, ltb→lt, if◌then◌else◌, sym, ◌-◌, false, Bool-cases, inl, inr,
}

-- Two functions that give the same on the numbers below `n`.
agree : ℕ → (ℕ → ℕ) → (ℕ → ℕ) → Bool
agree zero f g = true
agree (suc n) f g = let rest = agree n f g in if f n == g n then rest else false

agree_sound : (n : ℕ) (f g : ℕ → ℕ) (x : ℕ) → agree n f g ≡ true → x < n → f x ≡ g x
unfolding agree
agree_sound zero f g x h low = absurd (omega arith)
agree_sound (suc n) f g x h low = elim (Bool-cases (f n == g n)) [
  | inr differ ↦ ground (arith, h, differ)
  | inl same ↦ elim (Bool-cases (ltb x n)) [
    | inl below ↦ agree_sound n f g x (rw same at h) (ltb→lt x n below)
    | inr top ↦ let here : x ≡ n = ground arith in rw here ((==_iff (f n) (g n)).0 same)
  ]
]

-- byte(ux)|0x80 and b&0x7F.
pub set_top_bit : (b : ℕ) → b < 256 → bit_or b 0x80 ≡ b % 128 + 128
unfolding agree
set_top_bit b h = agree_sound 256 (λ x. bit_or x 0x80) (λ x. x % 128 + 128) b refl h

pub clear_top_bit : (b : ℕ) → b < 256 → bit_and b 0x7f ≡ b % 128
unfolding agree
clear_top_bit b h = agree_sound 256 (λ x. bit_and x 0x7f) (λ x. x % 128) b refl h

-- flags>>4 and flags&0x0F.
pub low_half : (b : ℕ) → b < 256 → bit_and b 0x0f ≡ b % 16
unfolding agree
low_half b h = agree_sound 256 (λ x. bit_and x 0x0f) (λ x. x % 16) b refl h

-- flags |= byte(a) << 4; flags |= byte(b), for lengths of at most ten, which one number holds.
abbrev flags_of : ℕ → ℕ → ℕ
flags_of a b = bit_or (bit_or 0 (a % 256 * 16 % 256)) (b % 256)

pub two_lengths :
    (a b : ℕ) → a ≤ 10 → b ≤ 10 → bit_or (bit_or 0 (a % 256 * 16 % 256)) (b % 256) ≡ a * 16 + b
unfolding agree
two_lengths a b ha hb =
    let high : (a * 11 + b) / 11 ≡ a = omega arith in
    let low : (a * 11 + b) % 11 ≡ b = omega arith in
    rw (high, low) at
      (agree_sound 121 (λ n. flags_of (n / 11) (n % 11)) (λ n. n / 11 * 16 + n % 11) (a * 11 + b)
        refl (omega arith))

-- The recursion on digits that `bit_or` stands for: zero needs no fuel, and more fuel than `a`
-- changes nothing.
abbrev join_digits : ℕ → ℕ → ℕ → ℕ
join_digits fuel a b = digits (λ d. d) max fuel a b

join_digits_zero : (fuel b : ℕ) → join_digits fuel 0 b ≡ b
join_digits_zero zero b = refl
join_digits_zero (suc fuel) b = refl

spare_fuel : (fuel spare a b : ℕ) → a ≤ fuel → join_digits (fuel + spare) a b ≡ join_digits fuel a b
spare_fuel fuel spare zero b h = join_digits_zero (fuel + spare) b ∙ sym (join_digits_zero fuel b)
spare_fuel zero spare (suc a) b h = absurd (omega arith)
spare_fuel (suc fuel) spare (suc a) b h =
    let more : suc fuel + spare ≡ suc (fuel + spare) = omega arith in
    rw more (omega (arith, spare_fuel fuel spare (suc a / 2) (b / 2) (omega arith)))

pub zero-bit_or : (b : ℕ) → bit_or 0 b ≡ b
zero-bit_or = bit_or-bitwise 0

bit_or_halves : (a b : ℕ) → bit_or a b ≡ max (a % 2) (b % 2) + 2 * bit_or (a / 2) (b / 2)
bit_or_halves zero b = omega (arith, zero-bit_or (b / 2), zero-bit_or b)
bit_or_halves (suc a) b =
    let half : ℕ = suc a / 2 in
    let room : half + (a - half) ≡ a = omega arith in
    let fewer : join_digits a half (b / 2) ≡ join_digits half half (b / 2) =
      ap (λ (n : ℕ). join_digits n half (b / 2)) (sym room)
      ∙ spare_fuel half (a - half) half (b / 2) (le_refl half) in
    omega (arith, fewer, bit_or-bitwise half (b / 2), bit_or-bitwise (suc a) b)

-- Where the bits of `x` all lie below those of `y << s`, `|` is addition.
pub bit_or-shifted : (s x y : ℕ) → x < 2 ^ s → bit_or x (y * 2 ^ s) ≡ x + y * 2 ^ s
bit_or-shifted zero zero y h = omega (arith, zero-bit_or (y * 2 ^ 0))
bit_or-shifted zero (suc x) y h = absurd (omega arith)
bit_or-shifted (suc s) x y h =
    let even : y * 2 ^ suc s ≡ 2 * (y * 2 ^ s) =
      omega (arith, ap (λ (t : ℕ). y * t) (pow-suc 2 s)) in
    let half : x / 2 < 2 ^ s = omega (arith, pow-suc 2 s) in
    bit_or_halves x (y * 2 ^ suc s)
    ∙ rw even
        (omega (arith, bit_or-shifted s (x / 2) y half, ap (bit_or (x / 2)) (halve (y * 2 ^ s))))
  where
    halve : (n : ℕ) → 2 * n / 2 ≡ n
    halve n = omega arith
