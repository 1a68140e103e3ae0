-- ===== src/Varint/RoundTrip.antt =====
-- decodeVarint undoes encodeVarint on every int64, and what is written is 1 to 10 bytes.
use Prim.Native.Nat.{bit_or}
use native.Mathlib.Numerals.{towards_suc}
use native.Mathlib.Nat.{pow-suc}
use go_project.Base.{
  ℕ, zero, suc, ◌+◌, ◌*◌, ◌/◌, ◌%◌, ◌^◌, ◌≤◌, ◌<◌, ◌≡◌, refl, ap, ◌∙◌, List, [], ◌∷◌, length, All,
  arith, leb, Bool-cases, inl, inr,
}
use go_project.Bytes.{IsByte}
use go_project.Int64.{IsWord}
use go_project.Bits.{set_top_bit, clear_top_bit, bit_or-shifted}
use go_project.Varint.{encode_loop, encode_varint, decode_loop, decode_varint}

length-encode_loop :
    (k ux : ℕ) → (1 ≤ length (encode_loop k ux)) × (length (encode_loop k ux) ≤ k + 1)
unfolding encode_loop
length-encode_loop zero ux = omega arith
length-encode_loop (suc k) ux = ground (arith, length-encode_loop k (ux / 2 ^ 7))

encode_loop-IsByte : (k ux : ℕ) → All IsByte (encode_loop k ux)
unfolding encode_loop
encode_loop-IsByte zero ux = omega arith
encode_loop-IsByte (suc k) ux =
    ground (arith, set_top_bit (ux % 256), encode_loop-IsByte k (ux / 2 ^ 7))

-- 1 to 10 bytes are written.
pub length-encode_varint :
    (x : ℕ) → (1 ≤ length (encode_varint x)) × (length (encode_varint x) ≤ 10)
unfolding encode_varint
length-encode_varint x = length-encode_loop 9 x

pub encode_varint-IsByte : (x : ℕ) → All IsByte (encode_varint x)
unfolding encode_varint
encode_varint-IsByte x = encode_loop-IsByte 9 x

shift_seven : (s : ℕ) → 2 ^ (s + 7) ≡ 128 * 2 ^ s
shift_seven s = simp towards_suc (omega arith)

-- What `w` stands for from bit `s` on, without and with its lowest seven bits.
split_group : (w s : ℕ) → w / 128 * 2 ^ (s + 7) + w % 128 * 2 ^ s ≡ w * 2 ^ s
split_group w s =
    let whole : w / 128 * 128 + w % 128 ≡ w = omega arith in
    rw (shift_seven s) (grind (arith, ap (λ (t : ℕ). t * 2 ^ s) whole))

group_room : (c s : ℕ) → c < 128 → c * 2 ^ s + 2 ^ s ≤ 128 * 2 ^ s
group_room c s h = grind arith

-- One byte joins the number read so far.
join : (x y s : ℕ) → x < 2 ^ s → y * 2 ^ s < 2 ^ 64 → bit_or x (y * 2 ^ s % 2 ^ 64) ≡ x + y * 2 ^ s
join x y s hx hy =
    let small : y * 2 ^ s % 2 ^ 64 ≡ y * 2 ^ s = omega arith in rw small (bit_or-shifted s x y hx)

last_byte :
    (i x s w : ℕ)
    → w < 128
    → x < 2 ^ s
    → w * 2 ^ s < 2 ^ 64
    → decode_loop i x s ((w % 256) ∷ []) ≡ x + w * 2 ^ s
unfolding decode_loop
last_byte i x s w hw hx fits =
    let small : w % 256 ≡ w = omega arith in rw small (ground (arith, join x w s hx fits))

inner_byte :
    (i x s w : ℕ) (rest : List ℕ)
    → i < 9
    → x < 2 ^ s
    → w % 128 * 2 ^ s < 2 ^ 64
    → decode_loop i x s (bit_or (w % 256) 0x80 ∷ rest)
      ≡ decode_loop (i + 1) (x + w % 128 * 2 ^ s) (s + 7) rest
unfolding decode_loop
inner_byte i x s w rest hi hx fits =
    let low : w % 256 % 128 ≡ w % 128 = omega arith in
    let cleared : (w % 128 + 128) % 128 ≡ w % 128 = omega arith in
    rw
      (
        set_top_bit (w % 256) (omega arith),
        low,
        clear_top_bit (w % 128 + 128) (omega arith),
        cleared,
        join x (w % 128) s hx fits,
      )
      (ground arith)

-- `w` is what is still to be written, and counts from bit `s` on.
decode_loop-encode_loop :
    (k i x s w : ℕ)
    → i + k ≡ 9
    → x < 2 ^ s
    → w < 128 * 128 ^ k
    → w * 2 ^ s < 2 ^ 64
    → decode_loop i x s (encode_loop k w) ≡ x + w * 2 ^ s
unfolding encode_loop
decode_loop-encode_loop zero i x s w hi hx hw fits = last_byte i x s w (omega arith) hx fits
decode_loop-encode_loop (suc k) i x s w hi hx hw fits = elim (Bool-cases (leb 0x80 w)) [
  | inl more ↦
      let big : 128 ≤ w = ground arith in
      rw more (
        inner_byte i x s w (encode_loop k (w / 128)) (omega arith) hx
          (omega (arith, split_group w s))
        ∙ decode_loop-encode_loop k (i + 1) (x + w % 128 * 2 ^ s) (s + 7) (w / 128) (omega arith)
            (omega (arith, shift_seven s, group_room (w % 128) s (omega arith)))
            (omega (arith, pow-suc 128 k)) (omega (arith, split_group w s))
        ∙ omega (arith, split_group w s))
  | inr done ↦ rw done (last_byte i x s w (ground arith) hx fits)
]

-- Every int64, as its bit pattern below 2 ^ 64, is read back from its varint.
pub decode_varint-encode_varint : (x : ℕ) → IsWord x → decode_varint (encode_varint x) ≡ x
unfolding decode_varint encode_varint
decode_varint-encode_varint x h =
    decode_loop-encode_loop 9 0 0 0 x refl (omega arith) (omega arith) (omega arith) ∙ omega arith
