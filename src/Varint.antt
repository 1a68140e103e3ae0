-- ===== src/Varint.antt =====
-- tffiles/encoder.go: encodeVarint and decodeVarint. A uint64 is a number below 2 ^ 64; an int64
-- is kept as that bit pattern, so the conversions leave it alone.
pub mod RoundTrip
use Prim.Native.Nat.{bit_and, bit_or}
use go_project.Base.{
  ℕ, zero, suc, ◌+◌, ◌*◌, ◌/◌, ◌%◌, ◌^◌, List, [], ◌∷◌, leb, ltb, ◌==◌, if◌then◌else◌,
}

-- The loop `for ux >= 0x80`. A uint64 falls below 0x80 after nine rounds.
unfoldable pub encode_loop : ℕ → ℕ → List ℕ
encode_loop zero ux = (ux % 256) ∷ []
encode_loop (suc rounds) ux =
    let rest = encode_loop rounds (ux / 2 ^ 7) in
    if leb 0x80 ux then bit_or (ux % 256) 0x80 ∷ rest else (ux % 256) ∷ []

unfoldable pub encode_varint : ℕ → List ℕ
encode_varint x = encode_loop 9 x

-- uint64(b) << s
abbrev shifted : ℕ → ℕ → ℕ
shifted b s = b * 2 ^ s % 2 ^ 64

-- The loop `for i, b := range data`, with the variables i, x and s.
unfoldable pub decode_loop : ℕ → ℕ → ℕ → List ℕ → ℕ
decode_loop i x s [] = x
decode_loop i x s (b ∷ bs) =
    let rest = decode_loop (i + 1) (bit_or x (shifted (bit_and b 0x7f) s)) (s + 7) bs in
    if i == 9 then bit_or x (shifted b s) else if ltb b 0x80 then bit_or x (shifted b s) else rest

unfoldable pub decode_varint : List ℕ → ℕ
decode_varint d = decode_loop 0 0 0 d
