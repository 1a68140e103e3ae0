-- ===== src/Crc.antt =====
-- crc32.ChecksumIEEE: the reflected polynomial 0xEDB88320, bit by bit.
use Prim.Native.Nat.{bit_xor}
use go_project.Base.{ℕ, zero, suc, ◌/◌, ◌%◌, ◌^◌, ◌<◌, List, [], ◌∷◌, ◌==◌, if◌then◌else◌, arith}

unfoldable pub shift_bits : ℕ → ℕ → ℕ
shift_bits zero c = c
shift_bits (suc k) c = shift_bits k (if c % 2 == 0 then c / 2 else bit_xor (c / 2) 0xedb8_8320)

unfoldable pub update : ℕ → List ℕ → ℕ
update c [] = c
update c (b ∷ bs) = update (shift_bits 8 (bit_xor c b)) bs

-- The result is a uint32.
unfoldable pub checksum : List ℕ → ℕ
unfolding update shift_bits
checksum d = bit_xor (update 0xffff_ffff d) 0xffff_ffff % 2 ^ 32

pub checksum-lt : (d : List ℕ) → checksum d < 2 ^ 32
unfolding checksum
checksum-lt d = omega arith
