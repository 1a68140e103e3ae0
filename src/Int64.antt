-- ===== src/Int64.antt =====
-- Go's int64, kept as its bit pattern below 2 ^ 64: `uint64(x)` and `int64(x)` leave it alone.
use go_project.Base.{ℕ, ◌+◌, ◌-◌, ◌%◌, ◌^◌, ◌<◌, ◌≡◌, Bool, arith, ltb, leb}

abbrev pub word : ℕ
word = 2 ^ 64

abbrev pub IsWord : ℕ → Type 0
IsWord v = v < 2 ^ 64

-- Adding and subtracting wrap around.
unfoldable pub add : ℕ → ℕ → ℕ
add a b = (a + b) % 2 ^ 64

unfoldable pub sub : ℕ → ℕ → ℕ
sub a b = (a + 2 ^ 64 - b) % 2 ^ 64

-- The rank of a pattern in the signed order: -2 ^ 63 has rank 0.
unfoldable pub rank : ℕ → ℕ
rank a = (a + 2 ^ 63) % 2 ^ 64

-- a < b and a <= b, signed.
abbrev pub lt : ℕ → ℕ → Bool
lt a b = ltb (rank a) (rank b)

abbrev pub le : ℕ → ℕ → Bool
le a b = leb (rank a) (rank b)

pub add-sub : (a b : ℕ) → IsWord a → IsWord b → add b (sub a b) ≡ a
unfolding add sub
add-sub a b ha hb = omega arith

pub sub-IsWord : (a b : ℕ) → IsWord (sub a b)
unfolding sub
sub-IsWord a b = omega arith

pub add-IsWord : (a b : ℕ) → IsWord (add a b)
unfolding add
add-IsWord a b = omega arith
