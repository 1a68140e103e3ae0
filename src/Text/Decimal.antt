-- ===== src/Text/Decimal.antt =====
-- An int in decimal digits, as fmt's %d and strconv.Itoa write it.
use go_project.Base.{ℕ, zero, suc, ◌+◌, ◌/◌, ◌%◌, List, [], ◌∷◌, ◌++◌, ltb, if◌then◌else◌}
use go_project.Int64

-- An int has at most twenty digits.
abbrev decimal_digits : ℕ → ℕ → List ℕ
decimal_digits zero n = []
decimal_digits (suc fuel) n =
    let rest = decimal_digits fuel (n / 10) in
    (if ltb n 10 then [] else rest) ++ ((b'0' + n % 10) ∷ [])

unfoldable pub print_int : ℕ → List ℕ
print_int n = if Int64.lt n 0 then b'-' ∷ decimal_digits 20 (Int64.sub 0 n) else decimal_digits 20 n
