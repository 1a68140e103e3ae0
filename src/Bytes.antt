-- ===== src/Bytes.antt =====
-- What the Go files use of encoding/binary: fixed-width integers in little- and big-endian bytes.
-- A byte is a number below 256, and a byte slice is a list of bytes.
use go_project.Base.{
  ℕ, zero, suc, ◌+◌, ◌*◌, ◌/◌, ◌%◌, ◌^◌, ◌<◌, ◌≡◌, refl, List, [], ◌∷◌, ◌++◌, length, arith, All,
  ap, ◌∙◌, take, drop, take-append, drop-append, length-append,
}
use mathlib.Core.List.{reverse, reverse-reverse, reverse-cons}
use native.Mathlib.Nat.{pow-suc}

abbrev pub IsByte : ℕ → Type 0
IsByte b = b < 256

-- The `k` low bytes of `v`, lowest first.
unfoldable pub le_bytes : ℕ → ℕ → List ℕ
le_bytes zero v = []
le_bytes (suc k) v = (v % 256) ∷ le_bytes k (v / 256)

unfoldable pub of_le : List ℕ → ℕ
of_le [] = 0
of_le (b ∷ bs) = b + 256 * of_le bs

pub length-le_bytes : (k v : ℕ) → length (le_bytes k v) ≡ k
unfolding le_bytes
length-le_bytes zero v = refl
length-le_bytes (suc k) v = omega (arith, length-le_bytes k (v / 256))

pub of_le-le_bytes : (k v : ℕ) → v < 256 ^ k → of_le (le_bytes k v) ≡ v
unfolding le_bytes of_le
of_le-le_bytes zero v h = omega arith
of_le-le_bytes (suc k) v h =
    omega (arith, pow-suc, of_le-le_bytes k (v / 256) (omega (arith, pow-suc 256 k)))

pub le_bytes-IsByte : (k v : ℕ) → All IsByte (le_bytes k v)
unfolding le_bytes
le_bytes-IsByte zero v = tt
le_bytes-IsByte (suc k) v = (omega arith, le_bytes-IsByte k (v / 256))

length-reverse : (xs : List ℕ) → length (reverse xs) ≡ length xs
length-reverse [] = refl
length-reverse (x ∷ xs) = rw (reverse-cons x xs, length-append) (omega (arith, length-reverse xs))

-- How one byte order writes the `k` low bytes of a number (PutUint16, PutUint32, PutUint64), and
-- reads a number from the first `k` bytes of a slice (Uint16, Uint32, Uint64).
pub record ByteOrder : Type 0 where
  pub put : ℕ → ℕ → List ℕ
  pub get : ℕ → List ℕ → ℕ
  pub length-put : (k v : ℕ) → length (put k v) ≡ k
  pub get-put : (k v : ℕ) (rest : List ℕ) → v < 256 ^ k → get k (put k v ++ rest) ≡ v

-- binary.LittleEndian
unfoldable pub get_le : ℕ → List ℕ → ℕ
get_le k d = of_le (take k d)

pub get_le-le_bytes : (k v : ℕ) (rest : List ℕ) → v < 256 ^ k → get_le k (le_bytes k v ++ rest) ≡ v
unfolding get_le
get_le-le_bytes k v rest h =
    ap of_le (take-append k (le_bytes k v) rest (length-le_bytes k v)) ∙ of_le-le_bytes k v h

abbrev pub little_endian : ByteOrder
little_endian = record {
  put = le_bytes;
  get = get_le;
  length-put = length-le_bytes;
  get-put = get_le-le_bytes;
}

-- binary.BigEndian
unfoldable pub be_bytes : ℕ → ℕ → List ℕ
unfolding le_bytes
be_bytes k v = reverse (le_bytes k v)

unfoldable pub get_be : ℕ → List ℕ → ℕ
unfolding of_le
get_be k d = of_le (reverse (take k d))

pub length-be_bytes : (k v : ℕ) → length (be_bytes k v) ≡ k
unfolding be_bytes
length-be_bytes k v = length-reverse (le_bytes k v) ∙ length-le_bytes k v

pub get_be-be_bytes : (k v : ℕ) (rest : List ℕ) → v < 256 ^ k → get_be k (be_bytes k v ++ rest) ≡ v
unfolding get_be be_bytes
get_be-be_bytes k v rest h =
    ap (λ (l : List ℕ). of_le (reverse l))
      (take-append k (reverse (le_bytes k v)) rest
        (length-reverse (le_bytes k v) ∙ length-le_bytes k v))
    ∙ ap of_le (reverse-reverse (le_bytes k v))
    ∙ of_le-le_bytes k v h

abbrev pub big_endian : ByteOrder
big_endian = record {
  put = be_bytes;
  get = get_be;
  length-put = length-be_bytes;
  get-put = get_be-be_bytes;
}

module _ (b : ByteOrder) where
  pub drop-put : (k v : ℕ) (rest : List ℕ) → drop k (b.put k v ++ rest) ≡ rest
  drop-put k v rest = drop-append k (b.put k v) rest (b.length-put k v)
