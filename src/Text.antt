-- ===== src/Text.antt =====
-- Text as the list of its code points, and what the program uses of package strings.
pub mod Trim
pub mod Decimal
use Prim.Native.Char.{code}
use Prim.Native.String.{String}
use go_project.Base.Dict.{same}
use go_project.Base.{
  ℕ, List, [], ◌∷◌, Bool, true, false, ◌&&◌, ◌||◌, ◌==◌, leb, if◌then◌else◌, ◌+◌, ◌-◌, ◌++◌, ltb,
}

abbrev pub codes : String → List ℕ
codes String.[] = []
codes (String.◌∷◌ c s) = code c ∷ codes s

abbrev pub is_empty : List ℕ → Bool
is_empty [] = true
is_empty (c ∷ s) = false

-- unicode.IsSpace
abbrev pub is_space : ℕ → Bool
is_space c =
    (leb 9 c && leb c 13)
    || (c == 32)
    || (c == 133)
    || (c == 160)
    || (c == 5760)
    || (leb 8192 c && leb c 8202)
    || (c == 8232)
    || (c == 8233)
    || (c == 8239)
    || (c == 8287)
    || (c == 12288)

unfoldable pub trim_left : List ℕ → List ℕ
trim_left [] = []
trim_left (c ∷ s) = let rest = trim_left s in if is_space c then rest else c ∷ s

abbrev pub put : ℕ → List ℕ → List ℕ
put c [] = if is_space c then [] else c ∷ []
put c (d ∷ s) = c ∷ d ∷ s

unfoldable pub trim_right : List ℕ → List ℕ
trim_right [] = []
trim_right (c ∷ s) = put c (trim_right s)

-- strings.TrimSpace
unfoldable pub trim_space : List ℕ → List ℕ
trim_space s = trim_right (trim_left s)

-- strings.TrimPrefix: what is behind the prefix, or `whole`.
abbrev after_prefix : List ℕ → List ℕ → List ℕ → List ℕ
after_prefix whole [] s = s
after_prefix whole (p ∷ prefix) [] = whole
after_prefix whole (p ∷ prefix) (c ∷ s) = if p == c then after_prefix whole prefix s else whole

unfoldable pub trim_prefix : List ℕ → List ℕ → List ℕ
trim_prefix s prefix = after_prefix s prefix s

-- strings.HasPrefix
abbrev pub has_prefix : List ℕ → List ℕ → Bool
has_prefix s [] = true
has_prefix [] (p ∷ prefix) = false
has_prefix (c ∷ s) (p ∷ prefix) = (p == c) && has_prefix s prefix

-- strings.ReplaceAll of one code point by a text
abbrev pub replace_all : ℕ → List ℕ → List ℕ → List ℕ
replace_all old new [] = []
replace_all old new (c ∷ s) =
    let rest = replace_all old new s in if c == old then new ++ rest else c ∷ rest

-- unicode.ToUpper and unicode.ToLower behind ASCII, which are tables.
pub record Casing : Type 0 where
  pub upper_of : ℕ → ℕ
  pub lower_of : ℕ → ℕ

abbrev pub ascii_upper : ℕ → ℕ
ascii_upper c = if leb 97 c && leb c 122 then c - 32 else c

abbrev pub ascii_lower : ℕ → ℕ
ascii_lower c = if leb 65 c && leb c 90 then c + 32 else c

-- strings.ToUpper and strings.ToLower
unfoldable pub to_upper : Casing → List ℕ → List ℕ
to_upper cs [] = []
to_upper cs (c ∷ s) = (if ltb c 128 then ascii_upper c else cs.upper_of c) ∷ to_upper cs s

unfoldable pub to_lower : Casing → List ℕ → List ℕ
to_lower cs [] = []
to_lower cs (c ∷ s) = (if ltb c 128 then ascii_lower c else cs.lower_of c) ∷ to_lower cs s

-- A case of a switch with several values.
abbrev pub one_of : List ℕ → List (List ℕ) → Bool
one_of s [] = false
one_of s (t ∷ ts) = same s t || one_of s ts

-- strings.Contains of a text that is not empty
abbrev pub contains : List ℕ → List ℕ → Bool
contains [] sub = false
contains (c ∷ s) sub = has_prefix (c ∷ s) sub || contains s sub

-- strings.TrimRight of the code points of a set
abbrev put_unless : (ℕ → Bool) → ℕ → List ℕ → List ℕ
put_unless cut c [] = if cut c then [] else c ∷ []
put_unless cut c (d ∷ s) = c ∷ d ∷ s

unfoldable pub trim_right_of : (ℕ → Bool) → List ℕ → List ℕ
trim_right_of cut [] = []
trim_right_of cut (c ∷ s) = put_unless cut c (trim_right_of cut s)

-- What is behind the last `d` of a text, or `whole`, as strings.LastIndex finds it.
abbrev pub after_last : ℕ → List ℕ → List ℕ → List ℕ
after_last d whole [] = whole
after_last d whole (c ∷ s) =
    let behind = after_last d s s in
    let rest = after_last d whole s in if c == d then behind else rest
