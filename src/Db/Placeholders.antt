-- ===== src/Db/Placeholders.antt =====
-- convertPlaceholders of gobackendkit/db/database.go, and what it does to the placeholders of a query.
use go_project.Base.{
  ℕ, ◌≡◌, refl, ap, ◌∙◌, sym, List, [], ◌∷◌, ◌++◌, append_assoc, none, some, Bool, true, false,
  ◌&&◌, ◌==◌, leb, if◌then◌else◌, All, All-append, arith, append-nil,
}
use go_project.Base.Dict.{same}
use go_project.Dialect.{sqlserver}
use go_project.Db.{Globals, is_sqlserver}
use go_project.EnvFile.{atoi}
use go_project.Text.{codes, is_empty}

abbrev pub is_digit : ℕ → Bool
is_digit c = leb b'0' c && leb c b'9'

-- What a match of `\$(\d+)` is replaced by; `ds` are its digits. A `$` with none is no match.
abbrev pub replacement : List ℕ → List ℕ
replacement [] = b'$' ∷ []
replacement (d ∷ ds) = elim (atoi (d ∷ ds)) [
  | some v ↦ codes "@p" ++ (d ∷ ds)
  | none ↦ b'$' ∷ d ∷ ds
]

-- ReplaceAllStringFunc: `outside` of a match, or in one, behind `$` and the digits `ds`.
pub data Scan : Type 0 where
  outside : Scan
  behind : List ℕ → Scan

unfoldable pub scan : Scan → List ℕ → List ℕ
scan outside [] = []
scan outside (c ∷ s) =
    let in_match = scan (behind []) s in
    let rest = scan outside s in if c == b'$' then in_match else c ∷ rest
scan (behind ds) [] = replacement ds
scan (behind ds) (c ∷ s) =
    let more = scan (behind (ds ++ (c ∷ []))) s in
    let in_match = scan (behind []) s in
    let rest = scan outside s in
    if is_digit c then more else replacement ds ++ (if c == b'$' then in_match else c ∷ rest)

unfoldable pub convert_placeholders : List ℕ → List ℕ
convert_placeholders query = scan outside query

abbrev pub convert_for_postgres : List ℕ → List ℕ
convert_for_postgres query = query

-- ConvertQuery and ConvertQueryWithDBType
unfoldable pub convert_query : Globals → List ℕ → List ℕ
convert_query g query =
    if is_sqlserver g then convert_placeholders query else convert_for_postgres query

unfoldable pub convert_query_with_db_type : List ℕ → List ℕ → List ℕ
convert_query_with_db_type query db_type =
    if same db_type sqlserver then convert_placeholders query else convert_for_postgres query

-- A query is pieces of text with a placeholder behind each, and a last text. `mark` writes one.
abbrev pub query_text : (List ℕ → List ℕ) → List (List ℕ × List ℕ) → List ℕ → List ℕ
query_text mark [] last = last
query_text mark ((text, ds) ∷ pieces) last = text ++ (mark ds ++ query_text mark pieces last)

abbrev pub dollar : List ℕ → List ℕ
dollar ds = b'$' ∷ ds

abbrev pub at_p : List ℕ → List ℕ
at_p ds = codes "@p" ++ ds

-- Text without `$`.
abbrev NotDollar : ℕ → Type 0
NotDollar c = (c == b'$') ≡ false

abbrev pub IsPlain : List ℕ → Type 0
IsPlain text = All NotDollar text

-- It does not begin with a digit.
abbrev pub IsApart : List ℕ → Type 0
IsApart [] = Unit {0}
IsApart (c ∷ text) = is_digit c ≡ false

-- The digits of a number in range.
abbrev pub IsNumber : List ℕ → Type 0
IsNumber ds =
    All (λ c. is_digit c ≡ true) ds × (is_empty ds ≡ false) × ((v : ℕ) × (atoi ds ≡ some v))

-- The pieces behind a placeholder.
abbrev pub AreApart : List (List ℕ × List ℕ) → List ℕ → Type 0
AreApart [] last = IsPlain last × IsApart last
AreApart ((text, ds) ∷ pieces) last =
    IsPlain text × IsApart text × IsNumber ds × AreApart pieces last

-- The pieces of a query.
abbrev pub IsQuery : List (List ℕ × List ℕ) → List ℕ → Type 0
IsQuery [] last = IsPlain last
IsQuery ((text, ds) ∷ pieces) last = IsPlain text × IsNumber ds × AreApart pieces last

scan-plain : (text s : List ℕ) → IsPlain text → scan outside (text ++ s) ≡ text ++ scan outside s
unfolding scan
scan-plain [] s h = refl
scan-plain (c ∷ text) s (h, hs) = rw (h, scan) (ap (◌∷◌ c) (scan-plain text s hs))

scan-digits :
    (es ds s : List ℕ)
    → All (λ c. is_digit c ≡ true) es
    → scan (behind ds) (es ++ s) ≡ scan (behind (ds ++ es)) s
unfolding scan
scan-digits [] ds s h = ap (λ t. scan (behind t) s) (sym (append-nil ds))
scan-digits (e ∷ es) ds s (h, hs) =
    rw (h, scan)
      (scan-digits es (ds ++ (e ∷ [])) s hs
        ∙ ap (λ t. scan (behind t) s) (append_assoc ds (e ∷ []) es))

scan-leave : (ds s : List ℕ) → IsApart s → scan (behind ds) s ≡ replacement ds ++ scan outside s
unfolding scan
scan-leave ds [] h = sym (append-nil (replacement ds))
scan-leave ds (c ∷ s) h = rw (h, scan)

replacement-at_p : (ds : List ℕ) → IsNumber ds → replacement ds ≡ at_p ds
replacement-at_p [] (a, n, b) = ground (arith, n)
replacement-at_p (d ∷ ds) (a, n, (v, e)) = rw (e, replacement) refl

scan-dollar : (s : List ℕ) → scan outside (b'$' ∷ s) ≡ scan (behind []) s
unfolding scan
scan-dollar s = refl

-- A placeholder with more behind it that is apart from it.
scan-number :
    (ds s : List ℕ)
    → IsNumber ds
    → IsApart s
    → scan outside (dollar ds ++ s) ≡ at_p ds ++ scan outside s
scan-number ds s h k =
    scan-dollar (ds ++ s)
    ∙ scan-digits ds [] s h.0
    ∙ scan-leave ds s k
    ∙ ap (λ t. t ++ scan outside s) (replacement-at_p ds h)

query_text-IsApart :
    (pieces : List (List ℕ × List ℕ)) (last : List ℕ)
    → AreApart pieces last
    → IsApart (query_text dollar pieces last)
query_text-IsApart [] last (plain, apart) = apart
query_text-IsApart (([], ds) ∷ pieces) last h = refl
query_text-IsApart ((c ∷ text, ds) ∷ pieces) last (plain, apart, number, rest) = apart

scan-piece :
    (text ds s : List ℕ)
    → IsPlain text
    → IsNumber ds
    → IsApart s
    → scan outside (text ++ (dollar ds ++ s)) ≡ text ++ (at_p ds ++ scan outside s)
scan-piece text ds s plain number apart =
    scan-plain text (dollar ds ++ s) plain ∙ ap (λ t. text ++ t) (scan-number ds s number apart)

scan-text : (text : List ℕ) → IsPlain text → scan outside text ≡ text
unfolding scan
scan-text [] h = refl
scan-text (c ∷ text) (h, hs) = rw (h, scan) (ap (◌∷◌ c) (scan-text text hs))

scan-pieces :
    (pieces : List (List ℕ × List ℕ)) (last : List ℕ)
    → AreApart pieces last
    → scan outside (query_text dollar pieces last) ≡ query_text at_p pieces last
scan-pieces [] last (plain, apart) = scan-text last plain
scan-pieces ((text, ds) ∷ pieces) last (plain, apart, number, rest) =
    scan-piece text ds (query_text dollar pieces last) plain number
      (query_text-IsApart pieces last rest)
    ∙ ap (λ t. text ++ (at_p ds ++ t)) (scan-pieces pieces last rest)

digits-IsPlain : (ds : List ℕ) → All (λ c. is_digit c ≡ true) ds → IsPlain ds
digits-IsPlain [] h = tt
digits-IsPlain (d ∷ ds) (h, hs) = (ground (arith, h), digits-IsPlain ds hs)

piece-IsPlain :
    (text ds s : List ℕ) → IsPlain text → IsNumber ds → IsPlain s → IsPlain (text ++ (at_p ds ++ s))
piece-IsPlain text ds s plain number h =
    All-append NotDollar text (at_p ds ++ s) plain
      (refl, (refl, All-append NotDollar ds s (digits-IsPlain ds number.0) h))

pieces-IsPlain :
    (pieces : List (List ℕ × List ℕ)) (last : List ℕ)
    → AreApart pieces last
    → IsPlain (query_text at_p pieces last)
pieces-IsPlain [] last (plain, apart) = plain
pieces-IsPlain ((text, ds) ∷ pieces) last (plain, apart, number, rest) =
    piece-IsPlain text ds (query_text at_p pieces last) plain number
      (pieces-IsPlain pieces last rest)

query_text-IsPlain :
    (pieces : List (List ℕ × List ℕ)) (last : List ℕ)
    → IsQuery pieces last
    → IsPlain (query_text at_p pieces last)
query_text-IsPlain [] last plain = plain
query_text-IsPlain ((text, ds) ∷ pieces) last (plain, number, rest) =
    piece-IsPlain text ds (query_text at_p pieces last) plain number
      (pieces-IsPlain pieces last rest)

scan-query_text :
    (pieces : List (List ℕ × List ℕ)) (last : List ℕ)
    → IsQuery pieces last
    → scan outside (query_text dollar pieces last) ≡ query_text at_p pieces last
scan-query_text [] last plain = scan-text last plain
scan-query_text ((text, ds) ∷ pieces) last (plain, number, rest) =
    scan-piece text ds (query_text dollar pieces last) plain number
      (query_text-IsApart pieces last rest)
    ∙ ap (λ t. text ++ (at_p ds ++ t)) (scan-pieces pieces last rest)

-- A query whose placeholders are `$N`, with numbers in range and no digit behind one but its own,
-- and with no other `$`, becomes the same query with `@pN` for each `$N`; and what comes out is
-- left as it is when it is converted again.
pub convert_placeholders-query_text :
    (pieces : List (List ℕ × List ℕ)) (last : List ℕ)
    → IsQuery pieces last
    → (convert_placeholders (query_text dollar pieces last) ≡ query_text at_p pieces last)
      × (convert_placeholders (query_text at_p pieces last) ≡ query_text at_p pieces last)
unfolding convert_placeholders
convert_placeholders-query_text pieces last h = (
  scan-query_text pieces last h,
  scan-text (query_text at_p pieces last) (query_text-IsPlain pieces last h),
)
