-- ===== src/Dialect/Quiet.antt =====
-- Fragments that Render of gobackendkit/dialect leaves as they are, but for the comparisons.
use go_project.Base.{ℕ, ◌+◌, ◌<◌, ◌≡◌, refl, List, [], ◌∷◌, Bool, true, false, ◌||◌, All, arith}
use go_project.Text.{codes, contains, Casing}
use go_project.Regexp.{exact, space, is_word, among, Re, Groups, replace_matches}
use go_project.Regexp.Refuted.{needed}
use go_project.Regexp.Absent.{IsShort, IsShort-replace_matches, IsShort-find_submatch}
use go_project.Dialect.Patterns.{
  placeholder_re, is_null_re, get_date_re, sys_utc_re, unicode_str_re, select_top_re,
  coalesce_bool0_re, coalesce_eq0_re, insert_tpl_true_re, insert_tail_zero_re, offset_fetch_re,
  cast_nvarchar_re, coalesce_content_re,
}
use go_project.Dialect.Render.{
  by_text, by_group, bare_placeholders, select_top, bool_inserts, sql_functions, page_and_casts,
}

-- Parts of words, points, spaces and `=`
abbrev pub is_quiet : ℕ → Bool
is_quiet c = is_word c || among (b'.' ∷ 32 ∷ b'=' ∷ []) c

-- No other code points, and two spaces at most.
abbrev pub IsQuiet : List ℕ → Type 0
IsQuiet s = All (λ (c : ℕ). is_quiet c ≡ true) s × IsShort space 3 s

quiet-IsShort :
    (d : ℕ) (s : List ℕ)
    → is_quiet d ≡ false
    → All (λ (c : ℕ). is_quiet c ≡ true) s
    → IsShort (exact d) 1 s
quiet-IsShort d [] e h = omega arith
quiet-IsShort d (c ∷ s) e (k, h) = let r = quiet-IsShort d s e h in ground (arith, e, k, r)

unchanged :
    (d : ℕ) (re : Re) (f : List ℕ → Groups → List ℕ) (s : List ℕ)
    → is_quiet d ≡ false
    → 1 < needed (exact d) re + 1
    → IsQuiet s
    → replace_matches re f s ≡ s
unchanged d re f s e n (h, k) =
    let r = quiet-IsShort d s e h in IsShort-replace_matches (exact d) re f s (omega (arith, r, n))

-- No `?`, no `(`, no `'` and no comma: what needs one of them does not match.
unquoted :
    (re : Re) (f : List ℕ → Groups → List ℕ) (s : List ℕ)
    → 1 < needed (exact b'(') re + 1
    → IsQuiet s
    → replace_matches re f s ≡ s
unquoted re f s n q = unchanged b'(' re f s refl n q

contains_none :
    (d : ℕ) (s : List ℕ)
    → is_quiet d ≡ false
    → All (λ (c : ℕ). is_quiet c ≡ true) s
    → contains s (d ∷ []) ≡ false
contains_none d [] e h = refl
contains_none d (c ∷ s) e (k, h) = let r = contains_none d s e h in ground (arith, e, k, r)

pub bare_placeholders_quiet : (s : List ℕ) → IsQuiet s → bare_placeholders s ≡ s
unfolding bare_placeholders
bare_placeholders_quiet s (h, k) = rw (contains_none b'?' s refl h) refl

module _ (cs : Casing) where
  pub sql_functions_quiet : (s : List ℕ) → IsQuiet s → sql_functions cs s ≡ s
  unfolding sql_functions
  sql_functions_quiet s q =
      rw
        (
          unchanged b'?' placeholder_re _ s refl (omega arith) q,
          unquoted is_null_re _ s (omega arith) q,
          unquoted coalesce_content_re _ s (omega arith) q,
          unquoted get_date_re _ s (omega arith) q,
          unquoted sys_utc_re _ s (omega arith) q,
          unchanged b'\'' unicode_str_re _ s refl (omega arith) q,
        )
        refl

  pub select_top_quiet : (s : List ℕ) → IsQuiet s → select_top cs s ≡ s
  unfolding select_top
  select_top_quiet s (h, k) = rw (IsShort-find_submatch space select_top_re s k, select_top) refl

  pub bool_inserts_quiet : (s : List ℕ) → IsQuiet s → bool_inserts cs s ≡ s
  unfolding bool_inserts
  bool_inserts_quiet s q =
      let e = unquoted insert_tpl_true_re (by_group 1 [] (codes " true,")) s (omega arith) q in
      let k =
        unchanged b',' insert_tail_zero_re (by_text (codes ", false)")) s refl (omega arith) q in
      ground (arith, e, k)

  pub page_and_casts_quiet : (s : List ℕ) → IsQuiet s → page_and_casts cs s ≡ s
  unfolding page_and_casts
  page_and_casts_quiet s (h, k) =
      rw
        (
          IsShort-replace_matches space offset_fetch_re _ s (omega (arith, k)),
          unquoted cast_nvarchar_re _ s (omega arith) (h, k),
        )
        refl

  pub coalesces_quiet :
      (f g : List ℕ → Groups → List ℕ) (s : List ℕ)
      → IsQuiet s
      → replace_matches coalesce_eq0_re f (replace_matches coalesce_bool0_re g s) ≡ s
  coalesces_quiet f g s q =
      rw (unquoted coalesce_bool0_re g s (omega arith) q)
        (unquoted coalesce_eq0_re f s (omega arith) q)
