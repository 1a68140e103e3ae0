-- ===== src/Regexp/Refuted.antt =====
-- Where an expression cannot match, because the text lacks code points that it needs.
use go_project.Base.{
  ℕ, ◌+◌, ◌≡◌, refl, List, [], ◌∷◌, Option, none, some, Bool, true, false, ◌==◌, if◌then◌else◌,
  Bool-cases, inl, inr, arith,
}
use mathlib.Core.Path.{subst}
use go_project.Regexp.{
  Class, exact, fold, space, digit, word, none_of, in_class, Re, one, many, few, seq, either, maybe,
  group, edge, start_of_text, end_of_text, nothing, Groups, Next, run_one, run_many, run_few, run,
  at_edge, consumed,
}

abbrev pub same_class : Class → Class → Bool
same_class (exact c) (exact d) = c == d
same_class space space = true
same_class _ _ = false

same_class-in_class :
    (a b : Class) (c : ℕ) → same_class a b ≡ true → in_class b c ≡ true → in_class a c ≡ true
same_class-in_class (exact a) (exact b) c e h = ground (arith, e, h)
same_class-in_class (exact a) (fold b) c e h = ground (arith, e)
same_class-in_class (exact a) space c e h = ground (arith, e)
same_class-in_class (exact a) digit c e h = ground (arith, e)
same_class-in_class (exact a) word c e h = ground (arith, e)
same_class-in_class (exact a) (none_of b) c e h = ground (arith, e)
same_class-in_class (fold a) b c e h = ground (arith, e)
same_class-in_class space (exact b) c e h = ground (arith, e)
same_class-in_class space (fold b) c e h = ground (arith, e)
same_class-in_class space space c e h = h
same_class-in_class space digit c e h = ground (arith, e)
same_class-in_class space word c e h = ground (arith, e)
same_class-in_class space (none_of b) c e h = ground (arith, e)
same_class-in_class digit b c e h = ground (arith, e)
same_class-in_class word b c e h = ground (arith, e)
same_class-in_class (none_of a) b c e h = ground (arith, e)

zero_add : (m : ℕ) → 0 + m ≡ m
zero_add m = omega arith

add_assoc : (a b c : ℕ) → a + b + c ≡ a + (b + c)
add_assoc a b c = omega arith

-- How many code points of a class every match has at least.
abbrev pub needed : Class → Re → ℕ
needed cl (one d) = if same_class cl d then 1 else 0
needed cl (many d) = 0
needed cl (few d) = 0
needed cl (seq a b) = needed cl a + needed cl b
needed cl (either a b) = 0
needed cl (maybe a) = 0
needed cl (group n a) = needed cl a
needed cl edge = 0
needed cl start_of_text = 0
needed cl end_of_text = 0
needed cl nothing = 0

-- `P m s`: with less than `m` code points of the class in `s`.
pub record Scarce (cl : Class) (P : ℕ → List ℕ → Type 0) : Type 0 where
  pub fewer : (n m : ℕ) (s : List ℕ) → P m s → P (n + m) s
  pub behind : (m c : ℕ) (s : List ℕ) → P m (c ∷ s) → P m s
  pub taken : (m c : ℕ) (s : List ℕ) → in_class cl c ≡ true → P (1 + m) (c ∷ s) → P m s

-- What comes next fails wherever `P m` holds.
abbrev pub Refuted : (ℕ → List ℕ → Type 0) → ℕ → Next → Type 0
Refuted P m next = (prev : Option ℕ) (s : List ℕ) (g : Groups) → P m s → next prev s g ≡ none

module _ (cl : Class) (P : ℕ → List ℕ → Type 0) (scarce : Scarce cl P) where
  one-Refuted :
      (d : Class) (m : ℕ) (next : Next)
      → Refuted P m next
      → Refuted P (needed cl (one d) + m) (λ prev s g. run_one d s g next)
  one-Refuted d m next h prev [] g p = refl
  one-Refuted d m next h prev (c ∷ s) g p = elim (Bool-cases (in_class d c)) [
    | inr e ↦ rw (e, run_one) refl
    | inl e ↦ elim (Bool-cases (same_class cl d)) [
      | inl k ↦
          rw (e, run_one)
            (h (some c) s g (
              scarce.taken m c s (same_class-in_class cl d c k e)
                (subst (λ (b : Bool). P ((if b then 1 else 0) + m) (c ∷ s)) k p)))
      | inr k ↦
          rw (e, run_one)
            (h (some c) s g (
              scarce.behind m c s (
                subst (λ (n : ℕ). P n (c ∷ s)) (zero_add m)
                  (subst (λ (b : Bool). P ((if b then 1 else 0) + m) (c ∷ s)) k p))))
    ]
  ]

  plain_add : (m : ℕ) (s : List ℕ) → P (0 + m) s → P m s
  plain_add m s p = subst (λ (n : ℕ). P n s) (zero_add m) p

  many-Refuted :
      (d : Class) (m : ℕ) (next : Next)
      → Refuted P m next
      → Refuted P (0 + m) (λ prev s g. run_many d prev s g next)
  unfolding run_many
  many-Refuted d m next h prev [] g p = h prev [] g (plain_add m [] p)
  many-Refuted d m next h prev (c ∷ s) g p =
      let here = h prev (c ∷ s) g (plain_add m (c ∷ s) p) in
      elim (Bool-cases (in_class d c)) [
        | inr e ↦ rw (e, run_many) here
        | inl e ↦
            rw (e, run_many, many-Refuted d m next h (some c) s g (scarce.behind (0 + m) c s p))
              here
      ]

  few-Refuted :
      (d : Class) (m : ℕ) (next : Next)
      → Refuted P m next
      → Refuted P (0 + m) (λ prev s g. run_few d prev s g next)
  unfolding run_few
  few-Refuted d m next h prev [] g p = h prev [] g (plain_add m [] p)
  few-Refuted d m next h prev (c ∷ s) g p =
      let here = h prev (c ∷ s) g (plain_add m (c ∷ s) p) in
      elim (Bool-cases (in_class d c)) [
        | inr e ↦ rw (e, run_few) here
        | inl e ↦
            rw (e, run_few, here)
              (few-Refuted d m next h (some c) s g (scarce.behind (0 + m) c s p))
      ]

  -- Every match takes what its expression needs.
  pub run-Refuted :
      (re : Re) (m : ℕ) (next : Next)
      → Refuted P m next
      → Refuted P (needed cl re + m) (λ prev s g. run re prev s g next)
  unfolding run
  run-Refuted (one d) m next h prev s g p = one-Refuted d m next h prev s g p
  run-Refuted (many d) m next h prev s g p = many-Refuted d m next h prev s g p
  run-Refuted (few d) m next h prev s g p = few-Refuted d m next h prev s g p
  run-Refuted (seq a b) m next h prev s g p =
      run-Refuted a (needed cl b + m) (λ q t k. run b q t k next) (run-Refuted b m next h) prev s g
        (subst (λ (n : ℕ). P n s) (add_assoc (needed cl a) (needed cl b) m) p)
  run-Refuted (either a b) m next h prev s g p =
      rw (run-Refuted a m next h prev s g (scarce.fewer (needed cl a) m s (plain_add m s p)))
        (run-Refuted b m next h prev s g (scarce.fewer (needed cl b) m s (plain_add m s p)))
  run-Refuted (maybe a) m next h prev s g p =
      rw (run-Refuted a m next h prev s g (scarce.fewer (needed cl a) m s (plain_add m s p)))
        (h prev s g (plain_add m s p))
  run-Refuted (group n a) m next h prev s g p =
      run-Refuted a m (λ q t k. next q t ((n, consumed s t) ∷ k))
        (λ q t k r. h q t ((n, consumed s t) ∷ k) r) prev s g p
  run-Refuted edge m next h prev s g p = elim (Bool-cases (at_edge prev s)) [
    | inl e ↦ rw (e, run) (h prev s g (plain_add m s p))
    | inr e ↦ rw (e, run) refl
  ]
  run-Refuted start_of_text m next h none s g p = h none s g (plain_add m s p)
  run-Refuted start_of_text m next h (some c) s g p = refl
  run-Refuted end_of_text m next h prev [] g p = h prev [] g (plain_add m [] p)
  run-Refuted end_of_text m next h prev (c ∷ s) g p = refl
  run-Refuted nothing m next h prev s g p = h prev s g (plain_add m s p)
