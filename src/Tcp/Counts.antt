-- ===== src/Tcp/Counts.antt =====
-- The count of connections of tffiles/tcp_server.go through every step of its goroutines.
use mathlib.Core.Path.{subst}
use go_project.Base.{
  ℕ, suc, ◌%◌, ◌^◌, ◌≡◌, List, [], ◌∷◌, Option, none, some, true, length, ◌==◌, arith, Bool-cases,
  Option-cases, inl, inr,
}
use go_project.Int64
use go_project.Tcp.Accept.{
  Phase, not_started, looking, accepting, returned, with_conn, count_conn, counted, on_count, Life,
  Step, look, accept, accept_fails, handler_returns, close_chan, close_listener, without, is_among,
  accepted, ended, on_look, on_accept, on_failure, life_step, live,
}

abbrev pub Counts : Life → Type 0
Counts s = s.active_conns ≡ length s.open_conns % 2 ^ 64

add_one : (a n : ℕ) → a ≡ n % 2 ^ 64 → Int64.add a 1 ≡ suc n % 2 ^ 64
unfolding Int64.add
add_one a n h = omega (arith, h)

take_one : (a n : ℕ) → a ≡ suc n % 2 ^ 64 → Int64.sub a 1 ≡ n % 2 ^ 64
unfolding Int64.sub
take_one a n h = omega (arith, h)

pub length-without :
    (c : ℕ) (ds : List ℕ) → is_among c ds ≡ true → length ds ≡ suc (length (without c ds))
length-without c [] h = absurd (ground (arith, h))
length-without c (d ∷ ds) h = elim (Bool-cases (d == c)) [
  | inl e ↦ ground (arith, e)
  | inr e ↦ let r = length-without c ds (ground (arith, e, h)) in ground (arith, e, r)
]

accepted-Counts : (c : ℕ) (s : Life) → Counts s → Counts (accepted c s)
unfolding accepted
accepted-Counts c s h = elim (Bool-cases s.listener_closed) [
  | inl e ↦ rw (e, accepted) h
  | inr e ↦ rw (e, accepted) h
]

counted-Counts : (c : ℕ) (s : Life) → Counts s → Counts (counted c s)
unfolding counted
counted-Counts c s h = add_one s.active_conns (length s.open_conns) h

on_count-Counts : (p : Phase) (s : Life) → Counts s → Counts (on_count p s)
on_count-Counts not_started s h = h
on_count-Counts looking s h = h
on_count-Counts accepting s h = h
on_count-Counts (with_conn c) s h = counted-Counts c s h
on_count-Counts returned s h = h

ended-Counts : (c : ℕ) (s : Life) → Counts s → Counts (ended c s)
unfolding ended
ended-Counts c s h = elim (Bool-cases (is_among c s.open_conns)) [
  | inr e ↦ rw (e, ended) h
  | inl e ↦
      rw (e, ended)
        (take_one s.active_conns (length (without c s.open_conns))
          (subst (λ (n : ℕ). s.active_conns ≡ n % 2 ^ 64) (length-without c s.open_conns e) h))
]

on_look-Counts : (p : Phase) (s : Life) → Counts s → Counts (on_look p s)
on_look-Counts not_started s h = h
on_look-Counts looking s h = h
on_look-Counts accepting s h = h
on_look-Counts returned s h = h
on_look-Counts (with_conn d) s h = h

on_accept-Counts : (p : Phase) (c : ℕ) (s : Life) → Counts s → Counts (on_accept p c s)
on_accept-Counts not_started c s h = h
on_accept-Counts looking c s h = h
on_accept-Counts accepting c s h = accepted-Counts c s h
on_accept-Counts returned c s h = h
on_accept-Counts (with_conn d) c s h = h

on_failure-Counts : (p : Phase) (s : Life) → Counts s → Counts (on_failure p s)
on_failure-Counts not_started s h = h
on_failure-Counts looking s h = h
on_failure-Counts accepting s h = h
on_failure-Counts returned s h = h
on_failure-Counts (with_conn d) s h = h

-- A property of the states that a step leads to, if it does not panic.
abbrev pub Leads : (Life → Type 0) → Option Life → Type 0
Leads P none = Unit {0}
Leads P (some s) = P s

pub life_step-Counts : (x : Step) (s : Life) → Counts s → Leads Counts (life_step x s)
unfolding life_step
life_step-Counts look s h = on_look-Counts s.phase s h
life_step-Counts (accept c) s h = on_accept-Counts s.phase c s h
life_step-Counts count_conn s h = on_count-Counts s.phase s h
life_step-Counts accept_fails s h = on_failure-Counts s.phase s h
life_step-Counts (handler_returns c) s h = ended-Counts c s h
life_step-Counts close_chan s h = elim (Bool-cases s.stopping) [
  | inl e ↦ rw (e, life_step) tt
  | inr e ↦ rw (e, life_step) h
]
life_step-Counts close_listener s h = h

-- A property that every step keeps holds behind any steps.
module _ (P : Life → Type 0) (keeps : (x : Step) (s : Life) → P s → Leads P (life_step x s)) where
  pub live-Leads : (xs : List Step) (s : Life) → P s → Leads P (live xs s)
  unfolding live
  live-Leads [] s h = h
  live-Leads (x ∷ xs) s h = elim (Option-cases (life_step x s)) [
    | inl e ↦ rw (e, live) tt
    | inr (t, e) ↦ rw (e, live) (live-Leads xs t (subst (Leads P) e (keeps x s h)))
  ]
