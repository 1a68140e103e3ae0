-- ===== src/Tcp/Lifetime.antt =====
-- The count of connections of tffiles/tcp_server.go, and what Stop does.
use mathlib.Core.Path.{subst}
use go_project.Base.{
  ℕ, ◌≤◌, ◌≡◌, refl, sym, ap, ◌∙◌, List, [], ◌∷◌, Option, none, some, Bool, true, ◌+◌, false,
  length, if◌then◌else◌, arith, Bool-cases, inl, inr, ◌⊎◌,
}
use go_project.Tcp.Counts.{Counts, length-without, Leads, life_step-Counts, live-Leads}
use go_project.Tcp.Accept.{
  Phase, not_started, looking, accepting, returned, with_conn, count_conn, counted, on_count, Life,
  Step, look, accept, accept_fails, handler_returns, close_chan, close_listener, is_among, accepted,
  ended, on_look, on_accept, on_failure, life_step, live, start, new_tcp_server,
}

-- The connection that Accept waits for, or has given.
abbrev pub awaited : Phase → ℕ
awaited accepting = 1
awaited (with_conn c) = 1
awaited _ = 0

-- What holds once the channel is closed: `n` connections at most, with the one that is awaited.
abbrev IsStopped : ℕ → Life → Type 0
IsStopped n s = (s.stopping ≡ true) × (length s.open_conns + awaited s.phase ≤ n)

accepted-IsStopped :
    (n c : ℕ) (s : Life) → s.phase ≡ accepting → IsStopped n s → IsStopped n (accepted c s)
unfolding accepted
accepted-IsStopped n c s p (a, h) =
    let waits = ap awaited p in
    elim s.listener_closed
      as (λ b. IsStopped n (if b then s else record s { phase = with_conn c })) [
        | true ↦ (a, h)
        | false ↦ (a, omega (arith, h, waits))
      ]

ended-IsStopped : (n c : ℕ) (s : Life) → IsStopped n s → IsStopped n (ended c s)
unfolding ended
ended-IsStopped n c s (a, h) = elim (Bool-cases (is_among c s.open_conns)) [
  | inr e ↦ rw (e, ended) (a, h)
  | inl e ↦ rw (e, ended) (a, omega (arith, h, length-without c s.open_conns e))
]

-- The phase may be taken for any, as long as it is said what it is.
abbrev at : Life → Phase → Life
at s p = record s { phase = p }

look-IsStopped :
    (n : ℕ) (s : Life) (p : Phase) → IsStopped n (at s p) → IsStopped n (on_look p (at s p))
look-IsStopped n s not_started h = h
look-IsStopped n s looking (a, h) = (a, rw a h)
look-IsStopped n s accepting h = h
look-IsStopped n s (with_conn c) h = h
look-IsStopped n s returned h = h

accept-IsStopped :
    (n c : ℕ) (s : Life) (p : Phase) → IsStopped n (at s p) → IsStopped n (on_accept p c (at s p))
accept-IsStopped n c s not_started h = h
accept-IsStopped n c s looking h = h
accept-IsStopped n c s accepting h = accepted-IsStopped n c (at s accepting) refl h
accept-IsStopped n c s (with_conn d) h = h
accept-IsStopped n c s returned h = h

count-IsStopped :
    (n : ℕ) (s : Life) (p : Phase) → IsStopped n (at s p) → IsStopped n (on_count p (at s p))
unfolding counted
count-IsStopped n s not_started h = h
count-IsStopped n s looking h = h
count-IsStopped n s accepting h = h
count-IsStopped n s (with_conn c) (a, h) = (a, omega (arith, h))
count-IsStopped n s returned h = h

failure-IsStopped :
    (n : ℕ) (s : Life) (p : Phase) → IsStopped n (at s p) → IsStopped n (on_failure p (at s p))
failure-IsStopped n s not_started h = h
failure-IsStopped n s looking h = h
failure-IsStopped n s accepting (a, h) = (a, rw a (omega (arith, h)))
failure-IsStopped n s (with_conn c) h = h
failure-IsStopped n s returned h = h

life_step-IsStopped :
    (n : ℕ) (x : Step) (s : Life) → IsStopped n s → Leads (IsStopped n) (life_step x s)
unfolding life_step
life_step-IsStopped n look s h = look-IsStopped n s s.phase h
life_step-IsStopped n (accept c) s h = accept-IsStopped n c s s.phase h
life_step-IsStopped n count_conn s h = count-IsStopped n s s.phase h
life_step-IsStopped n accept_fails s h = failure-IsStopped n s s.phase h
life_step-IsStopped n (handler_returns c) s h = ended-IsStopped n c s h
life_step-IsStopped n close_chan s (a, h) = rw (a, life_step) tt
life_step-IsStopped n close_listener s h = h

-- The loop has returned, or never began.
abbrev pub IsOver : Life → Type 0
IsOver s = (s.phase ≡ returned) ⊎ (s.phase ≡ not_started)

-- The rest of the loop's round, and one more.
abbrev pub last_round : List Step
last_round = count_conn ∷ look ∷ accept_fails ∷ []

loop_ends : (s : Life) → s.stopping ≡ true → Leads IsOver (live last_round s)
unfolding live life_step counted
loop_ends s e = elim s.phase as (λ p. Leads IsOver (live last_round (at s p))) [
  | not_started ↦ inr refl
  | looking ↦ rw e (inl refl)
  | accepting ↦ rw e (inl refl)
  | with_conn c ↦ rw e (inl refl)
  | returned ↦ inl refl
]

abbrev pub started : Life
started = let (ok, s) = start true new_tcp_server in s

started-Counts : Counts started
unfolding start
started-Counts = omega arith

live-Counts : (xs : List Step) (s t : Life) → Counts s → live xs s ≡ some t → Counts t
live-Counts xs s t h e = subst (Leads Counts) e (live-Leads Counts life_step-Counts xs s h)

-- Behind the first step of Stop, which panics if the channel is closed already.
abbrev closing : Life → List Step → Bool → Option Life
closing s ys true = none
closing s ys false = live ys (record s { stopping = true })

closing-IsStopped :
    (ys : List Step) (s t : Life) (b : Bool)
    → closing s ys b ≡ some t
    → IsStopped (length s.open_conns + awaited s.phase) t
closing-IsStopped ys s t true e = absurd (ground (arith, e))
closing-IsStopped ys s t false e =
    let n = length s.open_conns + awaited s.phase in
    let s' = record s { stopping = true } in
    subst (Leads (IsStopped n)) e
      (live-Leads (IsStopped n) (life_step-IsStopped n) ys s' (refl, omega arith))

stop-closing : (ys : List Step) (s : Life) → live (close_chan ∷ ys) s ≡ closing s ys s.stopping
unfolding live life_step
stop-closing ys s =
    elim s.stopping
      as (λ b. (let r = record s { stopping = b } in live (close_chan ∷ ys) r) ≡ closing s ys b) [
        | true ↦ refl
        | false ↦ refl
      ]

-- Behind any steps of a server that was started, the close of the channel by Stop, and any further
-- steps, among them the close of the listener: GetStats counts the connections that are open; they
-- are at most those that were open when the channel was closed, and one more if the loop was in
-- Accept by then or had a connection that it had not counted; and the loop, if it ends its round
-- and in one more its Accept fails, has returned.
pub live-stopped :
    (xs ys : List Step) (s t : Life)
    → live xs started ≡ some s
    → live (close_chan ∷ ys) s ≡ some t
    → Counts t
      × (length t.open_conns + awaited t.phase ≤ length s.open_conns + awaited s.phase)
      × Leads IsOver (live last_round t)
live-stopped xs ys s t e k =
    let (a, h) = closing-IsStopped ys s t s.stopping (sym (stop-closing ys s) ∙ k) in
    (
      live-Counts (close_chan ∷ ys) s t (live-Counts xs started s started-Counts e) k,
      h,
      loop_ends t a,
    )
