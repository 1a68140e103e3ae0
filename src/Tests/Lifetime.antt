-- ===== src/Tests/Lifetime.antt =====
-- The life of a server with a connection that is open and one that is counted behind Stop; the first
-- ends.
use go_project.Base.{◌≡◌, ◌≤◌, ◌+◌, refl, List, [], ◌∷◌, some, true, length}
use go_project.Int64
use go_project.Tcp.Accept.{
  Life, Step, with_conn, returned, look, accept, handler_returns, close_chan, count_conn, counted,
  close_listener, live, life_step, accepted, ended, start,
}
use go_project.Tcp.Counts.{Counts, Leads}
use go_project.Tcp.Lifetime.{IsOver, started, awaited, last_round, live-stopped}

abbrev two_accepted : List Step
two_accepted = look ∷ accept 1 ∷ count_conn ∷ look ∷ accept 2 ∷ []

abbrev one_ends : List Step
one_ends = close_listener ∷ count_conn ∷ handler_returns 1 ∷ look ∷ []

abbrev before_stop : Life
before_stop = record started { phase = with_conn 2; active_conns = 1; open_conns = 1 ∷ [] }

abbrev behind_stop : Life
behind_stop = record {
  phase = returned;
  stopping = true;
  listener_closed = true;
  active_conns = 1;
  open_conns = 2 ∷ [];
}

two_accepted_run : live two_accepted started ≡ some before_stop
unfolding live life_step accepted counted start Int64.add
two_accepted_run = refl

one_ends_run : live (close_chan ∷ one_ends) before_stop ≡ some behind_stop
unfolding live life_step ended counted start Int64.sub Int64.add
one_ends_run = refl

live-stopped_example :
    Counts behind_stop
    × (length behind_stop.open_conns + awaited behind_stop.phase
        ≤ length before_stop.open_conns + awaited before_stop.phase)
    × Leads IsOver (live last_round behind_stop)
live-stopped_example =
    live-stopped two_accepted one_ends before_stop behind_stop two_accepted_run one_ends_run
