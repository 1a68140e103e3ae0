-- ===== src/Tcp/Accept.antt =====
-- The life of the server of tffiles/tcp_server.go: NewTCPServer, Start, acceptLoop with the count of
-- connections in handleConnection, Stop and GetStats. What the connections do between their first
-- and their last line is in Tcp.Server. A run-time panic is `none`.
use go_project.Base.{ℕ, List, [], ◌∷◌, Option, none, some, Bool, true, false, ◌==◌, if◌then◌else◌}
use go_project.Float64.{Float64}
use go_project.Int64
use go_project.Tcp.Server.{Server}

-- Where acceptLoop stands: not started, before its look at stopChan, in Accept, behind it with a
-- connection that is not counted yet, returned.
pub data Phase : Type 0 where
  not_started looking accepting returned : Phase
  with_conn : ℕ → Phase

-- The connections that are open are named by numbers.
pub record Life : Type 0 where
  pub phase : Phase
  pub stopping : Bool
  pub listener_closed : Bool
  pub active_conns : ℕ
  pub open_conns : List ℕ

abbrev pub new_tcp_server : Life
new_tcp_server = record {
  phase = not_started;
  stopping = false;
  listener_closed = false;
  active_conns = 0;
  open_conns = [];
}

-- Start, with what net.Listen gives.
unfoldable pub start : Bool → Life → Bool × Life
start false s = (false, s)
start true s = (true, record s { phase = looking; listener_closed = false })

-- The steps of the goroutines: acceptLoop looks at stopChan; Accept gives a connection or an error;
-- the connection is counted and its handler started; a handler returns; and the two steps of Stop.
pub data Step : Type 0 where
  look count_conn : Step
  accept : ℕ → Step
  accept_fails : Step
  handler_returns : ℕ → Step
  close_chan close_listener : Step

abbrev pub without : ℕ → List ℕ → List ℕ
without c [] = []
without c (d ∷ ds) = if d == c then ds else d ∷ without c ds

abbrev pub is_among : ℕ → List ℕ → Bool
is_among c [] = false
is_among c (d ∷ ds) = if d == c then true else is_among c ds

-- A closed listener gives no connection.
unfoldable pub accepted : ℕ → Life → Life
accepted c s = if s.listener_closed then s else record s { phase = with_conn c }

-- activeConns and the handler's goroutine.
unfoldable pub counted : ℕ → Life → Life
counted c s = record s {
  phase = looking;
  active_conns = Int64.add s.active_conns 1;
  open_conns = c ∷ s.open_conns;
}

unfoldable pub ended : ℕ → Life → Life
ended c s =
    if is_among c s.open_conns
    then record s { active_conns = Int64.sub s.active_conns 1; open_conns = without c s.open_conns }
    else s

abbrev pub on_look : Phase → Life → Life
on_look looking s = record s { phase = if s.stopping then returned else accepting }
on_look _ s = s

abbrev pub on_accept : Phase → ℕ → Life → Life
on_accept accepting c s = accepted c s
on_accept _ c s = s

abbrev pub on_count : Phase → Life → Life
on_count (with_conn c) s = counted c s
on_count _ s = s

abbrev pub on_failure : Phase → Life → Life
on_failure accepting s = record s { phase = if s.stopping then returned else looking }
on_failure _ s = s

unfoldable pub life_step : Step → Life → Option Life
life_step look s = some (on_look s.phase s)
life_step (accept c) s = some (on_accept s.phase c s)
life_step count_conn s = some (on_count s.phase s)
life_step accept_fails s = some (on_failure s.phase s)
life_step (handler_returns c) s = some (ended c s)
life_step close_chan s = if s.stopping then none else some (record s { stopping = true })
life_step close_listener s = some (record s { listener_closed = true })

unfoldable pub live : List Step → Life → Option Life
live [] s = some s
live (x ∷ xs) s = elim (life_step x s) [ none ↦ none | some s' ↦ live xs s' ]

-- What GetStats gives; `active` is the count of connections.
pub record Stats (V : Type 0) : Type 0 where
  pub active_connections : ℕ
  pub total_writes : ℕ
  pub total_queries : ℕ
  pub bytes_received_mb : V
  pub bytes_sent_mb : V

module _ (fl : Float64) where
  abbrev pub megabytes : ℕ → fl.Value
  megabytes n = fl.over (fl.over (fl.of_int64 n) (fl.of_int64 1024)) (fl.of_int64 1024)

  unfoldable pub get_stats : {S : Type 0} → Life → Server S → Stats fl.Value
  get_stats s server = record {
    active_connections = s.active_conns;
    total_writes = server.total_writes;
    total_queries = server.total_queries;
    bytes_received_mb = megabytes server.bytes_received;
    bytes_sent_mb = megabytes server.bytes_sent;
  }
