-- ===== src/Tcp/Server.antt =====
-- The handlers, the responses and the loop of one connection. The storage is an interface here.
use go_project.Base.{
  ℕ, List, [], ◌∷◌, ◌++◌, Option, none, some, length, drop, get_or, Bool, ltb, ◌==◌, if◌then◌else◌,
}
use go_project.Bytes.{be_bytes}
use go_project.Int64
use go_project.Point.{SimpleDataPoint}
use go_project.Tcp.{
  Points, all_read, point_short, point_overrun, write_malformed, write_crashed, write_points,
  query_malformed, query_crashed, query_range, parse_write, parse_query,
}
use go_project.Tcp.Request.{encode_points}
use go_project.Tcp.Wire.{frame, at_end, cut_short, too_large, message, read_message}

-- What Storage.Query answers, or the text of its error.
pub data Answer : Type 0 where
  points : List SimpleDataPoint → Answer
  failed : List ℕ → Answer

-- Storage.WriteBatch and Storage.Query on a state; an error is its text.
pub record StorageApi (S : Type 0) : Type 0 where
  pub write_batch : List ℕ → List SimpleDataPoint → S → Option (List ℕ) × S
  pub query : List ℕ → ℕ → ℕ → S → Answer

-- The handlers' own error texts.
pub data ErrorText : Type 0 where
  format_error : ErrorText
  short_error : ℕ → ErrorText
  overrun_error : ℕ → ℕ → ErrorText

-- TCPServer with one connection; `sent` is what the client was sent.
pub record Server (S : Type 0) : Type 0 where
  pub storage : S
  pub total_writes : ℕ
  pub total_queries : ℕ
  pub bytes_received : ℕ
  pub bytes_sent : ℕ
  pub sent : List ℕ

pub data Outcome (A : Type 0) : Type 0 where
  finished : A → Outcome A
  crashed : Outcome A

-- What the surroundings do in one round of handleConnection: the server is being stopped, the
-- response can be written and flushed, the handler takes longer than its limit for the log.
pub record Round : Type 0 where
  pub stopped : Bool
  pub writable : Bool
  pub slow : Bool

abbrev pub msg_type_write : ℕ
msg_type_write = 1

abbrev pub msg_type_query : ℕ
msg_type_query = 2

abbrev pub resp_success : ℕ
resp_success = 0

abbrev pub resp_error : ℕ
resp_error = 1

-- `text` is how fmt and UTF-8 spell an error text.
module _ {S : Type 0} (api : StorageApi S) (text : ErrorText → List ℕ) where
  -- Write, Flush and the count of bytes, or a line in the log.
  unfoldable pub transmit : Round → List ℕ → Server S → Server S
  transmit r response s =
      if r.writable
      then record s {
        sent = s.sent ++ response;
        bytes_sent = Int64.add s.bytes_sent (length response);
      }
      else s

  -- [1 + length of the data: 4] [type] [code] [data], with and without data.
  unfoldable pub send_response : Round → ℕ → ℕ → List ℕ → Server S → Server S
  unfolding transmit
  send_response r msg_type code d s = transmit r (frame msg_type (code ∷ d)) s

  unfoldable pub send_error_with_type : Round → ℕ → List ℕ → Server S → Server S
  unfolding transmit
  send_error_with_type r msg_type err s = transmit r (frame msg_type (resp_error ∷ err)) s

  -- The slow log reads points[0].
  abbrev pub log_slow : Round → List SimpleDataPoint → Server S → Outcome (Server S)
  log_slow r [] s = if r.slow then crashed else finished s
  log_slow r (p ∷ ps) s = finished s

  unfoldable pub store : Round → List ℕ → Points → Server S → Outcome (Server S)
  unfolding send_response send_error_with_type
  store r id (point_short i) s =
      finished (send_error_with_type r msg_type_write (text (short_error i)) s)
  store r id (point_overrun i n) s =
      finished (send_error_with_type r msg_type_write (text (overrun_error i n)) s)
  store r id (all_read ps) s =
      let (err, storage') = api.write_batch id ps s.storage in
      let s' = record s { storage = storage' } in
      elim err [
        | some e ↦ finished (send_error_with_type r msg_type_write e s')
        | none ↦
            let s'' = send_response r msg_type_write resp_success [] s' in
            log_slow r ps (record s'' { total_writes = Int64.add s''.total_writes 1 })
      ]

  unfoldable pub handle_write : Round → List ℕ → Server S → Outcome (Server S)
  unfolding store
  handle_write r body s = elim (parse_write body) [
    | write_malformed ↦ finished (send_error_with_type r msg_type_write (text format_error) s)
    | write_crashed ↦ crashed
    | write_points id ps ↦ store r id ps s
  ]

  unfoldable pub answer : Round → Answer → Server S → Server S
  unfolding send_response send_error_with_type
  answer r (failed e) s = send_error_with_type r msg_type_query e s
  answer r (points ps) s =
      let s' =
        send_response r msg_type_query resp_success (be_bytes 4 (length ps) ++ encode_points ps)
          s in
      record s' { total_queries = Int64.add s'.total_queries 1 }

  unfoldable pub handle_query : Round → List ℕ → Server S → Outcome (Server S)
  unfolding answer
  handle_query r body s = elim (parse_query body) [
    | query_malformed ↦ finished (send_error_with_type r msg_type_query (text format_error) s)
    | query_crashed ↦ crashed
    | query_range id start_time end_time ↦
        finished (answer r (api.query id start_time end_time s.storage) s)
  ]

  -- A pong and an unknown type do nothing but a line in the log.
  unfoldable pub handle_message : Round → List ℕ → Server S → Outcome (Server S)
  unfolding handle_write handle_query
  handle_message r msg s =
      let msg_type = get_or msg 4 0 in
      if ltb (length msg) 5
      then finished s
      else if msg_type == msg_type_write
      then handle_write r (drop 5 msg) s
      else if msg_type == msg_type_query
      then handle_query r (drop 5 msg) s
      else finished s

  -- The loop of handleConnection, as far as the given rounds go.
  unfoldable pub serve : List Round → List ℕ → Server S → Outcome (Server S)
  serve [] stream s = finished s
  serve (r ∷ rs) stream s = if r.stopped then finished s else (elim (read_message stream) [
    | at_end ↦ finished s
    | cut_short ↦ finished s
    | too_large n ↦ finished s
    | message msg rest ↦
        elim (handle_message r msg
          (record s { bytes_received = Int64.add s.bytes_received (length msg) })) [
            | crashed ↦ crashed
            | finished s' ↦ serve rs rest s'
          ]
  ])
