-- ===== src/Tests/Server.antt =====
-- The TCP server, over a storage that is the list of the batches it was handed.
use go_project.Base.{
  ◌⊎◌, ℕ, ◌≡◌, ◌≤◌, ◌<◌, ◌↔◌, refl, List, [], ◌∷◌, ◌++◌, none, All, arith, drop, take,
}
use go_project.Bytes.{get_be, be_bytes}
use go_project.Point.{SimpleDataPoint, IsPoint, encode_point, encode_values}
use go_project.Tcp.{all_read, parse_write, parse_query, write_points, query_crashed, read_points}
use go_project.Tcp.Request.{
  encode_write, encode_query, encode_points, parse_write-encode_write, parse_query_crashes,
}
use go_project.Tcp.Wire.{
  frame, read_message, message, read_message-frame, Tells, read_message-Tells,
}
use go_project.Tcp.Server.{
  StorageApi, Server, ErrorText, handle_write, crashed, points, finished, serve, handle_query,
  msg_type_query, resp_success,
}
use go_project.Tcp.Crash.{LogsNoPoint, handle_write_crashes}
use go_project.Tcp.Session.{
  Request, IsRequest, quiet, stream_of, acknowledgements, serve-stream_of, handle_query_reply,
}
use go_project.Tests.Files.{at_five, at_nine, at_five-IsPoint, at_nine-IsPoint}

abbrev Batches : Type 0
Batches = List (List SimpleDataPoint)

abbrev collecting : StorageApi Batches
collecting = record {
  write_batch = λ id ps st. (none, st ++ (ps ∷ []));
  query = λ id start_time end_time st. points (at_five ∷ []);
}

abbrev no_text : ErrorText → List ℕ
no_text e = []

abbrev idle : Server Batches
idle = record {
  storage = [];
  total_writes = 0;
  total_queries = 0;
  bytes_received = 0;
  bytes_sent = 0;
  sent = [];
}

abbrev device : List ℕ
device = b'd' ∷ b'1' ∷ []

abbrev both : List SimpleDataPoint
both = at_five ∷ at_nine ∷ []

both-IsPoint : All IsPoint both
both-IsPoint = (at_five-IsPoint, (at_nine-IsPoint, tt))

parse_write-encode_write_example :
    parse_write (encode_write device both) ≡ write_points device (all_read both)
parse_write-encode_write_example =
    parse_write-encode_write device both (omega arith) (omega arith) both-IsPoint

-- Eighteen bytes that claim a device id of 65535.
abbrev hostile : List ℕ
hostile = 255 ∷ 255 ∷ 0 ∷ 0 ∷ 0 ∷ 0 ∷ 0 ∷ 0 ∷ 0 ∷ 0 ∷ 0 ∷ 0 ∷ 0 ∷ 0 ∷ 0 ∷ 0 ∷ 0 ∷ 0 ∷ []

hostile_claim : get_be 2 hostile < 65536
unfolding get_be take
hostile_claim = omega arith

handle_write_crashes_example :
    (handle_write collecting no_text quiet hostile idle ≡ crashed)
    ↔ ((65530 ≤ get_be 2 hostile) ⊎ LogsNoPoint collecting no_text quiet idle (parse_write hostile))
handle_write_crashes_example =
    handle_write_crashes collecting no_text quiet idle hostile (omega arith) hostile_claim

parse_query_crashes_example : (parse_query hostile ≡ query_crashed) ↔ (65518 ≤ get_be 2 hostile)
parse_query_crashes_example = parse_query_crashes hostile (omega arith) hostile_claim

read_message-frame_example :
    read_message (frame 3 (1 ∷ 2 ∷ []) ++ (9 ∷ [])) ≡ message (frame 3 (1 ∷ 2 ∷ [])) (9 ∷ [])
read_message-frame_example = read_message-frame 3 (1 ∷ 2 ∷ []) (9 ∷ []) (omega arith)

abbrev nine : List ℕ
nine = 9 ∷ []

read_message-Tells_example :
    Tells (frame 3 (1 ∷ 2 ∷ []) ++ nine) (read_message (frame 3 (1 ∷ 2 ∷ []) ++ nine))
read_message-Tells_example = read_message-Tells (frame 3 (1 ∷ 2 ∷ []) ++ nine)

abbrev request : Request
request = record { device = device; batch = both }

request-IsRequest : IsRequest request
unfolding encode_write encode_points encode_point encode_values be_bytes
request-IsRequest = record {
  device_fits = omega arith;
  count_fits = omega arith;
  points_fit = both-IsPoint;
  message_fits = omega arith;
}

serve-stream_of_example :
    (s' : Server Batches) × (serve collecting no_text (quiet ∷ []) (stream_of (request ∷ [])) idle
      ≡ finished s')
    × (s'.storage ≡ both ∷ [])
    × (s'.sent ≡ acknowledgements (request ∷ []))
serve-stream_of_example =
    serve-stream_of collecting no_text (request ∷ []) idle (request-IsRequest, tt)
      (λ id ps st. refl)

handle_query_reply_example :
    (d : List ℕ) × (s' : Server Batches) × (handle_query collecting no_text quiet
        (encode_query device 5 9)
        idle
      ≡ finished s')
    × (s'.storage ≡ [])
    × (s'.sent ≡ frame msg_type_query (resp_success ∷ d))
    × (read_points (get_be 4 d) 0 (drop 4 d) ≡ all_read (at_five ∷ []))
handle_query_reply_example =
    handle_query_reply collecting no_text device 5 9 (at_five ∷ []) idle (omega arith) (omega arith)
      (omega arith) refl (omega arith) (at_five-IsPoint, tt)
