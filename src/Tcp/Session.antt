-- ===== src/Tcp/Session.antt =====
-- A connection from the client's side: what its requests do to the storage, and what it is sent.
use go_project.Base.{
  ℕ, ◌^◌, ◌≤◌, ◌<◌, ◌≡◌, refl, ◌∙◌, sym, List, [], ◌∷◌, ◌++◌, none, length, All, arith, map, drop,
  le→ltb, append_assoc, append-nil, true, false,
}
use go_project.Bytes.{be_bytes, get_be, big_endian, get_be-be_bytes, drop-put}
use go_project.Int64
use go_project.Int64.{IsWord}
use go_project.Point.{SimpleDataPoint, IsPoint}
use go_project.Tcp.{all_read, read_points}
use go_project.Tcp.Request.{
  encode_points, encode_write, encode_query, read_points-encode_points, parse_write-encode_write,
  parse_query-encode_query,
}
use go_project.Tcp.Wire.{
  max_message_size, frame, message, read_message, read_message-frame, frame_fields,
}
use go_project.Tcp.Server.{
  StorageApi, ErrorText, Server, finished, Round, points, msg_type_write, msg_type_query,
  resp_success, store, handle_write, answer, handle_query, handle_message, serve,
}

-- Nothing is being stopped, the client reads, and no handler is slow.
abbrev pub quiet : Round
quiet = record { stopped = false; writable = true; slow = false }

pub record Request : Type 0 where
  pub device : List ℕ
  pub batch : List SimpleDataPoint

-- A request that fits the fields of the protocol and its limit on a message.
pub record IsRequest (q : Request) : Type 0 where
  pub device_fits : length q.device < 65530
  pub count_fits : length q.batch < 2 ^ 32
  pub points_fit : All IsPoint q.batch
  pub message_fits : length (encode_write q.device q.batch) ≤ max_message_size

abbrev pub stream_of : List Request → List ℕ
stream_of [] = []
stream_of (q ∷ qs) = frame msg_type_write (encode_write q.device q.batch) ++ stream_of qs

-- A success without data, once for each request.
abbrev pub acknowledgements : List Request → List ℕ
acknowledgements [] = []
acknowledgements (q ∷ qs) = frame msg_type_write (resp_success ∷ []) ++ acknowledgements qs

module _ {S : Type 0} (api : StorageApi S) (text : ErrorText → List ℕ) where
  abbrev pub store_all : List Request → S → S
  store_all [] st = st
  store_all (q ∷ qs) st = store_all qs (api.write_batch q.device q.batch st).1

  -- The server after one acknowledged write.
  abbrev acknowledged : Request → Server S → Server S
  acknowledged q s = record s {
    storage = (api.write_batch q.device q.batch s.storage).1;
    sent = s.sent ++ frame msg_type_write (resp_success ∷ []);
    bytes_sent = Int64.add s.bytes_sent (length (frame msg_type_write (resp_success ∷ [])));
    total_writes = Int64.add s.total_writes 1;
  }

  store_ok :
      (id : List ℕ) (ps : List SimpleDataPoint) (s : Server S)
      → (api.write_batch id ps s.storage).0 ≡ none
      → store api text quiet id (all_read ps) s
        ≡ finished (acknowledged (record { device = id; batch = ps }) s)
  unfolding store
  store_ok id [] s ok = rw (ok, store)
  store_ok id (p ∷ ps) s ok = rw (ok, store)

  handle_write_ok :
      (q : Request) (s : Server S)
      → IsRequest q
      → (api.write_batch q.device q.batch s.storage).0 ≡ none
      → handle_write api text quiet (encode_write q.device q.batch) s ≡ finished (acknowledged q s)
  unfolding handle_write
  handle_write_ok q s h ok =
      rw
        (
          parse_write-encode_write q.device q.batch h.device_fits h.count_fits h.points_fit,
          handle_write,
        )
        (store_ok q.device q.batch s ok)

  -- One write request.
  handle_message_ok :
      (q : Request) (s : Server S)
      → IsRequest q
      → (api.write_batch q.device q.batch s.storage).0 ≡ none
      → handle_message api text quiet (frame msg_type_write (encode_write q.device q.batch)) s
        ≡ finished (acknowledged q s)
  unfolding handle_message
  handle_message_ok q s h ok =
      let (the_type, the_body, size) =
        frame_fields msg_type_write (encode_write q.device q.batch) in
      rw
        (
          le→ltb (length (frame msg_type_write (encode_write q.device q.batch))) 5 (omega arith),
          the_type,
          the_body,
        )
        (handle_write_ok q s h ok)

  serve_step :
      (rs : List Round) (stream msg rest : List ℕ) (s s' : Server S)
      → read_message stream ≡ message msg rest
      → handle_message api text quiet msg
          (record s { bytes_received = Int64.add s.bytes_received (length msg) })
        ≡ finished s'
      → serve api text (quiet ∷ rs) stream s ≡ serve api text rs rest s'
  unfolding serve
  serve_step rs stream msg rest s s' r h = rw (r, serve) (rw (h, serve))

  -- A client that sends well-formed write requests, one after the other, on a connection that can be
  -- written, to a server whose storage takes them all: the storage is handed every batch, whole and in the order of the requests, and the
  -- client is sent one success for each.
  pub serve-stream_of :
      (qs : List Request) (s : Server S)
      → All IsRequest qs
      → ((id : List ℕ) (ps : List SimpleDataPoint) (st : S) → (api.write_batch id ps st).0 ≡ none)
      → (s' : Server S) × (serve api text (map (λ _. quiet) qs) (stream_of qs) s ≡ finished s')
        × (s'.storage ≡ store_all qs s.storage)
        × (s'.sent ≡ s.sent ++ acknowledgements qs)
  serve-stream_of [] s h ok = (s, unfold serve in refl, refl, sym (append-nil s.sent))
  serve-stream_of (q ∷ qs) s (hq, hqs) ok =
      let received : Server S = record s {
        bytes_received =
            Int64.add s.bytes_received
              (length (frame msg_type_write (encode_write q.device q.batch)));
      } in
      let (s', runs, stored, replies) = serve-stream_of qs (acknowledged q received) hqs ok in
      (
        s',
        serve_step (map (λ _. quiet) qs) _ _ _ s (acknowledged q received)
              (read_message-frame msg_type_write (encode_write q.device q.batch) (stream_of qs)
                hq.message_fits)
              (handle_message_ok q received hq (ok q.device q.batch s.storage))
            ∙ runs,
        stored,
        replies
            ∙ append_assoc s.sent (frame msg_type_write (resp_success ∷ [])) (acknowledgements qs),
      )

  -- A query that the protocol describes, on a connection that can be written, of which the storage's
  -- answer is points that fit the counts of the protocol: the client is sent one frame of type 2, and
  -- reads from it the success code and just the points that the storage answered.
  pub handle_query_reply :
      (id : List ℕ) (start_time end_time : ℕ) (ps : List SimpleDataPoint) (s : Server S)
      → length id < 65518
      → IsWord start_time
      → IsWord end_time
      → api.query id start_time end_time s.storage ≡ points ps
      → length ps < 2 ^ 32
      → All IsPoint ps
      → (d : List ℕ) × (s' : Server S) × (handle_query api text quiet
            (encode_query id start_time end_time)
            s
          ≡ finished s')
        × (s'.storage ≡ s.storage)
        × (s'.sent ≡ s.sent ++ frame msg_type_query (resp_success ∷ d))
        × (read_points (get_be 4 d) 0 (drop 4 d) ≡ all_read ps)
  handle_query_reply id start_time end_time ps s hid hs he found count fit = (
    be_bytes 4 (length ps) ++ encode_points ps,
    answer api text quiet (points ps) s,
    unfold handle_query in
        rw (parse_query-encode_query id start_time end_time hid hs he, found, handle_query),
    unfold answer in refl,
    unfold answer in refl,
    rw
        (
          get_be-be_bytes 4 (length ps) (encode_points ps) count,
          drop-put big_endian 4 (length ps) (encode_points ps),
        )
        (rw append-nil at (read_points-encode_points ps 0 [] fit)),
  )
