-- ===== src/Tcp/Wire.antt =====
-- readMessage on what a connection will deliver until it ends, and the frames that both sides send.
use go_project.Base.{
  ℕ, ◌+◌, ◌*◌, ◌≤◌, ◌≡◌, refl, ap, ◌∙◌, List, [], ◌∷◌, ◌++◌, length, arith, take, drop, take-append,
  drop-append, length-append, append_assoc, ltb, le→ltb, if◌then◌else◌, get_or, length-take,
  length-drop, ◌<◌, ◌⊎◌, inl, inr, take-append-drop, Bool-cases, ltb→lt,
}
use go_project.Bytes.{be_bytes, get_be, length-be_bytes, get_be-be_bytes}

abbrev pub max_message_size : ℕ
max_message_size = 10 * 1024 * 1024

-- [length of the body: 4] [type: 1] [body]
unfoldable pub frame : ℕ → List ℕ → List ℕ
frame msg_type body = be_bytes 4 (length body) ++ (msg_type ∷ body)

-- An error of the connection, a message that is too large, or a message with what comes after it.
pub data Received : Type 0 where
  at_end : Received
  cut_short : Received
  too_large : ℕ → Received
  message : List ℕ → List ℕ → Received

-- The body that was read and what follows it.
unfoldable pub read_message : List ℕ → Received
read_message [] = at_end
read_message (b ∷ bs) =
    let stream = b ∷ bs in
    let len = get_be 4 stream in
    if ltb (length stream) 5
    then cut_short
    else if ltb max_message_size len
    then too_large len
    else if ltb (length (drop 5 stream)) len
    then cut_short
    else message (take 4 stream ++ (get_or stream 4 0 ∷ take len (drop 5 stream)))
        (drop len (drop 5 stream))

frame_parts :
    (head : List ℕ) (t : ℕ) (body rest : List ℕ)
    → length head ≡ 4
    → get_be 4 (head ++ (t ∷ (body ++ rest))) ≡ length body
    → length body ≤ max_message_size
    → read_message (head ++ (t ∷ (body ++ rest))) ≡ message (head ++ (t ∷ body)) rest
unfolding read_message drop take
frame_parts [] t body rest h l m = absurd (omega arith)
frame_parts (a ∷ []) t body rest h l m = absurd (omega arith)
frame_parts (a ∷ b ∷ []) t body rest h l m = absurd (omega arith)
frame_parts (a ∷ b ∷ c ∷ []) t body rest h l m = absurd (omega arith)
frame_parts (a ∷ b ∷ c ∷ d ∷ []) t body rest h l m =
    let total : length (body ++ rest) ≡ length body + length rest = length-append body rest in
    rw (
      l,
      le→ltb (length (a ∷ b ∷ c ∷ d ∷ t ∷ (body ++ rest))) 5 (omega arith),
      le→ltb max_message_size (length body) m,
      le→ltb (length (body ++ rest)) (length body) (omega arith),
      take-append (length body) body rest refl,
      drop-append (length body) body rest refl,
    )
frame_parts (a ∷ b ∷ c ∷ d ∷ e ∷ f) t body rest h l m = absurd (omega arith)

-- A frame of at most ten mebibytes is received whole, and what follows it is left.
pub read_message-frame :
    (msg_type : ℕ) (body rest : List ℕ)
    → length body ≤ max_message_size
    → read_message (frame msg_type body ++ rest) ≡ message (frame msg_type body) rest
unfolding frame
read_message-frame t body rest h =
    ap read_message (append_assoc (be_bytes 4 (length body)) (t ∷ body) rest)
    ∙ frame_parts (be_bytes 4 (length body)) t body rest (length-be_bytes 4 (length body))
        (get_be-be_bytes 4 (length body) _ (omega arith)) h

five_parts : (s : List ℕ) → 5 ≤ length s → take 4 s ++ (get_or s 4 0 ∷ drop 5 s) ≡ s
unfolding take drop
five_parts [] h = absurd (omega (arith, h))
five_parts (a ∷ []) h = absurd (omega (arith, h))
five_parts (a ∷ b ∷ []) h = absurd (omega (arith, h))
five_parts (a ∷ b ∷ c ∷ []) h = absurd (omega (arith, h))
five_parts (a ∷ b ∷ c ∷ d ∷ []) h = absurd (omega (arith, h))
five_parts (a ∷ b ∷ c ∷ d ∷ e ∷ s) h = refl

-- What an answer of readMessage tells of the stream: that it is at its end; that it is shorter than
-- a head, or than the length that the head claims; that this length is over the limit; or that the
-- message and the rest make up the stream, and the message is a head with the length it claims.
abbrev pub Tells : List ℕ → Received → Type 0
Tells stream at_end = stream ≡ []
Tells stream cut_short = (length stream < 5) ⊎ (length stream < 5 + get_be 4 stream)
Tells stream (too_large len) = (len ≡ get_be 4 stream) × (max_message_size < len)
Tells stream (message msg rest) =
    (msg ++ rest ≡ stream)
    × (length msg ≡ 5 + get_be 4 stream)
    × (get_be 4 stream ≤ max_message_size)

whole_message :
    (s : List ℕ) (len : ℕ)
    → 5 ≤ length s
    → (take 4 s ++ (get_or s 4 0 ∷ take len (drop 5 s))) ++ drop len (drop 5 s) ≡ s
whole_message s len h =
    append_assoc (take 4 s) (get_or s 4 0 ∷ take len (drop 5 s)) (drop len (drop 5 s))
    ∙ ap (λ (t : List ℕ). take 4 s ++ (get_or s 4 0 ∷ t)) (take-append-drop len (drop 5 s))
    ∙ five_parts s h

message_length :
    (s : List ℕ) (len : ℕ)
    → 5 ≤ length s
    → len ≤ length (drop 5 s)
    → length (take 4 s ++ (get_or s 4 0 ∷ take len (drop 5 s))) ≡ 5 + len
message_length s len h k = omega (
  arith,
  length-append (take 4 s) (get_or s 4 0 ∷ take len (drop 5 s)),
  length-take 4 s,
  length-take len (drop 5 s),
)

-- Of every stream, readMessage tells what is so: it answers that the stream is at its end, cut
-- short or over the limit only where it is; and a message that it gives, with what it leaves, is
-- the stream, and has five bytes more than the head claims, which is within the limit.
pub read_message-Tells : (stream : List ℕ) → Tells stream (read_message stream)
unfolding read_message
read_message-Tells [] = refl
read_message-Tells (b ∷ bs) =
    let s : List ℕ = b ∷ bs in
    let len = get_be 4 s in
    elim (Bool-cases (ltb (length s) 5)) [
      | inl e ↦ rw e (inl (ltb→lt (length s) 5 e))
      | inr e ↦ elim (Bool-cases (ltb max_message_size len)) [
        | inl l ↦ rw (e, l) (refl, ltb→lt max_message_size len l)
        | inr l ↦ elim (Bool-cases (ltb (length (drop 5 s)) len)) [
          | inl k ↦ rw (e, l, k) (inr (ground (arith, e, k, length-drop 5 s)))
          | inr k ↦
              let h : 5 ≤ length s = ground (arith, e) in
              rw (e, l, k)
                (
                  whole_message s len h,
                  message_length s len h (ground (arith, k)),
                  ground (arith, l),
                )
        ]
      ]
    ]

type_of_parts :
    (head : List ℕ) (t : ℕ) (body : List ℕ)
    → length head ≡ 4
    → (get_or (head ++ (t ∷ body)) 4 0 ≡ t) × (drop 5 (head ++ (t ∷ body)) ≡ body)
unfolding drop
type_of_parts [] t body h = absurd (omega arith)
type_of_parts (a ∷ []) t body h = absurd (omega arith)
type_of_parts (a ∷ b ∷ []) t body h = absurd (omega arith)
type_of_parts (a ∷ b ∷ c ∷ []) t body h = absurd (omega arith)
type_of_parts (a ∷ b ∷ c ∷ d ∷ []) t body h = (refl, refl)
type_of_parts (a ∷ b ∷ c ∷ d ∷ e ∷ f) t body h = absurd (omega arith)

-- The type and the body of a frame, where handleMessage looks for them.
pub frame_fields :
    (t : ℕ) (body : List ℕ)
    → (get_or (frame t body) 4 0 ≡ t)
      × (drop 5 (frame t body) ≡ body)
      × (length (frame t body) ≡ 5 + length body)
unfolding frame
frame_fields t body =
    let (the_type, the_body) = type_of_parts _ t body (length-be_bytes 4 (length body)) in
    (
      the_type,
      the_body,
      length-append (be_bytes 4 (length body)) (t ∷ body)
          ∙ omega (arith, length-be_bytes 4 (length body)),
    )
