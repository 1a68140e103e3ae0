-- ===== src/Tests/Kit.antt =====
-- The encoders, over floating-point numbers that are zero and one, and the backend kit.
use go_project.Base.{
  ℕ, zero, suc, ◌≡◌, ◌≢◌, ◌<◌, ◌^◌, refl, [], ◌∷◌, List, none, some, arith, Bool, true, false, ◌&&◌,
}
use go_project.Float64.{Float64}
use go_project.Varint.{encode_varint, decode_varint}
use go_project.Varint.RoundTrip.{decode_varint-encode_varint}
use go_project.Encoder.{DataPoint, compress_delta, compress_delta_delta, returned}
use go_project.Encoder.DeltaDelta.{encode_batch, decode}
use go_project.Encoder.Batch.{restored, decode-encode_batch}
use go_project.Auth.Options.{
  AuthOption, Made, new_middleware, with_unauthorized_writer, with_after_auth,
  with_unauthorized_writer-Leaves, with_after_auth-Leaves, new_middleware-Tells,
}
use go_project.Auth.{Request, Middleware, ok}
use go_project.Text.{codes}
use go_project.Storage.{Storage, FieldName, new_storage, default_config}

abbrev to_bit : Bool → ℕ
to_bit false = 0
to_bit true = 1

abbrev of_bit : ℕ → Bool
of_bit zero = false
of_bit (suc n) = true

to_bit_fits : (v : Bool) → to_bit v < 2 ^ 64
to_bit_fits false = omega arith
to_bit_fits true = omega arith

of_bit-to_bit : (v : Bool) → of_bit (to_bit v) ≡ v
of_bit-to_bit false = refl
of_bit-to_bit true = refl

abbrev one_bit : Float64
one_bit = record {
  Value = Bool;
  plus = λ x y. x;
  minus = λ x y. x;
  times = λ x y. x && y;
  over = λ x y. x;
  thousand = true;
  of_int64 = of_bit;
  to_int64 = to_bit;
  to_int64_fits = to_bit_fits;
  of_uint64 = of_bit;
  to_uint64 = to_bit;
  to_uint64_fits = to_bit_fits;
  to_bits = to_bit;
  of_bits = of_bit;
  to_bits_fits = to_bit_fits;
  of_bits-to_bits = of_bit-to_bit;
}

decode_varint-encode_varint_example : decode_varint (encode_varint 300) ≡ 300
decode_varint-encode_varint_example = decode_varint-encode_varint 300 (omega arith)

abbrev early : DataPoint Bool
early = record { time = 5; value = true }

abbrev later : DataPoint Bool
later = record { time = 7; value = false }

other_mode : compress_delta ≢ compress_delta_delta
other_mode e = ground (arith, e)

decode-encode_batch_example :
    decode one_bit compress_delta (encode_batch one_bit compress_delta (early ∷ later ∷ [])) []
    ≡ returned (restored one_bit compress_delta (early ∷ later ∷ []))
decode-encode_batch_example =
    decode-encode_batch one_bit compress_delta (early ∷ later ∷ []) [] other_mode
      (omega arith, (omega arith, tt))

abbrev known : Middleware
known = record {
  authenticate = λ r token. ok (record { user_id = 7; login = codes "ann"; token = [] });
  after = none;
}

abbrev with_header : Request
with_header = record {
  authorization = codes "Bearer abc";
  query_token = [];
  x_token = [];
  principal = none;
}

abbrev both_options : List (AuthOption ℕ)
both_options = with_unauthorized_writer (some 2) ∷ with_after_auth none ∷ []

new_middleware-Tells_example :
    Made
      (some known.authenticate)
      with_header
      (new_middleware 1 (some known.authenticate) both_options)
new_middleware-Tells_example =
    new_middleware-Tells 1 (some known.authenticate) both_options with_header
      (with_unauthorized_writer-Leaves (some 2), (with_after_auth-Leaves none, tt))

abbrev numbered_field : FieldName
numbered_field i = i ∷ []

abbrev storage : Storage
storage = new_storage (default_config [])
