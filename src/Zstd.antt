-- ===== src/Zstd.antt =====
-- github.com/klauspost/compress/zstd, which the program only calls: EncodeAll, and DecodeAll with
-- `none` for an error. What was encoded is decoded.
use go_project.Base.{ℕ, List, Option, some, ◌≡◌}

pub record Zstd : Type 0 where
  pub encode_all : List ℕ → List ℕ
  pub decode_all : List ℕ → Option (List ℕ)
  pub decode_all-encode_all : (d : List ℕ) → decode_all (encode_all d) ≡ some d
