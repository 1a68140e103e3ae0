-- ===== src/Point/Device.antt =====
-- The points of a device with six fields, of tffiles/simple_datapoint.go. The conversions between
-- int32, kept as its 32 bits, and float32 are the parameter `Float32`.
use go_project.Base.{
  ℕ, ◌-◌, ◌^◌, ◌<◌, ◌≤◌, ◌≡◌, ◌⊎◌, refl, List, [], ◌∷◌, ◌++◌, some, length, get_or, ltb,
  if◌then◌else◌, arith,
}
use go_project.Point.{SimpleDataPoint, IsPoint, encode_simple_point, decode_simple_point}
use go_project.Point.RoundTrip.{decode_simple_point-encode_simple_point}

-- An int32 of 24 bits and a sign, which a float32 holds exactly.
abbrev pub IsExact : ℕ → Type 0
IsExact v = (v ≤ 2 ^ 24) ⊎ ((2 ^ 32 - 2 ^ 24 ≤ v) × (v < 2 ^ 32))

pub record Float32 : Type 0 where
  pub of_int32 : ℕ → ℕ
  pub to_int32 : ℕ → ℕ
  pub of_int32_fits : (v : ℕ) → of_int32 v < 2 ^ 32
  pub to_int32-of_int32 : (v : ℕ) → IsExact v → to_int32 (of_int32 v) ≡ v

-- The six fields, as ParseDevicePoint returns them.
pub record DeviceFields : Type 0 where
  pub travel : ℕ
  pub pitch : ℕ
  pub rotation : ℕ
  pub stock_status : ℕ
  pub reclaim_status : ℕ
  pub plc_status : ℕ

module _ (f : Float32) where
  unfoldable pub create_device_point : ℕ → DeviceFields → SimpleDataPoint
  create_device_point timestamp d = record {
    timestamp = timestamp;
    values =
        d.travel
        ∷ d.pitch
        ∷ d.rotation
        ∷ f.of_int32 d.stock_status
        ∷ f.of_int32 d.reclaim_status
        ∷ f.of_int32 d.plc_status
        ∷ [];
  }

  -- A point with fewer values gives six zeros.
  unfoldable pub parse_device_point : SimpleDataPoint → DeviceFields
  parse_device_point p =
      if ltb (length p.values) 6
      then record {
        travel = 0;
        pitch = 0;
        rotation = 0;
        stock_status = 0;
        reclaim_status = 0;
        plc_status = 0;
      }
      else record {
        travel = get_or p.values 0 0;
        pitch = get_or p.values 1 0;
        rotation = get_or p.values 2 0;
        stock_status = f.to_int32 (get_or p.values 3 0);
        reclaim_status = f.to_int32 (get_or p.values 4 0);
        plc_status = f.to_int32 (get_or p.values 5 0);
      }

  -- The floats are patterns of 32 bits, and the states exact.
  pub record IsDevice (d : DeviceFields) : Type 0 where
    pub travel_fits : d.travel < 2 ^ 32
    pub pitch_fits : d.pitch < 2 ^ 32
    pub rotation_fits : d.rotation < 2 ^ 32
    pub stock_exact : IsExact d.stock_status
    pub reclaim_exact : IsExact d.reclaim_status
    pub plc_exact : IsExact d.plc_status

  create_device_point-IsPoint :
      (timestamp : ℕ) (d : DeviceFields)
      → timestamp < 2 ^ 64
      → IsDevice d
      → IsPoint (create_device_point timestamp d)
  unfolding create_device_point
  create_device_point-IsPoint timestamp d t h = record {
    stamp_fits = t;
    count_fits = omega arith;
    values_fit = (
      h.travel_fits,
      (
        h.pitch_fits,
        (
          h.rotation_fits,
          (
            f.of_int32_fits d.stock_status,
            (f.of_int32_fits d.reclaim_status, (f.of_int32_fits d.plc_status, tt)),
          ),
        ),
      ),
    );
  }

  parse-create :
      (timestamp : ℕ) (d : DeviceFields)
      → IsDevice d
      → parse_device_point (create_device_point timestamp d) ≡ d
  unfolding parse_device_point create_device_point
  parse-create timestamp d h =
      rw
        (
          f.to_int32-of_int32 d.stock_status h.stock_exact,
          f.to_int32-of_int32 d.reclaim_status h.reclaim_exact,
          f.to_int32-of_int32 d.plc_status h.plc_exact,
        )
        refl

  -- Through the bytes of the point, whatever follows them, the six fields of a device come back: if
  -- the time and the floats fit their bits, and the three states lie between -2^24 and 2^24.
  pub parse_device_point-create_device_point :
      (timestamp : ℕ) (d : DeviceFields) (rest : List ℕ)
      → timestamp < 2 ^ 64
      → IsDevice d
      → (p : SimpleDataPoint) × (decode_simple_point
            (encode_simple_point (create_device_point timestamp d) ++ rest)
          ≡ some p)
        × (p.timestamp ≡ timestamp)
        × (parse_device_point p ≡ d)
  unfolding create_device_point
  parse_device_point-create_device_point timestamp d rest t h = (
    create_device_point timestamp d,
    decode_simple_point-encode_simple_point (create_device_point timestamp d) rest
        (create_device_point-IsPoint timestamp d t h),
    refl,
    parse-create timestamp d h,
  )
