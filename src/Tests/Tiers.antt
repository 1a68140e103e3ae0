-- ===== src/Tests/Tiers.antt =====
-- The clean-up and the tiers of the storage, and the points of a device.
use go_project.Base.{
  ℕ, ◌%◌, ◌-◌, ◌≡◌, inl, inr, List, [], ◌∷◌, ◌++◌, Option, none, some, All, arith, true, false,
  take, ◌^◌,
}
use go_project.Point.{SimpleDataPoint}
use go_project.Writer.{block_bytes, healthy}
use go_project.Writer.Blocks.{points_of}
use go_project.Storage.Cleanup.{
  DirEntry, expired_names, idx_suffix, HasDate, DeviceEntry, cleanup_expired_data,
  cleanup_expired_data-expired_in,
}
use go_project.Storage.Moving.{Tiers, Faults}
use go_project.Storage.Tiering.{Obstacles}
use go_project.Point.{encode_simple_point, decode_simple_point}
use go_project.Point.Device.{
  Float32, DeviceFields, create_device_point, parse_device_point,
  parse_device_point-create_device_point,
}
use go_project.Tests.Files.{tagging, two}
use go_project.Tests.Days.{date_text}

-- The date is the first byte of the name.
abbrev first_byte : List ℕ → Option ℕ
first_byte [] = none
first_byte (c ∷ s) = some c

abbrev device_files : List DirEntry
device_files =
    record { name = date_text 3; is_dir = false }
    ∷ record { name = []; is_dir = true }
    ∷ record { name = date_text 8; is_dir = false }
    ∷ []

device_files-HasDate : All (HasDate first_byte 5) device_files
device_files-HasDate = (λ h. omega arith, (λ h. ground (arith, h), (λ h. omega arith, tt)))

-- The hot files of two points, and a call of Remove that fails.
abbrev two_tiers : Tiers
two_tiers = record {
  hot_files =
      (date_text 3, block_bytes tagging 100 (points_of two))
      ∷ (date_text 3 ++ idx_suffix, 1 ∷ [])
      ∷ [];
  cold_files = (date_text 2, 7 ∷ []) ∷ [];
}

abbrev no_obstacles : Obstacles
no_obstacles = record {
  no_source = false;
  no_scan = false;
  no_tmp = false;
  no_tmp_index = false;
  no_encoder = false;
  on_close = healthy;
}

abbrev one_fault : Faults
one_fault = record {
  no_directory = false;
  obstacles = no_obstacles;
  kept_tmp = true;
  no_rename = false;
  no_index = false;
  kept_file = true;
  kept_index = false;
}

abbrev device_entry : DeviceEntry
device_entry = (record { name = b'd' ∷ []; is_dir = true }, device_files)

cleanup_expired_data-expired_in_example :
    cleanup_expired_data first_byte 5 (device_entry ∷ []) []
    ≡ (true, (b'd' ∷ [], date_text 3) ∷ (b'd' ∷ [], date_text 3 ++ idx_suffix) ∷ [], [])
unfolding expired_names take
cleanup_expired_data-expired_in_example =
    cleanup_expired_data-expired_in first_byte 5 (device_entry ∷ []) [] (device_files-HasDate, tt)
      tt

abbrev exact : Float32
exact = record {
  of_int32 = λ v. v % 2 ^ 32;
  to_int32 = λ v. v;
  of_int32_fits = λ v. omega arith;
  to_int32-of_int32 = λ v h. elim h [ inl low ↦ omega arith | inr (high, fits) ↦ omega arith ];
}

abbrev six_fields : DeviceFields
six_fields = record {
  travel = 1;
  pitch = 2;
  rotation = 3;
  stock_status = 0;
  reclaim_status = 2 ^ 32 - 1;
  plc_status = 7;
}

parse_device_point-create_device_point_example :
    (p : SimpleDataPoint) × (decode_simple_point
        (encode_simple_point (create_device_point exact 9 six_fields) ++ (1 ∷ 2 ∷ []))
      ≡ some p)
    × (p.timestamp ≡ 9)
    × (parse_device_point exact p ≡ six_fields)
parse_device_point-create_device_point_example =
    parse_device_point-create_device_point exact 9 six_fields (1 ∷ 2 ∷ []) (omega arith) (record {
      travel_fits = omega arith;
      pitch_fits = omega arith;
      rotation_fits = omega arith;
      stock_exact = inl (omega arith);
      reclaim_exact = inr (omega arith, omega arith);
      plc_exact = inl (omega arith);
    })
