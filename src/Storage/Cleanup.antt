-- ===== src/Storage/Cleanup.antt =====
-- Storage.cleanupExpiredData: which files of a device it removes.
use go_project.Base.{
  ℕ, ◌<◌, ◌≤◌, ◌≡◌, refl, ap, ◌∙◌, sym, List, [], ◌∷◌, ◌++◌, Option, none, some, length, All, take,
  Bool, true, false, ltb, leb, not, arith, if◌then◌else◌, append_assoc, append-nil, Bool-cases, inl,
  inr, le→ltb, lt→ltb,
}

pub record DirEntry : Type 0 where
  pub name : List ℕ
  pub is_dir : Bool

-- ".idx"
abbrev pub idx_suffix : List ℕ
idx_suffix = b'.' ∷ b'i' ∷ b'd' ∷ b'x' ∷ []

ltb-leb : (d n : ℕ) → ltb d n ≡ not (leb n d)
ltb-leb d n = ground arith

-- package time: time.Parse("2006-01-02", text), `none` for an error.
module _ (parse_date : List ℕ → Option ℕ) (cutoff : ℕ) where
  abbrev pub is_expired : List ℕ → Bool
  is_expired name = elim (parse_date (take 10 name)) [
    | none ↦ false
    | some file_date ↦ ltb file_date cutoff
  ]

  -- The loop over the files of a device, with the names that were removed so far. `false`: the
  -- slice file.Name()[:10] panicked.
  unfoldable pub clean_files : List DirEntry → List (List ℕ) → Bool × List (List ℕ)
  clean_files [] removed = (true, removed)
  clean_files (file ∷ files) removed = elim file.is_dir [
    | true ↦ clean_files files removed
    | false ↦ elim (ltb (length file.name) 10) [
      | true ↦ (false, removed)
      | false ↦ elim (is_expired file.name) [
        | true ↦ clean_files files (removed ++ (file.name ∷ (file.name ++ idx_suffix) ∷ []))
        | false ↦ clean_files files removed
      ]
    ]
  ]

  -- A name with a date that the cutoff does not come before, or at.
  abbrev pub is_old : List ℕ → Bool
  is_old name = elim (parse_date (take 10 name)) [
    | none ↦ false
    | some file_date ↦ not (leb cutoff file_date)
  ]

  -- What the loop is to remove.
  unfoldable pub expired_names : List DirEntry → List (List ℕ)
  expired_names [] = []
  expired_names (file ∷ files) =
      let rest = expired_names files in
      if file.is_dir
      then rest
      else if is_old file.name
      then file.name ∷ (file.name ++ idx_suffix) ∷ rest
      else rest

  abbrev pub HasDate : DirEntry → Type 0
  HasDate file = file.is_dir ≡ false → 10 ≤ length file.name

  expired_names-cons :
      (file : DirEntry) (files : List DirEntry)
      → expired_names (file ∷ files) ≡ expired_names (file ∷ []) ++ expired_names files
  unfolding expired_names
  expired_names-cons file files = elim (Bool-cases file.is_dir) [
    | inl e ↦ rw e
    | inr e ↦ elim (Bool-cases (is_old file.name)) [ inl x ↦ rw (e, x) | inr x ↦ rw (e, x) ]
  ]

  is_expired-is_old : (name : List ℕ) → is_expired name ≡ is_old name
  is_expired-is_old name =
      elim (parse_date (take 10 name))
        as (λ o.
          (elim o [ none ↦ false | some d ↦ ltb d cutoff ])
          ≡ (elim o [ none ↦ false | some d ↦ not (leb cutoff d) ])) [
            | none ↦ refl
            | some d ↦ ltb-leb d cutoff
          ]

  clean_files_step :
      (file : DirEntry) (files : List DirEntry) (removed : List (List ℕ))
      → HasDate file
      → clean_files (file ∷ files) removed
        ≡ clean_files files (removed ++ expired_names (file ∷ []))
  unfolding clean_files expired_names
  clean_files_step file files removed h = elim (Bool-cases file.is_dir) [
    | inl e ↦ rw (e, append-nil, clean_files)
    | inr e ↦
        let long : ltb (length file.name) 10 ≡ false = le→ltb (length file.name) 10 (h e) in
        let agree = is_expired-is_old file.name in
        elim (Bool-cases (is_old file.name)) [
          | inl x ↦ rw (e, long, agree, x, clean_files)
          | inr x ↦ rw (e, long, agree, x, append-nil, clean_files)
        ]
  ]

  -- Where every file has a name of ten bytes or more, just the files whose date lies before the
  -- cutoff are removed, each with its index file.
  pub clean_files-expired_names :
      (files : List DirEntry) (removed : List (List ℕ))
      → All HasDate files
      → clean_files files removed ≡ (true, removed ++ expired_names files)
  unfolding clean_files expired_names
  clean_files-expired_names [] removed h =
      ap (λ (l : List (List ℕ)). (true, l)) (sym (append-nil removed))
  clean_files-expired_names (file ∷ files) removed (h, hs) =
      clean_files_step file files removed h
      ∙ clean_files-expired_names files (removed ++ expired_names (file ∷ [])) hs
      ∙ ap (λ (l : List (List ℕ)). (true, l))
          (append_assoc removed _ _
            ∙ ap (λ (l : List (List ℕ)). removed ++ l) (sym (expired_names-cons file files)))

  -- A file that is no directory and has a name shorter than ten bytes, behind files with longer
  -- names, stops the clean-up with a panic: the expired ones before it are removed, and nothing else.
  pub clean_files_panics :
      (files others : List DirEntry) (short : DirEntry) (removed : List (List ℕ))
      → All HasDate files
      → short.is_dir ≡ false
      → length short.name < 10
      → clean_files (files ++ (short ∷ others)) removed ≡ (false, removed ++ expired_names files)
  unfolding clean_files expired_names
  clean_files_panics [] others short removed h d l =
      rw (clean_files, d, lt→ltb (length short.name) 10 l, expired_names, append-nil)
  clean_files_panics (file ∷ files) others short removed (h, hs) d l =
      clean_files_step file (files ++ (short ∷ others)) removed h
      ∙ clean_files_panics files others short (removed ++ expired_names (file ∷ [])) hs d l
      ∙ ap (λ (l : List (List ℕ)). (false, l))
          (append_assoc removed _ _
            ∙ ap (λ (l : List (List ℕ)). removed ++ l) (sym (expired_names-cons file files)))

-- A device's directory entry, and the entries in it.
abbrev pub DeviceEntry : Type 0
DeviceEntry = DirEntry × List DirEntry

abbrev in_device : List ℕ → List (List ℕ) → List (List ℕ × List ℕ)
in_device device [] = []
in_device device (name ∷ names) = (device, name) ∷ in_device device names

module _ (parse_date : List ℕ → Option ℕ) (cutoff : ℕ) where
  -- The loop over the devices of a tier, with the files that were removed so far.
  unfoldable pub clean_devices :
      List DeviceEntry → List (List ℕ × List ℕ) → Bool × List (List ℕ × List ℕ)
  clean_devices [] removed = (true, removed)
  clean_devices ((device, files) ∷ devices) removed = elim device.is_dir [
    | false ↦ clean_devices devices removed
    | true ↦
        let (ended, names) = clean_files parse_date cutoff files [] in
        let removed_now = removed ++ in_device device.name names in
        elim ended [ true ↦ clean_devices devices removed_now | false ↦ (false, removed_now) ]
  ]

  -- What is removed in the two tiers; a panic in the first ends it.
  unfoldable pub cleanup_expired_data :
      List DeviceEntry → List DeviceEntry → Bool × List (List ℕ × List ℕ) × List (List ℕ × List ℕ)
  cleanup_expired_data hot_devices cold_devices =
      let (hot_ended, hot_removed) = clean_devices hot_devices [] in
      let (cold_ended, cold_removed) = clean_devices cold_devices [] in
      if hot_ended then (cold_ended, hot_removed, cold_removed) else (false, hot_removed, [])

  -- What is to be removed.
  abbrev pub expired_in : List DeviceEntry → List (List ℕ × List ℕ)
  expired_in [] = []
  expired_in ((device, files) ∷ devices) =
      let rest = expired_in devices in
      if device.is_dir
      then in_device device.name (expired_names parse_date cutoff files) ++ rest
      else rest

  clean_devices_step :
      (device : DirEntry) (files : List DirEntry) (devices : List DeviceEntry)
      (removed : List (List ℕ × List ℕ)) (names : List (List ℕ))
      → device.is_dir ≡ true
      → clean_files parse_date cutoff files [] ≡ (true, names)
      → clean_devices ((device, files) ∷ devices) removed
        ≡ clean_devices devices (removed ++ in_device device.name names)
  unfolding clean_devices
  clean_devices_step device files devices removed names e h =
      rw (e, clean_devices, h)
        (ap
          (λ (r : Bool × List (List ℕ)).
            clean_devices devices (removed ++ in_device device.name r.1))
          h)

  expired_in-cons :
      (device : DirEntry) (files : List DirEntry) (devices : List DeviceEntry)
      → device.is_dir ≡ true
      → in_device device.name (expired_names parse_date cutoff files) ++ expired_in devices
        ≡ expired_in ((device, files) ∷ devices)
  expired_in-cons device files devices e = rw e refl

  clean_devices-expired_in :
      (devices : List DeviceEntry) (removed : List (List ℕ × List ℕ))
      → All (λ d. All (HasDate parse_date cutoff) d.1) devices
      → clean_devices devices removed ≡ (true, removed ++ expired_in devices)
  unfolding clean_devices
  clean_devices-expired_in [] removed h = ap (λ l. (true, l)) (sym (append-nil removed))
  clean_devices-expired_in ((device, files) ∷ devices) removed (h, hs) =
      elim (Bool-cases device.is_dir) [
        | inr e ↦ rw (e, clean_devices) (clean_devices-expired_in devices removed hs)
        | inl e ↦
            clean_devices_step device files devices removed (expired_names parse_date cutoff files)
              e (clean_files-expired_names parse_date cutoff files [] h)
            ∙ clean_devices-expired_in devices
                (removed ++ in_device device.name (expired_names parse_date cutoff files)) hs
            ∙ ap (λ l. (true, l))
                (append_assoc removed _ _
                  ∙ ap (λ l. removed ++ l) (expired_in-cons device files devices e))
      ]

  -- Where every file of every device has a name of ten bytes or more, the clean-up ends, and
  -- removes in both tiers just the files whose date lies before the cutoff, each with its index file.
  pub cleanup_expired_data-expired_in :
      (hot_devices cold_devices : List DeviceEntry)
      → All (λ d. All (HasDate parse_date cutoff) d.1) hot_devices
      → All (λ d. All (HasDate parse_date cutoff) d.1) cold_devices
      → cleanup_expired_data hot_devices cold_devices
        ≡ (true, expired_in hot_devices, expired_in cold_devices)
  unfolding cleanup_expired_data
  cleanup_expired_data-expired_in hot_devices cold_devices h c =
      rw (clean_devices-expired_in hot_devices [] h, clean_devices-expired_in cold_devices [] c)
        refl
