-- ===== src/Redis/Safety.antt =====
-- Clearing the caches ends, and leaves the sessions, whose keys begin with "token:", alone.
use mathlib.Core.Path.{subst}
use go_project.Base.{
  ℕ, zero, suc, ◌<◌, ◌≡◌, refl, sym, List, [], ◌∷◌, ◌++◌, Option, none, some, Bool, true, false,
  All, arith, ◌==◌, ◌⊎◌, Bool-cases, Option-cases, inl, inr,
}
use go_project.Base.Dict.{same}
use go_project.Int64
use go_project.Text.{codes, is_empty, trim_space, trim_right}
use go_project.Text.Trim.{trim_space-letter}
use go_project.Redis.{
  Key, Client, Deleted, remove, count_deleted, scan_loop, scan_delete_by_prefix, clear_patterns,
  table_patterns, all_patterns, clear_find_table_cache_for_table, clear_all_find_table_caches,
}

-- What the program relies on in a Redis server.
pub record IsServer {S : Type 0} (client : Client S) : Type 1 where
  pub Has : S → Key → Type 0
  pub matches : Key → Key → Bool
  -- SCAN gives keys that match, and comes back to the cursor 0.
  pub scanned :
      (cursor : ℕ) (pattern : Key) (s : S) (keys : List Key) (next : ℕ)
      → client.scan cursor pattern s ≡ some (keys, next)
      → All (λ k. matches pattern k ≡ true) keys
  pub rounds : ℕ → ℕ
  pub progress :
      (cursor : ℕ) (pattern : Key) (s : S) (keys : List Key) (next : ℕ)
      → client.scan cursor pattern s ≡ some (keys, next)
      → (next ≡ 0) ⊎ (rounds next < rounds cursor)
  -- A pattern that begins with a letter matches keys that begin with it.
  pub literal :
      (c : ℕ) (pattern k : Key)
      → 97 < c
      → c < 123
      → matches (c ∷ pattern) k ≡ true
      → (rest : Key) × (k ≡ c ∷ rest)
  -- DEL leaves other keys alone.
  pub deleted :
      (keys : List Key) (s : S) (k : Key)
      → All (λ j. same j k ≡ false) keys
      → Has s k
      → Has (client.del keys s).1 k

module _ {S : Type 0} (client : Client S) (server : IsServer client) (rest : Key) where
  abbrev pub token : Key
  token = codes "token:" ++ rest

  -- Something comes out, and the session is still there.
  abbrev pub Keeps : Option (Deleted S) → Type 0
  Keeps none = ⊥
  Keeps (some r) = server.Has r.state token

  others :
      (pattern : Key) (keys : List Key)
      → All (λ k. server.matches (b'f' ∷ pattern) k ≡ true) keys
      → All (λ j. same j token ≡ false) keys
  unfolding same
  others pattern [] h = tt
  others pattern (k ∷ keys) (m, h) =
      let (suffix, e) = server.literal b'f' pattern k (omega arith) (omega arith) m in
      (rw e refl, others pattern keys h)

  counted :
      (deleted : ℕ) (answer : Option ℕ) (s : S)
      → server.Has s token
      → server.Has (count_deleted deleted answer s).state token
  counted deleted none s h = h
  counted deleted (some n) s h = h

  fewer :
      (fuel cursor next : ℕ)
      → (next == 0) ≡ false
      → server.rounds cursor < suc fuel
      → (next ≡ 0) ⊎ (server.rounds next < server.rounds cursor)
      → server.rounds next < fuel
  fewer fuel cursor next n b (inl z) = ground (arith, n, z)
  fewer fuel cursor next n b (inr l) = omega (arith, b, l)

  remove-Has :
      (pattern : Key) (keys : List Key) (deleted : ℕ) (s : S)
      → All (λ k. server.matches (b'f' ∷ pattern) k ≡ true) keys
      → server.Has s token
      → server.Has (remove client keys deleted s).state token
  unfolding remove
  remove-Has pattern [] deleted s m h = h
  remove-Has pattern (k ∷ keys) deleted s m h =
      counted deleted (client.del (k ∷ keys) s).0 _
        (server.deleted (k ∷ keys) s token (others pattern (k ∷ keys) m) h)

  module _ (fuel : ℕ) (pattern : Key) (cursor deleted : ℕ) (s : S) where
    scan_loop_error :
        client.scan cursor pattern s ≡ none
        → scan_loop client (suc fuel) pattern cursor deleted s
          ≡ some (record { deleted = deleted; failed = true; state = s })
    unfolding scan_loop
    scan_loop_error e = rw (e, scan_loop)

    module _ (keys : List Key) (next : ℕ)
        (e : client.scan cursor pattern s ≡ some (keys, next)) where
      abbrev r : Deleted S
      r = remove client keys deleted s

      scan_loop_failed :
          r.failed ≡ true → scan_loop client (suc fuel) pattern cursor deleted s ≡ some r
      unfolding scan_loop remove
      scan_loop_failed f = rw (e, scan_loop, f)

      scan_loop_last :
          r.failed ≡ false
          → next ≡ 0
          → scan_loop client (suc fuel) pattern cursor deleted s ≡ some r
      unfolding scan_loop remove
      scan_loop_last f n = rw (e, scan_loop, f, n)

      scan_loop_more :
          r.failed ≡ false
          → (next == 0) ≡ false
          → scan_loop client (suc fuel) pattern cursor deleted s
            ≡ scan_loop client fuel pattern next r.deleted r.state
      unfolding scan_loop
      scan_loop_more f n = rw (e, scan_loop, f, n)

  scan_loop-Keeps :
      (fuel : ℕ) (pattern : Key) (cursor deleted : ℕ) (s : S)
      → server.rounds cursor < fuel
      → server.Has s token
      → Keeps (scan_loop client fuel (b'f' ∷ pattern) cursor deleted s)
  scan_loop-Keeps zero pattern cursor deleted s b h = absurd (omega arith)
  scan_loop-Keeps (suc fuel) pattern cursor deleted s b h =
      elim (Option-cases (client.scan cursor (b'f' ∷ pattern) s)) [
        | inl e ↦ subst Keeps (sym (scan_loop_error fuel (b'f' ∷ pattern) cursor deleted s e)) h
        | inr ((keys, next), e) ↦
            let r : Deleted S = remove client keys deleted s in
            let kept : server.Has r.state token =
              remove-Has pattern keys deleted s (server.scanned cursor _ s keys next e) h in
            elim (Bool-cases r.failed) [
              | inl f ↦
                  subst Keeps
                    (sym (scan_loop_failed fuel (b'f' ∷ pattern) cursor deleted s keys next e f))
                    kept
              | inr f ↦ elim (Bool-cases (next == 0)) [
                | inl n ↦
                    subst Keeps
                      (sym (
                        scan_loop_last fuel (b'f' ∷ pattern) cursor deleted s keys next e f
                          (ground (arith, n))))
                      kept
                | inr n ↦
                    subst Keeps
                      (sym (scan_loop_more fuel (b'f' ∷ pattern) cursor deleted s keys next e f n))
                      (scan_loop-Keeps fuel pattern next r.deleted r.state
                        (fewer fuel cursor next n b (server.progress cursor _ s keys next e)) kept)
              ]
            ]
      ]

  -- A pattern of the caches begins with "f".
  abbrev IsCachePattern : Key → Type 0
  IsCachePattern p = (more : Key) × (p ≡ b'f' ∷ more)

  module _ (fuel : ℕ) (enough : server.rounds 0 < fuel) where
    scan_delete-Keeps :
        (pattern : Key) (s : S)
        → IsCachePattern pattern
        → server.Has s token
        → Keeps (scan_delete_by_prefix fuel (some client) pattern s)
    unfolding scan_delete_by_prefix
    scan_delete-Keeps pattern s (more, e) h =
        rw (e, trim_space-letter b'f' more refl)
          (scan_loop-Keeps fuel (trim_right more) 0 0 s enough h)

    clear_patterns_step :
        (p : Key) (ps : List Key) (total : ℕ) (s : S) (r : Deleted S)
        → scan_delete_by_prefix fuel (some client) p s ≡ some r
        → server.Has r.state token
        → Keeps (clear_patterns fuel (some client) ps (Int64.add total r.deleted) r.state)
        → Keeps (clear_patterns fuel (some client) (p ∷ ps) total s)
    unfolding clear_patterns
    clear_patterns_step p ps total s r e here later =
        rw (e, clear_patterns)
          (elim r.failed
            as (λ f. Keeps (elim f [
              | true ↦
                  some
                    (record { deleted = Int64.add total r.deleted; failed = true; state = r.state })
              | false ↦ clear_patterns fuel (some client) ps (Int64.add total r.deleted) r.state
            ])) [ true ↦ here | false ↦ later ])

    clear_patterns-Keeps :
        (ps : List Key) (total : ℕ) (s : S)
        → All IsCachePattern ps
        → server.Has s token
        → Keeps (clear_patterns fuel (some client) ps total s)
    clear_patterns-Keeps [] total s c h = unfold clear_patterns in h
    clear_patterns-Keeps (p ∷ ps) total s (c, cs) h =
        elim (Option-cases (scan_delete_by_prefix fuel (some client) p s)) [
          | inl e ↦ absurd (subst Keeps e (scan_delete-Keeps p s c h))
          | inr (r, e) ↦
              let kept : Keeps (some r) = subst Keeps e (scan_delete-Keeps p s c h) in
              clear_patterns_step p ps total s r e kept
                (clear_patterns-Keeps ps (Int64.add total r.deleted) r.state cs kept)
        ]

    clear_table-Keeps :
        (table : Key) (s : S)
        → server.Has s token
        → Keeps (clear_find_table_cache_for_table fuel (some client) table s)
    unfolding clear_find_table_cache_for_table
    clear_table-Keeps table s h = elim (Bool-cases (is_empty (trim_space table))) [
      | inl e ↦ rw e h
      | inr e ↦ rw e (
          clear_patterns-Keeps (table_patterns (trim_space table)) 0 s
            ((_, refl), ((_, refl), ((_, refl), tt))) h)
    ]

    -- On a server as Redis documents it, with fuel for one whole scan: clearing the caches of a
    -- table, or all caches, comes to an end, with or without an error, and a session that was there
    -- is there still.
    pub clear-Keeps :
        (table : Key) (s : S)
        → server.Has s token
        → Keeps (clear_find_table_cache_for_table fuel (some client) table s)
          × Keeps (clear_all_find_table_caches fuel (some client) s)
    unfolding clear_all_find_table_caches
    clear-Keeps table s h = (
      clear_table-Keeps table s h,
      clear_patterns-Keeps all_patterns 0 s ((_, refl), ((_, refl), ((_, refl), tt))) h,
    )
