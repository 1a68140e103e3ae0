-- ===== src/Tcp/Crash.antt =====
-- The write requests that crash the server: handleWrite of tffiles/tcp_server.go as a whole.
use go_project.Base.{
  ℕ, ◌≤◌, ◌<◌, ◌≡◌, ◌↔◌, ◌⊎◌, refl, inl, inr, List, [], ◌∷◌, none, true, length, arith,
  Option-cases, Bool-cases,
}
use go_project.Bytes.{get_be}
use go_project.Tcp.{
  WriteRequest, write_malformed, write_crashed, write_points, Points, all_read, point_short,
  point_overrun, parse_write,
}
use go_project.Tcp.Request.{parse_write_crashes}
use go_project.Tcp.Server.{StorageApi, Server, ErrorText, Round, crashed, store, handle_write}

module _ {S : Type 0} (api : StorageApi S) (text : ErrorText → List ℕ) where
  -- A slow request without points that is stored without an error, behind which the slow log reads
  -- points[0].
  abbrev pub LacksFirst : Round → Server S → List ℕ → Points → Type 0
  LacksFirst r s id ps =
      (ps ≡ all_read []) × (r.slow ≡ true) × ((api.write_batch id [] s.storage).0 ≡ none)

  no_points_crash :
      (r : Round) (id : List ℕ) (s : Server S)
      → (store api text r id (all_read []) s ≡ crashed) ↔ LacksFirst r s id (all_read [])
  unfolding store
  no_points_crash r id s = elim (Option-cases (api.write_batch id [] s.storage).0) [
    | inl e ↦ elim (Bool-cases r.slow) [
      | inl f ↦ rw (store, e, f) (λ h. (refl, refl, refl), λ h. refl)
      | inr f ↦
          rw (store, e, f)
            (λ h. absurd (ground (arith, h)), λ (p, q, w). absurd (ground (arith, q)))
    ]
    | inr (t, e) ↦
        rw (store, e) (λ h. absurd (ground (arith, h)), λ (p, q, w). absurd (ground (arith, w)))
  ]

  store_crashes :
      (r : Round) (id : List ℕ) (ps : Points) (s : Server S)
      → (store api text r id ps s ≡ crashed) ↔ LacksFirst r s id ps
  unfolding store
  store_crashes r id (point_short i) s =
      (λ h. absurd (ground (arith, h)), λ (p, q, w). absurd (ground (arith, p)))
  store_crashes r id (point_overrun i n) s =
      (λ h. absurd (ground (arith, h)), λ (p, q, w). absurd (ground (arith, p)))
  store_crashes r id (all_read []) s = no_points_crash r id s
  store_crashes r id (all_read (p ∷ ps)) s =
      elim (Option-cases (api.write_batch id (p ∷ ps) s.storage).0) [
        | inl e ↦
            rw (store, e) (λ h. absurd (ground (arith, h)), λ (p, q, w). absurd (ground (arith, p)))
        | inr (t, e) ↦
            rw (store, e) (λ h. absurd (ground (arith, h)), λ (p, q, w). absurd (ground (arith, p)))
      ]

  -- A request that is read as an empty write, and that is slow, and stored without an error.
  abbrev pub LogsNoPoint : Round → Server S → WriteRequest → Type 0
  LogsNoPoint r s w =
      (id : List ℕ) × (ps : Points) × (w ≡ write_points id ps) × LacksFirst r s id ps

  module _ (r : Round) (s : Server S) (body : List ℕ) where
    crash_cases :
        (w : WriteRequest)
        → parse_write body ≡ w
        → handle_write api text r body s ≡ crashed
        → (parse_write body ≡ write_crashed) ⊎ LogsNoPoint r s (parse_write body)
    unfolding handle_write
    crash_cases write_malformed e h = absurd (ground (arith, rw (handle_write, e) at h))
    crash_cases write_crashed e h = inl e
    crash_cases (write_points id ps) e h =
        inr (id, ps, e, (store_crashes r id ps s).0 (rw (handle_write, e) at h))

    does_crash :
        (parse_write body ≡ write_crashed) ⊎ LogsNoPoint r s (parse_write body)
        → handle_write api text r body s ≡ crashed
    unfolding handle_write
    does_crash (inl e) = rw (handle_write, e) refl
    does_crash (inr (id, ps, e, h)) = rw (handle_write, e) ((store_crashes r id ps s).1 h)

    -- A write request of six bytes or more crashes the server exactly if the length that it claims
    -- for the device id is 65530 or more, so that the 16-bit sum in the length check wraps around;
    -- or if it is read as one without points, which the storage takes without an error, and is slow.
    pub handle_write_crashes :
        6 ≤ length body
        → get_be 2 body < 65536
        → (handle_write api text r body s ≡ crashed)
          ↔ ((65530 ≤ get_be 2 body) ⊎ LogsNoPoint r s (parse_write body))
    handle_write_crashes h n =
        let (long, wraps) = parse_write_crashes body h n in
        (
          λ k. elim (crash_cases (parse_write body) refl k) [
            | inl c ↦ inl (long c)
            | inr w ↦ inr w
          ],
          λ k. elim k [ inl c ↦ does_crash (inl (wraps c)) | inr w ↦ does_crash (inr w) ],
        )
