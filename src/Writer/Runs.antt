-- ===== src/Writer/Runs.antt =====
-- A writer over any sequence of writes, signals and ticks, on a healthy disk.
use go_project.Base.{
  ℕ, ◌≡◌, refl, ap, ◌∙◌, sym, List, [], ◌∷◌, ◌++◌, append_assoc, append-nil, if◌then◌else◌, All,
  Bool, true, false,
}
use go_project.Zstd.{Zstd}
use go_project.Point.{SimpleDataPoint}
use go_project.Writer.{
  DayWriter, Disk, new_day_writer, write_batch, healthy, flush, Event, write, signalled, ticked,
  step, run, close,
}
use go_project.Writer.Blocks.{
  Block, all_points, Holds, new_day_writer-Holds, blocks_for, flush-Holds, flush-buffer,
  all_points-append, all_points-blocks_for,
}

-- The disk does not fail in any event.
abbrev pub IsHealthy : Event → Type 0
IsHealthy (write ps) = Unit {0}
IsHealthy (signalled disk) = disk ≡ healthy
IsHealthy (ticked disk) = disk ≡ healthy

-- A turn of the goroutine itself, on a disk that does not fail.
abbrev pub IsTurn : Event → Type 0
IsTurn (write ps) = ⊥
IsTurn (signalled disk) = disk ≡ healthy
IsTurn (ticked disk) = disk ≡ healthy

-- What the events hand to the writer.
abbrev pub written : List Event → List SimpleDataPoint
written [] = []
written (write ps ∷ es) = ps ++ written es
written (signalled disk ∷ es) = written es
written (ticked disk ∷ es) = written es

module _ (z : Zstd) (index_interval : ℕ) (old old_idx : List ℕ) where
  -- The files hold some blocks; their points and the buffer are what was accepted.
  pub record Accounts (ps : List SimpleDataPoint) (w : DayWriter) : Type 0 where
    pub blocks : List Block
    pub holds : Holds z index_interval old old_idx blocks w
    pub accepted : all_points blocks ++ w.buffer ≡ ps

  flush-Accounts :
      (ps : List SimpleDataPoint) (w : DayWriter)
      → Accounts ps w
      → Accounts ps (flush z index_interval healthy w)
  flush-Accounts ps w a = record {
    blocks = a.blocks ++ blocks_for w.buffer;
    holds = flush-Holds z index_interval w a.holds;
    accepted =
        rw (flush-buffer z index_interval healthy w, append-nil)
          (all_points-append a.blocks (blocks_for w.buffer)
            ∙ ap (λ (l : List SimpleDataPoint). all_points a.blocks ++ l)
                (all_points-blocks_for w.buffer)
            ∙ a.accepted);
  }

  pub write_batch-Accounts :
      (ps qs : List SimpleDataPoint) (w : DayWriter)
      → Accounts ps w
      → Accounts (ps ++ qs) (write_batch qs w)
  unfolding write_batch
  write_batch-Accounts ps [] w a = rw append-nil a
  write_batch-Accounts ps (q ∷ qs) w a = record {
    blocks = a.blocks;
    holds = record {
      data_file = a.holds.data_file;
      entries = a.holds.entries;
      idx_file = a.holds.idx_file;
      offset = a.holds.offset;
    };
    accepted =
        sym (append_assoc (all_points a.blocks) w.buffer (q ∷ qs))
        ∙ ap (λ (l : List SimpleDataPoint). l ++ (q ∷ qs)) a.accepted;
  }

  lower :
      (ps : List SimpleDataPoint) (w : DayWriter)
      → Accounts ps w
      → Accounts ps (record w { flush_signal = false })
  lower ps w a = record {
    blocks = a.blocks;
    holds = record {
      data_file = a.holds.data_file;
      entries = a.holds.entries;
      idx_file = a.holds.idx_file;
      offset = a.holds.offset;
    };
    accepted = a.accepted;
  }

  closed-Accounts :
      (ps : List SimpleDataPoint) (w : DayWriter)
      → Accounts ps w
      → Accounts ps (record w { closed = true })
  closed-Accounts ps w a = record {
    blocks = a.blocks;
    holds = record {
      data_file = a.holds.data_file;
      entries = a.holds.entries;
      idx_file = a.holds.idx_file;
      offset = a.holds.offset;
    };
    accepted = a.accepted;
  }

  signalled-Accounts :
      (full : Bool) (ps : List SimpleDataPoint) (w : DayWriter)
      → Accounts ps w
      → Accounts ps
          (if full then flush z index_interval healthy (record w { flush_signal = false }) else w)
  signalled-Accounts true ps w a = flush-Accounts ps _ (lower ps w a)
  signalled-Accounts false ps w a = a

  -- The goroutine of the writer takes a turn.
  pub turn-Accounts :
      (e : Event) (ps : List SimpleDataPoint) (w : DayWriter)
      → IsTurn e
      → Accounts ps w
      → Accounts ps (step z index_interval e w)
  unfolding step
  turn-Accounts (write qs) ps w h a = absurd h
  turn-Accounts (signalled disk) ps w h a = rw h (signalled-Accounts w.flush_signal ps w a)
  turn-Accounts (ticked disk) ps w h a = rw h (flush-Accounts ps w a)

  pub close-Accounts :
      (ps : List SimpleDataPoint) (w : DayWriter)
      → Accounts ps w
      → Accounts ps (close z index_interval healthy w)
  unfolding close
  close-Accounts ps w a = closed-Accounts ps _ (flush-Accounts ps w a)

  pub close-buffer : (disk : Disk) (w : DayWriter) → (close z index_interval disk w).buffer ≡ []
  unfolding close
  close-buffer disk w = flush-buffer z index_interval disk w

  pub new_day_writer-Accounts : Accounts [] (new_day_writer old old_idx)
  unfolding new_day_writer
  new_day_writer-Accounts = record {
    blocks = [];
    holds = new_day_writer-Holds z index_interval old old_idx;
    accepted = refl;
  }

  pub run-Accounts :
      (es : List Event) (ps : List SimpleDataPoint) (w : DayWriter)
      → All IsHealthy es
      → Accounts ps w
      → Accounts (ps ++ written es) (run z index_interval es w)
  unfolding run step
  run-Accounts [] ps w h a = rw append-nil a
  run-Accounts (write qs ∷ es) ps w (h, hs) a =
      rw (← append_assoc) (run-Accounts es (ps ++ qs) _ hs (write_batch-Accounts ps qs w a))
  run-Accounts (signalled disk ∷ es) ps w (h, hs) a =
      rw h (run-Accounts es ps _ hs (signalled-Accounts w.flush_signal ps w a))
  run-Accounts (ticked disk ∷ es) ps w (h, hs) a =
      rw h (run-Accounts es ps _ hs (flush-Accounts ps w a))

  -- From an open writer through any events and a close, all on a healthy disk: every point handed
  -- over is in a block on the disk, in order and once, and nothing is left in the buffer.
  pub close-run :
      (es : List Event)
      → All IsHealthy es
      → (bs : List Block) × Holds z index_interval old old_idx bs
          (close z index_interval healthy (run z index_interval es (new_day_writer old old_idx)))
        × (all_points bs ≡ written es)
        × ((close z index_interval healthy
              (run z index_interval es (new_day_writer old old_idx))).buffer
            ≡ [])
  unfolding close
  close-run es h =
      let start : Accounts [] (new_day_writer old old_idx) = record {
        blocks = [];
        holds = new_day_writer-Holds z index_interval old old_idx;
        accepted = unfold new_day_writer in refl;
      } in
      let a = flush-Accounts (written es) _ (run-Accounts es [] _ h start) in
      let empty =
        flush-buffer z index_interval healthy
          (run z index_interval es (new_day_writer old old_idx)) in
      (
        a.blocks,
        record {
          data_file = a.holds.data_file;
          entries = a.holds.entries;
          idx_file = a.holds.idx_file;
          offset = a.holds.offset;
        },
        sym (append-nil _)
            ∙ ap (λ (l : List SimpleDataPoint). all_points a.blocks ++ l) (sym empty)
            ∙ a.accepted,
        empty,
      )
