-- ===== src/Worker/HistoryWriter/Counts.antt =====
-- The counter that the task of src/worker/history_writer.rs shares with the statistics log.
use mathlib.Core.List.{append-nil}
use homeserver_rust.Prelude.{
  suc, All-append, ℕ, ◌+◌, ◌%◌, ◌^◌, ◌≡◌, refl, List, [], ◌∷◌, ◌++◌, map, All, arith, length,
  Bool-cases, inl, inr, length-append, ap, leb, is_empty, sym, ◌∙◌,
}
use homeserver_rust.Prelude.Result.{Result, ok, err}
use homeserver_rust.Float.{Float}
use homeserver_rust.Models.{FullSystemSnapshot, SystemInfo}
use homeserver_rust.History.Db.{Env, IsExactEnv, Db, World, DbError}
use homeserver_rust.History.Db.Post.{Post}
use homeserver_rust.History.Codec.{parse_snapshot_row}
use homeserver_rust.History.Raw.Saves.{IsStamped, stored, Appended, save_snapshots-Post}
use homeserver_rust.Worker.HistoryWriter.{
  HistoryWriterConfig, Writer, WriterEvent, received, ticked, strip, flushed, flush_buffer, turn,
  turns, run,
}
use homeserver_rust.Worker.HistoryWriter.Keeps.{sent, holdings, turn-Holds, turns-Holds}

module _ {F : Type 0} where
  -- The counter and the table grow alike.
  abbrev pub Counted : Writer F → Writer F → Type 0
  Counted wr wr' =
      (n : ℕ) × (length wr'.world.db.raw ≡ length wr.world.db.raw + n)
      × (wr'.snapshots_saved_total % 2 ^ 64 ≡ (wr.snapshots_saved_total + n) % 2 ^ 64)

  Counted-trans : (a b c : Writer F) → Counted a b → Counted b c → Counted a c
  Counted-trans a b c (m, am, at) (n, bn, bt) =
      (m + n, omega (arith, am, bn), omega (arith, at, bt))

length-map : {A B : Type 0} (g : A → B) (xs : List A) → length (map g xs) ≡ length xs
length-map g [] = refl
length-map g (x ∷ xs) = ap suc (length-map g xs)

module _ {F : Type 0} ⦃f : Float F⦄ ⦃env : Env F⦄ where
  length-Appended :
      (before : Db F) (snapshots : List (FullSystemSnapshot F)) (db : Db F)
      → Appended before snapshots tt db
      → length db.raw ≡ length before.raw + length snapshots
  length-Appended before snapshots db here =
      sym (length-map parse_snapshot_row db.raw)
      ∙ ap length here.0
      ∙ length-append (stored before) snapshots
      ∙ ap (λ n. n + length snapshots) (length-map parse_snapshot_row before.raw)

  flushed-Counted :
      (wr : Writer F) (r : Result DbError (Unit {0}) × World F)
      → Post (λ db. db ≡ wr.world.db) (Appended wr.world.db wr.buffer) r
      → Counted wr (flushed wr r).1
  unfolding flushed
  flushed-Counted wr (ok u, w) here =
      (length wr.buffer, length-Appended wr.world.db wr.buffer w.db here, omega arith)
  flushed-Counted wr (err e, w) same = (0, rw same (omega arith), omega arith)

module _ {F : Type 0} ⦃f : Float F⦄ ⦃env : Env F⦄ (exact : IsExactEnv env)
    (config : HistoryWriterConfig) (info : SystemInfo) where
  flush_buffer-Counted :
      (wr : Writer F) → All IsStamped wr.buffer → Counted wr (flush_buffer config info wr).1
  unfolding flush_buffer
  flush_buffer-Counted wr small = elim (Bool-cases (is_empty wr.buffer)) [
    | inl none ↦ rw none (0, omega arith, omega arith)
    | inr some ↦
        rw some (flushed-Counted wr _ (save_snapshots-Post exact wr.buffer info wr.world small))
  ]

  turn-Counted :
      (wr : Writer F) (e : WriterEvent F)
      → All IsStamped (sent config (e ∷ []))
      → All IsStamped wr.buffer
      → Counted wr (turn config info wr e)
  unfolding turn
  turn-Counted wr ticked stamped small = flush_buffer-Counted wr small
  turn-Counted wr (received s) stamped small =
      elim (Bool-cases (leb config.flush_rate (length next.buffer))) [
        | inl full ↦ rw full (flush_buffer-Counted next (All-append _ _ _ small stamped))
        | inr room ↦ rw room (0, omega arith, omega arith)
      ]
    where
      next : Writer F
      next = record wr { buffer = wr.buffer ++ strip config s ∷ [] }

  turns-Counted :
      (wr : Writer F) (events : List (WriterEvent F))
      → All IsStamped (sent config events)
      → All IsStamped wr.buffer
      → Counted wr (turns config info wr events)
  unfolding turns
  turns-Counted wr [] stamped small = (0, omega arith, omega arith)
  turns-Counted wr (received s ∷ events) stamped small =
      Counted-trans wr (turn config info wr (received s))
        (turns config info (turn config info wr (received s)) events)
        (turn-Counted wr (received s) (stamped.0, tt) small)
        (turns-Counted (turn config info wr (received s)) events stamped.1
          (turn-Holds exact config info (holdings wr) wr (received s) (stamped.0, tt)
            (refl, small)).1)
  turns-Counted wr (ticked ∷ events) stamped small =
      Counted-trans wr (turn config info wr ticked)
        (turns config info (turn config info wr ticked) events) (turn-Counted wr ticked tt small)
        (turns-Counted (turn config info wr ticked) events stamped
          (turn-Holds exact config info (holdings wr) wr ticked tt (refl, small)).1)

  -- If the parsers are exact and every timestamp sent is a `u64`: whichever statements fail, the
  -- counter grows by the number of rows that the task adds to the table, as a `u64`.
  pub run-Counted :
      (saved_total : ℕ) (w : World F) (events : List (WriterEvent F))
      → All IsStamped (sent config events)
      → Counted
          (record { buffer = []; snapshots_saved_total = saved_total; world = w })
          (run config info saved_total w events).1
  unfolding run
  run-Counted saved_total w events stamped =
      Counted-trans start end (flush_buffer config info end).1
        (turns-Counted start events stamped tt)
        (flush_buffer-Counted end
          (turns-Holds exact config info (stored w.db) start events stamped (append-nil _, tt)).1)
    where
      start : Writer F
      start = record { buffer = []; snapshots_saved_total = saved_total; world = w }

      end : Writer F
      end = turns config info start events
