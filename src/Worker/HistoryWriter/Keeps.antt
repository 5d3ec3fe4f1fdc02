-- ===== src/Worker/HistoryWriter/Keeps.antt =====
-- The task of src/worker/history_writer.rs loses no snapshot, writes none twice, and keeps their
-- order, whichever statements fail.
use mathlib.Core.List.{append_assoc, append-nil}
use homeserver_rust.Prelude.{
  ℕ, ◌≡◌, refl, sym, ap, subst, ◌∙◌, List, [], ◌∷◌, ◌++◌, All, arith, Bool-cases, inl, inr, length,
  leb, is_empty, All-append,
}
use homeserver_rust.Prelude.Result.{Result, ok, err}
use homeserver_rust.Float.{Float}
use homeserver_rust.Models.{FullSystemSnapshot, SystemInfo}
use homeserver_rust.History.Db.{Env, IsExactEnv, World, DbError}
use homeserver_rust.History.Db.Post.{Post}
use homeserver_rust.History.Raw.Saves.{IsStamped, stored, Appended, save_snapshots-Post}
use homeserver_rust.Worker.HistoryWriter.{
  HistoryWriterConfig, Writer, WriterEvent, received, ticked, strip, flushed, flush_buffer, turn,
  turns, run,
}

module _ {F : Type 0} where
  -- The snapshots that the task is sent, as it means to persist them.
  abbrev pub sent : HistoryWriterConfig → List (WriterEvent F) → List (FullSystemSnapshot F)
  sent config [] = []
  sent config (received s ∷ events) = strip config s ∷ sent config events
  sent config (ticked ∷ events) = sent config events

  -- After a flush that succeeded nothing is left in the buffer.
  abbrev pub Drained : Result DbError (Unit {0}) × Writer F → Type 0
  Drained (ok u, wr) = wr.buffer ≡ []
  Drained (err e, wr) = Unit

module _ {F : Type 0} ⦃f : Float F⦄ ⦃env : Env F⦄ where
  -- What the database and the buffer hold together.
  abbrev pub holdings : Writer F → List (FullSystemSnapshot F)
  holdings wr = stored wr.world.db ++ wr.buffer

module _ {F : Type 0} ⦃f : Float F⦄ ⦃env : Env F⦄ (exact : IsExactEnv env)
    (config : HistoryWriterConfig) (info : SystemInfo) where
  -- Of a flush: what is held is held after it, and after a success the buffer is empty.
  abbrev Flushed : Writer F → Result DbError (Unit {0}) × Writer F → Type 0
  Flushed wr (ok u, wr') = (holdings wr' ≡ holdings wr) × (wr'.buffer ≡ [])
  Flushed wr (err e, wr') = (holdings wr' ≡ holdings wr) × (wr'.buffer ≡ wr.buffer)

  flushed-Flushed :
      (wr : Writer F) (r : Result DbError (Unit {0}) × World F)
      → Post (λ db. db ≡ wr.world.db) (Appended wr.world.db wr.buffer) r
      → Flushed wr (flushed wr r)
  unfolding flushed
  flushed-Flushed wr (ok u, w) p = (append-nil (stored w.db) ∙ p.0, refl)
  flushed-Flushed wr (err e, w) p = (ap (λ db. stored db ++ wr.buffer) p, refl)

  flush_buffer-Flushed :
      (wr : Writer F) → All IsStamped wr.buffer → Flushed wr (flush_buffer config info wr)
  unfolding flush_buffer
  flush_buffer-Flushed wr small = elim (Bool-cases (is_empty wr.buffer)) [
    | inl none ↦ rw none (refl, ground arith)
    | inr some ↦
        rw some (flushed-Flushed wr _ (save_snapshots-Post exact wr.buffer info wr.world small))
  ]

  -- A writer that holds these snapshots, and whose buffer can be written.
  abbrev pub Holds : List (FullSystemSnapshot F) → Writer F → Type 0
  Holds all wr = (holdings wr ≡ all) × All IsStamped wr.buffer

  pub flush_buffer-Holds :
      (all : List (FullSystemSnapshot F)) (wr : Writer F)
      → Holds all wr
      → Holds all (flush_buffer config info wr).1
  flush_buffer-Holds all wr (here, small) =
      kept (flush_buffer config info wr) (flush_buffer-Flushed wr small)
    where
      kept : (r : Result DbError (Unit {0}) × Writer F) → Flushed wr r → Holds all r.1
      kept (ok u, wr') (same, done) = (same ∙ here, rw done tt)
      kept (err e, wr') (same, left) = (same ∙ here, rw left small)

  pub turn-Holds :
      (all : List (FullSystemSnapshot F)) (wr : Writer F) (e : WriterEvent F)
      → All IsStamped (sent config (e ∷ []))
      → Holds all wr
      → Holds (all ++ sent config (e ∷ [])) (turn config info wr e)
  unfolding turn
  turn-Holds all wr ticked stamped (here, small) =
      rw (append-nil all) (flush_buffer-Holds all wr (here, small))
  turn-Holds all wr (received s) stamped (here, small) =
      elim (Bool-cases (leb config.flush_rate (length next.buffer))) [
        | inl full ↦ rw full (flush_buffer-Holds (all ++ strip config s ∷ []) next holds)
        | inr room ↦ rw room holds
      ]
    where
      next : Writer F
      next = record wr { buffer = wr.buffer ++ strip config s ∷ [] }

      holds : Holds (all ++ strip config s ∷ []) next
      holds = (
        sym (append_assoc (stored wr.world.db) wr.buffer (strip config s ∷ []))
            ∙ ap (λ held. held ++ strip config s ∷ []) here,
        All-append _ _ _ small stamped,
      )

  pub turns-Holds :
      (all : List (FullSystemSnapshot F)) (wr : Writer F) (events : List (WriterEvent F))
      → All IsStamped (sent config events)
      → Holds all wr
      → Holds (all ++ sent config events) (turns config info wr events)
  unfolding turns
  turns-Holds all wr [] stamped h = rw (append-nil all) h
  turns-Holds all wr (received s ∷ events) stamped h =
      subst (λ held. Holds held (turns config info (turn config info wr (received s)) events))
        (append_assoc all (strip config s ∷ []) (sent config events))
        (turns-Holds (all ++ strip config s ∷ []) (turn config info wr (received s)) events
          stamped.1 (turn-Holds all wr (received s) (stamped.0, tt) h))
  turns-Holds all wr (ticked ∷ events) stamped h =
      turns-Holds all (turn config info wr ticked) events stamped
        (rw (append-nil all) at (turn-Holds all wr ticked tt h))

  -- If the parsers are exact and every timestamp sent is a `u64`: when the channel has closed,
  -- the table reads as before the task began, with all snapshots that the task was sent behind
  -- it, each once and in the order of their coming, but for those at the end that a last flush,
  -- having failed, leaves in the buffer.
  pub run-holdings :
      (saved_total : ℕ) (w : World F) (events : List (WriterEvent F))
      → All IsStamped (sent config events)
      → (holdings (run config info saved_total w events).1 ≡ stored w.db ++ sent config events)
        × Drained (run config info saved_total w events)
  unfolding run
  run-holdings saved_total w events stamped = (
    (flush_buffer-Holds _ end held).0,
    drained (flush_buffer config info end) (flush_buffer-Flushed end held.1),
  )
    where
      end : Writer F
      end =
          turns config info (record { buffer = []; snapshots_saved_total = saved_total; world = w })
            events

      held : Holds (stored w.db ++ sent config events) end
      held = turns-Holds (stored w.db) _ events stamped (append-nil _, tt)

      drained : (r : Result DbError (Unit {0}) × Writer F) → Flushed end r → Drained r
      drained (ok u, wr) f = f.1
      drained (err e, wr) f = tt
