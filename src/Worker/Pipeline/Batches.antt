-- ===== src/Worker/Pipeline/Batches.antt =====
-- What one turn of the task of src/worker/history_writer.rs moves from its buffer to the table.
use mathlib.Core.List.{append_assoc, append-nil, map-append}
use homeserver_rust.Prelude.{
  ℕ, ◌^◌, ◌<◌, ◌≡◌, sym, ap, ◌∙◌, List, [], ◌∷◌, ◌++◌, All, arith, Bool-cases, inl, inr, length,
  leb, is_empty, map, drop, All-append, drop-append, append_left-cancel, Option, none, some,
}
use homeserver_rust.Prelude.Result.{Result, ok, err}
use homeserver_rust.Float.{Float}
use homeserver_rust.Models.{FullSystemSnapshot, SystemInfo}
use homeserver_rust.History.Db.{Env, IsExactEnv, World, DbError}
use homeserver_rust.History.Db.Post.{Post}
use homeserver_rust.History.Raw.Saves.{IsStamped, stored, Appended, save_snapshots-Post}
use homeserver_rust.Worker.HistoryWriter.{
  HistoryWriterConfig, Writer, WriterEvent, received, ticked, strip, flushed, flush_buffer, turn,
}
use homeserver_rust.Worker.HistoryWriter.Keeps.{sent, holdings}
use homeserver_rust.Worker.Sampler.{WorkerConfig, Tick, assemble, timestamp_of}
use homeserver_rust.Worker.Pipeline.{appended}

module _ {F : Type 0} ⦃f : Float F⦄ ⦃env : Env F⦄ (exact : IsExactEnv env) (config : WorkerConfig)
    (writing : HistoryWriterConfig) (info : SystemInfo) where
  -- The table has grown at its end, if at all.
  abbrev pub Extends : Writer F → Writer F → Type 0
  Extends wr wr' =
      (batch : List (FullSystemSnapshot F)) × (stored wr'.world.db ≡ stored wr.world.db ++ batch)

  pub flush_buffer-Extends :
      (wr : Writer F) → All IsStamped wr.buffer → Extends wr (flush_buffer writing info wr).1
  unfolding flush_buffer
  flush_buffer-Extends wr small = elim (Bool-cases (is_empty wr.buffer)) [
    | inl idle ↦ rw idle ([], sym (append-nil _))
    | inr full ↦ rw full (grown _ (save_snapshots-Post exact wr.buffer info wr.world small))
  ]
    where
      grown :
          (r : Result DbError (Unit {0}) × World F)
          → Post (λ db. db ≡ wr.world.db) (Appended wr.world.db wr.buffer) r
          → Extends wr (flushed wr r).1
      grown (ok u, w) p = (wr.buffer, p.0)
      grown (err e, w) p = ([], ap stored p ∙ sym (append-nil _))

  pub turn-Extends :
      (wr : Writer F) (e : WriterEvent F)
      → All IsStamped wr.buffer
      → All IsStamped (sent writing (e ∷ []))
      → Extends wr (turn writing info wr e)
  unfolding turn
  turn-Extends wr ticked small stamped = flush_buffer-Extends wr small
  turn-Extends wr (received s) small stamped =
      elim (Bool-cases (leb writing.flush_rate (length (wr.buffer ++ strip writing s ∷ [])))) [
        | inl full ↦ rw full (
            flush_buffer-Extends (record wr { buffer = wr.buffer ++ strip writing s ∷ [] })
              (All-append _ _ _ small (stamped.0, tt)))
        | inr room ↦ rw room ([], sym (append-nil _))
      ]

  -- What is committed and what stays in the buffer are what was in the buffer and what came.
  pub appended-holdings :
      (wr wr' : Writer F) (added : List (FullSystemSnapshot F))
      → Extends wr wr'
      → holdings wr' ≡ holdings wr ++ added
      → appended wr.world.db wr'.world.db ++ wr'.buffer ≡ wr.buffer ++ added
  unfolding appended
  appended-holdings wr wr' added (batch, grown) held =
      ap (λ all. all ++ wr'.buffer)
        (ap (λ all. drop (length (stored wr.world.db)) all) grown
          ∙ drop-append (stored wr.world.db) batch)
      ∙ append_left-cancel (stored wr.world.db) (batch ++ wr'.buffer) (wr.buffer ++ added) (
          sym (append_assoc (stored wr.world.db) batch wr'.buffer)
          ∙ ap (λ all. all ++ wr'.buffer) (sym grown)
          ∙ held
          ∙ append_assoc (stored wr.world.db) wr.buffer added)

  pub timestamp_of-lt : (clock : Option ℕ) → timestamp_of clock < 2 ^ 64
  timestamp_of-lt none = omega arith
  timestamp_of-lt (some ms) = omega arith

  pub assemble-IsStamped : (t : Tick F) → IsStamped (assemble config t)
  unfolding assemble
  assemble-IsStamped t = timestamp_of-lt t.clock

  pub All-split :
      (xs ys : List (FullSystemSnapshot F))
      → All IsStamped (xs ++ ys)
      → All IsStamped xs × All IsStamped ys
  All-split [] ys h = (tt, h)
  All-split (x ∷ xs) ys h = ((h.0, (All-split xs ys h.1).0), (All-split xs ys h.1).1)

  -- The writer moves what it received to its buffer, and what it flushed to the table.
  pub moved :
      (all done before added rest batch after : List (FullSystemSnapshot F))
      → all ≡ done ++ (before ++ (added ++ rest))
      → batch ++ after ≡ before ++ added
      → all ≡ (done ++ batch) ++ (after ++ rest)
  moved all done before added rest batch after here same =
      here
      ∙ ap (λ xs. done ++ xs)
          (sym (append_assoc before added rest)
            ∙ ap (λ xs. xs ++ rest) (sym same)
            ∙ append_assoc batch after rest)
      ∙ sym (append_assoc done batch (after ++ rest))

  -- A sample goes behind all that is on its way.
  pub one_more :
      (samples done before queue : List (FullSystemSnapshot F)) (s : FullSystemSnapshot F)
      → map (strip writing) samples ≡ done ++ (before ++ map (strip writing) (queue ++ []))
      → map (strip writing) (samples ++ s ∷ [])
        ≡ done ++ (before ++ map (strip writing) (queue ++ s ∷ []))
  one_more samples done before queue s here =
      map-append (strip writing) samples (s ∷ [])
      ∙ ap (λ xs. xs ++ strip writing s ∷ [])
          (here ∙ ap (λ xs. done ++ (before ++ map (strip writing) xs)) (append-nil queue))
      ∙ append_assoc done (before ++ map (strip writing) queue) (strip writing s ∷ [])
      ∙ ap (λ xs. done ++ xs)
          (append_assoc before (map (strip writing) queue) (strip writing s ∷ [])
            ∙ ap (λ xs. before ++ xs) (sym (map-append (strip writing) queue (s ∷ []))))
