-- ===== src/Worker/Pipeline/Conserves.antt =====
-- Between the loop of src/worker/mod.rs, the channel and the task of src/worker/history_writer.rs no
-- snapshot is lost or doubled, and none overtakes another.
use mathlib.Core.List.{append-nil}
use homeserver_rust.Prelude.{
  ℕ, ◌<◌, ◌≤◌, ◌≡◌, refl, sym, ap, subst, ◌∙◌, List, [], ◌∷◌, ◌++◌, All, arith, length, map,
  All-append, length-append, Option, none, some, true, false,
}
use homeserver_rust.Float.{Float}
use homeserver_rust.Models.{FullSystemSnapshot, SystemInfo}
use homeserver_rust.Alerting.Engine.{AlertEngine}
use homeserver_rust.History.Db.{Env, IsExactEnv, World}
use homeserver_rust.History.Raw.Saves.{IsStamped}
use homeserver_rust.Worker.HistoryWriter.{
  HistoryWriterConfig, Writer, WriterEvent, received, ticked, strip, turn, writer_channel_capacity,
}
use homeserver_rust.Worker.HistoryWriter.Keeps.{sent, holdings, turn-Holds}
use homeserver_rust.Worker.Sampler.{WorkerConfig, Tick, sample, assemble}
use homeserver_rust.Worker.Pipeline.Batches.{
  Extends, turn-Extends, appended-holdings, assemble-IsStamped, All-split, moved, one_more,
}
use homeserver_rust.Worker.Pipeline.{
  Pipeline, wrote, launch, sampled, Step, sampling, sending, stopping, receiving, flushing,
  finishing, others, Reach, start, next,
}

module _ {F : Type 0} where
  abbrev pub waiting : Option (FullSystemSnapshot F) → List (FullSystemSnapshot F)
  waiting none = []
  waiting (some s) = s ∷ []

  -- The snapshots that the writer has not received yet.
  abbrev pub in_flight : Pipeline F → List (FullSystemSnapshot F)
  in_flight p = p.queue ++ waiting p.pending

module _ {F : Type 0} ⦃f : Float F⦄ ⦃env : Env F⦄ (exact : IsExactEnv env) (config : WorkerConfig)
    (writing : HistoryWriterConfig) (info : SystemInfo) where
  -- Of the pipeline: every sample is in one place, and the places are in order; every timestamp is a
  -- `u64`, the channel is within its capacity, and what has ended has nothing left to hand on.
  pub record IsKept (p : Pipeline F) : Type 0 where
    pub order :
        map (strip writing) p.samples
        ≡ p.committed ++ (p.writer.buffer ++ map (strip writing) (in_flight p))
    pub written_stamped : All IsStamped p.writer.buffer
    pub flying_stamped : All IsStamped (in_flight p)
    pub room : length p.queue ≤ writer_channel_capacity writing.flush_rate
    pub stopped : p.running ≡ false → p.pending ≡ none
    pub ended : p.finished ≡ true → (p.running ≡ false) × (p.queue ≡ [])

  wrote-order :
      (p : Pipeline F) (wr : Writer F) (added rest : List (FullSystemSnapshot F))
      → map (strip writing) p.samples ≡ p.committed ++ (p.writer.buffer ++ (added ++ rest))
      → Extends exact config writing info p.writer wr
      → holdings wr ≡ holdings p.writer ++ added
      → map (strip writing) p.samples ≡ (wrote p wr).committed ++ (wr.buffer ++ rest)
  unfolding wrote
  wrote-order p wr added rest here grown held =
      moved exact config writing info _ p.committed p.writer.buffer added rest _ wr.buffer here
        (appended-holdings exact config writing info p.writer wr added grown held)

  sampled-IsKept :
      (p : Pipeline F) (t : Tick F)
      → p.running ≡ true
      → p.pending ≡ none
      → IsKept p
      → IsKept (sampled config p t)
  unfolding sampled sample
  sampled-IsKept p t runs free k = record {
    order =
        one_more exact config writing info p.samples p.committed p.writer.buffer p.queue
          (assemble config t) (rw free at k.order);
    written_stamped = k.written_stamped;
    flying_stamped =
        All-append IsStamped p.queue (assemble config t ∷ [])
          (All-split exact config writing info p.queue _ k.flying_stamped).0
          (assemble-IsStamped exact config writing info t, tt);
    room = k.room;
    stopped = λ off. ground (arith, runs, off);
    ended = λ done. ground (arith, runs, k.ended done);
  }

  sending-IsKept :
      (p : Pipeline F) (s : FullSystemSnapshot F)
      → p.pending ≡ some s
      → length p.queue < writer_channel_capacity writing.flush_rate
      → IsKept p
      → IsKept (record p { pending = none; queue = p.queue ++ s ∷ [] })
  sending-IsKept p s held space k = record {
    order =
        k.order ∙ ap (λ xs. p.committed ++ (p.writer.buffer ++ map (strip writing) xs)) (sym same);
    written_stamped = k.written_stamped;
    flying_stamped = subst (All IsStamped) (sym same) k.flying_stamped;
    room = omega (arith, length-append p.queue (s ∷ []), space);
    stopped = λ _. refl;
    ended = λ done. ground (arith, held, k.stopped (k.ended done).0);
  }
    where
      same : (p.queue ++ s ∷ []) ++ [] ≡ in_flight p
      same = append-nil (p.queue ++ s ∷ []) ∙ ap (λ w. p.queue ++ waiting w) (sym held)

  -- The buffer's items keep their stamps in a turn.
  turn-IsStamped :
      (wr : Writer F) (e : WriterEvent F)
      → All IsStamped wr.buffer
      → All IsStamped (sent writing (e ∷ []))
      → (holdings (turn writing info wr e) ≡ holdings wr ++ sent writing (e ∷ []))
        × All IsStamped (turn writing info wr e).buffer
  turn-IsStamped wr e small stamped =
      turn-Holds exact writing info (holdings wr) wr e stamped (refl, small)

  receiving-IsKept :
      (p : Pipeline F) (s : FullSystemSnapshot F) (rest : List (FullSystemSnapshot F))
      → p.finished ≡ false
      → p.queue ≡ s ∷ rest
      → IsKept p
      → IsKept (record (wrote p (turn writing info p.writer (received s))) { queue = rest })
  unfolding wrote strip
  receiving-IsKept p s rest busy full k = record {
    order =
        wrote-order p (turn writing info p.writer (received s)) (strip writing s ∷ [])
          (map (strip writing) (rest ++ waiting p.pending)) (rw full at k.order)
          (turn-Extends exact config writing info p.writer (received s) k.written_stamped
            (front.0, tt))
          after.0;
    written_stamped = after.1;
    flying_stamped = front.1;
    room = omega (arith, k.room, ap length full);
    stopped = k.stopped;
    ended = λ done. ground (arith, busy, done);
  }
    where
      front : IsStamped s × All IsStamped (rest ++ waiting p.pending)
      front = rw full at k.flying_stamped

      after :
          (holdings (turn writing info p.writer (received s))
            ≡ holdings p.writer ++ strip writing s ∷ [])
          × All IsStamped (turn writing info p.writer (received s)).buffer
      after = turn-IsStamped p.writer (received s) k.written_stamped (front.0, tt)

  flushing-IsKept :
      (p : Pipeline F)
      → p.finished ≡ false
      → IsKept p
      → IsKept (wrote p (turn writing info p.writer ticked))
  unfolding wrote
  flushing-IsKept p busy k = record {
    order =
        wrote-order p (turn writing info p.writer ticked) [] _ k.order
          (turn-Extends exact config writing info p.writer ticked k.written_stamped tt) after.0;
    written_stamped = after.1;
    flying_stamped = k.flying_stamped;
    room = k.room;
    stopped = k.stopped;
    ended = λ done. ground (arith, busy, done);
  }
    where
      after :
          (holdings (turn writing info p.writer ticked) ≡ holdings p.writer ++ [])
          × All IsStamped (turn writing info p.writer ticked).buffer
      after = turn-IsStamped p.writer ticked k.written_stamped tt

  step-IsKept : {p q : Pipeline F} → Step config writing info p q → IsKept p → IsKept q
  unfolding turn wrote
  step-IsKept {p} (sampling t runs free) k = sampled-IsKept p t runs free k
  step-IsKept {p} (sending s held room) k = sending-IsKept p s held room k
  step-IsKept {p} (stopping runs free) k = record {
    order = k.order;
    written_stamped = k.written_stamped;
    flying_stamped = k.flying_stamped;
    room = k.room;
    stopped = λ _. free;
    ended = λ done. (refl, (k.ended done).1);
  }
  step-IsKept {p} (receiving s rest busy full) k = receiving-IsKept p s rest busy full k
  step-IsKept {p} (flushing busy) k = flushing-IsKept p busy k
  step-IsKept {p} (finishing busy off clear) k =
      let kept = flushing-IsKept p busy k in
      record {
        order = kept.order;
        written_stamped = kept.written_stamped;
        flying_stamped = kept.flying_stamped;
        room = kept.room;
        stopped = kept.stopped;
        ended = λ _. (off, clear);
      }
  step-IsKept {p} (others w) k = record {
    order = k.order;
    written_stamped = k.written_stamped;
    flying_stamped = k.flying_stamped;
    room = k.room;
    stopped = k.stopped;
    ended = k.ended;
  }

  launch-IsKept :
      (engine : AlertEngine F) (saved_total : ℕ) (w : World F)
      → IsKept (launch engine saved_total w)
  unfolding launch
  launch-IsKept engine saved_total w = record {
    order = refl;
    written_stamped = tt;
    flying_stamped = tt;
    room = omega arith;
    stopped = λ _. refl;
    ended = λ done. ground (arith, done);
  }

  pub Reach-IsKept : {p : Pipeline F} → Reach config writing info p → IsKept p
  Reach-IsKept (start engine saved_total w) = launch-IsKept engine saved_total w
  Reach-IsKept (next before step) = step-IsKept step (Reach-IsKept before)

  -- If the parsers are exact: however the loop, the writer, the channel and other users of the
  -- database interleave, and whichever statements fail, each snapshot sampled, stripped as the
  -- configuration says, was committed to the table exactly once, or is in the writer's buffer, in
  -- the channel or waiting for it, in the order of sampling from the oldest; and the channel never
  -- holds more than its capacity.
  pub Reach-conserves :
      (p : Pipeline F)
      → Reach config writing info p
      → (map (strip writing) p.samples
          ≡ p.committed ++ (p.writer.buffer ++ map (strip writing) (in_flight p)))
        × (length p.queue ≤ writer_channel_capacity writing.flush_rate)
  Reach-conserves p reached = ((Reach-IsKept reached).order, (Reach-IsKept reached).room)

  -- If the parsers are exact: when the writer has ended, the loop has too, nothing is left between
  -- them, and what was sampled is what was committed, but for those at the end that the writer's
  -- last flush, having failed, left in its buffer.
  pub finished-drained :
      (p : Pipeline F)
      → Reach config writing info p
      → p.finished ≡ true
      → (p.running ≡ false)
        × (in_flight p ≡ [])
        × (map (strip writing) p.samples ≡ p.committed ++ p.writer.buffer)
  finished-drained p reached done = (
    (kept.ended done).0,
    clear,
    kept.order
        ∙ ap (λ xs. p.committed ++ (p.writer.buffer ++ map (strip writing) xs)) clear
        ∙ ap (λ xs. p.committed ++ xs) (append-nil p.writer.buffer),
  )
    where
      kept : IsKept p
      kept = Reach-IsKept reached

      clear : in_flight p ≡ []
      clear = rw ((kept.ended done).1, kept.stopped (kept.ended done).0) refl
