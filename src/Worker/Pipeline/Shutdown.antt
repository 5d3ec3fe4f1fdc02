-- ===== src/Worker/Pipeline/Shutdown.antt =====
-- The shutdown of src/worker/mod.rs and src/worker/history_writer.rs comes to its end.
use homeserver_rust.Prelude.{
  ℕ, suc, ◌+◌, ◌<◌, ◌≤◌, ◌≡◌, refl, ◌∙◌, true, false, List, [], ◌∷◌, ◌++◌, Option, none, some,
  Bool-cases, inl, inr, length, arith, length-append,
}
use native.Mathlib.Decide.{dec_lt}
use homeserver_rust.Float.{Float}
use homeserver_rust.Models.{FullSystemSnapshot, SystemInfo}
use homeserver_rust.History.Db.{Env, IsExactEnv}
use homeserver_rust.Worker.HistoryWriter.{
  HistoryWriterConfig, received, turn, writer_channel_capacity,
}
use homeserver_rust.Worker.Sampler.{WorkerConfig}
use homeserver_rust.Worker.Pipeline.{
  Pipeline, wrote, Step, sending, stopping, receiving, finishing, Reach, Steps, stay, then_step,
}
use homeserver_rust.Worker.Pipeline.Conserves.{IsKept, Reach-IsKept}

writer_channel_capacity-pos : (flush_rate : ℕ) → 0 < writer_channel_capacity flush_rate
unfolding writer_channel_capacity
writer_channel_capacity-pos flush_rate = omega arith

module _ {F : Type 0} ⦃f : Float F⦄ ⦃env : Env F⦄ (config : WorkerConfig)
    (writing : HistoryWriterConfig) (info : SystemInfo) where
  -- The end is reached within this many steps, and no sample comes in between.
  abbrev pub Ends : ℕ → Pipeline F → Type 0
  Ends n p =
      (k : ℕ) × (q : Pipeline F) × Steps config writing info k p q
      × (k ≤ n)
      × (q.finished ≡ true)
      × (q.samples ≡ p.samples)

  Ends-before :
      (n : ℕ) (p q : Pipeline F)
      → Step config writing info p q
      → q.samples ≡ p.samples
      → Ends n q
      → Ends (suc n) p
  Ends-before n p q step same (k, r, steps, few, done, alike) =
      (suc k, r, then_step step steps, omega (arith, few), done, alike ∙ same)

  -- The writer takes the rest of a closed channel, and then flushes.
  close-Ends :
      (queue : List (FullSystemSnapshot F)) (p : Pipeline F)
      → p.queue ≡ queue
      → p.running ≡ false
      → p.finished ≡ false
      → Ends (suc (length queue)) p
  unfolding wrote
  close-Ends [] p clear off busy =
      (1, _, then_step (finishing busy off clear) stay, omega arith, refl, refl)
  close-Ends (s ∷ rest) p full off busy = Ends-before _ p _ (receiving s rest busy full) refl (
      close-Ends rest (record (wrote p (turn writing info p.writer (received s))) { queue = rest })
        refl off busy)

  stop-Ends :
      (p : Pipeline F)
      → p.pending ≡ none
      → p.running ≡ true
      → p.finished ≡ false
      → Ends (suc (suc (length p.queue))) p
  stop-Ends p free on busy =
      Ends-before _ p _ (stopping on free) refl
        (close-Ends p.queue (record p { running = false }) refl refl busy)

  Ends-more : (n m : ℕ) (p : Pipeline F) → n ≤ m → Ends n p → Ends m p
  Ends-more n m p few (k, q, steps, least, done, alike) =
      (k, q, steps, omega (arith, few, least), done, alike)

  -- A snapshot that waits is put into the channel as soon as there is room.
  send-Ends :
      (p : Pipeline F) (s : FullSystemSnapshot F)
      → p.pending ≡ some s
      → length p.queue < writer_channel_capacity writing.flush_rate
      → p.running ≡ true
      → p.finished ≡ false
      → Ends (4 + length p.queue) p
  send-Ends p s held room on busy =
      Ends-more _ _ p (omega (arith, length-append p.queue (s ∷ []))) (
        Ends-before _ p _ (sending s held room) refl
          (stop-Ends (record p { pending = none; queue = p.queue ++ s ∷ [] }) refl on busy))

  -- The writer makes room first where there is none.
  full-Ends :
      (queue : List (FullSystemSnapshot F)) (p : Pipeline F) (s : FullSystemSnapshot F)
      → p.queue ≡ queue
      → 0 < length queue
      → length queue ≤ writer_channel_capacity writing.flush_rate
      → p.pending ≡ some s
      → p.running ≡ true
      → p.finished ≡ false
      → Ends (4 + length queue) p
  unfolding wrote
  full-Ends [] p s full filled room held on busy = absurd (omega (arith, filled))
  full-Ends (t ∷ rest) p s full filled room held on busy = Ends-more _ _ p (omega arith) (
      Ends-before _ p _ (receiving t rest busy full) refl (
        send-Ends (record (wrote p (turn writing info p.writer (received t))) { queue = rest }) s
          held (omega (arith, room)) on busy))

  open_pipeline-Ends :
      (p : Pipeline F) (pending : Option (FullSystemSnapshot F))
      → p.pending ≡ pending
      → length p.queue ≤ writer_channel_capacity writing.flush_rate
      → p.running ≡ true
      → p.finished ≡ false
      → Ends (4 + length p.queue) p
  open_pipeline-Ends p none free room on busy =
      Ends-more _ _ p (omega arith) (stop-Ends p free on busy)
  open_pipeline-Ends p (some s) held room on busy =
      elim (dec_lt (length p.queue) (writer_channel_capacity writing.flush_rate)) [
        | yes space ↦ send-Ends p s held space on busy
        | no full ↦
            full-Ends p.queue p s refl
              (omega (arith, full, writer_channel_capacity-pos writing.flush_rate)) room held on
              busy
      ]

  -- From every state that the loop and the writer can come to, if the parsers are exact, there is
  -- a way to the writer's end that takes no further sample, of at most four steps and one for each
  -- place of the channel: no snapshot that waits for a full channel, and no failing flush, keeps
  -- the shutdown from ending.
  pub shutdown-Ends :
      IsExactEnv env
      → (p : Pipeline F) → Reach config writing info p
      → Ends (4 + writer_channel_capacity writing.flush_rate) p
  shutdown-Ends exact p reached = elim (Bool-cases p.finished) [
    | inl done ↦ (0, p, stay, omega arith, done, refl)
    | inr busy ↦ elim (Bool-cases p.running) [
      | inl on ↦
          Ends-more _ _ p (omega (arith, kept.room))
            (open_pipeline-Ends p p.pending refl kept.room on busy)
      | inr off ↦ Ends-more _ _ p (omega (arith, kept.room)) (close-Ends p.queue p refl off busy)
    ]
  ]
    where
      kept : IsKept exact config writing info p
      kept = Reach-IsKept exact config writing info reached
