-- ===== src/AggregationWorker/Ends.antt =====
-- The roll-up loops of src/aggregation_worker.rs end: the fuel that a pass gives them suffices.
pub mod Rounds
use homeserver_rust.Prelude.{
  ℕ, zero, suc, ◌+◌, ◌-◌, ◌*◌, ◌/◌, ◌^◌, ◌≤◌, ◌<◌, ◌≡◌, ◌≢◌, refl, ◌⊎◌, inl, inr, Bool, true, false,
  List, [], ◌∷◌, Option, none, some, arith, Bool-cases, leb→le,
}
use homeserver_rust.Prelude.Int.{
  ℤ, pos, negsuc, pos_part, neg_part, ◌+ℤ◌, ◌≤ℤ◌, leb_ℤ, wrap_i64, wrap_i64_id, +ℤ_parts, InI64,
}
use homeserver_rust.Prelude.Result.{Result, ok, err}
use homeserver_rust.History.Db.{DbError, out_of_fuel, World, Exec, pure, raise, continue, ◌>>=◌}
use homeserver_rust.AggregationWorker.{bucket_end, buckets, roll}

-- Room for one more bucket without a wrap.
abbrev pub HasRoom : ℕ → ℤ → Type 0
HasRoom width t = (pos_part t + width < 2 ^ 63) × (neg_part t ≤ 2 ^ 63)

-- The distance to the cutoff, zero once it is passed.
abbrev pub gap : ℤ → ℤ → ℕ
gap start cutoff = (pos_part cutoff + neg_part start) - (pos_part start + neg_part cutoff)

module _ (width : ℕ) (start : ℤ) where
  bucket_end-plus :
      HasRoom width start
      → (pos_part (bucket_end width start) + neg_part start
          ≡ neg_part (bucket_end width start) + pos_part start + width)
        × InI64 (bucket_end width start)
  unfolding bucket_end ◌+ℤ◌
  bucket_end-plus room =
      let fits : InI64 (start +ℤ pos width) = ground arith in
      rw (wrap_i64_id (start +ℤ pos width) fits) (ground arith)

  pub fuel_enough :
      (cutoff : ℤ) → 0 < width → gap start cutoff < suc (buckets width start cutoff) * width
  unfolding buckets
  fuel_enough cutoff positive = grind arith

room_of_le :
    (width : ℕ) (e c : ℤ)
    → leb_ℤ e c ≡ true
    → pos_part c + width < 2 ^ 63
    → InI64 e
    → HasRoom width e
room_of_le width (pos n) (pos m) h room i = ground arith
room_of_le width (pos n) (negsuc m) h room i = ground arith
room_of_le width (negsuc n) c h room i = ground arith

module _ {F : Type 0} where
  abbrev pub NotOut : {A : Type 0} → Result DbError A × World F → Type 0
  NotOut r = r.0 ≢ err out_of_fuel

  module _ {A B : Type 0} (k : A → Exec F B) (rest : (a : A) (w : World F) → NotOut (k a w)) where
    NotOut-continue : (r : Result DbError A × World F) → NotOut r → NotOut (continue r.0 k r.1)
    NotOut-continue (ok a, w) h = rest a w
    NotOut-continue (err e, w) h = λ p. h (ground arith)

    pub NotOut-bind : (m : Exec F A) (w : World F) → NotOut (m w) → NotOut ((m >>= k) w)
    unfolding ◌>>=◌
    NotOut-bind m w h = NotOut-continue (m w) h

  pub NotOut-pure : {A : Type 0} (a : A) (w : World F) → NotOut (pure a w)
  unfolding pure
  NotOut-pure a w h = cc

  -- A loop over buckets ends with the result of its last round, or with the error of one of its
  -- rounds: with the fuel that a pass gives it, it never runs out.
  pub roll-NotOut :
      (width : ℕ) (round : ℤ → ℤ → ℕ → Exec F ℕ)
      → ((b end : ℤ) (count : ℕ) (w : World F) → NotOut (round b end count w))
      → (fuel : ℕ) (start cutoff : ℤ) (count : ℕ) (w : World F) → 0 < width
      → HasRoom width start
      → pos_part cutoff + width < 2 ^ 63
      → gap start cutoff < fuel * width
      → NotOut (roll round width fuel start cutoff count w)
  unfolding roll
  roll-NotOut width round ends zero start cutoff count w positive room limit enough =
      absurd (omega arith)
  roll-NotOut width round ends (suc fuel) start cutoff count w positive room limit enough =
      let (sum, fits) = bucket_end-plus width start room in
      elim (Bool-cases (leb_ℤ (bucket_end width start) cutoff)) [
        | inl more ↦
            let room' = room_of_le width (bucket_end width start) cutoff more limit fits in
            let enough' : gap (bucket_end width start) cutoff < fuel * width =
              omega (arith, sum, leb→le _ _ more) in
            rw more (
              NotOut-bind _
                (λ count' w'.
                  roll-NotOut width round ends fuel (bucket_end width start) cutoff count' w'
                    positive room' limit enough')
                _ w (ends start (bucket_end width start) count w))
        | inr over ↦ rw over (NotOut-pure count w)
      ]
