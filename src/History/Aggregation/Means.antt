-- ===== src/History/Aggregation/Means.antt =====
-- src/history_repo/aggregation.rs: `mean_*`, and the folds for minima, maxima and sums.
use homeserver_rust.Prelude.{ℕ, ◌+◌, ◌/◌, ◌%◌, ◌^◌, List, [], ◌∷◌, length}
use homeserver_rust.Prelude.Int.{ℤ, pos, ◌+ℤ◌, min_ℤ, max_ℤ, tdiv, wrap_i64}
use homeserver_rust.Float.{Float}

module _ {F : Type 0} ⦃f : Float F⦄ where
  fold_f64 : (F → F → F) → F → List F → F
  fold_f64 op acc [] = acc
  fold_f64 op acc (x ∷ xs) = fold_f64 op (op acc x) xs

  unfoldable pub mean_f64 : List F → F
  unfolding fold_f64
  mean_f64 [] = f.of_ℕ 0
  mean_f64 (x ∷ xs) = f.div (fold_f64 f.add f.sum_start (x ∷ xs)) (f.of_ℕ (length (x ∷ xs)))

  unfoldable pub min_f64 : List F → F
  unfolding fold_f64
  min_f64 v = fold_f64 f.min f.infinity v

  unfoldable pub max_f64 : List F → F
  unfolding fold_f64
  max_f64 v = fold_f64 f.max f.neg_infinity v

-- `iter().sum()` on `u64` and `i64`, which wrap in a release build.
unfoldable pub sum_u64 : ℕ → List ℕ → ℕ
sum_u64 acc [] = acc
sum_u64 acc (x ∷ xs) = sum_u64 ((acc + x) % 2 ^ 64) xs

unfoldable pub sum_i64 : ℤ → List ℤ → ℤ
unfolding wrap_i64 ◌+ℤ◌
sum_i64 acc [] = acc
sum_i64 acc (x ∷ xs) = sum_i64 (wrap_i64 (acc +ℤ x)) xs

unfoldable pub mean_u64 : List ℕ → ℕ
unfolding sum_u64
mean_u64 [] = 0
mean_u64 (x ∷ xs) = sum_u64 0 (x ∷ xs) / length (x ∷ xs)

unfoldable pub mean_i64 : List ℤ → ℤ
unfolding sum_i64 tdiv
mean_i64 [] = pos 0
mean_i64 (x ∷ xs) = tdiv (sum_i64 (pos 0) (x ∷ xs)) (length (x ∷ xs))

fold_ℤ : (ℤ → ℤ → ℤ) → ℤ → List ℤ → ℤ
fold_ℤ op acc [] = acc
fold_ℤ op acc (x ∷ xs) = fold_ℤ op (op acc x) xs

-- `iter().min().unwrap_or(0)`
unfoldable pub min_i64 : List ℤ → ℤ
unfolding fold_ℤ
min_i64 [] = pos 0
min_i64 (x ∷ xs) = fold_ℤ min_ℤ x xs

unfoldable pub max_i64 : List ℤ → ℤ
unfolding fold_ℤ
max_i64 [] = pos 0
max_i64 (x ∷ xs) = fold_ℤ max_ℤ x xs
