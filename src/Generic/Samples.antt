-- ===== src/Generic/Samples.antt =====
-- Runs of the helpers of generic.go at concrete inputs, and the theorems at inputs that meet their
-- hypotheses.
use gobinace_qaggr_qrecv.Prelude.{
  pos, negsuc, ℕ, ◌+◌, ◌≡◌, refl, arith, none, some, List, [], ◌∷◌, ◌==◌,
}
use gobinace_qaggr_qrecv.Generic.Split.{
  split_array, split_array_by_slice_size, split_loop, IsSplit, split_array_by_slice_size-IsSplit,
}
use gobinace_qaggr_qrecv.Generic.Dicts.{map_slice, filter, reduce}

abbrev five : List ℕ
five = 1 ∷ 2 ∷ 3 ∷ 4 ∷ 5 ∷ []

split_runs :
    (split_array_by_slice_size five (pos 2) ≡ some ((1 ∷ 2 ∷ []) ∷ (3 ∷ 4 ∷ []) ∷ (5 ∷ []) ∷ []))
    × (split_array five (pos 4) ≡ some ((1 ∷ 2 ∷ []) ∷ (3 ∷ 4 ∷ []) ∷ (5 ∷ []) ∷ []))
unfolding split_array_by_slice_size split_array split_loop
split_runs = (refl, refl)

helpers_run :
    (map_slice five (λ n. n + 1) ≡ 2 ∷ 3 ∷ 4 ∷ 5 ∷ 6 ∷ [])
    × (filter five (λ n. n == 3) ≡ 3 ∷ [])
    × (reduce five 100 (λ v acc. acc + v) ≡ 115)
unfolding map_slice filter reduce
helpers_run = (refl, refl, refl)

split_array_by_slice_size-IsSplit_example : IsSplit five 2 (split_array_by_slice_size five (pos 2))
split_array_by_slice_size-IsSplit_example = split_array_by_slice_size-IsSplit five 2 (omega arith)

-- A negative size panics.
split-negative : split_array_by_slice_size five (negsuc 1) ≡ none
unfolding split_array_by_slice_size
split-negative = refl
