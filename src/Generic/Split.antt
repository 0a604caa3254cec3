-- ===== src/Generic/Split.antt =====
-- splitArray and splitArrayBySliceSize of generic.go, which spread the symbols over connections. Their
-- loops run on fuel: `none` is a loop that is not over, or a panic. A size is a Go int.
use gobinace_qaggr_qrecv.Prelude.{
  ℕ, zero, suc, ℤ, pos, negsuc, ◌+◌, ◌-◌, ◌*◌, ◌/◌, ◌≤◌, ◌<◌, ◌≡◌, refl, sym, ap, ◌∙◌, Option, none,
  some, List, [], ◌∷◌, ◌++◌, arith, ltb, if◌then◌else◌, length, take, drop, length-take,
  length-drop, take-append-drop, All, append-nil, Bool-cases, true, inl, inr,
}

pieces_bound :
    (k len s i : ℕ)
    → i < len
    → (i + s < len → k * s + (i + s) < len + s)
    → (len ≤ i + s → k ≡ 0)
    → suc k * s + i < len + s
pieces_bound k len s i l f g = grind arith

-- `(len + n - 1) / n` entries in each of `n` pieces are enough, and no piece is then empty.
quotient_up : (len n : ℕ) → 1 ≤ n → len ≤ n * ((len + n - 1) / n)
quotient_up len n h = grind arith

quotient_up-pos : (len n : ℕ) → 1 ≤ n → 1 ≤ len → 1 ≤ (len + n - 1) / n
quotient_up-pos len n h l = grind arith

few_pieces : (k len n s : ℕ) → 1 ≤ s → len ≤ n * s → k * s + 0 < len + s → k ≤ n
few_pieces k len n s h l b = grind arith

module _ {ℓ} {A : Type ℓ} where
  -- `arr[i:end]`
  abbrev pub slice : ℕ → ℕ → List A → List A
  slice i end arr = take (end - i) (drop i arr)

  -- `if end > len(arr) { end = len(arr) }`
  abbrev pub piece_end : List A → ℕ → ℕ
  piece_end arr end = if ltb (length arr) end then length arr else end

  pushed : List A → Option (List (List A)) → Option (List (List A))
  pushed piece none = none
  pushed piece (some rest) = some (piece ∷ rest)

  -- `for i < len(arr)`, with the end of a piece cut to the length.
  unfoldable pub split_loop : ℕ → List A → ℕ → ℕ → Option (List (List A))
  unfolding pushed
  split_loop zero arr slice_size i = none
  split_loop (suc fuel) arr slice_size i =
      let end = i + slice_size in
      let rest = split_loop fuel arr slice_size end in
      if ltb i (length arr) then pushed (slice i (piece_end arr end) arr) rest else some []

  -- A loop over a slice has at most as many rounds as the slice has entries, and a last test. A
  -- negative size gives a negative end in the first round, where `arr[i:end]` panics.
  unfoldable pub split_array_by_slice_size : List A → ℤ → Option (List (List A))
  split_array_by_slice_size arr (pos slice_size) = split_loop (suc (length arr)) arr slice_size 0
  split_array_by_slice_size [] (negsuc n) = some []
  split_array_by_slice_size (x ∷ xs) (negsuc n) = none

  -- `none` is also the division by 0, and the panic of `make` for a negative capacity; the memory is taken
  -- to hold the capacity that is asked for.
  unfoldable pub split_array : List A → ℤ → Option (List (List A))
  unfolding split_array_by_slice_size
  split_array arr (negsuc n) = none
  split_array arr (pos zero) = none
  split_array arr (pos (suc n)) =
      split_array_by_slice_size arr (pos ((length arr + suc n - 1) / suc n))

  abbrev pub concat : List (List A) → List A
  concat [] = []
  concat (piece ∷ rest) = piece ++ concat rest

  -- At least one entry and at most `n`.
  abbrev pub HasSize : ℕ → List A → Type 0
  HasSize n piece = (1 ≤ length piece) × (length piece ≤ n)

  take_all : (n : ℕ) (xs : List A) → length xs ≤ n → take n xs ≡ xs
  take_all zero [] h = refl
  take_all zero (x ∷ xs) h = absurd (omega arith)
  take_all (suc n) [] h = refl
  take_all (suc n) (x ∷ xs) h = ap (λ l. x ∷ l) (take_all n xs (omega arith))

  -- The loop ends, and the pieces are the slice in its order, each of such a size.
  abbrev pub IsSplit : List A → ℕ → Option (List (List A)) → Type ℓ
  IsSplit arr n o =
      (pieces : List (List A)) × (o ≡ some pieces) × (concat pieces ≡ arr) × All (HasSize n) pieces

  drop_past : (n : ℕ) (xs : List A) → length xs ≤ n → drop n xs ≡ []
  drop_past zero [] h = refl
  drop_past zero (x ∷ xs) h = absurd (omega arith)
  drop_past (suc n) [] h = refl
  drop_past (suc n) (x ∷ xs) h = drop_past n xs (omega arith)

  pub drop-drop : (i n : ℕ) (xs : List A) → drop n (drop i xs) ≡ drop (i + n) xs
  drop-drop zero n xs = ap (λ m. drop m xs) (omega arith)
  drop-drop (suc i) n [] =
      drop_past n [] (omega arith) ∙ sym (drop_past (suc i + n) [] (omega arith))
  drop-drop (suc i) n (x ∷ xs) =
      drop-drop i n xs ∙ ap (λ m. drop m (x ∷ xs)) {x = suc (i + n)} (omega arith)

  -- A piece, and what follows it.
  slice-drop :
      (arr : List A) (i s : ℕ)
      → i < length arr
      → slice i (piece_end arr (i + s)) arr ++ drop (i + s) arr ≡ drop i arr
  slice-drop arr i s l = elim (Bool-cases (ltb (length arr) (i + s))) [
    | inl h ↦
        rw (h, drop_past (i + s) arr (ground arith))
          (append-nil _ ∙ take_all (length arr - i) (drop i arr) (omega (arith, length-drop i arr)))
    | inr h ↦
        rw (h, ← drop-drop i s arr)
          (ap (λ n. take n (drop i arr) ++ drop s (drop i arr)) (omega arith)
            ∙ take-append-drop s (drop i arr))
  ]

  slice-HasSize :
      (arr : List A) (i s : ℕ)
      → 1 ≤ s
      → i < length arr
      → HasSize s (slice i (piece_end arr (i + s)) arr)
  slice-HasSize arr i s h l = (
    grind (arith, length-take (piece_end arr (i + s) - i) (drop i arr), length-drop i arr),
    grind (arith, length-take (piece_end arr (i + s) - i) (drop i arr), length-drop i arr),
  )

  -- What the loop gives from index `i` on.
  abbrev Gives : List A → ℕ → ℕ → Option (List (List A)) → Type ℓ
  Gives arr s i o =
      (pieces : List (List A)) × (o ≡ some pieces)
      × (concat pieces ≡ drop i arr)
      × All (HasSize s) pieces
      × (i < length arr → length pieces * s + i < length arr + s)
      × (length arr ≤ i → length pieces ≡ 0)

  split_loop-Gives :
      (fuel : ℕ) (arr : List A) (s i : ℕ)
      → 1 ≤ s
      → 1 ≤ fuel
      → length arr < i + fuel
      → Gives arr s i (split_loop fuel arr s i)
  unfolding split_loop
  split_loop-Gives zero arr s i h p f = absurd (omega arith)
  split_loop-Gives (suc fuel) arr s i h p f = elim (Bool-cases (ltb i (length arr))) [
    | inl e ↦
        let l : i < length arr = ground arith in
        let rest = split_loop-Gives fuel arr s (i + s) h (omega arith) (omega arith) in
        rw (e, rest.1)
          (
            slice i (piece_end arr (i + s)) arr ∷ rest.0,
            refl,
            ap (λ l. slice i (piece_end arr (i + s)) arr ++ l) rest.2 ∙ slice-drop arr i s l,
            (slice-HasSize arr i s h l, rest.3),
            λ _. pieces_bound (length rest.0) (length arr) s i l rest.4 rest.5,
            λ g. absurd (omega arith),
          )
    | inr e ↦
        let l : length arr ≤ i = ground arith in
        rw e ([], refl, sym (drop_past i arr l), tt, λ g. absurd (omega arith), λ _. refl)
  ]

  -- For every positive size splitArrayBySliceSize ends without a panic, and its pieces are the slice in
  -- its order, each with at least one entry and at most so many as the size says.
  pub split_array_by_slice_size-IsSplit :
      (arr : List A) (slice_size : ℕ)
      → 1 ≤ slice_size
      → IsSplit arr slice_size (split_array_by_slice_size arr (pos slice_size))
  unfolding split_array_by_slice_size
  split_array_by_slice_size-IsSplit arr s h =
      let g = split_loop-Gives (suc (length arr)) arr s 0 h (omega arith) (omega arith) in
      (g.0, g.1, g.2, g.3)

  -- splitArray makes at most `n` pieces of one size at most, the least with which `n` pieces are enough.
  pub split_array-IsSplit :
      (arr : List A) (n : ℕ)
      → 1 ≤ n
      → (pieces : List (List A)) × (split_array arr (pos n) ≡ some pieces)
        × (concat pieces ≡ arr)
        × All (HasSize ((length arr + n - 1) / n)) pieces
        × (length pieces ≤ n)
  unfolding split_array
  split_array-IsSplit arr zero h = absurd (omega arith)
  split_array-IsSplit [] (suc n) h =
      ([], unfold split_array_by_slice_size split_loop in refl, refl, tt, omega arith)
  split_array-IsSplit (x ∷ xs) (suc n) h =
      let len = length (x ∷ xs) in
      let s = (len + suc n - 1) / suc n in
      let o : 1 ≤ s = quotient_up-pos len (suc n) h (omega arith) in
      let g = split_loop-Gives (suc len) (x ∷ xs) s 0 o (omega arith) (omega arith) in
      (
        g.0,
        g.1,
        g.2,
        g.3,
        few_pieces (length g.0) len (suc n) s o (quotient_up len (suc n) h) (g.4 (omega arith)),
      )

  -- With pieces of size 0 no fuel is enough for a slice that has an entry: the source's loop appends
  -- empty pieces without end.
  pub split_loop-endless : (fuel : ℕ) (x : A) (xs : List A) → split_loop fuel (x ∷ xs) 0 0 ≡ none
  unfolding split_loop
  split_loop-endless zero x xs = refl
  split_loop-endless (suc fuel) x xs =
      let l : ltb 0 (length (x ∷ xs)) ≡ true = ground arith in
      rw (l, split_loop-endless fuel x xs) refl
