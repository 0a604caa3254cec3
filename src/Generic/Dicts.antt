-- ===== src/Generic/Dicts.antt =====
-- Filter, Reduce, Zip and Dict of generic.go. A Go map is an association list with one entry for a
-- key; its keys are compared by a test that decides equality.
use mathlib.Core.Logic.{◌↔◌}
use gobinace_qaggr_qrecv.Prelude.{
  ◌≤◌, ◌≡◌, refl, sym, ap, ◌∙◌, Bool, true, false, Option, none, some, List, [], ◌∷◌, ◌++◌, map,
  arith, if◌then◌else◌, length, take, Bool-cases, inl, inr,
}

pub clash : (b : Bool) → b ≡ true → b ≡ false → ⊥
clash b p q = cc

module _ {ℓ} {A : Type ℓ} where
  pub if_twice :
      (b : Bool) (x y z : A) → (if b then x else z) ≡ (if b then x else if b then y else z)
  if_twice true x y z = refl
  if_twice false x y z = refl

  pub if_swap :
      (a b : Bool) (x y z : A)
      → (a ≡ true → b ≡ true → ⊥)
      → (if a then x else if b then y else z) ≡ (if b then y else if a then x else z)
  if_swap true true x y z h = absurd (h refl refl)
  if_swap true false x y z h = refl
  if_swap false b x y z h = refl

  -- `for _, v := range s`, with the slice made so far.
  abbrev filter_onto : (A → Bool) → List A → List A → List A
  filter_onto fn [] to = to
  filter_onto fn (v ∷ s) to = filter_onto fn s (if fn v then to ++ v ∷ [] else to)

  unfoldable pub filter : List A → (A → Bool) → List A
  filter s fn = filter_onto fn s []

module _ {ℓ κ} {A : Type ℓ} {B : Type κ} where
  unfoldable pub map_slice : List A → (A → B) → List B
  map_slice [] fn = []
  map_slice (v ∷ s) fn = fn v ∷ map_slice s fn

  unfoldable pub reduce : List A → B → (A → B → B) → B
  reduce [] acc fn = acc
  reduce (v ∷ s) acc fn = reduce s (fn v acc) fn

  abbrev zipped : A → B → Option (List (A × B)) → Option (List (A × B))
  zipped v w none = none
  zipped v w (some t) = some ((v, w) ∷ t)

  -- `b[n]` panics where `b` is too short.
  unfoldable pub zip : List A → List B → Option (List (A × B))
  zip [] b = some []
  zip (v ∷ a) [] = none
  zip (v ∷ a) (w ∷ b) = zipped v w (zip a b)

module _ {ℓ κ} {K : Type ℓ} {V : Type κ} (same : K → K → Bool) where
  -- `kvs[k] = v`
  unfoldable pub assign : K → V → List (K × V) → List (K × V)
  assign k v [] = (k, v) ∷ []
  assign k v ((j, w) ∷ m) = if same j k then (j, v) ∷ m else (j, w) ∷ assign k v m

  unfoldable pub lookup : K → List (K × V) → Option V
  lookup k [] = none
  lookup k ((j, w) ∷ m) = if same j k then some w else lookup k m

  -- The loop of Dict, with the map made so far.
  unfoldable pub dict_onto : List K → List V → List (K × V) → Option (List (K × V))
  dict_onto [] b kvs = some kvs
  dict_onto (k ∷ a) [] kvs = none
  dict_onto (k ∷ a) (v ∷ b) kvs = dict_onto a b (assign k v kvs)

  unfoldable pub dict : List K → List V → Option (List (K × V))
  unfolding dict_onto
  dict a b = dict_onto a b []

  -- The value beside the last occurrence of a key.
  abbrev pub last_of : K → List K → List V → Option V → Option V
  last_of k [] b d = d
  last_of k (j ∷ a) [] d = d
  last_of k (j ∷ a) (v ∷ b) d = last_of k a b (if same j k then some v else d)

  module _ (lawful : (j k : K) → (same j k ≡ true) ↔ (j ≡ k)) where
    pub lookup-assign :
        (k j : K) (v : V) (m : List (K × V))
        → lookup k (assign j v m) ≡ (if same j k then some v else lookup k m)
    unfolding lookup assign
    lookup-assign k j v [] = refl
    lookup-assign k j v ((i, w) ∷ m) =
        let rest = lookup-assign k j v m in
        elim (Bool-cases (same i j)) [
          | inl e ↦ rw (e, ap (λ x. same x k) ((lawful i j).0 e)) (if_twice (same j k) _ _ _)
          | inr e ↦
              rw (e, rest)
                (if_swap (same i k) (same j k) _ _ _ (λ p q.
                  clash (same i j) ((lawful i j).1 ((lawful i k).0 p ∙ sym ((lawful j k).0 q))) e))
        ]

    dict_onto-lookup :
        (a : List K) (b : List V) (kvs : List (K × V))
        → length a ≤ length b
        → (m : List (K × V)) × (dict_onto a b kvs ≡ some m)
          × ((k : K) → lookup k m ≡ last_of k a b (lookup k kvs))
    unfolding dict_onto
    dict_onto-lookup [] b kvs h = (kvs, refl, λ k. refl)
    dict_onto-lookup (j ∷ a) [] kvs h = absurd (omega arith)
    dict_onto-lookup (j ∷ a) (v ∷ b) kvs h =
        let r = dict_onto-lookup a b (assign j v kvs) (omega arith) in
        (r.0, r.1, λ k. r.2 k ∙ ap (last_of k a b) (lookup-assign k j v kvs))

    -- Where every key has a value, Dict does not panic, and a lookup in its map finds the value beside
    -- the last occurrence of the key.
    pub dict-lookup :
        (a : List K) (b : List V)
        → length a ≤ length b
        → (m : List (K × V)) × (dict a b ≡ some m) × ((k : K) → lookup k m ≡ last_of k a b none)
    unfolding dict lookup
    dict-lookup a b h = dict_onto-lookup a b [] h

module _ {ℓ κ} {A : Type ℓ} {B : Type κ} where
  -- Zip pairs the entries in their order where the second slice is long enough.
  pub zip-projections :
      (a : List A) (b : List B)
      → length a ≤ length b
      → (t : List (A × B)) × (zip a b ≡ some t)
        × (map (λ e. e.0) t ≡ a)
        × (map (λ e. e.1) t ≡ take (length a) b)
  unfolding zip
  zip-projections [] b h = ([], refl, refl, refl)
  zip-projections (v ∷ a) [] h = absurd (omega arith)
  zip-projections (v ∷ a) (w ∷ b) h =
      let r = zip-projections a b (omega arith) in
      rw (r.1) ((v, w) ∷ r.0, refl, ap (λ l. v ∷ l) r.2, ap (λ l. w ∷ l) r.3)
