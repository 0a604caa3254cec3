-- ===== src/Aggregation/Lane.antt =====
-- A map by id beside a slice, as trademap and tradeindex of aggregation.go: when the two agree, and
-- what appending keeps.
use gobinace_qaggr_qrecv.Prelude.{◌≡◌, refl, Bool, false, ◌||◌, List, [], ◌∷◌, ◌++◌, arith}
use gobinace_qaggr_qrecv.Quote.Ids.{Key, key_eq, key_eq_iff}
use gobinace_qaggr_qrecv.Aggregation.Node.{Lane, has_key, record_item, append_item, empty_lane}

key_eq_comm : (a b : Key) → key_eq a b ≡ key_eq b a
key_eq_comm a b = ground (arith, key_eq_iff a b, key_eq_iff b a)

module _ {ℓ} {A : Type ℓ} (key : A → Key) where
  -- Does an entry of the slice have the id?
  pub in_index : Key → List A → Bool
  in_index k [] = false
  in_index k (a ∷ rest) = key_eq (key a) k || in_index k rest

  -- No two entries have one id.
  abbrev pub Distinct : List A → Type 0
  Distinct [] = Unit
  Distinct (a ∷ rest) = (in_index (key a) rest ≡ false) × Distinct rest

  in_index-append :
      (k : Key) (xs : List A) (a : A)
      → in_index k (xs ++ a ∷ []) ≡ (key_eq (key a) k || in_index k xs)
  unfolding in_index
  in_index-append k [] a = refl
  in_index-append k (x ∷ xs) a = ground (arith, in_index-append k xs a)

  pub Distinct-append :
      (xs : List A) (a : A) → in_index (key a) xs ≡ false → Distinct xs → Distinct (xs ++ a ∷ [])
  unfolding in_index
  Distinct-append [] a h d = (refl, tt)
  Distinct-append (x ∷ xs) a h d = (
    ground (arith, in_index-append (key x) xs a, key_eq_comm (key x) (key a)),
    Distinct-append xs a (ground arith) d.1,
  )

  -- The map knows exactly the ids of the slice, and the slice has each of them once.
  pub record IsIndexed (l : Lane A) : Type ℓ where
    pub agrees : (k : Key) → has_key k l.by_id ≡ in_index k l.index
    pub distinct : Distinct l.index

  pub IsIndexed-empty : IsIndexed empty_lane
  unfolding has_key in_index empty_lane
  IsIndexed-empty = record { agrees = λ k. refl; distinct = tt }

  pub IsIndexed-record_item :
      (a : A) (l : Lane A)
      → has_key (key a) l.by_id ≡ false
      → IsIndexed l
      → IsIndexed (record_item (key a) a l)
  unfolding has_key record_item
  IsIndexed-record_item a l h i = record {
    agrees = λ k. ground (arith, in_index-append k l.index a, i.agrees k);
    distinct = Distinct-append l.index a (ground (arith, i.agrees (key a))) i.distinct;
  }

  -- What `detach` appends past the map is new as well.
  pub Distinct-append_item :
      (a : A) (l : Lane A)
      → has_key (key a) l.by_id ≡ false
      → IsIndexed l
      → Distinct (append_item a l).index
  unfolding append_item
  Distinct-append_item a l h i =
      Distinct-append l.index a (ground (arith, i.agrees (key a))) i.distinct
