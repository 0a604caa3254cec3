-- ===== src/Quote/Ids.antt =====
-- The ids of core/quote.go: GetId prints an int64 by strconv.FormatInt(v, 10), and the maps of the
-- aggregator are keyed by that text. Two numbers print alike only if they are equal.
use mathlib.Core.Logic.{◌↔◌}
use gobinace_qaggr_qrecv.Prelude.{
  ℕ, zero, suc, ◌+◌, ◌-◌, ◌*◌, ◌/◌, ◌%◌, ◌≤◌, ◌<◌, ◌≡◌, refl, sym, ap, ◌∙◌, ℤ, pos, negsuc, Bool,
  true, false, ◌&&◌, List, [], ◌∷◌, ◌++◌, arith, ltb, ◌==◌, if◌then◌else◌, Bool-cases, inl, inr,
}

-- The bytes of a text.
abbrev pub Key : Type 0
Key = List ℕ

digits : ℕ → ℕ → Key
digits zero n = []
digits (suc fuel) n =
    let rest = digits fuel (n / 10) ++ (b'0' + n % 10) ∷ [] in
    if ltb n 10 then (b'0' + n) ∷ [] else rest

-- strconv.FormatInt(v, 10)
unfoldable pub format_int : ℤ → Key
unfolding digits
format_int (pos n) = digits (suc n) n
format_int (negsuc n) = b'-' ∷ digits (suc (suc n)) (suc n)

read_digits : ℕ → Key → ℕ
read_digits acc [] = acc
read_digits acc (c ∷ cs) = read_digits (acc * 10 + (c - b'0')) cs

read_digits-append :
    (acc : ℕ) (xs : Key) (c : ℕ)
    → read_digits acc (xs ++ c ∷ []) ≡ read_digits acc xs * 10 + (c - b'0')
unfolding read_digits
read_digits-append acc [] c = refl
read_digits-append acc (x ∷ xs) c = read_digits-append (acc * 10 + (x - b'0')) xs c

read_digits-digits : (fuel n : ℕ) → n < fuel → read_digits 0 (digits fuel n) ≡ n
unfolding digits read_digits
read_digits-digits zero n h = elim h [ ]
read_digits-digits (suc fuel) n h = elim (Bool-cases (ltb n 10)) [
  | inl e ↦ rw e (ground arith)
  | inr e ↦
      rw (e, read_digits-append 0 (digits fuel (n / 10)) (b'0' + n % 10))
        (ground (arith, read_digits-digits fuel (n / 10)))
]

-- The first character of a number is no minus sign.
abbrev StartsWithDigit : Key → Type 0
StartsWithDigit [] = Unit
StartsWithDigit (c ∷ cs) = b'0' ≤ c

StartsWithDigit-append :
    (xs : Key) (c : ℕ) → b'0' ≤ c → StartsWithDigit xs → StartsWithDigit (xs ++ c ∷ [])
StartsWithDigit-append [] c h s = h
StartsWithDigit-append (x ∷ xs) c h s = s

digits-StartsWithDigit : (fuel n : ℕ) → StartsWithDigit (digits fuel n)
unfolding digits
digits-StartsWithDigit zero n = tt
digits-StartsWithDigit (suc fuel) n = elim (Bool-cases (ltb n 10)) [
  | inl e ↦ rw e (omega arith)
  | inr e ↦ rw e (
      StartsWithDigit-append (digits fuel (n / 10)) (b'0' + n % 10) (omega arith)
        (digits-StartsWithDigit fuel (n / 10)))
]

not_minus : (xs ys : Key) → StartsWithDigit xs → xs ≡ b'-' ∷ ys → ⊥
not_minus [] ys s e = cc
not_minus (x ∷ xs) ys s e = ground arith

-- Equal ids are printed from equal numbers.
pub format_int-injective : (a b : ℤ) → format_int a ≡ format_int b → a ≡ b
unfolding format_int
format_int-injective (pos a) (pos b) h = ap pos (
    sym (read_digits-digits (suc a) a (omega arith))
    ∙ ap (read_digits 0) h
    ∙ read_digits-digits (suc b) b (omega arith))
format_int-injective (pos a) (negsuc b) h =
    absurd (not_minus (digits (suc a) a) _ (digits-StartsWithDigit (suc a) a) h)
format_int-injective (negsuc a) (pos b) h =
    absurd (not_minus (digits (suc b) b) _ (digits-StartsWithDigit (suc b) b) (sym h))
format_int-injective (negsuc a) (negsuc b) h =
    ground
      (arith, read_digits-digits (suc (suc a)) (suc a), read_digits-digits (suc (suc b)) (suc b))

-- Equality of texts, as a test.
unfoldable pub key_eq : Key → Key → Bool
key_eq [] [] = true
key_eq [] (y ∷ ys) = false
key_eq (x ∷ xs) [] = false
key_eq (x ∷ xs) (y ∷ ys) = x == y && key_eq xs ys

pub key_eq_iff : (xs ys : Key) → (key_eq xs ys ≡ true) ↔ (xs ≡ ys)
unfolding key_eq
key_eq_iff [] [] = ground arith
key_eq_iff [] (y ∷ ys) = ground arith
key_eq_iff (x ∷ xs) [] = ground arith
key_eq_iff (x ∷ xs) (y ∷ ys) = ground (arith, key_eq_iff xs ys)

printed : format_int (negsuc 1209) ≡ b'-' ∷ b'1' ∷ b'2' ∷ b'1' ∷ b'0' ∷ []
unfolding format_int
printed = refl
