-- ===== src/Text/StrVal.antt =====
-- StrVal of utils/string.go. Integers are the numbers that they denote, with the range of their type as
-- a hypothesis; the printing of floats and of other values is an interface.
use gobinace_qaggr_qrecv.Prelude.{
  ℕ, ℤ, pos, negsuc, ◌-◌, ◌<◌, ◌≤◌, ◌≤ℤ◌, ◌<ℤ◌, ltb, [], if◌then◌else◌, ◌≡◌, ◌≢◌, sym, ap, ◌∙◌,
  arith,
}
use gobinace_qaggr_qrecv.Quote.Ids.{Key, format_int, format_int-injective}

-- A value of the type interface{}; `F` are the floats and `A` all other values.
pub data Any (F A : Type 0) : Type 0 where
  nil : Any F A
  float64 float32 : F → Any F A
  int int8 int16 int32 int64 : ℤ → Any F A
  uint uint8 uint16 uint32 uint64 : ℕ → Any F A
  bytes : Key → Any F A
  string : Key → Any F A
  other : A → Any F A

-- `strconv.FormatFloat(ft, 'f', -1, 64)` and json.Marshal.
pub record Formats (F A : Type 0) : Type 0 where
  pub format_float : F → Key
  pub marshal : A → Key

abbrev pub two_63 : ℕ
two_63 = 9223372036854775808

abbrev pub two_64 : ℕ
two_64 = 18446744073709551616

-- The conversion of a uint to an int, both of 64 bits.
unfoldable pub int_of_uint : ℕ → ℤ
int_of_uint n = if ltb n two_63 then pos n else negsuc (two_64 - n - 1)

unfoldable pub str_val : {F A : Type 0} → Formats F A → Any F A → Key
unfolding int_of_uint
str_val fmt nil = []
str_val fmt (float64 x) = fmt.format_float x
str_val fmt (float32 x) = fmt.format_float x
str_val fmt (int n) = format_int n
str_val fmt (int8 n) = format_int n
str_val fmt (int16 n) = format_int n
str_val fmt (int32 n) = format_int n
str_val fmt (int64 n) = format_int n
str_val fmt (uint n) = format_int (int_of_uint n)
str_val fmt (uint8 n) = format_int (pos n)
str_val fmt (uint16 n) = format_int (pos n)
str_val fmt (uint32 n) = format_int (pos n)
str_val fmt (uint64 n) = format_int (pos n)
str_val fmt (bytes k) = k
str_val fmt (string k) = k
str_val fmt (other a) = fmt.marshal a

int_of_uint-small : (n : ℕ) → n < two_63 → int_of_uint n ≡ pos n
unfolding int_of_uint
int_of_uint-small n h = ground arith

int_of_uint-large : (n : ℕ) → two_63 ≤ n → int_of_uint n ≡ negsuc (two_64 - n - 1)
unfolding int_of_uint
int_of_uint-large n h = ground arith

below : (n : ℕ) (z : ℤ) → z ≡ pos n → z <ℤ pos two_63 → n < two_63
below n z e h = ground arith

module _ {F A : Type 0} where
  -- The integer that a value of an integer type denotes, within the range of its type.
  abbrev pub Denotes : Any F A → ℤ → Type 0
  Denotes (int n) z = z ≡ n
  Denotes (int8 n) z = (z ≡ n) × (negsuc 127 ≤ℤ n) × (n <ℤ pos 128)
  Denotes (int16 n) z = (z ≡ n) × (negsuc 32767 ≤ℤ n) × (n <ℤ pos 32768)
  Denotes (int32 n) z = (z ≡ n) × (negsuc 2147483647 ≤ℤ n) × (n <ℤ pos 2147483648)
  Denotes (int64 n) z = z ≡ n
  Denotes (uint n) z = (z ≡ pos n) × (n < two_64)
  Denotes (uint8 n) z = (z ≡ pos n) × (n < 256)
  Denotes (uint16 n) z = (z ≡ pos n) × (n < 65536)
  Denotes (uint32 n) z = (z ≡ pos n) × (n < 4294967296)
  Denotes (uint64 n) z = (z ≡ pos n) × (n < two_64)
  Denotes nil z = ⊥
  Denotes (float64 x) z = ⊥
  Denotes (float32 x) z = ⊥
  Denotes (bytes k) z = ⊥
  Denotes (string k) z = ⊥
  Denotes (other a) z = ⊥

  str_val-format_int :
      (fmt : Formats F A) (v : Any F A) (z : ℤ)
      → Denotes v z
      → z <ℤ pos two_63
      → str_val fmt v ≡ format_int z
  unfolding str_val
  str_val-format_int fmt (int n) z d h = ap format_int (sym d)
  str_val-format_int fmt (int8 n) z d h = ap format_int (sym d.0)
  str_val-format_int fmt (int16 n) z d h = ap format_int (sym d.0)
  str_val-format_int fmt (int32 n) z d h = ap format_int (sym d.0)
  str_val-format_int fmt (int64 n) z d h = ap format_int (sym d)
  str_val-format_int fmt (uint8 n) z d h = ap format_int (sym d.0)
  str_val-format_int fmt (uint16 n) z d h = ap format_int (sym d.0)
  str_val-format_int fmt (uint32 n) z d h = ap format_int (sym d.0)
  str_val-format_int fmt (uint64 n) z d h = ap format_int (sym d.0)
  str_val-format_int fmt (uint n) z d h =
      ap format_int (int_of_uint-small n (below n z d.0 h) ∙ sym d.0)
  str_val-format_int fmt nil z d h = absurd d
  str_val-format_int fmt (float64 x) z d h = absurd d
  str_val-format_int fmt (float32 x) z d h = absurd d
  str_val-format_int fmt (bytes k) z d h = absurd d
  str_val-format_int fmt (string k) z d h = absurd d
  str_val-format_int fmt (other a) z d h = absurd d

  -- Two integers below 2^63, of any types, have the same text only if they are the same number.
  pub str_val-injective :
      (fmt : Formats F A) (v w : Any F A) (y z : ℤ)
      → Denotes v y
      → Denotes w z
      → y <ℤ pos two_63
      → z <ℤ pos two_63
      → str_val fmt v ≡ str_val fmt w
      → y ≡ z
  str_val-injective fmt v w y z d e h k p =
      format_int-injective y z
        (sym (str_val-format_int fmt v y d h) ∙ p ∙ str_val-format_int fmt w z e k)

  -- From 2^63 on the text of a uint is that of a negative number, and not that of the number.
  pub str_val-uint :
      (fmt : Formats F A) (n : ℕ)
      → two_63 ≤ n
      → n < two_64
      → (str_val fmt (uint n) ≡ format_int (negsuc (two_64 - n - 1)))
        × (str_val fmt (uint n) ≢ str_val fmt (uint64 n))
  unfolding str_val
  str_val-uint fmt n h k =
      let e = int_of_uint-large n h in
      (ap format_int e, λ p. ne (sym e ∙ format_int-injective (int_of_uint n) (pos n) p))
    where
      ne : {a b : ℕ} → negsuc a ≡ pos b → ⊥
      ne q = cc
