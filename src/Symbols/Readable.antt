-- ===== src/Symbols/Readable.antt =====
-- When the loop of NewTradingSymbol panics, and what a round of it reads otherwise.
use text.Mathlib.Text.{◌==◌ as str_eq}
use gobinace_qaggr_qrecv.Prelude.{
  String, Bool, true, false, ◌&&◌, Option, none, some, List, [], ◌∷◌, ◌>>=◌, ◌≡◌, refl,
}
use gobinace_qaggr_qrecv.Generic.Dicts.{lookup}
use gobinace_qaggr_qrecv.Symbols.Filters.{
  Decimals, Value, of_string, of_float64, of_int64, of_int, other, Entry, FilterType, price_filter,
  lot_size, market_lot_size, max_num_orders, min_notional, percent_price, market_take, unknown,
  filter_type, Price, LotSize, PercentPrice, Filters, decimal, asserted, text_at, limit_or,
  notional_or, int_or_zero, price_of, lot_size_of, percent_of, set_filter, set_filters,
}

abbrev pub is_string : Option Value → Bool
is_string (some (of_string t)) = true
is_string (some (of_float64 n)) = false
is_string (some (of_int64 n)) = false
is_string (some (of_int n)) = false
is_string (some other) = false
is_string none = false

-- The keys at which the switch asserts a text.
abbrev pub asserted_keys : FilterType → List String
asserted_keys price_filter = "maxPrice" ∷ "minPrice" ∷ "tickSize" ∷ []
asserted_keys lot_size = "maxQty" ∷ "minQty" ∷ "stepSize" ∷ []
asserted_keys market_lot_size = "maxQty" ∷ "minQty" ∷ "stepSize" ∷ []
asserted_keys percent_price = "multiplierDown" ∷ "multiplierUp" ∷ []
asserted_keys market_take = "multiplierUp" ∷ []
asserted_keys max_num_orders = []
asserted_keys min_notional = []
asserted_keys unknown = []

abbrev pub has_string : String → Entry → Bool
has_string k kv = is_string (lookup str_eq k kv)

abbrev pub has_strings : Entry → List String → Bool
has_strings kv [] = true
has_strings kv (k ∷ keys) = has_string k kv && has_strings kv keys

abbrev pub is_readable : Entry → Bool
is_readable kv = has_strings kv (asserted_keys (filter_type kv))

abbrev pub are_readable : List Entry → Bool
are_readable [] = true
are_readable (kv ∷ rest) = is_readable kv && are_readable rest

module _ ⦃D : Decimals⦄ where
  -- What is read where there is a text.
  abbrev pub string_or_zero : Option Value → D.Decimal
  string_or_zero (some (of_string t)) = decimal t
  string_or_zero (some (of_float64 n)) = D.zero_decimal
  string_or_zero (some (of_int64 n)) = D.zero_decimal
  string_or_zero (some (of_int n)) = D.zero_decimal
  string_or_zero (some other) = D.zero_decimal
  string_or_zero none = D.zero_decimal

  abbrev pub read : String → Entry → D.Decimal
  read k kv = string_or_zero (lookup str_eq k kv)

  abbrev pub read_price : Entry → Price
  read_price kv = record {
    max_price = read "maxPrice" kv;
    min_price = read "minPrice" kv;
    tick_size = read "tickSize" kv;
  }

  abbrev pub read_lot_size : Entry → LotSize
  read_lot_size kv = record {
    max_qty = read "maxQty" kv;
    min_qty = read "minQty" kv;
    step_size = read "stepSize" kv;
  }

  abbrev pub read_percent : Entry → PercentPrice
  read_percent kv = record {
    multiplier_decimal = int_or_zero (lookup str_eq "multiplierDecimal" kv);
    multiplier_down = read "multiplierDown" kv;
    multiplier_up = read "multiplierUp" kv;
  }

  -- A filter that is read.
  abbrev pub updated : FilterType → Entry → Filters → Filters
  updated price_filter kv f = record f { price = read_price kv }
  updated lot_size kv f = record f { lot = read_lot_size kv }
  updated market_lot_size kv f = record f { market_lot = read_lot_size kv }
  updated max_num_orders kv f = record f {
    order_limit = limit_or (lookup str_eq "limit" kv) f.order_limit;
  }
  updated min_notional kv f = record f {
    notional = notional_or (lookup str_eq "notional" kv) f.notional;
  }
  updated percent_price kv f = record f { percent = read_percent kv }
  updated market_take kv f = record f { take_bound = read "multiplierUp" kv }
  updated unknown kv f = f

  -- A value, if the test holds.
  abbrev pub when {ℓ} : {A : Type ℓ} → Bool → A → Option A
  when true a = some a
  when false a = none

  asserted-when : (o : Option Value) → asserted o ≡ when (is_string o) (string_or_zero o)
  unfolding asserted
  asserted-when (some (of_string t)) = refl
  asserted-when (some (of_float64 n)) = refl
  asserted-when (some (of_int64 n)) = refl
  asserted-when (some (of_int n)) = refl
  asserted-when (some other) = refl
  asserted-when none = refl

  text_at-when :
      (k : String) (kv : Entry) → text_at k kv ≡ when (is_string (lookup str_eq k kv)) (read k kv)
  unfolding text_at
  text_at-when k kv = asserted-when (lookup str_eq k kv)

  one {ℓ κ} :
      {A : Type ℓ} {B : Type κ} (b : Bool) (x : A) (g : A → B)
      → (when b x >>= λ y. some (g y)) ≡ when (b && true) (g x)
  one true x g = refl
  one false x g = refl

  two {ℓ κ} :
      {A : Type ℓ} {B : Type κ} (b c : Bool) (x y : A) (g : A → A → B)
      → (when b x >>= λ p. when c y >>= λ q. some (g p q)) ≡ when (b && (c && true)) (g x y)
  two true c x y g = one c y (g x)
  two false c x y g = refl

  three {ℓ κ} :
      {A : Type ℓ} {B : Type κ} (b c d : Bool) (x y z : A) (g : A → A → A → B)
      → (when b x >>= λ p. when c y >>= λ q. when d z >>= λ r. some (g p q r))
        ≡ when (b && (c && (d && true))) (g x y z)
  three true c d x y z g = two c d y z (g x)
  three false c d x y z g = refl

  bound {ℓ κ} :
      {A : Type ℓ} {B : Type κ} (b c : Bool) (x : A) (y : B) (g : A → Option B)
      → g x ≡ when c y
      → (when b x >>= g) ≡ when (b && c) y
  bound true c x y g e = e
  bound false c x y g e = refl

  same {ℓ κ} :
      {A : Type ℓ} {B : Type κ} (b : Bool) (x : A) (g : A → B)
      → (when b x >>= λ y. some (g y)) ≡ when b (g x)
  same true x g = refl
  same false x g = refl

  price_of-when :
      (kv : Entry)
      → price_of kv ≡ when (has_strings kv (asserted_keys price_filter)) (read_price kv)
  unfolding price_of
  price_of-when kv =
      rw (text_at-when "maxPrice" kv, text_at-when "minPrice" kv, text_at-when "tickSize" kv)
        (three (has_string "maxPrice" kv) (has_string "minPrice" kv) (has_string "tickSize" kv)
          (read "maxPrice" kv) (read "minPrice" kv) (read "tickSize" kv)
          (λ a b c. record { max_price = a; min_price = b; tick_size = c }))

  lot_size_of-when :
      (kv : Entry)
      → lot_size_of kv ≡ when (has_strings kv (asserted_keys lot_size)) (read_lot_size kv)
  unfolding lot_size_of
  lot_size_of-when kv =
      rw (text_at-when "maxQty" kv, text_at-when "minQty" kv, text_at-when "stepSize" kv)
        (three (has_string "maxQty" kv) (has_string "minQty" kv) (has_string "stepSize" kv)
          (read "maxQty" kv) (read "minQty" kv) (read "stepSize" kv)
          (λ a b c. record { max_qty = a; min_qty = b; step_size = c }))

  percent_of-when :
      (kv : Entry)
      → percent_of kv ≡ when (has_strings kv (asserted_keys percent_price)) (read_percent kv)
  unfolding percent_of
  percent_of-when kv =
      rw (text_at-when "multiplierDown" kv, text_at-when "multiplierUp" kv)
        (two (has_string "multiplierDown" kv) (has_string "multiplierUp" kv)
          (read "multiplierDown" kv) (read "multiplierUp" kv)
          (λ a b. record {
            multiplier_decimal = int_or_zero (lookup str_eq "multiplierDecimal" kv);
            multiplier_down = a;
            multiplier_up = b;
          }))

  set_filter-when :
      (t : FilterType) (kv : Entry) (f : Filters)
      → set_filter t kv f ≡ when (has_strings kv (asserted_keys t)) (updated t kv f)
  unfolding set_filter
  set_filter-when price_filter kv f = rw (price_of-when kv) (same _ _ _)
  set_filter-when lot_size kv f = rw (lot_size_of-when kv) (same _ _ _)
  set_filter-when market_lot_size kv f = rw (lot_size_of-when kv) (same _ _ _)
  set_filter-when max_num_orders kv f = refl
  set_filter-when min_notional kv f = refl
  set_filter-when percent_price kv f = rw (percent_of-when kv) (same _ _ _)
  set_filter-when market_take kv f = rw (text_at-when "multiplierUp" kv) (one _ _ _)
  set_filter-when unknown kv f = refl

  abbrev pub all_updated : List Entry → Filters → Filters
  all_updated [] f = f
  all_updated (kv ∷ rest) f = all_updated rest (updated (filter_type kv) kv f)

  pub set_filters-when :
      (fs : List Entry) (f : Filters) → set_filters fs f ≡ when (are_readable fs) (all_updated fs f)
  unfolding set_filters
  set_filters-when [] f = refl
  set_filters-when (kv ∷ rest) f =
      let g = updated (filter_type kv) kv f in
      rw (set_filter-when (filter_type kv) kv f) (
        bound (is_readable kv) (are_readable rest) g (all_updated rest g) (set_filters rest)
          (set_filters-when rest g))
