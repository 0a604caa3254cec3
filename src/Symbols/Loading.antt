-- ===== src/Symbols/Loading.antt =====
-- What loadTradingSymbol leads to: which symbols are in its map, and when it panics.
use text.Mathlib.Text.{◌==◌ as str_eq}
use text.Mathlib.TextEquality.{eq_iff}
use gobinace_qaggr_qrecv.Prelude.{
  String, Bool, true, false, ◌&&◌, Option, none, some, List, [], ◌∷◌, All, if◌then◌else◌, ◌>>=◌,
  ◌≡◌, refl, ap, sym, ◌∙◌, Bool-cases, inl, inr, subst, ◌⊎◌,
}
use gobinace_qaggr_qrecv.Generic.Dicts.{assign, lookup, lookup-assign, clash}
use gobinace_qaggr_qrecv.Symbols.Listed.{Symbol}
use gobinace_qaggr_qrecv.Symbols.Filters.{Decimals}
use gobinace_qaggr_qrecv.Symbols.Readable.{are_readable, when}
use gobinace_qaggr_qrecv.Symbols.Reading.{new_trading_symbol-reads}
use gobinace_qaggr_qrecv.Symbols.Trading.{
  Symbols, enter_all, is_trading, load_one, load_named, load_every, load_trading_symbol,
}

-- The loops where nothing panics.
abbrev loaded_one : String → Option Symbol → Symbols → Symbols
loaded_one name none m = m
loaded_one name (some s) m = if is_trading s then assign str_eq name s m else m

abbrev pub loaded_named : Symbols → List String → Symbols → Symbols
loaded_named exchange [] m = m
loaded_named exchange (name ∷ names) m =
    loaded_named exchange names (loaded_one name (lookup str_eq name exchange) m)

abbrev pub loaded_every : Symbols → Symbols → Symbols
loaded_every [] m = m
loaded_every ((name, s) ∷ rest) m = loaded_every rest (loaded_one name (some s) m)

-- A symbol that is there and traded.
abbrev pub if_trading : Option Symbol → Option Symbol
if_trading none = none
if_trading (some s) = if is_trading s then some s else none

-- The first of two.
abbrev or_else : Option Symbol → Option Symbol → Option Symbol
or_else none d = d
or_else (some s) d = some s

abbrev pub is_named : String → List String → Bool
is_named k [] = false
is_named k (n ∷ names) = if str_eq n k then true else is_named k names

-- No key twice.
abbrev pub IsNew : String → Symbols → Type 0
IsNew k = All (λ (e : String × Symbol). str_eq e.0 k ≡ false)

abbrev pub HasKeysOnce : Symbols → Type 0
HasKeysOnce [] = Unit
HasKeysOnce ((n, s) ∷ m) = IsNew n m × HasKeysOnce m

lookup-loaded_one :
    (k name : String) (o : Option Symbol) (m : Symbols)
    → lookup str_eq k (loaded_one name o m)
      ≡ (if str_eq name k then or_else (if_trading o) (lookup str_eq k m) else lookup str_eq k m)
lookup-loaded_one k name none m = elim (Bool-cases (str_eq name k)) [
  | inl e ↦ rw e refl
  | inr e ↦ rw e refl
]
lookup-loaded_one k name (some s) m = elim (Bool-cases (is_trading s)) [
  | inl t ↦ rw t (lookup-assign str_eq eq_iff k name s m)
  | inr t ↦ rw t (elim (Bool-cases (str_eq name k)) [ inl e ↦ rw e refl | inr e ↦ rw e refl ])
]

or_else-none : (o : Option Symbol) → or_else o none ≡ o
or_else-none none = refl
or_else-none (some s) = refl

once :
    (b : Bool) (x y : Option Symbol)
    → (if b then or_else x (or_else x y) else or_else x y) ≡ or_else x y
once true none y = refl
once true (some s) y = refl
once false x y = refl

lookup-loaded_named :
    (k : String) (exchange : Symbols) (names : List String) (m : Symbols)
    → lookup str_eq k (loaded_named exchange names m) ≡ (
        if is_named k names
        then or_else (if_trading (lookup str_eq k exchange)) (lookup str_eq k m)
        else lookup str_eq k m)
lookup-loaded_named k exchange [] m = refl
lookup-loaded_named k exchange (name ∷ names) m =
    let rest =
      lookup-loaded_named k exchange names (loaded_one name (lookup str_eq name exchange) m) in
    elim (Bool-cases (str_eq name k)) [
      | inl e ↦
          rw (rest, lookup-loaded_one k name (lookup str_eq name exchange) m, e)
            (rw (ap (λ x. if_trading (lookup str_eq x exchange)) ((eq_iff name k).0 e))
              (once (is_named k names) (if_trading (lookup str_eq k exchange)) (lookup str_eq k m)))
      | inr e ↦ rw (rest, lookup-loaded_one k name (lookup str_eq name exchange) m, e) refl
    ]

lookup-IsNew : (k : String) (m : Symbols) → IsNew k m → lookup str_eq k m ≡ none
unfolding lookup
lookup-IsNew k [] h = refl
lookup-IsNew k ((n, s) ∷ m) h = rw (h.0) (lookup-IsNew k m h.1)

lookup-loaded_every :
    (k : String) (exchange m : Symbols)
    → HasKeysOnce exchange
    → lookup str_eq k (loaded_every exchange m)
      ≡ or_else (if_trading (lookup str_eq k exchange)) (lookup str_eq k m)
unfolding lookup
lookup-loaded_every k [] m h = refl
lookup-loaded_every k ((n, s) ∷ rest) m h =
    let next = lookup-loaded_every k rest (loaded_one n (some s) m) h.1 in
    elim (Bool-cases (str_eq n k)) [
      | inl e ↦
          let new =
            lookup-IsNew k rest (subst (λ (x : String). IsNew x rest) ((eq_iff n k).0 e) h.0) in
          rw (next, new, lookup-loaded_one k n (some s) m, e) refl
      | inr e ↦ rw (next, lookup-loaded_one k n (some s) m, e) refl
    ]

assign-IsNew :
    (k n : String) (s : Symbol) (m : Symbols)
    → str_eq n k ≡ false
    → IsNew k m
    → IsNew k (assign str_eq n s m)
unfolding assign
assign-IsNew k n s [] d h = (d, tt)
assign-IsNew k n s ((j, t) ∷ m) d h = elim (Bool-cases (str_eq j n)) [
  | inl e ↦ rw e h
  | inr e ↦ rw e (h.0, assign-IsNew k n s m d h.1)
]

not_sym : (j n : String) → str_eq j n ≡ false → str_eq n j ≡ false
not_sym j n e = elim (Bool-cases (str_eq n j)) [
  | inl x ↦ absurd (clash (str_eq j n) ((eq_iff j n).1 (sym ((eq_iff n j).0 x))) e)
  | inr x ↦ x
]

assign-HasKeysOnce :
    (n : String) (s : Symbol) (m : Symbols) → HasKeysOnce m → HasKeysOnce (assign str_eq n s m)
unfolding assign
assign-HasKeysOnce n s [] h = (tt, tt)
assign-HasKeysOnce n s ((j, t) ∷ m) h = elim (Bool-cases (str_eq j n)) [
  | inl e ↦ rw e h
  | inr e ↦ rw e (assign-IsNew j n s m (not_sym j n e) h.0, assign-HasKeysOnce n s m h.1)
]

enter_all-HasKeysOnce :
    (symbols : List Symbol) (m : Symbols) → HasKeysOnce m → HasKeysOnce (enter_all symbols m)
unfolding enter_all
enter_all-HasKeysOnce [] m h = h
enter_all-HasKeysOnce (s ∷ rest) m h =
    enter_all-HasKeysOnce rest (assign str_eq s.symbol s m) (assign-HasKeysOnce s.symbol s m h)

-- Named in the settings, or nothing is.
abbrev pub is_chosen : List String → String → Bool
is_chosen [] k = true
is_chosen (n ∷ names) k = is_named k (n ∷ names)

-- The last entry of the name in what the exchange lists.
abbrev pub last_listed : String → List Symbol → Option Symbol
last_listed k [] = none
last_listed k (s ∷ rest) = or_else (last_listed k rest) (if str_eq s.symbol k then some s else none)

lookup-enter_all :
    (k : String) (symbols : List Symbol) (m : Symbols)
    → lookup str_eq k (enter_all symbols m) ≡ or_else (last_listed k symbols) (lookup str_eq k m)
unfolding enter_all
lookup-enter_all k [] m = refl
lookup-enter_all k (s ∷ rest) m =
    lookup-enter_all k rest (assign str_eq s.symbol s m)
    ∙ ap (or_else (last_listed k rest)) (lookup-assign str_eq eq_iff k s.symbol s m)
    ∙ last (last_listed k rest) (str_eq s.symbol k) (lookup str_eq k m)
  where
    last :
        (o : Option Symbol) (b : Bool) (d : Option Symbol)
        → or_else o (if b then some s else d) ≡ or_else (or_else o (if b then some s else none)) d
    last none true d = refl
    last none false d = refl
    last (some t) b d = refl

-- NewTradingSymbol can read the filters of each symbol that is traded.
abbrev pub is_loadable : Option Symbol → Bool
is_loadable none = true
is_loadable (some s) = if is_trading s then are_readable s.filters else true

abbrev pub named_loadable : Symbols → List String → Bool
named_loadable exchange [] = true
named_loadable exchange (name ∷ names) =
    is_loadable (lookup str_eq name exchange) && named_loadable exchange names

abbrev pub every_loadable : Symbols → Bool
every_loadable [] = true
every_loadable ((name, s) ∷ rest) = is_loadable (some s) && every_loadable rest

abbrev pub loadable : List String → Symbols → Bool
loadable [] exchange = every_loadable exchange
loadable (name ∷ names) exchange = named_loadable exchange (name ∷ names)

abbrev pub loaded : List String → Symbols → Symbols
loaded [] exchange = loaded_every exchange []
loaded (name ∷ names) exchange = loaded_named exchange (name ∷ names) []

module _ ⦃D : Decimals⦄ where
  load_one-when :
      (name : String) (o : Option Symbol) (m : Symbols)
      → load_one name o m ≡ when (is_loadable o) (loaded_one name o m)
  unfolding load_one
  load_one-when name none m = refl
  load_one-when name (some s) m = elim (Bool-cases (is_trading s)) [
    | inr t ↦ rw t refl
    | inl t ↦
        rw (t, new_trading_symbol-reads s)
          (elim (Bool-cases (are_readable s.filters)) [ inl r ↦ rw r refl | inr r ↦ rw r refl ])
  ]

  when-bind :
      (b c : Bool) (x y : Symbols) (f : Symbols → Option Symbols)
      → f x ≡ when c y
      → (when b x >>= f) ≡ when (b && c) y
  when-bind true c x y f e = e
  when-bind false c x y f e = refl

  load_named-when :
      (exchange : Symbols) (names : List String) (m : Symbols)
      → load_named exchange names m
        ≡ when (named_loadable exchange names) (loaded_named exchange names m)
  unfolding load_named
  load_named-when exchange [] m = refl
  load_named-when exchange (name ∷ names) m =
      let o = lookup str_eq name exchange in
      ap (λ r. r >>= load_named exchange names) (load_one-when name o m)
      ∙ when-bind (is_loadable o) (named_loadable exchange names) (loaded_one name o m) _ _
          (load_named-when exchange names (loaded_one name o m))

  load_every-when :
      (exchange m : Symbols)
      → load_every exchange m ≡ when (every_loadable exchange) (loaded_every exchange m)
  unfolding load_every
  load_every-when [] m = refl
  load_every-when ((name, s) ∷ rest) m =
      ap (λ r. r >>= load_every rest) (load_one-when name (some s) m)
      ∙ when-bind (is_loadable (some s)) (every_loadable rest) (loaded_one name (some s) m) _ _
          (load_every-when rest (loaded_one name (some s) m))

  pub load_trading_symbol-when :
      (names : List String) (exchange : Symbols)
      → load_trading_symbol names exchange ≡ when (loadable names exchange) (loaded names exchange)
  unfolding load_trading_symbol
  load_trading_symbol-when [] exchange = load_every-when exchange []
  load_trading_symbol-when (name ∷ names) exchange = load_named-when exchange (name ∷ names) []

  lookup-loaded :
      (symbols : List Symbol) (names : List String) (k : String)
      → lookup str_eq k (loaded names (enter_all symbols []))
        ≡ (if is_chosen names k then if_trading (lookup str_eq k (enter_all symbols [])) else none)
  unfolding lookup
  lookup-loaded symbols [] k =
      lookup-loaded_every k (enter_all symbols []) [] (enter_all-HasKeysOnce symbols [] tt)
      ∙ or_else-none (if_trading (lookup str_eq k (enter_all symbols [])))
  lookup-loaded symbols (n ∷ names) k =
      lookup-loaded_named k (enter_all symbols []) (n ∷ names) []
      ∙ ap (λ (o : Option Symbol). if is_chosen (n ∷ names) k then o else none)
          (or_else-none (if_trading (lookup str_eq k (enter_all symbols []))))

  -- loadTradingSymbol panics exactly if NewTradingSymbol cannot read the filters of a symbol that it is
  -- called of. Else the symbols that are traded are those of the exchange whose status says so, and, if
  -- the settings name symbols, only the named ones; of a symbol that the exchange lists twice the last
  -- entry counts.
  pub load_trading_symbol-lookup :
      (symbols : List Symbol) (names : List String)
      → ((loadable names (enter_all symbols []) ≡ false)
          × (load_trading_symbol names (enter_all symbols []) ≡ none))
        ⊎ ((m : Symbols) × (loadable names (enter_all symbols []) ≡ true)
            × (load_trading_symbol names (enter_all symbols []) ≡ some m)
            × ((k : String)
                → lookup str_eq k m
                  ≡ (if is_chosen names k then if_trading (last_listed k symbols) else none)))
  unfolding lookup
  load_trading_symbol-lookup symbols names =
      let exchange = enter_all symbols [] in
      elim (Bool-cases (loadable names exchange)) [
        | inr e ↦ inl (
          e,
          load_trading_symbol-when names exchange ∙ ap (λ b. when b (loaded names exchange)) e,
        )
        | inl e ↦ inr (
          loaded names exchange,
          e,
          load_trading_symbol-when names exchange ∙ ap (λ b. when b (loaded names exchange)) e,
          λ k.
              lookup-loaded symbols names k
              ∙ ap (λ o. if is_chosen names k then if_trading o else none)
                  (lookup-enter_all k symbols [] ∙ or_else-none (last_listed k symbols)),
        )
      ]
