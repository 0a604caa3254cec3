-- ===== src/Market/Plan.antt =====
-- `Open` of the market services: the symbols are spread over connections.
use text.Mathlib.Text.{◌==◌ as str_eq}
use text.Mathlib.TextEquality.{eq_iff}
use gobinace_qaggr_qrecv.Prelude.{
  ℕ, ℤ, suc, ◌≤◌, pos, String, Bool, true, false, Option, none, some, List, [], ◌∷◌, ◌++◌, map, All,
  if◌then◌else◌, ◌≡◌, refl, subst, ap, sym, append-nil, append_assoc, ◌∙◌,
}
use gobinace_qaggr_qrecv.Quote.Ids.{Key, format_int}
use gobinace_qaggr_qrecv.Generic.Dicts.{assign, lookup, lookup-assign}
use gobinace_qaggr_qrecv.Generic.Split.{
  split_array_by_slice_size, concat, HasSize, split_array_by_slice_size-IsSplit,
}
use gobinace_qaggr_qrecv.Market.Service.{Service}

-- A service is known by its id in the map of symbols.
pub record Manager : Type 0 where
  pub services : List Service
  pub symbol_in_service : List (String × Key)

unfoldable pub new_service : ℕ → List String → Service
new_service n symbols = record {
  id = format_int (pos n);
  symbols = symbols;
  connected = false;
  latest_update_time = pos 0;
}

-- `for _, sym := range symarr`
unfoldable pub enter_symbols : Key → List String → List (String × Key) → List (String × Key)
enter_symbols id [] m = m
enter_symbols id (s ∷ symbols) m = enter_symbols id symbols (assign str_eq s id m)

-- `for n, symarr := range symarr_list`
unfoldable pub add_services : ℕ → List (List String) → Manager → Manager
unfolding new_service
add_services n [] mgr = mgr
add_services n (symbols ∷ rest) mgr =
    let s = new_service n symbols in
    add_services (suc n) rest (record {
      services = mgr.services ++ s ∷ [];
      symbol_in_service = enter_symbols s.id symbols mgr.symbol_in_service;
    })

-- `none` where the split does not end, or panics.
unfoldable pub open_services : List String → ℤ → Option Manager
open_services symbols max_symbol_num_per_conn =
    elim (split_array_by_slice_size symbols max_symbol_num_per_conn) [
      | none ↦ none
      | some pieces ↦
          some (add_services 0 pieces (record { services = []; symbol_in_service = [] }))
    ]

abbrev pub symbols_of : List Service → List (List String)
symbols_of = map (λ (s : Service). s.symbols)

-- The id of the last service that has the symbol.
abbrev pub has_symbol : String → List String → Bool
has_symbol k [] = false
has_symbol k (s ∷ symbols) = if str_eq s k then true else has_symbol k symbols

abbrev pub service_with : String → ℕ → List (List String) → Option Key → Option Key
service_with k n [] d = d
service_with k n (symbols ∷ rest) d =
    service_with k (suc n) rest (if has_symbol k symbols then some (format_int (pos n)) else d)

symbols_of-append :
    (xs : List Service) (s : Service) → symbols_of (xs ++ s ∷ []) ≡ symbols_of xs ++ s.symbols ∷ []
symbols_of-append [] s = refl
symbols_of-append (x ∷ xs) s = ap (λ l. x.symbols ∷ l) (symbols_of-append xs s)

lookup-enter_symbols :
    (k : String) (id : Key) (symbols : List String) (m : List (String × Key))
    → lookup str_eq k (enter_symbols id symbols m)
      ≡ (if has_symbol k symbols then some id else lookup str_eq k m)
unfolding enter_symbols
lookup-enter_symbols k id [] m = refl
lookup-enter_symbols k id (s ∷ symbols) m =
    lookup-enter_symbols k id symbols (assign str_eq s id m)
    ∙ ap (λ (d : Option Key). if has_symbol k symbols then some id else d)
        (lookup-assign str_eq eq_iff k s id m)
    ∙ either (has_symbol k symbols) (str_eq s k) (some id) (lookup str_eq k m)
  where
    either :
        (a b : Bool) (x y : Option Key)
        → (if a then x else if b then x else y) ≡ (if (if b then true else a) then x else y)
    either true true x y = refl
    either true false x y = refl
    either false true x y = refl
    either false false x y = refl

-- What the loop adds.
abbrev Adds : String → ℕ → List (List String) → Manager → Manager → Type 0
Adds k n pieces mgr r =
    (symbols_of r.services ≡ symbols_of mgr.services ++ pieces)
    × (lookup str_eq k r.symbol_in_service
        ≡ service_with k n pieces (lookup str_eq k mgr.symbol_in_service))

add_services-Adds :
    (k : String) (n : ℕ) (pieces : List (List String)) (mgr : Manager)
    → Adds k n pieces mgr (add_services n pieces mgr)
unfolding add_services new_service
add_services-Adds k n [] mgr = (sym (append-nil (symbols_of mgr.services)), refl)
add_services-Adds k n (symbols ∷ rest) mgr =
    let s = new_service n symbols in
    let r = add_services-Adds k (suc n) rest (record {
      services = mgr.services ++ s ∷ [];
      symbol_in_service = enter_symbols s.id symbols mgr.symbol_in_service;
    }) in
    (
      r.0
          ∙ ap (λ l. l ++ rest) (symbols_of-append mgr.services s)
          ∙ append_assoc (symbols_of mgr.services) (symbols ∷ []) rest,
      r.1
          ∙ ap (service_with k (suc n) rest)
              (lookup-enter_symbols k s.id symbols mgr.symbol_in_service),
    )

-- All symbols together in their order, pieces of the right size, and the map of symbols.
abbrev pub IsPlan : List String → ℕ → Manager → Type 0
IsPlan symbols n mgr =
    (concat (symbols_of mgr.services) ≡ symbols)
    × All (HasSize n) (symbols_of mgr.services)
    × ((k : String)
        → lookup str_eq k mgr.symbol_in_service ≡ service_with k 0 (symbols_of mgr.services) none)

-- Open ends if the most symbols for a connection is positive. The connections then have all symbols
-- together, in their order; each has at most that many, and at least one; and the map finds a symbol
-- at the last connection that has it.
pub open_services-IsPlan :
    (symbols : List String) (n : ℕ)
    → 1 ≤ n
    → (mgr : Manager) × (open_services symbols (pos n) ≡ some mgr) × IsPlan symbols n mgr
unfolding open_services lookup
open_services-IsPlan symbols n h =
    let p = split_array_by_slice_size-IsSplit symbols n h in
    let none_yet : Manager = record { services = []; symbol_in_service = [] } in
    let e = (add_services-Adds "" 0 p.0 none_yet).0 in
    rw (open_services, p.1)
      (
        add_services 0 p.0 none_yet,
        refl,
        (
          ap concat e ∙ p.2,
          subst (All (HasSize n)) (sym e) p.3,
          λ k. (add_services-Adds k 0 p.0 none_yet).1 ∙ ap (λ l. service_with k 0 l none) (sym e),
        ),
      )
