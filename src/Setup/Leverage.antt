-- ===== src/Setup/Leverage.antt =====
-- set_leverage of cmd/QuoteRecvSerivce/leverage.go: the leverage of the named symbols, or of all that are
-- traded, is changed one after the other. Texts are lists of bytes here, in ASCII; a name and a status are what is
-- read of a symbol. The answers of the exchange are arguments.
use gobinace_qaggr_qrecv.Prelude.{
  ℕ, String, ◌⊎◌, none, Bool, true, false, Option, some, List, [], ◌∷◌, ◌++◌, ◌==◌, if◌then◌else◌,
  ◌≡◌, refl, sym, ap, ◌∙◌, All, Bool-cases, inl, inr, ==_iff,
}
use gobinace_qaggr_qrecv.Quote.Ids.{Key, key_eq}
use gobinace_qaggr_qrecv.Generic.Dicts.{assign}
use gobinace_qaggr_qrecv.Receiver.Fanout.{to_upper}
use gobinace_qaggr_qrecv.Setup.Start.{Start, ok, panicked, ◌>>=◌, followed}
use gobinace_qaggr_qrecv.Setup.Accounts.{
  AccountConfig, choose_account, IsLastNamed, Unnamed, choose_account-Chooses,
}

-- `strings.Split(s, ",")`
abbrev grow : ℕ → List Key → List Key
grow c [] = []
grow c (w ∷ ws) = (c ∷ w) ∷ ws

unfoldable pub split : Key → List Key
split [] = [] ∷ []
split (c ∷ s) = let rest = split s in if c == b',' then [] ∷ rest else grow c rest

-- The changes that were made, and whether the loop ended without a panic.
pub record Changes : Type 0 where
  pub changed : List Key
  pub complete : Bool

-- `for _, symbol := range leverage_symbols`, with the answer for each symbol.
unfoldable pub change_leverage : (Key → Bool) → List Key → Changes
change_leverage accepts [] = record { changed = []; complete = true }
change_leverage accepts (s ∷ rest) =
    let r = change_leverage accepts rest in
    if accepts s
    then record r { changed = s ∷ r.changed }
    else record { changed = []; complete = false }

abbrev pub trading : Key
trading = b'T' ∷ b'R' ∷ b'A' ∷ b'D' ∷ b'I' ∷ b'N' ∷ b'G' ∷ []

-- `for _, syn := range exinfo.Symbols`
unfoldable pub by_name : List (Key × Key) → List (Key × Key) → List (Key × Key)
by_name [] m = m
by_name ((name, status) ∷ rest) m = by_name rest (assign key_eq name status m)

-- `for name, symbol := range exchangeSymbols`
unfoldable pub all_trading : List (Key × Key) → List Key
all_trading [] = []
all_trading ((name, status) ∷ rest) =
    let others = all_trading rest in if key_eq status trading then name ∷ others else others

unfoldable pub leverage_symbols : Key → List (Key × Key) → List Key
unfolding by_name all_trading split
leverage_symbols [] symbols = all_trading (by_name symbols [])
leverage_symbols (c ∷ s) symbols = split (to_upper (c ∷ s))

-- The name of the account and the accounts of the settings, the symbols that are asked for, those of the
-- exchange (`none` is an error), and its answers.
unfoldable pub set_leverage :
    String → List AccountConfig → Key → Option (List (Key × Key)) → (Key → Bool) → Start Changes
unfolding leverage_symbols change_leverage
set_leverage name accounts symbols exchange accepts = do
  a ← followed (choose_account name accounts none)
  listed ← followed exchange
  ok (change_leverage accepts (leverage_symbols symbols listed))

-- The texts with a comma between any two.
abbrev pub join : List Key → Key
join [] = []
join (w ∷ []) = w
join (w ∷ v ∷ ws) = w ++ b',' ∷ join (v ∷ ws)

join-grow : (c : ℕ) (w : Key) (ws : List Key) → join (grow c (w ∷ ws)) ≡ c ∷ join (w ∷ ws)
join-grow c w [] = refl
join-grow c w (v ∷ ws) = refl

abbrev HasNoComma : Key → Type 0
HasNoComma = All (λ (c : ℕ). (c == b',') ≡ false)

-- What Split gives: at least one text, none with a comma, which joined give the text.
abbrev pub IsSplitOf : Key → List Key → Type 0
IsSplitOf s words =
    (w : Key) × (ws : List Key) × (words ≡ w ∷ ws) × All HasNoComma words × (join words ≡ s)

pub split-IsSplitOf : (s : Key) → IsSplitOf s (split s)
unfolding split
split-IsSplitOf [] = ([], [], refl, (tt, tt), refl)
split-IsSplitOf (c ∷ s) = go (split-IsSplitOf s)
  where
    go :
        IsSplitOf s (split s)
        → IsSplitOf (c ∷ s) (if c == b',' then [] ∷ split s else grow c (split s))
    go (w, ws, e, n, j) = elim (Bool-cases (c == b',')) [
      | inl t ↦
          rw (t, e)
            (
              [],
              w ∷ ws,
              refl,
              (tt, rw e at n),
              ap (λ d. d ∷ join (w ∷ ws)) (sym ((==_iff c b',').0 t))
                  ∙ ap (λ l. c ∷ l) (ap join (sym e) ∙ j),
            )
      | inr f ↦
          rw (f, e)
            (
              c ∷ w,
              ws,
              refl,
              ((f, (rw e at n).0), (rw e at n).1),
              join-grow c w ws ∙ ap (λ l. c ∷ l) (ap join (sym e) ∙ j),
            )
    ]

-- Up to the first symbol that is refused.
abbrev pub StopsAt : (Key → Bool) → List Key → Bool → Type 0
StopsAt accepts [] complete = complete ≡ true
StopsAt accepts (s ∷ rest) complete = (complete ≡ false) × (accepts s ≡ false)

abbrev pub AreChanged : (Key → Bool) → List Key → Changes → Type 0
AreChanged accepts wanted r =
    (rest : List Key) × (wanted ≡ r.changed ++ rest)
    × All (λ (s : Key). accepts s ≡ true) r.changed
    × StopsAt accepts rest r.complete

change_leverage-AreChanged :
    (accepts : Key → Bool) (wanted : List Key)
    → AreChanged accepts wanted (change_leverage accepts wanted)
unfolding change_leverage
change_leverage-AreChanged accepts [] = ([], refl, tt, refl)
change_leverage-AreChanged accepts (s ∷ wanted) = elim (Bool-cases (accepts s)) [
  | inl e ↦
      let r = change_leverage-AreChanged accepts wanted in
      rw e (r.0, ap (λ l. s ∷ l) r.1, (e, r.2), r.3)
  | inr e ↦ rw e (s ∷ wanted, refl, tt, (refl, e))
]

abbrev pub Sets : String → List AccountConfig → Key → List (Key × Key) → (Key → Bool) → Type 0
Sets name accounts symbols listed accepts =
    (Unnamed name accounts × (set_leverage name accounts symbols (some listed) accepts ≡ panicked))
    ⊎ ((acc : AccountConfig) × IsLastNamed name accounts acc
        × (wanted : List Key) × (r : Changes) × (set_leverage name accounts symbols (some listed)
              accepts
            ≡ ok r)
        × IsSplitOf (to_upper symbols) wanted
        × AreChanged accepts wanted r)

-- Where symbols are named and the exchange answers: without an account of the name set_leverage panics;
-- with one, the named symbols, in upper case and in their order, are changed up to the first one that the
-- exchange refuses, and set_leverage ends without a panic exactly if it refuses none.
pub set_leverage-named :
    (name : String) (accounts : List AccountConfig) (c : ℕ) (names : Key)
    (listed : List (Key × Key)) (accepts : Key → Bool)
    → Sets name accounts (c ∷ names) listed accepts
unfolding set_leverage
set_leverage-named name accounts c names listed accepts =
    let words = split (to_upper (c ∷ names)) in
    elim (choose_account-Chooses name accounts none) [
      | inl (u, e) ↦ inl (u, rw e refl)
      | inr (acc, e, l) ↦ inr (
        acc,
        l,
        words,
        change_leverage accepts words,
        (rw e (unfold leverage_symbols in refl)),
        split-IsSplitOf (to_upper (c ∷ names)),
        change_leverage-AreChanged accepts words,
      )
    ]
