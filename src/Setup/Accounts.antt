-- ===== src/Setup/Accounts.antt =====
-- The account of the settings and the client of the exchange's API: initBinance, GetOrNewWsClient and
-- ResetWsClient of the controllers (both services have the same).
use text.Mathlib.Text.{◌==◌ as str_eq}
use text.Mathlib.TextEquality.{eq_iff}
use gobinace_qaggr_qrecv.Prelude.{
  String, Bool, true, false, Option, none, some, List, [], ◌∷◌, ◌++◌, if◌then◌else◌, ◌≡◌, refl, ap,
  ◌∙◌, Bool-cases, inl, inr, All, ◌⊎◌,
}
use gobinace_qaggr_qrecv.Market.Service.{Succeeds}

pub record AccountConfig : Type 0 where
  pub name : String
  pub api_key : String
  pub secret_key : String
  pub test_net : Bool

-- `for _, acc := range c.config.Accounts`, with the account chosen so far.
unfoldable pub choose_account :
    String → List AccountConfig → Option AccountConfig → Option AccountConfig
choose_account name [] chosen = chosen
choose_account name (acc ∷ rest) chosen =
    choose_account name rest (if str_eq acc.name name then some acc else chosen)

unfoldable pub get_future_net_url : Bool → String
get_future_net_url testnet =
    if testnet
    then "wss://testnet.binancefuture.com/ws-fapi/v1"
    else "wss://ws-fapi.binance.com:443/ws-fapi/v1"

pub record WsApiClient : Type 0 where
  pub api_key : String
  pub secret_key : String
  pub endpoint : String
  pub is_open : Bool

-- The loop of GetOrNewWsClient over the answers to Connect, true for a connection; `none` says that it
-- has not ended with these answers.
unfoldable pub connect : AccountConfig → List Bool → Option WsApiClient
unfolding get_future_net_url
connect acc [] = none
connect acc (false ∷ answers) = connect acc answers
connect acc (true ∷ answers) = some (record {
  api_key = acc.api_key;
  secret_key = acc.secret_key;
  endpoint = get_future_net_url acc.test_net;
  is_open = true;
})

-- The client of the controller is an argument; the result is also the controller's client afterwards.
unfoldable pub get_or_new_ws_client :
    AccountConfig → List Bool → Option WsApiClient → Option WsApiClient
unfolding connect
get_or_new_ws_client acc answers (some client) = some client
get_or_new_ws_client acc answers none = connect acc answers

unfoldable pub reset_ws_client : Option WsApiClient → Option WsApiClient
reset_ws_client none = none
reset_ws_client (some client) = some (record client { is_open = false })

-- The last account of the name: those after it have other names.
abbrev pub IsLastNamed : String → List AccountConfig → AccountConfig → Type 0
IsLastNamed name accounts acc =
    (before : List AccountConfig) × (after : List AccountConfig) × (accounts
      ≡ before ++ acc ∷ after)
    × (acc.name ≡ name)
    × All (λ (a : AccountConfig). str_eq a.name name ≡ false) after

abbrev pub Unnamed : String → List AccountConfig → Type 0
Unnamed name = All (λ (a : AccountConfig). str_eq a.name name ≡ false)

-- The account that is chosen is the one so far, if none has the name, and the last of the name if one
-- has it.
abbrev pub Chooses : String → List AccountConfig → Option AccountConfig → Type 0
Chooses name accounts chosen =
    (Unnamed name accounts × (choose_account name accounts chosen ≡ chosen))
    ⊎ ((acc : AccountConfig) × (choose_account name accounts chosen ≡ some acc)
        × IsLastNamed name accounts acc)

pub choose_account-Chooses :
    (name : String) (accounts : List AccountConfig) (chosen : Option AccountConfig)
    → Chooses name accounts chosen
unfolding choose_account
choose_account-Chooses name [] chosen = inl (tt, refl)
choose_account-Chooses name (a ∷ rest) chosen =
    go (choose_account-Chooses name rest (if str_eq a.name name then some a else chosen))
  where
    go :
        Chooses name rest (if str_eq a.name name then some a else chosen)
        → Chooses name (a ∷ rest) chosen
    go (inl (u, e)) = elim (Bool-cases (str_eq a.name name)) [
      | inl t ↦ inr (a, e ∙ rw t refl, ([], rest, refl, (eq_iff a.name name).0 t, u))
      | inr f ↦ inl ((f, u), e ∙ rw f refl)
    ]
    go (inr (acc, e, (before, after, p, q, r))) =
        inr (acc, e, (a ∷ before, after, ap (λ l. a ∷ l) p, q, r))

pub connect-some :
    (acc : AccountConfig) (answers : List Bool)
    → Succeeds answers
    → (client : WsApiClient) × (connect acc answers ≡ some client)
unfolding connect
connect-some acc [] h = absurd h
connect-some acc (true ∷ answers) h = (_, refl)
connect-some acc (false ∷ answers) h = connect-some acc answers h
