-- ===== src/WsServer/Access.antt =====
-- Who may connect, and which connection a user has: reloadUsers, the handler of "/ws" in open, and
-- onclose of wsserver.go. The lock of the server makes each of them one step.
use mathlib.Core.Option
use text.Mathlib.Text.{◌==◌ as str_eq}
use text.Mathlib.TextEquality.{eq_iff}
use gobinace_qaggr_qrecv.Prelude.{
  ℕ, ℤ, pos, ◌-ℤ◌, ◌*ℤ◌, String, Bool, true, false, Option, none, some, List, [], ◌∷◌, map, ◌==◌,
  if◌then◌else◌, ◌≡◌, ◌↔◌, refl, Bool-cases, inl, inr, ◌⊎◌,
}
use gobinace_qaggr_qrecv.Quote.Ids.{key_eq}
use gobinace_qaggr_qrecv.Generic.Dicts.{filter, assign, lookup, clash}
use gobinace_qaggr_qrecv.WsServer.Header.{Bytes, signed, wrap}

pub record WsUserAccount : Type 0 where
  pub user : String
  pub passwd : String
  pub enable : Bool
  pub ips : List Bytes

-- The file of users: `none` if it cannot be read; else what the JSON decoder makes of it.
unfoldable pub reload_users : (Bytes → List WsUserAccount) → Option Bytes → List WsUserAccount
reload_users unmarshal none = []
reload_users unmarshal (some content) = unmarshal content

-- `strings.Split(addr, ":")[0]`
unfoldable pub host_of : Bytes → Bytes
host_of [] = []
host_of (c ∷ cs) = if c == b':' then [] else c ∷ host_of cs

unfoldable pub is_allowed : List Bytes → Bytes → Bool
is_allowed [] addr = true
is_allowed (i ∷ ips) addr = elim (filter (i ∷ ips) (λ ip. key_eq ip (host_of addr))) [
  | [] ↦ false
  | f ∷ fs ↦ true
]

-- The loop over the users.
unfoldable pub find_account : List WsUserAccount → String → Bytes → Option WsUserAccount
find_account [] name addr = none
find_account (u ∷ us) name addr =
    let rest = find_account us name addr in
    if str_eq u.user name then (if is_allowed u.ips addr then some u else rest) else rest

-- A connection; `id` tells one from another.
pub record Session : Type 0 where
  pub id : ℕ
  pub user : WsUserAccount
  pub start : ℤ

abbrev pub Clients : Type 0
Clients = List (String × Session)

-- int64 arithmetic wraps.
unfoldable pub to_int64 : ℤ → ℤ
to_int64 z = signed 9223372036854775808 (wrap 18446744073709551616 z)

-- A request that is let in gets a session, and the older session of the user is closed, if there is
-- one: the second part is the id of the closed one. `start` is what ParseInt gives for the parameter,
-- `now` the clock in milliseconds.
unfoldable pub connect :
    List WsUserAccount → String → Bytes → ℤ → ℤ → ℕ → Clients → Clients × Option ℕ
connect users name addr start now id clients = elim (find_account users name addr) [
  | none ↦ (clients, none)
  | some u ↦ (
    assign str_eq name
        (record { id = id; user = u; start = to_int64 (now -ℤ to_int64 (start *ℤ pos 1000)) })
        clients,
    Option.map (λ (s : Session). s.id) (lookup str_eq name clients),
  )
]

-- `delete(s.clients, name)`
unfoldable pub delete : String → Clients → Clients
delete name [] = []
delete name ((n, s) ∷ m) = if str_eq n name then delete name m else (n, s) ∷ delete name m

unfoldable pub onclose : Session → Clients → Clients
onclose client clients = elim (lookup str_eq client.user.user clients) [
  | none ↦ clients
  | some c ↦ if c.id == client.id then delete client.user.user clients else clients
]

-- The account of some entry of the list has the name, and its addresses do not keep the caller out.
abbrev pub HasAccount : List WsUserAccount → String → Bytes → Type 0
HasAccount [] name addr = ⊥
HasAccount (u ∷ us) name addr =
    ((u.user ≡ name) × (is_allowed u.ips addr ≡ true)) ⊎ HasAccount us name addr

-- Everything but the name and the addresses taken out of an account.
abbrev pub scrubbed : WsUserAccount → WsUserAccount
scrubbed u = record u { passwd = ""; enable = false }

-- A request is let in by the name and the address alone: an account that is not enabled, or any
-- password, makes no difference.
pub find_account-scrubbed :
    (us : List WsUserAccount) (name : String) (addr : Bytes)
    → find_account (map scrubbed us) name addr ≡ Option.map scrubbed (find_account us name addr)
unfolding find_account
find_account-scrubbed [] name addr = refl
find_account-scrubbed (u ∷ us) name addr =
    let rest = find_account-scrubbed us name addr in
    elim (Bool-cases (str_eq u.user name)) [
      | inl e ↦ elim (Bool-cases (is_allowed u.ips addr)) [
        | inl a ↦ rw (e, a) refl
        | inr a ↦ rw (e, a) rest
      ]
      | inr e ↦ rw e rest
    ]

abbrev pub IsLetIn : Option WsUserAccount → Type 0
IsLetIn none = ⊥
IsLetIn (some u) = Unit

-- The loop lets in exactly the callers that some entry of the list admits: an entry of the name whose
-- addresses do not match does not keep a later one from doing so.
pub find_account_iff :
    (us : List WsUserAccount) (name : String) (addr : Bytes)
    → IsLetIn (find_account us name addr) ↔ HasAccount us name addr
unfolding find_account
find_account_iff [] name addr = (λ h. h, λ h. h)
find_account_iff (u ∷ us) name addr =
    let rest = find_account_iff us name addr in
    elim (Bool-cases (str_eq u.user name)) [
      | inl e ↦ elim (Bool-cases (is_allowed u.ips addr)) [
        | inl a ↦ rw (e, a) (λ _. inl ((eq_iff u.user name).0 e, refl), λ _. tt)
        | inr a ↦
            rw (e, a) (λ h. inr (rest.0 h), λ h. elim h [ inl x ↦ absurd (cc) | inr y ↦ rest.1 y ])
      ]
      | inr e ↦ rw e (
        λ h. inr (rest.0 h),
        λ h. elim h [
          | inl x ↦ absurd (clash (str_eq u.user name) ((eq_iff u.user name).1 x.0) e)
          | inr y ↦ rest.1 y
        ],
      )
    ]
