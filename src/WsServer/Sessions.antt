-- ===== src/WsServer/Sessions.antt =====
-- Which session a user has, after any sequence of requests and closings in wsserver.go.
use text.Mathlib.Text.{◌==◌ as str_eq}
use text.Mathlib.TextEquality.{eq_iff}
use gobinace_qaggr_qrecv.Prelude.{
  ℕ, ℤ, pos, ◌-ℤ◌, ◌*ℤ◌, String, false, Option, none, some, List, [], ◌∷◌, ◌==◌, if◌then◌else◌, ◌≡◌,
  refl, sym, subst, ap, ◌∙◌, Bool-cases, Option-cases, inl, inr,
}
use gobinace_qaggr_qrecv.Generic.Dicts.{lookup, lookup-assign, clash, if_twice, if_swap}
use gobinace_qaggr_qrecv.WsServer.Header.{Bytes}
use gobinace_qaggr_qrecv.WsServer.Access.{
  WsUserAccount, Session, Clients, find_account, connect, delete, onclose, to_int64,
}

pub data Event : Type 0 where
  request : String → Bytes → ℤ → ℤ → ℕ → Event
  ended : Session → Event

unfoldable pub step : List WsUserAccount → Clients → Event → Clients
step users c (request name addr start now id) = (connect users name addr start now id c).0
step users c (ended s) = onclose s c

unfoldable pub run : List WsUserAccount → Clients → List Event → Clients
run users c [] = c
run users c (e ∷ es) = run users (step users c e) es

abbrev pub new_session : WsUserAccount → ℤ → ℤ → ℕ → Session
new_session u start now id = record {
  id = id;
  user = u;
  start = to_int64 (now -ℤ to_int64 (start *ℤ pos 1000));
}

-- The session of one user, seen alone: the last request that is let in, until that very session ends.
abbrev pub after_ended : Session → Option Session → Option Session
after_ended s none = none
after_ended s (some c) = if c.id == s.id then none else some c

abbrev pub after : List WsUserAccount → String → Option Session → Event → Option Session
after users name o (request n addr start now id) = elim (find_account users n addr) [
  | none ↦ o
  | some u ↦ if str_eq n name then some (new_session u start now id) else o
]
after users name o (ended s) = if str_eq s.user.user name then after_ended s o else o

abbrev pub online : List WsUserAccount → String → List Event → Option Session → Option Session
online users name [] o = o
online users name (e ∷ es) o = online users name es (after users name o e)

lookup-delete :
    (k n : String) (m : Clients)
    → lookup str_eq k (delete n m) ≡ (if str_eq n k then none else lookup str_eq k m)
unfolding lookup delete
lookup-delete k n [] = elim (Bool-cases (str_eq n k)) [ inl e ↦ rw e refl | inr e ↦ rw e refl ]
lookup-delete k n ((i, s) ∷ m) =
    let rest = lookup-delete k n m in
    elim (Bool-cases (str_eq i n)) [
      | inl e ↦
          rw (e, rest, ap (λ x. str_eq x k) ((eq_iff i n).0 e))
            (if_twice (str_eq n k) none (some s) (lookup str_eq k m))
      | inr e ↦
          rw (e, rest)
            (if_swap (str_eq i k) (str_eq n k) (some s) none (lookup str_eq k m) (λ p q.
              clash (str_eq i n) ((eq_iff i n).1 ((eq_iff i k).0 p ∙ sym ((eq_iff n k).0 q))) e))
    ]

-- The ending of a session, for its own user and for another.
onclose-own :
    (s : Session) (c : Clients) (name : String)
    → s.user.user ≡ name
    → lookup str_eq name (onclose s c) ≡ after_ended s (lookup str_eq name c)
unfolding onclose
onclose-own s c name p =
    subst (λ n. lookup str_eq n (onclose s c) ≡ after_ended s (lookup str_eq n c)) p
      (elim (Option-cases (lookup str_eq s.user.user c)) [
        | inl e ↦ rw (onclose, e) e
        | inr (d, e) ↦ elim (Bool-cases (d.id == s.id)) [
          | inl h ↦
              rw (onclose, e)
                (rw (h, lookup-delete s.user.user s.user.user c)
                  (rw ((eq_iff s.user.user s.user.user).1 refl) refl))
          | inr h ↦ rw (onclose, e) (rw h e)
        ]
      ])

onclose-other :
    (s : Session) (c : Clients) (name : String)
    → str_eq s.user.user name ≡ false
    → lookup str_eq name (onclose s c) ≡ lookup str_eq name c
unfolding onclose
onclose-other s c name n = elim (Option-cases (lookup str_eq s.user.user c)) [
  | inl e ↦ rw (onclose, e) refl
  | inr (d, e) ↦ elim (Bool-cases (d.id == s.id)) [
    | inl h ↦ rw (onclose, e) (rw (h, lookup-delete name s.user.user c, n) refl)
    | inr h ↦ rw (onclose, e) (rw h refl)
  ]
]

step-after :
    (users : List WsUserAccount) (name : String) (c : Clients) (e : Event)
    → lookup str_eq name (step users c e) ≡ after users name (lookup str_eq name c) e
unfolding step connect onclose
step-after users name c (request n addr start now id) =
    elim (Option-cases (find_account users n addr)) [
      | inl e ↦ rw (step, after, e) refl
      | inr (u, e) ↦
          rw (step, after, e) (lookup-assign str_eq eq_iff name n (new_session u start now id) c)
    ]
step-after users name c (ended s) = elim (Bool-cases (str_eq s.user.user name)) [
  | inl h ↦ rw h (onclose-own s c name ((eq_iff s.user.user name).0 h))
  | inr h ↦ rw h (onclose-other s c name h)
]

-- After any requests and endings each user has the session of the last request that was let in, unless
-- that session has ended; that an older session ends changes nothing.
pub run-online :
    (users : List WsUserAccount) (es : List Event) (c : Clients) (name : String)
    → lookup str_eq name (run users c es) ≡ online users name es (lookup str_eq name c)
unfolding run
run-online users [] c name = refl
run-online users (e ∷ es) c name =
    run-online users es (step users c e) name
    ∙ ap (online users name es) (step-after users name c e)
