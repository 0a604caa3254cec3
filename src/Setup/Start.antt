-- ===== src/Setup/Start.antt =====
-- A step of a start: it ends, it panics, or it waits for an answer that is not there yet.
use gobinace_qaggr_qrecv.Prelude.{Option, none, some}

pub data Start {ℓ} (A : Type ℓ) : Type ℓ where
  ok : A → Start A
  panicked : Start A
  waiting : Start A

infixl 20 ◌>>=◌
abbrev pub ◌>>=◌ {ℓ κ} : {A : Type ℓ} {B : Type κ} → Start A → (A → Start B) → Start B
ok a >>= f = f a
panicked >>= f = panicked
waiting >>= f = waiting

-- A loop that has ended, or waits.
abbrev pub awaited {ℓ} : {A : Type ℓ} → Option A → Start A
awaited none = waiting
awaited (some a) = ok a

-- A pointer that is followed.
abbrev pub followed {ℓ} : {A : Type ℓ} → Option A → Start A
followed none = panicked
followed (some a) = ok a
