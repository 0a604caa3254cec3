-- ===== src/Instance/Unlock.antt =====
-- What Unlock of utils/env.go allows: it closes the file, and with it gives up the lock, before it removes
-- the name, which by then another process may have opened and locked.
use gobinace_qaggr_qrecv.Prelude.{
  ℕ, suc, ◌<◌, true, false, none, some, List, [], ◌∷◌, All, ◌≡◌, ◌≢◌, refl, sym, ap, ap₂, ◌∙◌,
  subst, Option-cases, inl, inr,
}
use gobinace_qaggr_qrecv.Instance.Lock.{
  idle, opened, flocked, running, closed, over, Host, set, booted, Action, open_file, flock, write,
  close, remove, moved, released, written, itoa, opened_at, flocked_at, act_open, act_flock,
  act_write, act_close, act_remove, act, run,
}
use gobinace_qaggr_qrecv.Instance.Steps.{file_of, is_remove}
use gobinace_qaggr_qrecv.Instance.Owners.{some_none, set-all, set-at}
use gobinace_qaggr_qrecv.Instance.Made.{not_below, run-WereMade}

set-off {ℓ} : {A : Type ℓ} (p : ℕ) (v : A) (f : ℕ → A) (q : ℕ) → q ≢ p → set p v f q ≡ f q
set-off p v f = set-all (λ k w. k ≢ p → w ≡ f k) p v f (λ n. absurd (n refl)) (λ k s n. refl)

-- The host after `q` has got through Lock with the file `i`.
abbrev entered : ℕ → ℕ → Host → Host
entered q i h = moved q (running i) (
    written i (itoa q)
      (moved q (flocked i) (record (moved q (opened i) h) { owner = set i (some q) h.owner })))

entered-phase : (q i : ℕ) (h : Host) → (entered q i h).phase q ≡ running i
unfolding moved written
entered-phase q i h = set-at q (running i) (moved q (flocked i) (moved q (opened i) h)).phase

entered-others : (q i s : ℕ) (h : Host) → s ≢ q → (entered q i h).phase s ≡ h.phase s
unfolding moved written
entered-others q i s h n =
    set-off q (running i) (set q (flocked i) (set q (opened i) h.phase)) s n
    ∙ (set-off q (flocked i) (set q (opened i) h.phase) s n ∙ set-off q (opened i) h.phase s n)

open-linked :
    (q i : ℕ) (h : Host)
    → h.phase q ≡ idle
    → h.linked ≡ some i
    → act (open_file q true) h ≡ moved q (opened i) h
unfolding act act_open opened_at
open-linked q i h e l = ap₂ (λ ph o. elim ph [ idle ↦ opened_at q o h | _ ↦ h ]) e l

flock-free :
    (q i : ℕ) (h : Host)
    → h.phase q ≡ opened i
    → h.owner i ≡ none
    → act (flock q) h ≡ moved q (flocked i) (record h { owner = set i (some q) h.owner })
unfolding act act_flock flocked_at
flock-free q i h e o = ap (λ ph. act_flock q ph h) e ∙ ap (λ w. flocked_at q i w h) o

write-flocked :
    (q i : ℕ) (h : Host)
    → h.phase q ≡ flocked i
    → act (write q) h ≡ moved q (running i) (written i (itoa q) h)
unfolding act act_write
write-flocked q i h e = ap (λ ph. act_write q ph h) e

-- A process gets through Lock where the lock of the file at the path is free.
act-entered :
    (q i : ℕ) (h : Host)
    → h.phase q ≡ idle
    → h.linked ≡ some i
    → h.owner i ≡ none
    → act (write q) (act (flock q) (act (open_file q true) h)) ≡ entered q i h
unfolding moved
act-entered q i h e l o =
    ap (λ g. act (write q) (act (flock q) g)) (open-linked q i h e l)
    ∙ (ap (act (write q)) (flock-free q i (moved q (opened i) h) (set-at q (opened i) h.phase) o)
        ∙ write-flocked q i
            (moved q (flocked i) (record (moved q (opened i) h) { owner = set i (some q) h.owner }))
            (set-at q (flocked i) (moved q (opened i) h).phase))

-- And where there is no file at the path, with a new one.
abbrev with_new : Host → Host
with_new h = record h { linked = some h.made; made = suc h.made }

open-new :
    (r : ℕ) (h : Host)
    → h.phase r ≡ idle
    → h.linked ≡ none
    → act (open_file r true) h ≡ act (open_file r true) (with_new h)
unfolding act act_open opened_at
open-new r h e l =
    ap₂ (λ ph o. elim ph [ idle ↦ opened_at r o h | _ ↦ h ]) e l
    ∙ sym (ap (λ ph. act_open r true ph (with_new h)) e)

act-entered_new :
    (r : ℕ) (h : Host)
    → h.phase r ≡ idle
    → h.linked ≡ none
    → h.owner h.made ≡ none
    → act (write r) (act (flock r) (act (open_file r true) h)) ≡ entered r h.made (with_new h)
act-entered_new r h e l o =
    ap (λ g. act (write r) (act (flock r) g)) (open-new r h e l)
    ∙ act-entered r h.made (with_new h) e refl o

close-running :
    (p i : ℕ) (h : Host) → h.phase p ≡ running i → act (close p) h ≡ moved p closed (released i h)
unfolding act act_close
close-running p i h e = ap (λ ph. act_close p ph h) e

remove-closed :
    (p : ℕ) (h : Host)
    → h.phase p ≡ closed
    → act (remove p) h ≡ moved p over (record h { linked = none })
unfolding act act_remove
remove-closed p h e = ap (λ ph. act_remove p ph h) e

-- `p` leaves by Unlock; between its Close and its Remove `q` gets through Lock, and then `r` does.
abbrev pub overlap : ℕ → ℕ → ℕ → List Action
overlap p q r =
    close p
    ∷ open_file q true
    ∷ flock q
    ∷ write q
    ∷ remove p
    ∷ open_file r true
    ∷ flock r
    ∷ write r
    ∷ []

-- The hosts on the way.
abbrev left : ℕ → ℕ → Host → Host
left p i h = moved p closed (released i h)

abbrev removed : ℕ → ℕ → ℕ → Host → Host
removed p q i h = moved p over (record (entered q i (left p i h)) { linked = none })

run-removed :
    (p q r i : ℕ) (h : Host)
    → q ≢ p
    → h.phase p ≡ running i
    → h.phase q ≡ idle
    → h.linked ≡ some i
    → run (overlap p q r) h
      ≡ act (write r) (act (flock r) (act (open_file r true) (removed p q i h)))
unfolding run moved released written
run-removed p q r i h n e f l =
    ap (λ g. act (write r) (act (flock r) (act (open_file r true) g)))
      (ap (λ g. act (remove p) (act (write q) (act (flock q) (act (open_file q true) g))))
          (close-running p i h e)
        ∙ (ap (act (remove p)) (
              act-entered q i (left p i h) (set-off p closed h.phase q n ∙ f) l
                (set-at i none h.owner))
            ∙ remove-closed p (entered q i (left p i h))
                (entered-others q i p (left p i h) (λ s. n (sym s)) ∙ set-at p closed h.phase)))

overlap-host :
    (p q r i : ℕ) (h : Host)
    → q ≢ p
    → r ≢ p
    → r ≢ q
    → h.phase p ≡ running i
    → h.phase q ≡ idle
    → h.phase r ≡ idle
    → h.linked ≡ some i
    → h.owner h.made ≡ none
    → i ≢ h.made
    → ((run (overlap p q r) h).phase q ≡ running i)
      × ((run (overlap p q r) h).phase r ≡ running h.made)
unfolding moved released written
overlap-host p q r i h qp rp rq hp hq hr l o im =
    let g = removed p q i h in
    let end = entered r h.made (with_new g) in
    let e : run (overlap p q r) h ≡ end =
      run-removed p q r i h qp hp hq l
      ∙ act-entered_new r g
          (set-off p over (entered q i (left p i h)).phase r rp
            ∙ (entered-others q i r (left p i h) rq ∙ (set-off p closed h.phase r rp ∙ hr)))
          refl
          (set-off i (some q) (set i none h.owner) h.made (λ s. im (sym s))
            ∙ (set-off i none h.owner h.made (λ s. im (sym s)) ∙ o)) in
    (
      ap (λ k. k.phase q) e
          ∙ (entered-others r h.made q (with_new g) (λ s. rq (sym s))
              ∙ (set-off p over (entered q i (left p i h)).phase q qp
                  ∙ entered-phase q i (left p i h))),
      ap (λ k. k.phase r) e ∙ entered-phase r h.made (with_new g),
    )

-- After any history in which no process has got to the Remove of an Unlock yet and one of them has the
-- lock: if it leaves by Unlock, and the next one gets through Lock after its Close and before its Remove,
-- then a third one gets through Lock too, with another file, while the second one still has its lock.
pub run-overlap :
    (actions : List Action) (p q r i : ℕ)
    → All (λ a. is_remove a ≡ false) actions
    → q ≢ p
    → r ≢ p
    → r ≢ q
    → (run actions booted).phase p ≡ running i
    → (run actions booted).phase q ≡ idle
    → (run actions booted).phase r ≡ idle
    → (j : ℕ) × (j ≢ i)
      × ((run (overlap p q r) (run actions booted)).phase q ≡ running i)
      × ((run (overlap p q r) (run actions booted)).phase r ≡ running j)
run-overlap actions p q r i n qp rp rq hp hq hr =
    let h : Host = run actions booted in
    let k =
      run-WereMade actions booted n (λ q j s. absurd (some_none (sym s)))
        ((λ j s. absurd (some_none (sym s))), (λ j q s. absurd (some_none (sym s)))) in
    let l : h.linked ≡ some i = k.0 p i (ap file_of hp) in
    let below : i < h.made = k.1.0 i l in
    let free : h.owner h.made ≡ none = elim (Option-cases (h.owner h.made)) [
      | inl e ↦ e
      | inr (s, e) ↦ absurd (not_below h.made (k.1.1 h.made s e))
    ] in
    let both =
      overlap-host p q r i h qp rp rq hp hq hr l free
        (λ e. not_below h.made (subst (λ m. m < h.made) e below)) in
    (h.made, (λ e. not_below h.made (subst (λ m. m < h.made) (sym e) below)), both.0, both.1)
