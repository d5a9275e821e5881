-- ===== src/Auth/Lockout/History.antt =====
-- The pruned slices answer as the full history of failures would.
use agentreg.Base.{
  ℕ, ◌≤◌, Text, ◌==◌, leb, Bool, List, [], ◌∷◌, ◌++◌, length, keep, if◌then◌else◌, arith, ◌≡◌, refl,
  sym, ap, ◌∙◌, Bool-cases, inl, inr, ==_refl, ==_sound,
}
use native.Mathlib.Nat.{le_refl}
use agentreg.Store.{Time}
use agentreg.Auth.Lockout.{
  Failures, LoginLockout, new_login_lockout, lookup, store, delete, is_recent, prune, count_recent,
  locked, record_failure, reset, lookup-store, lookup-delete,
}

pub data Event : Type 0 where
  asks : Text → Time → Event
  fails : Text → Time → Time → Event
  resets : Text → Event

unfoldable pub step : LoginLockout → Event → LoginLockout
step l (asks u t) = (locked l u t).0
step l (fails u t1 t2) = record_failure l u t1 t2
step l (resets u) = reset l u

unfoldable pub run : LoginLockout → List Event → LoginLockout
run l [] = l
run l (e ∷ es) = run (step l e) es

-- The specification keeps every failure since the last reset.
abbrev pub Past : Type 0
Past = Text → List Time

unfoldable pub remember : Past → Event → Past
remember h (asks u t) v = h v
remember h (fails u t1 t2) v = if u == v then h v ++ t2 ∷ [] else h v
remember h (resets u) v = if u == v then [] else h v

unfoldable pub recall : Past → List Event → Past
recall h [] = h
recall h (e ∷ es) = recall (remember h e) es

-- The clock does not go back.
abbrev pub IsTimed : Time → List Event → Time → Type 0
IsTimed now [] last = now ≤ last
IsTimed now (asks u t ∷ es) last = (now ≤ t) × IsTimed t es last
IsTimed now (fails u t1 t2 ∷ es) last = (now ≤ t1) × (t1 ≤ t2) × IsTimed t2 es last
IsTimed now (resets u ∷ es) last = IsTimed now es last

keep-append {ℓ} :
    {A : Type ℓ} (p : A → Bool) (xs ys : List A) → keep p (xs ++ ys) ≡ keep p xs ++ keep p ys
keep-append p [] ys = refl
keep-append p (x ∷ xs) ys = ground (arith, keep-append p xs ys)

module _ (window : ℕ) where
  -- What is not recent now will not be recent later.
  keep-keep :
      (now later : Time) (ts : List Time)
      → now ≤ later
      → keep (is_recent window later) (keep (is_recent window now) ts)
        ≡ keep (is_recent window later) ts
  keep-keep now later [] h = refl
  keep-keep now later (t ∷ ts) h = ground (arith, keep-keep now later ts h)

  -- From `now` on, the slices hold the recent part of the past.
  abbrev pub Agrees : Failures → Past → Time → Type 0
  Agrees fs h now =
      (later : Time) (u : Text)
      → now ≤ later
      → keep (is_recent window later) (lookup u fs) ≡ keep (is_recent window later) (h u)

  prune-Agrees :
      (fs : Failures) (h : Past) (u : Text) (before now : Time)
      → Agrees fs h before
      → before ≤ now
      → Agrees (store u (keep (is_recent window now) (lookup u fs)) fs) h now
  prune-Agrees fs h u before now a le later v le' = elim (Bool-cases (u == v)) [
    | inl e ↦
        rw (lookup-store u v (keep (is_recent window now) (lookup u fs)) fs, e)
          (keep-keep now later (lookup u fs) le'
            ∙ a later u (omega arith)
            ∙ ap (λ x. keep (is_recent window later) (h x)) (==_sound u v e))
    | inr e ↦
        rw (lookup-store u v (keep (is_recent window now) (lookup u fs)) fs, e)
          (a later v (omega arith))
  ]

  -- The same with one more failure.
  fail-Agrees :
      (fs : Failures) (h : Past) (u : Text) (t now : Time)
      → Agrees fs h now
      → now ≤ t
      → (kept : List Time) → lookup u fs ≡ kept
      → Agrees (store u (kept ++ t ∷ []) fs) (λ v. if u == v then h v ++ t ∷ [] else h v) t
  fail-Agrees fs h u t now a le kept is later v le' = elim (Bool-cases (u == v)) [
    | inl e ↦
        rw (lookup-store u v (kept ++ t ∷ []) fs, e)
          (keep-append (is_recent window later) kept (t ∷ [])
            ∙ ap (λ x. x ++ keep (is_recent window later) (t ∷ []))
                (ap (keep (is_recent window later)) (sym is)
                  ∙ a later u (omega arith)
                  ∙ ap (λ x. keep (is_recent window later) (h x)) (==_sound u v e))
            ∙ sym (keep-append (is_recent window later) (h v) (t ∷ [])))
    | inr e ↦ rw (lookup-store u v (kept ++ t ∷ []) fs, e) (a later v (omega arith))
  ]

  reset-Agrees :
      (fs : Failures) (h : Past) (u : Text) (now : Time)
      → Agrees fs h now
      → Agrees (delete u fs) (λ v. if u == v then [] else h v) now
  reset-Agrees fs h u now a later v le = elim (Bool-cases (u == v)) [
    | inl e ↦ rw (lookup-delete u v fs, e)
    | inr e ↦ rw (lookup-delete u v fs, e) (a later v le)
  ]

lookup-store_self : (u : Text) (ts : List Time) (fs : Failures) → lookup u (store u ts fs) ≡ ts
lookup-store_self u ts fs = rw (lookup-store u u ts fs, ==_refl u)

-- The lockout's own numbers never change.
step-numbers :
    (l : LoginLockout) (e : Event)
    → ((step l e).max_failures ≡ l.max_failures) × ((step l e).window ≡ l.window)
unfolding step locked record_failure reset
step-numbers l (asks u t) = (refl, refl)
step-numbers l (fails u t1 t2) = (refl, refl)
step-numbers l (resets u) = (refl, refl)

run-numbers :
    (l : LoginLockout) (es : List Event)
    → ((run l es).max_failures ≡ l.max_failures) × ((run l es).window ≡ l.window)
unfolding run
run-numbers l [] = (refl, refl)
run-numbers l (e ∷ es) = (
  (run-numbers (step l e) es).0 ∙ (step-numbers l e).0,
  (run-numbers (step l e) es).1 ∙ (step-numbers l e).1,
)

run-Agrees :
    (l : LoginLockout) (h : Past) (es : List Event) (now last : Time)
    → Agrees l.window l.failures h now
    → IsTimed now es last
    → Agrees l.window (run l es).failures (recall h es) last
unfolding run recall step remember locked record_failure reset
run-Agrees l h [] now last a t = λ later u le. a later u (omega arith)
run-Agrees l h (asks u t1 ∷ es) now last a (le, t) =
    run-Agrees (step l (asks u t1)) (remember h (asks u t1)) es t1 last
      (prune-Agrees l.window l.failures h u now t1 a le) t
run-Agrees l h (fails u t1 t2 ∷ es) now last a (le, le', t) =
    run-Agrees (step l (fails u t1 t2)) (remember h (fails u t1 t2)) es t2 last
      (fail-Agrees l.window _ h u t2 t1 (prune-Agrees l.window l.failures h u now t1 a le) le' _
        (lookup-store_self u _ l.failures))
      t
run-Agrees l h (resets u ∷ es) now last a t =
    run-Agrees (step l (resets u)) (remember h (resets u)) es now last
      (reset-Agrees l.window l.failures h u now a) t

-- The failures of `username` that count at `now`.
unfoldable pub count : ℕ → List Event → Text → Time → ℕ
count window es username now = length (keep (is_recent window now) (recall (λ u. []) es username))

-- After any calls whose readings of the clock do not go back, a username is locked exactly when it
-- has had `max_failures` or more failures within the window, since its last reset.
pub locked-count :
    (max_failures window : ℕ) (es : List Event) (start now : Time) (username : Text)
    → IsTimed start es now
    → (locked (run (new_login_lockout max_failures window) es) username now).1
      ≡ leb max_failures (count window es username now)
unfolding locked count_recent prune count new_login_lockout
locked-count max_failures window es start now username t =
    let l = new_login_lockout max_failures window in
    let (m, w) = run-numbers l es in
    let a = run-Agrees l (λ u. []) es start now (λ later u le. refl) t in
    rw (m, w, a now username (le_refl _))
