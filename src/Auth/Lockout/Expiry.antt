-- ===== src/Auth/Lockout/Expiry.antt =====
-- Lemmas on the end of a lockout (internal/auth/lockout.go).
use agentreg.Base.{
  ℕ, ◌+◌, ◌≤◌, Text, ◌==◌, leb, false, List, [], ◌∷◌, length, keep, All, All-append, All-impl,
  arith, ◌≡◌, refl, ap, ◌∙◌, Bool-cases, inl, inr,
}
use agentreg.Store.{Time}
use agentreg.Auth.Lockout.{new_login_lockout, is_recent, locked}
use agentreg.Auth.Lockout.History.{
  Event, asks, fails, resets, run, Past, remember, recall, IsTimed, count, locked-count,
}

-- No failure is later than `now`.
abbrev IsPast : Past → Time → Type 0
IsPast h now = (u : Text) → All (λ t. t ≤ now) (h u)

IsPast-later : (h : Past) (now later : Time) → now ≤ later → IsPast h now → IsPast h later
IsPast-later h now later le p u = All-impl _ _ (h u) (λ t k. omega arith) (p u)

IsPast-fails :
    (h : Past) (u : Text) (t1 t2 : Time) → IsPast h t2 → IsPast (remember h (fails u t1 t2)) t2
unfolding remember
IsPast-fails h u t1 t2 p v = elim (Bool-cases (u == v)) [
  | inl e ↦ rw e (All-append _ (h v) (t2 ∷ []) (p v) (omega arith, tt))
  | inr e ↦ rw e (p v)
]

IsPast-resets :
    (h : Past) (u : Text) (now : Time) → IsPast h now → IsPast (remember h (resets u)) now
unfolding remember
IsPast-resets h u now p v = elim (Bool-cases (u == v)) [ inl e ↦ rw e tt | inr e ↦ rw e (p v) ]

recall-IsPast :
    (h : Past) (es : List Event) (now last : Time)
    → IsPast h now
    → IsTimed now es last
    → IsPast (recall h es) last
unfolding recall remember
recall-IsPast h [] now last p t = IsPast-later h now last t p
recall-IsPast h (asks u t1 ∷ es) now last p (le, t) =
    recall-IsPast (remember h (asks u t1)) es t1 last (IsPast-later h now t1 le p) t
recall-IsPast h (fails u t1 t2 ∷ es) now last p (le, le', t) =
    recall-IsPast (remember h (fails u t1 t2)) es t2 last
      (IsPast-fails h u t1 t2 (IsPast-later h now t2 (omega arith) p)) t
recall-IsPast h (resets u ∷ es) now last p t =
    recall-IsPast (remember h (resets u)) es now last (IsPast-resets h u now p) t

IsTimed-later :
    (es : List Event) (start last now : Time)
    → last ≤ now
    → IsTimed start es last
    → IsTimed start es now
IsTimed-later [] start last now le t = omega arith
IsTimed-later (asks u t1 ∷ es) start last now le (k, t) = (k, IsTimed-later es t1 last now le t)
IsTimed-later (fails u t1 t2 ∷ es) start last now le (k, k', t) =
    (k, k', IsTimed-later es t2 last now le t)
IsTimed-later (resets u ∷ es) start last now le t = IsTimed-later es start last now le t

keep-is_recent :
    (window last now : ℕ) (ts : List Time)
    → last + window ≤ now
    → All (λ t. t ≤ last) ts
    → keep (is_recent window now) ts ≡ []
keep-is_recent window last now [] le p = refl
keep-is_recent window last now (t ∷ ts) le (k, p) =
    ground (arith, keep-is_recent window last now ts le p)

-- Once the window has passed since the last reading of the clock, no username is locked, whatever the
-- failures before, if at least one failure is needed for a lockout.
pub locked-expires :
    (max_failures window : ℕ) (es : List Event) (start last now : Time) (username : Text)
    → 1 ≤ max_failures
    → IsTimed start es last
    → last + window ≤ now
    → (locked (run (new_login_lockout max_failures window) es) username now).1 ≡ false
unfolding count
locked-expires max_failures window es start last now username h t le =
    locked-count max_failures window es start now username
      (IsTimed-later es start last now (omega arith) t)
    ∙ ap (λ ts. leb max_failures (length ts))
        (keep-is_recent window last now (recall (λ u. []) es username) le
          (recall-IsPast (λ u. []) es start last (λ u. tt) t username))
    ∙ ground arith
