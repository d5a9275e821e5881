-- ===== src/Middleware/Guard.antt =====
-- Who gets past RequireAuth and RequireAdmin.
use agentreg.Base.{
  Bool, false, Bool-cases, ok-injective, ℕ, Text, ◌==◌, any, true, Option, some, List, Result, ok,
  err, not_found, conflict, token_invalid, forbidden, invalid_input, driver, wrap, has_prefix,
  subst, ◌⊎◌, inl, inr, ◌≡◌, refl, sym, ap, ◌∙◌,
}
use agentreg.Store.{User}
use agentreg.World.{Db, World, UserRow, M, ◌>>=◌, attempt, pure}
use agentreg.World.Keeps.{
  Keeps, Keeps-bind, Keeps-query, Keeps-time_now, Keeps-ignore, Keeps-exec, Keeps-pure,
}
use agentreg.Sqlite.Stable.{Keeps-row_or}
use agentreg.Store.{format_rfc3339}
use agentreg.World.Ensures.{
  Ensures, Ensures-bind, Ensures-pure, Ensures-any, Ensures-query, Ensures-assume,
}
use agentreg.Sqlite.{Ensures-row_or}
use agentreg.Sqlite.Users.{token_owner, scan_user, touch_token, get_user_by_token_hash}
use agentreg.Registry.{Registry, authenticate}
use agentreg.Middleware.Auth.{bearer, trim_prefix, authenticated, require_auth, require_admin}

-- The user's row, by the token.
abbrev Owner : Text → Db → User → Type 0
Owner hash d u = (row : UserRow) × (token_owner hash d ≡ some row) × (u ≡ scan_user row)

authenticate-Ensures :
    (hash : Text) (d0 : Db)
    → Ensures (λ d b t. d ≡ d0) (authenticate hash) (λ u d b t. Owner hash d0 u)
unfolding authenticate get_user_by_token_hash
authenticate-Ensures hash d0 = Ensures-bind _ _ _ (Ensures-query _) λ found.
    Ensures-bind _ _ _ (Ensures-row_or _ found) λ row.
      Ensures-assume (token_owner hash d0 ≡ some row) _
        (λ d b t h. ap (token_owner hash) (sym h.0.0) ∙ sym h.0.1 ∙ h.1)
        λ f. Ensures-bind _ _ _ (Ensures-any _) λ now.
          Ensures-bind _ _ _ (Ensures-any _) λ done. Ensures-pure _ (λ d b t h. (row, f, refl))

-- The tables but for the tokens, and the blobs, are as they were.
abbrev pub Untouched : World → World → Type 0
Untouched w w' = (w'.db ≡ record w.db { tokens = w'.db.tokens }) × (w'.blobs ≡ w.blobs)

authenticate-Keeps :
    (w : World) (hash : Text)
    → Keeps (λ d b. (d ≡ record w.db { tokens = d.tokens }) × (b ≡ w.blobs)) (authenticate hash)
unfolding authenticate get_user_by_token_hash touch_token
authenticate-Keeps w hash = Keeps-bind _ _ (Keeps-query _) λ found.
    Keeps-bind _ _ (Keeps-row_or not_found found) λ row. Keeps-bind _ _ Keeps-time_now λ now.
      Keeps-bind _ _
        (Keeps-ignore _ (
          Keeps-exec _ λ d d' b e h. (
            subst (λ x. x ≡ record w.db { tokens = x.tokens }) (ok-injective e)
                (ap {A = Db} {B = Db}
                  (λ x. record x { tokens = (touch_token hash (format_rfc3339 now) d).tokens })
                  h.0),
            h.1,
          )))
        λ u. Keeps-pure _

module _ {A : Type 0} (reply_with : ℕ → Text → A) (next : Option User → M A) (reg : Registry)
    (admins : List Text) (header : Text) (w : World) where
  -- The user's row that the bearer token is stored for.
  abbrev IsOwner : UserRow → Type 0
  IsOwner row =
      (has_prefix header bearer ≡ true)
      × (token_owner (reg.sha256 (trim_prefix header bearer)) w.db ≡ some row)

  abbrev is_listed : UserRow → Bool
  is_listed row = any (λ a. a == row.username) admins

  -- The handler has not been run.
  pub record Refused (a : A) (w' : World) : Type 0 where
    pub status : ℕ
    pub message : Text
    pub answer : a ≡ reply_with status message
    pub code :
        ((status ≡ 401) ⊎ (status ≡ 500))
        ⊎ ((status ≡ 403) × ((row : UserRow) × IsOwner row × (is_listed row ≡ false)))
    pub untouched : Untouched w w'

  -- The handler has been run for the user of the token, who is on the list, and has given the answer.
  pub record Granted (a : A) (w' : World) : Type 0 where
    pub row : UserRow
    pub owner : IsOwner row
    pub listed : is_listed row ≡ true
    pub start : World
    pub untouched : Untouched w start
    pub handled : next (some (scan_user row)) start ≡ (ok a, w')

  abbrev pub IsGuarded : A → World → Type 0
  IsGuarded a w' = Refused a w' ⊎ Granted a w'

  refuse :
      (status : ℕ) (message : Text) (a : A) (w' : World)
      → ◌≡◌ {A = Result A} (ok (reply_with status message)) (ok a)
      → ((status ≡ 401) ⊎ (status ≡ 500))
        ⊎ ((status ≡ 403) × ((row : UserRow) × IsOwner row × (is_listed row ≡ false)))
      → Untouched w w'
      → IsGuarded a w'
  refuse status message a w' e c u = inl (record {
    status = status;
    message = message;
    answer = sym (ok-injective e);
    code = c;
    untouched = u;
  })

  abbrev Admin : Option User → M A
  Admin = require_admin reply_with next admins

  at_user :
      (row : UserRow) (start : World) (a : A)
      → IsOwner row
      → Untouched w start
      → (Admin (some (scan_user row)) start).0 ≡ ok a
      → IsGuarded a (Admin (some (scan_user row)) start).1
  unfolding require_admin scan_user pure
  at_user row start a o u = elim (Bool-cases (is_listed row)) [
    | inl y ↦ rw y (λ e. inr (record {
      row = row;
      owner = o;
      listed = y;
      start = start;
      untouched = u;
      handled = ap (λ r. (r, (next (some (scan_user row)) start).1)) e;
    }))
    | inr n ↦ rw n (λ e. refuse 403 _ a start e (inr (refl, (row, o, n))) u)
  ]

  at_outcome :
      (found : Result User) (start : World) (a : A)
      → has_prefix header bearer ≡ true
      → ((u : User) → found ≡ ok u → Owner (reg.sha256 (trim_prefix header bearer)) w.db u)
      → Untouched w start
      → (authenticated reply_with Admin found start).0 ≡ ok a
      → IsGuarded a (authenticated reply_with Admin found start).1
  unfolding authenticated pure
  at_outcome (err not_found) start a p o u e = refuse 401 _ a start e (inl (inl refl)) u
  at_outcome (err conflict) start a p o u e = refuse 500 _ a start e (inl (inr refl)) u
  at_outcome (err token_invalid) start a p o u e = refuse 500 _ a start e (inl (inr refl)) u
  at_outcome (err forbidden) start a p o u e = refuse 500 _ a start e (inl (inr refl)) u
  at_outcome (err invalid_input) start a p o u e = refuse 500 _ a start e (inl (inr refl)) u
  at_outcome (err (driver m)) start a p o u e = refuse 500 _ a start e (inl (inr refl)) u
  at_outcome (err (wrap m x)) start a p o u e = refuse 500 _ a start e (inl (inr refl)) u
  at_outcome (ok user) start a p o u e =
      let (row, f, is_row) = o user refl in
      subst (λ x. (Admin (some x) start).0 ≡ ok a → IsGuarded a (Admin (some x) start).1)
        (sym is_row) (at_user row start a (p, f) u) e

  -- RequireAuth before RequireAdmin. When there is an answer, then either it is a refusal and the handler has
  -- not been run: 401 or 500, or 403 for the user of the token who is not on the list, and no table but that
  -- of the tokens has changed. Or the header carries a bearer token that is stored for a user on the list, and
  -- the answer is the handler's for that user.
  pub require_auth-IsGuarded :
      (a : A)
      → (require_auth reply_with Admin reg header w).0 ≡ ok a
      → IsGuarded a (require_auth reply_with Admin reg header w).1
  unfolding require_auth ◌>>=◌ attempt pure
  require_auth-IsGuarded a = elim (Bool-cases (has_prefix header bearer)) [
    | inl p ↦ rw p (λ e.
        let hash = reg.sha256 (trim_prefix header bearer) in
        at_outcome (authenticate hash w).0 (authenticate hash w).1 a p
          (λ u k. (authenticate-Ensures hash w.db).at w u refl k)
          ((authenticate-Keeps w hash).at w (refl, refl)) e)
    | inr n ↦ rw n (λ e. refuse 401 _ a w e (inl (inl refl)) (refl, refl))
  ]
