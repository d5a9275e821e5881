-- ===== src/Api/Login.antt =====
-- What a response with a token means.
use native.Mathlib.Nat.{le_refl}
use agentreg.Base.{
  ℕ, ◌+◌, ◌≤◌, Text, ◌==◌, eqb, true, false, some, [], ◌∷◌, Result, ok, err, ◌⊎◌, inl, inr, ◌≡◌,
  refl, sym, ap, ◌∙◌, arith, any-find, find-append, ==_refl, subst,
}
use agentreg.Store.{Time, User, Token}
use agentreg.World.{Db, UserRow, TokenRow, World, M, attempt, time_now}
use agentreg.World.Ensures.{
  Assertion, Ensures, Ensures-bind, Ensures-pure, Ensures-if, Ensures-any, Ensures-time_now,
  Ensures-query, Ensures-exec, Ensures-map_error, Ensures-gets, Ensures-weaken, Ensures-assume,
}
use agentreg.World.Then.{OnOk, Ensures-outcome}
use agentreg.Sqlite.{Ensures-row_or}
use agentreg.Sqlite.Users.{
  find_user, find_token, insert_token, token_row, create_token, get_user_by_username, scan_user,
}
use agentreg.Auth.{check_password, new_api_token}
use agentreg.Auth.Lockout.{LoginLockout, locked, reset}
use agentreg.Registry.{Registry, issue_token}
use agentreg.Api.Accounts.{
  Response, created_token, TokenRequest, refuse_login, token_issued, token_drawn, log_in,
  past_lockout, handle_create_token,
}

-- The token is stored for the user.
abbrev pub IsIssued : Text → ℕ → Db → Type 0
IsIssued hash user_id d =
    (row : TokenRow) × (find_token hash d ≡ some row) × (row.user_id ≡ user_id)

insert_token-IsIssued :
    (user_id : ℕ) (hash label : Text) (at : ℕ) (d d' : Db)
    → insert_token user_id hash label at d ≡ ok d'
    → IsIssued hash user_id d'
unfolding insert_token find_token
insert_token-IsIssued user_id hash label at d d' e = (
  token_row (d.last_token + 1) user_id hash label at,
  ground (
    arith,
    find-append (λ t. t.token_hash == hash) d.tokens
        (token_row (d.last_token + 1) user_id hash label at ∷ []),
    any-find (λ t. t.token_hash == hash) d.tokens,
    ==_refl hash,
  ),
  refl,
)

issue_token-Ensures :
    (user_id : ℕ) (hash label : Text) (P : Assertion)
    → Ensures P (issue_token user_id hash label) (λ a d b t. IsIssued hash user_id d)
unfolding issue_token create_token
issue_token-Ensures user_id hash label P = Ensures-bind _ _ _ (Ensures-any time_now) λ now.
    Ensures-bind (λ _ d b t. IsIssued hash user_id d) _ _
      (Ensures-map_error _ _ (
        Ensures-weaken _ _ _ (λ d b t h. h)
          (λ _ d' b t (d, _, e). insert_token-IsIssued user_id hash label _ d d' e)
          (Ensures-exec _)))
      λ _. Ensures-bind _ _ _ (Ensures-gets _) λ id. Ensures-pure _ (λ d b t h. h.0)

get_user_by_username-Ensures :
    (username : Text) (d0 : Db)
    → Ensures
        (λ d b t. d ≡ d0)
        (get_user_by_username username)
        (λ u d b t. (row : UserRow) × (find_user username d0 ≡ some row) × (u ≡ scan_user row))
unfolding get_user_by_username
get_user_by_username-Ensures username d0 = Ensures-bind _ _ _ (Ensures-query _) λ found.
    Ensures-bind _ _ _ (Ensures-row_or _ found) λ row.
      Ensures-pure _ λ d b t h. (row, ap (find_user username) (sym h.0.0) ∙ sym h.0.1 ∙ h.1, refl)

module _ (reg : Registry) (l0 : LoginLockout) (req : TokenRequest) (d0 : Db) (t0 : Time) where
  -- The account was not locked, its password was given, and the token in the response is stored for it.
  pub record LoggedIn (response : Response) (d' : Db) : Type 0 where
    pub asked : Time
    pub in_order : t0 ≤ asked
    pub unlocked : (locked l0 req.username asked).1 ≡ false
    pub row : UserRow
    pub found : find_user req.username d0 ≡ some row
    pub password : check_password reg.external row.password_hash req.password ≡ true
    pub plaintext : Text
    pub answer : response.body ≡ created_token plaintext row.username
    pub issued : IsIssued (reg.sha256 plaintext) row.id d'

  -- No token, or a login.
  abbrev Outcome : Response × LoginLockout → Db → Type 0
  Outcome r d' = (eqb r.0.status 201 ≡ false) ⊎ LoggedIn r.0 d'

  abbrev Meets : Assertion → M (Response × LoginLockout) → Type 0
  Meets P m = Ensures P m (λ r d b t. Outcome r d)

  refuse_login-Meets : (P : Assertion) (l : LoginLockout) → Meets P (refuse_login reg l req)
  unfolding refuse_login
  refuse_login-Meets P l =
      Ensures-bind _ _ _ (Ensures-any time_now)
        λ t1. Ensures-bind _ _ _ (Ensures-any time_now) λ t2. Ensures-pure _ (λ d b t h. inl refl)

  module _ (asked : Time) (o : t0 ≤ asked) (u : (locked l0 req.username asked).1 ≡ false) where
    module _ (row : UserRow) (found : find_user req.username d0 ≡ some row)
        (password : check_password reg.external row.password_hash req.password ≡ true) where
      token_issued-Meets :
          (l : LoginLockout) (plaintext : Text) (issued : Result Token)
          → Meets
              (OnOk (λ _ d b t. IsIssued (reg.sha256 plaintext) row.id d) issued)
              (token_issued reg l (scan_user row) plaintext issued)
      unfolding token_issued scan_user
      token_issued-Meets l plaintext (err e) = Ensures-pure _ (λ d b t h. inl refl)
      token_issued-Meets l plaintext (ok token) = Ensures-pure _ λ d b t h. inr (record {
        asked = asked;
        in_order = o;
        unlocked = u;
        row = row;
        found = found;
        password = password;
        plaintext = plaintext;
        answer = refl;
        issued = h;
      })

      token_drawn-Meets :
          (P : Assertion) (l : LoginLockout) (drawn : Result Text)
          → Meets P (token_drawn reg l req (scan_user row) drawn)
      unfolding token_drawn scan_user
      token_drawn-Meets P l (err e) = Ensures-pure _ (λ d b t h. inl refl)
      token_drawn-Meets P l (ok plaintext) =
          Ensures-bind _ _ _
            (Ensures-outcome _ (issue_token-Ensures row.id (reg.sha256 plaintext) _ P))
            λ issued. token_issued-Meets l plaintext issued

    known-Meets :
        (P : Assertion) (row : UserRow)
        → find_user req.username d0 ≡ some row
        → (l : LoginLockout) → Meets P (log_in reg l req (ok (scan_user row)))
    unfolding log_in scan_user
    known-Meets P row f l =
        Ensures-if (check_password reg.external row.password_hash req.password) _ _
          (λ p.
            Ensures-bind _ _ _ (Ensures-any (attempt new_api_token))
              λ drawn. token_drawn-Meets row f p _ (reset l req.username) drawn)
          (λ _. refuse_login-Meets P l)

    -- The user's row.
    abbrev Known : User → Assertion
    Known u d b t = (row : UserRow) × (find_user req.username d0 ≡ some row) × (u ≡ scan_user row)

    log_in-Meets :
        (l : LoginLockout) (found : Result User) → Meets (OnOk Known found) (log_in reg l req found)
    unfolding log_in
    log_in-Meets l (err e) = refuse_login-Meets _ l
    log_in-Meets l (ok user) =
        Ensures-assume _ _ (λ d b t h. h)
          λ (row, f, e).
            subst (λ x. Meets (OnOk Known (ok user)) (log_in reg l req (ok x))) (sym e)
              (known-Meets _ row f l)

  past_lockout-Meets :
      (asked : Time)
      → t0 ≤ asked
      → Meets (λ d b t. d ≡ d0) (past_lockout reg (locked l0 req.username asked) req)
  unfolding past_lockout
  past_lockout-Meets asked o =
      Ensures-if (locked l0 req.username asked).1 _ _ (λ _. Ensures-pure _ (λ d b t h. inl refl))
        λ u.
          Ensures-bind _ _ _ (Ensures-outcome _ (get_user_by_username-Ensures req.username d0))
            λ found. log_in-Meets asked o u _ found

  handle_create_token-Meets :
      Meets (λ d b t. (d ≡ d0) × (t0 ≤ t)) (handle_create_token reg l0 (some req))
  unfolding handle_create_token
  handle_create_token-Meets = Ensures-bind _ _ _ Ensures-time_now λ now.
      Ensures-assume (t0 ≤ now) _ (λ d b t h. omega (arith, h.0, h.1.1.1, h.1.2))
        λ o. Ensures-weaken _ _ _ (λ d b t h. h.1.1.0) (λ a d b t h. h) (past_lockout-Meets now o)

-- When the response to a request for a token has status 201, the account was not locked at a time of
-- the request, the password matches the hash stored for the username, and the token in the response is
-- stored, under its hash, for that user.
pub handle_create_token-created :
    (reg : Registry) (l l' : LoginLockout) (req : TokenRequest) (w : World) (response : Response)
    → (handle_create_token reg l (some req) w).0 ≡ ok (response, l')
    → response.status ≡ 201
    → LoggedIn reg l req w.db w.env.now response (handle_create_token reg l (some req) w).1.db
handle_create_token-created reg l l' req w response e s =
    created
      ((handle_create_token-Meets reg l req w.db w.env.now).at w (response, l') (refl, le_refl _) e)
  where
    not_created : (n : ℕ) → eqb n 201 ≡ false → n ≡ 201 → ⊥
    not_created n h k = ground arith

    created :
        (eqb response.status 201 ≡ false)
          ⊎ LoggedIn reg l req w.db w.env.now response (handle_create_token reg l (some req) w).1.db
        → LoggedIn reg l req w.db w.env.now response (handle_create_token reg l (some req) w).1.db
    created (inl refused) = absurd (not_created response.status refused s)
    created (inr done) = done
