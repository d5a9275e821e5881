-- ===== src/Api/Accounts.antt =====
-- internal/api/users.go: the handlers for accounts, tokens and password resets. A request is what
-- decodeJSONBody makes of the body, `none` when it has written the 400; logging is left out. A handler
-- never fails: errors are responses.
use agentreg.Base.{
  ℕ, Text, bytes, ◌==◌, ltb, Bool, not, Option, none, some, [], Result, ok, err, conflict,
  token_invalid, if◌then◌else◌, length,
}
use agentreg.Store.{User, Token}
use agentreg.World.{M, ◌>>=◌, pure, attempt, time_now}
use agentreg.Auth.{valid_username, hash_password, check_password, new_api_token}
use agentreg.Auth.Lockout.{LoginLockout, locked, record_failure, reset}
use agentreg.Sqlite.Users.{get_user_by_username}
use agentreg.Registry.{
  Registry, signup, issue_token, request_email_verification, confirm_email_verification,
  request_password_reset, confirm_password_reset,
}

pub data Body : Type 0 where
  message : Text → Body
  created_user : User → Body
  created_token : Text → Text → Body
  verified has_reset : Body

pub record Response : Type 0 where
  pub status : ℕ
  pub body : Body

abbrev pub respond : ℕ → Body → Response
respond status body = record { status = status; body = body }

abbrev pub bad_json : Response
bad_json = respond 400 (message (bytes "invalid or oversized JSON body"))

abbrev pub internal_error : Response
internal_error = respond 500 (message (bytes "internal error"))

pub record SignupRequest : Type 0 where
  pub username : Text
  pub email : Text
  pub password : Text

pub record TokenRequest : Type 0 where
  pub username : Text
  pub password : Text
  pub label : Text

abbrev pub password_too_short : Text → Bool
password_too_short password = ltb (length password) 8

module _ (reg : Registry) where
  unfoldable pub signed_up : Result User → M Response
  signed_up (err conflict) = pure (respond 409 (message (bytes "username or email already taken")))
  signed_up (err e) = pure internal_error
  signed_up (ok user) = do
    sent ← attempt (request_email_verification reg user)
    pure (respond 201 (created_user user))

  unfoldable pub signup_with : SignupRequest → Result Text → M Response
  signup_with req (err e) = pure internal_error
  signup_with req (ok hash) = do user ← attempt (signup req.username req.email hash); signed_up user

  unfoldable pub handle_signup : Option SignupRequest → M Response
  handle_signup none = pure bad_json
  handle_signup (some req) =
      if not (valid_username req.username)
      then pure (
          respond 400 (
            message (
              bytes
                "username must be 1-40 lowercase alphanumeric/hyphen characters, not starting or ending with a hyphen")))
      else if req.email == []
      then pure (respond 400 (message (bytes "email is required")))
      else if password_too_short req.password
      then pure (respond 400 (message (bytes "password must be at least 8 characters")))
      else do hash ← attempt (hash_password reg.external req.password); signup_with req hash

  -- `s.lockout.RecordFailure` reads the clock twice.
  unfoldable pub refuse_login : LoginLockout → TokenRequest → M (Response × LoginLockout)
  refuse_login l req = do
    pruned_at ← time_now
    failed_at ← time_now
    pure (
      respond 401 (message (bytes "invalid username or password")),
      record_failure l req.username pruned_at failed_at,
    )

  unfoldable pub token_issued :
      LoginLockout → User → Text → Result Token → M (Response × LoginLockout)
  token_issued l user plaintext (err e) = pure (internal_error, l)
  token_issued l user plaintext (ok token) =
      pure (respond 201 (created_token plaintext user.username), l)

  unfoldable pub token_drawn :
      LoginLockout → TokenRequest → User → Result Text → M (Response × LoginLockout)
  token_drawn l req user (err e) = pure (internal_error, l)
  token_drawn l req user (ok plaintext) = do
    issued ← attempt (
        issue_token user.id (reg.sha256 plaintext)
          (if req.label == [] then bytes "cli" else req.label))
    token_issued l user plaintext issued

  unfoldable pub log_in : LoginLockout → TokenRequest → Result User → M (Response × LoginLockout)
  log_in l req (err e) = refuse_login l req
  log_in l req (ok user) =
      if check_password reg.external user.password_hash req.password
      then (do
        plaintext ← attempt new_api_token
        token_drawn (reset l req.username) req user plaintext)
      else refuse_login l req

  unfoldable pub past_lockout : LoginLockout × Bool → TokenRequest → M (Response × LoginLockout)
  past_lockout (l, is_locked) req =
      if is_locked
      then pure (
        respond 429
            (message (bytes "too many failed login attempts for this account, try again later")),
        l,
      )
      else (do found ← attempt (get_user_by_username req.username); log_in l req found)

  unfoldable pub handle_create_token :
      LoginLockout → Option TokenRequest → M (Response × LoginLockout)
  handle_create_token l none = pure (bad_json, l)
  handle_create_token l (some req) = do now ← time_now; past_lockout (locked l req.username now) req

unfoldable pub token_outcome : Body → Result (Unit {0}) → M Response
token_outcome done (ok u) = pure (respond 200 done)
token_outcome done (err token_invalid) =
    pure (respond 400 (message (bytes "token invalid, expired, or already used")))
token_outcome done (err e) = pure internal_error

abbrev pub token_required : Response
token_required = respond 400 (message (bytes "token is required"))

unfoldable pub reset_requested : Result (Unit {0}) → M Response
reset_requested (err e) = pure internal_error
reset_requested (ok u) = pure (
    respond 200 (
      message (bytes "if that account exists, a reset link has been sent to its registered email")))

module _ (reg : Registry) where
  unfoldable pub handle_verify_email : Option Text → M Response
  handle_verify_email none = pure bad_json
  handle_verify_email (some token) = if token == [] then pure token_required else (do
    outcome ← attempt (confirm_email_verification reg token)
    token_outcome verified outcome)

  unfoldable pub handle_request_password_reset : Option Text → M Response
  handle_request_password_reset none = pure bad_json
  handle_request_password_reset (some username) =
      if username == []
      then pure (respond 400 (message (bytes "username is required")))
      else (do outcome ← attempt (request_password_reset reg username); reset_requested outcome)

  unfoldable pub reset_with : Text → Result Text → M Response
  reset_with token (err e) = pure internal_error
  reset_with token (ok hash) = do
    outcome ← attempt (confirm_password_reset reg token hash)
    token_outcome has_reset outcome

  -- The token and the new password.
  unfoldable pub handle_confirm_password_reset : Option (Text × Text) → M Response
  handle_confirm_password_reset none = pure bad_json
  handle_confirm_password_reset (some (token, new_password)) =
      if token == []
      then pure token_required
      else if password_too_short new_password
      then pure (respond 400 (message (bytes "password must be at least 8 characters")))
      else (do hash ← attempt (hash_password reg.external new_password); reset_with token hash)
