-- ===== src/Cli/Account.antt =====
-- cmd/krate/cmd_account.go and cmd_admin.go: signing up, logging in, confirming an email address, resetting
-- a password, and correcting a date. The flags of a command are parsed.
use agentreg.Base.{
  Text, bytes, ◌==◌, ◌||◌, not, Option, some, List, [], ◌∷◌, ◌++◌, driver, wrap, if◌then◌else◌,
}
use agentreg.Program.{done, stop, from_result, or_stop, on_error, outcome, reads, ◌>>=◌}
use agentreg.Process.{C, print, read_line, read_password}
use agentreg.Cli.{Ref, parse_ref}
use agentreg.Cli.Formats.{Formats}
use agentreg.Cli.Wire.{do_json, load_config, save_config}

-- promptLine
unfoldable pub prompt_line : Formats → Text → C Text
unfolding print read_line ◌>>=◌ done
prompt_line f label = do _ ← print label; line ← read_line; done (f.trim_space line)

-- The line is ended on the terminal whether or not it could be read.
unfoldable pub hidden_line : C Text
unfolding print read_password outcome ◌>>=◌ from_result
hidden_line = do r ← outcome read_password; _ ← print []; from_result r

-- promptPassword
unfoldable pub prompt_password : Formats → Text → C Text
unfolding print hidden_line prompt_line ◌>>=◌ reads
prompt_password f label = do
  _ ← print label
  terminal ← reads (λ c. c.terminal)
  if terminal then hidden_line else prompt_line f []

-- A request with a map of strings as its body.
unfoldable pub send_fields :
    {A : Type 0} → Formats → Text → Text → Text → List (Text × Text) → (Text → Option A) → C A
unfolding do_json ◌>>=◌ stop done
send_fields f method url token fields decode = do
  body ← or_stop (driver (bytes "json")) (f.encode_fields fields)
  do_json f method url token body decode

-- `out` is nil: the answer is not read.
abbrev pub unread : Text → Option (Unit {0})
unread body = some tt

unfoldable pub cmd_signup : Formats → Text → C (Unit {0})
unfolding prompt_line prompt_password send_fields print on_error ◌>>=◌ stop ◌==◌
cmd_signup f registry =
    if registry == [] then stop (driver (bytes "--registry is required")) else do
      username ← prompt_line f (bytes "Username: ")
      email ← prompt_line f (bytes "Email: ")
      password ← prompt_password f (bytes "Password: ")
      name ← on_error (wrap (bytes "signup failed")) (
          send_fields f (bytes "POST") (registry ++ bytes "/v1/users") []
            ((bytes "username", username)
              ∷ (bytes "email", email)
              ∷ (bytes "password", password)
              ∷ [])
            f.decode_signup)
      print (
          bytes "Account "
          ++ f.quote name
          ++ bytes " created. Run `krate login --registry "
          ++ registry
          ++ bytes "` to authenticate.")

unfoldable pub cmd_login : Formats → Text → C (Unit {0})
unfolding prompt_line prompt_password send_fields save_config print on_error ◌>>=◌ stop ◌==◌
cmd_login f registry = if registry == [] then stop (driver (bytes "--registry is required")) else do
  username ← prompt_line f (bytes "Username: ")
  password ← prompt_password f (bytes "Password: ")
  (token, name) ← on_error (wrap (bytes "login failed")) (
      send_fields f (bytes "POST") (registry ++ bytes "/v1/tokens") []
        ((bytes "username", username)
          ∷ (bytes "password", password)
          ∷ (bytes "label", bytes "cli")
          ∷ [])
        f.decode_login)
  _ ←
      on_error (wrap (bytes "save config"))
        (save_config f (record { registry = registry; username = name; token = token }))
  print (bytes "Logged in as " ++ f.quote name ++ bytes " on " ++ registry)

-- The flag, or the registry of the last login.
unfoldable pub base_url : Formats → Text → C Text
unfolding load_config ◌>>=◌ done ◌==◌
base_url f flag =
    if not (flag == []) then done flag else (load_config f >>= λ cfg. done cfg.registry)

unfoldable pub some_base_url : Formats → Text → C Text
unfolding base_url ◌>>=◌ done stop ◌==◌
some_base_url f flag = do
  base ← base_url f flag
  if base == [] then stop (driver (bytes "no registry configured")) else done base

unfoldable pub cmd_verify_email : Formats → Text → List Text → C (Unit {0})
unfolding some_base_url send_fields print on_error ◌>>=◌ stop
cmd_verify_email f flag (token ∷ []) = do
  base ← some_base_url f flag
  _ ← on_error (wrap (bytes "verification failed")) (
      send_fields f (bytes "POST") (base ++ bytes "/v1/users/verify") []
        ((bytes "token", token) ∷ []) unread)
  print (bytes "Email verified.")
cmd_verify_email f flag _ = stop (driver (bytes "usage: krate verify-email <token>"))

-- The token of the flag, or the one that is asked for after a request for a reset.
unfoldable pub reset_token : Formats → Text → Text → C Text
unfolding prompt_line send_fields print on_error ◌>>=◌ done ◌==◌
reset_token f base flag = if not (flag == []) then done flag else do
  username ← prompt_line f (bytes "Username: ")
  _ ← on_error (wrap (bytes "reset request failed")) (
      send_fields f (bytes "POST") (base ++ bytes "/v1/password-reset/request") []
        ((bytes "username", username) ∷ []) unread)
  _ ← print (bytes "If that account exists, a reset link/token has been sent.")
  prompt_line f (bytes "Reset token: ")

unfoldable pub cmd_reset_password : Formats → Text → Text → C (Unit {0})
unfolding some_base_url reset_token prompt_password send_fields print on_error ◌>>=◌
cmd_reset_password f flag token_flag = do
  base ← some_base_url f flag
  token ← reset_token f base token_flag
  password ← prompt_password f (bytes "New password: ")
  _ ← on_error (wrap (bytes "reset failed")) (
      send_fields f (bytes "POST") (base ++ bytes "/v1/password-reset/confirm") []
        ((bytes "token", token) ∷ (bytes "new_password", password) ∷ []) unread)
  print (bytes "Password reset.")

-- The flag, or the registry of the configuration.
abbrev pub flag_or : Text → Text → Text
flag_or flag registry = if flag == [] then registry else flag

unfoldable pub backfill : Formats → Text → Ref → Text → C (Unit {0})
unfolding load_config send_fields print on_error ◌>>=◌ stop ◌==◌
backfill f flag r date = do
  cfg ← load_config f
  if flag_or flag cfg.registry == [] || cfg.token == []
      then stop (driver (bytes "not logged in"))
      else do
        at ← on_error (wrap (bytes "backfill failed")) (
            send_fields f (bytes "PATCH")
              (flag_or flag cfg.registry
                ++ bytes "/v1/admin/plugins/"
                ++ r.scope
                ++ bytes "/"
                ++ r.name
                ++ bytes "/"
                ++ r.version)
              cfg.token ((bytes "published_at", date) ∷ []) f.decode_date)
        print (
            bytes "Set @"
            ++ r.scope
            ++ b'/' ∷ r.name
            ++ b'@' ∷ r.version
            ++ bytes " published_at to "
            ++ at)

unfoldable pub cmd_admin_backfill_date : Formats → Text → List Text → C (Unit {0})
unfolding parse_ref backfill ◌>>=◌ from_result stop ◌==◌
cmd_admin_backfill_date f flag (arg ∷ date ∷ []) = do
  r ← from_result (parse_ref arg)
  if r.version == []
      then stop (driver (bytes "a specific version is required, e.g. @scope/name@1.0.0"))
      else if not (f.is_rfc3339 date)
      then stop (wrap (bytes "date must be RFC3339") (driver (bytes "time")))
      else backfill f flag r date
cmd_admin_backfill_date f flag _ =
    stop (driver (bytes "usage: krate admin-backfill-date @scope/name@version <RFC3339-date>"))
