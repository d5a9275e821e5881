-- ===== src/Middleware/Auth.antt =====
-- internal/api/middleware/auth.go: RequireAuth and RequireAdmin, around a handler that takes the user
-- of the request's context. `reply_with` makes a response of a status and a message.
use agentreg.Base.{
  ℕ, Text, bytes, ◌==◌, any, Option, none, some, List, [], ◌∷◌, Result, ok, err, not_found,
  has_prefix, if◌then◌else◌,
}
use agentreg.Store.{User}
use agentreg.World.{M, ◌>>=◌, pure, attempt}
use agentreg.Registry.{Registry, authenticate}

-- Of a text that has the prefix.
unfoldable pub trim_prefix : Text → Text → Text
trim_prefix (c ∷ s) (d ∷ p) = trim_prefix s p
trim_prefix s [] = s
trim_prefix [] p = []

abbrev pub bearer : Text
bearer = bytes "Bearer "

module _ {A : Type 0} (reply_with : ℕ → Text → A) (next : Option User → M A) where
  unfoldable pub authenticated : Result User → M A
  authenticated (ok user) = next (some user)
  authenticated (err not_found) = pure (reply_with 401 (bytes "invalid token"))
  authenticated (err e) = pure (reply_with 500 (bytes "internal error"))

  -- The argument is the Authorization header, empty when there is none.
  unfoldable pub require_auth : Registry → Text → M A
  unfolding has_prefix trim_prefix
  require_auth reg header =
      if has_prefix header bearer
      then (do
        user ← attempt (authenticate (reg.sha256 (trim_prefix header bearer)))
        authenticated user)
      else pure (reply_with 401 (bytes "missing bearer token"))

  -- `admins` lists the keys of the map.
  unfoldable pub require_admin : List Text → Option User → M A
  require_admin admins none = pure (reply_with 500 (bytes "internal error"))
  require_admin admins (some user) =
      if any (λ a. a == user.username) admins
      then next (some user)
      else pure (reply_with 403 (bytes "forbidden: admin access required"))
