-- ===== src/Tests/Guard.antt =====
-- The admin endpoint with a token of someone who is no admin.
use agentreg.Base.{ℕ, Text, bytes, [], ◌∷◌, ok, ◌≡◌, refl, ◌==◌, none, has_prefix, Option}
use agentreg.Store.{User, format_rfc3339, parse_rfc3339}
use agentreg.World.{World, TokenRow, M, pure, attempt, ignore, ◌>>=◌, query, exec, time_now, access}
use agentreg.Sqlite.{row_or}
use agentreg.Sqlite.Users.{
  find_token, join_user, token_owner, touch_token, scan_user, get_user_by_token_hash,
}
use agentreg.Registry.{authenticate}
use agentreg.Middleware.Auth.{trim_prefix, authenticated, require_auth, require_admin}
use agentreg.Middleware.Guard.{IsGuarded, require_auth-IsGuarded}
use agentreg.Api.Plugins.{Reply, reply, error_body, tarball}
use agentreg.Tests.World.{account_world, reg}

abbrev token : TokenRow
token = record {
  id = 1;
  user_id = 1;
  token_hash = bytes "#krate_t";
  label = bytes "cli";
  created_at = 900;
  last_used_at = none;
}

abbrev token_world : World
token_world = record account_world { db = record account_world.db { tokens = token ∷ [] } }

abbrev reply_with : ℕ → Text → Reply
reply_with status message = reply status (error_body message)

-- A handler that empties the tables and gives an answer of another shape than a refusal.
abbrev next : Option User → M Reply
next user = exec (λ d. ok (record d { users = [] })) >>= λ u. pure (reply 200 (tarball [] [] []))

turned_away :
    (require_auth reply_with
      (require_admin reply_with next (bytes "root" ∷ []))
      reg
      (bytes "Bearer krate_t")
      token_world).0
    ≡ ok (reply_with 403 (bytes "forbidden: admin access required"))
unfolding require_auth authenticated require_admin trim_prefix has_prefix authenticate
    get_user_by_token_hash token_owner find_token join_user touch_token scan_user pure attempt
    ignore ◌>>=◌ query exec time_now access row_or ◌==◌ format_rfc3339 parse_rfc3339
turned_away = refl

require_auth-IsGuarded_example :
    IsGuarded reply_with next reg
      (bytes "root" ∷ [])
      (bytes "Bearer krate_t")
      token_world
      (reply_with 403 (bytes "forbidden: admin access required"))
      (require_auth reply_with
        (require_admin reply_with next (bytes "root" ∷ []))
        reg
        (bytes "Bearer krate_t")
        token_world).1
require_auth-IsGuarded_example =
    require_auth-IsGuarded reply_with next reg (bytes "root" ∷ []) (bytes "Bearer krate_t")
      token_world (reply_with 403 (bytes "forbidden: admin access required")) turned_away
