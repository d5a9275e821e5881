-- ===== src/Middleware/Limit.antt =====
-- internal/api/middleware/ratelimit.go: RateLimit and ByAuthenticatedUser. The limiter is passed on, as
-- the state that later requests see.
use agentreg.Base.{ℕ, Text, bytes, Bool, true, false, Option, none, some}
use agentreg.Store.{User}
use agentreg.World.{M, ◌>>=◌, pure, time_now}
use agentreg.Middleware.Ratelimit.{Floats, RateLimiter, allow}

module _ {A : Type 0} (F : Floats) (reply_with : ℕ → Text → A) (next : M A) where
  unfoldable pub limited : RateLimiter F × Bool → M (A × RateLimiter F)
  limited (rl, true) = do a ← next; pure (a, rl)
  limited (rl, false) = pure (reply_with 429 (bytes "rate limit exceeded, try again later"), rl)

  unfoldable pub rate_limit : RateLimiter F → Text → M (A × RateLimiter F)
  rate_limit rl key = do now ← time_now; limited (allow F rl key now)

-- `ip` is what ByIP gives.
unfoldable pub by_authenticated_user : Option User → Text → Text
by_authenticated_user (some user) ip = user.username
by_authenticated_user none ip = ip
