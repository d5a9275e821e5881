-- ===== src/Api/Server.antt =====
-- internal/api/server.go: the state that NewHandler makes when no option replaces it.
use agentreg.Base.{ℕ, ◌*◌}
use agentreg.Store.{second}
use agentreg.Auth.Lockout.{LoginLockout, new_login_lockout}
use agentreg.Middleware.Ratelimit.{Floats, RateLimiter, new_rate_limiter}

abbrev pub signup_burst : ℕ
signup_burst = 5

abbrev pub signup_per : ℕ
signup_per = 3600 * second

abbrev pub login_burst : ℕ
login_burst = 10

abbrev pub login_per : ℕ
login_per = 60 * second

abbrev pub publish_burst : ℕ
publish_burst = 30

abbrev pub publish_per : ℕ
publish_per = 3600 * second

abbrev pub login_lockout_max_failures : ℕ
login_lockout_max_failures = 10

abbrev pub login_lockout_window : ℕ
login_lockout_window = 15 * 60 * second

pub record Server (F : Floats) : Type 0 where
  pub lockout : LoginLockout
  pub signup_limiter : RateLimiter F
  pub login_limiter : RateLimiter F
  pub publish_limiter : RateLimiter F

unfoldable pub new_handler : (F : Floats) → Server F
new_handler F = record {
  lockout = new_login_lockout login_lockout_max_failures login_lockout_window;
  signup_limiter = new_rate_limiter F signup_burst signup_per;
  login_limiter = new_rate_limiter F login_burst login_per;
  publish_limiter = new_rate_limiter F publish_burst publish_per;
}
