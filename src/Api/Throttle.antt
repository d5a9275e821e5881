-- ===== src/Api/Throttle.antt =====
-- Guessing passwords: what a locked account's requests for a token get.
use agentreg.Base.{ℕ, ◌≤◌, leb, true, List, some, ok, ◌≡◌, refl, ◌∙◌, arith, bytes}
use agentreg.Store.{Time}
use agentreg.World.{World, ◌>>=◌, pure, time_now}
use agentreg.Auth.Lockout.{new_login_lockout, locked}
use agentreg.Auth.Lockout.History.{Event, run, IsTimed, count, locked-count}
use agentreg.Registry.{Registry}
use agentreg.Api.Accounts.{TokenRequest, respond, message, past_lockout, handle_create_token}

-- After any calls of the lockout whose readings of the clock do not go back, when the request's clock
-- reads `asked` and the username has had `max_failures` or more failures within the window before it,
-- since its last reset, the response to a request for a token is 429 whatever the password, and
-- nothing has happened but that reading of the clock.
pub handle_create_token-locked :
    (reg : Registry) (max_failures window : ℕ) (es : List Event) (start asked : Time)
    (req : TokenRequest) (w : World)
    → IsTimed start es asked
    → (time_now w).0 ≡ ok asked
    → max_failures ≤ count window es req.username asked
    → ((handle_create_token reg (run (new_login_lockout max_failures window) es) (some req) w).0
        ≡ ok (
          respond 429
              (message (bytes "too many failed login attempts for this account, try again later")),
          (locked (run (new_login_lockout max_failures window) es) req.username asked).0,
        ))
      × ((handle_create_token reg (run (new_login_lockout max_failures window) es) (some req) w).1
          ≡ (time_now w).1)
unfolding handle_create_token past_lockout pure ◌>>=◌
handle_create_token-locked reg max_failures window es start asked req w t e h =
    let l = new_login_lockout max_failures window in
    let k : leb max_failures (count window es req.username asked) ≡ true = ground arith in
    let is_locked = locked-count max_failures window es start asked req.username t ∙ k in
    rw (e, is_locked) (refl, refl)
