-- ===== src/Tests/Accounts.antt =====
-- Failed and successful logins, and requests against a rate limit.
use agentreg.Base.{
  ℕ, ltb, false, ◌+◌, ◌*◌, ◌-◌, ◌≤◌, bytes, Text, some, [], ◌∷◌, List, ok, ◌≡◌, refl, ◌==◌, leb,
  arith,
}
use agentreg.Store.{format_rfc3339, parse_rfc3339}
use agentreg.World.{
  pure, map_error, attempt, ◌>>=◌, query, exec, gets, time_now, access, random_hex,
}
use agentreg.Sqlite.{row_or}
use agentreg.Sqlite.Users.{find_user, get_user_by_username, scan_user, insert_token, create_token}
use agentreg.Auth.{new_api_token}
use agentreg.Auth.Lockout.{LoginLockout, new_login_lockout, locked, reset}
use agentreg.Auth.Lockout.History.{
  Event, asks, fails, resets, run, remember, recall, count, locked-count,
}
use agentreg.Middleware.Ratelimit.{Floats, new_rate_limiter, allow}
use agentreg.Middleware.Ratelimit.Keyed.{Request, allow-of_key}
use agentreg.Middleware.Ratelimit.Keyed
use agentreg.Middleware.Ratelimit.Burst.{IsExact, at_once, allow-at_once}
use agentreg.Auth.Lockout.Expiry.{locked-expires}
use agentreg.Registry.{issue_token}
use agentreg.Api.Accounts.{
  Response, TokenRequest, respond, message, created_token, token_issued, token_drawn, log_in,
  past_lockout, handle_create_token,
}
use agentreg.Api.Login.{LoggedIn, handle_create_token-created}
use agentreg.Api.Throttle.{handle_create_token-locked}
use agentreg.Tests.World.{account_world, reg}

abbrev alice_name : Text
alice_name = bytes "alice"

-- Two failures after a reset.
abbrev attempts : List Event
attempts =
    fails alice_name 10 10
    ∷ resets alice_name
    ∷ asks alice_name 15
    ∷ fails alice_name 20 21
    ∷ fails alice_name 30 30
    ∷ []

locked-count_example :
    (locked (run (new_login_lockout 2 100) attempts) alice_name 50).1
    ≡ leb 2 (count 100 attempts alice_name 50)
locked-count_example = locked-count 2 100 attempts 0 50 alice_name (
  omega arith,
  omega arith,
  (omega arith, (omega arith, omega arith, (omega arith, omega arith, omega arith))),
)

locked-expires_example : (locked (run (new_login_lockout 2 100) attempts) alice_name 130).1 ≡ false
locked-expires_example =
    locked-expires 2 100 attempts 0 30 130 alice_name (omega arith)
      (
        omega arith,
        omega arith,
        (omega arith, (omega arith, omega arith, (omega arith, omega arith, omega arith))),
      )
      (omega arith)

-- Natural numbers in place of floats.
abbrev naturals : Floats
naturals = record {
  Float = ℕ;
  of_nat = λ n. n;
  seconds = λ n. n;
  add = λ a b. a + b;
  sub = λ a b. a - b;
  mul = λ a b. a * b;
  div = λ a b. a;
  less = ltb;
}

naturals-IsExact : IsExact naturals
naturals-IsExact = record {
  no_time = λ b p h k. omega arith;
  add_zero = λ n h. omega arith;
  one_less = λ n h. omega arith;
  compares = λ n m h k. refl;
}

abbrev requests : List Request
requests = (alice_name, 5) ∷ (bytes "bob", 3) ∷ (alice_name, 5) ∷ []

allow-of_key_example :
    (allow naturals (Keyed.run naturals (new_rate_limiter naturals 2 10) requests) alice_name 6).1
    ≡ (allow naturals
        (Keyed.run naturals
          (new_rate_limiter naturals 2 10)
          ((alice_name, 5) ∷ (alice_name, 5) ∷ []))
        alice_name
        6).1
unfolding ◌==◌
allow-of_key_example = allow-of_key naturals alice_name (new_rate_limiter naturals 2 10) requests 6

allow-at_once_example :
    (allow naturals (Keyed.run naturals (new_rate_limiter naturals 2 10) requests) alice_name 5).1
    ≡ false
unfolding ◌==◌ at_once
allow-at_once_example =
    allow-at_once naturals naturals-IsExact 2 10 (omega arith) (omega arith) alice_name 5 2 requests
      (omega arith) refl

abbrev login : TokenRequest
login = record { username = alice_name; password = bytes "secret"; label = [] }

abbrev token_response : Response
token_response = respond 201 (created_token (bytes "krate_t1") alice_name)

abbrev no_failures : LoginLockout
no_failures = new_login_lockout 10 900000000000

abbrev after_login : LoginLockout
after_login = reset (locked no_failures alice_name 1001000000000).0 alice_name

logged_in :
    (handle_create_token reg no_failures (some login) account_world).0
    ≡ ok (token_response, after_login)
unfolding handle_create_token past_lockout log_in token_drawn token_issued get_user_by_username
    find_user scan_user new_api_token issue_token create_token insert_token new_login_lockout locked
    reset pure map_error attempt ◌>>=◌ query exec gets time_now access random_hex row_or ◌==◌
    format_rfc3339 parse_rfc3339
logged_in = refl

handle_create_token-created_example :
    LoggedIn reg no_failures login account_world.db account_world.env.now token_response
      (handle_create_token reg no_failures (some login) account_world).1.db
handle_create_token-created_example =
    handle_create_token-created reg no_failures after_login login account_world token_response
      logged_in refl

-- A failure just before the request of `account_world`.
abbrev one_failure : List Event
one_failure = fails alice_name 1000000000000 1000000000000 ∷ []

asked_at : (time_now account_world).0 ≡ ok 1001000000000
unfolding time_now
asked_at = refl

one_counts : 1 ≤ count 900000000000 one_failure alice_name 1001000000000
unfolding count recall remember ◌==◌
one_counts = omega arith

handle_create_token-locked_example :
    ((handle_create_token reg
        (run (new_login_lockout 1 900000000000) one_failure)
        (some login)
        account_world).0
      ≡ ok (
        respond 429
            (message (bytes "too many failed login attempts for this account, try again later")),
        (locked (run (new_login_lockout 1 900000000000) one_failure) alice_name 1001000000000).0,
      ))
    × ((handle_create_token reg
          (run (new_login_lockout 1 900000000000) one_failure)
          (some login)
          account_world).1
        ≡ (time_now account_world).1)
handle_create_token-locked_example =
    handle_create_token-locked reg 1 900000000000 one_failure 0 1001000000000 login account_world
      (omega arith, omega arith, omega arith) asked_at one_counts
