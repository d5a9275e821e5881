-- ===== src/Middleware/Ratelimit/Burst.antt =====
-- Lemmas on requests at one instant (internal/api/middleware/ratelimit.go).
use agentreg.Base.{
  ℕ, zero, suc, ◌+◌, ◌-◌, ◌^◌, ◌≤◌, Text, true, false, List, [], ◌∷◌, some, ltb, ◌≡◌, refl, subst,
  ap, ◌∙◌, arith,
}
use agentreg.Store.{Time}
use agentreg.Middleware.Ratelimit.{
  Floats, Bucket, RateLimiter, new_rate_limiter, find_bucket, allow_bucket, refill, take_token,
  allow,
}
use agentreg.Middleware.Ratelimit.Keyed.{Request, run, of_key, find-allow_same, allow-of_key}

-- What IEEE 754 says of natural numbers up to 2 ^ 53, which a float64 holds exactly: no time adds nothing, and
-- one less and comparing are exact.
pub record IsExact (F : Floats) : Type 0 where
  pub no_time :
      (b p : ℕ)
      → b ≤ 2 ^ 53
      → 1 ≤ p
      → F.mul (F.seconds 0) (F.div (F.of_nat b) (F.seconds p)) ≡ F.of_nat 0
  pub add_zero : (n : ℕ) → n ≤ 2 ^ 53 → F.add (F.of_nat n) (F.of_nat 0) ≡ F.of_nat n
  pub one_less : (n : ℕ) → n + 1 ≤ 2 ^ 53 → F.sub (F.of_nat (n + 1)) (F.of_nat 1) ≡ F.of_nat n
  pub compares : (n m : ℕ) → n ≤ 2 ^ 53 → m ≤ 2 ^ 53 → F.less (F.of_nat n) (F.of_nat m) ≡ ltb n m

-- `n` requests with the key at one time.
unfoldable pub at_once : Text → Time → ℕ → List Request
at_once key now zero = []
at_once key now (suc n) = (key, now) ∷ at_once key now n

module _ (F : Floats) (exact : IsExact F) (burst per : ℕ) (small : burst ≤ 2 ^ 53)
    (positive : 1 ≤ per) (key : Text) (now : Time) where
  abbrev rate : F.Float
  rate = F.div (F.of_nat burst) (F.seconds per)

  -- The key has `k` tokens left at the time.
  abbrev Has : ℕ → RateLimiter F → Type 0
  Has k rl =
      (find_bucket F key rl.buckets ≡ some (record { tokens = F.of_nat k; last_fill = now }))
      × (rl.rate ≡ rate)
      × (rl.burst ≡ F.of_nat burst)

  no_refill :
      (k : ℕ)
      → k ≤ burst
      → refill F rate (F.of_nat burst) (record { tokens = F.of_nat k; last_fill = now }) now
        ≡ record { tokens = F.of_nat k; last_fill = now }
  unfolding refill
  no_refill k h =
      let none_passed : now - now ≡ 0 = omega arith in
      let not_more : ltb burst k ≡ false = ground arith in
      rw
        (
          none_passed,
          exact.no_time burst per small positive,
          exact.add_zero k (omega arith),
          exact.compares burst k small (omega arith),
          not_more,
        )
        refl

  taken :
      (k : ℕ)
      → k ≤ burst
      → take_token F (record { tokens = F.of_nat k; last_fill = now })
        ≡ (record { tokens = F.of_nat (k - 1); last_fill = now }, ltb 0 k)
  unfolding take_token
  taken zero h = rw (exact.compares 0 1 (omega arith) (omega arith)) refl
  taken (suc k) h =
      let some_left : ltb (suc k) 1 ≡ false = ground arith in
      let one : suc k ≡ (suc k - 1) + 1 = omega arith in
      let there : ltb 0 (suc k) ≡ true = ground arith in
      rw (exact.compares (suc k) 1 (omega arith) (omega arith), some_left, there)
        (ap (λ x. (record { tokens = x; last_fill = now }, true))
          (ap (λ n. F.sub (F.of_nat n) (F.of_nat 1)) one
            ∙ exact.one_less (suc k - 1) (omega arith)))

  allow-Has :
      (k : ℕ) (rl : RateLimiter F)
      → k ≤ burst
      → Has k rl
      → ((allow F rl key now).1 ≡ ltb 0 k) × Has (k - 1) (allow F rl key now).0
  unfolding allow allow_bucket
  allow-Has k rl h (found, r, m) =
      let step : allow_bucket F rl.rate rl.burst (find_bucket F key rl.buckets) now
          ≡ (record { tokens = F.of_nat (k - 1); last_fill = now }, ltb 0 k) =
        ap (λ o. allow_bucket F rl.rate rl.burst o now) found
        ∙ ap (λ x. allow_bucket F x rl.burst (some (full k)) now) r
        ∙ ap (λ x. allow_bucket F rate x (some (full k)) now) m
        ∙ ap (take_token F) (no_refill k h)
        ∙ taken k h in
      (ap (λ x. x.1) step, (find-allow_same F key rl now ∙ ap (λ x. some x.0) step, r, m))
    where
      full : ℕ → Bucket F
      full k = record { tokens = F.of_nat k; last_fill = now }

  run-Has :
      (m k : ℕ) (rl : RateLimiter F)
      → k ≤ burst
      → Has k rl
      → Has (k - m) (run F rl (at_once key now m))
  unfolding run at_once
  run-Has zero k rl h has = subst (λ n. Has n rl) (omega arith) has
  run-Has (suc m) k rl h has =
      subst (λ n. Has n (run F (allow F rl key now).0 (at_once key now m))) (omega arith)
        (run-Has m (k - 1) (allow F rl key now).0 (omega arith) (allow-Has k rl h has).1)

  -- The first request of the key.
  first-Has : 1 ≤ burst → Has (burst - 1) (allow F (new_rate_limiter F burst per) key now).0
  unfolding allow allow_bucket new_rate_limiter find_bucket
  first-Has h =
      let one : burst ≡ (burst - 1) + 1 = omega arith in
      let left : F.sub (F.of_nat burst) (F.of_nat 1) ≡ F.of_nat (burst - 1) =
        ap (λ n. F.sub (F.of_nat n) (F.of_nat 1)) one ∙ exact.one_less (burst - 1) (omega arith) in
      (
        find-allow_same F key (new_rate_limiter F burst per) now
            ∙ ap (λ x. some (record { tokens = x; last_fill = now })) left,
        refl,
        refl,
      )

  answered :
      (m : ℕ)
      → 1 ≤ burst
      → (allow F (run F (new_rate_limiter F burst per) (at_once key now m)) key now).1 ≡ ltb m burst
  unfolding run at_once allow allow_bucket new_rate_limiter find_bucket
  answered zero h = ground arith
  answered (suc m) h =
      (allow-Has (burst - 1 - m)
        (run F (allow F (new_rate_limiter F burst per) key now).0 (at_once key now m)) (omega arith)
        (run-Has m (burst - 1) (allow F (new_rate_limiter F burst per) key now).0 (omega arith)
          (first-Has h))).0
      ∙ ground arith

  -- Let the requests before with one key, among those of other keys, be `m` at the one time `now`, on a new
  -- limiter whose `burst` is positive and exact in a float64 and whose period is positive. The next request of
  -- the key at that time is let through exactly when `m` is less than `burst`.
  pub allow-at_once :
      (m : ℕ) (rs : List Request)
      → 1 ≤ burst
      → of_key F key rs ≡ at_once key now m
      → (allow F (run F (new_rate_limiter F burst per) rs) key now).1 ≡ ltb m burst
  allow-at_once m rs h e =
      allow-of_key F key (new_rate_limiter F burst per) rs now
      ∙ ap (λ x. (allow F (run F (new_rate_limiter F burst per) x) key now).1) e
      ∙ answered m h
