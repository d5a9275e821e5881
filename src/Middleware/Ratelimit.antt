-- ===== src/Middleware/Ratelimit.antt =====
-- internal/api/middleware/ratelimit.go: RateLimiter, a token bucket for each key. The clock is read
-- under the mutex, once a call, and is an argument here. The type float64 and its operations are a parameter.
pub mod Keyed
pub mod Burst
use agentreg.Base.{
  ℕ, ◌-◌, Text, ◌==◌, Bool, true, false, not, Option, none, some, List, [], ◌∷◌, if◌then◌else◌,
  arith, text_iff, ◌≡◌, refl,
}
use agentreg.Store.{Time}

-- Go's float64.
pub record Floats : Type 1 where
  pub Float : Type 0
  -- float64(n), and Seconds of a duration
  pub of_nat : ℕ → Float
  pub seconds : ℕ → Float
  pub add : Float → Float → Float
  pub sub : Float → Float → Float
  pub mul : Float → Float → Float
  pub div : Float → Float → Float
  pub less : Float → Float → Bool

module _ (F : Floats) where
  pub record Bucket : Type 0 where
    pub tokens : F.Float
    pub last_fill : Time

  abbrev pub Buckets : Type 0
  Buckets = List (Text × Bucket)

  pub record RateLimiter : Type 0 where
    pub buckets : Buckets
    pub rate : F.Float
    pub burst : F.Float

  unfoldable pub new_rate_limiter : ℕ → ℕ → RateLimiter
  new_rate_limiter burst per = record {
    buckets = [];
    rate = F.div (F.of_nat burst) (F.seconds per);
    burst = F.of_nat burst;
  }

  unfoldable pub find_bucket : Text → Buckets → Option Bucket
  find_bucket k [] = none
  find_bucket k ((j, b) ∷ bs) = if j == k then some b else find_bucket k bs

  unfoldable pub store_bucket : Text → Bucket → Buckets → Buckets
  store_bucket k b [] = (k, b) ∷ []
  store_bucket k b ((j, old) ∷ bs) = if j == k then (k, b) ∷ bs else (j, old) ∷ store_bucket k b bs

  -- The bucket after its refill; the clock does not go back.
  unfoldable pub refill : F.Float → F.Float → Bucket → Time → Bucket
  refill rate burst b now =
      let tokens = F.add b.tokens (F.mul (F.seconds (now - b.last_fill)) rate) in
      record { tokens = if F.less burst tokens then burst else tokens; last_fill = now }

  -- `b.tokens < 1` refuses, and otherwise a token is taken.
  unfoldable pub take_token : Bucket → Bucket × Bool
  take_token b =
      if F.less b.tokens (F.of_nat 1)
      then (b, false)
      else (record b { tokens = F.sub b.tokens (F.of_nat 1) }, true)

  -- What the look-up of the key's bucket leads to: its next bucket, and the answer.
  unfoldable pub allow_bucket : F.Float → F.Float → Option Bucket → Time → Bucket × Bool
  unfolding refill take_token
  allow_bucket rate burst none now =
      (record { tokens = F.sub burst (F.of_nat 1); last_fill = now }, true)
  allow_bucket rate burst (some b) now = take_token (refill rate burst b now)

  unfoldable pub allow : RateLimiter → Text → Time → RateLimiter × Bool
  unfolding allow_bucket find_bucket store_bucket
  allow rl key now =
      let (b, ok) = allow_bucket rl.rate rl.burst (find_bucket key rl.buckets) now in
      (record rl { buckets = store_bucket key b rl.buckets }, ok)

  pub find_bucket-store_bucket :
      (k j : Text) (b : Bucket) (bs : Buckets)
      → find_bucket j (store_bucket k b bs) ≡ (if k == j then some b else find_bucket j bs)
  unfolding find_bucket store_bucket
  find_bucket-store_bucket k j b [] = refl
  find_bucket-store_bucket k j b ((i, old) ∷ bs) =
      ground (arith, text_iff i k, text_iff i j, text_iff k j, find_bucket-store_bucket k j b bs)
