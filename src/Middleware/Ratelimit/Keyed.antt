-- ===== src/Middleware/Ratelimit/Keyed.antt =====
-- Lemmas on the requests of different keys (internal/api/middleware/ratelimit.go).
use agentreg.Base.{
  Text, ◌==◌, false, List, [], ◌∷◌, keep, some, ◌≡◌, refl, sym, subst, ap, ◌∙◌, Bool-cases, inl,
  inr, ==_sound, ==_refl,
}
use agentreg.Store.{Time}
use agentreg.Middleware.Ratelimit.{
  Floats, RateLimiter, find_bucket, allow_bucket, allow, find_bucket-store_bucket,
}

-- A request with its key, at its time.
abbrev pub Request : Type 0
Request = Text × Time

module _ (F : Floats) where
  unfoldable pub run : RateLimiter F → List Request → RateLimiter F
  run rl [] = rl
  run rl ((key, now) ∷ rs) = run (allow F rl key now).0 rs

  -- The same for the key: the numbers of the limiter, and the key's bucket.
  abbrev IsLike : Text → RateLimiter F → RateLimiter F → Type 0
  IsLike key rl rl' =
      (find_bucket F key rl.buckets ≡ find_bucket F key rl'.buckets)
      × (rl.rate ≡ rl'.rate)
      × (rl.burst ≡ rl'.burst)

  module _ (key : Text) where
    same_answer :
        (rl rl' : RateLimiter F) (now : Time)
        → IsLike key rl rl'
        → allow_bucket F rl.rate rl.burst (find_bucket F key rl.buckets) now
          ≡ allow_bucket F rl'.rate rl'.burst (find_bucket F key rl'.buckets) now
    same_answer rl rl' now (b, r, m) =
        ap (λ o. allow_bucket F rl.rate rl.burst o now) b
        ∙ ap (λ x. allow_bucket F x rl.burst (find_bucket F key rl'.buckets) now) r
        ∙ ap (λ x. allow_bucket F rl'.rate x (find_bucket F key rl'.buckets) now) m

    pub find-allow_same :
        (rl : RateLimiter F) (t : Time)
        → find_bucket F key (allow F rl key t).0.buckets
          ≡ some (allow_bucket F rl.rate rl.burst (find_bucket F key rl.buckets) t).0
    unfolding allow
    find-allow_same rl t =
        rw
          (
            find_bucket-store_bucket F key key
                (allow_bucket F rl.rate rl.burst (find_bucket F key rl.buckets) t).0 rl.buckets,
            ==_refl key,
          )
          refl

    find-allow_other :
        (k : Text) (rl : RateLimiter F) (t : Time)
        → (k == key) ≡ false
        → find_bucket F key (allow F rl k t).0.buckets ≡ find_bucket F key rl.buckets
    unfolding allow
    find-allow_other k rl t e =
        rw
          (
            find_bucket-store_bucket F k key
                (allow_bucket F rl.rate rl.burst (find_bucket F k rl.buckets) t).0 rl.buckets,
            e,
          )
          refl

    -- The requests of the key.
    abbrev pub of_key : List Request → List Request
    of_key = keep λ r. r.0 == key

    allow-IsLike :
        (rl rl' : RateLimiter F) (t : Time)
        → IsLike key rl rl'
        → IsLike key (allow F rl key t).0 (allow F rl' key t).0
    unfolding allow
    allow-IsLike rl rl' t h = (
      find-allow_same rl t
          ∙ ap (λ x. some x.0) (same_answer rl rl' t h)
          ∙ sym (find-allow_same rl' t),
      h.1,
      h.2,
    )

    allow-IsLike_other :
        (k : Text) (rl rl' : RateLimiter F) (t : Time)
        → (k == key) ≡ false
        → IsLike key rl rl'
        → IsLike key (allow F rl k t).0 rl'
    unfolding allow
    allow-IsLike_other k rl rl' t e h = (find-allow_other k rl t e ∙ h.0, h.1, h.2)

    run-IsLike :
        (rs : List Request) (rl rl' : RateLimiter F)
        → IsLike key rl rl'
        → IsLike key (run rl rs) (run rl' (of_key rs))
    unfolding run
    run-IsLike [] rl rl' h = h
    run-IsLike ((k, t) ∷ rs) rl rl' h = elim (Bool-cases (k == key)) [
      | inl e ↦ rw e (
          subst (λ j. IsLike key (run (allow F rl j t).0 rs) (run (allow F rl' j t).0 (of_key rs)))
            (sym (==_sound k key e))
            (run-IsLike rs (allow F rl key t).0 (allow F rl' key t).0 (allow-IsLike rl rl' t h)))
      | inr e ↦ rw e (run-IsLike rs (allow F rl k t).0 rl' (allow-IsLike_other k rl rl' t e h))
    ]

    -- Whether a request is let through depends only on the requests before it that have the same key.
    pub allow-of_key :
        (rl : RateLimiter F) (rs : List Request) (now : Time)
        → (allow F (run rl rs) key now).1 ≡ (allow F (run rl (of_key rs)) key now).1
    unfolding allow
    allow-of_key rl rs now =
        ap (λ x. x.1)
          (same_answer (run rl rs) (run rl (of_key rs)) now
            (run-IsLike rs rl rl (refl, refl, refl)))
