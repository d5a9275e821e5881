-- ===== src/Auth/Lockout.antt =====
-- internal/auth/lockout.go: LoginLockout. A method holds the mutex from start to end, so calls follow
-- one another; each look at the clock is an argument. A duration is a number of nanoseconds.
pub mod History
pub mod Expiry
use agentreg.Base.{
  ℕ, ◌+◌, Text, ◌==◌, ltb, leb, Bool, true, false, List, [], ◌∷◌, ◌++◌, length, keep, if◌then◌else◌,
  arith, text_iff, ◌≡◌, refl,
}
use agentreg.Store.{Time}

-- `map[string][]time.Time`; a missing key reads as the empty slice.
abbrev pub Failures : Type 0
Failures = List (Text × List Time)

pub record LoginLockout : Type 0 where
  pub failures : Failures
  pub max_failures : ℕ
  pub window : ℕ

unfoldable pub new_login_lockout : ℕ → ℕ → LoginLockout
new_login_lockout max_failures window = record {
  failures = [];
  max_failures = max_failures;
  window = window;
}

unfoldable pub lookup : Text → Failures → List Time
lookup u [] = []
lookup u ((v, times) ∷ fs) = if v == u then times else lookup u fs

unfoldable pub store : Text → List Time → Failures → Failures
store u times [] = (u, times) ∷ []
store u times ((v, old) ∷ fs) = if v == u then (u, times) ∷ fs else (v, old) ∷ store u times fs

unfoldable pub delete : Text → Failures → Failures
delete u [] = []
delete u ((v, old) ∷ fs) = let rest = delete u fs in if v == u then rest else (v, old) ∷ rest

-- `t.After(cutoff)` for `cutoff = now - window`.
abbrev pub is_recent : ℕ → Time → Time → Bool
is_recent window now t = ltb now (t + window)

-- The pruned slice, which is also written back.
unfoldable pub prune : LoginLockout → Text → Time → LoginLockout × List Time
unfolding lookup store
prune l username now =
    let kept = keep (is_recent l.window now) (lookup username l.failures) in
    (record l { failures = store username kept l.failures }, kept)

unfoldable pub count_recent : LoginLockout → Text → Time → LoginLockout × ℕ
unfolding prune
count_recent l username now = let (l', kept) = prune l username now in (l', length kept)

unfoldable pub locked : LoginLockout → Text → Time → LoginLockout × Bool
unfolding count_recent
locked l username now = let (l', n) = count_recent l username now in (l', leb l.max_failures n)

-- The clock is read once to prune and once for the new entry.
unfoldable pub record_failure : LoginLockout → Text → Time → Time → LoginLockout
unfolding prune store
record_failure l username pruned_at failed_at =
    let (l', kept) = prune l username pruned_at in
    record l' { failures = store username (kept ++ failed_at ∷ []) l'.failures }

unfoldable pub reset : LoginLockout → Text → LoginLockout
unfolding delete
reset l username = record l { failures = delete username l.failures }

pub lookup-store :
    (u v : Text) (times : List Time) (fs : Failures)
    → lookup v (store u times fs) ≡ (if u == v then times else lookup v fs)
unfolding lookup store
lookup-store u v times [] = refl
lookup-store u v times ((k, old) ∷ fs) =
    ground (arith, text_iff k u, text_iff k v, text_iff u v, lookup-store u v times fs)

pub lookup-delete :
    (u v : Text) (fs : Failures) → lookup v (delete u fs) ≡ (if u == v then [] else lookup v fs)
unfolding lookup delete
lookup-delete u v [] = ground arith
lookup-delete u v ((k, old) ∷ fs) =
    ground (arith, text_iff k u, text_iff k v, text_iff u v, lookup-delete u v fs)
