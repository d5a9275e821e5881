-- ===== src/Base/Lists.antt =====
-- Lists searched, filtered and measured by Boolean tests and native numbers.
use Prim.Native.Nat.{ℕ, suc, ◌+◌}
use mathlib.Core.Path.{◌≡◌, refl}
use mathlib.Core.Logic.{inl, inr}
use mathlib.Core.Bool.{Bool, true, false, ◌||◌}
use mathlib.Core.Option.{Option, none, some}
use mathlib.Core.List.{List, [], ◌∷◌, ◌++◌}
use native.Mathlib.Omega.{arith}
use agentreg.Base.Tests.{if◌then◌else◌, Option-cases}

module _ {ℓ} {A : Type ℓ} where
  abbrev pub length : List A → ℕ
  length [] = 0
  length (x ∷ xs) = suc (length xs)

  pub length-append : (xs ys : List A) → length (xs ++ ys) ≡ length xs + length ys
  length-append [] ys = omega arith
  length-append (x ∷ xs) ys = omega (arith, length-append xs ys)

  -- The first element that passes the test.
  abbrev pub find : (A → Bool) → List A → Option A
  find p [] = none
  find p (x ∷ xs) = if p x then some x else find p xs

  abbrev pub any : (A → Bool) → List A → Bool
  any p [] = false
  any p (x ∷ xs) = p x || any p xs

  abbrev pub keep : (A → Bool) → List A → List A
  keep p [] = []
  keep p (x ∷ xs) = let rest = keep p xs in if p x then x ∷ rest else rest

  -- Rewrites the elements that pass the test.
  abbrev pub update_where : (A → Bool) → (A → A) → List A → List A
  update_where p f [] = []
  update_where p f (x ∷ xs) = (if p x then f x else x) ∷ update_where p f xs

  abbrev pub All {κ} : (A → Type κ) → List A → Type κ
  All P [] = Unit
  All P (x ∷ xs) = P x × All P xs

  pub All-append {κ} : (P : A → Type κ) (xs ys : List A) → All P xs → All P ys → All P (xs ++ ys)
  All-append P [] ys h k = k
  All-append P (x ∷ xs) ys h k = (h.0, All-append P xs ys h.1 k)

  pub All-impl {κ μ} :
      (P : A → Type κ) (Q : A → Type μ) (xs : List A) → ((x : A) → P x → Q x) → All P xs → All Q xs
  All-impl P Q [] f h = tt
  All-impl P Q (x ∷ xs) f h = (f x h.0, All-impl P Q xs f h.1)

  pub All-update_where {κ} :
      (P : A → Type κ) (p : A → Bool) (f : A → A) (xs : List A)
      → ((x : A) → P x → P (f x))
      → All P xs
      → All P (update_where p f xs)
  All-update_where P p f [] k h = tt
  All-update_where P p f (x ∷ xs) k h = ground (arith, k x, All-update_where P p f xs k h.1)

  pub All-find {κ} :
      (P : A → Type κ) (p : A → Bool) (xs : List A) (x : A) → All P xs → find p xs ≡ some x → P x
  All-find P p [] x h e = cc
  All-find P p (y ∷ xs) x h e = ground (arith, All-find P p xs x h.1)

  -- What `find` returns passes the test.
  pub find-passes : (p : A → Bool) (xs : List A) (x : A) → find p xs ≡ some x → p x ≡ true
  find-passes p [] x e = cc
  find-passes p (y ∷ xs) x e = ground (arith, find-passes p xs x)

  pub find-append :
      (p : A → Bool) (xs ys : List A)
      → find p (xs ++ ys) ≡ elim (find p xs) [ none ↦ find p ys | some x ↦ some x ]
  find-append p [] ys = refl
  find-append p (x ∷ xs) ys = ground (arith, find-append p xs ys)

  pub find-append_found :
      (p : A → Bool) (xs ys : List A) (x : A) → find p xs ≡ some x → find p (xs ++ ys) ≡ some x
  find-append_found p [] ys x h = cc
  find-append_found p (y ∷ xs) ys x h = ground (arith, find-append_found p xs ys x)

  pub any-find : (p : A → Bool) (xs : List A) → any p xs ≡ false → find p xs ≡ none
  any-find p [] h = refl
  any-find p (x ∷ xs) h = ground (arith, any-find p xs)

  pub find-any : (p : A → Bool) (xs : List A) (x : A) → find p xs ≡ some x → any p xs ≡ true
  find-any p [] x h = cc
  find-any p (y ∷ xs) x h = ground (arith, find-any p xs x)

  -- A rewrite that does not change a test does not change what the test finds, but for the rewrite.
  pub find-update_where :
      (q p : A → Bool) (f : A → A) (xs : List A)
      → ((x : A) → q (f x) ≡ q x)
      → find q (update_where p f xs)
        ≡ elim (find q xs) [ none ↦ none | some x ↦ some (if p x then f x else x) ]
  find-update_where q p f [] k = refl
  find-update_where q p f (x ∷ xs) k = ground (arith, k x, find-update_where q p f xs k)

  pub none-any : (p : A → Bool) (xs : List A) → find p xs ≡ none → any p xs ≡ false
  none-any p [] h = refl
  none-any p (x ∷ xs) h = ground (arith, none-any p xs)

  pub find-of_any : (p : A → Bool) (xs : List A) → any p xs ≡ true → (x : A) × (find p xs ≡ some x)
  find-of_any p xs h = elim (Option-cases (find p xs)) [
    | inl e ↦ absurd (ground (arith, none-any p xs e))
    | inr (x, e) ↦ (x, e)
  ]
