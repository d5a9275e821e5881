-- ===== src/World/Then.antt =====
-- A property that a computation keeps where its later part relies on what its first part achieved.
use agentreg.Base.{Text, List, Result, ok, err, ◌≡◌, refl, subst, ok-injective}
use agentreg.World.{Db, World, M, continue, ◌>>=◌, attempt}
use agentreg.World.Keeps.{DiskPredicate, Keeps}
use agentreg.World.Ensures.{Assertion, Ensures, Sat}

module _ {A B : Type 0} (P : DiskPredicate) (R : A → DiskPredicate) where
  continue-keeps :
      (r : Result A) (f : A → M B) (w : World)
      → P w.db w.blobs
      → ((a : A) → r ≡ ok a → R a w.db w.blobs)
      → ((a : A) (v : World) → R a v.db v.blobs → P (f a v).1.db (f a v).1.blobs)
      → P (continue r f w).1.db (continue r f w).1.blobs
  continue-keeps (ok a) f w h g k = k a w (g a refl)
  continue-keeps (err e) f w h g k = h

module _ {A B : Type 0} {P : DiskPredicate} (R : A → DiskPredicate) where
  pub Keeps-then :
      (m : M A) (f : A → M B)
      → Keeps P m
      → Ensures (λ d b t. P d b) m (λ a d b t. R a d b)
      → ((a : A) → Keeps (R a) (f a))
      → ((a : A) (d : Db) (b : List (Text × Text)) → R a d b → P d b)
      → Keeps P (m >>= f)
  unfolding ◌>>=◌
  Keeps-then m f km em kf back = record {
    at = λ w h.
        continue-keeps P R (m w).0 f (m w).1 (km.at w h) (λ a e. em.at w a h e)
          (λ a v q. back a _ _ ((kf a).at v q));
  }

module _ {A : Type 0} {P : DiskPredicate} where
  -- What a computation keeps it ensures.
  pub Ensures-Keeps : (m : M A) → Keeps P m → Ensures (λ d b t. P d b) m (λ _ d b t. P d b)
  Ensures-Keeps m k = record { at = λ w a h e. k.at w h }

  -- An outcome that is looked at: what the computation keeps holds after a failure too.
  pub Ensures-attempt :
      (m : M A) → Keeps P m → Ensures (λ d b t. P d b) (attempt m) (λ _ d b t. P d b)
  unfolding attempt
  Ensures-attempt m k = record { at = λ w a h e. k.at w h }

-- `Q` of the value when there is one.
abbrev pub OnOk : {A : Type 0} → (A → Assertion) → Result A → Assertion
OnOk Q (ok a) = Q a
OnOk Q (err e) = λ d b t. Unit {0}

outcome_at :
    {A : Type 0} (Q : A → Assertion) (r : Result A) (w : World)
    → ((a : A) → r ≡ ok a → Sat (Q a) w)
    → Sat (OnOk Q r) w
outcome_at Q (ok a) w h = h a refl
outcome_at Q (err e) w h = tt

module _ {A : Type 0} {P : Assertion} {Q : A → Assertion} where
  pub Ensures-outcome : (m : M A) → Ensures P m Q → Ensures P (attempt m) (OnOk Q)
  unfolding attempt
  Ensures-outcome m k = record {
    at = λ w r h e.
        subst (λ x. Sat (OnOk Q x) (m w).1) (ok-injective e)
          (outcome_at Q (m w).0 (m w).1 (λ a x. k.at w a h x));
  }
