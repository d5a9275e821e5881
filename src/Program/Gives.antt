-- ===== src/Program/Gives.antt =====
-- Computations that always succeed, with a value that satisfies `Q`.
use agentreg.Base.{Result, ok, Bool, true, false, if◌then◌else◌, ◌≡◌, refl, sym, subst}
use agentreg.Program.{Program, done, outcome, continue, ◌>>=◌, reads, finally}

pub record Gives {S A : Type 0} (m : Program S A) (Q : A → Type 0) : Type 0 where
  pub at : (s : S) → (a : A) × ((m s).0 ≡ ok a) × Q a

module _ {S A B : Type 0} {Q : B → Type 0} where
  continue-ok :
      (r : Result A) (a : A) (s : S) (f : A → Program S B)
      → r ≡ ok a
      → Gives (f a) Q
      → (b : B) × ((continue r f s).0 ≡ ok b) × Q b
  continue-ok r a s f e g =
      subst (λ x. (b : B) × ((continue x f s).0 ≡ ok b) × Q b) (sym e) (g.at s)

  pub Gives-bind :
      {m : Program S A} {f : A → Program S B} (R : A → Type 0)
      → Gives m R
      → ((a : A) → R a → Gives (f a) Q)
      → Gives (m >>= f) Q
  unfolding ◌>>=◌
  Gives-bind {m} {f} R h k = record {
    at = λ s. let (a, e, x) = h.at s in continue-ok (m s).0 a (m s).1 f e (k a x);
  }

module _ {S A : Type 0} {Q : A → Type 0} where
  pub Gives-done : (a : A) → Q a → Gives {S = S} (done a) Q
  unfolding done
  Gives-done a h = record { at = λ s. (a, refl, h) }

  pub Gives-if :
      (b : Bool) {m n : Program S A}
      → (b ≡ true → Gives m Q)
      → (b ≡ false → Gives n Q)
      → Gives (if b then m else n) Q
  Gives-if true h k = h refl
  Gives-if false h k = k refl

  pub Gives-reads : (f : S → A) → ((s : S) → Q (f s)) → Gives (reads f) Q
  unfolding reads
  Gives-reads f h = record { at = λ s. (f s, refl, h s) }

  pub Gives-finally : (g : S → S) {m : Program S A} → Gives m Q → Gives (finally g m) Q
  unfolding finally
  Gives-finally g h = record { at = h.at }

module _ {S A : Type 0} where
  -- An outcome that is looked at can be anything.
  pub Gives-outcome : (m : Program S A) → Gives (outcome m) (λ r. Unit {0})
  unfolding outcome
  Gives-outcome m = record { at = λ s. ((m s).0, refl, tt) }
