-- ===== src/Program/Runs.antt =====
-- What a computation leads to: `Q a` after a success with `a`, `E` after an error.
use agentreg.Base.{
  Result, ok, err, Error, Option, none, some, Bool, true, false, if◌then◌else◌, ◌≡◌, refl, sym,
  subst,
}
use agentreg.Program.{
  Program, done, stop, from_result, outcome, on_error, or_stop, rename_error, continue, ◌>>=◌,
  reads, modify, finally,
}

module _ {S : Type 0} where
  abbrev pub Leads : {A : Type 0} → (A → S → Type 0) → (S → Type 0) → Result A → S → Type 0
  Leads Q E (ok a) s = Q a s
  Leads Q E (err e) s = E s

  pub record Runs {A : Type 0} (P : S → Type 0) (m : Program S A) (Q : A → S → Type 0)
      (E : S → Type 0) : Type 0 where
    pub at : (s : S) → P s → Leads Q E (m s).0 (m s).1

module _ {S A B : Type 0} {E : S → Type 0} {Q : B → S → Type 0} where
  continue-Leads :
      (R : A → S → Type 0) (r : Result A) (s : S) (f : A → Program S B)
      → Leads R E r s
      → ((a : A) → Runs (R a) (f a) Q E)
      → Leads Q E (continue r f s).0 (continue r f s).1
  continue-Leads R (ok a) s f h k = (k a).at s h
  continue-Leads R (err e) s f h k = h

  pub Runs-bind :
      {P : S → Type 0} (R : A → S → Type 0) {m : Program S A} {f : A → Program S B}
      → Runs P m R E
      → ((a : A) → Runs (R a) (f a) Q E)
      → Runs P (m >>= f) Q E
  unfolding ◌>>=◌
  Runs-bind R {m} {f} h k = record { at = λ s p. continue-Leads R (m s).0 (m s).1 f (h.at s p) k }

module _ {S A : Type 0} {P : S → Type 0} {E : S → Type 0} {Q : A → S → Type 0} where
  pub Runs-done : (a : A) → ((s : S) → P s → Q a s) → Runs P (done a) Q E
  unfolding done
  Runs-done a k = record { at = k }

  pub Runs-stop : (e : Error) → ((s : S) → P s → E s) → Runs P (stop e) Q E
  unfolding stop
  Runs-stop e k = record { at = k }

  pub Runs-if :
      (b : Bool) {m n : Program S A}
      → (b ≡ true → Runs P m Q E)
      → (b ≡ false → Runs P n Q E)
      → Runs P (if b then m else n) Q E
  Runs-if true h k = h refl
  Runs-if false h k = k refl

  pub Runs-from_result :
      (r : Result A)
      → ((a : A) → r ≡ ok a → (s : S) → P s → Q a s)
      → ((s : S) → P s → E s)
      → Runs P (from_result r) Q E
  unfolding from_result
  Runs-from_result (ok a) k h = record { at = k a refl }
  Runs-from_result (err e) k h = record { at = h }

  pub Runs-or_stop :
      (e : Error) (o : Option A)
      → ((a : A) → o ≡ some a → (s : S) → P s → Q a s)
      → ((s : S) → P s → E s)
      → Runs P (or_stop e o) Q E
  Runs-or_stop e none k h = Runs-stop e h
  Runs-or_stop e (some a) k h = Runs-done a (k a refl)

  pub Runs-on_error :
      (f : Error → Error) {m : Program S A} → Runs P m Q E → Runs P (on_error f m) Q E
  unfolding on_error
  Runs-on_error f {m} k = record { at = λ s p. renamed (m s).0 (m s).1 (k.at s p) }
    where
      renamed : (r : Result A) (s : S) → Leads Q E r s → Leads Q E (rename_error f r) s
      renamed (ok a) s h = h
      renamed (err e) s h = h

  pub Runs-weaken :
      (P' : S → Type 0) (Q' : A → S → Type 0) (E' : S → Type 0) {m : Program S A}
      → ((s : S) → P s → P' s)
      → ((a : A) (s : S) → Q' a s → Q a s)
      → ((s : S) → E' s → E s)
      → Runs P' m Q' E'
      → Runs P m Q E
  Runs-weaken P' Q' E' {m} f g h k = record { at = λ s p. weaken (m s).0 (m s).1 (k.at s (f s p)) }
    where
      weaken : (r : Result A) (s : S) → Leads Q' E' r s → Leads Q E r s
      weaken (ok a) s l = g a s l
      weaken (err e) s l = h s l

module _ {S : Type 0} {P : S → Type 0} {E : S → Type 0} where
  pub Runs-modify :
      {Q : Unit {0} → S → Type 0} (f : S → S) → ((s : S) → P s → Q tt (f s)) → Runs P (modify f) Q E
  unfolding modify
  Runs-modify f k = record { at = k }

  pub Runs-reads :
      {A : Type 0} {Q : A → S → Type 0} (f : S → A)
      → ((s : S) → P s → Q (f s) s)
      → Runs P (reads f) Q E
  unfolding reads
  Runs-reads f k = record { at = k }

module _ {S A : Type 0} {P : S → Type 0} {E : S → Type 0} {Q : A → S → Type 0} where
  -- An outcome that is looked at.
  pub Runs-outcome : {m : Program S A} → Runs P m Q E → Runs P (outcome m) (λ r s. Leads Q E r s) E
  unfolding outcome
  Runs-outcome {m} k = record { at = λ s p. k.at s p }

module _ {S A : Type 0} {P : S → Type 0} {E : S → Type 0} {Q : A → S → Type 0} where
  -- What does not depend on the state holds afterwards too.
  pub Runs-constant :
      (F : Type 0) (m : Program S A)
      → ((s : S) → P s → F)
      → (F → (a : A) (s : S) → Q a s)
      → (F → (s : S) → E s)
      → Runs P m Q E
  Runs-constant F m h k l = record { at = λ s p. led (m s).0 (m s).1 (h s p) }
    where
      led : (r : Result A) (s : S) → F → Leads Q E r s
      led (ok a) s x = k x a s
      led (err e) s x = l x s

  pub Runs-finally :
      (g : S → S) {m : Program S A}
      → Runs P m (λ a s. Q a (g s)) (λ s. E (g s))
      → Runs P (finally g m) Q E
  unfolding finally
  Runs-finally g {m} k = record { at = λ s p. led (m s).0 (m s).1 (k.at s p) }
    where
      led : (r : Result A) (s : S) → Leads (λ a s. Q a (g s)) (λ s. E (g s)) r s → Leads Q E r (g s)
      led (ok a) s h = h
      led (err e) s h = h

  -- A case on the state before.
  pub Runs-assume :
      (F : Type 0) {m : Program S A} → ((s : S) → P s → F) → (F → Runs P m Q E) → Runs P m Q E
  Runs-assume F h k = record { at = λ s p. (k (h s p)).at s p }

-- Where success and failure lead to the same, it holds after the run.
pub Leads-both : {S A : Type 0} (E : S → Type 0) (r : Result A) (s : S) → Leads (λ a. E) E r s → E s
Leads-both E (ok a) s h = h
Leads-both E (err e) s h = h

module _ {S A : Type 0} {E : S → Type 0} {Q : A → S → Type 0} where
  -- From one state, with the outcome.
  pub Runs-exact :
      {P : S → Type 0} (m : Program S A) (before : S)
      → Runs P m Q E
      → P before
      → Runs (λ s. s ≡ before) m (λ a s. ((m before).0 ≡ ok a) × Q a s) E
  Runs-exact m before k p = record {
    at = λ s e.
        subst (λ x. Leads (λ a s. ((m before).0 ≡ ok a) × Q a s) E (m x).0 (m x).1) (sym e)
          (led (m before).0 refl (k.at before p));
  }
    where
      led :
          (r : Result A)
          → (m before).0 ≡ r
          → Leads Q E r (m before).1
          → Leads (λ a s. ((m before).0 ≡ ok a) × Q a s) E r (m before).1
      led (ok a) e h = (e, h)
      led (err x) e h = h

-- What a success leads to.
pub Leads-ok :
    {S A : Type 0} (Q : A → S → Type 0) (E : S → Type 0) (r : Result A) (a : A) (s : S)
    → r ≡ ok a
    → Leads Q E r s
    → Q a s
Leads-ok Q E r a s e h = subst (λ x. Leads Q E x s) e h
