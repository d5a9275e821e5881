-- ===== src/Program.antt =====
-- Computations over any state that return a value or an error: those of the command line client and
-- of the crawler.
pub mod Runs
pub mod Gives
use agentreg.Base.{Option, none, some, Result, ok, err, Error}

abbrev pub Program : Type 0 → Type 0 → Type 0
Program S A = S → Result A × S

abbrev pub rename_error : {A : Type 0} → (Error → Error) → Result A → Result A
rename_error f (ok a) = ok a
rename_error f (err e) = err (f e)

module _ {S A : Type 0} where
  unfoldable pub done : A → Program S A
  done a s = (ok a, s)

  unfoldable pub stop : Error → Program S A
  stop e s = (err e, s)

  unfoldable pub from_result : Result A → Program S A
  from_result r s = (r, s)

  -- The outcome is kept as a value.
  unfoldable pub outcome : Program S A → Program S (Result A)
  outcome m s = let (r, s') = m s in (ok r, s')

  -- `if err != nil { return fmt.Errorf(…, err) }`
  unfoldable pub on_error : (Error → Error) → Program S A → Program S A
  on_error f m s = let (r, s') = m s in (rename_error f r, s')

  abbrev pub or_stop : Error → Option A → Program S A
  or_stop e none = stop e
  or_stop e (some a) = done a

module _ {S A B : Type 0} where
  abbrev pub continue : Result A → (A → Program S B) → Program S B
  continue (ok a) f s = f a s
  continue (err e) f s = (err e, s)

  infixl 10 ◌>>=◌ ◌>>◌
  unfoldable pub ◌>>=◌ : Program S A → (A → Program S B) → Program S B
  ◌>>=◌ m f s = continue (m s).0 f (m s).1

  abbrev pub ◌>>◌ : Program S A → Program S B → Program S B
  m >> k = m >>= λ _. k

-- The state is read.
unfoldable pub reads : {S A : Type 0} → (S → A) → Program S A
reads f s = (ok (f s), s)

-- The state is changed.
unfoldable pub modify : {S : Type 0} → (S → S) → Program S (Unit {0})
modify f s = (ok tt, f s)

-- Whatever the outcome, `f` is applied to the state afterwards.
unfoldable pub finally : {S A : Type 0} → (S → S) → Program S A → Program S A
finally f m s = let (r, s') = m s in (r, f s')
