-- ===== src/Pack/Outcome.antt =====
-- What the steps of an extraction lead to: `E` of the tree after an error, `Q` of it after a success.
use agentreg.Base.{
  ℕ, zero, suc, ◌+◌, ◌≤◌, Text, ◌==◌, List, [], ◌∷◌, Result, ok, err, Error, length, arith,
  if◌then◌else◌, Bool, Bool-cases, inl, inr, All, ◌≡◌, refl, true, false, Option, none, some,
}
use agentreg.Pack.Extract.{
  Disk, File, Fault, D, ◌>>=◌, continue, done, stop, call, call_at, next_fault, past_fault, take,
  put_file, drop_file, opened,
}

module _ (E : Disk → Type 0) where
  abbrev pub Leads : {A : Type 0} → (A → Disk → Type 0) → Result A × Disk → Type 0
  Leads Q (ok a, d) = Q a d
  Leads Q (err e, d) = E d

  -- From a tree with `P`, `m` leads to `Q` or an error with `E`.
  pub record Makes {A : Type 0} (P : Disk → Type 0) (m : D A) (Q : A → Disk → Type 0) : Type 0 where
    pub at : (d : Disk) → P d → Leads Q (m d)

  module _ {A B : Type 0} where
    continue-Leads :
        (Q : A → Disk → Type 0) (R : B → Disk → Type 0) (r : Result A) (d : Disk) (f : A → D B)
        → Leads Q (r, d)
        → ((a : A) → Makes (Q a) (f a) R)
        → Leads R (continue r f d)
    continue-Leads Q R (ok a) d f h k = (k a).at d h
    continue-Leads Q R (err e) d f h k = h

    pub Makes-bind :
        (P : Disk → Type 0) (Q : A → Disk → Type 0) (R : B → Disk → Type 0) {m : D A} {f : A → D B}
        → Makes P m Q
        → ((a : A) → Makes (Q a) (f a) R)
        → Makes P (m >>= f) R
    unfolding ◌>>=◌
    Makes-bind P Q R {m} {f} h k = record {
      at = λ d p. continue-Leads Q R (m d).0 (m d).1 f (h.at d p) k;
    }

  module _ {A : Type 0} where
    pub Makes-done : (Q : A → Disk → Type 0) (a : A) → Makes (Q a) (done a) Q
    unfolding done
    Makes-done Q a = record { at = λ d h. h }

    pub Makes-stop :
        (P : Disk → Type 0) (Q : A → Disk → Type 0) (e : Error)
        → ((d : Disk) → P d → E d)
        → Makes P (stop e) Q
    unfolding stop
    Makes-stop P Q e f = record { at = f }

    pub Makes-if :
        (b : Bool) (P : Disk → Type 0) (Q : A → Disk → Type 0) {m k : D A}
        → (b ≡ true → Makes P m Q)
        → (b ≡ false → Makes P k Q)
        → Makes P (if b then m else k) Q
    Makes-if true P Q h i = h refl
    Makes-if false P Q h i = i refl

  pub Makes-call :
      (P : Disk → Type 0) (Q : Disk → Type 0) (f : Disk → Disk)
      → ((d : Disk) → P d → E (past_fault d))
      → ((d : Disk) → P d → Q (f (past_fault d)))
      → Makes P (call f) (λ _. Q)
  unfolding call
  Makes-call P Q f h k = record { at = λ d p. at_fault d p (next_fault d) }
    where
      at_fault :
          (d : Disk)
          → P d
          → (o : Option Fault) → Leads (λ (_ : Unit {0}). Q) (call_at o f (past_fault d))
      at_fault d p none = k d p
      at_fault d p (some e) = h d p

-- The bytes of all files.
unfoldable pub size : List (Text × File) → ℕ
size [] = 0
size ((p, f) ∷ fs) = length f.content + size fs

pub size-put_file :
    (p : Text) (f : File) (fs : List (Text × File))
    → size (put_file p f fs) ≤ size fs + length f.content
unfolding size put_file
size-put_file p f [] = omega arith
size-put_file p f ((q, g) ∷ fs) = ground (arith, size-put_file p f fs)

pub size-drop_file : (p : Text) (fs : List (Text × File)) → size (drop_file p fs) ≤ size fs
unfolding size drop_file
size-drop_file p [] = omega arith
size-drop_file p ((q, g) ∷ fs) = ground (arith, size-drop_file p fs)

pub length-take : (n : ℕ) (s : Text) → length (take n s) ≤ n
unfolding take
length-take zero s = omega arith
length-take (suc n) [] = omega arith
length-take (suc n) (c ∷ s) = omega (arith, length-take n s)

pub length-take-take : (m n : ℕ) (s : Text) → length (take m (take n s)) ≤ n
unfolding take
length-take-take zero n s = omega arith
length-take-take (suc m) zero s = omega arith
length-take-take (suc m) (suc n) [] = omega arith
length-take-take (suc m) (suc n) (c ∷ s) = omega (arith, length-take-take m n s)

pub opened-content : (o : Option (Text × File)) (mode : ℕ) → (opened o mode).content ≡ []
opened-content none mode = refl
opened-content (some (p, f)) mode = refl

module _ (P : Text → Type 0) where
  pub put_file-All :
      (p : Text) (f : File) (fs : List (Text × File))
      → P p
      → All (λ x. P x.0) fs
      → All (λ x. P x.0) (put_file p f fs)
  unfolding put_file
  put_file-All p f [] h k = (h, tt)
  put_file-All p f ((q, g) ∷ fs) h k = elim (Bool-cases (q == p)) [
    | inl e ↦ rw e (h, k.1)
    | inr e ↦ rw e (k.0, put_file-All p f fs h k.1)
  ]

  pub drop_file-All :
      (p : Text) (fs : List (Text × File)) → All (λ x. P x.0) fs → All (λ x. P x.0) (drop_file p fs)
  unfolding drop_file
  drop_file-All p [] k = tt
  drop_file-All p ((q, g) ∷ fs) k = elim (Bool-cases (q == p)) [
    | inl e ↦ rw e k.1
    | inr e ↦ rw e (k.0, drop_file-All p fs k.1)
  ]
