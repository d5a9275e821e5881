-- ===== src/World/Ensures.antt =====
-- What holds after a computation that succeeds: a rule for each way to build one. An assertion is
-- about the tables, the blobs and the clock.
use agentreg.Base.{
  ℕ, ◌≤◌, Text, List, [], ◌∷◌, Option, none, some, Bool, true, false, Error, Result, ok, err,
  ok-injective, ◌≡◌, refl, subst, sym, if◌then◌else◌, arith,
}
use agentreg.Store.{Time}
use agentreg.World.{
  Db, World, M, pure, fail, map_error, continue, ◌>>=◌, access, access_at, gets, query, write, exec,
  run_write, replace, update, atomic, commit_at, end_transaction, transaction, time_now, random_hex,
  draw, post, send, head_fault, take_fault,
}

abbrev pub Assertion : Type 1
Assertion = Db → List (Text × Text) → Time → Type 0

abbrev pub Sat : Assertion → World → Type 0
Sat P w = P w.db w.blobs w.env.now

-- From `P`, a success of `m` with `a` leads to `Q a`.
pub record Ensures {A : Type 0} (P : Assertion) (m : M A) (Q : A → Assertion) : Type 0 where
  pub at : (w : World) (a : A) → Sat P w → (m w).0 ≡ ok a → Sat (Q a) (m w).1

err≢ok {ℓ} : {A : Type 0} {X : Type ℓ} {e : Error} {a : A} → ◌≡◌ {A = Result A} (err e) (ok a) → X
err≢ok h = cc

map_error-ok :
    {A : Type 0} (f : Error → Error) (r : Result A) (a : A)
    → ◌≡◌ {A = Result A} (elim r [ ok x ↦ ok x | err e ↦ err (f e) ]) (ok a)
    → r ≡ ok a
map_error-ok f (ok x) a h = h
map_error-ok f (err e) a h = err≢ok h

continue-ok :
    {A B : Type 0} (R : A → Assertion) (Q : B → Assertion) (r : Result A) (f : A → M B) (w : World)
    (b : B)
    → ((a : A) → r ≡ ok a → Sat (R a) w)
    → ((a : A) → Ensures (R a) (f a) Q)
    → (continue r f w).0 ≡ ok b
    → Sat (Q b) (continue r f w).1
continue-ok R Q (ok a) f w b h k e = (k a).at w b (h a refl) e
continue-ok R Q (err x) f w b h k e = err≢ok e

module _ {A : Type 0} {P : Assertion} {Q : A → Assertion} where
  pub Ensures-pure :
      (a : A)
      → ((d : Db) (b : List (Text × Text)) (t : Time) → P d b t → Q a d b t)
      → Ensures P (pure a) Q
  unfolding pure
  Ensures-pure a k = record {
    at = λ w a' h e. subst (λ x. Sat (Q x) w) (ok-injective e) (k w.db w.blobs w.env.now h);
  }

  pub Ensures-fail : (e : Error) → Ensures P (fail e) Q
  unfolding fail
  Ensures-fail e = record { at = λ w a h x. err≢ok x }

  pub Ensures-absurd :
      (m : M A) → ((d : Db) (b : List (Text × Text)) (t : Time) → P d b t → ⊥) → Ensures P m Q
  Ensures-absurd m k = record { at = λ w a h x. absurd (k w.db w.blobs w.env.now h) }

  pub Ensures-if :
      (b : Bool) (m n : M A)
      → (b ≡ true → Ensures P m Q)
      → (b ≡ false → Ensures P n Q)
      → Ensures P (if b then m else n) Q
  Ensures-if true m n km kn = km refl
  Ensures-if false m n km kn = kn refl

  pub Ensures-map_error :
      (f : Error → Error) (m : M A) → Ensures P m Q → Ensures P (map_error f m) Q
  unfolding map_error
  Ensures-map_error f m k = record { at = λ w a h e. k.at w a h (map_error-ok f (m w).0 a e) }

  -- A weaker assertion before, a stronger one after.
  pub Ensures-weaken :
      (P' : Assertion) (Q' : A → Assertion) (m : M A)
      → ((d : Db) (b : List (Text × Text)) (t : Time) → P d b t → P' d b t)
      → ((a : A) (d : Db) (b : List (Text × Text)) (t : Time) → Q' a d b t → Q a d b t)
      → Ensures P' m Q'
      → Ensures P m Q
  Ensures-weaken P' Q' m f g k = record {
    at = λ w a h e. g a _ _ _ (k.at w a (f w.db w.blobs w.env.now h) e);
  }

module _ {A : Type 0} {P : Assertion} {Q : A → Assertion} (F : Type 0) where
  -- A consequence of the assertion that does not depend on the state.
  pub Ensures-assume :
      (m : M A)
      → ((d : Db) (b : List (Text × Text)) (t : Time) → P d b t → F)
      → (F → Ensures P m Q)
      → Ensures P m Q
  Ensures-assume m f k = record { at = λ w a h e. (k (f w.db w.blobs w.env.now h)).at w a h e }

module _ {A B : Type 0} {P : Assertion} {Q : B → Assertion} where
  pub Ensures-bind :
      (R : A → Assertion) (m : M A) (f : A → M B)
      → Ensures P m R
      → ((a : A) → Ensures (R a) (f a) Q)
      → Ensures P (m >>= f) Q
  unfolding ◌>>=◌
  Ensures-bind R m f km kf = record {
    at = λ w b h e. continue-ok R Q (m w).0 f (m w).1 b (λ a x. km.at w a h x) kf e;
  }

module _ {P : Assertion} where
  Ensures-access_at : (o : Option Text) → Ensures P (access_at o) (λ _. P)
  Ensures-access_at none = record { at = λ w u h e. h }
  Ensures-access_at (some m) = record { at = λ w u h e. h }

  pub Ensures-access : Ensures P access (λ _. P)
  unfolding access
  Ensures-access = record {
    at = λ w u h e. (Ensures-access_at (head_fault w.env.faults)).at (take_fault w) u h e;
  }

  pub Ensures-time_now :
      Ensures P time_now (λ now d b t. (now ≡ t) × ((before : Time) × P d b before × (before ≤ t)))
  unfolding time_now
  Ensures-time_now = record { at = λ w n h e. (sym (ok-injective e), (w.env.now, h, omega arith)) }

module _ {A : Type 0} {P : Assertion} where
  pub Ensures-gets : (f : Db → A) → Ensures P (gets f) (λ a d b t. P d b t × (a ≡ f d))
  unfolding gets
  Ensures-gets f = record { at = λ w a h e. (h, sym (ok-injective e)) }

  pub Ensures-query : (f : Db → A) → Ensures P (query f) (λ a d b t. P d b t × (a ≡ f d))
  unfolding query
  Ensures-query f = Ensures-bind (λ _. P) access (λ _. gets f) Ensures-access (λ _. Ensures-gets f)

module _ (P : Assertion) where
  write-ok :
      (f : Db → Result Db) (r : Result Db) (w : World)
      → f w.db ≡ r
      → Sat P w
      → (run_write r w).0 ≡ ok tt
      → Sat (λ d' b t. (d : Db) × P d b t × (f d ≡ ok d')) (run_write r w).1
  write-ok f (ok d') w e h x = (w.db, h, e)
  write-ok f (err m) w e h x = err≢ok x

module _ {P : Assertion} where
  Ensures-write :
      (f : Db → Result Db) → Ensures P (write f) (λ _ d' b t. (d : Db) × P d b t × (f d ≡ ok d'))
  unfolding write
  Ensures-write f = record { at = λ w u h e. write-ok P f (f w.db) w refl h e }

  pub Ensures-exec :
      (f : Db → Result Db) → Ensures P (exec f) (λ _ d' b t. (d : Db) × P d b t × (f d ≡ ok d'))
  unfolding exec
  Ensures-exec f = Ensures-bind (λ _. P) access (λ _. write f) Ensures-access (λ _. Ensures-write f)

  pub Ensures-update :
      (rows : Db → ℕ) (f : Db → Db)
      → Ensures P (update rows f) (λ n d' b t. (d : Db) × P d b t × (d' ≡ f d) × (n ≡ rows d))
  unfolding update replace
  Ensures-update rows f =
      Ensures-bind (λ _. P) access (λ _. replace rows f) Ensures-access
        (λ _. record { at = λ w n h e. (w.db, h, refl, sym (ok-injective e)) })

  Ensures-draw : (rs : List Text) → Ensures P (draw rs) (λ _. P)
  Ensures-draw [] = record { at = λ w u h e. h }
  Ensures-draw (r ∷ rs) = record { at = λ w u h e. h }

  pub Ensures-random_hex : Ensures P random_hex (λ _. P)
  unfolding random_hex
  Ensures-random_hex = record { at = λ w a h e. (Ensures-draw w.env.entropy).at w a h e }

  pub Ensures-send : (to subject body : Text) → Ensures P (send to subject body) (λ _. P)
  unfolding send post
  Ensures-send to subject body =
      Ensures-bind (λ _. P) access (λ _. post (record { to = to; subject = subject; body = body }))
        Ensures-access (λ _. record { at = λ w u h e. h })

module _ {A : Type 0} (Q : A → Assertion) where
  Ensures-commit_at :
      (o : Option Text) (before : Db) (a : A) → Ensures (Q a) (commit_at o before a) Q
  Ensures-commit_at none before a = record {
    at = λ w a' h e. subst (λ x. Sat (Q x) w) (ok-injective e) h;
  }
  Ensures-commit_at (some m) before a = record { at = λ w a' h e. err≢ok e }

  end_transaction-ok :
      (before : Db) (r : Result A) (w : World) (a : A)
      → ((x : A) → r ≡ ok x → Sat (Q x) w)
      → (end_transaction before r w).0 ≡ ok a
      → Sat (Q a) (end_transaction before r w).1
  end_transaction-ok before (ok x) w a h e =
      (Ensures-commit_at (head_fault w.env.faults) before x).at (take_fault w) a (h x refl) e
  end_transaction-ok before (err x) w a h e = err≢ok e

module _ {A : Type 0} {P : Assertion} {Q : A → Assertion} where
  pub Ensures-transaction : (m : M A) → Ensures P m Q → Ensures P (transaction m) Q
  unfolding transaction atomic
  Ensures-transaction m k =
      Ensures-bind (λ _. P) access (λ _. atomic m) Ensures-access
        (λ _. record {
          at = λ w a h e. end_transaction-ok Q w.db (m w).0 (m w).1 a (λ x y. k.at w x h y) e;
        })

module _ {A : Type 0} {P : Assertion} where
  pub Ensures-any : (m : M A) → Ensures P m (λ _ d b t. Unit {0})
  Ensures-any m = record { at = λ w a h e. tt }

  pub Ensures-both :
      (Q R : A → Assertion) (m : M A)
      → Ensures P m Q
      → Ensures P m R
      → Ensures P m (λ a d b t. Q a d b t × R a d b t)
  Ensures-both Q R m q k = record { at = λ w a h e. (q.at w a h e, k.at w a h e) }
