-- ===== src/World/Keeps.antt =====
-- What a computation leaves true, whether it succeeds or fails: a rule for each way to build one.
use agentreg.Base.{
  ℕ, Text, List, [], ◌∷◌, Bool, true, false, Error, Result, ok, err, ◌≡◌, refl, if◌then◌else◌,
  Option, none, some,
}
use agentreg.World.{
  Db, World, M, pure, fail, lift, map_error, ignore, attempt, continue, ◌>>=◌, access, access_at,
  gets, query, write, exec, replace, update, run_write, atomic, commit_at, end_transaction,
  transaction, time_now, random_hex, draw, post, send, head_fault, take_fault,
}

-- A property of the tables and the blobs.
abbrev pub DiskPredicate : Type 1
DiskPredicate = Db → List (Text × Text) → Type 0

-- `m` leaves `P` true.
pub record Keeps {A : Type 0} (P : DiskPredicate) (m : M A) : Type 0 where
  pub at : (w : World) → P w.db w.blobs → P (m w).1.db (m w).1.blobs

module _ {A : Type 0} {P : DiskPredicate} where
  pub Keeps-pure : (a : A) → Keeps P (pure a)
  unfolding pure
  Keeps-pure a = record { at = λ w h. h }

  pub Keeps-fail : (e : Error) → Keeps P (fail {A = A} e)
  unfolding fail
  Keeps-fail e = record { at = λ w h. h }

  pub Keeps-lift : (r : Result A) → Keeps P (lift r)
  unfolding lift
  Keeps-lift r = record { at = λ w h. h }

  pub Keeps-map_error : (f : Error → Error) (m : M A) → Keeps P m → Keeps P (map_error f m)
  unfolding map_error
  Keeps-map_error f m k = record { at = λ w h. k.at w h }

  pub Keeps-ignore : (m : M A) → Keeps P m → Keeps P (ignore m)
  unfolding ignore
  Keeps-ignore m k = record { at = λ w h. k.at w h }

  pub Keeps-attempt : (m : M A) → Keeps P m → Keeps P (attempt m)
  unfolding attempt
  Keeps-attempt m k = record { at = λ w h. k.at w h }

  pub Keeps-if : (b : Bool) (m n : M A) → Keeps P m → Keeps P n → Keeps P (if b then m else n)
  Keeps-if true m n km kn = km
  Keeps-if false m n km kn = kn

module _ {A B : Type 0} {P : DiskPredicate} where
  Keeps-continue :
      (r : Result A) (f : A → M B)
      → ((a : A) → Keeps P (f a))
      → (w : World) → P w.db w.blobs
      → P (continue r f w).1.db (continue r f w).1.blobs
  Keeps-continue (ok a) f k w h = (k a).at w h
  Keeps-continue (err e) f k w h = h

  pub Keeps-bind :
      (m : M A) (f : A → M B) → Keeps P m → ((a : A) → Keeps P (f a)) → Keeps P (m >>= f)
  unfolding ◌>>=◌
  Keeps-bind m f km kf = record { at = λ w h. Keeps-continue (m w).0 f kf (m w).1 (km.at w h) }

run_write-keeps :
    (P : DiskPredicate) (r : Result Db) (w : World)
    → ((d : Db) → r ≡ ok d → P d w.blobs)
    → P w.db w.blobs
    → P (run_write r w).1.db (run_write r w).1.blobs
run_write-keeps P (ok d) w k h = k d refl
run_write-keeps P (err e) w k h = h

module _ {P : DiskPredicate} where
  Keeps-access_at : (o : Option Text) → Keeps P (access_at o)
  Keeps-access_at none = record { at = λ w h. h }
  Keeps-access_at (some m) = record { at = λ w h. h }

  pub Keeps-access : Keeps P access
  unfolding access
  Keeps-access = record {
    at = λ w h. (Keeps-access_at (head_fault w.env.faults)).at (take_fault w) h;
  }

  pub Keeps-exec :
      (f : Db → Result Db)
      → ((d d' : Db) (b : List (Text × Text)) → f d ≡ ok d' → P d b → P d' b)
      → Keeps P (exec f)
  unfolding exec write
  Keeps-exec f k =
      Keeps-bind access (λ _. write f) Keeps-access
        (λ _. record { at = λ w h. run_write-keeps P (f w.db) w (λ d e. k w.db d w.blobs e h) h })

  pub Keeps-update :
      (rows : Db → ℕ) (f : Db → Db)
      → ((d : Db) (b : List (Text × Text)) → P d b → P (f d) b)
      → Keeps P (update rows f)
  unfolding update replace
  Keeps-update rows f k =
      Keeps-bind access (λ _. replace rows f) Keeps-access
        (λ _. record { at = λ w h. k w.db w.blobs h })

  pub Keeps-time_now : Keeps P time_now
  unfolding time_now
  Keeps-time_now = record { at = λ w h. h }

  Keeps-draw : (rs : List Text) → Keeps P (draw rs)
  Keeps-draw [] = record { at = λ w h. h }
  Keeps-draw (r ∷ rs) = record { at = λ w h. h }

  pub Keeps-random_hex : Keeps P random_hex
  unfolding random_hex
  Keeps-random_hex = record { at = λ w h. (Keeps-draw w.env.entropy).at w h }

  pub Keeps-send : (to subject body : Text) → Keeps P (send to subject body)
  unfolding send
  Keeps-send to subject body =
      Keeps-bind access (λ _. post (record { to = to; subject = subject; body = body }))
        Keeps-access (λ _. record { at = λ w h. h })

module _ {A : Type 0} {P : DiskPredicate} where
  pub Keeps-query : (f : Db → A) → Keeps P (query f)
  unfolding query
  Keeps-query f = Keeps-bind access (λ _. gets f) Keeps-access (λ _. record { at = λ w h. h })

module _ {A : Type 0} (P : DiskPredicate) (before : Db) where
  commit_at-keeps :
      (o : Option Text) (a : A) (w : World)
      → P before w.blobs
      → P w.db w.blobs
      → P (commit_at o before a w).1.db (commit_at o before a w).1.blobs
  commit_at-keeps none a w h k = k
  commit_at-keeps (some m) a w h k = h

  end_transaction-keeps :
      (r : Result A) (w : World)
      → P before w.blobs
      → P w.db w.blobs
      → P (end_transaction before r w).1.db (end_transaction before r w).1.blobs
  end_transaction-keeps (err e) w h k = h
  end_transaction-keeps (ok a) w h k =
      commit_at-keeps (head_fault w.env.faults) a (take_fault w) h k

module _ {A : Type 0} {P : DiskPredicate} where
  -- The tables after it are those of the body, or those before it with the blobs of the body.
  pub Keeps-transaction :
      (m : M A) → Keeps P m → ((d : Db) → Keeps (λ _ b. P d b) m) → Keeps P (transaction m)
  unfolding transaction atomic
  Keeps-transaction m k rolled =
      Keeps-bind access (λ _. atomic m) Keeps-access
        λ _. record {
          at =
              λ w h. end_transaction-keeps P w.db (m w).0 (m w).1 ((rolled w.db).at w h) (k.at w h);
        }

pub ruleset keeps_rules = (
  Keeps-pure, Keeps-fail, Keeps-lift, Keeps-map_error, Keeps-ignore, Keeps-attempt, Keeps-if,
  Keeps-bind, Keeps-time_now, Keeps-random_hex, Keeps-send, Keeps-query,
)
