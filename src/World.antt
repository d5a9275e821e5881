-- ===== src/World.antt =====
-- The state that a request works on: the tables of internal/store/sqlite/sqlite.go, the blob files,
-- the messages sent, and what the environment decides (clock, random bytes, failures).
pub mod Keeps
pub mod Ensures
pub mod Then
use agentreg.Base.{
  ℕ, ◌+◌, Text, Option, none, some, List, [], ◌∷◌, Bool, true, false, Error, Result, ok, err,
  driver, bytes,
}
use agentreg.Store.{Time}

-- The rows, as the columns keep them: times in whole seconds.
pub record UserRow : Type 0 where
  pub id : ℕ
  pub username : Text
  pub email : Text
  pub password_hash : Text
  pub email_verified : Bool
  pub created_at : ℕ

pub record TokenRow : Type 0 where
  pub id : ℕ
  pub user_id : ℕ
  pub token_hash : Text
  pub label : Text
  pub created_at : ℕ
  pub last_used_at : Option ℕ

pub record PluginRow : Type 0 where
  pub scope : Text
  pub name : Text
  pub description : Text
  pub homepage : Text
  pub repository : Text
  pub license : Text
  pub latest_version : Text
  pub created_at : ℕ
  pub updated_at : ℕ

pub record VersionRow : Type 0 where
  pub scope : Text
  pub name : Text
  pub version : Text
  pub checksum : Text
  pub manifest_json : Text
  pub published_at : ℕ
  pub download_count : ℕ

pub record KeywordRow : Type 0 where
  pub scope : Text
  pub name : Text
  pub keyword : Text

pub record VerificationRow : Type 0 where
  pub token_hash : Text
  pub user_id : ℕ
  pub expires_at : ℕ

pub record ResetRow : Type 0 where
  pub token_hash : Text
  pub user_id : ℕ
  pub expires_at : ℕ
  pub used_at : Option ℕ

-- `last_user` and `last_token` are the AUTOINCREMENT counters: the last id that was given.
pub record Db : Type 0 where
  pub users : List UserRow
  pub last_user : ℕ
  pub tokens : List TokenRow
  pub last_token : ℕ
  pub plugins : List PluginRow
  pub versions : List VersionRow
  pub keywords : List KeywordRow
  pub verifications : List VerificationRow
  pub resets : List ResetRow

pub record Mail : Type 0 where
  pub to : Text
  pub subject : Text
  pub body : Text

-- What the environment decides. Each access to the database, the disk or the mail server takes one
-- of `faults`: `some m` makes it fail with message `m`. Each look at the clock lets the next of
-- `steps` pass. Each random token takes one of `entropy`, and fails when there is none.
pub record Env : Type 0 where
  pub faults : List (Option Text)
  pub now : Time
  pub steps : List ℕ
  pub entropy : List Text

-- `blobs` maps the path of a blob file to its content.
pub record World : Type 0 where
  pub db : Db
  pub blobs : List (Text × Text)
  pub outbox : List Mail
  pub env : Env

abbrev pub M : Type 0 → Type 0
M A = World → Result A × World

module _ {A : Type 0} where
  unfoldable pub pure : A → M A
  pure a w = (ok a, w)

  unfoldable pub fail : Error → M A
  fail e w = (err e, w)

  unfoldable pub lift : Result A → M A
  lift r w = (r, w)

  -- `if errors.Is(err, …) { return … }`: the error is looked at and replaced.
  unfoldable pub map_error : (Error → Error) → M A → M A
  map_error f m w = let (r, w') = m w in (elim r [ ok a ↦ ok a | err e ↦ err (f e) ], w')

  -- `_, _ = …`: the outcome is thrown away.
  unfoldable pub ignore : M A → M (Unit {0})
  ignore m w = (ok tt, (m w).1)

  -- The outcome is kept as a value, to be looked at by the caller.
  unfoldable pub attempt : M A → M (Result A)
  attempt m w = let (r, w') = m w in (ok r, w')

module _ {A B : Type 0} where
  abbrev pub continue : Result A → (A → M B) → M B
  continue (ok a) f w = f a w
  continue (err e) f w = (err e, w)

  infixl 10 ◌>>=◌ ◌>>◌
  unfoldable pub ◌>>=◌ : M A → (A → M B) → M B
  ◌>>=◌ m f w = continue (m w).0 f (m w).1

  abbrev pub ◌>>◌ : M A → M B → M B
  m >> k = m >>= λ _. k

-- Takes the next fault.
abbrev pub head_fault : List (Option Text) → Option Text
head_fault [] = none
head_fault (f ∷ fs) = f

abbrev pub rest_faults : List (Option Text) → List (Option Text)
rest_faults [] = []
rest_faults (f ∷ fs) = fs

abbrev pub take_fault : World → World
take_fault w = record w { env = record w.env { faults = rest_faults w.env.faults } }

abbrev pub access_at : Option Text → M (Unit {0})
access_at none w = (ok tt, w)
access_at (some m) w = (err (driver m), w)

-- One access to something outside the process.
unfoldable pub access : M (Unit {0})
access w = access_at (head_fault w.env.faults) (take_fault w)

unfoldable pub gets : {A : Type 0} → (Db → A) → M A
gets f w = (ok (f w.db), w)

-- A statement that reads.
unfoldable pub query : {A : Type 0} → (Db → A) → M A
unfolding access gets ◌>>=◌
query f = access >> gets f

abbrev pub run_write : Result Db → M (Unit {0})
run_write (ok d) w = (ok tt, record w { db = d })
run_write (err e) w = (err e, w)

unfoldable pub write : (Db → Result Db) → M (Unit {0})
write f w = run_write (f w.db) w

-- A statement that writes; `f` gives the tables after it, or the violated constraint.
unfoldable pub exec : (Db → Result Db) → M (Unit {0})
unfolding access write ◌>>=◌
exec f = access >> write f

unfoldable pub replace : (Db → ℕ) → (Db → Db) → M ℕ
replace rows f w = (ok (rows w.db), record w { db = f w.db })

-- A statement that rewrites rows and breaks no constraint; it returns `RowsAffected`.
unfoldable pub update : (Db → ℕ) → (Db → Db) → M ℕ
unfolding access replace ◌>>=◌
update rows f = access >> replace rows f

abbrev pub commit_at : {A : Type 0} → Option Text → Db → A → World → Result A × World
commit_at none before a w = (ok a, w)
commit_at (some m) before a w = (err (driver m), record w { db = before })

abbrev pub end_transaction : {A : Type 0} → Db → Result A → World → Result A × World
end_transaction before (err e) w = (err e, record w { db = before })
end_transaction before (ok a) w = commit_at (head_fault w.env.faults) before a (take_fault w)

unfoldable pub atomic : {A : Type 0} → M A → M A
atomic body w = end_transaction w.db (body w).0 (body w).1

-- `BeginTx`, `defer tx.Rollback()`, the body, `tx.Commit()`: an error, of the commit too, puts the
-- tables back.
unfoldable pub transaction : {A : Type 0} → M A → M A
unfolding access atomic ◌>>=◌
transaction body = access >> atomic body

abbrev head_step : List ℕ → ℕ
head_step [] = 0
head_step (d ∷ ds) = d

abbrev rest_steps : List ℕ → List ℕ
rest_steps [] = []
rest_steps (d ∷ ds) = ds

-- `time.Now()`: the clock never goes back.
unfoldable pub time_now : M Time
time_now w =
    let t = w.env.now + head_step w.env.steps in
    (ok t, record w { env = record w.env { now = t; steps = rest_steps w.env.steps } })

abbrev draw : List Text → M Text
draw [] w = (err (driver (bytes "generate token")), w)
draw (r ∷ rs) w = (ok r, record w { env = record w.env { entropy = rs } })

-- 32 bytes of crypto/rand, in hex.
unfoldable pub random_hex : M Text
random_hex w = draw w.env.entropy w

unfoldable pub post : Mail → M (Unit {0})
post m w = (ok tt, record w { outbox = m ∷ w.outbox })

-- `sender.Send`
unfoldable pub send : Text → Text → Text → M (Unit {0})
unfolding access post ◌>>=◌
send to subject body = access >> post (record { to = to; subject = subject; body = body })
