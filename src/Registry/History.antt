-- ===== src/Registry/History.antt =====
-- Any sequence of calls of the registry, each served from the state that the one before left, whether
-- it succeeded or failed.
use agentreg.Base.{
  ℕ, Text, Option, none, some, List, [], ◌∷◌, Result, ok, err, not_found, ◌≡◌, refl,
}
use agentreg.Store.{Time, User, Version, NewVersion}
use agentreg.World.{Db, World, M, ignore}
use agentreg.World.Keeps.{DiskPredicate, Keeps, Keeps-access, Keeps-pure, Keeps-fail, keeps_rules}
use agentreg.Fsblob.{put, link, link_at, lookup_blob}
use agentreg.Sqlite.Plugins.{insert_version, increment_download_count}
use agentreg.Sqlite.Stable.{
  Stable, PublishStable, PreservesOk, Keeps-upsert_plugin_and_version, Keeps-create_user,
  Keeps-create_token, Keeps-get_user_by_token_hash, Keeps-update_password,
  Keeps-create_email_verification, Keeps-consume_email_verification, Keeps-create_password_reset,
  Keeps-consume_password_reset, Keeps-update_version_published_at, Keeps-increment_download_count,
  Keeps-get_user_by_username, Keeps-get_version,
}
use agentreg.Registry.{
  Registry, PublishInput, publish, store_version, new_plugin, must_be_missing, marshalled,
  not_in_future, admin_set_published_at, request_email_verification, confirm_email_verification,
  send_reset, reset_for, request_password_reset, confirm_password_reset, signup, issue_token,
  authenticate,
}

-- The calls that can change the state.
pub data Call : Type 0 where
  publishes : PublishInput → Call
  sets_published_at : Text → Text → Text → Time → Call
  signs_up : Text → Text → Text → Call
  issues_token : ℕ → Text → Text → Call
  authenticates : Text → Call
  requests_verification : User → Call
  confirms_verification : Text → Call
  requests_reset : Text → Call
  confirms_reset : Text → Text → Call
  downloads : Text → Text → Text → Call

unfoldable pub perform : Registry → Call → M (Unit {0})
perform r (publishes i) = ignore (publish r i)
perform r (sets_published_at scope name version t) =
    ignore (admin_set_published_at scope name version t)
perform r (signs_up username email hash) = ignore (signup username email hash)
perform r (issues_token user_id hash label) = ignore (issue_token user_id hash label)
perform r (authenticates hash) = ignore (authenticate hash)
perform r (requests_verification user) = ignore (request_email_verification r user)
perform r (confirms_verification token) = ignore (confirm_email_verification r token)
perform r (requests_reset username) = ignore (request_password_reset r username)
perform r (confirms_reset token hash) = ignore (confirm_password_reset r token hash)
perform r (downloads scope name version) = ignore (increment_download_count scope name version)

unfoldable pub run : Registry → List Call → World → World
run r [] w = w
run r (c ∷ cs) w = run r cs (perform r c w).1

-- A new blob, at a path that had none, leaves `P` true.
abbrev pub Grows : DiskPredicate → Type 0
Grows P =
    (d : Db) (b : List (Text × Text)) (target content : Text)
    → lookup_blob target b ≡ none
    → P d b
    → P d ((target, content) ∷ b)

module _ {P : DiskPredicate} (g : Grows P) where
  link_at-keeps :
      (o : Option Text) (target content : Text) (w : World)
      → lookup_blob target w.blobs ≡ o
      → P w.db w.blobs
      → P (link_at o target content w).1.db (link_at o target content w).1.blobs
  link_at-keeps none target content w e h = g w.db w.blobs target content e h
  link_at-keeps (some old) target content w e h = h

  Keeps-link : (target content : Text) → Keeps P (link target content)
  unfolding link
  Keeps-link target content = record {
    at = λ w h. link_at-keeps (lookup_blob target w.blobs) target content w refl h;
  }

  pub Keeps-put :
      (sha256 : Text → Text) (root scope name version content : Text)
      → Keeps P (put sha256 root scope name version content)
  unfolding put
  Keeps-put sha256 root scope name version content =
      search (keeps_rules, Keeps-access, Keeps-link) depth 16

module _ {P : DiskPredicate} where
  pub Keeps-must_be_missing : (o : Result Version) → Keeps P (must_be_missing o)
  unfolding must_be_missing
  Keeps-must_be_missing (ok v) = Keeps-fail _
  Keeps-must_be_missing (err not_found) = Keeps-pure _
  Keeps-must_be_missing (err e) = Keeps-fail _

  pub Keeps-marshalled : (o : Option Text) → Keeps P (marshalled o)
  unfolding marshalled
  Keeps-marshalled none = Keeps-fail _
  Keeps-marshalled (some json) = Keeps-pure _

  pub Keeps-not_in_future : (t : Time) → Keeps P (not_in_future t)
  unfolding not_in_future
  Keeps-not_in_future t = search keeps_rules

pub ruleset registry_rules = (
  keeps_rules, Keeps-must_be_missing, Keeps-marshalled, Keeps-not_in_future, Keeps-get_version,
  Keeps-get_user_by_username,
)

module _ (r : Registry) {P : DiskPredicate} where
  -- From the rest of a publish to the whole.
  pub Keeps-publish-store : (i : PublishInput) → Keeps P (store_version r i) → Keeps P (publish r i)
  unfolding publish
  Keeps-publish-store i k = search registry_rules depth 10

  pub Keeps-publish :
      PublishStable P
      → ((v : NewVersion) (at : ℕ) → PreservesOk P (insert_version v at))
      → Grows P
      → (i : PublishInput) → Keeps P (publish r i)
  unfolding store_version
  Keeps-publish s k g i = Keeps-publish-store i (
      search (registry_rules, Keeps-put g, Keeps-upsert_plugin_and_version s (new_plugin i), k)
        depth 16)

module _ (r : Registry) {P : DiskPredicate} (s : Stable P) where
  Keeps-send_reset : (u : User) → Keeps P (send_reset r u)
  unfolding send_reset
  Keeps-send_reset u = search (registry_rules, Keeps-create_password_reset s) depth 10

  Keeps-reset_for : (o : Result User) → Keeps P (reset_for r o)
  unfolding reset_for
  Keeps-reset_for (ok user) = Keeps-send_reset user
  Keeps-reset_for (err not_found) = Keeps-pure _
  Keeps-reset_for (err e) = Keeps-fail _

  pub Keeps-perform :
      ((i : PublishInput) → Keeps P (publish r i)) → (c : Call) → Keeps P (perform r c)
  unfolding perform admin_set_published_at signup issue_token authenticate
      request_email_verification confirm_email_verification request_password_reset
      confirm_password_reset
  Keeps-perform k (publishes i) = search (keeps_rules, k)
  Keeps-perform k (sets_published_at scope name version t) =
      search (registry_rules, Keeps-update_version_published_at s) depth 8
  Keeps-perform k (signs_up username email hash) = search (keeps_rules, Keeps-create_user s)
  Keeps-perform k (issues_token user_id hash label) = search (keeps_rules, Keeps-create_token s)
  Keeps-perform k (authenticates hash) = search (keeps_rules, Keeps-get_user_by_token_hash s)
  Keeps-perform k (requests_verification user) =
      search (keeps_rules, Keeps-create_email_verification s) depth 10
  Keeps-perform k (confirms_verification token) =
      search (keeps_rules, Keeps-consume_email_verification s) depth 8
  Keeps-perform k (requests_reset username) = search (registry_rules, Keeps-reset_for) depth 8
  Keeps-perform k (confirms_reset token hash) =
      search (keeps_rules, Keeps-consume_password_reset s, Keeps-update_password s) depth 8
  Keeps-perform k (downloads scope name version) =
      search (keeps_rules, Keeps-increment_download_count s)

  -- A property that each write keeps holds after any history.
  pub run-keeps :
      ((i : PublishInput) → Keeps P (publish r i))
      → (cs : List Call) (w : World) → P w.db w.blobs
      → P (run r cs w).db (run r cs w).blobs
  unfolding run
  run-keeps k [] w h = h
  run-keeps k (c ∷ cs) w h = run-keeps k cs (perform r c w).1 ((Keeps-perform k c).at w h)
