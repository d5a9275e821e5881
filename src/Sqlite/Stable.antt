-- ===== src/Sqlite/Stable.antt =====
-- Properties of the tables that every method of the store keeps. A property need only be shown of the
-- single writes.
use agentreg.Base.{
  ℕ, Text, Bool, true, false, Option, none, some, List, [], ◌∷◌, Error, Result, ok, ok-injective,
  ◌≡◌, subst,
}
use agentreg.Store.{Time, NewPlugin, NewVersion}
use agentreg.World.{Db, exec, gets}
use agentreg.World.Keeps.{
  DiskPredicate, Keeps, Keeps-transaction, Keeps-exec, Keeps-update, Keeps-pure, Keeps-fail,
  Keeps-bind, keeps_rules,
}
use agentreg.Sqlite.{row_or}
use agentreg.Sqlite.Users.{
  insert_user, create_user, get_user_by_username, insert_token, create_token, touch_token,
  get_user_by_token_hash, set_password, update_password,
}
use agentreg.Sqlite.Plugins.{
  insert_plugin, insert_keyword, insert_keywords, update_plugin, insert_version, upsert_plugin,
  upsert_plugin_and_version, set_published_at, update_version_published_at, get_plugin, get_version,
  count_download, increment_download_count,
}
use agentreg.Sqlite.Recovery.{
  insert_verification, create_email_verification, delete_verification, mark_verified,
  consume_email_verification, insert_reset, create_password_reset, mark_used,
  consume_password_reset,
}

-- `f` leads from tables with `P` to tables with `P`.
abbrev pub Preserves : DiskPredicate → (Db → Db) → Type 0
Preserves P f = (d : Db) (b : List (Text × Text)) → P d b → P (f d) b

-- The same of a write that can violate a constraint.
abbrev pub PreservesOk : DiskPredicate → (Db → Result Db) → Type 0
PreservesOk P f = (d d' : Db) (b : List (Text × Text)) → f d ≡ ok d' → P d b → P d' b

pub record Stable (P : DiskPredicate) : Type 0 where
  pub at_insert_user :
      (username email hash : Text) (at : ℕ) → PreservesOk P (insert_user username email hash at)
  pub at_insert_token :
      (user_id : ℕ) (hash label : Text) (at : ℕ)
      → PreservesOk P (insert_token user_id hash label at)
  pub at_touch_token : (hash : Text) (at : ℕ) → Preserves P (touch_token hash at)
  pub at_set_password : (user_id : ℕ) (hash : Text) → Preserves P (set_password user_id hash)
  pub at_insert_verification :
      (user_id : ℕ) (hash : Text) (at : ℕ) → PreservesOk P (insert_verification user_id hash at)
  pub at_delete_verification : (hash : Text) → Preserves P (delete_verification hash)
  pub at_mark_verified : (user_id : ℕ) → Preserves P (mark_verified user_id)
  pub at_insert_reset :
      (user_id : ℕ) (hash : Text) (at : ℕ) → PreservesOk P (insert_reset user_id hash at)
  pub at_mark_used : (hash : Text) (at : ℕ) → Preserves P (mark_used hash at)
  pub at_set_published_at :
      (scope name version : Text) (at : ℕ) → Preserves P (set_published_at scope name version at)
  pub at_count_download :
      (scope name version : Text) → Preserves P (count_download scope name version)

module _ {P : DiskPredicate} where
  pub Keeps-row_or : {A : Type 0} (e : Error) (o : Option A) → Keeps P (row_or e o)
  unfolding row_or
  Keeps-row_or e none = Keeps-fail e
  Keeps-row_or e (some a) = Keeps-pure a

  pub Keeps-write : (f : Db → Db) → Preserves P f → Keeps P (exec (λ d. ok (f d)))
  Keeps-write f k =
      Keeps-exec (λ d. ok (f d)) (λ d d' b e h. subst (λ x. P x b) (ok-injective e) (k d b h))

  pub Keeps-gets : {A : Type 0} (f : Db → A) → Keeps P (gets f)
  unfolding gets
  Keeps-gets f = record { at = λ w h. h }

ruleset store_rules = (keeps_rules, Keeps-row_or, Keeps-gets, Keeps-write, Keeps-exec, Keeps-update)

module _ {P : DiskPredicate} (s : Stable P) where
  pub Keeps-create_user : (u e h : Text) → Keeps P (create_user u e h)
  unfolding create_user
  Keeps-create_user u e h = search (store_rules, s.at_insert_user)

  pub Keeps-create_token : (id : ℕ) (h l : Text) → Keeps P (create_token id h l)
  unfolding create_token
  Keeps-create_token id h l = search (store_rules, s.at_insert_token)

  pub Keeps-get_user_by_token_hash : (h : Text) → Keeps P (get_user_by_token_hash h)
  unfolding get_user_by_token_hash
  Keeps-get_user_by_token_hash h = search (store_rules, s.at_touch_token) depth 12

  pub Keeps-update_password : (id : ℕ) (h : Text) → Keeps P (update_password id h)
  unfolding update_password
  Keeps-update_password id h = search (store_rules, s.at_set_password)

  pub Keeps-create_email_verification :
      (id : ℕ) (h : Text) (t : Time) → Keeps P (create_email_verification id h t)
  unfolding create_email_verification
  Keeps-create_email_verification id h t = search (store_rules, s.at_insert_verification)

  pub Keeps-consume_email_verification : (h : Text) → Keeps P (consume_email_verification h)
  unfolding consume_email_verification
  Keeps-consume_email_verification h =
      Keeps-transaction _
        (search (store_rules, s.at_delete_verification, s.at_mark_verified) depth 12)
        (λ d. search store_rules depth 12)

  pub Keeps-create_password_reset :
      (id : ℕ) (h : Text) (t : Time) → Keeps P (create_password_reset id h t)
  unfolding create_password_reset
  Keeps-create_password_reset id h t = search (store_rules, s.at_insert_reset)

  pub Keeps-consume_password_reset : (h : Text) → Keeps P (consume_password_reset h)
  unfolding consume_password_reset
  Keeps-consume_password_reset h =
      Keeps-transaction _ (search (store_rules, s.at_mark_used) depth 14)
        (λ d. search store_rules depth 14)

  pub Keeps-update_version_published_at :
      (scope name version : Text) (t : Time)
      → Keeps P (update_version_published_at scope name version t)
  unfolding update_version_published_at
  Keeps-update_version_published_at scope name version t =
      search (store_rules, s.at_set_published_at)

  pub Keeps-increment_download_count :
      (scope name version : Text) → Keeps P (increment_download_count scope name version)
  unfolding increment_download_count
  Keeps-increment_download_count scope name version = search (store_rules, s.at_count_download)

-- The methods that only read.
module _ {P : DiskPredicate} where
  pub Keeps-get_user_by_username : (u : Text) → Keeps P (get_user_by_username u)
  unfolding get_user_by_username
  Keeps-get_user_by_username u = search store_rules

  pub Keeps-get_plugin : (scope name : Text) → Keeps P (get_plugin scope name)
  unfolding get_plugin
  Keeps-get_plugin scope name = search store_rules

  pub Keeps-get_version : (scope name version : Text) → Keeps P (get_version scope name version)
  unfolding get_version
  Keeps-get_version scope name version = search store_rules

-- The writes of a publish to other tables than that of the versions.
pub record PublishStable (P : DiskPredicate) : Type 0 where
  pub at_insert_plugin :
      (p : NewPlugin) (latest : Text) (at : ℕ) → PreservesOk P (insert_plugin p latest at)
  pub at_insert_keyword : (scope name kw : Text) → Preserves P (insert_keyword scope name kw)
  pub at_update_plugin :
      (p : NewPlugin) (latest : Text) (at : ℕ) → Preserves P (update_plugin p latest at)

module _ {P : DiskPredicate} (s : PublishStable P) where
  Keeps-insert_keywords :
      (scope name : Text) (kws : List Text) → Keeps P (insert_keywords scope name kws)
  unfolding insert_keywords
  Keeps-insert_keywords scope name [] = Keeps-pure tt
  Keeps-insert_keywords scope name (kw ∷ kws) =
      Keeps-bind _ _
        (Keeps-write (insert_keyword scope name kw) (s.at_insert_keyword scope name kw))
        (λ _. Keeps-insert_keywords scope name kws)

  pub Keeps-upsert_plugin :
      (p : NewPlugin) (latest : Text) (at : ℕ) (b : Bool) → Keeps P (upsert_plugin p latest at b)
  unfolding upsert_plugin
  Keeps-upsert_plugin p latest at true = search (store_rules, s.at_update_plugin)
  Keeps-upsert_plugin p latest at false =
      search (store_rules, s.at_insert_plugin, Keeps-insert_keywords)

module _ (R : List (Text × Text) → Type 0) where
  settled : PublishStable (λ _ b. R b)
  settled = record {
    at_insert_plugin = λ p latest at d d' b e h. h;
    at_insert_keyword = λ scope name kw d b h. h;
    at_update_plugin = λ p latest at d b h. h;
  }

module _ {P : DiskPredicate} (s : PublishStable P) (p : NewPlugin) (v : NewVersion) where
  pub Keeps-upsert_plugin_and_version :
      ((at : ℕ) → PreservesOk P (insert_version v at)) → Keeps P (upsert_plugin_and_version p v)
  unfolding upsert_plugin_and_version
  Keeps-upsert_plugin_and_version at_insert_version =
      Keeps-transaction _ (search (store_rules, Keeps-upsert_plugin s, at_insert_version) depth 12)
        (λ d. search (store_rules, Keeps-upsert_plugin (settled (P d))) depth 12)
