-- ===== src/Sqlite/Tables.antt =====
-- A property of one table is kept by every write to another. What is left is to show that the writes
-- to that table keep it.
use agentreg.Base.{ℕ, Text, List, Result, ok, ◌≡◌, sym, subst, arith}
use agentreg.World.{Db, UserRow, TokenRow, ResetRow, VersionRow}
use agentreg.Sqlite.Users.{insert_user, insert_token, touch_token, set_password}
use agentreg.Sqlite.Recovery.{
  insert_verification, delete_verification, mark_verified, insert_reset, mark_used,
}
use agentreg.Sqlite.Plugins.{
  insert_plugin, insert_keyword, update_plugin, set_published_at, count_download,
}
use agentreg.Sqlite.Stable.{Preserves, PreservesOk, Stable, PublishStable}

-- A write that succeeds leaves a projection of the tables alone.
elsewhere :
    {A : Type 0} (part : Db → A) (Q : A → List (Text × Text) → Type 0) (f : Db → Result Db)
    → ((d d' : Db) → f d ≡ ok d' → part d' ≡ part d)
    → PreservesOk (λ d b. Q (part d) b) f
elsewhere part Q f same d d' b e q = subst (λ x. Q x b) (sym (same d d' e)) q

module _ (Q : List UserRow → List (Text × Text) → Type 0) where
  pub PublishStable-users : PublishStable (λ d b. Q d.users b)
  unfolding insert_plugin insert_keyword update_plugin
  PublishStable-users = record {
    at_insert_plugin = λ p latest at.
        elsewhere (λ d. d.users) Q (insert_plugin p latest at) (λ d d' e. ground arith);
    at_insert_keyword = λ scope name kw d b q. q;
    at_update_plugin = λ p latest at d b q. q;
  }

  pub Stable-users :
      ((username : Text) (email : Text) (hash : Text) (at : ℕ)
        → PreservesOk (λ d b. Q d.users b) (insert_user username email hash at))
      → ((user_id : ℕ) (hash : Text) → Preserves (λ d b. Q d.users b) (set_password user_id hash))
      → ((user_id : ℕ) → Preserves (λ d b. Q d.users b) (mark_verified user_id))
      → Stable (λ d b. Q d.users b)
  unfolding insert_user insert_token touch_token set_password insert_verification
      delete_verification mark_verified insert_reset mark_used set_published_at count_download
  Stable-users k_insert_user k_set_password k_mark_verified = record {
    at_insert_user = k_insert_user;
    at_insert_token = λ user_id hash label at.
        elsewhere (λ d. d.users) Q (insert_token user_id hash label at) (λ d d' e. ground arith);
    at_touch_token = λ hash at d b q. q;
    at_set_password = k_set_password;
    at_insert_verification = λ user_id hash at.
        elsewhere (λ d. d.users) Q (insert_verification user_id hash at) (λ d d' e. ground arith);
    at_delete_verification = λ hash d b q. q;
    at_mark_verified = k_mark_verified;
    at_insert_reset = λ user_id hash at.
        elsewhere (λ d. d.users) Q (insert_reset user_id hash at) (λ d d' e. ground arith);
    at_mark_used = λ hash at d b q. q;
    at_set_published_at = λ scope name version at d b q. q;
    at_count_download = λ scope name version d b q. q;
  }

module _ (Q : List ResetRow → List (Text × Text) → Type 0) where
  pub PublishStable-resets : PublishStable (λ d b. Q d.resets b)
  unfolding insert_plugin insert_keyword update_plugin
  PublishStable-resets = record {
    at_insert_plugin = λ p latest at.
        elsewhere (λ d. d.resets) Q (insert_plugin p latest at) (λ d d' e. ground arith);
    at_insert_keyword = λ scope name kw d b q. q;
    at_update_plugin = λ p latest at d b q. q;
  }

  pub Stable-resets :
      ((user_id : ℕ) (hash : Text) (at : ℕ)
        → PreservesOk (λ d b. Q d.resets b) (insert_reset user_id hash at))
      → ((hash : Text) (at : ℕ) → Preserves (λ d b. Q d.resets b) (mark_used hash at))
      → Stable (λ d b. Q d.resets b)
  unfolding insert_user insert_token touch_token set_password insert_verification
      delete_verification mark_verified insert_reset mark_used set_published_at count_download
  Stable-resets k_insert_reset k_mark_used = record {
    at_insert_user = λ username email hash at.
        elsewhere (λ d. d.resets) Q (insert_user username email hash at) (λ d d' e. ground arith);
    at_insert_token = λ user_id hash label at.
        elsewhere (λ d. d.resets) Q (insert_token user_id hash label at) (λ d d' e. ground arith);
    at_touch_token = λ hash at d b q. q;
    at_set_password = λ user_id hash d b q. q;
    at_insert_verification = λ user_id hash at.
        elsewhere (λ d. d.resets) Q (insert_verification user_id hash at) (λ d d' e. ground arith);
    at_delete_verification = λ hash d b q. q;
    at_mark_verified = λ user_id d b q. q;
    at_insert_reset = k_insert_reset;
    at_mark_used = k_mark_used;
    at_set_published_at = λ scope name version at d b q. q;
    at_count_download = λ scope name version d b q. q;
  }

module _ (Q : List VersionRow → List (Text × Text) → Type 0) where
  pub PublishStable-versions : PublishStable (λ d b. Q d.versions b)
  unfolding insert_plugin insert_keyword update_plugin
  PublishStable-versions = record {
    at_insert_plugin = λ p latest at.
        elsewhere (λ d. d.versions) Q (insert_plugin p latest at) (λ d d' e. ground arith);
    at_insert_keyword = λ scope name kw d b q. q;
    at_update_plugin = λ p latest at d b q. q;
  }

  pub Stable-versions :
      ((scope : Text) (name : Text) (version : Text) (at : ℕ)
        → Preserves (λ d b. Q d.versions b) (set_published_at scope name version at))
      → ((scope : Text) (name : Text) (version : Text)
          → Preserves (λ d b. Q d.versions b) (count_download scope name version))
      → Stable (λ d b. Q d.versions b)
  unfolding insert_user insert_token touch_token set_password insert_verification
      delete_verification mark_verified insert_reset mark_used set_published_at count_download
  Stable-versions k_set_published_at k_count_download = record {
    at_insert_user = λ username email hash at.
        elsewhere (λ d. d.versions) Q (insert_user username email hash at) (λ d d' e. ground arith);
    at_insert_token = λ user_id hash label at.
        elsewhere (λ d. d.versions) Q (insert_token user_id hash label at) (λ d d' e. ground arith);
    at_touch_token = λ hash at d b q. q;
    at_set_password = λ user_id hash d b q. q;
    at_insert_verification = λ user_id hash at.
        elsewhere (λ d. d.versions) Q (insert_verification user_id hash at)
          (λ d d' e. ground arith);
    at_delete_verification = λ hash d b q. q;
    at_mark_verified = λ user_id d b q. q;
    at_insert_reset = λ user_id hash at.
        elsewhere (λ d. d.versions) Q (insert_reset user_id hash at) (λ d d' e. ground arith);
    at_mark_used = λ hash at d b q. q;
    at_set_published_at = k_set_published_at;
    at_count_download = k_count_download;
  }

module _ (Q : List TokenRow → List (Text × Text) → Type 0) where
  pub PublishStable-tokens : PublishStable (λ d b. Q d.tokens b)
  unfolding insert_plugin insert_keyword update_plugin
  PublishStable-tokens = record {
    at_insert_plugin = λ p latest at.
        elsewhere (λ d. d.tokens) Q (insert_plugin p latest at) (λ d d' e. ground arith);
    at_insert_keyword = λ scope name kw d b q. q;
    at_update_plugin = λ p latest at d b q. q;
  }

  pub Stable-tokens :
      ((user_id : ℕ) (hash : Text) (label : Text) (at : ℕ)
        → PreservesOk (λ d b. Q d.tokens b) (insert_token user_id hash label at))
      → ((hash : Text) (at : ℕ) → Preserves (λ d b. Q d.tokens b) (touch_token hash at))
      → Stable (λ d b. Q d.tokens b)
  unfolding insert_user insert_token touch_token set_password insert_verification
      delete_verification mark_verified insert_reset mark_used set_published_at count_download
  Stable-tokens k_insert_token k_touch_token = record {
    at_insert_user = λ username email hash at.
        elsewhere (λ d. d.tokens) Q (insert_user username email hash at) (λ d d' e. ground arith);
    at_insert_token = k_insert_token;
    at_touch_token = k_touch_token;
    at_set_password = λ user_id hash d b q. q;
    at_insert_verification = λ user_id hash at.
        elsewhere (λ d. d.tokens) Q (insert_verification user_id hash at) (λ d d' e. ground arith);
    at_delete_verification = λ hash d b q. q;
    at_mark_verified = λ user_id d b q. q;
    at_insert_reset = λ user_id hash at.
        elsewhere (λ d. d.tokens) Q (insert_reset user_id hash at) (λ d d' e. ground arith);
    at_mark_used = λ hash at d b q. q;
    at_set_published_at = λ scope name version at d b q. q;
    at_count_download = λ scope name version d b q. q;
  }
