-- ===== src/Registry.antt =====
-- internal/registry/registry.go: the business rules, over the metadata store and the blob store.
pub mod History
pub mod Immutable
pub mod OneTime
pub mod Published
pub mod Integrity
use agentreg.Base.{
  ℕ, ◌+◌, ◌*◌, Text, bytes, ◌==◌, ltb, not, ◌||◌, Option, none, some, [], ◌∷◌, ◌++◌, Error, Result,
  ok, err, not_found, conflict, forbidden, invalid_input, driver, wrap, if◌then◌else◌,
}
use agentreg.Store.{Time, second, is_zero, User, Token, Version, NewPlugin, NewVersion}
use agentreg.World.{M, pure, fail, map_error, attempt, ◌>>=◌, ◌>>◌, time_now, random_hex, send}
use agentreg.Sqlite.{error_text}
use agentreg.Sqlite.Users.{
  create_user, get_user_by_username, create_token, get_user_by_token_hash, update_password,
}
use agentreg.Sqlite.Plugins.{
  upsert_plugin_and_version, update_version_published_at, get_plugin, get_version,
}
use agentreg.Sqlite.Recovery.{
  create_email_verification, consume_email_verification, create_password_reset,
  consume_password_reset,
}
use agentreg.Fsblob
use agentreg.Manifest.{Bundle}
use agentreg.Manifest
use agentreg.External.{External}

abbrev pub email_verification_ttl : ℕ
email_verification_ttl = 24 * 3600 * second

abbrev pub password_reset_ttl : ℕ
password_reset_ttl = 3600 * second

abbrev blank_line : Text
blank_line = 10 ∷ 10 ∷ []

pub record Registry : Type 0 where
  pub blob_root : Text
  pub external : External
  pub open external use *

pub record PublishInput : Type 0 where
  pub scope : Text
  pub name : Text
  pub version : Text
  pub tarball : Text
  pub bundle : Bundle
  pub requestor : Text
  pub published_at : Time

-- fmt.Errorf("%w: …", ErrInvalidInput, …); the arguments in the message are left out.
abbrev pub invalid : Text → Error
invalid m = wrap (bytes "invalid input: " ++ m) invalid_input

unfoldable pub not_in_future : Time → M (Unit {0})
not_in_future published_at = do
  now ← time_now
  if ltb now published_at then fail (invalid (bytes "published_at is in the future")) else pure tt

-- What the check for an existing version makes of GetVersion's outcome.
unfoldable pub must_be_missing : Result Version → M (Unit {0})
must_be_missing (ok v) = fail conflict
must_be_missing (err not_found) = pure tt
must_be_missing (err e) = fail e

unfoldable pub marshalled : Option Text → M Text
marshalled (some json) = pure json
marshalled none = fail (wrap (bytes "marshal manifest: ") (driver (bytes "json")))

unfoldable pub new_plugin : PublishInput → NewPlugin
new_plugin i = record {
  scope = i.scope;
  name = i.name;
  description = p.description;
  homepage = p.homepage;
  repository = p.repository;
  license = p.license;
  keywords = p.keywords;
}
  where
    p : Manifest.Plugin
    p = i.bundle.plugin

unfoldable pub new_version : PublishInput → Text → Text → NewVersion
new_version i checksum json = record {
  scope = i.scope;
  name = i.name;
  version = i.version;
  checksum = checksum;
  manifest_json = json;
  published_at = i.published_at;
}

module _ (r : Registry) where
  -- From the check for an existing version on.
  unfoldable pub store_version : PublishInput → M Version
  store_version i = do
    existing ← attempt (get_version i.scope i.name i.version)
    must_be_missing existing
    (checksum, size) ←
        map_error (λ e. wrap (bytes "store tarball: " ++ error_text e) e)
          (Fsblob.put r.sha256 r.blob_root i.scope i.name i.version i.tarball)
    json ← marshalled (r.marshal i.bundle.plugin)
    upsert_plugin_and_version (new_plugin i) (new_version i checksum json)
    get_version i.scope i.name i.version

  unfoldable pub publish : PublishInput → M Version
  publish i =
      if not (i.requestor == i.scope)
      then fail forbidden
      else if not (i.bundle.plugin.name == i.name)
      then fail (invalid (bytes "plugin.json name does not match URL name"))
      else if not (i.bundle.plugin.version == i.version)
      then fail (invalid (bytes "plugin.json version does not match URL version"))
      else if not (r.semver_is_valid (bytes "v" ++ i.version))
      then fail (invalid (bytes "version is not valid semver"))
      else ((if is_zero i.published_at then pure tt else not_in_future i.published_at)
          >> store_version i)

unfoldable pub admin_set_published_at : Text → Text → Text → Time → M (Unit {0})
admin_set_published_at scope name version published_at =
    if is_zero published_at
    then fail (invalid (bytes "published_at is required"))
    else (not_in_future published_at >> update_version_published_at scope name version published_at)

-- `""` and `"latest"` stand for the plugin's latest version.
unfoldable pub resolve_version : Text → Text → Text → M Version
resolve_version scope name version =
    if version == [] || version == bytes "latest"
    then (do p ← get_plugin scope name; get_version scope name p.latest_version)
    else get_version scope name version

module _ (r : Registry) where
  unfoldable pub open_tarball : Text → Text → Text → M Text
  open_tarball scope name version = Fsblob.open_blob r.blob_root scope name version

  unfoldable pub request_email_verification : User → M (Unit {0})
  request_email_verification user = do
    token ← random_hex
    now ← time_now
    create_email_verification user.id (r.sha256 token) (now + email_verification_ttl)
    send user.email (bytes "Verify your KrateAI account") (
        bytes "Confirm your KrateAI account:"
        ++ blank_line
        ++ bytes "  krate verify-email "
        ++ token
        ++ blank_line
        ++ bytes "This link expires in 24 hours.")

  unfoldable pub confirm_email_verification : Text → M (Unit {0})
  confirm_email_verification token = do consume_email_verification (r.sha256 token); pure tt

  unfoldable pub send_reset : User → M (Unit {0})
  send_reset user = do
    token ← random_hex
    now ← time_now
    create_password_reset user.id (r.sha256 token) (now + password_reset_ttl)
    send user.email (bytes "Reset your KrateAI password") (
        bytes "Reset your KrateAI password:"
        ++ blank_line
        ++ bytes "  krate reset-password --token "
        ++ token
        ++ blank_line
        ++ bytes "This link expires in 1 hour. If you didn't request this, ignore this message.")

  -- What the request makes of the look-up of its user: an unknown name is no error.
  unfoldable pub reset_for : Result User → M (Unit {0})
  reset_for (ok user) = send_reset user
  reset_for (err not_found) = pure tt
  reset_for (err e) = fail e

  unfoldable pub request_password_reset : Text → M (Unit {0})
  request_password_reset username = do
    found ← attempt (get_user_by_username username)
    reset_for found

  unfoldable pub confirm_password_reset : Text → Text → M (Unit {0})
  confirm_password_reset token new_password_hash = do
    user_id ← consume_password_reset (r.sha256 token)
    update_password user_id new_password_hash

unfoldable pub signup : Text → Text → Text → M User
signup = create_user

unfoldable pub issue_token : ℕ → Text → Text → M Token
issue_token = create_token

unfoldable pub authenticate : Text → M User
authenticate = get_user_by_token_hash
