-- ===== src/Api/Plugins.antt =====
-- internal/api/plugins.go and internal/api/middleware/auth.go: the handlers for plugins, and who may
-- reach them. Logging is left out. A handler never fails: errors are replies.
use agentreg.Base.{
  ℕ, Text, bytes, Bool, true, false, Option, none, some, List, ◌++◌, map, Error, Result, ok, err,
  not_found, conflict, forbidden, invalid_input, wrap, if◌then◌else◌,
}
use agentreg.Store.{Time, User, Version}
use agentreg.Store
use agentreg.World.{M, ◌>>=◌, ◌>>◌, pure, attempt, ignore}
use agentreg.Manifest.{Bundle}
use agentreg.Api.Receive.{
  Upload, Refusal, internal, told, failed, Received, refused, received, receive,
}
use agentreg.Sqlite.Plugins.{get_plugin, list_versions, increment_download_count}
use agentreg.Registry.{
  Registry, PublishInput, publish, admin_set_published_at, resolve_version, open_tarball,
}

pub data Content : Type 0 where
  error_body : Text → Content
  error_of : Error → Content
  published : Version → Content
  backfilled : Version → Content
  plugin_view : Store.Plugin → List Text → Content
  version_view : Version → Text → Content
  tarball : Text → Text → Text → Content

pub record Reply : Type 0 where
  pub status : ℕ
  pub content : Content

abbrev pub reply : ℕ → Content → Reply
reply status content = record { status = status; content = content }

abbrev pub server_error : Reply
server_error = reply 500 (error_body (bytes "internal error"))

-- Unwraps to ErrInvalidInput.
unfoldable pub is_invalid_input : Error → Bool
is_invalid_input invalid_input = true
is_invalid_input (wrap m e) = is_invalid_input e
is_invalid_input e = false

unfoldable pub invalid_or_internal : Error → Reply
unfolding is_invalid_input
invalid_or_internal e = if is_invalid_input e then reply 422 (error_of e) else server_error

-- `switch err` compares with `==`, so a wrapped sentinel is not found here.
unfoldable pub write_publish_error : Error → Reply
unfolding invalid_or_internal
write_publish_error forbidden = reply 403 (error_of forbidden)
write_publish_error conflict = reply 409 (
    error_body (bytes "this scope/name/version has already been published; versions are immutable"))
write_publish_error e = invalid_or_internal e

unfoldable pub write_store_error : Error → Reply
write_store_error not_found = reply 404 (error_body (bytes "not found"))
write_store_error e = server_error

unfoldable pub published_reply : Result Version → Reply
unfolding write_publish_error
published_reply (ok v) = reply 201 (published v)
published_reply (err e) = write_publish_error e

abbrev pub publish_input : User → Text → Text → Text → Time → Text → Bundle → PublishInput
publish_input user scope name version published_at content bundle = record {
  scope = scope;
  name = name;
  version = version;
  tarball = content;
  bundle = bundle;
  requestor = user.username;
  published_at = published_at;
}

unfoldable pub refusal_reply : Refusal → Reply
refusal_reply internal = server_error
refusal_reply (told status m) = reply status (error_body m)
refusal_reply (failed status e) = reply status (error_of e)

module _ (r : Registry) where
  unfoldable pub publish_bundle : PublishInput → M Reply
  publish_bundle i = do outcome ← attempt (publish r i); pure (published_reply outcome)

  unfoldable pub publish_received :
      User → Text → Text → Text → Time → Received (Bundle × Text) → M Reply
  publish_received user scope name version at (refused x) = pure (refusal_reply x)
  publish_received user scope name version at (received (bundle, content)) =
      publish_bundle (publish_input user scope name version at content bundle)

  -- `published_at` is `none` without the parameter, and `some none` when it does not parse; without it the date
  -- is the zero time.
  unfoldable pub publish_dated : User → Text → Text → Text → Upload → Option (Option Time) → M Reply
  unfolding receive
  publish_dated user scope name version u (some none) =
      pure
        (reply 400 (error_body (bytes "published_at must be RFC3339, e.g. 2024-01-15T09:00:00Z")))
  publish_dated user scope name version u (some (some t)) =
      publish_received user scope name version t (receive u u.disk).0
  publish_dated user scope name version u none =
      publish_received user scope name version 0 (receive u u.disk).0

  unfoldable pub handle_publish :
      Option User → Text → Text → Text → Option (Option Time) → Upload → M Reply
  handle_publish none scope name version date u =
      pure (reply 401 (error_body (bytes "authentication required")))
  handle_publish (some user) scope name version date u =
      publish_dated user scope name version u date

unfoldable pub backfill_error : Error → Reply
unfolding invalid_or_internal
backfill_error not_found = reply 404 (error_body (bytes "no such scope/name/version"))
backfill_error e = invalid_or_internal e

unfoldable pub backfilled_reply : Result Version → Reply
backfilled_reply (ok v) = reply 200 (backfilled v)
backfilled_reply (err e) = server_error

unfoldable pub backfill_outcome : Text → Text → Text → Result (Unit {0}) → M Reply
backfill_outcome scope name version (err e) = pure (backfill_error e)
backfill_outcome scope name version (ok done) = do
  v ← attempt (resolve_version scope name version)
  pure (backfilled_reply v)

-- `none` when decodeJSONBody has written the 400.
unfoldable pub handle_admin_set_published_at : Text → Text → Text → Option Time → M Reply
handle_admin_set_published_at scope name version none =
    pure (reply 400 (error_body (bytes "invalid or oversized JSON body")))
handle_admin_set_published_at scope name version (some t) = do
  outcome ← attempt (admin_set_published_at scope name version t)
  backfill_outcome scope name version outcome

unfoldable pub plugin_reply : Store.Plugin → Result (List Version) → Reply
plugin_reply p (err e) = server_error
plugin_reply p (ok versions) = reply 200 (plugin_view p (map (λ v. v.version) versions))

unfoldable pub found_plugin : Text → Text → Result Store.Plugin → M Reply
found_plugin scope name (err e) = pure (write_store_error e)
found_plugin scope name (ok p) = do
  versions ← attempt (list_versions scope name)
  pure (plugin_reply p versions)

unfoldable pub handle_get_plugin : Text → Text → M Reply
handle_get_plugin scope name = do p ← attempt (get_plugin scope name); found_plugin scope name p

unfoldable pub version_reply : Text → Text → Result Version → Reply
version_reply scope name (err e) = write_store_error e
version_reply scope name (ok v) = reply 200 (
    version_view v (
      bytes "/v1/plugins/"
      ++ scope
      ++ bytes "/"
      ++ name
      ++ bytes "/"
      ++ v.version
      ++ bytes "/download"))

unfoldable pub handle_get_version : Text → Text → Text → M Reply
handle_get_version scope name version = do
  v ← attempt (resolve_version scope name version)
  pure (version_reply scope name v)

module _ (r : Registry) where
  unfoldable pub serve : Text → Text → Version → Result Text → M Reply
  serve scope name v (err e) = pure (write_store_error e)
  serve scope name v (ok content) = do
    ignore (increment_download_count scope name v.version)
    pure
        (reply 200 (tarball v.checksum (name ++ bytes "-" ++ v.version ++ bytes ".tar.gz") content))

  unfoldable pub download_version : Text → Text → Result Version → M Reply
  download_version scope name (err e) = pure (write_store_error e)
  download_version scope name (ok v) = do
    content ← attempt (open_tarball r scope name v.version)
    serve scope name v content

  unfoldable pub handle_download : Text → Text → Text → M Reply
  handle_download scope name version = do
    v ← attempt (resolve_version scope name version)
    download_version scope name v
