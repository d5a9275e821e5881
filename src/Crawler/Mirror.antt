-- ===== src/Crawler/Mirror.antt =====
-- internal/crawler/publish.go: mirroring a plugin into a registry.
use agentreg.Base.{
  Text, bytes, eqb, leb, Bool, [], ◌∷◌, ◌++◌, Result, ok, err, driver, wrap, conflict, Error,
  if◌then◌else◌,
}
use agentreg.Path.{slash}
use agentreg.Store.{Time}
use agentreg.Pack.Extract.{take}
use agentreg.Program.{from_result, on_error, finally, ◌>>=◌}
use agentreg.Process.{C, Reply, unreachable, response, do_request, create_temp, remove_temp}
use agentreg.Process.Packing.{pack_temp, open_temp}
use agentreg.Crawler.{trim_right}
use agentreg.Crawler.Github.{Tools, get}

pub record PublishConfig : Type 0 where
  pub registry_url : Text
  pub scope : Text
  pub token : Text

-- errAlreadyPublished
abbrev pub already_published : Error
already_published = conflict

unfoldable pub mirror_url : PublishConfig → Text → Text → Text
unfolding trim_right
mirror_url cfg name version =
    trim_right cfg.registry_url
    ++ bytes "/v1/plugins/"
    ++ cfg.scope
    ++ slash ∷ name
    ++ slash ∷ version

abbrev pub is_there : Reply → Result Bool
is_there (unreachable m) = err (driver m)
is_there (response status body e) = ok (eqb status 200)

unfoldable pub version_already_published : PublishConfig → Text → Text → C Bool
unfolding mirror_url do_request ◌>>=◌ from_result
version_already_published cfg name version = do
  reply ← do_request (get (mirror_url cfg name version))
  from_result (is_there reply)

-- The date is sent unless it is the zero time.
abbrev pub date_query : Tools → Time → Text
date_query t published_at =
    if eqb published_at 0
    then []
    else bytes "?published_at=" ++ t.query_escape (t.rfc3339 published_at)

unfoldable pub publish_outcome : Tools → Reply → Result (Unit {0})
unfolding take
publish_outcome t (unreachable m) = err (driver m)
publish_outcome t (response status body e) =
    if eqb status 409
    then err already_published
    else if leb 300 status
    then err (
        driver (
          bytes "publish failed: HTTP "
          ++ t.itoa status
          ++ bytes ": "
          ++ t.trim_space (take 4096 body)))
    else ok tt

unfoldable pub send_archive : Tools → PublishConfig → Text → Text → Text → Time → C (Unit {0})
unfolding pack_temp open_temp mirror_url do_request publish_outcome on_error ◌>>=◌ from_result
send_archive t cfg dir name version published_at = do
  _ ← on_error (wrap (bytes "pack")) (pack_temp t.archiver dir)
  archive ← open_temp
  reply ← do_request (record {
    method = bytes "PUT";
    url = mirror_url cfg name version ++ date_query t published_at;
    token = cfg.token;
    body = archive;
  })
  from_result (publish_outcome t reply)

unfoldable pub publish_to_registry :
    Tools → PublishConfig → Text → Text → Text → Time → C (Unit {0})
unfolding create_temp remove_temp send_archive finally ◌>>=◌
publish_to_registry t cfg dir name version published_at = do
  _ ← create_temp
  finally remove_temp (send_archive t cfg dir name version published_at)
