-- ===== src/Cli/Publish.antt =====
-- cmd/krate/cmd_publish.go: validating, packing and uploading a directory.
use agentreg.Base.{
  Text, bytes, ◌==◌, ◌||◌, leb, not, List, [], ◌∷◌, ◌++◌, Result, ok, err, driver, wrap,
  if◌then◌else◌,
}
use agentreg.Manifest.{Bundle}
use agentreg.Manifest.Reading.{validate_at}
use agentreg.Program.{stop, from_result, on_error, finally, ◌>>=◌, ◌>>◌}
use agentreg.Process.{
  C, Reply, unreachable, response, do_request, on_disk, print, create_temp, remove_temp,
}
use agentreg.Process.Packing.{pack_temp, open_temp}
use agentreg.Cli.Formats.{Formats, CliConfig}
use agentreg.Cli.Wire.{load_config}

-- The argument, or the working directory.
abbrev pub dir_of : List Text → Text
dir_of [] = bytes "."
dir_of (arg ∷ args) = arg

-- manifest.ValidateDir on the disk
unfoldable pub validated : Formats → Text → C Bundle
unfolding on_disk validate_at
validated f dir = on_disk (validate_at f.validators dir)

unfoldable pub upload_url : CliConfig → Bundle → Text
upload_url cfg b =
    cfg.registry
    ++ bytes "/v1/plugins/"
    ++ cfg.username
    ++ b'/' ∷ b.plugin.name
    ++ b'/' ∷ b.plugin.version

unfoldable pub upload_outcome : Formats → Reply → Result (Unit {0})
upload_outcome f (unreachable m) = err (driver m)
upload_outcome f (response status body e) =
    if not (leb 300 status)
    then ok tt
    else if not (f.first_error body == [])
    then err (
        driver (
          bytes "publish failed: "
          ++ f.first_error body
          ++ bytes " (HTTP "
          ++ f.itoa status
          ++ bytes ")"))
    else err (driver (bytes "publish failed: HTTP " ++ f.itoa status))

unfoldable pub print_published : CliConfig → Bundle → Text → C (Unit {0})
unfolding print ◌>>=◌
print_published cfg b checksum =
    print (
      bytes "Published @"
      ++ cfg.username
      ++ b'/' ∷ b.plugin.name
      ++ b'@' ∷ b.plugin.version
      ++ bytes " (sha256:"
      ++ checksum
      ++ bytes ")")
    >> print
        (bytes "View it: " ++ cfg.registry ++ bytes "/@" ++ cfg.username ++ b'/' ∷ b.plugin.name)

-- From pack.Dir on.
unfoldable pub upload : Formats → CliConfig → Text → Bundle → C (Unit {0})
unfolding pack_temp open_temp upload_url do_request upload_outcome print_published on_error
    from_result ◌>>=◌
upload f cfg dir b = do
  checksum ← on_error (wrap (bytes "pack failed")) (pack_temp f.archiver dir)
  archive ← open_temp
  reply ←
      do_request
        (record { method = bytes "PUT"; url = upload_url cfg b; token = cfg.token; body = archive })
  _ ← from_result (upload_outcome f reply)
  print_published cfg b checksum

unfoldable pub publish_as : Formats → CliConfig → Text → C (Unit {0})
unfolding validated create_temp remove_temp upload on_error finally stop ◌>>=◌ ◌==◌
publish_as f cfg dir =
    if cfg.token == [] || cfg.registry == [] then stop (driver (bytes "not logged in")) else do
      b ← on_error (wrap (bytes "validation failed")) (validated f dir)
      _ ← create_temp
      finally remove_temp (upload f cfg dir b)

unfoldable pub cmd_publish : Formats → List Text → C (Unit {0})
unfolding load_config publish_as ◌>>=◌
cmd_publish f args = do cfg ← load_config f; publish_as f cfg (dir_of args)
