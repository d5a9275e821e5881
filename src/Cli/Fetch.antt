-- ===== src/Cli/Fetch.antt =====
-- cmd/krate/cmd_fetch.go: install, search and view. The flags of a command are parsed.
use agentreg.Base.{
  Text, bytes, ◌==◌, leb, not, Option, none, some, List, [], ◌∷◌, ◌++◌, Result, ok, err, driver,
  wrap, if◌then◌else◌,
}
use agentreg.Store.{Time}
use agentreg.Path.{join}
use agentreg.Pack.{default_options}
use agentreg.Pack.Extract.{Fault, next_fault, past_fault, take, call, mkdir_all, extract_reader}
use agentreg.Program.{done, stop, from_result, on_error, finally, reads, ◌>>=◌, ◌>>◌}
use agentreg.Cli.{Ref, parse_ref, ref_key}
use agentreg.Cli.Formats.{em_dash, Formats, LockEntry, Meta, Found, set_package}
use agentreg.Process.{
  C, Reply, unreachable, response, do_request, on_disk, print, remove_all, create_temp, remove_temp,
  time_now,
}
use agentreg.Cli.Wire.{do_json, load_lockfile, save_lockfile, registry_url}

-- `%s/v1/plugins/%s/%s/%s`
unfoldable pub version_url : Text → Text → Text → Text → Text
version_url base scope name version =
    base ++ bytes "/v1/plugins/" ++ scope ++ b'/' ∷ name ++ b'/' ∷ version

abbrev pub version_or_latest : Text → Text
version_or_latest version = if version == [] then bytes "latest" else version

abbrev pub downloaded : Formats → Reply → Result (Text × Option Text)
downloaded f (unreachable m) = err (driver m)
downloaded f (response status body read_error) =
    if leb 300 status
    then err (driver (bytes "download failed: HTTP " ++ f.itoa status))
    else ok (body, read_error)

-- http.Get and the test of the status.
unfoldable pub download : Formats → Text → C (Text × Option Text)
unfolding do_request ◌>>=◌ from_result
download f url = do
  reply ← do_request (record { method = bytes "GET"; url = url; token = []; body = [] })
  from_result (downloaded f reply)

abbrev pub copied_at : Formats → Option Fault → Text → Option Text → C Text
copied_at f (some e) body read_error c =
    (err (driver e.message), record c { temp = some (take e.written body) })
copied_at f none body (some m) c = (err (driver m), record c { temp = some body })
copied_at f none body none c = (ok (f.sha256 body), record c { temp = some body })

-- copyWithChecksum, into the temporary file
unfoldable pub copy_with_checksum : Formats → Text → Option Text → C Text
unfolding take
copy_with_checksum f body read_error c =
    copied_at f (next_fault c.disk) body read_error (record c { disk = past_fault c.disk })

abbrev pub unpack_temp : Formats → Text → Option Text → C (Unit {0})
unpack_temp f dest none = stop (driver (bytes "no such file"))
unpack_temp f dest (some content) = on_disk (extract_reader (f.untar content) dest default_options)

-- pack.Unpack of the temporary file
unfoldable pub unpack : Formats → Text → C (Unit {0})
unfolding on_disk call extract_reader ◌>>=◌ reads stop
unpack f dest = do
  _ ← on_disk (call λ d. d)
  content ← reads (λ c. c.temp)
  unpack_temp f dest content

unfoldable pub place : Formats → Text → C (Unit {0})
unfolding on_disk remove_all mkdir_all unpack on_error ◌>>=◌
place f dest = do
  _ ← on_error (wrap (bytes "remove previous install")) (on_disk (remove_all f.cwd dest))
  _ ← on_disk (mkdir_all dest)
  unpack f dest

abbrev pub lock_entry : Text → Text → Meta → Text → Time → LockEntry
lock_entry base dest meta checksum now = record {
  version = meta.version;
  checksum = checksum;
  registry = base;
  dir = dest;
  installed_at = now;
}

-- From loadLockfile on.
unfoldable pub record_install : Formats → Text → Text → Text → Meta → Text → C (Unit {0})
unfolding load_lockfile save_lockfile set_package time_now on_error ◌>>=◌
record_install f ref base dest meta checksum = do
  lf ← on_error (wrap (bytes "update krate-lock.json")) (load_lockfile f)
  now ← time_now
  on_error (wrap (bytes "update krate-lock.json"))
      (save_lockfile f (set_package ref (lock_entry base dest meta checksum now) lf))

abbrev pub installed_line : Text → Meta → Text → Text → Text
installed_line ref meta dest checksum =
    bytes "Installed "
    ++ ref
    ++ b'@' ∷ meta.version
    ++ bytes " into "
    ++ dest
    ++ bytes " (sha256:"
    ++ checksum
    ++ bytes " verified)"

-- From the download into the temporary file on.
unfoldable pub install_body :
    Formats → Text → Text → Text → Meta → Text × Option Text → C (Unit {0})
unfolding copy_with_checksum place record_install print ◌>>=◌ stop
install_body f ref base dest meta (body, read_error) = do
  checksum ← copy_with_checksum f body read_error
  if not (checksum == meta.checksum) then stop (driver (bytes "checksum mismatch")) else do
    _ ← place f dest
    _ ← print (installed_line ref meta dest checksum)
    record_install f ref base dest meta checksum

unfoldable pub install_dir : Text → Text → Text
unfolding join
install_dir dest_dir name =
    if dest_dir == [] then join (bytes "agent_plugins" ∷ name ∷ []) else dest_dir

unfoldable pub install_ref : Formats → Text → Ref → C (Unit {0})
unfolding registry_url do_json version_url download create_temp remove_temp install_body install_dir
    ref_key on_error finally ◌>>=◌
install_ref f dest_dir r = do
  base ← registry_url f
  meta ← on_error (wrap (bytes "resolve")) (
      do_json f (bytes "GET") (version_url base r.scope r.name (version_or_latest r.version)) [] []
        f.decode_meta)
  body ← download f (version_url base r.scope r.name meta.version ++ bytes "/download")
  _ ← create_temp
  finally remove_temp
      (install_body f (ref_key r.scope r.name) base (install_dir dest_dir r.name) meta body)

unfoldable pub cmd_install : Formats → Text → List Text → C (Unit {0})
unfolding parse_ref install_ref ◌>>=◌ from_result stop
cmd_install f dest_dir (arg ∷ []) = do r ← from_result (parse_ref arg); install_ref f dest_dir r
cmd_install f dest_dir _ = stop (driver (bytes "usage: krate install @scope/name[@version]"))

unfoldable pub result_line : Found → Text
result_line r =
    b'@' ∷ r.scope ++ b'/' ∷ r.name ++ b'@' ∷ r.latest_version ++ em_dash ++ r.description

unfoldable pub print_results : List Found → C (Unit {0})
unfolding result_line print ◌>>=◌ done
print_results [] = done tt
print_results (r ∷ rs) = print (result_line r) >> print_results rs

abbrev pub shown_results : List Found → C (Unit {0})
shown_results [] = print (bytes "No results.")
shown_results (r ∷ rs) = print_results (r ∷ rs)

-- The query is put into the URL as it is.
unfoldable pub cmd_search : Formats → List Text → C (Unit {0})
unfolding registry_url do_json print_results print ◌>>=◌ stop
cmd_search f (q ∷ []) = do
  base ← registry_url f
  results ← do_json f (bytes "GET") (base ++ bytes "/v1/search?q=" ++ q) [] [] f.decode_results
  shown_results results
cmd_search f _ = stop (driver (bytes "usage: krate search <query>"))

unfoldable pub cmd_view : Formats → List Text → C (Unit {0})
unfolding parse_ref registry_url do_json version_url print ◌>>=◌ from_result stop
cmd_view f (arg ∷ []) = do
  r ← from_result (parse_ref arg)
  base ← registry_url f
  text ←
      do_json f (bytes "GET") (version_url base r.scope r.name (version_or_latest r.version)) [] []
        f.indented
  print text
cmd_view f _ = stop (driver (bytes "usage: krate view @scope/name[@version]"))
