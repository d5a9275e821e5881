-- ===== src/Cli/Wire.antt =====
-- cmd/krate: doJSON of client.go, config.go and lockfile.go.
use agentreg.Base.{
  ℕ, Text, bytes, ◌==◌, leb, not, Option, none, some, [], ◌∷◌, ◌++◌, Result, ok, err, driver, Error,
  if◌then◌else◌,
}
use agentreg.Path.{join, dir}
use agentreg.Pack.Extract.{mkdir_all}
use agentreg.Program.{done, stop, from_result, or_stop, reads, ◌>>=◌}
use agentreg.Cli.Formats.{Formats, Lockfile, CliConfig}
use agentreg.Process.{C, Reply, unreachable, response, do_request, on_disk, read_file, write_file}

module _ (f : Formats) where
  -- The error of an answer with a status of 300 or more.
  unfoldable pub status_error : ℕ → Text → Error
  status_error status body =
      let plain = driver (bytes "HTTP " ++ f.itoa status ++ bytes ": " ++ body) in
      elim (f.decode_error body) [
        | none ↦ plain
        | some m ↦
            if not (m == [])
            then driver (m ++ bytes " (HTTP " ++ f.itoa status ++ bytes ")")
            else plain
      ]

  -- The first JSON value of the answer's body.
  unfoldable pub decoded_body : {A : Type 0} → (Text → Option A) → Reply → Result A
  unfolding status_error
  decoded_body decode (unreachable m) = err (driver m)
  decoded_body decode (response status body read_error) =
      if leb 300 status
      then err (status_error status body)
      else elim (decode body) [ none ↦ err (driver (bytes "json")) | some a ↦ ok a ]

unfoldable pub do_json :
    {A : Type 0} → Formats → Text → Text → Text → Text → (Text → Option A) → C A
unfolding decoded_body do_request ◌>>=◌ from_result
do_json f method url token body decode = do
  reply ← do_request (record { method = method; url = url; token = token; body = body })
  from_result (decoded_body f decode reply)

abbrev pub lockfile_name : Text
lockfile_name = bytes "krate-lock.json"

abbrev pub parsed_lockfile : Formats → Option Text → C Lockfile
parsed_lockfile f none = done []
parsed_lockfile f (some b) = or_stop (driver (bytes "json")) (f.decode_lockfile b)

-- A `packages` that is null is decoded as the empty map.
unfoldable pub load_lockfile : Formats → C Lockfile
unfolding on_disk read_file ◌>>=◌ done stop
load_lockfile f = do b ← on_disk (read_file lockfile_name); parsed_lockfile f b

unfoldable pub save_lockfile : Formats → Lockfile → C (Unit {0})
unfolding on_disk write_file ◌>>=◌ done stop
save_lockfile f lf = do
  b ← or_stop (driver (bytes "json")) (f.encode_lockfile lf)
  on_disk (write_file lockfile_name 420 b)

unfoldable pub config_path : C Text
unfolding join ◌>>=◌ reads done stop
config_path = do
  home ← reads (λ c. c.home)
  home ← or_stop (driver (bytes "$HOME is not defined")) home
  done (join (home ∷ bytes ".krate" ∷ bytes "config.json" ∷ []))

abbrev pub no_config : CliConfig
no_config = record { registry = []; username = []; token = [] }

abbrev pub parsed_config : Formats → Option Text → C CliConfig
parsed_config f none = done no_config
parsed_config f (some b) = or_stop (driver (bytes "json")) (f.decode_config b)

unfoldable pub load_config : Formats → C CliConfig
unfolding config_path on_disk read_file ◌>>=◌ done stop
load_config f = do path ← config_path; b ← on_disk (read_file path); parsed_config f b

unfoldable pub save_config : Formats → CliConfig → C (Unit {0})
unfolding config_path on_disk mkdir_all write_file dir ◌>>=◌ done stop
save_config f cfg = do
  path ← config_path
  _ ← on_disk (mkdir_all (dir path))
  b ← or_stop (driver (bytes "json")) (f.encode_config cfg)
  on_disk (write_file path 384 b)

abbrev pub registry_of : Text → C Text
registry_of registry =
    if registry == [] then stop (driver (bytes "no registry configured")) else done registry

-- registryURL
unfoldable pub registry_url : Formats → C Text
unfolding load_config ◌>>=◌ done stop
registry_url f = do cfg ← load_config f; registry_of cfg.registry
