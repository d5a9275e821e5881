-- ===== src/Cli/Formats.antt =====
-- cmd/krate: the records that travel as JSON, and what the client takes from packages outside the
-- repository to read and write them.
use agentreg.Base.{ℕ, Bool, Text, Option, List, none, some, ◌==◌, ◌∷◌, [], if◌then◌else◌}
use agentreg.Store.{Time}
use agentreg.Manifest.Validate.{Validators}
use agentreg.Pack.Extract.{Item}
use agentreg.Pack.Dir.{Archiver}

-- A space, U+2014 in UTF-8, and a space.
abbrev pub em_dash : Text
em_dash = 32 ∷ 226 ∷ 128 ∷ 148 ∷ 32 ∷ []

pub record LockEntry : Type 0 where
  pub version : Text
  pub checksum : Text
  pub registry : Text
  pub dir : Text
  pub installed_at : Time

-- The map `Packages` of a lockfile, by "@scope/name", as an association list: what is looked up is its first entry
-- of the key.
abbrev pub Lockfile : Type 0
Lockfile = List (Text × LockEntry)

unfoldable pub set_package : Text → LockEntry → Lockfile → Lockfile
set_package ref e [] = (ref, e) ∷ []
set_package ref e ((k, x) ∷ lf) = if k == ref then (ref, e) ∷ lf else (k, x) ∷ set_package ref e lf

-- `delete(lf.Packages, ref)`
unfoldable pub delete_package : Text → Lockfile → Lockfile
delete_package ref [] = []
delete_package ref ((k, x) ∷ lf) =
    let rest = delete_package ref lf in if k == ref then rest else (k, x) ∷ rest

unfoldable pub find_package : Text → Lockfile → Option LockEntry
find_package ref [] = none
find_package ref ((k, x) ∷ lf) = if k == ref then some x else find_package ref lf

pub record CliConfig : Type 0 where
  pub registry : Text
  pub username : Text
  pub token : Text

pub record Meta : Type 0 where
  pub version : Text
  pub checksum : Text

pub record Found : Type 0 where
  pub scope : Text
  pub name : Text
  pub description : Text
  pub latest_version : Text

pub record Formats : Type 0 where
  -- the hex digest of crypto/sha256
  pub sha256 : Text → Text
  -- what gzip and archive/tar read; `none` is an error of gzip.NewReader
  pub untar : Text → Option (List Item)
  -- encoding/json; `none` is an error
  pub encode_lockfile : Lockfile → Option Text
  pub decode_lockfile : Text → Option Lockfile
  pub encode_config : CliConfig → Option Text
  pub decode_config : Text → Option CliConfig
  pub decode_meta : Text → Option Meta
  pub decode_results : Text → Option (List Found)
  -- the field "error" of an error answer; `none` when the body is not JSON
  pub decode_error : Text → Option Text
  -- the field "error" of the first JSON value of a body; empty when there is none
  pub first_error : Text → Text
  -- any JSON object, decoded and written with indentation
  pub indented : Text → Option Text
  -- a map of strings
  pub encode_fields : List (Text × Text) → Option Text
  -- the answers to a signup (the username), a login (the token and the username), a correction (the date)
  pub decode_signup : Text → Option Text
  pub decode_login : Text → Option (Text × Text)
  pub decode_date : Text → Option Text
  -- time.Parse(time.RFC3339, …) succeeds; strings.TrimSpace
  pub is_rfc3339 : Text → Bool
  pub trim_space : Text → Text
  -- the schemas of manifest.ValidateDir, and packing
  pub validators : Validators
  pub archiver : Archiver
  -- the verb %q of package fmt
  pub quote : Text → Text
  -- the last part of filepath.Abs; `none` is an error
  pub absolute_base : Text → Option Text
  -- the working directory
  pub cwd : Text
  -- strconv.Itoa
  pub itoa : ℕ → Text
