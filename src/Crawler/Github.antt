-- ===== src/Crawler/Github.antt =====
-- internal/crawler/github.go: the calls of GitHub's API, and fetching a repository.
use agentreg.Base.{
  ℕ, ◌+◌, ◌*◌, ◌^◌, Text, bytes, ◌==◌, eqb, not, true, Option, none, some, List, [], ◌∷◌, ◌++◌,
  Result, ok, err, driver, wrap, if◌then◌else◌,
}
use agentreg.Store.{Time}
use agentreg.Manifest.Validate.{Validators}
use agentreg.Pack.{ExtractOptions}
use agentreg.Pack.Extract.{Item, take, extract_reader}
use agentreg.Pack.Dir.{Archiver}
use agentreg.Program.{from_result, ◌>>=◌}
use agentreg.Process.{C, Reply, unreachable, response, HttpRequest, do_request, on_disk}

-- What the crawler takes from packages outside the repository.
pub record Tools : Type 0 where
  -- the working directory
  pub cwd : Text
  -- net/url: the host and the path; a query value escaped
  pub url_parse : Text → Option (Text × Text)
  pub query_escape : Text → Text
  -- encoding/json, on the start of a body; `none` is an error
  pub decode_branch : Text → Option Text
  pub decode_commits : Text → Option (List Time)
  -- time.RFC3339
  pub rfc3339 : Time → Text
  -- gzip and archive/tar
  pub untar : Text → Option (List Item)
  pub archiver : Archiver
  -- the schemas of manifest.ValidateDir
  pub validators : Validators
  -- strings.TrimSpace, strconv.Itoa
  pub trim_space : Text → Text
  pub itoa : ℕ → Text

abbrev pub api_base : Text
api_base = bytes "https://api.github.com"

abbrev pub mebibyte : ℕ
mebibyte = 2 ^ 20

abbrev pub get : Text → HttpRequest
get url = record { method = bytes "GET"; url = url; token = []; body = [] }

abbrev pub api_error : Tools → Text → ℕ → Text
api_error t url status = bytes "GitHub API " ++ url ++ bytes ": HTTP " ++ t.itoa status

-- The body of a 200.
unfoldable pub ok_body : Tools → Text → Reply → Result Text
ok_body t url (unreachable m) = err (driver m)
ok_body t url (response status body read_error) =
    if not (eqb status 200) then err (driver (api_error t url status)) else ok body

abbrev pub decode_failed : {A : Type 0} → Option A → Result A
decode_failed none = err (wrap (bytes "decode GitHub API response") (driver (bytes "json")))
decode_failed (some a) = ok a

abbrev pub named_branch : Text → Result Text
named_branch branch =
    if branch == [] then err (driver (bytes "GitHub API returned no default_branch")) else ok branch

unfoldable pub resolve_default_branch : Tools → Text → Text → C Text
unfolding do_request ok_body take ◌>>=◌ from_result
resolve_default_branch t owner repo = do
  let url : Text = api_base ++ bytes "/repos/" ++ owner ++ bytes "/" ++ repo
  reply ← do_request (get url)
  body ← from_result (ok_body t url reply)
  branch ← from_result (decode_failed (t.decode_branch (take mebibyte body)))
  from_result (named_branch branch)

abbrev pub path_query : Tools → Text → Text
path_query t subpath =
    if subpath == [] then [] else bytes "path=" ++ t.query_escape subpath ++ bytes "&"

abbrev pub first_commit : List Time → Result Time
first_commit [] = err (driver (bytes "GitHub API returned no commits"))
first_commit (date ∷ dates) = ok date

unfoldable pub last_commit_date : Tools → Text → Text → Text → Text → C Time
unfolding do_request ok_body take ◌==◌ ◌>>=◌ from_result
last_commit_date t owner repo ref subpath = do
  let url : Text =
      api_base
      ++ bytes "/repos/"
      ++ owner
      ++ bytes "/"
      ++ repo
      ++ bytes "/commits?"
      ++ path_query t subpath
      ++ bytes "per_page=1&sha="
      ++ t.query_escape ref
  reply ← do_request (get url)
  body ← from_result (ok_body t url reply)
  dates ← from_result (decode_failed (t.decode_commits (take mebibyte body)))
  from_result (first_commit dates)

abbrev pub max_tarball_download_bytes : ℕ
max_tarball_download_bytes = 200 * 2 ^ 20

abbrev pub max_extracted_bytes : ℕ
max_extracted_bytes = 512 * 2 ^ 20

abbrev pub fetch_options : ExtractOptions
fetch_options = record {
  max_bytes = max_extracted_bytes;
  strip_count = 1;
  skip_unsupported_types = true;
}

unfoldable pub tarball_body : Tools → Text → Reply → Result Text
tarball_body t url (unreachable m) = err (driver m)
tarball_body t url (response status body read_error) =
    if not (eqb status 200)
    then err (driver (bytes "download " ++ url ++ bytes ": HTTP " ++ t.itoa status))
    else ok (take (max_tarball_download_bytes + 1) body)

unfoldable pub fetch_repo : Tools → Text → Text → Text → Text → C (Unit {0})
unfolding do_request tarball_body take on_disk extract_reader ◌>>=◌ from_result
fetch_repo t owner repo ref dest = do
  let url : Text =
      bytes "https://codeload.github.com/" ++ owner ++ bytes "/" ++ repo ++ bytes "/tar.gz/" ++ ref
  reply ← do_request (get url)
  body ← from_result (tarball_body t url reply)
  on_disk (extract_reader (t.untar body) dest fetch_options)
