-- ===== src/Crawler/Crawl.antt =====
-- internal/crawler/crawler.go: the crawl over the entries of the list.
use agentreg.Base.{
  Text, bytes, ◌==◌, Bool, true, false, Option, none, some, List, [], ◌∷◌, ◌++◌, Result, ok, err,
  driver, wrap, Error, conflict, not_found, token_invalid, forbidden, invalid_input, find, length,
  if◌then◌else◌,
}
use agentreg.Path.{join, clean}
use agentreg.Store.{Time}
use agentreg.Manifest.{Bundle}
use agentreg.Manifest.Reading.{validate_at}
use agentreg.Pack.Extract.{mkdir_all}
use agentreg.Program.{done, outcome, finally, ◌>>=◌}
use agentreg.Process.{Process, C, on_disk, remove_all}
use agentreg.Crawler.{RepoUrl, parse_repo_url, message, sanitize_path}
use agentreg.Crawler.Github.{Tools, resolve_default_branch, last_commit_date, fetch_repo}
use agentreg.Crawler.Mirror.{PublishConfig, version_already_published, publish_to_registry}

-- What the list says of a plugin.
pub record Entry : Type 0 where
  pub name : Text
  pub category : Text
  pub repo_url : Text
  pub author : Text
  pub author_url : Text
  pub description : Text
  pub tag : Text

-- `Result` of the source.
pub record Finding : Type 0 where
  pub entry : Entry
  pub owner : Text
  pub repo : Text
  pub ref : Text
  pub subpath : Text
  pub valid : Bool
  pub plugin_name : Text
  pub plugin_version : Text
  pub skills : List Text
  pub has_mcp : Bool
  pub validation_error : Text
  pub fetch_error : Text
  pub published : Bool
  pub publish_error : Text
  pub upstream_published_at : Option Time

abbrev pub new_finding : Entry → Finding
new_finding e = record {
  entry = e;
  owner = [];
  repo = [];
  ref = [];
  subpath = [];
  valid = false;
  plugin_name = [];
  plugin_version = [];
  skills = [];
  has_mcp = false;
  validation_error = [];
  fetch_error = [];
  published = false;
  publish_error = [];
  upstream_published_at = none;
}

-- The outcome of fetching a repository: the directory it is in, or the error.
pub record CacheEntry : Type 0 where
  pub dir : Text
  pub error : Option Error

abbrev pub Cache : Type 0
Cache = List (Text × CacheEntry)

-- What a crawl is about: the tools, the working directory and the registry to mirror into.
pub record Crawl : Type 0 where
  pub tools : Tools
  pub work_dir : Text
  pub publish : Option PublishConfig

-- `errors.Is(err, errAlreadyPublished)`
abbrev pub is_already_published : Error → Bool
is_already_published conflict = true
is_already_published not_found = false
is_already_published token_invalid = false
is_already_published forbidden = false
is_already_published invalid_input = false
is_already_published (driver m) = false
is_already_published (wrap m e) = is_already_published e

module _ (k : Crawl) where
  unfoldable pub sanitized : Text → Text
  unfolding sanitize_path
  sanitized msg = sanitize_path msg k.work_dir

  -- The `switch` on the error of publishToRegistry.
  abbrev pub publish_done : Finding → Time → Result (Unit {0}) → Finding
  publish_done r date (ok u) = record r { published = true; upstream_published_at = some date }
  publish_done r date (err e) =
      if is_already_published e
      then record r { published = true }
      else record r { publish_error = sanitized (message e) }

  abbrev pub mirror_dated : PublishConfig → Finding → Text → Result Time → C Finding
  mirror_dated cfg r dir (err e) = done (record r {
    publish_error = sanitized (bytes "resolve upstream publish date: " ++ message e);
  })
  mirror_dated cfg r dir (ok date) = do
    sent ← outcome (publish_to_registry k.tools cfg dir r.plugin_name r.plugin_version date)
    done (publish_done r date sent)

  abbrev pub mirror_checked : PublishConfig → Finding → Text → Result Bool → C Finding
  mirror_checked cfg r dir (err e) =
      done (record r { publish_error = sanitized (bytes "check existing publish: " ++ message e) })
  mirror_checked cfg r dir (ok true) = done (record r { published = true })
  mirror_checked cfg r dir (ok false) = do
    date ← outcome (last_commit_date k.tools r.owner r.repo r.ref r.subpath)
    mirror_dated cfg r dir date

  unfoldable pub mirror : PublishConfig → Finding → Text → C Finding
  unfolding version_already_published last_commit_date publish_to_registry sanitized message outcome
      ◌>>=◌ done ◌==◌
  mirror cfg r dir =
      if r.plugin_version == []
      then done
          (record r { publish_error = bytes "cannot mirror: plugin.json has no version field" })
      else (outcome (version_already_published cfg r.plugin_name r.plugin_version) >>= λ there.
          mirror_checked cfg r dir there)

  abbrev pub mirrored : Option PublishConfig → Finding → Text → C Finding
  mirrored none r dir = done r
  mirrored (some cfg) r dir = mirror cfg r dir

  abbrev pub with_bundle : Finding → Bundle → Finding
  with_bundle r b = record r {
    valid = true;
    plugin_name = b.plugin.name;
    plugin_version = b.plugin.version;
    skills = b.skills;
    has_mcp = b.has_mcp;
  }

  abbrev pub validated_finding : Finding → Text → Result Bundle → C Finding
  validated_finding r dir (err e) = done (record r { validation_error = sanitized (message e) })
  validated_finding r dir (ok b) = mirrored k.publish (with_bundle r b) dir

  -- From manifest.ValidateDir on.
  unfoldable pub validate_in : Finding → Text → C Finding
  unfolding mirror sanitized message on_disk validate_at outcome ◌>>=◌ done
  validate_in r dir = do
    bundle ← outcome (on_disk (validate_at k.tools.validators dir))
    validated_finding r dir bundle

  unfoldable pub cache_key : Text → Text → Text → Text
  cache_key owner repo ref = owner ++ bytes "/" ++ repo ++ bytes "@" ++ ref

  abbrev pub fetched : Text → Result (Unit {0}) → CacheEntry
  fetched dir (ok u) = record { dir = dir; error = none }
  fetched dir (err e) = record { dir = dir; error = some e }

  abbrev pub fetch_into : Finding → Text → Result (Unit {0}) → C CacheEntry
  fetch_into r dir (err e) = done (record { dir = []; error = some e })
  fetch_into r dir (ok u) = do
    got ← outcome (fetch_repo k.tools r.owner r.repo r.ref dir)
    done (fetched dir got)

  -- A fresh directory for each repository.
  unfoldable pub repo_dir : Cache → Text
  unfolding join
  repo_dir cache = join (k.work_dir ∷ (bytes "repo-" ++ k.tools.itoa (length cache)) ∷ [])

  abbrev pub checkout_at : Cache → Finding → Option (Text × CacheEntry) → C (Cache × CacheEntry)
  checkout_at cache r (some hit) = done (cache, hit.1)
  checkout_at cache r none = do
    made ← outcome (on_disk (mkdir_all (repo_dir cache)))
    e ← fetch_into r (repo_dir cache) made
    done ((cache_key r.owner r.repo r.ref, e) ∷ cache, e)

  -- The repository's directory, from the cache or fetched.
  unfoldable pub checkout : Cache → Finding → C (Cache × CacheEntry)
  unfolding cache_key fetch_repo repo_dir mkdir_all on_disk outcome ◌>>=◌ done ◌==◌
  checkout cache r = checkout_at cache r (find (λ x. x.0 == cache_key r.owner r.repo r.ref) cache)

  unfoldable pub plugin_dir : Text → Text → Text
  unfolding join clean ◌==◌
  plugin_dir dir subpath = if subpath == [] then dir else join (dir ∷ clean subpath ∷ [])

  abbrev pub in_checkout : Finding → Cache × CacheEntry → Option Error → C (Cache × Finding)
  in_checkout r (cache, e) (some x) = done (cache, record r { fetch_error = sanitized (message x) })
  in_checkout r (cache, e) none = do
    found ← validate_in r (plugin_dir e.dir r.subpath)
    done (cache, found)

  abbrev pub at_ref : Cache → Finding → Result Text → C (Cache × Finding)
  at_ref cache r (err e) =
      done (cache, record r { fetch_error = bytes "resolve default branch: " ++ message e })
  at_ref cache r (ok ref) = do
    x ← checkout cache (record r { ref = ref })
    in_checkout (record r { ref = ref }) x x.1.error

  abbrev pub ref_or_default : RepoUrl → C (Result Text)
  ref_or_default u =
      if u.ref == []
      then outcome (resolve_default_branch k.tools u.owner u.repo)
      else done (ok u.ref)

  abbrev pub at_repo : Cache → Entry → Result RepoUrl → C (Cache × Finding)
  at_repo cache e (err x) = done (cache, record (new_finding e) { fetch_error = message x })
  at_repo cache e (ok u) = do
    let r : Finding = record (new_finding e) { owner = u.owner; repo = u.repo; subpath = u.subpath }
    ref ← ref_or_default u
    at_ref cache r ref

  -- One round of the loop.
  unfoldable pub crawl_entry : Cache → Entry → C (Cache × Finding)
  unfolding parse_repo_url resolve_default_branch checkout validate_in plugin_dir sanitized message
      outcome ◌>>=◌ done ◌==◌
  crawl_entry cache e = at_repo cache e (parse_repo_url k.tools.url_parse e.repo_url)

  unfoldable pub crawl_entries : Cache → List Entry → C (List Finding)
  unfolding crawl_entry ◌>>=◌ done
  crawl_entries cache [] = done []
  crawl_entries cache (e ∷ es) = do
    x ← crawl_entry cache e
    rest ← crawl_entries x.0 es
    done (x.1 ∷ rest)

  -- `defer os.RemoveAll(workDir)`, whose error is not looked at.
  unfoldable pub remove_work_dir : Process → Process
  unfolding on_disk remove_all
  remove_work_dir c = (on_disk (remove_all k.tools.cwd k.work_dir) c).1

  abbrev pub crawl_in : List Entry → Result (Unit {0}) → C (List Finding)
  crawl_in entries (err e) = done []
  crawl_in entries (ok u) = finally remove_work_dir (crawl_entries [] entries)

  -- Crawl
  unfoldable pub crawl : List Entry → C (List Finding)
  unfolding crawl_entries remove_work_dir mkdir_all on_disk outcome finally ◌>>=◌ done
  crawl entries = do made ← outcome (on_disk (mkdir_all k.work_dir)); crawl_in entries made
