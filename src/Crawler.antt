-- ===== src/Crawler.antt =====
-- internal/crawler: discovering plugins and mirroring them. github.go's reading of repository URLs, and
-- the error texts.
pub mod Urls
pub mod Github
pub mod Mirror
pub mod Crawl
pub mod Consistent
pub mod Whole
use agentreg.Base.{
  ℕ, zero, suc, ◌-◌, Text, bytes, ◌==◌, eqb, leb, not, ◌&&◌, ◌||◌, Bool, true, false, Option, none,
  some, List, [], ◌∷◌, ◌++◌, Result, ok, err, driver, wrap, Error, not_found, conflict,
  token_invalid, forbidden, invalid_input, has_prefix, has_suffix, length, if◌then◌else◌,
}
use agentreg.Path.{slash, split, join_segments}

-- Takes the slashes off the front.
unfoldable pub trim_left : Text → Text
trim_left [] = []
trim_left (c ∷ s) = if eqb c slash then trim_left s else c ∷ s

-- Takes the slashes off the end.
unfoldable pub trim_right : Text → Text
unfolding ◌==◌
trim_right [] = []
trim_right (c ∷ s) = let rest = trim_right s in if rest == [] && eqb c slash then [] else c ∷ rest

-- strings.Trim(s, "/")
unfoldable pub trim_slashes : Text → Text
unfolding trim_left trim_right
trim_slashes s = trim_right (trim_left s)

-- strings.TrimSuffix
unfoldable pub trim_suffix : Text → Text → Text
unfolding ◌==◌
trim_suffix [] suffix = []
trim_suffix (c ∷ s) suffix = if (c ∷ s) == suffix then [] else c ∷ trim_suffix s suffix

pub record RepoUrl : Type 0 where
  pub owner : Text
  pub repo : Text
  pub ref : Text
  pub subpath : Text

abbrev pub tree_parts : List Text → Text × Text
tree_parts (word ∷ ref ∷ rest) =
    if word == bytes "tree" then (ref, join_segments rest) else ([], [])
tree_parts _ = ([], [])

abbrev pub repo_parts : List Text → Result RepoUrl
repo_parts (owner ∷ repo ∷ rest) =
    let (ref, subpath) = tree_parts rest in
    if owner == [] || repo == []
    then err (driver (bytes "cannot parse owner/repo"))
    else ok (record {
      owner = owner;
      repo = trim_suffix repo (bytes ".git");
      ref = ref;
      subpath = subpath;
    })
repo_parts _ = err (driver (bytes "cannot parse owner/repo"))

abbrev pub located : Text → Option (Text × Text) → Result RepoUrl
located raw none = err (driver (bytes "parse URL"))
located raw (some (host, path)) =
    if not (host == bytes "github.com")
    then err (driver (bytes "not a github.com URL: " ++ raw))
    else repo_parts (split (trim_slashes path))

-- `url_parse` gives the host and the path that net/url makes of the URL; `none` is an error.
unfoldable pub parse_repo_url : (Text → Option (Text × Text)) → Text → Result RepoUrl
unfolding trim_slashes trim_suffix split join_segments ◌==◌
parse_repo_url url_parse raw = located raw (url_parse raw)

-- err.Error()
unfoldable pub message : Error → Text
message not_found = bytes "not found"
message conflict = bytes "already published"
message token_invalid = bytes "token invalid"
message forbidden = bytes "forbidden"
message invalid_input = bytes "invalid input"
message (driver m) = m
message (wrap m e) = m ++ bytes ": " ++ message e

-- Leaves out `skip` bytes, then each occurrence of `sub`.
unfoldable pub without : ℕ → Text → Text → Text
unfolding has_prefix
without skip sub [] = []
without (suc skip) sub (c ∷ s) = without skip sub s
without zero sub (c ∷ s) =
    let skipped = without (length sub - 1) sub s in
    let kept = without zero sub s in if has_prefix (c ∷ s) sub then skipped else c ∷ kept

-- strings.ReplaceAll(msg, workDir+"/", "")
unfoldable pub sanitize_path : Text → Text → Text
unfolding without
sanitize_path msg work_dir = without zero (work_dir ++ slash ∷ []) msg
