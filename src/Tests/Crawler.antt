-- ===== src/Tests/Crawler.antt =====
-- The crawler at concrete inputs.
use agentreg.Base.{
  Text, bytes, ◌==◌, true, false, some, none, Option, List, [], ◌∷◌, ok, err, Result, Bool, map,
  ◌≡◌, refl, has_suffix,
}
use agentreg.Path.Segments.{IsSegment}
use agentreg.Pack.{strip_components, safe_join}
use agentreg.Path.{dir}
use agentreg.Pack.Extract.{Item, entry, type_reg}
use agentreg.Process.{Process, response}
use agentreg.Crawler.{RepoUrl, parse_repo_url}
use agentreg.Crawler.Urls.{parse_repo_url-page_path}
use agentreg.Crawler.Github.{Tools}
use agentreg.Crawler.Crawl.{Entry, Finding, Crawl, crawl}
use agentreg.Crawler.Whole.{AreFor, crawl-AreFor}

abbrev demo_page : RepoUrl
demo_page = record {
  owner = bytes "ada";
  repo = bytes "kit";
  ref = bytes "main";
  subpath = bytes "p/q";
}

abbrev toy_url_parse : Text → Option (Text × Text)
toy_url_parse raw = some (bytes "github.com", raw)

parse_repo_url-page_path_example :
    parse_repo_url toy_url_parse (bytes "/ada/kit.git/tree/main/p/q") ≡ ok demo_page
unfolding IsSegment has_suffix ◌==◌
parse_repo_url-page_path_example =
    parse_repo_url-page_path toy_url_parse (bytes "/ada/kit.git/tree/main/p/q") true demo_page
      (record {
        owner_ne_nil = λ e. cc;
        owner_segment = (refl, (refl, (refl, tt)));
        repo_ne_nil = λ e. cc;
        repo_segment = (refl, (refl, (refl, tt)));
        not_git = refl;
        ref_segment = (refl, (refl, (refl, (refl, tt))));
        subpath_trim = refl;
        subpath_ref = λ e. absurd (cc e);
      })
      refl

abbrev tar_file : Text → Item
tar_file name = entry (record {
  name = name;
  typeflag = type_reg;
  mode = 420;
  content = bytes "{}";
  read_error = none;
})

-- Every archive is that of a plugin with an mcp.json.
abbrev tools : Tools
tools = record {
  url_parse = toy_url_parse;
  query_escape = λ s. s;
  decode_branch = λ b. some b;
  decode_commits = λ b. some (5 ∷ []);
  rfc3339 = λ t. bytes "date";
  untar = λ b. some (tar_file (bytes "kit/plugin.json") ∷ tar_file (bytes "kit/mcp.json") ∷ []);
  archiver = record { walk = λ d p. []; tar = λ items. bytes "tar"; sha256 = λ b. b };
  cwd = bytes "/work";
  validators = record {
    plugin_schema = true;
    mcp_schema = true;
    is_json = λ b. true;
    is_plugin = λ b. true;
    is_mcp = λ b. true;
    decode = λ b. some (record {
      schema = [];
      name = bytes "kit";
      version = bytes "1.0.0";
      description = [];
      homepage = [];
      repository = [];
      license = [];
      keywords = [];
      author = [];
    });
  };
  trim_space = λ s. s;
  itoa = λ n. [];
}

abbrev demo_crawl : Crawl
demo_crawl = record {
  tools = tools;
  work_dir = bytes "/tmp/c";
  publish =
      some (record { registry_url = bytes "http://r"; scope = bytes "mirror"; token = bytes "t" });
}

abbrev listed : Text → Entry
listed url = record {
  name = bytes "kit";
  category = [];
  repo_url = url;
  author = [];
  author_url = [];
  description = [];
  tag = [];
}

-- The answers to: the tarball, whether the version is there, the commits, the publish.
abbrev online : Process
online = record {
  disk = record { dirs = []; files = []; faults = [] };
  temp = none;
  home = none;
  replies =
      response 200 [] none
      ∷ response 404 [] none
      ∷ response 200 [] none
      ∷ response 201 [] none
      ∷ [];
  requests = [];
  printed = [];
  clock = [];
  terminal = false;
  typed = [];
}

abbrev entries : List Entry
entries = listed (bytes "/ada/kit/tree/main") ∷ listed (bytes "nowhere") ∷ []

abbrev published_flags : Result (List Finding) → List Bool
published_flags (err e) = []
published_flags (ok rs) = map (λ r. r.published) rs

-- The first entry is mirrored, the second has no readable URL.
crawl_run : published_flags (crawl demo_crawl entries online).0 ≡ true ∷ false ∷ []
unfolding crawl strip_components safe_join dir
crawl_run = refl

crawl-AreFor_example :
    (rs : List Finding) × ((crawl demo_crawl entries online).0 ≡ ok rs)
    × AreFor demo_crawl entries rs
crawl-AreFor_example = crawl-AreFor demo_crawl entries online refl
