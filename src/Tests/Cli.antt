-- ===== src/Tests/Cli.antt =====
-- The client at concrete inputs.
use agentreg.Base.{
  true, Text, bytes, ◌==◌, false, some, none, Option, [], ◌∷◌, ok, ◌≡◌, ◌⊎◌, refl, sym, subst,
  ok-injective, has_prefix,
}
use agentreg.Path.{clean}
use agentreg.Pack.{is_inside, strip_components, safe_join, file_mode}
use agentreg.Pack.Extract.{File, entry, type_reg}
use agentreg.Pack.Contained.{file_at}
use agentreg.Cli.{Ref, parse_ref, ref_key}
use agentreg.Cli.Refs.{parse_ref-ref_key, parse_ref-Spells, Spells}
use agentreg.Cli.Formats.{Formats, LockEntry, CliConfig, find_package}
use agentreg.Process.{Process, response, is_under}
use agentreg.Cli.Wire.{load_lockfile}
use agentreg.Cli.Fetch.{cmd_install, install_dir}
use agentreg.Cli.Uninstall.{cmd_uninstall}
use agentreg.Cli.Account.{cmd_login}
use agentreg.Process.{typed_text}
use agentreg.Tests.Codec.{put_config, get_config}
use agentreg.Cli.Verified.{cmd_install-Matched, Matched}
use agentreg.Cli.Outside.{cmd_install_outside, cmd_uninstall_outside}

abbrev demo_ref : Ref
demo_ref = record { scope = bytes "ada"; name = bytes "demo"; version = bytes "1.2.0" }

parse_ref-ref_key_example : parse_ref (bytes "@ada/demo@1.2.0") ≡ ok demo_ref
unfolding ref_key
parse_ref-ref_key_example = parse_ref-ref_key demo_ref (λ e. cc) refl (λ e. cc) refl

parse_ref-Spells_example :
    Spells (bytes "@ada/demo") (record { scope = bytes "ada"; name = bytes "demo"; version = [] })
unfolding parse_ref ◌==◌
parse_ref-Spells_example = parse_ref-Spells (bytes "@ada/demo") _ refl

-- Tarballs of one file, and a lockfile that always reads as one entry.
abbrev toy_entry : LockEntry
toy_entry = record {
  version = bytes "1.2.0";
  checksum = bytes "#tar";
  registry = bytes "http://r";
  dir = bytes "plugins/demo";
  installed_at = 7;
}

abbrev pub toy : Formats
toy = record {
  sha256 = λ t. b'#' ∷ t;
  untar = λ t. some (
      entry (record {
        name = bytes "a.md";
        typeflag = type_reg;
        mode = 420;
        content = t;
        read_error = none;
      })
      ∷ []);
  encode_lockfile = λ lf. some (bytes "lock");
  decode_lockfile = λ b. some ((bytes "@ada/demo", toy_entry) ∷ []);
  encode_config = λ c. some c.registry;
  decode_config = λ b. some (record { registry = b; username = []; token = [] });
  decode_meta = λ b. some (record { version = bytes "1.2.0"; checksum = b });
  decode_results = λ b. none;
  decode_error = λ b. none;
  first_error = λ b. b;
  indented = λ b. none;
  itoa = λ n. [];
  quote = λ t. t;
  cwd = bytes "/work";
  absolute_base = λ t. some t;
  encode_fields = λ fs. some [];
  decode_signup = λ b. some b;
  decode_login = λ b. some (b, bytes "ada");
  decode_date = λ b. some b;
  is_rfc3339 = λ t. true;
  trim_space = λ t. t;
  validators = record {
    plugin_schema = true;
    mcp_schema = true;
    is_json = λ b. true;
    is_plugin = λ b. true;
    is_mcp = λ b. true;
    decode = λ b. none;
  };
  archiver = record { walk = λ d p. []; tar = λ items. []; sha256 = λ b. b };
}

abbrev file : Text → File
file t = record { mode = 420; content = t }

-- An older install, a file beside it, the configuration and the lockfile; the server's answers to an
-- install of a good download.
abbrev pub client : Process
client = record {
  disk = record {
    dirs = [];
    files =
        (bytes "plugins/demo/old.md", file (bytes "old"))
        ∷ (bytes "notes.txt", file (bytes "mine"))
        ∷ (bytes "/home/.krate/config.json", file (bytes "http://r"))
        ∷ (bytes "krate-lock.json", file (bytes "lock"))
        ∷ [];
    faults = [];
  };
  temp = none;
  home = some (bytes "/home");
  replies = response 200 (bytes "#tar") none ∷ response 200 (bytes "tar") none ∷ [];
  requests = [];
  printed = [];
  clock = 7 ∷ [];
  terminal = false;
  typed = [];
}

abbrev installed : Process
installed = (cmd_install toy (bytes "plugins/demo") (bytes "@ada/demo" ∷ []) client).1

-- The install succeeds: the older files are gone and the new one is there.
install_run :
    ((cmd_install toy (bytes "plugins/demo") (bytes "@ada/demo" ∷ []) client).0 ≡ ok tt)
    × (file_at (bytes "plugins/demo/old.md") installed.disk.files ≡ none)
    × (file_at (bytes "plugins/demo/a.md") installed.disk.files
        ≡ some (bytes "plugins/demo/a.md", file (bytes "tar")))
unfolding cmd_install strip_components safe_join file_mode
install_run = (refl, refl, refl)

cmd_install-Matched_example : (installed.disk.files ≡ client.disk.files) ⊎ Matched toy client
cmd_install-Matched_example =
    cmd_install-Matched toy client (bytes "plugins/demo") (bytes "@ada/demo" ∷ [])

cmd_install_outside_example :
    file_at (bytes "notes.txt") installed.disk.files ≡ some (bytes "notes.txt", file (bytes "mine"))
unfolding is_under clean is_inside install_dir ◌==◌ has_prefix
cmd_install_outside_example =
    cmd_install_outside (bytes "notes.txt") toy client refl (bytes "plugins/demo")
      (bytes "@ada/demo") (λ r e. (refl, refl))

cmd_uninstall_outside_example :
    file_at (bytes "notes.txt") (cmd_uninstall toy (bytes "@ada/demo" ∷ []) client).1.disk.files
    ≡ some (bytes "notes.txt", file (bytes "mine"))
unfolding is_under find_package load_lockfile ◌==◌ has_prefix
cmd_uninstall_outside_example =
    cmd_uninstall_outside (bytes "notes.txt") toy client refl (bytes "@ada/demo") λ lf e l k.
      subst (λ x. is_under (bytes "/work") x.dir (bytes "notes.txt") ≡ false)
        (the_entry e
          (subst (λ x. find_package (bytes "@ada/demo") x ≡ some e) (sym (ok-injective l)) k))
        refl
  where
    the_entry :
        (e : LockEntry) → ◌≡◌ {A = Option LockEntry} (some toy_entry) (some e) → toy_entry ≡ e
    the_entry e h = cc

-- Configurations that are read as they were written.
abbrev coded : Formats
coded = record toy {
  encode_config = λ cfg. some (put_config cfg);
  decode_config = λ b. some (get_config b);
}

abbrev home_config : CliConfig
home_config = record { registry = bytes "http://r"; username = []; token = [] }

-- The answer to a login, and the password piped in.
abbrev newcomer : Process
newcomer = record client {
  replies = response 200 (bytes "t0ken") none ∷ [];
  typed = typed_text (bytes "ada") ∷ typed_text (bytes "secret") ∷ [];
}

abbrev logged_in : Process
logged_in = (cmd_login coded (bytes "http://other") newcomer).1
