-- ===== src/Tests/Registry.antt =====
-- Runs of the registry, and its theorems on them.
use agentreg.Base.{bytes, some, [], ◌∷◌, List, ok, ◌≡◌, ◌≢◌, refl, ◌==◌}
use agentreg.Store.{Version, format_rfc3339, parse_rfc3339}
use agentreg.World.{
  World, VersionRow, pure, fail, map_error, attempt, ◌>>=◌, query, exec, transaction, time_now,
  access,
}
use agentreg.Sqlite.{row_or}
use agentreg.Sqlite.Users.{update_password, set_password}
use agentreg.Sqlite.Plugins.{
  version_matches, plugin_matches, find_version, insert_version, insert_plugin, insert_keyword,
  insert_keywords, upsert_plugin, upsert_plugin_and_version, get_version, scan_version,
}
use agentreg.Sqlite.Recovery.{find_reset, mark_used, consume_password_reset}
use agentreg.Fsblob.{put, link}
use agentreg.Registry.{
  publish, store_version, must_be_missing, marshalled, new_plugin, new_version,
  confirm_password_reset,
}
use agentreg.Registry.History.{Call, publishes, sets_published_at, downloads, confirms_reset, run}
use agentreg.Registry.Immutable.{find_version-run}
use agentreg.Registry.Integrity.{AreBacked, run-AreBacked}
use agentreg.Registry.OneTime.{Reset, confirm_password_reset-effect, confirm_password_reset-once}
use agentreg.Registry.Published.Whole.{Published, publish-Published}
use agentreg.Tests.World.{empty_world, account_world, reg, input}

abbrev first : Version
first = record {
  scope = bytes "alice";
  name = bytes "demo";
  version = bytes "1.0.0";
  checksum = bytes "#tar";
  manifest_json = bytes "demo";
  published_at = 1001000000000;
  download_count = 0;
}

abbrev first_row : VersionRow
first_row = record {
  scope = bytes "alice";
  name = bytes "demo";
  version = bytes "1.0.0";
  checksum = bytes "#tar";
  manifest_json = bytes "demo";
  published_at = 1001;
  download_count = 0;
}

publish-first : (publish reg input empty_world).0 ≡ ok first
unfolding publish store_version must_be_missing marshalled new_plugin new_version pure fail
    map_error attempt ◌>>=◌ query exec transaction time_now access row_or version_matches
    plugin_matches find_version insert_version insert_plugin insert_keyword insert_keywords
    upsert_plugin upsert_plugin_and_version get_version scan_version put link ◌==◌ format_rfc3339
    parse_rfc3339
publish-first = refl

abbrev published_world : World
published_world = (publish reg input empty_world).1

stored_first :
    find_version (bytes "alice") (bytes "demo") (bytes "1.0.0") published_world.db ≡ some first_row
unfolding publish store_version must_be_missing marshalled new_plugin new_version pure fail
    map_error attempt ◌>>=◌ query exec transaction time_now access row_or version_matches
    plugin_matches find_version insert_version insert_plugin insert_keyword insert_keywords
    upsert_plugin upsert_plugin_and_version get_version scan_version put link ◌==◌ format_rfc3339
    parse_rfc3339
stored_first = refl

-- The same version again, a new date, and a download.
abbrev later_calls : List Call
later_calls =
    publishes input
    ∷ sets_published_at (bytes "alice") (bytes "demo") (bytes "1.0.0") 5000000000
    ∷ downloads (bytes "alice") (bytes "demo") (bytes "1.0.0")
    ∷ []

find_version-run_example :
    (later : VersionRow) × (find_version
        (bytes "alice")
        (bytes "demo")
        (bytes "1.0.0")
        (run reg later_calls published_world).db
      ≡ some later)
    × (later.checksum ≡ first_row.checksum)
    × (later.manifest_json ≡ first_row.manifest_json)
find_version-run_example =
    find_version-run reg later_calls published_world (bytes "alice") (bytes "demo") (bytes "1.0.0")
      first_row stored_first

publish-Published_example : Published reg input empty_world.db first published_world.db
publish-Published_example = publish-Published reg input empty_world first publish-first

run-AreBacked_example :
    AreBacked reg
      (run reg (publishes input ∷ later_calls) empty_world).db
      (run reg (publishes input ∷ later_calls) empty_world).blobs
run-AreBacked_example = run-AreBacked reg (publishes input ∷ later_calls) empty_world tt

reset_first : (confirm_password_reset reg (bytes "tok") (bytes "$new") account_world).0 ≡ ok tt
unfolding confirm_password_reset consume_password_reset update_password set_password find_reset
    mark_used pure fail ◌>>=◌ query exec transaction time_now access row_or ◌==◌ format_rfc3339
    parse_rfc3339
reset_first = refl

abbrev reset_world : World
reset_world = (confirm_password_reset reg (bytes "tok") (bytes "$new") account_world).1

confirm_password_reset-effect_example :
    Reset account_world.db account_world.env.now (bytes "#tok") (bytes "$new") reset_world.db
confirm_password_reset-effect_example =
    confirm_password_reset-effect reg (bytes "tok") account_world (bytes "$new") reset_first

confirm_password_reset-once_example :
    (confirm_password_reset reg
      (bytes "tok")
      (bytes "$other")
      (run reg (confirms_reset (bytes "tok") (bytes "$x") ∷ []) reset_world)).0
    ≢ ok tt
confirm_password_reset-once_example =
    confirm_password_reset-once reg (bytes "tok") account_world
      (confirms_reset (bytes "tok") (bytes "$x") ∷ []) (bytes "$new") (bytes "$other") reset_first
