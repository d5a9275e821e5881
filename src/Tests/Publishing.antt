-- ===== src/Tests/Publishing.antt =====
-- An upload that is published.
use agentreg.Base.{has_prefix, Text, [], ◌∷◌, bytes, true, some, none, ok, ◌≡◌, refl, ◌==◌}
use agentreg.Store.{User, Version, format_rfc3339, parse_rfc3339}
use agentreg.World.{
  pure, fail, map_error, attempt, ◌>>=◌, query, exec, transaction, time_now, access,
}
use agentreg.Sqlite.{row_or}
use agentreg.Sqlite.Plugins.{
  version_matches, plugin_matches, find_version, insert_version, insert_plugin, insert_keyword,
  insert_keywords, upsert_plugin, upsert_plugin_and_version, get_version, scan_version,
}
use agentreg.Fsblob.{put, link}
use agentreg.Registry.{publish, store_version, must_be_missing, marshalled, new_plugin, new_version}
use agentreg.Api.Plugins.{
  reply, published, published_reply, publish_bundle, publish_received, publish_dated,
  handle_publish,
}
use agentreg.Api.Receive.{Upload, receive}
use agentreg.Pack.{is_inside, strip_components, safe_join}
use agentreg.Path.{dir, join}
use agentreg.Pack.Extract.{Item, entry, type_reg}
use agentreg.Tests.Manifest.{validators}
use agentreg.Api.Publishing.{Created, handle_publish-Created}
use agentreg.Tests.World.{empty_world, reg}

abbrev user : User
user = record {
  id = 1;
  username = bytes "alice";
  email = bytes "a@x.org";
  password_hash = bytes "$secret";
  email_verified = true;
  created_at = 0;
}

abbrev tar_file : Text → Item
tar_file name = entry (record {
  name = name;
  typeflag = type_reg;
  mode = 420;
  content = bytes "{}";
  read_error = none;
})

abbrev upload : Upload
upload = record {
  body = bytes "tar";
  read_error = none;
  disk = record { dirs = []; files = []; faults = [] };
  tmp = bytes "/tmp/k";
  untar = λ b. some (tar_file (bytes "plugin.json") ∷ tar_file (bytes "skills/s/SKILL.md") ∷ []);
  validators = validators;
}

abbrev uploaded : Version
uploaded = record {
  scope = bytes "alice";
  name = bytes "demo";
  version = bytes "1.0.0";
  checksum = bytes "#tar";
  manifest_json = bytes "demo";
  published_at = 1001000000000;
  download_count = 0;
}

served :
    (handle_publish reg
      (some user)
      (bytes "alice")
      (bytes "demo")
      (bytes "1.0.0")
      none
      upload
      empty_world).0
    ≡ ok (reply 201 (published uploaded))
unfolding handle_publish publish_dated publish_received receive publish_bundle published_reply
    publish store_version must_be_missing marshalled new_plugin new_version pure fail map_error
    attempt ◌>>=◌ query exec transaction time_now access row_or version_matches plugin_matches
    find_version insert_version insert_plugin insert_keyword insert_keywords upsert_plugin
    upsert_plugin_and_version get_version scan_version put link ◌==◌ format_rfc3339 parse_rfc3339
    strip_components safe_join has_prefix dir
served = refl

handle_publish-Created_example :
    Created reg
      (some user)
      (bytes "alice")
      (bytes "demo")
      (bytes "1.0.0")
      upload
      empty_world.db
      (reply 201 (published uploaded))
      (handle_publish reg
        (some user)
        (bytes "alice")
        (bytes "demo")
        (bytes "1.0.0")
        none
        upload
        empty_world).1.db
unfolding is_inside join ◌==◌ has_prefix
handle_publish-Created_example =
    handle_publish-Created reg (some user) (bytes "alice") (bytes "demo") (bytes "1.0.0") none
      upload empty_world (reply 201 (published uploaded)) refl served refl
