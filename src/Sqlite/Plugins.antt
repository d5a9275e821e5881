-- ===== src/Sqlite/Plugins.antt =====
-- sqlite.go: UpsertPluginAndVersion, UpdateVersionPublishedAt, GetPlugin, GetVersion, ListVersions
-- and IncrementDownloadCount.
use agentreg.Base.{
  ℕ, ◌+◌, Text, ◌==◌, eqb, leb, Bool, true, false, ◌&&◌, Option, List, [], ◌∷◌, ◌++◌, map, Result,
  ok, err, driver, not_found, conflict, any, find, keep, length, update_where, if◌then◌else◌,
}
use agentreg.Store.{
  Time, is_zero, Plugin, Version, NewPlugin, NewVersion, format_rfc3339, parse_rfc3339,
}
use agentreg.World.{
  Db, PluginRow, VersionRow, M, pure, fail, ◌>>=◌, ◌>>◌, query, exec, update, transaction, time_now,
}
use agentreg.Sqlite.{unique_message, row_or}

-- `WHERE scope = ? AND name = ? AND version = ?`
unfoldable pub version_matches : Text → Text → Text → VersionRow → Bool
version_matches scope name version r = r.scope == scope && r.name == name && r.version == version

unfoldable pub plugin_matches : Text → Text → PluginRow → Bool
plugin_matches scope name r = r.scope == scope && r.name == name

unfoldable pub find_version : Text → Text → Text → Db → Option VersionRow
find_version scope name version d = find (version_matches scope name version) d.versions

unfoldable pub find_plugin : Text → Text → Db → Option PluginRow
find_plugin scope name d = find (plugin_matches scope name) d.plugins

abbrev pub plugin_row : NewPlugin → Text → ℕ → PluginRow
plugin_row p latest now = record {
  scope = p.scope;
  name = p.name;
  description = p.description;
  homepage = p.homepage;
  repository = p.repository;
  license = p.license;
  latest_version = latest;
  created_at = now;
  updated_at = now;
}

unfoldable pub insert_plugin : NewPlugin → Text → ℕ → Db → Result Db
insert_plugin p latest now d =
    if any (plugin_matches p.scope p.name) d.plugins
    then err (driver unique_message)
    else ok (record d { plugins = d.plugins ++ plugin_row p latest now ∷ [] })

unfoldable pub insert_keyword : Text → Text → Text → Db → Db
insert_keyword scope name keyword d = record d {
  keywords = d.keywords ++ record { scope = scope; name = name; keyword = keyword } ∷ [];
}

-- `for _, kw := range p.Keywords`
unfoldable pub insert_keywords : Text → Text → List Text → M (Unit {0})
insert_keywords scope name [] = pure tt
insert_keywords scope name (kw ∷ kws) =
    exec (λ d. ok (insert_keyword scope name kw d)) >> insert_keywords scope name kws

unfoldable pub refresh_plugin : NewPlugin → Text → ℕ → PluginRow → PluginRow
refresh_plugin p latest now r = record r {
  description = p.description;
  homepage = p.homepage;
  repository = p.repository;
  license = p.license;
  latest_version = latest;
  updated_at = now;
}

unfoldable pub update_plugin : NewPlugin → Text → ℕ → Db → Db
update_plugin p latest now d = record d {
  plugins = update_where (plugin_matches p.scope p.name) (refresh_plugin p latest now) d.plugins;
}

abbrev pub version_row : NewVersion → ℕ → VersionRow
version_row v published_at = record {
  scope = v.scope;
  name = v.name;
  version = v.version;
  checksum = v.checksum;
  manifest_json = v.manifest_json;
  published_at = published_at;
  download_count = 0;
}

unfoldable pub insert_version : NewVersion → ℕ → Db → Result Db
insert_version v published_at d =
    if any (version_matches v.scope v.name v.version) d.versions
    then err (driver unique_message)
    else ok (record d { versions = d.versions ++ version_row v published_at ∷ [] })

-- The plugin row of a publish: made with its keywords, or brought up to date without them.
unfoldable pub upsert_plugin : NewPlugin → Text → ℕ → Bool → M (Unit {0})
upsert_plugin p latest now true = exec (λ d. ok (update_plugin p latest now d))
upsert_plugin p latest now false =
    exec (insert_plugin p latest now) >> insert_keywords p.scope p.name p.keywords

unfoldable pub upsert_plugin_and_version : NewPlugin → NewVersion → M (Unit {0})
upsert_plugin_and_version p v = transaction do
  t ← time_now
  let now = format_rfc3339 t
  exists ← query (λ d. any (version_matches v.scope v.name v.version) d.versions)
  if exists then fail conflict else do
    plugin_exists ← query (λ d. any (plugin_matches p.scope p.name) d.plugins)
    upsert_plugin p v.version now plugin_exists
    exec (insert_version v (if is_zero v.published_at then now else format_rfc3339 v.published_at))

unfoldable pub set_published_at : Text → Text → Text → ℕ → Db → Db
set_published_at scope name version at d = record d {
  versions =
      update_where (version_matches scope name version) (λ r. record r { published_at = at })
        d.versions;
}

unfoldable pub update_version_published_at : Text → Text → Text → Time → M (Unit {0})
update_version_published_at scope name version published_at = do
  n ←
      update (λ d. length (keep (version_matches scope name version) d.versions))
        (set_published_at scope name version (format_rfc3339 published_at))
  if eqb n 0 then fail not_found else pure tt

unfoldable pub sum_downloads : Text → Text → List VersionRow → ℕ
sum_downloads scope name [] = 0
sum_downloads scope name (r ∷ rs) =
    (if r.scope == scope && r.name == name then r.download_count else 0)
    + sum_downloads scope name rs

unfoldable pub keywords_of : Text → Text → Db → List Text
keywords_of scope name d =
    map (λ k. k.keyword) (keep (λ k. k.scope == scope && k.name == name) d.keywords)

unfoldable pub scan_plugin : PluginRow → ℕ → List Text → Plugin
scan_plugin r total keywords = record {
  scope = r.scope;
  name = r.name;
  description = r.description;
  homepage = r.homepage;
  repository = r.repository;
  license = r.license;
  latest_version = r.latest_version;
  keywords = keywords;
  total_downloads = total;
  created_at = parse_rfc3339 r.created_at;
  updated_at = parse_rfc3339 r.updated_at;
}

unfoldable pub get_plugin : Text → Text → M Plugin
get_plugin scope name = do
  (found, total) ← query (λ d. (find_plugin scope name d, sum_downloads scope name d.versions))
  row ← row_or not_found found
  keywords ← query (keywords_of scope name)
  pure (scan_plugin row total keywords)

unfoldable pub scan_version : VersionRow → Version
scan_version r = record {
  scope = r.scope;
  name = r.name;
  version = r.version;
  checksum = r.checksum;
  manifest_json = r.manifest_json;
  published_at = parse_rfc3339 r.published_at;
  download_count = r.download_count;
}

unfoldable pub get_version : Text → Text → Text → M Version
get_version scope name version = do
  found ← query (find_version scope name version)
  row ← row_or not_found found
  pure (scan_version row)

-- `ORDER BY published_at ASC`; rows of one second stay in the order of insertion.
unfoldable pub insert_by_date : VersionRow → List VersionRow → List VersionRow
insert_by_date r [] = r ∷ []
insert_by_date r (s ∷ rows) =
    if leb r.published_at s.published_at then r ∷ s ∷ rows else s ∷ insert_by_date r rows

unfoldable pub sort_by_date : List VersionRow → List VersionRow
sort_by_date [] = []
sort_by_date (r ∷ rows) = insert_by_date r (sort_by_date rows)

unfoldable pub list_versions : Text → Text → M (List Version)
list_versions scope name = do
  rows ← query (λ d. sort_by_date (keep (λ r. r.scope == scope && r.name == name) d.versions))
  pure (map scan_version rows)

unfoldable pub count_download : Text → Text → Text → Db → Db
count_download scope name version d = record d {
  versions =
      update_where (version_matches scope name version)
        (λ r. record r { download_count = r.download_count + 1 }) d.versions;
}

unfoldable pub increment_download_count : Text → Text → Text → M (Unit {0})
increment_download_count scope name version = exec (λ d. ok (count_download scope name version d))
