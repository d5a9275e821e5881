-- ===== src/Registry/Immutable.antt =====
-- Versions are immutable: what a publish recorded stays as it was.
use agentreg.Base.{
  ℕ, Text, Bool, if◌then◌else◌, some, List, [], ◌∷◌, find, find-append_found, find-update_where,
  update_where, ◌≡◌, refl, arith,
}
use agentreg.Store.{NewVersion}
use agentreg.World.{World, VersionRow}
use agentreg.Sqlite.Plugins.{
  version_matches, version_row, find_version, insert_version, set_published_at, count_download,
}
use agentreg.Sqlite.Stable.{Stable, Preserves, PreservesOk}
use agentreg.Sqlite.Tables.{Stable-versions, PublishStable-versions}
use agentreg.Registry.{Registry}
use agentreg.Registry.History.{Call, run, run-keeps, Keeps-publish}

module _ (scope name version checksum json : Text) where
  -- The table has the version, with this checksum and this manifest.
  abbrev pub IsIn : List VersionRow → Type 0
  IsIn rows =
      (row : VersionRow) × (find (version_matches scope name version) rows ≡ some row)
      × (row.checksum ≡ checksum)
      × (row.manifest_json ≡ json)

  insert_version-IsIn :
      (v : NewVersion) (at : ℕ) → PreservesOk (λ d b. IsIn d.versions) (insert_version v at)
  unfolding insert_version
  insert_version-IsIn v at d d' b e (row, found, c, j) = (
    row,
    ground (
      arith,
      find-append_found (version_matches scope name version) d.versions (version_row v at ∷ []) row,
    ),
    c,
    j,
  )

  -- A rewrite that keeps the key, the checksum and the manifest keeps the version in the table.
  rewrite-IsIn :
      (p : VersionRow → Bool) (f : VersionRow → VersionRow) (rows : List VersionRow)
      → ((r : VersionRow)
          → (version_matches scope name version (f r) ≡ version_matches scope name version r)
            × ((f r).checksum ≡ r.checksum)
            × ((f r).manifest_json ≡ r.manifest_json))
      → IsIn rows
      → IsIn (update_where p f rows)
  rewrite-IsIn p f rows k (row, found, c, j) = (
    if p row then f row else row,
    rw (find-update_where _ p f rows (λ r. (k r).0), found),
    ground (arith, k row),
    ground (arith, k row),
  )

  set_published_at-IsIn :
      (s n v : Text) (at : ℕ) → Preserves (λ d b. IsIn d.versions) (set_published_at s n v at)
  unfolding set_published_at version_matches
  set_published_at-IsIn s n v at d b h = rewrite-IsIn _ _ d.versions (λ r. (refl, refl, refl)) h

  count_download-IsIn : (s n v : Text) → Preserves (λ d b. IsIn d.versions) (count_download s n v)
  unfolding count_download version_matches
  count_download-IsIn s n v d b h = rewrite-IsIn _ _ d.versions (λ r. (refl, refl, refl)) h

  IsIn-Stable : Stable (λ d b. IsIn d.versions)
  IsIn-Stable = Stable-versions (λ rows b. IsIn rows) set_published_at-IsIn count_download-IsIn

-- Whatever calls follow, and whichever of them fail, a version that is in the table stays there with
-- the checksum and the manifest that it has.
pub find_version-run :
    (r : Registry) (cs : List Call) (w : World) (scope name version : Text) (row : VersionRow)
    → find_version scope name version w.db ≡ some row
    → (later : VersionRow) × (find_version scope name version (run r cs w).db ≡ some later)
      × (later.checksum ≡ row.checksum)
      × (later.manifest_json ≡ row.manifest_json)
unfolding find_version
find_version-run r cs w scope name version row found =
    run-keeps r (IsIn-Stable scope name version row.checksum row.manifest_json)
      (Keeps-publish r
        (PublishStable-versions
          (λ rows b. IsIn scope name version row.checksum row.manifest_json rows))
        (insert_version-IsIn scope name version row.checksum row.manifest_json)
        (λ d b target content missing h. h))
      cs w (row, found, refl, refl)
