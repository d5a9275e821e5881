-- ===== src/Registry/Integrity.antt =====
-- The checksum that a version was recorded with is that of the blob that a download of it reads.
use agentreg.Base.{
  ℕ, Text, none, some, Option, List, [], ◌∷◌, ok, All, All-append, All-impl, All-update_where, ◌≡◌,
  refl, arith, text_iff, ==_refl, length,
}
use agentreg.World.{World, VersionRow}
use agentreg.World.Keeps.{DiskPredicate, Keeps, Keeps-bind, Keeps-map_error}
use agentreg.World.Ensures.{Ensures, Ensures-bind, Ensures-access, Ensures-pure, Ensures-map_error}
use agentreg.World.Then.{Keeps-then}
use agentreg.Fsblob.{path, lookup_blob, link, link_at, put}
use agentreg.Sqlite.Plugins.{version_row, insert_version, set_published_at, count_download}
use agentreg.Sqlite.Stable.{
  Stable, PublishStable, Preserves, PreservesOk, Keeps-upsert_plugin_and_version,
}
use agentreg.Sqlite.Tables.{Stable-versions, PublishStable-versions}
use agentreg.Registry.{Registry, PublishInput, store_version, new_plugin, new_version}
use agentreg.Registry.History.{
  Call, run, run-keeps, Grows, Keeps-put, Keeps-publish-store, Keeps-must_be_missing,
  Keeps-marshalled, registry_rules,
}

module _ (r : Registry) where
  -- There is a blob where the version's is looked for, and it hashes to the recorded checksum.
  abbrev pub IsBacked : List (Text × Text) → VersionRow → Type 0
  IsBacked blobs row =
      (content : Text) × (lookup_blob (path r.blob_root row.scope row.name row.version) blobs
        ≡ some content)
      × (r.sha256 content ≡ row.checksum)

  -- Of every version.
  abbrev pub AreBacked : DiskPredicate
  AreBacked d blobs = All (IsBacked blobs) d.versions

  lookup_blob-cons :
      (p q content old : Text) (blobs : List (Text × Text))
      → lookup_blob q blobs ≡ none
      → lookup_blob p blobs ≡ some old
      → lookup_blob p ((q, content) ∷ blobs) ≡ some old
  unfolding lookup_blob
  lookup_blob-cons p q content old blobs fresh h = ground (arith, text_iff q p)

  IsBacked-Grows : Grows AreBacked
  IsBacked-Grows d blobs target content fresh h =
      All-impl (IsBacked blobs) (IsBacked ((target, content) ∷ blobs)) d.versions
        (λ row (old, found, sum).
          (old, lookup_blob-cons _ target content old blobs fresh found, sum))
        h

  set_published_at-AreBacked :
      (s n v : Text) (at : ℕ) → Preserves AreBacked (set_published_at s n v at)
  unfolding set_published_at
  set_published_at-AreBacked s n v at d b h =
      All-update_where (IsBacked b) _ _ d.versions (λ row k. k) h

  count_download-AreBacked : (s n v : Text) → Preserves AreBacked (count_download s n v)
  unfolding count_download
  count_download-AreBacked s n v d b h = All-update_where (IsBacked b) _ _ d.versions (λ row k. k) h

  AreBacked-Stable : Stable AreBacked
  AreBacked-Stable =
      Stable-versions (λ rows b. All (IsBacked b) rows) set_published_at-AreBacked
        count_download-AreBacked

  -- What a successful `put` adds: the tarball is there, under the checksum.
  abbrev Uploaded : PublishInput → Text → DiskPredicate
  Uploaded i checksum d b =
      AreBacked d b
      × (lookup_blob (path r.blob_root i.scope i.name i.version) b ≡ some i.tarball)
      × (r.sha256 i.tarball ≡ checksum)

  insert_version-Uploaded :
      (i : PublishInput) (checksum json : Text) (at : ℕ)
      → PreservesOk (Uploaded i checksum) (insert_version (new_version i checksum json) at)
  unfolding insert_version new_version
  insert_version-Uploaded i checksum json at d d' b e (backed, there, sum) = (
    ground (
      arith,
      All-append (IsBacked b) d.versions (version_row (new_version i checksum json) at ∷ []) backed
          ((i.tarball, there, sum), tt),
    ),
    there,
    sum,
  )

  Uploaded-publishes : (i : PublishInput) (checksum : Text) → PublishStable (Uploaded i checksum)
  Uploaded-publishes i checksum = PublishStable-versions (λ rows b.
      All (IsBacked b) rows
      × (lookup_blob (path r.blob_root i.scope i.name i.version) b ≡ some i.tarball)
      × (r.sha256 i.tarball ≡ checksum))

  link_at-Uploaded :
      (i : PublishInput) (o : Option Text) (w : World)
      → let p = path r.blob_root i.scope i.name i.version in
        lookup_blob p w.blobs ≡ o
        → AreBacked w.db w.blobs
        → (link_at o p i.tarball w).0 ≡ ok tt
        → Uploaded i
            (r.sha256 i.tarball)
            (link_at o p i.tarball w).1.db
            (link_at o p i.tarball w).1.blobs
  unfolding lookup_blob
  link_at-Uploaded i none w e h x = (
    IsBacked-Grows w.db w.blobs (path r.blob_root i.scope i.name i.version) i.tarball e h,
    rw ==_refl,
    refl,
  )
  link_at-Uploaded i (some old) w e h x = cc

  put-Uploaded :
      (i : PublishInput)
      → Ensures
          (λ d b t. AreBacked d b)
          (put r.sha256 r.blob_root i.scope i.name i.version i.tarball)
          (λ a d b t. Uploaded i a.0 d b)
  unfolding put link
  put-Uploaded i = Ensures-bind _ _ _ Ensures-access λ _. Ensures-bind _ _ _ Ensures-access λ _.
      Ensures-bind _ _ _ Ensures-access λ _. Ensures-bind _ _ _ Ensures-access λ _.
        Ensures-bind _ _ _ Ensures-access λ _.
          Ensures-bind (λ _ d b t. Uploaded i (r.sha256 i.tarball) d b) _ _
            (record { at = λ w u h e. link_at-Uploaded i _ w refl h e })
            λ _. Ensures-pure (r.sha256 i.tarball, length i.tarball) λ d b t h. h

  store_version-AreBacked : (i : PublishInput) → Keeps AreBacked (store_version r i)
  unfolding store_version
  store_version-AreBacked i = Keeps-bind _ _ (search (registry_rules)) λ existing.
      Keeps-bind _ _ (Keeps-must_be_missing existing) λ _.
        Keeps-then (λ a. Uploaded i a.0) _ _
          (Keeps-map_error _ _ (Keeps-put IsBacked-Grows _ _ _ _ _ _))
          (Ensures-map_error _ _ (put-Uploaded i))
          (λ a. Keeps-bind _ _ (Keeps-marshalled _) λ json.
            Keeps-bind _ _
              (Keeps-upsert_plugin_and_version (Uploaded-publishes i a.0) (new_plugin i)
                (new_version i a.0 json) (insert_version-Uploaded i a.0 json))
              λ _. search registry_rules)
          (λ a d b h. h.0)

  -- Every call keeps the versions backed by their blobs, so any history does, failures included.
  pub run-AreBacked :
      (cs : List Call) (w : World)
      → AreBacked w.db w.blobs
      → AreBacked (run r cs w).db (run r cs w).blobs
  run-AreBacked =
      run-keeps r AreBacked-Stable (λ i. Keeps-publish-store r i (store_version-AreBacked i))
