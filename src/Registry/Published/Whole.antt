-- ===== src/Registry/Published/Whole.antt =====
-- The whole of a publish, from its guards to the version that it returns.
use agentreg.Base.{
  Text, bytes, ◌==◌, true, false, not, ◌++◌, some, Option, none, ok, ◌≡◌, refl, sym, subst, ◌∙◌,
  arith, text_iff, not_found, length,
}
use agentreg.Store.{Version}
use agentreg.World.{Db, World, VersionRow}
use agentreg.World.Ensures.{
  Assertion, Ensures, Ensures-any, Ensures-both, Ensures-assume, Ensures-bind, Ensures-pure,
  Ensures-fail, Ensures-if, Ensures-map_error, Ensures-weaken, Ensures-query,
}
use agentreg.World.Then.{Ensures-Keeps, Ensures-attempt}
use agentreg.Fsblob.{put}
use agentreg.Sqlite.{Ensures-row_or}
use agentreg.Sqlite.Plugins.{version_row, find_version, get_version, scan_version}
use agentreg.Sqlite.Stable.{Keeps-get_version}
use agentreg.Registry.{
  Registry, PublishInput, publish, store_version, marshalled, new_plugin, new_version,
}
use agentreg.Registry.History.{Keeps-must_be_missing, Keeps-put, registry_rules}
use agentreg.Registry.Published.{Recorded, upsert_plugin_and_version-Ensures}

module _ (r : Registry) (i : PublishInput) where
  -- What a success with `v` says, of the tables before and after.
  pub record Published (d : Db) (v : Version) (d' : Db) : Type 0 where
    pub owner : i.requestor ≡ i.scope
    pub same_name : i.bundle.plugin.name ≡ i.name
    pub same_version : i.bundle.plugin.version ≡ i.version
    pub semver : r.semver_is_valid (bytes "v" ++ i.version) ≡ true
    pub json : Text
    pub marshals : r.marshal i.bundle.plugin ≡ some json
    pub recorded : Recorded (new_plugin i) (new_version i (r.sha256 i.tarball) json) d d'
    pub returned :
        v ≡ scan_version (version_row (new_version i (r.sha256 i.tarball) json) recorded.at)

  -- The part after the guards.
  abbrev Stored : Db → Version → Db → Type 0
  Stored d v d' =
      (json : Text) × (r.marshal i.bundle.plugin ≡ some json)
      × ((k : Recorded (new_plugin i) (new_version i (r.sha256 i.tarball) json) d d') × (v
            ≡ scan_version (version_row (new_version i (r.sha256 i.tarball) json) k.at)))

  marshalled-Ensures :
      (P : Assertion) (o : Option Text)
      → Ensures P (marshalled o) (λ json d b t. P d b t × (o ≡ some json))
  unfolding marshalled
  marshalled-Ensures P none = Ensures-fail _
  marshalled-Ensures P (some json) = Ensures-pure json (λ d1 b t h. (h, refl))

  put-checksum :
      (d : Db)
      → Ensures
          (λ d1 b t. d1 ≡ d)
          (put r.sha256 r.blob_root i.scope i.name i.version i.tarball)
          (λ a d1 b t. a.0 ≡ r.sha256 i.tarball)
  unfolding put
  put-checksum d = Ensures-bind _ _ _ (Ensures-any _) λ _. Ensures-bind _ _ _ (Ensures-any _) λ _.
      Ensures-bind _ _ _ (Ensures-any _) λ _. Ensures-bind _ _ _ (Ensures-any _) λ _.
        Ensures-bind _ _ _ (Ensures-any _) λ _.
          Ensures-bind _ _ _ (Ensures-any _)
            λ _. Ensures-pure (r.sha256 i.tarball, length i.tarball) λ d1 b t h. refl

  get_version-Ensures :
      (P : Assertion)
      → Ensures P (get_version i.scope i.name i.version) (λ v d b t.
        P d b t
        × ((row : VersionRow) × (find_version i.scope i.name i.version d ≡ some row)
            × (v ≡ scan_version row)))
  unfolding get_version
  get_version-Ensures P = Ensures-bind _ _ _ (Ensures-query _) λ found.
      Ensures-bind _ _ _ (Ensures-row_or not_found found)
        λ row. Ensures-pure _ λ d b t h. (h.0.0, (row, sym h.0.1 ∙ h.1, refl))

  to_stored :
      (d d' : Db) (checksum json : Text) (v : Version) (row : VersionRow)
      → checksum ≡ r.sha256 i.tarball
      → r.marshal i.bundle.plugin ≡ some json
      → Recorded (new_plugin i) (new_version i checksum json) d d'
      → find_version i.scope i.name i.version d' ≡ some row
      → v ≡ scan_version row
      → Stored d v d'
  unfolding new_version
  to_stored d d' checksum json v row e m k found got = (
    json,
    m,
    (subst (λ c. Recorded (new_plugin i) (new_version i c json) d d') e k, cc (k.stored)),
  )

  store_version-Ensures :
      (d : Db) → Ensures (λ d1 b t. d1 ≡ d) (store_version r i) (λ v d' b t. Stored d v d')
  unfolding store_version
  store_version-Ensures d =
      Ensures-bind (λ _ d1 b t. d1 ≡ d) _ _
        (Ensures-attempt _ (Keeps-get_version i.scope i.name i.version))
        λ existing.
          Ensures-bind (λ _ d1 b t. d1 ≡ d) _ _ (Ensures-Keeps _ (Keeps-must_be_missing existing))
            λ _.
              Ensures-bind _ _ _
                (Ensures-map_error _ _ (
                  Ensures-both _ _ _ (Ensures-Keeps _ (Keeps-put (λ d1 b p c e h. h) _ _ _ _ _ _))
                    (put-checksum d)))
                λ (checksum, size). Ensures-bind _ _ _ (marshalled-Ensures _ _) λ json.
                  Ensures-assume
                    ((checksum ≡ r.sha256 i.tarball) × (r.marshal i.bundle.plugin ≡ some json)) _
                    (λ d1 b t h. (h.0.1, h.1))
                    λ f.
                      Ensures-bind _ _ _
                        (Ensures-weaken (λ d1 b t. d1 ≡ d) _ _ (λ d1 b t h. h.0.0) (λ _ d1 b t h. h)
                          (upsert_plugin_and_version-Ensures (new_plugin i)
                            (new_version i checksum json) d))
                        λ _.
                          Ensures-weaken _ _ _ (λ d1 b t h. h)
                            (λ v d1 b t h.
                              to_stored d d1 checksum json v h.1.0 f.0 f.1 h.0 h.1.1 h.1.2)
                            (get_version-Ensures _)

  not-not : (s t : Text) → not (s == t) ≡ false → s ≡ t
  not-not s t h = ground (arith, text_iff s t)

  -- A success means: the requestor owns the scope, the manifest has the name and the version of the
  -- request, the version is valid and was not there before; it is recorded with the checksum of the
  -- tarball, it is the plugin's latest version, and it is what is returned.
  pub publish-Published :
      (w : World) (v : Version) → (publish r i w).0 ≡ ok v → Published w.db v (publish r i w).1.db
  unfolding publish
  publish-Published w v e = (guarded w.db).at w v refl e
    where
      guarded : (d : Db) → Ensures (λ d1 b t. d1 ≡ d) (publish r i) (λ v d' b t. Published d v d')
      guarded d =
          Ensures-if (not (i.requestor == i.scope)) _ _ (λ _. Ensures-fail _)
            λ own.
              Ensures-if (not (i.bundle.plugin.name == i.name)) _ _ (λ _. Ensures-fail _)
                λ name.
                  Ensures-if (not (i.bundle.plugin.version == i.version)) _ _ (λ _. Ensures-fail _)
                    λ version.
                      Ensures-if (not (r.semver_is_valid (bytes "v" ++ i.version))) _ _
                        (λ _. Ensures-fail _)
                        λ valid.
                          Ensures-bind (λ _ d1 b t. d1 ≡ d) _ _
                            (Ensures-Keeps _ (search registry_rules))
                            λ _.
                              Ensures-weaken _ _ _ (λ d1 b t h. h)
                                (λ v d' b t (json, marshals, (k, got)). record {
                                  owner = not-not _ _ own;
                                  same_name = not-not _ _ name;
                                  same_version = not-not _ _ version;
                                  semver = ground arith;
                                  json = json;
                                  marshals = marshals;
                                  recorded = k;
                                  returned = got;
                                })
                                (store_version-Ensures d)
