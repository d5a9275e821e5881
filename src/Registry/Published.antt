-- ===== src/Registry/Published.antt =====
-- What a successful publish means.
pub mod Whole
use agentreg.Base.{
  ℕ, Text, bytes, ◌==◌, Bool, true, false, not, ◌&&◌, none, some, Option, List, [], ◌∷◌, ◌++◌,
  Result, ok, err, find, any, any-find, find-append, find-update_where, find-append_found,
  find-passes, find-of_any, update_where, ◌≡◌, refl, sym, ap, ◌∙◌, subst, arith, text_iff,
  if◌then◌else◌, ok-injective, conflict, ==_refl, length, not_found, ◌⊎◌, inl, inr,
}
use agentreg.Store.{NewVersion, NewPlugin, Version, is_zero, format_rfc3339, Time}
use agentreg.World.{
  Db, World, VersionRow, PluginRow, M, ◌>>=◌, ◌>>◌, access, pure, fail, time_now, query, exec,
  transaction,
}
use agentreg.World.Keeps.{DiskPredicate, Keeps, Keeps-pure, Keeps-bind, keeps_rules}
use agentreg.World.Ensures.{
  Assertion, Ensures, Ensures-assume, Ensures-bind, Ensures-access, Ensures-pure, Ensures-fail,
  Ensures-if, Ensures-exec, Ensures-query, Ensures-time_now, Ensures-transaction, Ensures-map_error,
  Ensures-weaken,
}
use agentreg.World.Then.{Ensures-Keeps, Ensures-attempt}
use agentreg.Sqlite.{Ensures-row_or}
use agentreg.Sqlite.Plugins.{
  version_matches, plugin_matches, find_version, find_plugin, version_row, plugin_row,
  refresh_plugin, insert_version, insert_plugin, insert_keyword, insert_keywords, update_plugin,
  upsert_plugin, upsert_plugin_and_version, get_version, scan_version,
}
use agentreg.Sqlite.Stable.{Keeps-write}

-- The plugin's row is there and names the version as its latest.
abbrev pub IsLatest : Text → Text → Text → Db → Type 0
IsLatest scope name version d =
    (row : PluginRow) × (find_plugin scope name d ≡ some row) × (row.latest_version ≡ version)

module _ (p : NewPlugin) (latest : Text) where
  update_plugin-IsLatest :
      (at : ℕ) (d : Db)
      → any (plugin_matches p.scope p.name) d.plugins ≡ true
      → IsLatest p.scope p.name latest (update_plugin p latest at d)
  unfolding update_plugin find_plugin refresh_plugin plugin_matches
  update_plugin-IsLatest at d h =
      let (row, found) = find-of_any (plugin_matches p.scope p.name) d.plugins h in
      (
        refresh_plugin p latest at row,
        ground (
          arith,
          found,
          find-passes (plugin_matches p.scope p.name) d.plugins row found,
          find-update_where (plugin_matches p.scope p.name) (plugin_matches p.scope p.name)
              (refresh_plugin p latest at) d.plugins (λ r. refl),
        ),
        refl,
      )

  insert_plugin-IsLatest :
      (at : ℕ) (d d' : Db) → insert_plugin p latest at d ≡ ok d' → IsLatest p.scope p.name latest d'
  unfolding insert_plugin find_plugin plugin_matches
  insert_plugin-IsLatest at d d' e = (
    plugin_row p latest at,
    ground (
      arith,
      find-append (plugin_matches p.scope p.name) d.plugins (plugin_row p latest at ∷ []),
      any-find (plugin_matches p.scope p.name) d.plugins,
      ==_refl p.scope,
      ==_refl p.name,
    ),
    refl,
  )

  update_plugin-versions : (at : ℕ) (d : Db) → (update_plugin p latest at d).versions ≡ d.versions
  unfolding update_plugin
  update_plugin-versions at d = refl

  insert_plugin-versions :
      (at : ℕ) (d d' : Db) → insert_plugin p latest at d ≡ ok d' → d'.versions ≡ d.versions
  unfolding insert_plugin
  insert_plugin-versions at d d' e = ground arith

  insert_keywords-Keeps :
      (rows : List VersionRow) (scope name : Text) (kws : List Text)
      → Keeps
          (λ d b. IsLatest p.scope p.name latest d × (d.versions ≡ rows))
          (insert_keywords scope name kws)
  unfolding insert_keywords insert_keyword find_plugin
  insert_keywords-Keeps rows scope name [] = Keeps-pure tt
  insert_keywords-Keeps rows scope name (kw ∷ kws) =
      Keeps-bind _ _ (Keeps-write (insert_keyword scope name kw) (λ d b h. h))
        λ _. insert_keywords-Keeps rows scope name kws

  upsert_plugin-Ensures :
      (at : ℕ) (d0 : Db) (exists : Bool)
      → any (plugin_matches p.scope p.name) d0.plugins ≡ exists
      → Ensures
          (λ d b t. d ≡ d0)
          (upsert_plugin p latest at exists)
          (λ _ d b t. IsLatest p.scope p.name latest d × (d.versions ≡ d0.versions))
  unfolding upsert_plugin
  upsert_plugin-Ensures at d0 true h =
      Ensures-weaken _ _ _ (λ d b t e. e)
        (λ _ d b t (d1, e, w). subst IsKept (ok-injective w) (
          subst (λ x. IsKept (update_plugin p latest at x)) (sym e)
            (update_plugin-IsLatest at d0 h, update_plugin-versions at d0)))
        (Ensures-exec _)
    where
      IsKept : Db → Type 0
      IsKept d = IsLatest p.scope p.name latest d × (d.versions ≡ d0.versions)
  upsert_plugin-Ensures at d0 false h =
      Ensures-bind (λ _ d b t. IsLatest p.scope p.name latest d × (d.versions ≡ d0.versions)) _ _
        (Ensures-weaken _ _ _ (λ d b t e. e)
          (λ _ d b t (d1, e, w). (
            insert_plugin-IsLatest at d1 d w,
            insert_plugin-versions at d1 d w ∙ ap (λ x. x.versions) e,
          ))
          (Ensures-exec _))
        λ _. Ensures-Keeps _ (insert_keywords-Keeps d0.versions p.scope p.name p.keywords)

module _ (p : NewPlugin) (v : NewVersion) where
  -- The tables before and after a version was recorded.
  pub record Recorded (d d' : Db) : Type 0 where
    pub fresh : find_version v.scope v.name v.version d ≡ none
    pub at : ℕ
    pub stored : find_version v.scope v.name v.version d' ≡ some (version_row v at)
    pub latest : IsLatest p.scope p.name v.version d'

  insert_version-Recorded :
      (at : ℕ) (d0 d d' : Db)
      → any (version_matches v.scope v.name v.version) d0.versions ≡ false
      → IsLatest p.scope p.name v.version d
      → d.versions ≡ d0.versions
      → insert_version v at d ≡ ok d'
      → Recorded d0 d'
  unfolding insert_version find_version find_plugin version_matches
  insert_version-Recorded at d0 d d' absent latest same e = record {
    fresh = any-find (version_matches v.scope v.name v.version) d0.versions absent;
    at = at;
    stored = ground (
      arith,
      find-append (version_matches v.scope v.name v.version) d.versions (version_row v at ∷ []),
      any-find (version_matches v.scope v.name v.version) d.versions,
      ==_refl v.scope,
      ==_refl v.name,
      ==_refl v.version,
    );
    latest = (latest.0, ground (arith, latest.1), latest.2);
  }

  pub upsert_plugin_and_version-Ensures :
      (d0 : Db)
      → Ensures (λ d b t. d ≡ d0) (upsert_plugin_and_version p v) (λ _ d b t. Recorded d0 d)
  unfolding upsert_plugin_and_version
  upsert_plugin_and_version-Ensures d0 = Ensures-transaction _ (
      Ensures-bind (λ _ d b t. d ≡ d0) _ _
        (Ensures-weaken _ _ _ (λ d b t e. e) (λ a d b t h. h.1.1) Ensures-time_now)
        λ t. Ensures-bind _ _ _ (Ensures-query _) λ exists.
          Ensures-if exists _ _ (λ _. Ensures-fail conflict)
            λ absent. Ensures-bind _ _ _ (Ensures-query _) λ plugin_exists.
              Ensures-assume (Facts exists plugin_exists) _
                (λ d b t h. facts exists plugin_exists d h.0.0 h.0.1 h.1)
                λ f.
                  Ensures-weaken (λ d b t. d ≡ d0) _ _ (λ d b t h. h.0.0) (λ _ d b t h. h)
                    (Ensures-bind _ _ _
                      (upsert_plugin-Ensures p v.version (format_rfc3339 t) d0 plugin_exists f.1)
                      λ _.
                        Ensures-weaken _ _ _ (λ d b t h. h)
                          (λ _ d b t (d1, h, e).
                            insert_version-Recorded _ d0 d1 d (f.0 ∙ absent) h.0 h.1 e)
                          (Ensures-exec _)))
    where
      Facts : Bool → Bool → Type 0
      Facts exists plugin_exists =
          (any (version_matches v.scope v.name v.version) d0.versions ≡ exists)
          × (any (plugin_matches p.scope p.name) d0.plugins ≡ plugin_exists)

      facts :
          (exists plugin_exists : Bool) (d : Db)
          → d ≡ d0
          → exists ≡ any (version_matches v.scope v.name v.version) d.versions
          → plugin_exists ≡ any (plugin_matches p.scope p.name) d.plugins
          → Facts exists plugin_exists
      facts exists plugin_exists d e h k = (
        sym (h ∙ ap (λ x. any (version_matches v.scope v.name v.version) x.versions) e),
        sym (k ∙ ap (λ x. any (plugin_matches p.scope p.name) x.plugins) e),
      )
