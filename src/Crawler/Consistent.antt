-- ===== src/Crawler/Consistent.antt =====
-- Lemmas on the findings of a crawl (internal/crawler/crawler.go).
use agentreg.Base.{
  Text, ◌==◌, Bool, true, false, Option, none, some, [], Result, ok, err, ◌≡◌, ◌≢◌, refl,
  Bool-cases, inl, inr, ==_refl,
}
use agentreg.Store.{Time}
use agentreg.Manifest.{Bundle}
use agentreg.Manifest.Validate.{validate_dir, Folder}
use agentreg.Program.Gives.{Gives, Gives-bind, Gives-done, Gives-if, Gives-outcome}
use agentreg.Crawler.Mirror.{PublishConfig, version_already_published}
use agentreg.Crawler.Crawl.{
  Entry, Finding, Crawl, publish_done, mirror_dated, mirror_checked, mirror, mirrored,
  is_already_published,
}

module _ (k : Crawl) where
  -- The plugin's directory passed validation, with the name, version and skills that the finding has.
  pub record Validated (r : Finding) : Type 0 where
    pub folder : Folder
    pub bundle : Bundle
    pub passed : validate_dir k.tools.validators folder ≡ ok bundle
    pub name : r.plugin_name ≡ bundle.plugin.name
    pub version : r.plugin_version ≡ bundle.plugin.version
    pub skills : r.skills ≡ bundle.skills

  -- A finding is valid only without errors of fetching and validating, and then its directory passed
  -- validation; it is published only when it is valid, has a version, and there is no error of
  -- publishing and a registry to mirror into; it has an upstream date only when it is published.
  pub record IsConsistent (r : Finding) : Type 0 where
    pub fetched_valid :
        r.valid ≡ true → (r.fetch_error ≡ []) × (r.validation_error ≡ []) × Validated r
    pub published_valid :
        r.published ≡ true
        → (r.valid ≡ true) × (r.plugin_version ≢ []) × (r.publish_error ≡ []) × (k.publish ≢ none)
    pub dated_published : (date : Time) → r.upstream_published_at ≡ some date → r.published ≡ true

  -- The finding is about the entry and is consistent.
  abbrev pub IsFor : Entry → Finding → Type 0
  IsFor e r = (r.entry ≡ e) × IsConsistent r

  -- Not valid, not published.
  pub record IsFresh (r : Finding) : Type 0 where
    pub invalid : r.valid ≡ false
    pub unpublished : r.published ≡ false
    pub undated : r.upstream_published_at ≡ none

  pub IsFresh-IsConsistent : (r : Finding) → IsFresh r → IsConsistent r
  IsFresh-IsConsistent r h = record {
    fetched_valid = λ e. absurd (cc (h.invalid, e));
    published_valid = λ e. absurd (cc (h.unpublished, e));
    dated_published = λ d e. absurd (cc (h.undated, e));
  }

  -- Valid, and not published so far.
  pub record IsReady (r : Finding) : Type 0 where
    pub clean_fetch : r.fetch_error ≡ []
    pub clean_validation : r.validation_error ≡ []
    pub validation : Validated r
    pub is_valid : r.valid ≡ true
    pub unpublished : r.published ≡ false
    pub no_error : r.publish_error ≡ []
    pub undated : r.upstream_published_at ≡ none

  unpublished-IsConsistent :
      (r : Finding) (m : Text) → IsReady r → IsConsistent (record r { publish_error = m })
  unpublished-IsConsistent r m h = record {
    fetched_valid = λ e. (h.clean_fetch, h.clean_validation, revalidated h.validation);
    published_valid = λ e. absurd (cc (h.unpublished, e));
    dated_published = λ d e. absurd (cc (h.undated, e));
  }
    where
      revalidated : Validated r → Validated (record r { publish_error = m })
      revalidated v = record {
        folder = v.folder;
        bundle = v.bundle;
        passed = v.passed;
        name = v.name;
        version = v.version;
        skills = v.skills;
      }

  published-IsConsistent :
      (r : Finding) (date : Option Time)
      → IsReady r
      → r.plugin_version ≢ []
      → k.publish ≢ none
      → IsConsistent (record r { published = true; upstream_published_at = date })
  published-IsConsistent r date h v p = record {
    fetched_valid = λ e. (h.clean_fetch, h.clean_validation, revalidated h.validation);
    published_valid = λ e. (h.is_valid, v, h.no_error, p);
    dated_published = λ d e. refl;
  }
    where
      revalidated :
          Validated r → Validated (record r { published = true; upstream_published_at = date })
      revalidated v = record {
        folder = v.folder;
        bundle = v.bundle;
        passed = v.passed;
        name = v.name;
        version = v.version;
        skills = v.skills;
      }

  -- Still published, at the date of before.
  republished-IsConsistent :
      (r : Finding)
      → IsReady r
      → r.plugin_version ≢ []
      → k.publish ≢ none
      → IsConsistent (record r { published = true })
  republished-IsConsistent r h v p = published-IsConsistent r r.upstream_published_at h v p

  module _ (cfg : PublishConfig) (p : k.publish ≢ none) where
    publish_done-IsFor :
        (r : Finding) (date : Time) (x : Result (Unit {0}))
        → IsReady r
        → r.plugin_version ≢ []
        → IsFor r.entry (publish_done k r date x)
    publish_done-IsFor r date (ok u) h v = (refl, published-IsConsistent r (some date) h v p)
    publish_done-IsFor r date (err e) h v = elim (Bool-cases (is_already_published e)) [
      | inl c ↦ rw c (refl, republished-IsConsistent r h v p)
      | inr c ↦ rw c (refl, unpublished-IsConsistent r _ h)
    ]

    mirror_dated-IsFor :
        (r : Finding) (dir : Text) (x : Result Time)
        → IsReady r
        → r.plugin_version ≢ []
        → Gives (mirror_dated k cfg r dir x) (IsFor r.entry)
    mirror_dated-IsFor r dir (err e) h v = Gives-done _ (refl, unpublished-IsConsistent r _ h)
    mirror_dated-IsFor r dir (ok date) h v =
        Gives-bind _ (Gives-outcome _)
          λ x u. Gives-done (publish_done k r date x) (publish_done-IsFor r date x h v)

    mirror_checked-IsFor :
        (r : Finding) (dir : Text) (x : Result Bool)
        → IsReady r
        → r.plugin_version ≢ []
        → Gives (mirror_checked k cfg r dir x) (IsFor r.entry)
    mirror_checked-IsFor r dir (err e) h v = Gives-done _ (refl, unpublished-IsConsistent r _ h)
    mirror_checked-IsFor r dir (ok true) h v = Gives-done _ (refl, republished-IsConsistent r h v p)
    mirror_checked-IsFor r dir (ok false) h v =
        Gives-bind _ (Gives-outcome _) λ x u. mirror_dated-IsFor r dir x h v

    mirror-IsFor :
        (r : Finding) (dir : Text) → IsReady r → Gives (mirror k cfg r dir) (IsFor r.entry)
    unfolding mirror
    mirror-IsFor r dir h =
        Gives-if (r.plugin_version == []) (λ e. Gives-done _ (refl, unpublished-IsConsistent r _ h))
          λ e.
            Gives-bind _
              (Gives-outcome (version_already_published cfg r.plugin_name r.plugin_version))
              λ x u. mirror_checked-IsFor r dir x h (λ q. absurd (cc (e, q, ==_refl [])))

  pub mirrored-IsFor :
      (o : Option PublishConfig) (r : Finding) (dir : Text)
      → k.publish ≡ o
      → IsReady r
      → Gives (mirrored k o r dir) (IsFor r.entry)
  mirrored-IsFor none r dir e h = Gives-done r (refl, unpublished-IsConsistent r r.publish_error h)
  mirrored-IsFor (some cfg) r dir e h = mirror-IsFor cfg (λ n. absurd (cc (e, n))) r dir h
