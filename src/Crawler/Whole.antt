-- ===== src/Crawler/Whole.antt =====
-- The rounds of a crawl, and the crawl as a whole.
use agentreg.Base.{
  Text, ◌==◌, Option, none, some, List, [], ◌∷◌, map, Result, ok, err, Error, All, find, ◌≡◌, refl,
  sym, subst,
}
use agentreg.Manifest.{Bundle}
use agentreg.Manifest.Reading.{read_folder, validate_at}
use agentreg.Manifest.Validate.{validate_dir, Folder}
use agentreg.Pack.Extract.{Disk, mkdir_all, next_fault, past_fault, call, call_at, Fault}
use agentreg.Program.{outcome, ◌>>=◌}
use agentreg.Program.Gives.{Gives, Gives-bind, Gives-done, Gives-if, Gives-finally, Gives-outcome}
use agentreg.Process.{Process, on_disk}
use agentreg.Crawler.{RepoUrl, parse_repo_url, message}
use agentreg.Crawler.Github.{resolve_default_branch}
use agentreg.Crawler.Crawl.{
  Entry, Finding, CacheEntry, Cache, Crawl, with_bundle, validated_finding, validate_in, checkout,
  repo_dir, checkout_at, fetch_into, in_checkout, at_ref, cache_key, ref_or_default, at_repo,
  crawl_entry, crawl_entries, crawl_in, crawl, remove_work_dir, plugin_dir, sanitized,
}
use agentreg.Crawler.Consistent.{
  IsConsistent, IsFor, IsFresh, IsFresh-IsConsistent, IsReady, mirrored-IsFor,
}

module _ (k : Crawl) where
  -- Fetched or not, and not validated so far.
  pub record IsClean (r : Finding) : Type 0 where
    pub clean_validation : r.validation_error ≡ []
    pub clean_fetch : r.fetch_error ≡ []
    pub no_error : r.publish_error ≡ []
    pub fresh : IsFresh k r

  with_bundle-IsReady :
      (r : Finding) (f : Folder) (b : Bundle)
      → IsClean r
      → validate_dir k.tools.validators f ≡ ok b
      → IsReady k (with_bundle k r b)
  with_bundle-IsReady r f b h e = record {
    clean_fetch = h.clean_fetch;
    clean_validation = h.clean_validation;
    validation = record {
      folder = f;
      bundle = b;
      passed = e;
      name = refl;
      version = refl;
      skills = refl;
    };
    is_valid = refl;
    unpublished = h.fresh.unpublished;
    no_error = h.no_error;
    undated = h.fresh.undated;
  }

  IsFresh-fetch_error :
      (r : Finding) (m : Text) → IsFresh k r → IsConsistent k (record r { fetch_error = m })
  IsFresh-fetch_error r m h =
      IsFresh-IsConsistent k _
        (record { invalid = h.invalid; unpublished = h.unpublished; undated = h.undated })

  IsFresh-validation_error :
      (r : Finding) (m : Text) → IsFresh k r → IsConsistent k (record r { validation_error = m })
  IsFresh-validation_error r m h =
      IsFresh-IsConsistent k _
        (record { invalid = h.invalid; unpublished = h.unpublished; undated = h.undated })

  validated-IsFor :
      (r : Finding) (dir : Text) (f : Folder) (x : Result Bundle)
      → IsClean r
      → validate_dir k.tools.validators f ≡ x
      → Gives (validated_finding k r dir x) (IsFor k r.entry)
  validated-IsFor r dir f (err e) h q =
      Gives-done _ (refl, IsFresh-validation_error r (sanitized k (message e)) h.fresh)
  validated-IsFor r dir f (ok b) h q =
      mirrored-IsFor k k.publish (with_bundle k r b) dir refl (with_bundle-IsReady r f b h q)

  validate_in-IsFor :
      (r : Finding) (dir : Text) → IsClean r → Gives (validate_in k r dir) (IsFor k r.entry)
  unfolding validate_in validate_at on_disk outcome
  validate_in-IsFor r dir h =
      Gives-bind (λ x. (f : Folder) × (validate_dir k.tools.validators f ≡ x))
        (record {
          at = λ c. (
            validate_dir k.tools.validators (read_folder dir c.disk).0,
            refl,
            ((read_folder dir c.disk).0, refl),
          );
        })
        λ x q. validated-IsFor r dir q.0 x h q.1

  fetch_into-Gives :
      (r : Finding) (dir : Text) (x : Result (Unit {0}))
      → Gives (fetch_into k r dir x) (λ e. Unit {0})
  fetch_into-Gives r dir (err e) = Gives-done _ tt
  fetch_into-Gives r dir (ok u) = Gives-bind _ (Gives-outcome _) λ x u. Gives-done _ tt

  checkout_at-Gives :
      (cache : Cache) (r : Finding) (o : Option (Text × CacheEntry))
      → Gives (checkout_at k cache r o) (λ x. Unit {0})
  checkout_at-Gives cache r (some hit) = Gives-done _ tt
  checkout_at-Gives cache r none =
      Gives-bind _ (Gives-outcome (on_disk (mkdir_all (repo_dir k cache))))
        λ made u. Gives-bind _ (fetch_into-Gives r (repo_dir k cache) made) λ e u. Gives-done _ tt

  checkout-Gives : (cache : Cache) (r : Finding) → Gives (checkout k cache r) (λ x. Unit {0})
  unfolding checkout
  checkout-Gives cache r =
      checkout_at-Gives cache r (find (λ x. x.0 == cache_key k r.owner r.repo r.ref) cache)

  in_checkout-IsFor :
      (r : Finding) (x : Cache × CacheEntry) (o : Option Error)
      → IsClean r
      → Gives (in_checkout k r x o) (λ y. IsFor k r.entry y.1)
  in_checkout-IsFor r x (some e) h =
      Gives-done _ (refl, IsFresh-fetch_error r (sanitized k (message e)) h.fresh)
  in_checkout-IsFor r x none h =
      Gives-bind _ (validate_in-IsFor r (plugin_dir k x.1.dir r.subpath) h) λ y q. Gives-done _ q

  at_ref-IsFor :
      (cache : Cache) (r : Finding) (x : Result Text)
      → IsClean r
      → Gives (at_ref k cache r x) (λ y. IsFor k r.entry y.1)
  at_ref-IsFor cache r (err e) h = Gives-done _ (refl, IsFresh-fetch_error r _ h.fresh)
  at_ref-IsFor cache r (ok ref) h =
      Gives-bind _ (checkout-Gives cache (record r { ref = ref })) λ x u.
        in_checkout-IsFor (record r { ref = ref }) x x.1.error
          (record {
            clean_validation = h.clean_validation;
            clean_fetch = h.clean_fetch;
            no_error = h.no_error;
            fresh = record {
              invalid = h.fresh.invalid;
              unpublished = h.fresh.unpublished;
              undated = h.fresh.undated;
            };
          })

  at_repo-IsFor :
      (cache : Cache) (e : Entry) (x : Result RepoUrl)
      → Gives (at_repo k cache e x) (λ y. IsFor k e y.1)
  at_repo-IsFor cache e (err m) = Gives-done _ (
    refl,
    IsFresh-IsConsistent k _ (record { invalid = refl; unpublished = refl; undated = refl }),
  )
  at_repo-IsFor cache e (ok u) =
      Gives-bind (λ x. Unit {0}) ref_given
        λ x v. at_ref-IsFor cache _ x (record {
          clean_validation = refl;
          clean_fetch = refl;
          no_error = refl;
          fresh = record { invalid = refl; unpublished = refl; undated = refl };
        })
    where
      ref_given : Gives (ref_or_default k u) (λ x. Unit {0})
      ref_given =
          Gives-if (u.ref == [])
            (λ e. Gives-outcome (resolve_default_branch k.tools u.owner u.repo))
            (λ e. Gives-done _ tt)

  -- The findings are about the entries, in their order.
  abbrev pub AreFor : List Entry → List Finding → Type 0
  AreFor es rs = (map (λ r. r.entry) rs ≡ es) × All (IsConsistent k) rs

  crawl_entries-AreFor :
      (cache : Cache) (es : List Entry) → Gives (crawl_entries k cache es) (AreFor es)
  unfolding crawl_entries crawl_entry
  crawl_entries-AreFor cache [] = Gives-done [] (refl, tt)
  crawl_entries-AreFor cache (e ∷ es) =
      Gives-bind _ (at_repo-IsFor cache e (parse_repo_url k.tools.url_parse e.repo_url)) λ x q.
        Gives-bind _ (crawl_entries-AreFor x.0 es)
          λ rs qs. Gives-done _ (cc (q.0, qs.0), (q.1, qs.1))

  made-ok : (o : Option Fault) (f : Disk → Disk) (d : Disk) → o ≡ none → (call_at o f d).0 ≡ ok tt
  made-ok none f d h = refl
  made-ok (some e) f d h = absurd (cc h)

  -- When the working directory can be made, the crawl ends with one consistent finding for each entry, in
  -- the order of the list, whatever the network, the disk and the registry do.
  pub crawl-AreFor :
      (entries : List Entry) (c : Process)
      → next_fault c.disk ≡ none
      → (rs : List Finding) × ((crawl k entries c).0 ≡ ok rs) × AreFor entries rs
  unfolding crawl mkdir_all call on_disk outcome ◌>>=◌
  crawl-AreFor entries c h =
      let made =
        call_at (next_fault c.disk) (λ d. record d { dirs = k.work_dir ∷ d.dirs })
          (past_fault c.disk) in
      subst
        (λ x.
          (rs : List Finding) × ((crawl_in k entries x (record c { disk = made.1 })).0 ≡ ok rs)
          × AreFor entries rs)
        (sym (made-ok (next_fault c.disk) _ (past_fault c.disk) h))
        ((Gives-finally (remove_work_dir k) (crawl_entries-AreFor [] entries)).at
          (record c { disk = made.1 }))
