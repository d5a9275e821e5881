-- ===== src/Cli/Uploaded.antt =====
-- Lemmas on the requests of cmd/krate/cmd_publish.go.
use agentreg.Base.{
  Text, bytes, ◌==◌, ◌||◌, Option, none, some, List, [], ◌∷◌, ◌++◌, Result, ok, err, wrap, ◌≡◌, ◌≢◌,
  ◌⊎◌, inl, inr, refl, sym, subst, ap, ◌∙◌, Bool, false, ==_refl, Error,
}
use agentreg.Manifest.{Bundle}
use agentreg.Manifest.Validate.{validate_dir}
use agentreg.Manifest.Reading.{read_folder, read_folder-files, validate_at}
use agentreg.Manifest.Valid.{Valid, validate_dir-Valid}
use agentreg.Pack.Extract.{Disk, Fault, D, next_fault}
use agentreg.Program.Runs.{
  Leads, Runs, Runs-bind, Runs-done, Runs-stop, Runs-if, Runs-or_stop, Runs-on_error, Runs-reads,
  Runs-weaken, Runs-from_result, Runs-finally, Runs-modify, Runs-exact, Runs-assume,
}
use agentreg.Process.{
  Process, C, HttpRequest, print, on_disk, create_temp, remove_temp, removed_temp, do_request,
}
use agentreg.Process.Packing.{pack_temp, open_temp}
use agentreg.Cli.Formats.{Formats, CliConfig}
use agentreg.Cli.Wire.{config_path, parsed_config, load_config}
use agentreg.Cli.Publish.{
  dir_of, validated, upload_url, upload_outcome, print_published, upload, publish_as, cmd_publish,
}
use agentreg.Cli.Packed.{Runs-framed, Runs-call, read_file-Runs, IsArchive, dir_archive-Runs}

remove_temp-requests : (c : Process) → (remove_temp c).requests ≡ c.requests
unfolding remove_temp
remove_temp-requests c = at_fault (next_fault c.disk)
  where
    at_fault : (o : Option Fault) → (removed_temp o c).requests ≡ c.requests
    at_fault none = refl
    at_fault (some e) = refl

token_ne_nil : (t : Text) (b : Bool) → ((t == []) || b) ≡ false → t ≢ []
token_ne_nil t b h e =
    absurd (cc (subst (λ x. ((x == []) || b) ≡ false) e h, ap (λ x. x || b) (==_refl [])))

module _ (f : Formats) (before : Process) where
  abbrev Same : Disk → Type 0
  Same d = d.files ≡ before.disk.files

  abbrev IsUnsent : Process → Type 0
  IsUnsent c = c.requests ≡ before.requests

  abbrev IsSame : Process → Type 0
  IsSame c = Same c.disk × IsUnsent c

  -- One request has been sent: with the token of the configuration, an archive of the directory `dir`, which
  -- validates, to the address of the user's plugin of that name and version.
  pub record IsUploaded (dir : Text) (requests : List HttpRequest) : Type 0 where
    pub cfg : CliConfig
    pub bundle : Bundle
    pub checked : Disk
    pub archive : Text
    pub loaded : (load_config f before).0 ≡ ok cfg
    pub has_token : cfg.token ≢ []
    pub checked_files : checked.files ≡ before.disk.files
    pub valid : Valid f.validators (read_folder dir checked).0 bundle
    pub packed : IsArchive before.disk.files f.archiver dir archive
    pub sent :
        requests
        ≡ before.requests
          ++ record {
            method = bytes "PUT";
            url = upload_url cfg bundle;
            token = cfg.token;
            body = archive;
          }
            ∷ []

  abbrev Outcome : Text → Process → Type 0
  Outcome dir c = (c.requests ≡ before.requests) ⊎ IsUploaded dir c.requests

  framed :
      {A : Type 0} {m : D A} {Q : A → Disk → Type 0}
      → Runs Same m Q Same
      → Runs IsSame (on_disk m) (λ a c. Q a c.disk × IsUnsent c) IsSame
  framed h = Runs-framed IsUnsent (λ c d e. e) h

  config_path-Runs : Runs IsSame config_path (λ p. IsSame) IsSame
  unfolding config_path
  config_path-Runs =
      Runs-bind (λ o. IsSame) (Runs-reads (λ c. c.home) λ c h. h)
        λ o.
          Runs-bind (λ p. IsSame) (Runs-or_stop _ o (λ p e c h. h) (λ c h. h))
            λ p. Runs-done _ λ c h. h

  parsed_config-Runs : (b : Option Text) → Runs IsSame (parsed_config f b) (λ cfg. IsSame) IsSame
  parsed_config-Runs none = Runs-done _ λ c h. h
  parsed_config-Runs (some b) = Runs-or_stop _ (f.decode_config b) (λ a e c h. h) (λ c h. h)

  load_config-Runs : Runs IsSame (load_config f) (λ cfg. IsSame) IsSame
  unfolding load_config
  load_config-Runs =
      Runs-bind (λ p. IsSame) config_path-Runs
        λ p.
          Runs-bind (λ b. IsSame) (framed (read_file-Runs before.disk.files p)) parsed_config-Runs

  -- The directory was checked.
  abbrev IsChecked : Text → Bundle → Type 0
  IsChecked dir b =
      (d : Disk) × (d.files ≡ before.disk.files) × Valid f.validators (read_folder dir d).0 b

  validated-Runs :
      (dir : Text) → Runs IsSame (validated f dir) (λ b c. IsSame c × IsChecked dir b) IsSame
  unfolding validated validate_at
  validated-Runs dir =
      Runs-weaken IsSame (λ b c. (Same c.disk × IsChecked dir b) × IsUnsent c) IsSame (λ c h. h)
        (λ b c h. ((h.0.0, h.1), h.0.1)) (λ c h. h)
        (framed (record {
          at = λ d h.
              led (validate_dir f.validators (read_folder dir d).0) d h refl
                (read_folder-files dir d ∙ h);
        }))
    where
      led :
          (r : Result Bundle) (d : Disk)
          → Same d
          → validate_dir f.validators (read_folder dir d).0 ≡ r
          → Same (read_folder dir d).1
          → Leads (λ b d. Same d × IsChecked dir b) Same r (read_folder dir d).1
      led (ok b) d h e k = (k, (d, h, validate_dir-Valid _ _ b e))
      led (err x) d h e k = k

  module _ (dir : Text) where
    abbrev IsPackedAs : Text → Type 0
    IsPackedAs = IsArchive before.disk.files f.archiver dir

    -- The temporary file holds an archive of the directory.
    abbrev HasArchive : Process → Type 0
    HasArchive c = (t : Text) × IsPackedAs t × (c.temp ≡ some t)

    pack_temp-Runs :
        Runs IsSame (pack_temp f.archiver dir) (λ sum c. IsSame c × HasArchive c) IsSame
    unfolding pack_temp
    pack_temp-Runs = Runs-bind _ (framed (dir_archive-Runs before.disk.files f.archiver dir)) λ x.
        Runs-bind (λ u c. IsSame c × HasArchive c)
          (Runs-modify _ λ c h. ((h.0.0, h.1), (x.0, h.0.1, refl))) λ u. Runs-done x.1 λ c h. h

    open_temp-Runs :
        Runs (λ c. IsSame c × HasArchive c) open_temp (λ t c. IsUnsent c × IsPackedAs t) IsUnsent
    unfolding open_temp
    open_temp-Runs =
        Runs-bind (λ u c. IsUnsent c × HasArchive c)
          (Runs-weaken _ _ _ (λ c h. (h.0.0, (h.0.1, h.1))) (λ u c h. h.1) (λ c h. h.1.0)
            (Runs-framed (λ c. IsUnsent c × HasArchive c) (λ c d h. h)
              (Runs-call before.disk.files Same λ d h. h)))
          λ u.
            Runs-bind (λ o c. IsUnsent c × ((t : Text) × IsPackedAs t × (o ≡ some t)))
              (Runs-reads (λ c. c.temp) λ c h. h)
              λ o.
                Runs-or_stop _ o
                  (λ t e c h. (h.0, subst IsPackedAs (same_text h.1.0 t (sym h.1.2 ∙ e)) h.1.1))
                  (λ c h. h.0)
      where
        same_text : (s t : Text) → ◌≡◌ {A = Option Text} (some s) (some t) → s ≡ t
        same_text s t e = cc

    print-Runs :
        (line : Text)
        → Runs
            (λ c. IsUploaded dir c.requests)
            (print line)
            (λ u c. IsUploaded dir c.requests)
            (Outcome dir)
    unfolding print
    print-Runs line = Runs-modify _ λ c h. h

    print_published-Runs :
        (cfg : CliConfig) (b : Bundle) (sum : Text)
        → Runs
            (λ c. IsUploaded dir c.requests)
            (print_published cfg b sum)
            (λ u c. IsUploaded dir c.requests)
            (Outcome dir)
    unfolding print_published
    print_published-Runs cfg b sum =
        Runs-bind (λ u c. IsUploaded dir c.requests) (print-Runs _)
          λ u. print-Runs (
            bytes "View it: " ++ cfg.registry ++ bytes "/@" ++ cfg.username ++ b'/' ∷ b.plugin.name)

    upload-Runs :
        (cfg : CliConfig) (b : Bundle)
        → (load_config f before).0 ≡ ok cfg
        → cfg.token ≢ []
        → IsChecked dir b
        → Runs IsSame (upload f cfg dir b) (λ u c. IsUploaded dir c.requests) (Outcome dir)
    unfolding upload do_request
    upload-Runs cfg b loaded has_token checked =
        Runs-bind (λ sum c. IsSame c × HasArchive c)
          (Runs-on_error (wrap (bytes "pack failed"))
            (Runs-weaken IsSame _ IsSame (λ c h. h) (λ u c h. h) (λ c h. inl h.1) pack_temp-Runs))
          λ sum.
            Runs-bind (λ t c. IsUnsent c × IsPackedAs t)
              (Runs-weaken (λ c. IsSame c × HasArchive c) _ IsUnsent (λ c h. h) (λ u c h. h)
                (λ c h. inl h) open_temp-Runs)
              λ t.
                Runs-bind (λ r c. IsUploaded dir c.requests) (sent t)
                  λ r.
                    Runs-bind (λ u c. IsUploaded dir c.requests)
                      (Runs-from_result (upload_outcome f r) (λ u e c h. h) (λ c h. inr h))
                      λ u. print_published-Runs cfg b sum
      where
        put : Text → HttpRequest
        put t = record { method = bytes "PUT"; url = upload_url cfg b; token = cfg.token; body = t }

        sent :
            (t : Text)
            → Runs
                (λ c. IsUnsent c × IsPackedAs t)
                (do_request (put t))
                (λ r c. IsUploaded dir c.requests)
                (Outcome dir)
        sent t = record {
          at = λ c h. record {
            cfg = cfg;
            bundle = b;
            checked = checked.0;
            archive = t;
            loaded = loaded;
            has_token = has_token;
            checked_files = checked.1;
            valid = checked.2;
            packed = h.1;
            sent = ap (λ x. x ++ put t ∷ []) h.0;
          };
        }

    create_temp-Runs : Runs IsSame create_temp (λ u. IsSame) IsSame
    unfolding create_temp
    create_temp-Runs =
        Runs-bind (λ u. IsSame) (framed (Runs-call before.disk.files Same λ d h. h))
          λ u. Runs-modify _ λ c h. h

    publish_as-Runs :
        (cfg : CliConfig)
        → (load_config f before).0 ≡ ok cfg
        → Runs IsSame (publish_as f cfg dir) (λ u c. IsUploaded dir c.requests) (Outcome dir)
    unfolding publish_as
    publish_as-Runs cfg loaded =
        Runs-if (cfg.token == [] || cfg.registry == []) (λ e. Runs-stop _ λ c h. inl h.1)
          λ e.
            Runs-bind (λ b c. IsSame c × IsChecked dir b)
              (Runs-on_error (wrap (bytes "validation failed")) (unsent (validated-Runs dir)))
              λ b.
                Runs-assume (IsChecked dir b) (λ c h. h.1)
                  λ checked.
                    Runs-bind (λ u. IsSame)
                      (Runs-weaken IsSame _ IsSame (λ c h. h.0) (λ u c h. h) (λ c h. inl h.1)
                        create_temp-Runs)
                      λ u. Runs-finally remove_temp (
                        Runs-weaken IsSame _ (Outcome dir) (λ c h. h)
                          (λ u c. subst (IsUploaded dir) (sym (remove_temp-requests c)))
                          (λ c.
                            subst (λ x. (x ≡ before.requests) ⊎ IsUploaded dir x)
                              (sym (remove_temp-requests c)))
                          (upload-Runs cfg b loaded (token_ne_nil cfg.token (cfg.registry == []) e)
                            checked))
      where
        unsent :
            {A : Type 0} {m : C A} {Q : A → Process → Type 0}
            → Runs IsSame m Q IsSame
            → Runs IsSame m Q (Outcome dir)
        unsent h = Runs-weaken IsSame _ IsSame (λ c k. k) (λ a c k. k) (λ c k. inl k.1) h

  -- A publish fails and sends nothing, or it sends one request, with an archive of a directory that validates.
  pub cmd_publish-IsUploaded :
      (args : List Text)
      → (((cmd_publish f args before).1.requests ≡ before.requests)
          × ((e : Error) × ((cmd_publish f args before).0 ≡ err e)))
        ⊎ IsUploaded (dir_of args) (cmd_publish f args before).1.requests
  unfolding cmd_publish
  cmd_publish-IsUploaded args =
      outcome_of (cmd_publish f args before).0 (cmd_publish f args before).1 (
        (Runs-bind (λ cfg c. ((load_config f before).0 ≡ ok cfg) × IsSame c)
            (Runs-weaken _ _ IsSame (λ c h. h) (λ cfg c h. h) (λ c h. inl h.1)
              (Runs-exact (load_config f) before load_config-Runs (refl, refl)))
            λ cfg.
              Runs-assume ((load_config f before).0 ≡ ok cfg) (λ c h. h.0)
                λ loaded.
                  Runs-weaken IsSame _ _ (λ c h. h.1) (λ u c h. h) (λ c h. h)
                    (publish_as-Runs (dir_of args) cfg loaded)).at
          before refl)
    where
      outcome_of :
          (r : Result (Unit {0})) (c : Process)
          → Leads (λ u c. IsUploaded (dir_of args) c.requests) (Outcome (dir_of args)) r c
          → ((c.requests ≡ before.requests) × ((e : Error) × (r ≡ err e)))
            ⊎ IsUploaded (dir_of args) c.requests
      outcome_of (ok u) c h = inr h
      outcome_of (err e) c (inl h) = inl (h, (e, refl))
      outcome_of (err e) c (inr h) = inr h
