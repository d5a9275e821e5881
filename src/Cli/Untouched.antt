-- ===== src/Cli/Untouched.antt =====
-- What the commands keep true of the files: enough is that removing and filling the target directory and
-- writing the lockfile keep it.
use agentreg.Base.{Text, ◌==◌, not, Option, none, some, List, [], Result, ok, err, wrap, bytes}
use agentreg.Pack.{default_options}
use agentreg.Pack.Extract.{
  Disk, File, Fault, D, next_fault, past_fault, call, call_at, mkdir_all, extract_reader,
}
use agentreg.Program.{◌>>=◌}
use agentreg.Program.Runs.{
  Leads, Runs, Runs-bind, Runs-done, Runs-stop, Runs-if, Runs-from_result, Runs-or_stop,
  Runs-on_error, Runs-finally, Runs-modify, Runs-reads, Runs-weaken,
}
use agentreg.Cli.{Ref, ref_key}
use agentreg.Cli.Formats.{Formats, Lockfile, set_package, Meta}
use agentreg.Process.{
  Process, C, HttpRequest, do_request, print, on_disk, read_file, read_at, write_file, remove_all,
  create_temp, remove_temp, removed_temp, time_now,
}
use agentreg.Cli.Wire.{
  do_json, decoded_body, load_config, config_path, parsed_config, registry_url, parsed_lockfile,
  load_lockfile, save_lockfile, lockfile_name,
}
use agentreg.Cli.Fetch.{
  download, downloaded, lock_entry, installed_line, copy_with_checksum, copied_at, unpack,
  unpack_temp, place, record_install, install_body, install_dir, install_ref,
}

module _ (inv : List (Text × File) → Type 0) where
  abbrev pub Inv : Process → Type 0
  Inv c = inv c.disk.files

  abbrev pub Stays : {A : Type 0} → C A → Type 0
  Stays m = Runs Inv m (λ a. Inv) Inv

  Leads-each : {A : Type 0} (r : Result A) (c : Process) → Inv c → Leads (λ a. Inv) Inv r c
  Leads-each (ok a) c h = h
  Leads-each (err e) c h = h

  pub Stays-files : {A : Type 0} (m : C A) → ((c : Process) → Inv c → Inv (m c).1) → Stays m
  Stays-files m k = record { at = λ c h. Leads-each (m c).0 (m c).1 (k c h) }

  pub Stays-on_disk :
      {A : Type 0} (m : D A) → ((d : Disk) → inv d.files → inv (m d).1.files) → Stays (on_disk m)
  unfolding on_disk
  Stays-on_disk m k = Stays-files _ λ c. k c.disk

  pub Stays-bind :
      {A B : Type 0} {m : C A} {k : A → C B} → Stays m → ((a : A) → Stays (k a)) → Stays (m >>= k)
  Stays-bind h k = Runs-bind (λ a. Inv) h k

  Stays-read_file : (p : Text) → Stays (on_disk (read_file p))
  unfolding read_file
  Stays-read_file p = Stays-on_disk _ λ d h. at_fault d h (next_fault d)
    where
      at_fault :
          (d : Disk) → inv d.files → (o : Option Fault) → inv (read_at o p (past_fault d)).1.files
      at_fault d h none = h
      at_fault d h (some e) = h

  -- A system call that keeps the files.
  pub Stays-call :
      (f : Disk → Disk) → ((d : Disk) → inv d.files → inv (f d).files) → Stays (on_disk (call f))
  unfolding call
  Stays-call f k = Stays-on_disk _ λ d h. at_fault d h (next_fault d)
    where
      at_fault :
          (d : Disk) → inv d.files → (o : Option Fault) → inv (call_at o f (past_fault d)).1.files
      at_fault d h none = k (past_fault d) h
      at_fault d h (some e) = h

  Stays-mkdir_all : (p : Text) → Stays (on_disk (mkdir_all p))
  unfolding mkdir_all
  Stays-mkdir_all p = Stays-call _ λ d h. h

  Stays-config_path : Stays config_path
  unfolding config_path
  Stays-config_path = Stays-bind (Runs-reads (λ c. c.home) λ c h. h) λ home.
      Stays-bind (Runs-or_stop _ home (λ a e c h. h) (λ c h. h)) λ home. Runs-done _ λ c h. h

  Stays-do_request : (q : HttpRequest) → Stays (do_request q)
  unfolding do_request
  Stays-do_request q = Stays-files _ λ c h. h

  pub Stays-print : (line : Text) → Stays (print line)
  unfolding print
  Stays-print line = Runs-modify _ λ c h. h

  Stays-time_now : Stays time_now
  unfolding time_now
  Stays-time_now = Stays-files _ λ c h. h

  module _ (f : Formats) where
    Stays-parsed_config : (b : Option Text) → Stays (parsed_config f b)
    Stays-parsed_config none = Runs-done _ λ c h. h
    Stays-parsed_config (some b) = Runs-or_stop _ (f.decode_config b) (λ a e c h. h) (λ c h. h)

    pub Stays-load_config : Stays (load_config f)
    unfolding load_config
    Stays-load_config =
        Stays-bind Stays-config_path
          λ path. Stays-bind (Stays-read_file path) λ b. Stays-parsed_config b

    pub Stays-registry_url : Stays (registry_url f)
    unfolding registry_url
    Stays-registry_url =
        Stays-bind Stays-load_config λ cfg.
          Runs-if (cfg.registry == []) (λ e. Runs-stop _ λ c h. h) (λ e. Runs-done _ λ c h. h)

    Stays-parsed_lockfile : (b : Option Text) → Stays (parsed_lockfile f b)
    Stays-parsed_lockfile none = Runs-done _ λ c h. h
    Stays-parsed_lockfile (some b) = Runs-or_stop _ (f.decode_lockfile b) (λ a e c h. h) (λ c h. h)

    pub Stays-load_lockfile : Stays (load_lockfile f)
    unfolding load_lockfile
    Stays-load_lockfile = Stays-bind (Stays-read_file lockfile_name) λ b. Stays-parsed_lockfile b

    pub Stays-do_json :
        {A : Type 0} (method url token body : Text) (decode : Text → Option A)
        → Stays (do_json f method url token body decode)
    unfolding do_json
    Stays-do_json method url token body decode =
        Stays-bind (Stays-do_request _)
          λ r. Runs-from_result (decoded_body f decode r) (λ a e c h. h) (λ c h. h)

    pub Stays-download : (url : Text) → Stays (download f url)
    unfolding download
    Stays-download url =
        Stays-bind (Stays-do_request _)
          λ r. Runs-from_result (downloaded f r) (λ a e c h. h) (λ c h. h)

    pub Stays-create_temp : Stays create_temp
    unfolding create_temp
    Stays-create_temp = Stays-bind (Stays-call _ λ d h. h) λ u. Runs-modify _ λ c h. h

    pub Stays-copy_with_checksum :
        (body : Text) (e : Option Text) → Stays (copy_with_checksum f body e)
    unfolding copy_with_checksum
    Stays-copy_with_checksum body e =
        Stays-files _
          λ c h. at_fault (record c { disk = past_fault c.disk }) h e (next_fault c.disk)
      where
        at_fault :
            (c : Process)
            → Inv c
            → (e : Option Text) (o : Option Fault) → Inv (copied_at f o body e c).1
        at_fault c h e (some x) = h
        at_fault c h (some m) none = h
        at_fault c h none none = h

    pub Inv-remove_temp : (c : Process) → Inv c → Inv (remove_temp c)
    unfolding remove_temp
    Inv-remove_temp c h = at_fault (next_fault c.disk)
      where
        at_fault : (o : Option Fault) → Inv (removed_temp o c)
        at_fault none = h
        at_fault (some e) = h

    -- The commands keep `inv` when removing and filling the target directory does, and writing the lockfile.
    module _ (dest : Text) (removes : Stays (on_disk (remove_all f.cwd dest)))
        (fills : (d : Disk) (content : Text)
          → inv d.files
          → inv (extract_reader (f.untar content) dest default_options d).1.files) where
      Stays-unpack_temp : (o : Option Text) → Stays (unpack_temp f dest o)
      Stays-unpack_temp none = Runs-stop _ λ c h. h
      Stays-unpack_temp (some content) = Stays-on_disk _ λ d. fills d content

      pub Stays-place : Stays (place f dest)
      unfolding place unpack
      Stays-place = Stays-bind (Runs-on_error _ removes) λ u. Stays-bind (Stays-mkdir_all dest) λ u.
          Stays-bind (Stays-call _ λ d h. h)
            λ u. Stays-bind (Runs-reads (λ c. c.temp) λ c h. h) Stays-unpack_temp

    module _ (write : (b : Text) → Stays (on_disk (write_file lockfile_name 420 b))) where
      pub Stays-save_lockfile : (lf : Lockfile) → Stays (save_lockfile f lf)
      unfolding save_lockfile
      Stays-save_lockfile lf =
          Stays-bind (Runs-or_stop _ (f.encode_lockfile lf) (λ a e c h. h) (λ c h. h)) write

      Stays-record_install :
          (ref base dest : Text) (meta : Meta) (sum : Text)
          → Stays (record_install f ref base dest meta sum)
      unfolding record_install
      Stays-record_install ref base dest meta sum =
          Stays-bind (Runs-on_error _ Stays-load_lockfile) λ lf. Stays-bind Stays-time_now λ now.
            Runs-on_error (wrap (bytes "update krate-lock.json"))
              (Stays-save_lockfile (set_package ref (lock_entry base dest meta sum now) lf))

      pub Stays-install_body :
          (dest : Text)
          → Stays (place f dest)
          → (ref base : Text) (meta : Meta) (x : Text × Option Text)
          → Stays (install_body f ref base dest meta x)
      unfolding install_body
      Stays-install_body dest places ref base meta (body, e) =
          Stays-bind (Stays-copy_with_checksum body e) λ sum.
            Runs-if (not (sum == meta.checksum)) (λ _. Runs-stop _ λ c h. h)
              λ _. Stays-bind places λ u.
                Stays-bind (Stays-print (installed_line ref meta dest sum))
                  λ u. Stays-record_install ref base dest meta sum

    pub Stays-install_ref :
        (dest_dir : Text) (r : Ref)
        → ((ref base : Text) (meta : Meta) (x : Text × Option Text)
            → Stays (install_body f ref base (install_dir dest_dir r.name) meta x))
        → Stays (install_ref f dest_dir r)
    unfolding install_ref
    Stays-install_ref dest_dir r body = Stays-bind Stays-registry_url λ base.
        Stays-bind (Runs-on_error _ (Stays-do_json _ _ _ _ f.decode_meta)) λ meta.
          Stays-bind (Stays-download _) λ x.
            Stays-bind Stays-create_temp
              λ u. Runs-finally remove_temp (cleaned (body (ref_key r.scope r.name) base meta x))
      where
        cleaned :
            {m : C (Unit {0})}
            → Stays m
            → Runs Inv m (λ u c. Inv (remove_temp c)) (λ c. Inv (remove_temp c))
        cleaned k =
            Runs-weaken Inv (λ u. Inv) Inv (λ c h. h) (λ u. Inv-remove_temp) Inv-remove_temp k
