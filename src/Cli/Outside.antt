-- ===== src/Cli/Outside.antt =====
-- Lemmas on the files that cmdInstall and cmdUninstall change (cmd/krate).
use agentreg.Base.{
  ℕ, zero, suc, Text, ◌==◌, Bool, true, false, Option, none, some, List, [], ◌∷◌, ok, ◌++◌, ◌≡◌,
  refl, ◌∙◌, arith, if◌then◌else◌, text_iff, wrap, bytes, driver,
}
use agentreg.Path.{clean}
use agentreg.Pack.{is_inside}
use agentreg.Pack.{default_options}
use agentreg.Pack.Extract.{
  Disk, File, Fault, D, next_fault, past_fault, call, call_at, open_file, put_file, extract_reader,
}
use agentreg.Pack.Extract
use agentreg.Pack.Contained.{file_at, put_file-other, extract_reader_outside}
use agentreg.Program.Runs.{
  Leads-both, Runs-bind, Runs-from_result, Runs-or_stop, Runs-on_error, Runs-exact,
}
use agentreg.Cli.{Ref, parse_ref}
use agentreg.Cli.Formats.{Formats, Lockfile, LockEntry, find_package, delete_package}
use agentreg.Process.{
  Process, on_disk, write_file, write_content, write_at, mode_of, remove_all, removal_at, outside,
  is_under, outside_some, ends_with_dot,
}
use agentreg.Cli.Wire.{lockfile_name, load_lockfile}
use agentreg.Cli.Fetch.{install_dir, install_ref, cmd_install}
use agentreg.Cli.Uninstall.{cmd_uninstall, uninstall_entry}
use agentreg.Cli.Untouched.{
  Inv, Stays, Stays-on_disk, Stays-bind, Stays-load_lockfile, Stays-save_lockfile,
  Stays-install_body, Stays-place, Stays-install_ref, Stays-print,
}

-- The file `q` is what it was.
abbrev pub IsSame : Text → Option (Text × File) → List (Text × File) → Type 0
IsSame q o fs = file_at q fs ≡ o

-- The file `q` is not in the directory `dest`: neither is its name below the name of `dest`, nor does it lie
-- there, seen from the working directory.
abbrev pub IsApart : Formats → Text → Text → Type 0
IsApart f q dest = (is_under f.cwd dest q ≡ false) × (is_inside q (clean dest) ≡ false)

abbrev truncated : Text → ℕ → Disk → Disk
truncated p mode d = record d {
  files = put_file p (Extract.opened (file_at p d.files) mode) d.files;
}

module _ (q : Text) where
  file_at-outside :
      (cwd base : Text) (fs : List (Text × File))
      → is_under cwd base q ≡ false
      → file_at q (outside cwd base fs) ≡ file_at q fs
  unfolding outside
  file_at-outside cwd base [] h = refl
  file_at-outside cwd base ((p, f) ∷ fs) h =
      ground (arith, text_iff p q, file_at-outside cwd base fs h)

  file_at-outside_some :
      (cwd : Text) (n : ℕ) (base : Text) (fs : List (Text × File))
      → is_under cwd base q ≡ false
      → file_at q (outside_some cwd n base fs) ≡ file_at q fs
  unfolding outside_some
  file_at-outside_some cwd zero base fs h = refl
  file_at-outside_some cwd (suc n) base [] h = refl
  file_at-outside_some cwd (suc n) base ((p, f) ∷ fs) h = ground (
    arith,
    text_iff p q,
    file_at-outside_some cwd n base fs h,
    file_at-outside_some cwd (suc n) base fs h,
  )

  module _ (o : Option (Text × File)) where
    pub Stays-remove_all :
        (cwd dest : Text)
        → is_under cwd dest q ≡ false
        → Stays (IsSame q o) (on_disk (remove_all cwd dest))
    unfolding remove_all Extract.done Extract.stop
    Stays-remove_all cwd [] h = Stays-on_disk (IsSame q o) _ λ d k. k
    Stays-remove_all cwd (c ∷ p) h =
        Stays-on_disk (IsSame q o) _ λ d k. dotted d k (ends_with_dot (c ∷ p))
      where
        at_fault :
            (d : Disk)
            → IsSame q o d.files
            → (e : Option Fault) → IsSame q o (removal_at cwd e (c ∷ p) (past_fault d)).1.files
        at_fault d k none = file_at-outside cwd (c ∷ p) d.files h ∙ k
        at_fault d k (some e) = file_at-outside_some cwd e.written (c ∷ p) d.files h ∙ k

        dotted :
            (d : Disk)
            → IsSame q o d.files
            → (b : Bool)
            → IsSame q o
                ((if b then Extract.stop (driver (bytes "invalid argument")) else λ d.
                    removal_at cwd (next_fault d) (c ∷ p) (past_fault d))
                  d).1.files
        dotted d k true = k
        dotted d k false = at_fault d k (next_fault d)

    write_content-IsSame :
        (p : Text) (mode : ℕ) (content : Text) (d : Disk)
        → (p == q) ≡ false
        → IsSame q o d.files
        → IsSame q o (write_content p mode content d).1.files
    unfolding write_content
    write_content-IsSame p mode content d h k = at_fault (next_fault d)
      where
        at_fault :
            (e : Option Fault) → IsSame q o (write_at e p mode content (past_fault d)).1.files
        at_fault none = put_file-other q p _ d.files h ∙ k
        at_fault (some e) = put_file-other q p _ d.files h ∙ k

    Stays-write_file :
        (p : Text) (mode : ℕ) (content : Text)
        → (p == q) ≡ false
        → Stays (IsSame q o) (on_disk (write_file p mode content))
    unfolding write_file open_file call Extract.◌>>=◌
    Stays-write_file p mode content h =
        Stays-on_disk (IsSame q o) _ λ d k. at_fault d k (next_fault d)
      where
        at_fault :
            (d : Disk)
            → IsSame q o d.files
            → (e : Option Fault)
            → let opened = call_at e (truncated p mode) (past_fault d) in
              IsSame q o
                (Extract.continue opened.0
                  (λ u. write_content p (mode_of p mode d) content)
                  opened.1).1.files
        at_fault d k none =
            write_content-IsSame p _ content (truncated p mode (past_fault d)) h
              (put_file-other q p _ d.files h ∙ k)
        at_fault d k (some e) = k

  module _ (f : Formats) (before : Process) (apart : (lockfile_name == q) ≡ false) where
    abbrev IsUnchanged : List (Text × File) → Type 0
    IsUnchanged = IsSame q (file_at q before.disk.files)

    -- An install changes no file but the lockfile and those in the target directory, whatever the server
    -- sends and whatever fails.
    pub cmd_install_outside :
        (dest_dir arg : Text)
        → ((r : Ref) → parse_ref arg ≡ ok r → IsApart f q (install_dir dest_dir r.name))
        → file_at q (cmd_install f dest_dir (arg ∷ []) before).1.disk.files
          ≡ file_at q before.disk.files
    unfolding cmd_install
    cmd_install_outside dest_dir arg h = Leads-both (Inv IsUnchanged) _ _ (
        (Runs-bind (λ r c. (parse_ref arg ≡ ok r) × Inv IsUnchanged c)
            (Runs-from_result (parse_ref arg) (λ r e c k. (e, k)) (λ c k. k))
            λ r. record { at = λ c k. (installs r (h r k.0)).at c k.1 }).at
          before refl)
      where
        installs :
            (r : Ref)
            → IsApart f q (install_dir dest_dir r.name)
            → Stays IsUnchanged (install_ref f dest_dir r)
        installs r k = Stays-install_ref IsUnchanged f dest_dir r (
            Stays-install_body IsUnchanged f (λ b. Stays-write_file _ lockfile_name 420 b apart)
              (install_dir dest_dir r.name)
              (Stays-place IsUnchanged f (install_dir dest_dir r.name)
                (Stays-remove_all _ f.cwd (install_dir dest_dir r.name) k.0)
                (λ d content e.
                  extract_reader_outside (f.untar content) (install_dir dest_dir r.name)
                    default_options d q k.1
                  ∙ e)))

    Stays-uninstall_entry :
        (ref : Text) (lf : Lockfile) (e : LockEntry)
        → is_under f.cwd e.dir q ≡ false
        → Stays IsUnchanged (uninstall_entry f ref lf e)
    unfolding uninstall_entry
    Stays-uninstall_entry ref lf e k =
        Stays-bind IsUnchanged
          (Runs-on_error (wrap (bytes "remove")) (Stays-remove_all _ f.cwd e.dir k))
          λ u.
            Stays-bind IsUnchanged
              (Runs-on_error (wrap (bytes "update krate-lock.json")) (
                Stays-save_lockfile IsUnchanged f
                  (λ b. Stays-write_file _ lockfile_name 420 b apart) (delete_package ref lf)))
              λ u.
                Stays-print IsUnchanged
                  (bytes "Uninstalled " ++ ref ++ bytes " (removed " ++ e.dir ++ bytes ")")

    -- An uninstall changes no file but the lockfile and those in the directory that the lockfile records for
    -- the plugin.
    pub cmd_uninstall_outside :
        (ref : Text)
        → ((lf : Lockfile) (e : LockEntry)
            → (load_lockfile f before).0 ≡ ok lf
            → find_package ref lf ≡ some e
            → is_under f.cwd e.dir q ≡ false)
        → file_at q (cmd_uninstall f (ref ∷ []) before).1.disk.files ≡ file_at q before.disk.files
    unfolding cmd_uninstall
    cmd_uninstall_outside ref h = Leads-both (Inv IsUnchanged) _ _ (
        (Runs-bind (λ (r : Ref) c. c ≡ before)
            (Runs-from_result (parse_ref ref) (λ r e c k. k) (λ c k. rw k refl))
            λ r.
              Runs-bind _
                (Runs-on_error (wrap (bytes "read krate-lock.json"))
                  (Runs-exact (load_lockfile f) before (Stays-load_lockfile IsUnchanged f) refl))
                λ lf.
                  Runs-bind
                    (λ e c.
                      ((load_lockfile f before).0 ≡ ok lf)
                      × (find_package ref lf ≡ some e)
                      × Inv IsUnchanged c)
                    (Runs-or_stop
                      (driver (ref ++ bytes " is not tracked as installed in this directory"))
                      (find_package ref lf) (λ e x c k. (k.0, x, k.1)) (λ c k. k.1))
                    λ e. record {
                      at = λ c k. (Stays-uninstall_entry ref lf e (h lf e k.0 k.1)).at c k.2;
                    }).at
          before refl)
