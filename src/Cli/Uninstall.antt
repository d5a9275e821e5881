-- ===== src/Cli/Uninstall.antt =====
-- cmd/krate/cmd_uninstall.go: list and uninstall.
use agentreg.Base.{
  text_leb, Text, bytes, Option, none, some, List, [], ◌∷◌, ◌++◌, driver, wrap, if◌then◌else◌, map,
}
use agentreg.Program.{done, stop, from_result, or_stop, on_error, ◌>>=◌, ◌>>◌}
use agentreg.Cli.{parse_ref}
use agentreg.Cli.Formats.{em_dash, Formats, Lockfile, LockEntry, find_package, delete_package}
use agentreg.Process.{C, on_disk, print, remove_all}
use agentreg.Cli.Wire.{load_lockfile, save_lockfile}

unfoldable pub insert_ref : Text → List Text → List Text
unfolding text_leb
insert_ref r [] = r ∷ []
insert_ref r (s ∷ ss) = if text_leb r s then r ∷ s ∷ ss else s ∷ insert_ref r ss

-- sort.Strings
unfoldable pub sort_refs : List Text → List Text
unfolding insert_ref
sort_refs [] = []
sort_refs (r ∷ rs) = insert_ref r (sort_refs rs)

unfoldable pub list_line : Text → Option LockEntry → Text
list_line ref none = ref ++ b'@' ∷ em_dash
list_line ref (some e) = ref ++ b'@' ∷ e.version ++ em_dash ++ e.dir

unfoldable pub print_refs : Lockfile → List Text → C (Unit {0})
unfolding find_package list_line print ◌>>=◌ done
print_refs lf [] = done tt
print_refs lf (ref ∷ refs) = print (list_line ref (find_package ref lf)) >> print_refs lf refs

abbrev pub keys : Lockfile → List Text
keys = map λ p. p.0

abbrev pub listed_packages : Lockfile → C (Unit {0})
listed_packages [] = print (bytes "No plugins installed in this directory.")
listed_packages (p ∷ lf) = print_refs (p ∷ lf) (sort_refs (keys (p ∷ lf)))

unfoldable pub cmd_list : Formats → List Text → C (Unit {0})
unfolding load_lockfile print_refs sort_refs on_error print ◌>>=◌ stop
cmd_list f [] = do
  lf ← on_error (wrap (bytes "read krate-lock.json")) (load_lockfile f)
  listed_packages lf
cmd_list f (arg ∷ args) = stop (driver (bytes "usage: krate list"))

unfoldable pub uninstall_entry : Formats → Text → Lockfile → LockEntry → C (Unit {0})
unfolding on_disk remove_all delete_package save_lockfile on_error print ◌>>=◌
uninstall_entry f ref lf e = do
  _ ← on_error (wrap (bytes "remove")) (on_disk (remove_all f.cwd e.dir))
  _ ← on_error (wrap (bytes "update krate-lock.json")) (save_lockfile f (delete_package ref lf))
  print (bytes "Uninstalled " ++ ref ++ bytes " (removed " ++ e.dir ++ bytes ")")

unfoldable pub cmd_uninstall : Formats → List Text → C (Unit {0})
unfolding parse_ref load_lockfile find_package uninstall_entry on_error ◌>>=◌ from_result stop done
cmd_uninstall f (ref ∷ []) = do
  _ ← from_result (parse_ref ref)
  lf ← on_error (wrap (bytes "read krate-lock.json")) (load_lockfile f)
  e ←
      or_stop (driver (ref ++ bytes " is not tracked as installed in this directory"))
        (find_package ref lf)
  uninstall_entry f ref lf e
cmd_uninstall f _ = stop (driver (bytes "usage: krate uninstall @scope/name"))
