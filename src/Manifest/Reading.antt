-- ===== src/Manifest/Reading.antt =====
-- internal/manifest/manifest.go: what ValidateDir reads of a directory, and ValidateDir. All is read before
-- the checks; the source reads in the same order and stops at the first error.
use agentreg.Base.{
  Text, bytes, ◌==◌, eqb, ◌||◌, any, find, text_leb, Bool, true, false, Option, none, some, List,
  [], ◌∷◌, ◌++◌, if◌then◌else◌, ◌≡◌, refl,
}
use agentreg.Path.{join, slash}
use agentreg.Pack.Extract.{Disk, D, File, Fault, next_fault, past_fault}
use agentreg.Manifest.{Bundle}
use agentreg.Manifest.Validate.{
  Validators, FileRead, contents, missing, unreadable, Stat, present, absent, failed, SkillEntry,
  Folder, validate_dir,
}

abbrev pub read_found : Option Fault → Text → Disk → FileRead
read_found (some e) p d = unreadable e.message
read_found none p d = elim (find (λ f. f.0 == p) d.files) [
  | none ↦ missing
  | some f ↦ contents f.1.content
]

-- os.ReadFile, and whether its error is os.IsNotExist.
unfoldable pub read_json : Text → Disk → FileRead × Disk
read_json p d = (read_found (next_fault d) p d, past_fault d)

-- What follows the prefix.
unfoldable pub after_prefix : Text → Text → Option Text
after_prefix [] s = some s
after_prefix (c ∷ p) [] = none
after_prefix (c ∷ p) (d ∷ s) = let rest = after_prefix p s in if eqb c d then rest else none

-- The first element of a path, and whether there is more of it.
unfoldable pub first_element : Text → Text × Bool
first_element [] = ([], false)
first_element (c ∷ s) =
    let (name, more) = first_element s in if eqb c slash then ([], true) else (c ∷ name, more)

-- An entry of a directory: its name, and whether it is a directory.
abbrev pub DirEntry : Type 0
DirEntry = Text × Bool

-- Sorted by name, each name once.
unfoldable pub insert_entry : DirEntry → List DirEntry → List DirEntry
unfolding text_leb ◌==◌
insert_entry (n, b) [] = (n, b) ∷ []
insert_entry (n, b) ((m, c) ∷ es) =
    let rest = insert_entry (n, b) es in
    if n == m
    then (n, b || c) ∷ es
    else if text_leb n m
    then (n, b) ∷ (m, c) ∷ es
    else (m, c) ∷ rest

abbrev insert_below : Bool → Option Text → List DirEntry → List DirEntry
insert_below is_dir none es = es
insert_below is_dir (some rest) es =
    let (name, more) = first_element rest in insert_entry (name, is_dir || more) es

unfoldable pub entries_of_files : Text → List (Text × File) → List DirEntry
unfolding after_prefix first_element insert_entry
entries_of_files dir [] = []
entries_of_files dir (f ∷ fs) =
    insert_below false (after_prefix (dir ++ slash ∷ []) f.0) (entries_of_files dir fs)

unfoldable pub entries_of_dirs : Text → List Text → List DirEntry → List DirEntry
unfolding after_prefix first_element insert_entry
entries_of_dirs dir [] es = es
entries_of_dirs dir (p ∷ ps) es =
    insert_below true (after_prefix (dir ++ slash ∷ []) p) (entries_of_dirs dir ps es)

unfoldable pub dir_entries : Text → Disk → List DirEntry
unfolding entries_of_files entries_of_dirs
dir_entries dir d = entries_of_dirs dir d.dirs (entries_of_files dir d.files)

abbrev is_some_entry : List DirEntry → Bool
is_some_entry [] = false
is_some_entry (e ∷ es) = true

-- A file or a directory of that name.
unfoldable pub path_exists : Text → Disk → Bool
unfolding dir_entries ◌==◌
path_exists p d =
    any (λ f. f.0 == p) d.files || (any (λ q. q == p) d.dirs || is_some_entry (dir_entries p d))

abbrev pub stat_found : Option Fault → Text → Disk → Stat
stat_found (some e) p d = failed e.message
stat_found none p d = if path_exists p d then present else absent

-- os.Stat of the SKILL.md of each entry that is a directory.
unfoldable pub skill_entries : Text → List DirEntry → Disk → List SkillEntry × Disk
unfolding path_exists join
skill_entries dir [] d = ([], d)
skill_entries dir ((n, false) ∷ es) d =
    let (rest, d') = skill_entries dir es d in
    (record { name = n; is_dir = false; skill_md = absent } ∷ rest, d')
skill_entries dir ((n, true) ∷ es) d =
    let stat = stat_found (next_fault d) (join (dir ∷ n ∷ bytes "SKILL.md" ∷ [])) d in
    let (rest, d') = skill_entries dir es (past_fault d) in
    (record { name = n; is_dir = true; skill_md = stat } ∷ rest, d')

abbrev some_entries : List SkillEntry × Disk → Option (List SkillEntry) × Disk
some_entries (es, d) = (some es, d)

abbrev pub skills_found : Option Fault → Text → Disk → Option (List SkillEntry) × Disk
skills_found (some e) dir d = (none, d)
skills_found none dir d =
    if any (λ q. q == dir) d.dirs || is_some_entry (dir_entries dir d)
    then some_entries (skill_entries dir (dir_entries dir d) d)
    else (none, d)

-- os.ReadDir of skills/, and the loop's calls of os.Stat.
unfoldable pub read_skills : Text → Disk → Option (List SkillEntry) × Disk
unfolding skill_entries dir_entries ◌==◌
read_skills dir d = skills_found (next_fault d) dir (past_fault d)

unfoldable pub read_folder : Text → Disk → Folder × Disk
unfolding read_json read_skills join
read_folder dir d =
    let (plugin_json, d1) = read_json (join (dir ∷ bytes "plugin.json" ∷ [])) d in
    let (skills, d2) = read_skills (join (dir ∷ bytes "skills" ∷ [])) d1 in
    let (mcp_json, d3) = read_json (join (dir ∷ bytes "mcp.json" ∷ [])) d2 in
    (record { plugin_json = plugin_json; skills = skills; mcp_json = mcp_json }, d3)

-- ValidateDir
unfoldable pub validate_at : Validators → Text → D Bundle
unfolding read_folder validate_dir
validate_at v dir d = let (folder, d') = read_folder dir d in (validate_dir v folder, d')

skill_entries-files :
    (dir : Text) (es : List DirEntry) (d : Disk) → (skill_entries dir es d).1.files ≡ d.files
unfolding skill_entries
skill_entries-files dir [] d = refl
skill_entries-files dir ((n, false) ∷ es) d = skill_entries-files dir es d
skill_entries-files dir ((n, true) ∷ es) d = skill_entries-files dir es (past_fault d)

read_skills-files : (dir : Text) (d : Disk) → (read_skills dir d).1.files ≡ d.files
unfolding read_skills
read_skills-files dir d = at_fault (next_fault d) (past_fault d)
  where
    at_entries :
        (b : Bool) (d : Disk)
        → (if b then some_entries (skill_entries dir (dir_entries dir d) d) else (none, d)).1.files
          ≡ d.files
    at_entries true d = skill_entries-files dir (dir_entries dir d) d
    at_entries false d = refl

    at_fault : (o : Option Fault) (d : Disk) → (skills_found o dir d).1.files ≡ d.files
    at_fault (some e) d = refl
    at_fault none d = at_entries _ d

-- Reading changes no file.
pub read_folder-files : (dir : Text) (d : Disk) → (read_folder dir d).1.files ≡ d.files
unfolding read_folder read_json
read_folder-files dir d = read_skills-files (join (dir ∷ bytes "skills" ∷ [])) (past_fault d)
