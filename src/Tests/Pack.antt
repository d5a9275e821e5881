-- ===== src/Tests/Pack.antt =====
-- An archive with an entry that tries to leave the target directory.
use agentreg.Base.{
  ◌+◌, ◌≤◌, bytes, Text, none, some, [], ◌∷◌, List, ok, ◌≡◌, refl, ◌==◌, true, has_prefix,
}
use agentreg.Path.{clean, join, is_abs}
use agentreg.Pack.{ExtractOptions, safe_join}
use agentreg.Pack.Extract.{Disk, Item, entry, type_reg, extract_reader, limit_of}
use agentreg.Pack.Inside.{IsBelow, safe_join-IsBelow}
use agentreg.Pack.Outcome.{Leads, size}
use agentreg.Pack.Contained.{IsContained, extract_reader-IsContained}
use agentreg.Pack.Size.{extract_reader-size}

abbrev target : Text
target = bytes "/tmp/x"

abbrev archive : List Item
archive =
    entry (record {
      name = bytes "skills/a.md";
      typeflag = type_reg;
      mode = 420;
      content = bytes "text";
      read_error = none;
    })
    ∷ entry (record {
      name = bytes "../evil";
      typeflag = type_reg;
      mode = 420;
      content = bytes "text";
      read_error = none;
    })
    ∷ []

abbrev options : ExtractOptions
options = record { max_bytes = 0; strip_count = 0; skip_unsupported_types = true }

abbrev empty_disk : Disk
empty_disk = record { dirs = []; files = []; faults = [] }

target_abs : is_abs target ≡ true
unfolding is_abs
target_abs = refl

joined_path : safe_join target (bytes "a/../b") ≡ ok (bytes "/tmp/x/b")
unfolding safe_join clean join ◌==◌ has_prefix
joined_path = refl

safe_join-IsBelow_example : IsBelow (clean target) (bytes "/tmp/x/b")
safe_join-IsBelow_example =
    safe_join-IsBelow target (bytes "a/../b") (bytes "/tmp/x/b") target_abs joined_path

extract_reader-IsContained_example :
    IsContained (clean target) (extract_reader (some archive) target options empty_disk).1
extract_reader-IsContained_example =
    extract_reader-IsContained (some archive) target options empty_disk target_abs tt

extract_reader-size_example :
    Leads
      (λ d'. size d'.files ≤ limit_of options + 1)
      (λ _ d'. size d'.files ≤ limit_of options)
      (extract_reader (some archive) target options empty_disk)
extract_reader-size_example = extract_reader-size archive target options empty_disk refl
