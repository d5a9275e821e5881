-- ===== src/Pack/Dir.antt =====
-- internal/pack/pack.go: Dir, over what filepath.WalkDir gives; the archive is the list of its entries.
use agentreg.Base.{
  ℕ, Text, bytes, ◌==◌, ◌%◌, Option, none, some, List, [], ◌∷◌, ◌++◌, Result, ok, err, driver,
  if◌then◌else◌,
}
use agentreg.Path.{dot, slash}
use agentreg.Pack.Extract.{Disk, D, ◌>>=◌, done, Item, entry, type_dir, type_reg}

pub data NodeKind : Type 0 where
  directory regular irregular : NodeKind

-- A visit of the walk: the path relative to the packed directory, what is there, and the errors of the
-- walk, of reading the file's information, of opening and of reading the file.
pub record Visit : Type 0 where
  pub rel : Text
  pub kind : NodeKind
  pub mode : ℕ
  pub content : Text
  pub stat_error : Option Text
  pub read_error : Option Text

-- The header and the content that are written for a visit. The permission bits are the low nine.
abbrev pub packed_as : Visit → NodeKind → Option Text → Result Item
packed_as v directory e = ok (
    entry (record {
      name = v.rel ++ slash ∷ [];
      typeflag = type_dir;
      mode = v.mode % 512;
      content = [];
      read_error = none;
    }))
packed_as v irregular e = err (driver (bytes "refusing to pack non-regular file " ++ v.rel))
packed_as v regular (some m) = err (driver m)
packed_as v regular none = ok (
    entry (record {
      name = v.rel;
      typeflag = type_reg;
      mode = v.mode % 512;
      content = v.content;
      read_error = none;
    }))

abbrev pub packed_entry : Visit → Option Text → Result Item
packed_entry v (some m) = err (driver m)
packed_entry v none = packed_as v v.kind v.read_error

abbrev pub then_packed : Result Item → Result (List Item) → Result (List Item)
then_packed (err e) rest = err e
then_packed (ok i) (err e) = err e
then_packed (ok i) (ok items) = ok (i ∷ items)

-- The walk ends at its first error; the directory itself is left out.
unfoldable pub packed_items : List Visit → Result (List Item)
unfolding ◌==◌
packed_items [] = ok []
packed_items (v ∷ vs) =
    let rest = packed_items vs in
    if v.rel == dot then rest else then_packed (packed_entry v v.stat_error) rest

-- What packing takes from package filepath, archive/tar with gzip, and crypto/sha256.
pub record Archiver : Type 0 where
  -- the walk over a directory
  pub walk : Disk → Text → List Visit
  pub tar : List Item → Text
  pub sha256 : Text → Text

unfoldable pub visits : Archiver → Text → D (List Visit)
visits a src d = (ok (a.walk d src), d)

unfoldable pub items_of : List Visit → D (List Item)
unfolding packed_items
items_of vs d = (packed_items vs, d)

-- Dir: `create` makes the file for the archive, `write` fills it; it gives the archive's bytes and its checksum.
unfoldable pub dir_archive :
    Archiver → D (Unit {0}) → (Text → D (Unit {0})) → Text → D (Text × Text)
unfolding visits items_of ◌>>=◌ done
dir_archive a create write src = create >>= λ _. visits a src >>= λ vs.
    items_of vs >>= λ items. write (a.tar items) >>= λ _. done (a.tar items, a.sha256 (a.tar items))
