-- ===== src/Fsblob.antt =====
-- internal/store/fsblob/fsblob.go: a blob is a file below a root directory. `sha256` is the hex digest
-- of crypto/sha256. The temporary file that an upload goes through is gone when `put` returns, so the
-- model has only the files that were linked.
use agentreg.Base.{
  ℕ, Text, bytes, ◌==◌, Option, none, some, List, [], ok, err, ◌∷◌, ◌++◌, length, not_found,
  conflict, if◌then◌else◌,
}
use agentreg.Path.{join}
use agentreg.World.{World, M, pure, fail, ◌>>◌, access}

-- The path of a version's tarball.
unfoldable pub path : Text → Text → Text → Text → Text
path root scope name version = join (root ∷ scope ∷ name ∷ (version ++ bytes ".tar.gz") ∷ [])

unfoldable pub lookup_blob : Text → List (Text × Text) → Option Text
lookup_blob p [] = none
lookup_blob p ((q, content) ∷ bs) = if q == p then some content else lookup_blob p bs

abbrev pub link_at : Option Text → Text → Text → M (Unit {0})
link_at (some old) target content w = (err conflict, w)
link_at none target content w = (ok tt, record w { blobs = (target, content) ∷ w.blobs })

-- `os.Link` fails where the target exists.
unfoldable pub link : Text → Text → M (Unit {0})
unfolding lookup_blob
link target content w = link_at (lookup_blob target w.blobs) target content w

-- `Put`: the accesses are MkdirAll, CreateTemp, io.Copy, Close and Link. Returns checksum and size.
unfoldable pub put : (Text → Text) → Text → Text → Text → Text → Text → M (Text × ℕ)
unfolding path
put sha256 root scope name version content = do
  access
  access
  access
  access
  access
  link (path root scope name version) content
  pure (sha256 content, length content)

unfoldable pub get_blob : Text → World → Option Text
unfolding lookup_blob
get_blob p w = lookup_blob p w.blobs

abbrev pub open_at : Option Text → M Text
open_at (some content) = pure content
open_at none = fail not_found

-- `Open`; the reader's content stands for the reader.
unfoldable pub open_blob : Text → Text → Text → Text → M Text
unfolding get_blob path
open_blob root scope name version =
    access >> λ w. open_at (get_blob (path root scope name version) w) w
