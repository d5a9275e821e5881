-- ===== src/Pack/Contained.antt =====
-- Whatever the archive, all files are written below the target directory, and the others stay.
use agentreg.Base.{
  some, ==_refl, Text, ◌==◌, List, ok, All, find, Option, ◌≡◌, refl, ◌∙◌, [], ◌∷◌, true, false,
  arith, text_iff,
}
use agentreg.Path.{clean, is_abs}
use agentreg.Pack.{ExtractOptions, safe_join, is_inside}
use agentreg.Pack.Inside.{IsBelow, safe_join-IsBelow}
use agentreg.Pack.Extract.{Disk, File, Item, extract_reader, put_file, drop_file}
use agentreg.Pack.Outcome.{put_file-All, drop_file-All}
use agentreg.Pack.Written.{extract_reader-keeps}

-- All files are below `base`.
abbrev pub IsContained : Text → Disk → Type 0
IsContained base d = All (λ f. IsBelow base f.0) d.files

-- Extracting any archive to an absolute path, with any options and any failing system calls, leaves
-- files only below that path, and no segment of a file's path after it is "..", if there were none
-- outside before; this holds after an error too.
pub extract_reader-IsContained :
    (archive : Option (List Item)) (dest : Text) (opts : ExtractOptions) (d : Disk)
    → is_abs dest ≡ true
    → IsContained (clean dest) d
    → IsContained (clean dest) (extract_reader archive dest opts d).1
extract_reader-IsContained archive dest opts d a =
    extract_reader-keeps (All λ f. IsBelow (clean dest) f.0) (IsBelow (clean dest))
      (put_file-All (IsBelow (clean dest))) (λ p fs b. drop_file-All (IsBelow (clean dest)) p fs)
      dest (λ name p. safe_join-IsBelow dest name p a) archive opts d

-- The file of that path, if there is one.
abbrev pub file_at : Text → List (Text × File) → Option (Text × File)
file_at q = find λ f. f.0 == q

pub put_file_self :
    (p : Text) (f : File) (fs : List (Text × File)) → file_at p (put_file p f fs) ≡ some (p, f)
unfolding put_file
put_file_self p f [] = rw (==_refl p) refl
put_file_self p f ((q, g) ∷ fs) = ground (arith, text_iff q p, text_iff p p, put_file_self p f fs)

pub put_file-other :
    (q p : Text) (f : File) (fs : List (Text × File))
    → (p == q) ≡ false
    → file_at q (put_file p f fs) ≡ file_at q fs
unfolding put_file
put_file-other q p f [] h = ground arith
put_file-other q p f ((r, g) ∷ fs) h =
    ground (arith, text_iff r p, text_iff r q, text_iff p q, put_file-other q p f fs h)

drop_file-other :
    (q p : Text) (fs : List (Text × File))
    → (p == q) ≡ false
    → file_at q (drop_file p fs) ≡ file_at q fs
unfolding drop_file
drop_file-other q p [] h = refl
drop_file-other q p ((r, g) ∷ fs) h =
    ground (arith, text_iff r p, text_iff r q, text_iff p q, drop_file-other q p fs h)

safe_join_inside :
    (dest name p : Text) → safe_join dest name ≡ ok p → is_inside p (clean dest) ≡ true
unfolding safe_join
safe_join_inside dest name p h = ground arith

pub outside_other :
    (base p q : Text) → is_inside p base ≡ true → is_inside q base ≡ false → (p == q) ≡ false
outside_other base p q h k = ground (arith, text_iff p q)

-- Extraction changes no file outside the target directory.
pub extract_reader_outside :
    (archive : Option (List Item)) (dest : Text) (opts : ExtractOptions) (d : Disk) (q : Text)
    → is_inside q (clean dest) ≡ false
    → file_at q (extract_reader archive dest opts d).1.files ≡ file_at q d.files
extract_reader_outside archive dest opts d q h =
    extract_reader-keeps (λ fs. file_at q fs ≡ file_at q d.files)
      (λ p. is_inside p (clean dest) ≡ true)
      (λ p f fs b k. put_file-other q p f fs (outside_other _ p q b h) ∙ k)
      (λ p fs b k. drop_file-other q p fs (outside_other _ p q b h) ∙ k) dest
      (safe_join_inside dest) archive opts d refl
