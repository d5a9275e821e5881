-- ===== src/Api/Receive.antt =====
-- internal/api/plugins.go: handlePublish from os.MkdirTemp to the second os.Open, on the disk of the server. The
-- names of the temporary directory and of the files in it are the source's; that all is removed again is left
-- out.
use agentreg.Base.{
  ℕ, ◌+◌, ◌*◌, ◌^◌, Text, bytes, ltb, ◌==◌, Option, none, some, List, [], ◌∷◌, find, Error, Result,
  ok, err, driver, wrap, if◌then◌else◌,
}
use agentreg.Path.{join}
use agentreg.Pack.{default_options}
use agentreg.Pack.Extract.{Disk, File, Item, D, call, open_file, mkdir_all, copy, extract_reader}
use agentreg.Manifest.{Bundle}
use agentreg.Manifest.Validate.{Validators}
use agentreg.Manifest.Reading.{validate_at}

abbrev pub max_tarball_bytes : ℕ
max_tarball_bytes = 64 * 2 ^ 20

-- What the server gets: the body, with the error that ends reading it; its disk; and the directory that os.MkdirTemp makes. The
-- archive is read by gzip and archive/tar.
pub record Upload : Type 0 where
  pub body : Text
  pub read_error : Option Text
  pub disk : Disk
  pub tmp : Text
  pub untar : Text → Option (List Item)
  pub validators : Validators

-- A response that ends the upload: an internal error, or a status with a message or with an error.
pub data Refusal : Type 0 where
  internal : Refusal
  told : ℕ → Text → Refusal
  failed : ℕ → Error → Refusal

pub data Received (A : Type 0) : Type 0 where
  refused : Refusal → Received A
  received : A → Received A

abbrev pub Receive : Type 0 → Type 0
Receive A = Disk → Received A × Disk

module _ {A : Type 0} where
  abbrev pub or_refused : (Error → Refusal) → Result A → Received A
  or_refused f (ok a) = received a
  or_refused f (err e) = refused (f e)

  -- `if err != nil { …; return }`
  unfoldable pub step : (Error → Refusal) → D A → Receive A
  step f m d = let (r, d') = m d in (or_refused f r, d')

  unfoldable pub taken : A → Receive A
  taken a d = (received a, d)

  unfoldable pub refuse : Refusal → Receive A
  refuse x d = (refused x, d)

module _ {A B : Type 0} where
  abbrev pub proceed : Received A → (A → Receive B) → Receive B
  proceed (refused x) f d = (refused x, d)
  proceed (received a) f d = f a d

  infixl 10 ◌>>=◌
  unfoldable pub ◌>>=◌ : Receive A → (A → Receive B) → Receive B
  ◌>>=◌ m f d = proceed (m d).0 f (m d).1

abbrev pub internal_error : Error → Refusal
internal_error e = internal

abbrev pub stored : Option (Text × File) → Result Text
stored none = err (driver (bytes "no such file"))
stored (some f) = ok f.1.content

abbrev pub found_at : Text → D (Unit {0}) → D Text
found_at p m d =
    let (r, d') = m d in
    (elim r [ err e ↦ err e | ok u ↦ stored (find (λ f. f.0 == p) d'.files) ], d')

-- os.Open, with the content that reading the file gives.
unfoldable pub open_stored : Text → D Text
unfolding call ◌==◌
open_stored p = found_at p (call λ d. d)

abbrev pub tarball_path : Upload → Text
tarball_path u = join (u.tmp ∷ bytes "upload.tar.gz" ∷ [])

abbrev pub extract_dir : Upload → Text
extract_dir u = join (u.tmp ∷ bytes "extracted" ∷ [])

-- After io.Copy: the number of bytes, and the error.
unfoldable pub read_body : ℕ × Option Text → Receive (Unit {0})
unfolding taken refuse
read_body (n, some m) = refuse (told 400 (bytes "failed reading upload body"))
read_body (n, none) =
    if ltb max_tarball_bytes n
    then refuse (told 413 (bytes "tarball exceeds 64MiB limit"))
    else taken tt

abbrev pub invalid_archive : Error → Refusal
invalid_archive e = failed 400 (wrap (bytes "invalid tar.gz archive") e)

abbrev pub invalid_plugin : Error → Refusal
invalid_plugin e = failed 422 e

-- The bundle, and the content of the archive as it is opened again.
unfoldable pub receive : Upload → Receive (Bundle × Text)
unfolding step taken read_body ◌>>=◌ call open_file copy mkdir_all open_stored extract_reader
    validate_at join
receive u = do
  _ ← step internal_error (call λ d. record d { dirs = u.tmp ∷ d.dirs })
  _ ← step internal_error (open_file (tarball_path u) 438)
  copied ←
      step internal_error (copy (tarball_path u) 438 u.body u.read_error (max_tarball_bytes + 1))
  _ ← read_body copied
  _ ← step internal_error (mkdir_all (extract_dir u))
  archive ← step invalid_archive (open_stored (tarball_path u))
  _ ← step invalid_archive (extract_reader (u.untar archive) (extract_dir u) default_options)
  bundle ← step invalid_plugin (validate_at u.validators (extract_dir u))
  content ← step internal_error (open_stored (tarball_path u))
  taken (bundle, content)
