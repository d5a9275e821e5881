-- ===== src/Pack/Extract.antt =====
-- internal/pack/pack.go: ExtractReader. What archive/tar reads is a list of items; a directory tree is
-- the list of its directories and the list of its files. Each system call takes the next fault, `some f`
-- to fail. There are no symbolic links: the target directory is fresh and the loop makes none.
use agentreg.Base.{
  ℕ, zero, suc, ◌+◌, ◌-◌, Text, bytes, ◌==◌, eqb, leb, ltb, Option, none, some, List, [], ◌∷◌, ◌++◌,
  Result, ok, err, driver, Error, wrap, if◌then◌else◌, length, find,
}
use agentreg.Path.{dir}
use agentreg.Pack.{ExtractOptions, max_decompressed_bytes, strip_components, file_mode, safe_join}

-- An error of a system call; a write stops after `written` bytes.
pub record Fault : Type 0 where
  pub message : Text
  pub written : ℕ

pub record File : Type 0 where
  pub mode : ℕ
  pub content : Text

pub record Disk : Type 0 where
  pub dirs : List Text
  pub files : List (Text × File)
  pub faults : List (Option Fault)

pub data Typeflag : Type 0 where
  type_dir type_reg : Typeflag
  type_other : ℕ → Typeflag

-- A header with the bytes that reading its content gives and the error that ends them, if it is not
-- io.EOF; or an error of `tr.Next()`.
pub record Entry : Type 0 where
  pub name : Text
  pub typeflag : Typeflag
  pub mode : ℕ
  pub content : Text
  pub read_error : Option Text

pub data Item : Type 0 where
  entry : Entry → Item
  broken : Text → Item

abbrev pub D : Type 0 → Type 0
D A = Disk → Result A × Disk

module _ {A B : Type 0} where
  abbrev pub continue : Result A → (A → D B) → D B
  continue (ok a) f d = f a d
  continue (err e) f d = (err e, d)

  infixl 10 ◌>>=◌ ◌>>◌
  unfoldable pub ◌>>=◌ : D A → (A → D B) → D B
  ◌>>=◌ m f d = continue (m d).0 f (m d).1

  abbrev pub ◌>>◌ : D A → D B → D B
  m >> k = m >>= λ _. k

unfoldable pub done : {A : Type 0} → A → D A
done a d = (ok a, d)

unfoldable pub stop : {A : Type 0} → Error → D A
stop e d = (err e, d)

abbrev head_fault : List (Option Fault) → Option Fault
head_fault [] = none
head_fault (f ∷ fs) = f

abbrev rest_faults : List (Option Fault) → List (Option Fault)
rest_faults [] = []
rest_faults (f ∷ fs) = fs

abbrev pub next_fault : Disk → Option Fault
next_fault d = head_fault d.faults

abbrev pub past_fault : Disk → Disk
past_fault d = record d { faults = rest_faults d.faults }

-- A system call that leaves the tree as it is when it fails, and is otherwise the change `f`.
abbrev pub call_at : Option Fault → (Disk → Disk) → D (Unit {0})
call_at none f d = (ok tt, f d)
call_at (some e) f d = (err (driver e.message), d)

unfoldable pub call : (Disk → Disk) → D (Unit {0})
call f d = call_at (next_fault d) f (past_fault d)

unfoldable pub take : ℕ → Text → Text
take zero s = []
take (suc n) [] = []
take (suc n) (c ∷ s) = c ∷ take n s

unfoldable pub put_file : Text → File → List (Text × File) → List (Text × File)
put_file p f [] = (p, f) ∷ []
put_file p f ((q, g) ∷ fs) = if q == p then (p, f) ∷ fs else (q, g) ∷ put_file p f fs

unfoldable pub drop_file : Text → List (Text × File) → List (Text × File)
drop_file p [] = []
drop_file p ((q, g) ∷ fs) = if q == p then fs else (q, g) ∷ drop_file p fs

-- The mode of a file that is there stays.
abbrev pub opened : Option (Text × File) → ℕ → File
opened none mode = record { mode = mode; content = [] }
opened (some (p, f)) mode = record f { content = [] }

unfoldable pub mkdir_all : Text → D (Unit {0})
unfolding call
mkdir_all p = call λ d. record d { dirs = p ∷ d.dirs }

-- os.O_CREATE|os.O_WRONLY|os.O_TRUNC
unfoldable pub open_file : Text → ℕ → D (Unit {0})
unfolding call put_file
open_file p mode =
    call λ d. record d { files = put_file p (opened (find (λ f. f.0 == p) d.files) mode) d.files }

-- `_ = os.Remove(p)`
unfoldable pub remove : Text → D (Unit {0})
unfolding call drop_file
remove p d = (ok tt, (call (λ d. record d { files = drop_file p d.files }) d).1)

-- io.CopyN(out, tr, limit): the number of bytes written, and the error if it is not io.EOF. The file is
-- written as a whole; a write that fails leaves some of the bytes out.
abbrev pub copy_at : Option Fault → Text → ℕ → Text → Option Text → ℕ → D (ℕ × Option Text)
copy_at none p mode content read_error limit d =
    let got = take limit content in
    let file = record (opened (find (λ f. f.0 == p) d.files) mode) { content = got } in
    (
      ok (length got, if ltb (length content) limit then read_error else none),
      record d { files = put_file p file d.files },
    )
copy_at (some e) p mode content read_error limit d =
    let got = take e.written (take (limit - 1) content) in
    let file = record (opened (find (λ f. f.0 == p) d.files) mode) { content = got } in
    (ok (length got, some e.message), record d { files = put_file p file d.files })

unfoldable pub copy : Text → ℕ → Text → Option Text → ℕ → D (ℕ × Option Text)
unfolding take put_file
copy p mode content read_error limit d =
    copy_at (next_fault d) p mode content read_error limit (past_fault d)

abbrev pub too_big : Error
too_big = driver (bytes "archive exceeds the decompressed size limit")

-- What follows on `io.CopyN` when `remaining` bytes were left.
unfoldable pub after_copy : Text → ℕ → ℕ → ℕ × Option Text → D ℕ
unfolding remove call ◌>>=◌ done stop
after_copy target remaining total (n, some m) = stop (driver m)
after_copy target remaining total (n, none) =
    if ltb remaining n then remove target >> stop too_big else call (λ d. d) >> done (total + n)

unfoldable pub extract_file : ℕ → ℕ → Text → Entry → D ℕ
unfolding mkdir_all open_file remove copy after_copy ◌>>=◌ stop
extract_file limit total target e =
    let mode = file_mode e.mode in
    let remaining = limit - total in
    mkdir_all (dir target) >>= λ _. open_file target mode >>= λ _.
    if leb limit total
    then remove target >> stop too_big
    else (copy target mode e.content e.read_error (remaining + 1) >>= λ r.
        after_copy target remaining total r)

-- The `switch` on the header's type flag; it gives the bytes written so far.
unfoldable pub extract_target : ExtractOptions → ℕ → ℕ → Entry → Typeflag → Text → D ℕ
unfolding mkdir_all extract_file ◌>>=◌ done stop
extract_target opts limit total e type_dir target = mkdir_all target >> done total
extract_target opts limit total e type_reg target = extract_file limit total target e
extract_target opts limit total e (type_other flag) target =
    if opts.skip_unsupported_types
    then done total
    else stop (driver (bytes "unsupported tar entry type"))

unfoldable pub joined : Result Text → D Text
joined r d = (r, d)

-- From the stripped name on.
unfoldable pub extract_name : ExtractOptions → Text → ℕ → ℕ → Entry → Option Text → D ℕ
unfolding extract_target joined done ◌>>=◌
extract_name opts dest limit total e none = done total
extract_name opts dest limit total e (some name) =
    joined (safe_join dest name) >>= λ target. extract_target opts limit total e e.typeflag target

unfoldable pub extract_items : ExtractOptions → Text → ℕ → ℕ → List Item → D (Unit {0})
unfolding extract_name done stop ◌>>=◌
extract_items opts dest limit total [] = done tt
extract_items opts dest limit total (broken m ∷ items) =
    stop (driver (bytes "read tar entry: " ++ m))
extract_items opts dest limit total (entry e ∷ items) =
    extract_name opts dest limit total e (strip_components e.name opts.strip_count) >>= λ total'.
    extract_items opts dest limit total' items

unfoldable pub limit_of : ExtractOptions → ℕ
limit_of opts = if eqb opts.max_bytes 0 then max_decompressed_bytes else opts.max_bytes

-- `none` is an error of gzip.NewReader.
unfoldable pub extract_reader : Option (List Item) → Text → ExtractOptions → D (Unit {0})
unfolding extract_items limit_of stop
extract_reader none dest opts = stop (wrap (bytes "open gzip") (driver (bytes "gzip")))
extract_reader (some items) dest opts = extract_items opts dest (limit_of opts) 0 items
