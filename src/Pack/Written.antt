-- ===== src/Pack/Written.antt =====
-- What an extraction keeps true of the files: enough is that writing or removing one file that it may
-- write to keeps it.
use agentreg.Base.{
  ℕ, ◌+◌, Text, leb, ltb, List, [], ◌∷◌, Result, ok, err, Error, if◌then◌else◌, ◌≡◌, refl, Option,
  none, some, Bool,
}
use agentreg.Path.{dir}
use agentreg.Pack.{ExtractOptions, safe_join}
use agentreg.Pack.Extract.{
  Disk, File, put_file, Fault, Entry, Item, entry, broken, Typeflag, type_dir, type_reg, type_other,
  D, ◌>>=◌, done, stop, too_big, call, call_at, mkdir_all, open_file, remove, copy, copy_at,
  next_fault, past_fault, after_copy, drop_file, extract_file, extract_target, joined, extract_name,
  extract_items, extract_reader, limit_of,
}
use agentreg.Pack.Outcome.{Leads, Makes, Makes-bind, Makes-done, Makes-stop, Makes-if, Makes-call}

Leads-each : (E : Disk → Type 0) (r : Result (Unit {0}) × Disk) → Leads E (λ _. E) r → E r.1
Leads-each E (ok a, d) h = h
Leads-each E (err e, d) h = h

-- `inv` is a property of the files, `Target` one of the paths that the extraction writes to.
module _ (inv : List (Text × File) → Type 0) (Target : Text → Type 0)
    (put : (p : Text) (f : File) (fs : List (Text × File))
      → Target p
      → inv fs
      → inv (put_file p f fs))
    (unput : (p : Text) (fs : List (Text × File)) → Target p → inv fs → inv (drop_file p fs)) where
  abbrev Inv : Disk → Type 0
  Inv d = inv d.files

  abbrev Stays : {A : Type 0} → D A → Type 0
  Stays m = Makes Inv Inv m (λ a. Inv)

  Stays-mkdir_all : (p : Text) → Stays (mkdir_all p)
  unfolding mkdir_all
  Stays-mkdir_all p = Makes-call Inv Inv Inv _ (λ d h. h) (λ d h. h)

  Stays-open_file : (p : Text) (mode : ℕ) → Target p → Stays (open_file p mode)
  unfolding open_file
  Stays-open_file p mode b = Makes-call Inv Inv Inv _ (λ d h. h) (λ d h. put p _ d.files b h)

  Stays-remove : (p : Text) → Target p → Stays (remove p)
  unfolding remove call
  Stays-remove p b = record { at = λ d h. at_fault d h (next_fault d) }
    where
      at_fault :
          (d : Disk)
          → Inv d
          → (o : Option Fault)
          → Inv (call_at o (λ d. record d { files = drop_file p d.files }) (past_fault d)).1
      at_fault d h none = unput p d.files b h
      at_fault d h (some e) = h

  Stays-copy :
      (p : Text) (mode : ℕ) (content : Text) (e : Option Text) (n : ℕ)
      → Target p
      → Stays (copy p mode content e n)
  unfolding copy
  Stays-copy p mode content e n b = record { at = λ d h. at_fault d h (next_fault d) }
    where
      at_fault :
          (d : Disk)
          → Inv d
          → (o : Option Fault)
          → Leads Inv (λ (r : ℕ × Option Text). Inv) (copy_at o p mode content e n (past_fault d))
      at_fault d h none = put p _ d.files b h
      at_fault d h (some f) = put p _ d.files b h

  Stays-bind :
      {A B : Type 0} {m : D A} {f : A → D B} → Stays m → ((a : A) → Stays (f a)) → Stays (m >>= f)
  Stays-bind h k = Makes-bind Inv _ _ _ h k

  Stays-done : {A : Type 0} (a : A) → Stays (done a)
  Stays-done a = Makes-done Inv _ a

  Stays-stop : {A : Type 0} (e : Error) → Stays {A = A} (stop e)
  Stays-stop e = Makes-stop Inv _ _ e (λ d h. h)

  Stays-if : {A : Type 0} (b : Bool) {m k : D A} → Stays m → Stays k → Stays (if b then m else k)
  Stays-if b h k = Makes-if Inv b _ _ (λ _. h) (λ _. k)

  Stays-after_copy :
      (p : Text) (remaining total : ℕ) (r : ℕ × Option Text)
      → Target p
      → Stays (after_copy p remaining total r)
  unfolding after_copy
  Stays-after_copy p remaining total (n, some m) b = Stays-stop _
  Stays-after_copy p remaining total (n, none) b =
      Stays-if (ltb remaining n) (Stays-bind (Stays-remove p b) λ _. Stays-stop too_big) (
        Stays-bind (Makes-call Inv Inv Inv (λ d. d) (λ d h. h) (λ d h. h))
          λ _. Stays-done (total + n))

  Stays-extract_file :
      (limit total : ℕ) (p : Text) (e : Entry) → Target p → Stays (extract_file limit total p e)
  unfolding extract_file
  Stays-extract_file limit total p e b = Stays-bind (Stays-mkdir_all (dir p)) λ _.
      Stays-bind (Stays-open_file p _ b) λ _.
        Stays-if (leb limit total) (Stays-bind (Stays-remove p b) λ _. Stays-stop too_big)
          (Stays-bind (Stays-copy p _ _ _ _ b) λ r. Stays-after_copy p _ _ r b)

  Stays-extract_target :
      (opts : ExtractOptions) (limit total : ℕ) (e : Entry) (flag : Typeflag) (p : Text)
      → Target p
      → Stays (extract_target opts limit total e flag p)
  unfolding extract_target
  Stays-extract_target opts limit total e type_dir p b =
      Stays-bind (Stays-mkdir_all p) λ _. Stays-done _
  Stays-extract_target opts limit total e type_reg p b = Stays-extract_file limit total p e b
  Stays-extract_target opts limit total e (type_other flag) p b =
      Stays-if opts.skip_unsupported_types (Stays-done total) (Stays-stop _)

  module _ (dest : Text) (joins : (name p : Text) → safe_join dest name ≡ ok p → Target p) where
    Makes-joined :
        (name : Text) (r : Result Text)
        → safe_join dest name ≡ r
        → Makes Inv Inv (joined r) (λ p d. Target p × Inv d)
    unfolding joined
    Makes-joined name (ok p) e = record { at = λ d h. (joins name p e, h) }
    Makes-joined name (err m) e = record { at = λ d h. h }

    Stays-extract_name :
        (opts : ExtractOptions) (limit total : ℕ) (e : Entry) (name : Option Text)
        → Stays (extract_name opts dest limit total e name)
    unfolding extract_name
    Stays-extract_name opts limit total e none = Stays-done _
    Stays-extract_name opts limit total e (some name) =
        Makes-bind Inv _ _ _ (Makes-joined name (safe_join dest name) refl) λ p. record {
          at = λ d h. (Stays-extract_target opts limit total e e.typeflag p h.0).at d h.1;
        }

    Stays-extract_items :
        (opts : ExtractOptions) (limit total : ℕ) (items : List Item)
        → Stays (extract_items opts dest limit total items)
    unfolding extract_items
    Stays-extract_items opts limit total [] = Stays-done _
    Stays-extract_items opts limit total (broken m ∷ items) = Stays-stop _
    Stays-extract_items opts limit total (entry e ∷ items) =
        Stays-bind (Stays-extract_name opts limit total e _)
          λ total'. Stays-extract_items opts limit total' items

    -- The extraction keeps `inv`, whether it succeeds or fails.
    pub extract_reader-keeps :
        (archive : Option (List Item)) (opts : ExtractOptions) (d : Disk)
        → inv d.files
        → inv (extract_reader archive dest opts d).1.files
    unfolding extract_reader stop
    extract_reader-keeps none opts d h = h
    extract_reader-keeps (some items) opts d h =
        Leads-each Inv _ ((Stays-extract_items opts (limit_of opts) 0 items).at d h)
