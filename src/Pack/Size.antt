-- ===== src/Pack/Size.antt =====
-- Whatever the archive, the files that are written stay within the limit on decompressed bytes.
use agentreg.Base.{
  ℕ, ◌+◌, ◌-◌, ◌≤◌, Text, ◌==◌, leb, ltb, List, [], ◌∷◌, Result, ok, err, ◌≡◌, false, Option, none,
  some, find, length, arith, ap,
}
use agentreg.Path.{dir}
use agentreg.Pack.{ExtractOptions, safe_join}
use agentreg.Pack.Extract.{
  Disk, Fault, Entry, Item, entry, broken, Typeflag, type_dir, type_reg, type_other, ◌>>◌, done,
  stop, call, call_at, mkdir_all, open_file, remove, copy, copy_at, next_fault, past_fault, opened,
  after_copy, drop_file, put_file, too_big, extract_file, extract_target, joined, extract_name,
  extract_items, extract_reader, limit_of,
}
use agentreg.Pack.Outcome.{
  Leads, Makes, Makes-bind, Makes-done, Makes-stop, Makes-if, Makes-call, size, size-put_file,
  size-drop_file, length-take-take, length-take, opened-content,
}

module _ (limit : ℕ) where
  -- After an error one byte more can be left, when removing the file that was too big fails.
  abbrev pub IsNear : Disk → Type 0
  IsNear d = size d.files ≤ limit + 1

  abbrev pub IsWithin : ℕ → Disk → Type 0
  IsWithin total d = (size d.files ≤ total) × (total ≤ limit)

  Makes-mkdir_all : (t : ℕ) (p : Text) → Makes IsNear (IsWithin t) (mkdir_all p) (λ _. IsWithin t)
  unfolding mkdir_all
  Makes-mkdir_all t p = Makes-call IsNear _ _ _ (λ d h. omega (arith, h)) (λ d h. h)

  Makes-open_file :
      (t : ℕ) (p : Text) (mode : ℕ) → Makes IsNear (IsWithin t) (open_file p mode) (λ _. IsWithin t)
  unfolding open_file
  Makes-open_file t p mode =
      Makes-call IsNear _ _ _ (λ d h. omega (arith, h))
        λ d h.
          let f = opened (find (λ f. f.0 == p) d.files) mode in
          let e = ap length (opened-content (find (λ f. f.0 == p) d.files) mode) in
          (omega (arith, size-put_file p f d.files, e, h), h.1)

  Makes-remove : (p : Text) → Makes IsNear IsNear (remove p) (λ _. IsNear)
  unfolding remove call
  Makes-remove p = record { at = λ d h. at_fault d h (next_fault d) }
    where
      at_fault :
          (d : Disk)
          → IsNear d
          → (o : Option Fault)
          → IsNear (call_at o (λ d. record d { files = drop_file p d.files }) (past_fault d)).1
      at_fault d h none = omega (arith, size-drop_file p d.files, h)
      at_fault d h (some e) = h

  Makes-refused :
      (P : Disk → Type 0) (p : Text)
      → ((d : Disk) → P d → IsNear d)
      → Makes IsNear P (remove p >> stop {A = ℕ} too_big) IsWithin
  Makes-refused P p near =
      Makes-bind IsNear P (λ _. IsNear) IsWithin {m = remove p}
        (record { at = λ d h. (Makes-remove p).at d (near d h) })
        λ _. Makes-stop IsNear IsNear IsWithin too_big (λ d h. h)

  -- `n` bytes more.
  abbrev IsCopied : ℕ → ℕ × Option Text → Disk → Type 0
  IsCopied t r d = (size d.files ≤ t + r.0) × (r.0 + t ≤ limit + 1)

  Makes-copy :
      (t : ℕ) (p : Text) (mode : ℕ) (content : Text) (e : Option Text)
      → leb limit t ≡ false
      → Makes IsNear (IsWithin t) (copy p mode content e (limit - t + 1)) (IsCopied t)
  unfolding copy
  Makes-copy t p mode content e less = record { at = λ d h. at_fault d h (next_fault d) }
    where
      fits :
          (d : Disk) (mode : ℕ) (got : Text)
          → IsWithin t d
          → length got ≤ limit - t + 1
          → IsCopied t
              (length got, none)
              (record d { files = put_file p (record { mode = mode; content = got }) d.files })
      fits d mode got h k = (
        omega (arith, size-put_file p (record { mode = mode; content = got }) d.files, h, k),
        ground (arith, h, k),
      )

      at_fault :
          (d : Disk)
          → IsWithin t d
          → (o : Option Fault)
          → Leads IsNear (IsCopied t) (copy_at o p mode content e (limit - t + 1) (past_fault d))
      at_fault d h none =
          fits d (opened (find (λ f. f.0 == p) d.files) mode).mode _ h
            (length-take (limit - t + 1) content)
      at_fault d h (some f) =
          fits d (opened (find (λ f. f.0 == p) d.files) mode).mode _ h
            (omega (arith, length-take-take f.written (limit - t + 1 - 1) content))

  Makes-after_copy :
      (t : ℕ) (p : Text) (r : ℕ × Option Text)
      → leb limit t ≡ false
      → Makes IsNear (IsCopied t r) (after_copy p (limit - t) t r) IsWithin
  unfolding after_copy
  Makes-after_copy t p (n, some m) less = Makes-stop IsNear _ _ _ λ d h. omega (arith, h)
  Makes-after_copy t p (n, none) less =
      Makes-if IsNear (ltb (limit - t) n) _ _ (λ _. Makes-refused _ p (λ d h. omega (arith, h)))
        (λ e.
          Makes-bind IsNear _ (λ _. IsWithin (t + n)) _
            (Makes-call IsNear _ _ (λ d. d) (λ d h. omega (arith, h))
              (λ d h. (h.0, ground (arith, h))))
            λ _. Makes-done IsNear IsWithin (t + n))

  Makes-extract_file :
      (t : ℕ) (p : Text) (e : Entry) → Makes IsNear (IsWithin t) (extract_file limit t p e) IsWithin
  unfolding extract_file
  Makes-extract_file t p e = Makes-bind IsNear _ _ _ (Makes-mkdir_all t (dir p)) λ _.
      Makes-bind IsNear _ _ _ (Makes-open_file t p _) λ _.
        Makes-if IsNear (leb limit t) _ _ (λ _. Makes-refused _ p (λ d h. omega (arith, h)))
          (λ less.
            Makes-bind IsNear _ _ _ (Makes-copy t p _ _ _ less) λ r. Makes-after_copy t p r less)

  Makes-extract_target :
      (opts : ExtractOptions) (t : ℕ) (e : Entry) (flag : Typeflag) (p : Text)
      → Makes IsNear (IsWithin t) (extract_target opts limit t e flag p) IsWithin
  unfolding extract_target
  Makes-extract_target opts t e type_dir p =
      Makes-bind IsNear _ _ _ (Makes-mkdir_all t p) λ _. Makes-done IsNear IsWithin t
  Makes-extract_target opts t e type_reg p = Makes-extract_file t p e
  Makes-extract_target opts t e (type_other flag) p =
      Makes-if IsNear opts.skip_unsupported_types _ _ (λ _. Makes-done IsNear IsWithin t)
        (λ _. Makes-stop IsNear _ _ _ (λ d h. omega (arith, h)))

  Makes-joined : (t : ℕ) (r : Result Text) → Makes IsNear (IsWithin t) (joined r) (λ _. IsWithin t)
  unfolding joined
  Makes-joined t (ok p) = record { at = λ d h. h }
  Makes-joined t (err m) = record { at = λ d h. omega (arith, h) }

  Makes-extract_name :
      (opts : ExtractOptions) (dest : Text) (t : ℕ) (e : Entry) (name : Option Text)
      → Makes IsNear (IsWithin t) (extract_name opts dest limit t e name) IsWithin
  unfolding extract_name
  Makes-extract_name opts dest t e none = Makes-done IsNear IsWithin t
  Makes-extract_name opts dest t e (some name) =
      Makes-bind IsNear _ _ _ (Makes-joined t (safe_join dest name))
        λ p. Makes-extract_target opts t e e.typeflag p

  Makes-extract_items :
      (opts : ExtractOptions) (dest : Text) (t : ℕ) (items : List Item)
      → Makes IsNear
          (IsWithin t)
          (extract_items opts dest limit t items)
          (λ _ d. size d.files ≤ limit)
  unfolding extract_items done
  Makes-extract_items opts dest t [] = record { at = λ d h. omega (arith, h) }
  Makes-extract_items opts dest t (broken m ∷ items) =
      Makes-stop IsNear _ _ _ (λ d h. omega (arith, h))
  Makes-extract_items opts dest t (entry e ∷ items) =
      Makes-bind IsNear _ _ _ (Makes-extract_name opts dest t e _)
        λ t'. Makes-extract_items opts dest t' items

-- Extracting an archive to a tree without files, with any failing system calls, leaves at most
-- `limit_of opts` bytes in files when it succeeds, and at most one byte more when it fails.
pub extract_reader-size :
    (items : List Item) (dest : Text) (opts : ExtractOptions) (d : Disk)
    → d.files ≡ []
    → Leads
        (λ d'. size d'.files ≤ limit_of opts + 1)
        (λ _ d'. size d'.files ≤ limit_of opts)
        (extract_reader (some items) dest opts d)
unfolding extract_reader size
extract_reader-size items dest opts d h =
    (Makes-extract_items (limit_of opts) opts dest 0 items).at d (rw h (omega arith), omega arith)
