-- ===== src/Cli/Packed.antt =====
-- Packing a directory on a disk whose files stay as they are.
use agentreg.Base.{Text, Option, none, some, List, Result, ok, err, ◌≡◌, refl, ap}
use agentreg.Pack.Extract.{Disk, File, Fault, Item, D, next_fault, past_fault, call, call_at}
use agentreg.Pack.Extract
use agentreg.Pack.Dir.{Archiver, Visit, packed_items, visits, items_of, dir_archive}
use agentreg.Program.Runs.{Leads, Runs, Runs-weaken}
use agentreg.Process.{Process, on_disk, read_file, read_at}

-- Steps on the disk, one after the other.
Runs-steps :
    {A B : Type 0} {P : Disk → Type 0} (R : A → Disk → Type 0) {Q : B → Disk → Type 0}
    {E : Disk → Type 0} {m : D A} (k : A → D B)
    → Runs P m R E
    → ((a : A) → Runs (R a) (k a) Q E)
    → Runs P (Extract.◌>>=◌ m k) Q E
unfolding Extract.◌>>=◌
Runs-steps {A = A} {B = B} R {Q} {E} {m} k h j = record {
  at = λ d p. led (m d).0 (m d).1 (h.at d p);
}
  where
    led :
        (r : Result A) (d : Disk)
        → Leads R E r d
        → Leads Q E (Extract.continue r k d).0 (Extract.continue r k d).1
    led (ok a) d h = (j a).at d h
    led (err e) d h = h

-- Steps on the disk keep what does not depend on it.
pub Runs-framed :
    {A : Type 0} (F : Process → Type 0) {P : Disk → Type 0} {m : D A} {Q : A → Disk → Type 0}
    {E : Disk → Type 0}
    → ((c : Process) (d : Disk) → F c → F (record c { disk = d }))
    → Runs P m Q E
    → Runs (λ c. P c.disk × F c) (on_disk m) (λ a c. Q a c.disk × F c) (λ c. E c.disk × F c)
unfolding on_disk
Runs-framed {A = A} F {P} {m} {Q} {E} keeps h = record {
  at = λ c p. led (m c.disk).0 c (m c.disk).1 (h.at c.disk p.0) p.1;
}
  where
    led :
        (r : Result A) (c : Process) (d : Disk)
        → Leads Q E r d
        → F c
        → Leads (λ a c. Q a c.disk × F c) (λ c. E c.disk × F c) r (record c { disk = d })
    led (ok a) c d h p = (h, keeps c d p)
    led (err e) c d h p = (h, keeps c d p)

module _ (files : List (Text × File)) where
  abbrev SameFiles : Disk → Type 0
  SameFiles d = d.files ≡ files

  -- A call that may fail and changes nothing.
  pub Runs-call :
      (P : Disk → Type 0) → ((d : Disk) → P d → P (past_fault d)) → Runs P (call λ d. d) (λ u. P) P
  unfolding call
  Runs-call P keeps = record { at = λ d h. led (next_fault d) (past_fault d) (keeps d h) }
    where
      led :
          (o : Option Fault) (d : Disk)
          → P d
          → Leads (λ u. P) P (call_at o (λ d. d) d).0 (call_at o (λ d. d) d).1
      led none d h = h
      led (some e) d h = h

  pub read_file-Runs : (p : Text) → Runs SameFiles (read_file p) (λ b. SameFiles) SameFiles
  unfolding read_file
  read_file-Runs p = record { at = λ d h. led (next_fault d) (past_fault d) h }
    where
      led :
          (o : Option Fault) (d : Disk)
          → SameFiles d
          → Leads (λ b. SameFiles) SameFiles (read_at o p d).0 (read_at o p d).1
      led none d h = h
      led (some e) d h = h

  module _ (a : Archiver) (dir : Text) where
    -- What packing the directory gives while the files are these.
    abbrev pub IsPacked : List Item → Type 0
    IsPacked items =
        (packed : Disk) × (packed.files ≡ files) × (packed_items (a.walk packed dir) ≡ ok items)

    abbrev pub IsArchive : Text → Type 0
    IsArchive t = (items : List Item) × IsPacked items × (t ≡ a.tar items)

    visits-Runs :
        Runs SameFiles (visits a dir) (λ vs d. SameFiles d × (a.walk d dir ≡ vs)) SameFiles
    unfolding visits
    visits-Runs = record { at = λ d h. (h, refl) }

    items_of-Runs :
        (vs : List Visit)
        → Runs
            (λ d. SameFiles d × (a.walk d dir ≡ vs))
            (items_of vs)
            (λ items d. SameFiles d × IsPacked items)
            SameFiles
    unfolding items_of
    items_of-Runs vs = record { at = λ d h. led (packed_items vs) d h.0 (ap packed_items h.1) }
      where
        led :
            (r : Result (List Item)) (d : Disk)
            → SameFiles d
            → packed_items (a.walk d dir) ≡ r
            → Leads (λ items d. SameFiles d × IsPacked items) SameFiles r d
        led (ok items) d h e = (h, (d, h, e))
        led (err x) d h e = h

    written-Runs :
        (items : List Item)
        → Runs
            (λ d. SameFiles d × IsPacked items)
            (call λ d. d)
            (λ u d. SameFiles d × IsPacked items)
            SameFiles
    written-Runs items =
        Runs-weaken (λ d. SameFiles d × IsPacked items) _ (λ d. SameFiles d × IsPacked items)
          (λ d h. h) (λ u d h. h) (λ d h. h.0)
          (Runs-call (λ d. SameFiles d × IsPacked items) λ d h. h)

    summed-Runs :
        (items : List Item)
        → Runs {A = Text × Text}
            (λ d. SameFiles d × IsPacked items)
            (Extract.done (a.tar items, a.sha256 (a.tar items)))
            (λ x d. SameFiles d × IsArchive x.0)
            SameFiles
    unfolding Extract.done
    summed-Runs items = record { at = λ d h. (h.0, (items, h.1, refl)) }

    pub dir_archive-Runs :
        Runs SameFiles
          (dir_archive a (call λ d. d) (λ b. call λ d. d) dir)
          (λ x d. SameFiles d × IsArchive x.0)
          SameFiles
    unfolding dir_archive
    dir_archive-Runs =
        Runs-steps (λ u. SameFiles) _ (Runs-call SameFiles λ d h. h)
          λ u. Runs-steps _ _ visits-Runs λ vs.
            Runs-steps _ _ (items_of-Runs vs)
              λ items. Runs-steps _ _ (written-Runs items) λ u. summed-Runs items
