-- ===== src/Api/Received.antt =====
-- Lemmas on what an upload is received as (internal/api/plugins.go).
use agentreg.Base.{
  eqb, ℕ, zero, suc, ◌+◌, ◌≤◌, Text, ◌==◌, ltb, Option, none, some, [], ◌∷◌, find, length, Result,
  ok, err, Error, false, true, Bool-cases, inl, inr, if◌then◌else◌, ok-injective, ◌≡◌, refl, sym,
  subst, ap, ◌∙◌, arith,
}
use agentreg.Path.{clean}
use agentreg.Pack.{is_inside}
use agentreg.Pack.{default_options}
use agentreg.Pack.Extract.{
  Disk, File, Fault, D, take, call, call_at, next_fault, past_fault, open_file, mkdir_all, copy,
  copy_at, put_file, opened, extract_reader,
}
use agentreg.Pack.Contained.{file_at, put_file_self, extract_reader_outside}
use agentreg.Manifest.{Bundle}
use agentreg.Manifest.Valid.{Valid, validate_dir-Valid}
use agentreg.Manifest.Reading.{read_folder, read_folder-files, validate_at}
use agentreg.Api.Receive.{
  max_tarball_bytes, Upload, Refusal, internal, told, failed, Received, refused, received, Receive,
  or_refused, step, taken, refuse, proceed, ◌>>=◌, stored, found_at, open_stored, internal_error,
  invalid_archive, invalid_plugin, tarball_path, extract_dir, read_body, receive,
}

-- From `P`, what is received leads to `Q`.
record Gets {A : Type 0} (P : Disk → Type 0) (m : Receive A) (Q : A → Disk → Type 0) : Type 0 where
  at : (d : Disk) → P d → (a : A) → (m d).0 ≡ received a → Q a (m d).1

module _ {A B : Type 0} {P : Disk → Type 0} {Q : B → Disk → Type 0} where
  Gets-bind :
      (R : A → Disk → Type 0) {m : Receive A} {k : A → Receive B}
      → Gets P m R
      → ((a : A) → Gets (R a) (k a) Q)
      → Gets P (m >>= k) Q
  unfolding ◌>>=◌
  Gets-bind R {m} {k} h j = record { at = λ d p b e. led (m d).0 (m d).1 b (h.at d p) e }
    where
      led :
          (r : Received A) (d : Disk) (b : B)
          → ((a : A) → r ≡ received a → R a d)
          → (proceed r k d).0 ≡ received b
          → Q b (proceed r k d).1
      led (refused x) d b h e = absurd (cc e)
      led (received a) d b h e = (j a).at d (h a refl) b e

or_refused-ok :
    {A : Type 0} (f : Error → Refusal) (r : Result A) (a : A)
    → or_refused f r ≡ received a
    → r ≡ ok a
or_refused-ok f (ok b) a e = cc e
or_refused-ok f (err x) a e = absurd (cc e)

module _ {A : Type 0} {P : Disk → Type 0} {Q : A → Disk → Type 0} where
  Gets-step :
      (f : Error → Refusal) (m : D A)
      → ((d : Disk) → P d → (a : A) → (m d).0 ≡ ok a → Q a (m d).1)
      → Gets P (step f m) Q
  unfolding step
  Gets-step f m h = record { at = λ d p a e. h d p a (or_refused-ok f (m d).0 a e) }

-- A system call that succeeds.
call-ok : (g : Disk → Disk) (d : Disk) → (call g d).0 ≡ ok tt → (call g d).1 ≡ g (past_fault d)
unfolding call
call-ok g d = at_fault (next_fault d)
  where
    at_fault :
        (o : Option Fault)
        → (call_at o g (past_fault d)).0 ≡ ok tt
        → (call_at o g (past_fault d)).1 ≡ g (past_fault d)
    at_fault none e = refl
    at_fault (some x) e = absurd (cc e)

take-all : (n : ℕ) (s : Text) → length (take n s) + 1 ≤ n → (take n s ≡ s) × (length s + 1 ≤ n)
unfolding take
take-all zero s h = absurd (omega arith)
take-all (suc n) [] h = (refl, omega arith)
take-all (suc n) (c ∷ s) h =
    let (e, k) = take-all n s (omega arith) in (ap (λ x. c ∷ x) e, omega arith)

module _ (p content : Text) where
  -- The file `p` has that content.
  abbrev pub HasContent : Disk → Type 0
  HasContent d = (f : File) × (file_at p d.files ≡ some (p, f)) × (f.content ≡ content)

  HasContent-same : (d d' : Disk) → d'.files ≡ d.files → HasContent d → HasContent d'
  HasContent-same d d' e h = (h.0, ap (file_at p) e ∙ h.1, h.2)

  stored-HasContent :
      (o : Option (Text × File)) (x : Text) (f : File)
      → o ≡ some (p, f)
      → f.content ≡ content
      → stored o ≡ ok x
      → x ≡ content
  stored-HasContent o x f e c h = sym (ok-injective (subst (λ y. stored y ≡ ok x) e h)) ∙ c

  open_stored-HasContent :
      (d : Disk) (x : Text)
      → HasContent d
      → (open_stored p d).0 ≡ ok x
      → (x ≡ content) × HasContent (open_stored p d).1
  unfolding open_stored call
  open_stored-HasContent d x h = at_fault (next_fault d) (past_fault d) (h.0, h.1, h.2)
    where
      at_fault :
          (o : Option Fault) (d : Disk)
          → (f : File) × (file_at p d.files ≡ some (p, f)) × (f.content ≡ content)
          → (found_at p (call_at o (λ d. d)) d).0 ≡ ok x
          → (x ≡ content)
            × ((f : File) × (file_at p (found_at p (call_at o (λ d. d)) d).1.files ≡ some (p, f))
                × (f.content ≡ content))
      at_fault none d h e = (stored-HasContent (file_at p d.files) x h.0 h.1 h.2 e, h)
      at_fault (some m) d h e = absurd (cc e)

-- A copy without an error that is shorter than the limit is complete.
copy_complete :
    (p : Text) (mode : ℕ) (content : Text) (read_error : Option Text) (limit n : ℕ) (d : Disk)
    → (copy p mode content read_error limit d).0 ≡ ok (n, none)
    → n + 1 ≤ limit
    → HasContent p content (copy p mode content read_error limit d).1
      × (length content + 1 ≤ limit)
      × (read_error ≡ none)
unfolding copy
copy_complete p mode content read_error limit n d = at_fault (next_fault d) (past_fault d)
  where
    whole :
        (got : Text) (d : Disk)
        → (take limit content ≡ content)
        → HasContent p content (record d {
          files =
              put_file p
                (record (opened (find (λ f. f.0 == p) d.files) mode) {
                  content = take limit content;
                })
                d.files;
        })
    whole got d e = (_, put_file_self p _ d.files, e)

    at_fault :
        (o : Option Fault) (d : Disk)
        → (copy_at o p mode content read_error limit d).0 ≡ ok (n, none)
        → n + 1 ≤ limit
        → HasContent p content (copy_at o p mode content read_error limit d).1
          × (length content + 1 ≤ limit)
          × (read_error ≡ none)
    at_fault none d e h =
        let lengths : length (take limit content) ≡ n = ap (λ x. x.0) (ok-injective e) in
        let (all_of_it, short) = take-all limit content (omega arith) in
        let is_short : ltb (length content) limit ≡ true = ground arith in
        (
          whole content d all_of_it,
          short,
          subst (λ b. (if b then read_error else none) ≡ none) is_short
              (ap (λ x. x.1) (ok-injective e)),
        )
    at_fault (some x) d e h = absurd (cc e)

-- What is received: the body is complete and within the limit, and is the content; it unpacks on the disk
-- `before`, and what is then in the directory validates.
pub record IsReceived (u : Upload) (x : Bundle × Text) : Type 0 where
  pub small : length u.body ≤ max_tarball_bytes
  pub complete : u.read_error ≡ none
  pub before : Disk
  pub unpacks : (extract_reader (u.untar u.body) (extract_dir u) default_options before).0 ≡ ok tt
  pub valid :
      Valid u.validators
        (read_folder
          (extract_dir u)
          (extract_reader (u.untar u.body) (extract_dir u) default_options before).1).0
        x.0
  pub is_body : x.1 ≡ u.body

module _ (u : Upload) (apart : is_inside (tarball_path u) (clean (extract_dir u)) ≡ false) where
  abbrev IsStored : Disk → Type 0
  IsStored = HasContent (tarball_path u) u.body

  abbrev IsComplete : Type 0
  IsComplete = (length u.body ≤ max_tarball_bytes) × (u.read_error ≡ none)

  -- After the copy, if it is looked at as a success.
  abbrev IsCopied : ℕ × Option Text → Disk → Type 0
  IsCopied x d = x.1 ≡ none → x.0 ≤ max_tarball_bytes → IsStored d × IsComplete

  copy-IsCopied :
      (d : Disk) (x : ℕ × Option Text)
      → (copy (tarball_path u) 438 u.body u.read_error (max_tarball_bytes + 1) d).0 ≡ ok x
      → IsCopied x (copy (tarball_path u) 438 u.body u.read_error (max_tarball_bytes + 1) d).1
  copy-IsCopied d (n, some m) e none_ le = absurd (cc none_)
  copy-IsCopied d (n, none) e none_ le =
      let (h, short, complete) =
        copy_complete (tarball_path u) 438 u.body u.read_error (max_tarball_bytes + 1) n d e
          (omega arith) in
      (h, (omega arith, complete))

  read_body-Gets :
      (x : ℕ × Option Text) → Gets (IsCopied x) (read_body x) (λ a d. IsStored d × IsComplete)
  unfolding read_body refuse taken
  read_body-Gets (n, some m) = record { at = λ d p a e. absurd (cc e) }
  read_body-Gets (n, none) = elim (Bool-cases (ltb max_tarball_bytes n)) [
    | inl big ↦ rw big (record { at = λ d p a e. absurd (cc e) })
    | inr small ↦ rw small (record { at = λ d p a e. p refl (ground arith) })
  ]

  mkdir_all-Gets :
      (f : Error → Refusal)
      → Gets
          (λ d. IsStored d × IsComplete)
          (step f (mkdir_all (extract_dir u)))
          (λ a d. IsStored d × IsComplete)
  unfolding mkdir_all
  mkdir_all-Gets f = Gets-step f _ λ d p a e. (
    HasContent-same (tarball_path u) u.body d (mkdir_all (extract_dir u) d).1
        (ap (λ x. x.files) (call-ok _ d e)) p.0,
    p.1,
  )

  -- The archive is unpacked.
  abbrev IsUnpacked : Disk → Type 0
  IsUnpacked d =
      (before : Disk) × ((extract_reader (u.untar u.body) (extract_dir u) default_options before).0
        ≡ ok tt)
      × (d ≡ (extract_reader (u.untar u.body) (extract_dir u) default_options before).1)

  extract-Gets :
      (f : Error → Refusal) (archive : Text)
      → Gets
          (λ d. (archive ≡ u.body) × IsStored d × IsComplete)
          (step f (extract_reader (u.untar archive) (extract_dir u) default_options))
          (λ a d. IsUnpacked d × IsStored d × IsComplete)
  extract-Gets f archive = Gets-step f _ λ d p a e. unpacked archive p.0 d a p.1 p.2 e
    where
      unpacked :
          (archive : Text)
          → archive ≡ u.body
          → (d : Disk) (a : Unit {0}) → IsStored d
          → IsComplete
          → (extract_reader (u.untar archive) (extract_dir u) default_options d).0 ≡ ok a
          → let d' = (extract_reader (u.untar archive) (extract_dir u) default_options d).1 in
            IsUnpacked d' × IsStored d' × IsComplete
      unpacked archive same d a h c =
          subst
            (λ t.
              (extract_reader (u.untar t) (extract_dir u) default_options d).0 ≡ ok a
              → let d' = (extract_reader (u.untar t) (extract_dir u) default_options d).1 in
                IsUnpacked d' × IsStored d' × IsComplete)
            (sym same)
            (λ e. (
              (d, e, refl),
              (
                h.0,
                extract_reader_outside (u.untar u.body) (extract_dir u) default_options d
                      (tarball_path u) apart
                    ∙ h.1,
                h.2,
              ),
              c,
            ))

  -- The unpacked directory validates.
  abbrev IsValidated : Bundle → Type 0
  IsValidated b =
      (before : Disk) × ((extract_reader (u.untar u.body) (extract_dir u) default_options before).0
        ≡ ok tt)
      × Valid u.validators
          (read_folder (extract_dir u)
            (extract_reader (u.untar u.body) (extract_dir u) default_options before).1).0
          b

  validate-Gets :
      (f : Error → Refusal)
      → Gets
          (λ d. IsUnpacked d × IsStored d × IsComplete)
          (step f (validate_at u.validators (extract_dir u)))
          (λ b d. IsValidated b × IsStored d × IsComplete)
  unfolding validate_at
  validate-Gets f = Gets-step f _ λ d p b e. (
    (
      p.0.0,
      p.0.1,
      subst (λ x. Valid u.validators (read_folder (extract_dir u) x).0 b) p.0.2
          (validate_dir-Valid u.validators (read_folder (extract_dir u) d).0 b e),
    ),
    HasContent-same (tarball_path u) u.body d (read_folder (extract_dir u) d).1
        (read_folder-files (extract_dir u) d) p.1,
    p.2,
  )

  open-Gets :
      (f : Error → Refusal) (F : Type 0)
      → Gets
          (λ d. F × IsStored d × IsComplete)
          (step f (open_stored (tarball_path u)))
          (λ x d. F × (x ≡ u.body) × IsStored d × IsComplete)
  open-Gets f F = Gets-step f _ λ d p x e.
      let (same, h) = open_stored-HasContent (tarball_path u) u.body d x p.1 e in
      (p.0, same, h, p.2)

  any-Gets : {A : Type 0} (m : Receive A) → Gets (λ d. Unit {0}) m (λ a d. Unit {0})
  any-Gets m = record { at = λ d p a e. tt }

  given-Gets :
      (bundle : Bundle) (content : Text)
      → Gets
          (λ d. IsValidated bundle × (content ≡ u.body) × IsStored d × IsComplete)
          (taken (bundle, content))
          (λ x d. IsReceived u x)
  unfolding taken
  given-Gets bundle content = record {
    at = λ d p x e. subst (IsReceived u) (same (bundle, content) x e) (record {
      small = p.3.0;
      complete = p.3.1;
      before = p.0.0;
      unpacks = p.0.1;
      valid = p.0.2;
      is_body = p.1;
    });
  }
    where
      same :
          (x y : Bundle × Text)
          → ◌≡◌ {A = Received (Bundle × Text)} (received x) (received y)
          → x ≡ y
      same x y e = cc e

  IsCopied-Gets :
      Gets
        (λ d. Unit {0})
        (step internal_error
          (copy (tarball_path u) 438 u.body u.read_error (max_tarball_bytes + 1)))
        IsCopied
  IsCopied-Gets = Gets-step internal_error _ λ d p x e. copy-IsCopied d x e

  first-Gets :
      Gets
        (λ d. IsStored d × IsComplete)
        (step invalid_archive (open_stored (tarball_path u)))
        (λ x d. (x ≡ u.body) × IsStored d × IsComplete)
  first-Gets = Gets-step invalid_archive _ λ d p x e.
      let (same, h) = open_stored-HasContent (tarball_path u) u.body d x p.0 e in (same, h, p.1)

  receive-Gets : Gets (λ d. Unit {0}) (receive u) (λ x d. IsReceived u x)
  unfolding receive
  receive-Gets =
      Gets-bind _ (any-Gets (step internal_error (call λ d. record d { dirs = u.tmp ∷ d.dirs })))
        λ made.
          Gets-bind _ (any-Gets (step internal_error (open_file (tarball_path u) 438))) λ created.
            Gets-bind _ IsCopied-Gets λ copied. Gets-bind _ (read_body-Gets copied) λ read.
              Gets-bind _ (mkdir_all-Gets internal_error) λ made_dir.
                Gets-bind _ first-Gets λ archive.
                  Gets-bind _ (extract-Gets invalid_archive archive) λ unpacked.
                    Gets-bind _ (validate-Gets invalid_plugin) λ bundle.
                      Gets-bind _ (open-Gets internal_error (IsValidated bundle))
                        λ content. given-Gets bundle content

  -- What is received.
  pub receive-IsReceived :
      (d : Disk) (x : Bundle × Text) → (receive u d).0 ≡ received x → IsReceived u x
  receive-IsReceived d x e = receive-Gets.at d tt x e

-- A refusal has another status than 201.
abbrev pub IsRefusal : Refusal → Type 0
IsRefusal internal = Unit
IsRefusal (told status m) = eqb status 201 ≡ false
IsRefusal (failed status e) = eqb status 201 ≡ false

record Refuses {A : Type 0} (m : Receive A) : Type 0 where
  at : (d : Disk) (x : Refusal) → (m d).0 ≡ refused x → IsRefusal x

same_refusal :
    {A B : Type 0} (x y : Refusal)
    → ◌≡◌ {A = Received A} (refused x) (refused y)
    → ◌≡◌ {A = Received B} (refused x) (refused y)
same_refusal {A = A} x y e = ap refused (same x y e)
  where
    same : (x y : Refusal) → ◌≡◌ {A = Received A} (refused x) (refused y) → x ≡ y
    same x y e = cc e

Refuses-bind :
    {A B : Type 0} {m : Receive A} {k : A → Receive B}
    → Refuses m
    → ((a : A) → Refuses (k a))
    → Refuses (m >>= k)
unfolding ◌>>=◌
Refuses-bind {A = A} {B = B} {m} {k} h j = record { at = λ d x e. led (m d).0 (m d).1 x (h.at d) e }
  where
    led :
        (r : Received A) (d : Disk) (x : Refusal)
        → ((y : Refusal) → r ≡ refused y → IsRefusal y)
        → (proceed r k d).0 ≡ refused x
        → IsRefusal x
    led (refused y) d x h e = h x (same_refusal y x e)
    led (received a) d x h e = (j a).at d x e

Refuses-step :
    {A : Type 0} (f : Error → Refusal) (m : D A)
    → ((e : Error) → IsRefusal (f e))
    → Refuses (step f m)
unfolding step
Refuses-step {A = A} f m h = record { at = λ d x e. led (m d).0 x e }
  where
    led : (r : Result A) (x : Refusal) → or_refused f r ≡ refused x → IsRefusal x
    led (ok a) x e = absurd (cc e)
    led (err y) x e = subst IsRefusal (same (f y) x e) (h y)
      where
        same : (a b : Refusal) → ◌≡◌ {A = Received A} (refused a) (refused b) → a ≡ b
        same a b e = cc e

Refuses-read_body : (x : ℕ × Option Text) → Refuses (read_body x)
unfolding read_body refuse taken
Refuses-read_body (n, some m) = record { at = λ d x e. subst IsRefusal (same _ x e) refl }
  where
    same : (a b : Refusal) → ◌≡◌ {A = Received (Unit {0})} (refused a) (refused b) → a ≡ b
    same a b e = cc e
Refuses-read_body (n, none) = elim (Bool-cases (ltb max_tarball_bytes n)) [
  | inl big ↦ rw big (record { at = λ d x e. subst IsRefusal (same _ x e) refl })
  | inr small ↦ rw small (record { at = λ d x e. absurd (cc e) })
]
  where
    same : (a b : Refusal) → ◌≡◌ {A = Received (Unit {0})} (refused a) (refused b) → a ≡ b
    same a b e = cc e

taken-Refuses : {A : Type 0} (a : A) → Refuses (taken a)
unfolding taken
taken-Refuses a = record { at = λ d x e. absurd (cc e) }

Refuses-internal : {A : Type 0} (m : D A) → Refuses (step internal_error m)
Refuses-internal m = Refuses-step internal_error m λ e. tt

receive-Refuses : (u : Upload) → Refuses (receive u)
unfolding receive
receive-Refuses u =
    Refuses-bind (Refuses-internal (call λ d. record d { dirs = u.tmp ∷ d.dirs })) λ made.
      Refuses-bind (Refuses-internal (open_file (tarball_path u) 438)) λ created.
        Refuses-bind
          (Refuses-internal (copy (tarball_path u) 438 u.body u.read_error (max_tarball_bytes + 1)))
          λ copied. Refuses-bind (Refuses-read_body copied) λ read.
            Refuses-bind (Refuses-internal (mkdir_all (extract_dir u))) λ made_dir.
              Refuses-bind (Refuses-step invalid_archive (open_stored (tarball_path u)) λ e. refl)
                λ archive.
                  Refuses-bind
                    (Refuses-step invalid_archive
                      (extract_reader (u.untar archive) (extract_dir u) default_options) λ e. refl)
                    λ unpacked.
                      Refuses-bind
                        (Refuses-step invalid_plugin (validate_at u.validators (extract_dir u))
                          λ e. refl)
                        λ bundle.
                          Refuses-bind (Refuses-internal (open_stored (tarball_path u)))
                            λ content. taken-Refuses (bundle, content)

pub receive-IsRefusal :
    (u : Upload) (d : Disk) (x : Refusal) → (receive u d).0 ≡ refused x → IsRefusal x
receive-IsRefusal u d x e = (receive-Refuses u).at d x e
