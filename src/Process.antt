-- ===== src/Process.antt =====
-- What the commands krate and crawler work on: the disk, the temporary file, the answers that the server will
-- give, the requests sent, the terminal and the clock. Paths are named from the working directory.
pub mod Packing
use agentreg.Base.{
  Result, ℕ, zero, suc, Text, bytes, ◌==◌, ◌||◌, not, Bool, Option, none, some, List, [], ◌∷◌, ◌++◌,
  ok, err, driver, find, keep, has_suffix, if◌then◌else◌,
}
use agentreg.Store.{Time}
use agentreg.Path.{clean, is_abs, slash, split, non_empty, dot, dot_dot}
use agentreg.Pack.{is_inside}
use agentreg.Pack.Extract.{
  Disk, File, Fault, Item, D, take, put_file, next_fault, past_fault, open_file, mkdir_all,
  extract_reader,
}
use agentreg.Pack.Extract
use agentreg.Program.{Program, modify, ◌>>=◌, ◌>>◌}

-- The answer to a request: an error of the transport, or a status with the body and the error that
-- ends reading it.
pub data Reply : Type 0 where
  unreachable : Text → Reply
  response : ℕ → Text → Option Text → Reply

-- `token` is empty when there is no Authorization header.
pub record HttpRequest : Type 0 where
  pub method : Text
  pub url : Text
  pub token : Text
  pub body : Text

-- A line of the standard input, or an error of reading it. When there is none left, the input ends.
pub data Typed : Type 0 where
  typed_text : Text → Typed
  typed_error : Text → Typed

pub record Process : Type 0 where
  pub disk : Disk
  pub temp : Option Text
  pub home : Option Text
  pub replies : List Reply
  pub requests : List HttpRequest
  pub printed : List Text
  pub clock : List Time
  pub terminal : Bool
  pub typed : List Typed

abbrev pub C : Type 0 → Type 0
C A = Program Process A

-- Calls on the disk alone.
unfoldable pub on_disk : {A : Type 0} → D A → C A
on_disk m c = let (r, d) = m c.disk in (r, record c { disk = d })

unfoldable pub print : Text → C (Unit {0})
unfolding modify
print line = modify λ c. record c { printed = c.printed ++ line ∷ [] }

abbrev pub read_at : Option Fault → Text → D (Option Text)
read_at (some e) p d = (err (driver e.message), d)
read_at none p d =
    (ok (elim (find (λ f. f.0 == p) d.files) [ none ↦ none | some f ↦ some f.1.content ]), d)

-- os.ReadFile; `none` is os.IsNotExist.
unfoldable pub read_file : Text → D (Option Text)
read_file p d = read_at (next_fault d) p (past_fault d)

abbrev pub write_at : Option Fault → Text → ℕ → Text → D (Unit {0})
write_at none p mode content d =
    (ok tt, record d { files = put_file p (record { mode = mode; content = content }) d.files })
write_at (some e) p mode content d = (
  err (driver e.message),
  record d {
    files = put_file p (record { mode = mode; content = take e.written content }) d.files;
  },
)

unfoldable pub write_content : Text → ℕ → Text → D (Unit {0})
unfolding take put_file
write_content p mode content d = write_at (next_fault d) p mode content (past_fault d)

-- The mode that the file has once it is open.
unfoldable pub mode_of : Text → ℕ → Disk → ℕ
mode_of p mode d = elim (find (λ f. f.0 == p) d.files) [ none ↦ mode | some f ↦ f.1.mode ]

-- os.WriteFile: the file is opened and truncated, then written.
unfoldable pub write_file : Text → ℕ → Text → D (Unit {0})
unfolding open_file write_content mode_of Extract.◌>>=◌
write_file p mode content d =
    Extract.◌>>=◌ (open_file p mode) (λ _. write_content p (mode_of p mode d) content) d

-- `endsWithDot` of package os
unfoldable pub ends_with_dot : Text → Bool
unfolding has_suffix ◌==◌
ends_with_dot p = p == bytes "." || has_suffix p (bytes "/.")

-- A path from the working directory `cwd`, as an absolute path.
unfoldable pub resolved : Text → Text → Text
unfolding clean is_abs
resolved cwd p = clean (if is_abs p then p else cwd ++ slash ∷ p)

-- `p` is `base` or below it.
unfoldable pub is_under : Text → Text → Text → Bool
unfolding resolved is_inside ◌==◌
is_under cwd base p =
    resolved cwd base == slash ∷ [] || is_inside (resolved cwd p) (resolved cwd base)

abbrev last_segment : List Text → Text
last_segment [] = []
last_segment (s ∷ []) = s
last_segment (s ∷ t ∷ ts) = last_segment (t ∷ ts)

-- The last element of the path is "." or "..", whatever slashes follow it.
unfoldable pub ends_in_dots : Text → Bool
unfolding split non_empty ◌==◌
ends_in_dots p = let s = last_segment (non_empty (split p)) in s == dot || s == dot_dot

-- The files that are neither `base` nor below it.
unfoldable pub outside : Text → Text → List (Text × File) → List (Text × File)
unfolding is_under
outside cwd base = keep λ f. not (is_under cwd base f.0)

-- Leaves out the first `n` of the files that are `base` or below it.
unfoldable pub outside_some : Text → ℕ → Text → List (Text × File) → List (Text × File)
unfolding is_under
outside_some cwd zero base fs = fs
outside_some cwd (suc n) base [] = []
outside_some cwd (suc n) base (f ∷ fs) =
    if is_under cwd base f.0
    then outside_some cwd n base fs
    else f ∷ outside_some cwd (suc n) base fs

abbrev pub removal_at : Text → Option Fault → Text → D (Unit {0})
removal_at cwd none base d = (
  if ends_in_dots base then err (driver (bytes "invalid argument")) else ok tt,
  record d {
    files = outside cwd base d.files;
    dirs = keep (λ p. not (is_under cwd base p)) d.dirs;
  },
)
removal_at cwd (some e) base d =
    (err (driver e.message), record d { files = outside_some cwd e.written base d.files })

-- os.RemoveAll from the working directory `cwd`: it refuses a path that ends in ".", it empties a directory
-- that is named by "./" or ".." but cannot remove it, and it may fail half-way.
unfoldable pub remove_all : Text → Text → D (Unit {0})
unfolding ends_with_dot ends_in_dots is_under outside outside_some
remove_all cwd [] = Extract.done tt
remove_all cwd (c ∷ p) =
    if ends_with_dot (c ∷ p) then Extract.stop (driver (bytes "invalid argument")) else λ d.
    removal_at cwd (next_fault d) (c ∷ p) (past_fault d)

abbrev pub next_reply : List Reply → Reply
next_reply [] = unreachable (bytes "no answer")
next_reply (r ∷ rs) = r

abbrev pub rest_replies : List Reply → List Reply
rest_replies [] = []
rest_replies (r ∷ rs) = rs

-- http.DefaultClient.Do
unfoldable pub do_request : HttpRequest → C Reply
do_request q c = (
  ok (next_reply c.replies),
  record c { replies = rest_replies c.replies; requests = c.requests ++ q ∷ [] },
)

abbrev next_time : List Time → Time
next_time [] = 0
next_time (t ∷ ts) = t

abbrev rest_times : List Time → List Time
rest_times [] = []
rest_times (t ∷ ts) = ts

-- time.Now()
unfoldable pub time_now : C Time
time_now c = (ok (next_time c.clock), record c { clock = rest_times c.clock })

-- os.CreateTemp
unfoldable pub create_temp : C (Unit {0})
unfolding on_disk Extract.call ◌>>=◌ modify
create_temp = on_disk (Extract.call λ d. d) >> modify λ c. record c { temp = some [] }

abbrev pub removed_temp : Option Fault → Process → Process
removed_temp none c = record c { temp = none; disk = past_fault c.disk }
removed_temp (some e) c = record c { disk = past_fault c.disk }

-- `defer os.Remove(tmpPath)`, whose error is not looked at.
unfoldable pub remove_temp : Process → Process
remove_temp c = removed_temp (next_fault c.disk) c

abbrev pub typed_line : List Typed → Result Text
typed_line [] = ok []
typed_line (typed_text t ∷ ts) = ok t
typed_line (typed_error m ∷ ts) = err (driver m)

abbrev pub typed_password : List Typed → Result Text
typed_password [] = err (driver (bytes "EOF"))
typed_password (typed_text t ∷ ts) = ok t
typed_password (typed_error m ∷ ts) = err (driver m)

abbrev pub rest_typed : List Typed → List Typed
rest_typed [] = []
rest_typed (t ∷ ts) = ts

-- `stdinReader.ReadString('\n')`: what is left before the end of the input is a line too.
unfoldable pub read_line : C Text
read_line c = (typed_line c.typed, record c { typed = rest_typed c.typed })

-- golang.org/x/term.ReadPassword
unfoldable pub read_password : C Text
read_password c = (typed_password c.typed, record c { typed = rest_typed c.typed })
