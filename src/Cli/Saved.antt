-- ===== src/Cli/Saved.antt =====
-- Lemmas on files that the client writes, and on its configuration (cmd/krate/config.go).
use agentreg.Base.{ℕ, Text, bytes, Option, none, some, [], ◌∷◌, Result, ok, err, ◌≡◌, refl, subst}
use agentreg.Path.{join, dir}
use agentreg.Pack.Extract.{
  Disk, File, Fault, D, next_fault, past_fault, call, call_at, open_file, put_file, mkdir_all,
}
use agentreg.Pack.Extract
use agentreg.Pack.Contained.{file_at, put_file_self}
use agentreg.Program.Runs.{Leads, Runs, Runs-bind, Runs-done, Runs-or_stop, Runs-reads}
use agentreg.Process.{
  Process, on_disk, read_file, read_at, write_file, write_content, write_at, mode_of,
}
use agentreg.Cli.Formats.{Formats, CliConfig}
use agentreg.Cli.Wire.{config_path, save_config}

-- The file `p` has that content.
pub record Holds (p content : Text) (d : Disk) : Type 0 where
  pub mode : ℕ
  pub found : file_at p d.files ≡ some (p, record { mode = mode; content = content })

-- Any error will do.
abbrev pub AnyError : Process → Type 0
AnyError c = Unit {0}

-- A call on the disk that keeps what `P` says of the rest.
pub Runs-on_disk :
    {A : Type 0} (P : Process → Type 0) (Q : A → Process → Type 0) (m : D A)
    → ((c : Process) → P c → (a : A) → (m c.disk).0 ≡ ok a → Q a (record c { disk = (m c.disk).1 }))
    → Runs P (on_disk m) Q AnyError
unfolding on_disk
Runs-on_disk {A = A} P Q m k = record { at = λ c p. led c p (m c.disk).0 refl }
  where
    led :
        (c : Process)
        → P c
        → (r : Result A) → (m c.disk).0 ≡ r
        → Leads Q AnyError r (record c { disk = (m c.disk).1 })
    led c p (ok a) e = k c p a e
    led c p (err x) e = tt

write_content-Holds :
    (p : Text) (mode : ℕ) (content : Text) (d : Disk)
    → (write_content p mode content d).0 ≡ ok tt
    → Holds p content (write_content p mode content d).1
unfolding write_content
write_content-Holds p mode content d = at_fault (next_fault d)
  where
    at_fault :
        (e : Option Fault)
        → (write_at e p mode content (past_fault d)).0 ≡ ok tt
        → Holds p content (write_at e p mode content (past_fault d)).1
    at_fault none h = record { mode = mode; found = put_file_self p _ d.files }
    at_fault (some e) h = absurd (cc h)

pub write_file-Holds :
    (p : Text) (mode : ℕ) (content : Text) (d : Disk)
    → (write_file p mode content d).0 ≡ ok tt
    → Holds p content (write_file p mode content d).1
unfolding write_file open_file call Extract.◌>>=◌
write_file-Holds p mode content d = at_fault _ (next_fault d)
  where
    at_fault :
        (opens : Disk → Disk) (e : Option Fault)
        → let opened = call_at e opens (past_fault d) in
          let m = λ (u : Unit {0}). write_content p (mode_of p mode d) content in
          (Extract.continue opened.0 m opened.1).0 ≡ ok tt
          → Holds p content (Extract.continue opened.0 m opened.1).1
    at_fault opens none h =
        write_content-Holds p (mode_of p mode d) content (opens (past_fault d)) h
    at_fault opens (some e) h = absurd (cc h)

read_at-Holds :
    (p content : Text) (d : Disk) (o : Option Fault)
    → o ≡ none
    → Holds p content d
    → (read_at o p d).0 ≡ ok (some content)
read_at-Holds p content d none e h = rw h.found refl
read_at-Holds p content d (some x) e h = absurd (cc e)

-- Without faults it is read back.
pub read_file-Holds :
    (p content : Text) (c : Process)
    → next_fault c.disk ≡ none
    → Holds p content c.disk
    → (on_disk (read_file p) c).0 ≡ ok (some content)
unfolding on_disk read_file
read_file-Holds p content c e h =
    read_at-Holds p content (past_fault c.disk) (next_fault c.disk) e
      (record { mode = h.mode; found = h.found })

module _ (f : Formats) (home : Text) where
  abbrev pub config_file : Text
  config_file = join (home ∷ bytes ".krate" ∷ bytes "config.json" ∷ [])

  abbrev pub IsHome : Process → Type 0
  IsHome c = c.home ≡ some home

  -- The configuration is saved.
  pub record IsSaved (registry : Text) (c : Process) : Type 0 where
    pub cfg : CliConfig
    pub content : Text
    pub encoded : f.encode_config cfg ≡ some content
    pub named : cfg.registry ≡ registry
    pub holds : Holds config_file content c.disk
    pub at_home : c.home ≡ some home

  pub config_path-Runs : Runs IsHome config_path (λ p c. (p ≡ config_file) × IsHome c) AnyError
  unfolding config_path
  config_path-Runs =
      Runs-bind (λ o c. (o ≡ some home) × IsHome c) (Runs-reads (λ c. c.home) λ c h. (h, h))
        λ o.
          Runs-bind (λ p c. (p ≡ home) × IsHome c)
            (Runs-or_stop _ o (λ p e c h. (cc (h.0, e), h.1)) (λ c h. tt))
            λ p. Runs-done _ λ c h. (rw h.0 refl, h.1)

  pub save_config-Runs :
      (cfg : CliConfig) → Runs IsHome (save_config f cfg) (λ u. IsSaved cfg.registry) AnyError
  unfolding save_config
  save_config-Runs cfg = Runs-bind _ config_path-Runs λ p.
      Runs-bind (λ u c. (p ≡ config_file) × IsHome c)
        (Runs-on_disk _ _ (mkdir_all (dir p)) (λ c h u e. h))
        λ u.
          Runs-bind (λ b c. (f.encode_config cfg ≡ some b) × (p ≡ config_file) × IsHome c)
            (Runs-or_stop _ (f.encode_config cfg) (λ b e c h. (e, h.0, h.1)) (λ c h. tt))
            λ b. Runs-on_disk _ _ (write_file p 384 b) λ c h u e. record {
              cfg = cfg;
              content = b;
              encoded = h.0;
              named = refl;
              holds =
                  subst (λ x. Holds x b (write_file p 384 b c.disk).1) h.1
                    (write_file-Holds p 384 b c.disk e);
              at_home = h.2;
            }
