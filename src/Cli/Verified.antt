-- ===== src/Cli/Verified.antt =====
-- Lemmas on the checksums in cmdInstall (cmd/krate/cmd_fetch.go).
use agentreg.Base.{
  ℕ, Text, bytes, ◌==◌, not, Option, none, some, List, [], ◌∷◌, ok, ◌≡◌, ◌⊎◌, inl, inr, refl, ◌∙◌,
  sym, subst, arith, text_iff,
}
use agentreg.Pack.Extract.{Fault, next_fault, past_fault, call, call_at}
use agentreg.Program.{stop}
use agentreg.Program.Runs.{
  Leads, Leads-both, Runs-constant, Runs-finally, Runs-assume, Runs, Runs-bind, Runs-done,
  Runs-stop, Runs-if, Runs-from_result, Runs-or_stop, Runs-on_error, Runs-weaken, Runs-modify,
  Runs-reads,
}
use agentreg.Cli.{Ref, parse_ref, ref_key}
use agentreg.Cli.Formats.{Formats, Meta}
use agentreg.Process.{
  Process, Reply, unreachable, response, do_request, HttpRequest, next_reply, rest_replies, on_disk,
  read_file, read_at, create_temp, remove_temp, removed_temp,
}
use agentreg.Cli.Wire.{do_json, decoded_body, load_config, config_path, parsed_config, registry_url}
use agentreg.Cli.Fetch.{
  download, downloaded, copy_with_checksum, copied_at, install_body, install_ref, install_dir,
  cmd_install,
}

-- The server's first answer gave the checksum of the body of its second.
pub record Matched (f : Formats) (c : Process) : Type 0 where
  pub first : ℕ
  pub second : ℕ
  pub meta_body : Text
  pub body : Text
  pub meta : Meta
  pub first_error : Option Text
  pub rest : List Reply
  pub answers : c.replies ≡ response first meta_body first_error ∷ response second body none ∷ rest
  pub announced : f.decode_meta meta_body ≡ some meta
  pub matches : f.sha256 body ≡ meta.checksum

module _ (f : Formats) (before : Process) where
  -- The files are as they were, and `rs` is what is left of the answers.
  abbrev Same : List Reply → Process → Type 0
  Same rs c = (c.disk.files ≡ before.disk.files) × (c.replies ≡ rs)

  abbrev Safe : Process → Type 0
  Safe c = (c.disk.files ≡ before.disk.files) ⊎ Matched f before

  read_file-Runs :
      (p : Text) (rs : List Reply) → Runs (Same rs) (on_disk (read_file p)) (λ b. Same rs) Safe
  unfolding on_disk read_file
  read_file-Runs p rs = record { at = λ c h. at_fault c h (next_fault c.disk) }
    where
      at_fault :
          (c : Process)
          → Same rs c
          → (o : Option Fault)
          → Leads
              (λ (b : Option Text). Same rs)
              Safe
              (read_at o p (past_fault c.disk)).0
              (record c { disk = (read_at o p (past_fault c.disk)).1 })
      at_fault c h none = h
      at_fault c h (some e) = inl h.0

  config_path-Runs : (rs : List Reply) → Runs (Same rs) config_path (λ p. Same rs) Safe
  unfolding config_path
  config_path-Runs rs =
      Runs-bind (λ (o : Option Text). Same rs) (Runs-reads (λ c. c.home) λ c h. h)
        λ home.
          Runs-bind (λ (o : Text). Same rs) (Runs-or_stop _ home (λ a e c h. h) (λ c h. inl h.0))
            λ home. Runs-done _ λ c h. h

  parsed_config-Runs :
      (rs : List Reply) (b : Option Text) → Runs (Same rs) (parsed_config f b) (λ p. Same rs) Safe
  parsed_config-Runs rs none = Runs-done _ λ c h. h
  parsed_config-Runs rs (some b) =
      Runs-or_stop _ (f.decode_config b) (λ a e c h. h) (λ c h. inl h.0)

  registry_url-Runs : (rs : List Reply) → Runs (Same rs) (registry_url f) (λ p. Same rs) Safe
  unfolding registry_url load_config
  registry_url-Runs rs =
      Runs-bind (λ cfg. Same rs)
        (Runs-bind (λ p. Same rs) (config_path-Runs rs)
          λ path. Runs-bind (λ b. Same rs) (read_file-Runs path rs) λ b. parsed_config-Runs rs b)
        λ cfg.
          Runs-if (cfg.registry == []) (λ e. Runs-stop _ λ c h. inl h.0) (λ e. Runs-done _ λ c h. h)

  -- The answer is the next one.
  do_request-Runs :
      (q : HttpRequest) (rs : List Reply)
      → Runs (Same rs) (do_request q) (λ r c. (r ≡ next_reply rs) × Same (rest_replies rs) c) Safe
  unfolding do_request
  do_request-Runs q rs = record { at = λ c h. (rw h.1 refl, (h.0, rw h.1 refl)) }

  response_next :
      (rs : List Reply) (n : ℕ) (b : Text) (e : Option Text)
      → response n b e ≡ next_reply rs
      → rs ≡ response n b e ∷ rest_replies rs
  response_next [] n b e h = cc
  response_next (r ∷ rs) n b e h = cc

  decoded_ok :
      {A : Type 0} (decode : Text → Option A) (r : Reply) (a : A)
      → decoded_body f decode r ≡ ok a
      → (n : ℕ) × (b : Text) × (e : Option Text) × (r ≡ response n b e) × (decode b ≡ some a)
  unfolding decoded_body
  decoded_ok decode (unreachable m) a h = cc
  decoded_ok decode (response n b e) a h = (n, b, e, refl, ground arith)

  abbrev Announced : Meta → List Reply → Type 0
  Announced meta rs =
      (n : ℕ) × (b : Text) × (e : Option Text) × (before.replies ≡ response n b e ∷ rs)
      × (f.decode_meta b ≡ some meta)

  do_json-Runs :
      (url : Text)
      → Runs
          (Same before.replies)
          (do_json f (bytes "GET") url [] [] f.decode_meta)
          (λ meta c. (rs : List Reply) × Announced meta rs × Same rs c)
          Safe
  unfolding do_json
  do_json-Runs url = Runs-bind _ (do_request-Runs _ before.replies) λ r.
      Runs-from_result (decoded_body f f.decode_meta r)
        (λ meta h c k.
          let (n, b, e, x, y) = decoded_ok f.decode_meta r meta h in
          (
            rest_replies before.replies,
            (n, b, e, response_next before.replies n b e (sym x ∙ k.0), y),
            k.1,
          ))
        (λ c k. inl k.1.0)

  abbrev Received : Meta → Text → Option Text → Type 0
  Received meta body e = (n : ℕ) × (rest : List Reply) × Announced meta (response n body e ∷ rest)

  downloaded_ok :
      (r : Reply) (body : Text) (e : Option Text)
      → downloaded f r ≡ ok (body, e)
      → (n : ℕ) × (r ≡ response n body e)
  downloaded_ok (unreachable m) body e h = cc
  downloaded_ok (response n b e') body e h = (n, ground arith)

  download-Runs :
      (url : Text) (meta : Meta) (rs : List Reply)
      → Announced meta rs
      → Runs
          (Same rs)
          (download f url)
          (λ x c. Received meta x.0 x.1 × (c.disk.files ≡ before.disk.files))
          Safe
  unfolding download
  download-Runs url meta rs a = Runs-bind _ (do_request-Runs _ rs) λ r.
      Runs-from_result (downloaded f r)
        (λ x h c k.
          let (n, e) = downloaded_ok r x.0 x.1 h in
          (
            (
              n,
              rest_replies rs,
              subst (Announced meta) (response_next rs n x.0 x.1 (sym e ∙ k.0)) a,
            ),
            k.1.0,
          ))
        (λ c k. inl k.1.0)

  abbrev Unchanged : Process → Type 0
  Unchanged c = c.disk.files ≡ before.disk.files

  create_temp-Runs : Runs Unchanged create_temp (λ u. Unchanged) Safe
  unfolding create_temp on_disk call
  create_temp-Runs =
      Runs-bind (λ (u : Unit {0}). Unchanged)
        (record { at = λ c h. at_fault c h (next_fault c.disk) }) λ u. Runs-modify _ λ c h. h
    where
      at_fault :
          (c : Process)
          → Unchanged c
          → (o : Option Fault)
          → Leads
              (λ (u : Unit {0}). Unchanged)
              Safe
              (call_at o (λ d. d) (past_fault c.disk)).0
              (record c { disk = (call_at o (λ d. d) (past_fault c.disk)).1 })
      at_fault c h none = h
      at_fault c h (some e) = inl h

  copy_with_checksum-Runs :
      (body : Text) (e : Option Text)
      → Runs Unchanged
          (copy_with_checksum f body e)
          (λ sum c. (sum ≡ f.sha256 body) × (e ≡ none) × Unchanged c)
          Safe
  unfolding copy_with_checksum
  copy_with_checksum-Runs body e = record {
    at = λ c h. at_fault (record c { disk = past_fault c.disk }) h e (next_fault c.disk);
  }
    where
      at_fault :
          (c : Process)
          → Unchanged c
          → (e : Option Text) (o : Option Fault)
          → Leads
              (λ sum c. (sum ≡ f.sha256 body) × (e ≡ none) × Unchanged c)
              Safe
              (copied_at f o body e c).0
              (copied_at f o body e c).1
      at_fault c h e (some x) = inl h
      at_fault c h (some m) none = inl h
      at_fault c h none none = (refl, refl, h)

  Received-Matched :
      (meta : Meta) (body : Text)
      → Received meta body none
      → f.sha256 body ≡ meta.checksum
      → Matched f before
  Received-Matched meta body (second, rest, (first, meta_body, first_error, answers, announced)) h =
      record {
        first = first;
        second = second;
        meta_body = meta_body;
        body = body;
        meta = meta;
        first_error = first_error;
        rest = rest;
        answers = answers;
        announced = announced;
        matches = h;
      }

  install_body-Runs :
      (ref base dest : Text) (meta : Meta) (x : Text × Option Text)
      → Received meta x.0 x.1
      → Runs Unchanged (install_body f ref base dest meta x) (λ u. Safe) Safe
  unfolding install_body
  install_body-Runs ref base dest meta (body, e) r =
      Runs-bind _ (copy_with_checksum-Runs body e) λ sum.
        Runs-if (not (sum == meta.checksum)) (λ _. Runs-stop _ λ c h. inl h.2)
          λ same.
            Runs-constant (Matched f before) _
              (λ c h.
                Received-Matched meta body (subst (Received meta body) h.1 r)
                  (ground (arith, h.0, text_iff sum meta.checksum)))
              (λ v u c. inr v) (λ v c. inr v)

  Safe-remove_temp : (c : Process) → Safe c → Safe (remove_temp c)
  unfolding remove_temp
  Safe-remove_temp c h = at_fault (next_fault c.disk)
    where
      at_fault : (o : Option Fault) → Safe (removed_temp o c)
      at_fault none = h
      at_fault (some e) = h

  install_ref-Runs :
      (dest_dir : Text) (r : Ref)
      → Runs (Same before.replies) (install_ref f dest_dir r) (λ u. Safe) Safe
  unfolding install_ref
  install_ref-Runs dest_dir r = Runs-bind _ (registry_url-Runs before.replies) λ base.
      Runs-bind _ (Runs-on_error _ (do_json-Runs _)) λ meta.
        Runs-bind (λ x c. Received meta x.0 x.1 × Unchanged c) (download-after _ meta)
          λ x.
            Runs-assume (Received meta x.0 x.1) (λ c h. h.0)
              λ got.
                Runs-bind (λ u. Unchanged)
                  (Runs-weaken Unchanged (λ u. Unchanged) Safe (λ c h. h.1) (λ u c h. h) (λ c h. h)
                    create_temp-Runs)
                  λ u. Runs-finally remove_temp (
                    Runs-weaken Unchanged (λ u. Safe) Safe (λ c h. h) (λ u. Safe-remove_temp)
                      Safe-remove_temp
                      (install_body-Runs (ref_key r.scope r.name) base (install_dir dest_dir r.name)
                        meta x got))
    where
      download-after :
          (url : Text) (meta : Meta)
          → Runs
              (λ c. (rs : List Reply) × Announced meta rs × Same rs c)
              (download f url)
              (λ x c. Received meta x.0 x.1 × Unchanged c)
              Safe
      download-after url meta = record { at = λ c h. (download-Runs url meta h.0 h.1).at c h.2 }

  -- Whatever the server, the disk and the arguments do, after an install all files are as they were, or
  -- the first answer of the server announced a checksum and the second answer's body has it.
  pub cmd_install-Matched :
      (dest_dir : Text) (args : List Text)
      → let after = (cmd_install f dest_dir args before).1 in
        (after.disk.files ≡ before.disk.files) ⊎ Matched f before
  unfolding cmd_install stop
  cmd_install-Matched dest_dir (arg ∷ []) = Leads-both Safe _ _ (
      (Runs-bind (λ (r : Ref). Same before.replies)
          (Runs-from_result (parse_ref arg) (λ r e c h. h) (λ c h. inl h.0))
          (install_ref-Runs dest_dir)).at
        before (refl, refl))
  cmd_install-Matched dest_dir [] = inl refl
  cmd_install-Matched dest_dir (arg ∷ arg' ∷ args) = inl refl
