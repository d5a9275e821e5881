-- ===== src/Manifest/Valid.antt =====
-- What a validated directory has.
use agentreg.Base.{
  map, keep, ◌≢◌, sym, ◌∙◌, Text, bytes, Bool, true, false, not, ◌||◌, Option, none, some, List, [],
  ◌∷◌, Result, ok, err, contains, has_prefix, if◌then◌else◌, ◌≡◌, refl, arith, ap, subst, Error,
  ok-injective, All, inl, inr, ◌⊎◌,
}
use agentreg.Manifest.{Plugin, Bundle}
use agentreg.Manifest.Validate.{
  Validators, FileRead, contents, missing, unreadable, SkillEntry, Stat, present, absent, failed,
  Folder, matches_name, contains_double_separator, decoded, validate_plugin_json, validate_mcp_json,
  skill_named, collect_skills, skills_of, mcp_of, bundled, is_empty, with_mcp, with_skills,
  with_plugin, validate_raw, validate_dir,
}

-- Two separators next to each other, as substrings.
double_separator_contains :
    (s : Text)
    → contains_double_separator s ≡ false
    → (contains s (bytes "--") ≡ false) × (contains s (bytes "..") ≡ false)
unfolding contains_double_separator contains has_prefix
double_separator_contains [] h = (refl, refl)
double_separator_contains (c ∷ []) h = (ground arith, ground arith)
double_separator_contains (c ∷ d ∷ s) h =
    let k = double_separator_contains (d ∷ s) (ground arith) in (ground arith, ground arith)

-- The names of the entries that are directories, in order; none when skills/ cannot be read.
unfoldable pub skill_dirs : Option (List SkillEntry) → List Text
skill_dirs none = []
skill_dirs (some es) = map (λ e. e.name) (keep (λ e. e.is_dir) es)

-- An entry of skills/ that is a directory has a SKILL.md.
abbrev pub IsDocumented : SkillEntry → Type 0
IsDocumented e = (e.is_dir ≡ false) ⊎ (e.skill_md ≡ present)

abbrev pub AreDocumented : Option (List SkillEntry) → Type 0
AreDocumented none = Unit
AreDocumented (some es) = All IsDocumented es

entry_documented :
    (name : Text) (is_dir : Bool) (stat : Stat) (rest : Result (List Text)) (names : List Text)
    → (if not is_dir then rest else skill_named name stat rest) ≡ ok names
    → ((is_dir ≡ false) ⊎ (stat ≡ present)) × ((ns : List Text) × (rest ≡ ok ns))
entry_documented name false stat rest names h = (inl refl, (names, h))
entry_documented name true present (ok ns) names h = (inr refl, (ns, refl))
entry_documented name true present (err e) names h = cc
entry_documented name true absent rest names h = cc
entry_documented name true (failed m) rest names h = cc

prepended :
    (name : Text) (rest : Result (List Text)) (names : List Text)
    → skill_named name present rest ≡ ok names
    → (ns : List Text) × (rest ≡ ok ns) × (names ≡ name ∷ ns)
prepended name (ok ns) names h = (ns, refl, sym (ok-injective h))
prepended name (err e) names h = cc

collect_skills-dirs :
    (es : List SkillEntry) (names : List Text)
    → collect_skills es ≡ ok names
    → names ≡ map (λ e. e.name) (keep (λ e. e.is_dir) es)
unfolding collect_skills
collect_skills-dirs [] names h = sym (ok-injective h)
collect_skills-dirs (e ∷ es) names h = at_entry (collect_skills-dirs es) e.is_dir e.skill_md refl h
  where
    at_entry :
        ((ns : List Text)
          → collect_skills es ≡ ok ns
          → ns ≡ map (λ e. e.name) (keep (λ e. e.is_dir) es))
        → (d : Bool) (stat : Stat) → e.is_dir ≡ d
        → (if not d then collect_skills es else skill_named e.name stat (collect_skills es))
          ≡ ok names
        → names ≡ map (λ e. e.name) (keep (λ e. e.is_dir) (e ∷ es))
    at_entry rest false stat i k = rw i (rest names k)
    at_entry rest true present i k =
        let (ns, r, c) = prepended e.name (collect_skills es) names k in
        rw i (c ∙ ap (λ x. e.name ∷ x) (rest ns r))
    at_entry rest true absent i k = cc
    at_entry rest true (failed m) i k = cc

skills_of-dirs :
    (o : Option (List SkillEntry)) (names : List Text)
    → skills_of o ≡ ok names
    → names ≡ skill_dirs o
unfolding skills_of skill_dirs
skills_of-dirs none names h = sym (ok-injective h)
skills_of-dirs (some es) names h = collect_skills-dirs es names h

collect_skills-IsDocumented :
    (es : List SkillEntry) (names : List Text) → collect_skills es ≡ ok names → All IsDocumented es
unfolding collect_skills
collect_skills-IsDocumented [] names h = tt
collect_skills-IsDocumented (e ∷ es) names h =
    let (d, (ns, k)) = entry_documented e.name e.is_dir e.skill_md (collect_skills es) names h in
    (d, collect_skills-IsDocumented es ns k)

skills_of-AreDocumented :
    (o : Option (List SkillEntry)) (names : List Text) → skills_of o ≡ ok names → AreDocumented o
unfolding skills_of
skills_of-AreDocumented none names h = tt
skills_of-AreDocumented (some es) names h = collect_skills-IsDocumented es names h

module _ (v : Validators) where
  -- There is no mcp.json, or there is one, which conforms to its schema.
  abbrev pub IsChecked : FileRead → Bool → Type 0
  IsChecked r has_mcp =
      ((r ≡ missing) × (has_mcp ≡ false))
      ⊎ ((has_mcp ≡ true)
          × ((raw : Text) × (r ≡ contents raw) × (v.is_json raw ≡ true) × (v.is_mcp raw ≡ true)))

  mcp_of-IsChecked : (r : FileRead) (b : Bool) → mcp_of v r ≡ ok b → IsChecked r b
  unfolding mcp_of validate_mcp_json
  mcp_of-IsChecked (contents raw) b h = inr (ground arith, (raw, refl, ground arith, ground arith))
  mcp_of-IsChecked missing b h = inl (refl, ground arith)
  mcp_of-IsChecked (unreadable m) b h = cc

  named :
      (m d : Bool) (e : Error) (q p : Plugin)
      → ◌≡◌ {A = Result Plugin} (if not m || d then err e else ok q) (ok p)
      → (m ≡ true) × (d ≡ false) × (q ≡ p)
  named true false e q p h = (refl, refl, ok-injective h)
  named true true e q p h = cc
  named false d e q p h = cc

  decoded-ok :
      (o : Option Plugin) (p : Plugin)
      → decoded o ≡ ok p
      → (o ≡ some p) × (matches_name p.name ≡ true) × (contains_double_separator p.name ≡ false)
  unfolding decoded
  decoded-ok none p h = cc
  decoded-ok (some q) p h =
      let (m, d, e) = named (matches_name q.name) (contains_double_separator q.name) _ q p h in
      (
        ap some e,
        subst (λ x. matches_name x.name ≡ true) e m,
        subst (λ x. contains_double_separator x.name ≡ false) e d,
      )

  validate_plugin_json-ok :
      (raw : Text) (p : Plugin)
      → validate_plugin_json v raw ≡ ok p
      → (v.is_plugin raw ≡ true) × (decoded (v.decode raw) ≡ ok p)
  unfolding validate_plugin_json
  validate_plugin_json-ok raw p h = (ground arith, ground arith)

-- The directory and its bundle.
pub record Valid (v : Validators) (f : Folder) (b : Bundle) : Type 0 where
  pub raw : Text
  pub read : f.plugin_json ≡ contents raw
  pub conforms : v.is_plugin raw ≡ true
  pub is_decoded : v.decode raw ≡ some b.plugin
  pub named_well : matches_name b.plugin.name ≡ true
  pub no_dashes : contains b.plugin.name (bytes "--") ≡ false
  pub no_dots : contains b.plugin.name (bytes "..") ≡ false
  pub documented : AreDocumented f.skills
  pub checked : IsChecked v f.mcp_json b.has_mcp
  pub skills : b.skills ≡ skill_dirs f.skills
  pub some_skill : b.has_skills ≡ not (is_empty b.skills)
  pub a_component : (skill_dirs f.skills ≢ []) ⊎ ((raw : Text) × (f.mcp_json ≡ contents raw))

bundled-ok :
    (p : Plugin) (skills : List Text) (has_mcp : Bool) (b : Bundle)
    → bundled p skills has_mcp ≡ ok b
    → (b ≡ record {
      plugin = p;
      has_skills = not (is_empty skills);
      has_mcp = has_mcp;
      skills = skills;
    })
      × ((skills ≢ []) ⊎ (has_mcp ≡ true))
bundled-ok p [] false b h = cc
bundled-ok p [] true b h = (sym (ok-injective h), inr refl)
bundled-ok p (s ∷ ss) has_mcp b h = (sym (ok-injective h), inl λ e. cc)

component :
    (v : Validators) (r : FileRead) (skills : List Text) (has_mcp : Bool)
    → IsChecked v r has_mcp
    → (skills ≢ []) ⊎ (has_mcp ≡ true)
    → (skills ≢ []) ⊎ ((raw : Text) × (r ≡ contents raw))
component v r skills has_mcp c (inl n) = inl n
component v r skills has_mcp (inl (m, n)) (inr e) = absurd (cc (n, e))
component v r skills has_mcp (inr (t, (raw, k, j, i))) (inr e) = inr (raw, k)

-- A directory that passes validation has a plugin.json that conforms to the schema and whose name has
-- the spec's form and no two separators in a row, a SKILL.md in every directory of skills/, and either no
-- mcp.json or one that is JSON and conforms to its schema; it has a directory in skills/ or an mcp.json. The
-- bundle says which of the two there are, and lists the directories of skills/.
pub validate_dir-Valid :
    (v : Validators) (f : Folder) (b : Bundle) → validate_dir v f ≡ ok b → Valid v f b
unfolding validate_dir validate_raw
validate_dir-Valid v f b h = at_plugin f.plugin_json refl h
  where
    at_bundle :
        (raw : Text) (p : Plugin) (skills : List Text) (has_mcp : Bool)
        → f.plugin_json ≡ contents raw
        → validate_plugin_json v raw ≡ ok p
        → AreDocumented f.skills × (skills ≡ skill_dirs f.skills)
        → IsChecked v f.mcp_json has_mcp
        → bundled p skills has_mcp ≡ ok b
        → Valid v f b
    at_bundle raw p skills has_mcp r k d c h =
        let (is_b, some_part) = bundled-ok p skills has_mcp b h in
        let e : b.plugin ≡ p = ap (λ x. x.plugin) is_b in
        let (conforms, dec) = validate_plugin_json-ok v raw p k in
        let (is_p, n, s) = decoded-ok v (v.decode raw) p dec in
        let (dashes, dots) = double_separator_contains p.name s in
        record {
          raw = raw;
          read = r;
          conforms = conforms;
          is_decoded = rw e is_p;
          named_well = rw e n;
          no_dashes = rw e dashes;
          no_dots = rw e dots;
          documented = d.0;
          checked = subst (IsChecked v f.mcp_json) (sym (ap (λ x. x.has_mcp) is_b)) c;
          skills = ap (λ x. x.skills) is_b ∙ d.1;
          some_skill = rw is_b refl;
          a_component =
              component v f.mcp_json (skill_dirs f.skills) has_mcp c
                (subst (λ x. (x ≢ []) ⊎ (has_mcp ≡ true)) d.1 some_part);
        }

    at_mcp :
        (raw : Text) (p : Plugin) (skills : List Text) (mcp : Result Bool)
        → f.plugin_json ≡ contents raw
        → validate_plugin_json v raw ≡ ok p
        → AreDocumented f.skills × (skills ≡ skill_dirs f.skills)
        → mcp_of v f.mcp_json ≡ mcp
        → with_mcp p skills mcp ≡ ok b
        → Valid v f b
    at_mcp raw p skills (err e) r k d m h = cc
    at_mcp raw p skills (ok has_mcp) r k d m h =
        at_bundle raw p skills has_mcp r k d (mcp_of-IsChecked v f.mcp_json has_mcp m) h

    at_skills :
        (raw : Text) (p : Plugin) (skills : Result (List Text))
        → f.plugin_json ≡ contents raw
        → validate_plugin_json v raw ≡ ok p
        → skills_of f.skills ≡ skills
        → with_skills v f p skills ≡ ok b
        → Valid v f b
    at_skills raw p (err e) r k s h = cc
    at_skills raw p (ok skills) r k s h =
        at_mcp raw p skills (mcp_of v f.mcp_json) r k
          (skills_of-AreDocumented f.skills skills s, skills_of-dirs f.skills skills s) refl h

    at_read :
        (raw : Text) (p : Result Plugin)
        → f.plugin_json ≡ contents raw
        → validate_plugin_json v raw ≡ p
        → with_plugin v f p ≡ ok b
        → Valid v f b
    at_read raw (err e) r k h = cc
    at_read raw (ok p) r k h = at_skills raw p (skills_of f.skills) r k refl h

    at_plugin : (r : FileRead) → f.plugin_json ≡ r → validate_raw v f r ≡ ok b → Valid v f b
    at_plugin (contents raw) r h = at_read raw (validate_plugin_json v raw) r refl h
    at_plugin missing r h = cc
    at_plugin (unreadable m) r h = cc
