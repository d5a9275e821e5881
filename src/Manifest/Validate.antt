-- ===== src/Manifest/Validate.antt =====
-- internal/manifest/manifest.go: ValidateDir, over what reading the directory gives. The JSON schemas and
-- the decoder are parameters.
use agentreg.Base.{
  ℕ, Text, bytes, leb, eqb, Bool, true, false, not, ◌&&◌, ◌||◌, Option, none, some, List, [], ◌∷◌,
  ◌++◌, Result, ok, err, driver, if◌then◌else◌,
}
use agentreg.Manifest.{Plugin, Bundle}

pub record Validators : Type 0 where
  -- internal/schema: whether the embedded schemas compile
  pub plugin_schema : Bool
  pub mcp_schema : Bool
  -- encoding/json and the schema validator, on the raw bytes
  pub is_json : Text → Bool
  pub is_plugin : Text → Bool
  pub is_mcp : Text → Bool
  pub decode : Text → Option Plugin

pub data FileRead : Type 0 where
  contents : Text → FileRead
  missing : FileRead
  unreadable : Text → FileRead

-- An entry of skills/, with what os.Stat says of its SKILL.md.
pub data Stat : Type 0 where
  present absent : Stat
  failed : Text → Stat

pub record SkillEntry : Type 0 where
  pub name : Text
  pub is_dir : Bool
  pub skill_md : Stat

-- `skills` is `none` when the directory cannot be read.
pub record Folder : Type 0 where
  pub plugin_json : FileRead
  pub skills : Option (List SkillEntry)
  pub mcp_json : FileRead

-- `[a-z0-9]`
abbrev pub is_name_edge : ℕ → Bool
is_name_edge c = (leb b'a' c && leb c b'z') || (leb b'0' c && leb c b'9')

-- `[a-z0-9.-]*[a-z0-9]`
unfoldable pub ends_name : Text → Bool
ends_name [] = false
ends_name (c ∷ []) = is_name_edge c
ends_name (c ∷ d ∷ s) = (is_name_edge c || (eqb c b'.' || eqb c b'-')) && ends_name (d ∷ s)

-- `nameRE.MatchString`
unfoldable pub matches_name : Text → Bool
unfolding ends_name
matches_name [] = false
matches_name (c ∷ []) = is_name_edge c
matches_name (c ∷ d ∷ s) = is_name_edge c && ends_name (d ∷ s)

unfoldable pub contains_double_separator : Text → Bool
contains_double_separator [] = false
contains_double_separator (c ∷ []) = false
contains_double_separator (c ∷ d ∷ s) =
    ((eqb c b'-' && eqb d b'-') || (eqb c b'.' && eqb d b'.')) || contains_double_separator (d ∷ s)

unfoldable pub decoded : Option Plugin → Result Plugin
unfolding matches_name contains_double_separator
decoded none = err (driver (bytes "decode plugin.json"))
decoded (some p) =
    if not (matches_name p.name) || contains_double_separator p.name
    then err (driver (bytes "plugin.json name does not satisfy the spec's naming rules"))
    else ok p

unfoldable pub validate_plugin_json : Validators → Text → Result Plugin
unfolding decoded
validate_plugin_json v raw =
    if not v.plugin_schema
    then err (driver (bytes "load plugin schema"))
    else if not (v.is_json raw)
    then err (driver (bytes "plugin.json is not valid JSON"))
    else if not (v.is_plugin raw)
    then err (driver (bytes "plugin.json failed schema validation"))
    else decoded (v.decode raw)

unfoldable pub validate_mcp_json : Validators → Text → Result (Unit {0})
validate_mcp_json v raw =
    if not v.mcp_schema
    then err (driver (bytes "load mcp schema"))
    else if not (v.is_json raw)
    then err (driver (bytes "mcp.json is not valid JSON"))
    else if not (v.is_mcp raw)
    then err (driver (bytes "mcp.json failed schema validation"))
    else ok tt

abbrev prepend : Text → Result (List Text) → Result (List Text)
prepend name (ok names) = ok (name ∷ names)
prepend name (err e) = err e

abbrev pub skill_named : Text → Stat → Result (List Text) → Result (List Text)
skill_named name present rest = prepend name rest
skill_named name absent rest =
    err (driver (bytes "skills/" ++ name ++ bytes " is missing SKILL.md"))
skill_named name (failed m) rest = err (driver (bytes "stat: " ++ m))

-- The loop over the entries; the first bad one ends it.
unfoldable pub collect_skills : List SkillEntry → Result (List Text)
collect_skills [] = ok []
collect_skills (e ∷ es) =
    let rest = collect_skills es in
    if not e.is_dir then rest else skill_named e.name e.skill_md rest

unfoldable pub skills_of : Option (List SkillEntry) → Result (List Text)
unfolding collect_skills
skills_of none = ok []
skills_of (some es) = collect_skills es

abbrev mcp_checked : Result (Unit {0}) → Result Bool
mcp_checked (ok done) = ok true
mcp_checked (err e) = err e

unfoldable pub mcp_of : Validators → FileRead → Result Bool
unfolding validate_mcp_json
mcp_of v (contents raw) = mcp_checked (validate_mcp_json v raw)
mcp_of v missing = ok false
mcp_of v (unreadable m) = err (driver (bytes "read mcp.json: " ++ m))

abbrev pub is_empty : List Text → Bool
is_empty [] = true
is_empty (s ∷ ss) = false

abbrev pub bundled : Plugin → List Text → Bool → Result Bundle
bundled p skills has_mcp =
    if is_empty skills && not has_mcp
    then err (driver (bytes "plugin has neither a skills/ directory nor an mcp.json"))
    else ok (record {
      plugin = p;
      has_skills = not (is_empty skills);
      has_mcp = has_mcp;
      skills = skills;
    })

abbrev pub with_mcp : Plugin → List Text → Result Bool → Result Bundle
with_mcp p skills (err e) = err e
with_mcp p skills (ok has_mcp) = bundled p skills has_mcp

abbrev pub with_skills : Validators → Folder → Plugin → Result (List Text) → Result Bundle
with_skills v f p (err e) = err e
with_skills v f p (ok skills) = with_mcp p skills (mcp_of v f.mcp_json)

abbrev pub with_plugin : Validators → Folder → Result Plugin → Result Bundle
with_plugin v f (err e) = err e
with_plugin v f (ok p) = with_skills v f p (skills_of f.skills)

unfoldable pub validate_raw : Validators → Folder → FileRead → Result Bundle
unfolding validate_plugin_json skills_of mcp_of
validate_raw v f (contents raw) = with_plugin v f (validate_plugin_json v raw)
validate_raw v f missing = err (driver (bytes "read plugin.json"))
validate_raw v f (unreadable m) = err (driver (bytes "read plugin.json: " ++ m))

unfoldable pub validate_dir : Validators → Folder → Result Bundle
unfolding validate_raw
validate_dir v f = validate_raw v f f.plugin_json
