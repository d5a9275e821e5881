-- ===== src/Tests/Manifest.antt =====
-- A directory that passes validation.
use agentreg.Base.{bytes, true, false, some, [], ◌∷◌, ok, ◌≡◌, refl, ◌==◌}
use agentreg.Manifest.{Bundle}
use agentreg.Manifest.Validate.{
  Validators, Folder, contents, missing, present, absent, matches_name, contains_double_separator,
  decoded, validate_plugin_json, collect_skills, skills_of, mcp_of, validate_raw, validate_dir,
}
use agentreg.Manifest.Valid.{Valid, validate_dir-Valid}
use agentreg.Tests.World.{manifest}

abbrev pub validators : Validators
validators = record {
  plugin_schema = true;
  mcp_schema = true;
  is_json = λ raw. true;
  is_plugin = λ raw. raw == bytes "{}";
  is_mcp = λ raw. true;
  decode = λ raw. some manifest;
}

-- One skill, and a file beside it.
abbrev pub folder : Folder
folder = record {
  plugin_json = contents (bytes "{}");
  skills = some (
      record { name = bytes "s"; is_dir = true; skill_md = present }
      ∷ record { name = bytes "README"; is_dir = false; skill_md = absent }
      ∷ []);
  mcp_json = missing;
}

abbrev bundle : Bundle
bundle = record { plugin = manifest; has_skills = true; has_mcp = false; skills = bytes "s" ∷ [] }

validated : validate_dir validators folder ≡ ok bundle
unfolding validate_dir validate_raw validate_plugin_json decoded matches_name
    contains_double_separator skills_of collect_skills mcp_of ◌==◌
validated = refl

validate_dir-Valid_example : Valid validators folder bundle
validate_dir-Valid_example = validate_dir-Valid validators folder bundle validated
