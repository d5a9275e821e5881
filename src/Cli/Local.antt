-- ===== src/Cli/Local.antt =====
-- cmd/krate/cmd_local.go: init and validate. The flag --name is parsed.
use agentreg.Base.{
  Text, bytes, ◌==◌, ◌||◌, Bool, false, Option, none, some, List, [], ◌∷◌, ◌++◌, ok, driver, any,
  if◌then◌else◌,
}
use agentreg.Path.{join}
use agentreg.Manifest.{Bundle}
use agentreg.Pack.Extract.{Fault, D, next_fault, past_fault, mkdir_all}
use agentreg.Program.{done, stop, or_stop, ◌>>=◌, ◌>>◌}
use agentreg.Process.{C, on_disk, write_file, print}
use agentreg.Cli.Formats.{Formats}
use agentreg.Cli.Publish.{dir_of, validated}

unfoldable pub scaffold_plugin_json : Text → Text
scaffold_plugin_json name =
    bytes
      "{\n  \"$schema\": \"https://agent-plugins.org/schemas/1.0.0/plugin.schema.json\",\n  \"name\": \""
    ++ name
    ++ bytes
        "\",\n  \"version\": \"0.1.0\",\n  \"description\": \"Describe what this plugin does.\",\n"
    ++ bytes "  \"keywords\": []\n}\n"

unfoldable pub scaffold_skill_md : Text
scaffold_skill_md =
    bytes "---\nname: example\n"
    ++ bytes "description: Replace with a one-line description of when to use this skill.\n---\n\n"
    ++ bytes "# Example skill\n\nDescribe what this skill does and when an agent should use it.\n"

abbrev pub exists_at : Option Fault → Text → D Bool
exists_at (some e) p d = (ok false, d)
exists_at none p d = (ok (any (λ f. f.0 == p) d.files || any (λ q. q == p) d.dirs), d)

-- os.Stat gives no error.
unfoldable pub exists : Text → D Bool
exists p d = exists_at (next_fault d) p (past_fault d)

unfoldable pub plugin_name : Formats → Text → Text → C Text
unfolding done stop ◌==◌
plugin_name f dir name =
    if name == [] then or_stop (driver (bytes "getwd")) (f.absolute_base dir) else done name

-- The two files, when there is no plugin.json.
unfoldable pub scaffold : Formats → Text → Text → C (Unit {0})
unfolding scaffold_plugin_json scaffold_skill_md on_disk write_file mkdir_all join print ◌>>=◌
scaffold f dir name = do
  _ ← on_disk (write_file (join (dir ∷ bytes "plugin.json" ∷ [])) 420 (scaffold_plugin_json name))
  _ ← on_disk (mkdir_all (join (dir ∷ bytes "skills" ∷ bytes "example" ∷ [])))
  _ ← on_disk (
      write_file (join (join (dir ∷ bytes "skills" ∷ bytes "example" ∷ []) ∷ bytes "SKILL.md" ∷ []))
        420 scaffold_skill_md)
  print (bytes "Scaffolded plugin " ++ f.quote name ++ bytes " in " ++ dir)

unfoldable pub cmd_init : Formats → Text → List Text → C (Unit {0})
unfolding on_disk mkdir_all plugin_name exists scaffold join stop ◌>>=◌
cmd_init f name args = do
  _ ← on_disk (mkdir_all (dir_of args))
  name ← plugin_name f (dir_of args) name
  there ← on_disk (exists (join (dir_of args ∷ bytes "plugin.json" ∷ [])))
  if there
      then stop (driver (join (dir_of args ∷ bytes "plugin.json" ∷ []) ++ bytes " already exists"))
      else scaffold f (dir_of args) name

-- The names between spaces, as the verb %v writes a list.
unfoldable pub spaced : List Text → Text
spaced [] = []
spaced (s ∷ []) = s
spaced (s ∷ t ∷ ts) = s ++ b' ' ∷ spaced (t ∷ ts)

abbrev print_if : Bool → Text → C (Unit {0})
print_if b line = if b then print line else done tt

unfoldable pub print_bundle : Bundle → C (Unit {0})
unfolding print spaced ◌>>=◌ done
print_bundle b =
    print (bytes "OK: " ++ b.plugin.name ++ b'@' ∷ b.plugin.version)
    >> print_if b.has_skills (bytes "  skills: [" ++ spaced b.skills ++ bytes "]")
    >> print_if b.has_mcp (bytes "  mcp.json: present and valid")

unfoldable pub cmd_validate : Formats → List Text → C (Unit {0})
unfolding validated print_bundle ◌>>=◌
cmd_validate f args = validated f (dir_of args) >>= print_bundle
