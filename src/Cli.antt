-- ===== src/Cli.antt =====
-- cmd/krate: the command line client. References, as parseRef in client.go reads them.
pub mod Refs
pub mod Formats
pub mod Wire
pub mod Fetch
pub mod Account
pub mod Uninstall
pub mod Verified
pub mod Untouched
pub mod Outside
pub mod Saved
pub mod Login
pub mod Publish
pub mod Local
pub mod Packed
pub mod Uploaded
use agentreg.Base.{
  ℕ, Text, bytes, ◌==◌, eqb, ◌||◌, Bool, true, false, not, Option, none, some, List, [], ◌∷◌, ◌++◌,
  Result, ok, err, driver, has_prefix, if◌then◌else◌,
}

-- strings.Index of one byte, with what stands before and after it.
unfoldable pub cut : ℕ → Text → Option (Text × Text)
cut c [] = none
cut c (d ∷ s) =
    let rest = cut c s in
    if eqb d c then some ([], s) else elim rest [ none ↦ none | some p ↦ some (d ∷ p.0, p.1) ]

pub record Ref : Type 0 where
  pub scope : Text
  pub name : Text
  pub version : Text

abbrev pub at_sign : ℕ
at_sign = b'@'

-- The name and the version, which is empty when there is no "@".
abbrev pub name_version : Text → Option (Text × Text) → Text × Text
name_version rest none = (rest, [])
name_version rest (some p) = p

abbrev pub no_scope_name : Text → Result Ref
no_scope_name ref = err (driver (bytes "expected @scope/name, got @" ++ ref))

abbrev pub ref_parts : Text → Text → Text × Text → Result Ref
ref_parts ref scope (name, version) =
    if scope == [] || name == []
    then no_scope_name ref
    else ok (record { scope = scope; name = name; version = version })

abbrev pub ref_cut : Text → Option (Text × Text) → Result Ref
ref_cut ref none = no_scope_name ref
ref_cut ref (some (scope, rest)) = ref_parts ref scope (name_version rest (cut at_sign rest))

unfoldable pub parse_ref : Text → Result Ref
unfolding cut has_prefix
parse_ref [] = err (driver (bytes "expected a reference like @scope/name or @scope/name@version"))
parse_ref (c ∷ ref) =
    if not (has_prefix (c ∷ ref) (at_sign ∷ []))
    then err (driver (bytes "expected a reference like @scope/name or @scope/name@version"))
    else ref_cut ref (cut b'/' ref)

-- `fmt.Sprintf("@%s/%s", scope, name)`
unfoldable pub ref_key : Text → Text → Text
ref_key scope name = at_sign ∷ scope ++ b'/' ∷ name
