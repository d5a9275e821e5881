-- ===== src/Pack.antt =====
-- internal/pack/pack.go: unpacking an archive into a directory. The names and modes
-- of the entries.
pub mod Inside
pub mod Extract
pub mod Dir
pub mod Outcome
pub mod Size
pub mod Written
pub mod Contained
use agentreg.Base.{
  ℕ, zero, suc, ◌*◌, ◌||◌, ◌^◌, ◌%◌, Text, bytes, ◌==◌, eqb, leb, not, ◌&&◌, Bool, true, false,
  Option, none, some, List, [], ◌∷◌, ◌++◌, Result, ok, err, driver, has_prefix, if◌then◌else◌,
  length,
}
use agentreg.Path.{slash, dot, clean, join, is_abs, split, join_segments}

abbrev pub max_decompressed_bytes : ℕ
max_decompressed_bytes = 256 * 2 ^ 20

pub record ExtractOptions : Type 0 where
  pub max_bytes : ℕ
  pub strip_count : ℕ
  pub skip_unsupported_types : Bool

unfoldable pub drop : ℕ → List Text → List Text
drop zero ss = ss
drop (suc n) [] = []
drop (suc n) (s ∷ ss) = drop n ss

unfoldable pub strip_components : Text → ℕ → Option Text
unfolding drop
strip_components name n =
    let cleaned = clean name in
    let segs = split cleaned in
    if cleaned == dot
    then none
    else if leb (length segs) n
    then none
    else some (join_segments (drop n segs))

-- The permission bits, and 0o644 when there are none.
unfoldable pub file_mode : ℕ → ℕ
file_mode m = if eqb (m % 512) 0 then 420 else m % 512

-- The zero value, which Unpack passes on.
abbrev pub default_options : ExtractOptions
default_options = record { max_bytes = 0; strip_count = 0; skip_unsupported_types = false }

unfoldable pub is_inside : Text → Text → Bool
is_inside cleaned base_clean =
    cleaned == base_clean || has_prefix cleaned (base_clean ++ slash ∷ [])

unfoldable pub safe_join : Text → Text → Result Text
unfolding is_inside
safe_join base name =
    let cleaned = clean (join (base ∷ name ∷ [])) in
    if is_abs name || has_prefix name (slash ∷ [])
    then err (driver (bytes "archive entry has absolute path: " ++ name))
    else if is_inside cleaned (clean base)
    then ok cleaned
    else err (driver (bytes "archive entry escapes target directory: " ++ name))
