-- ===== src/Sqlite.antt =====
-- internal/store/sqlite/sqlite.go: the MetadataStore on SQLite. The methods stand in the children
-- `Users`, `Plugins` and `Recovery`. A row that a statement inserts goes to the end of its table.
pub mod Users
pub mod Plugins
pub mod Recovery
pub mod Stable
pub mod Tables
use agentreg.Base.{
  Text, bytes, contains, to_lower, Bool, true, false, Option, none, some, Error, not_found,
  conflict, token_invalid, forbidden, invalid_input, driver, wrap, if◌then◌else◌, ◌≡◌, refl,
}
use agentreg.World.{M, pure, fail}
use agentreg.World.Ensures.{Assertion, Ensures, Ensures-fail, Ensures-pure}

-- The messages with which the driver reports a violated constraint.
abbrev pub unique_message : Text
unique_message = bytes "constraint failed: UNIQUE constraint failed (2067)"

abbrev pub foreign_key_message : Text
foreign_key_message = bytes "constraint failed: FOREIGN KEY constraint failed (787)"

-- `err.Error()`
pub error_text : Error → Text
error_text not_found = bytes "not found"
error_text conflict = bytes "conflict"
error_text token_invalid = bytes "token invalid, expired, or already used"
error_text forbidden = bytes "forbidden: token does not own this scope"
error_text invalid_input = bytes "invalid input"
error_text (driver m) = m
error_text (wrap m e) = m

unfoldable pub is_unique_violation : Error → Bool
unfolding error_text contains to_lower
is_unique_violation e = contains (to_lower (error_text e)) (bytes "unique")

-- `if isUniqueViolation(err) { return store.ErrConflict }; return err`
unfoldable pub unique_to_conflict : Error → Error
unique_to_conflict e = if is_unique_violation e then conflict else e

-- `if errors.Is(err, sql.ErrNoRows) { return store.ErrNotFound }`
unfoldable pub row_or : {A : Type 0} → Error → Option A → M A
unfolding pure fail
row_or e none = fail e
row_or e (some a) = pure a

unique_message_lem : is_unique_violation (driver unique_message) ≡ true
unfolding is_unique_violation
unique_message_lem = refl

foreign_key_message_lem : is_unique_violation (driver foreign_key_message) ≡ false
unfolding is_unique_violation
foreign_key_message_lem = refl

pub Ensures-row_or :
    {A : Type 0} {P : Assertion} (e : Error) (o : Option A)
    → Ensures P (row_or e o) (λ a d b t. P d b t × (o ≡ some a))
unfolding row_or
Ensures-row_or e none = Ensures-fail e
Ensures-row_or e (some a) = Ensures-pure a (λ d b t h. (h, refl))
