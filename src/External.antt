-- ===== src/External.antt =====
-- What the program takes from outside the repository and the model takes as parameters.
use agentreg.Base.{Text, Bool, Option}
use agentreg.Manifest.{Plugin}

pub record External : Type 0 where
  -- the hex digest of crypto/sha256
  pub sha256 : Text → Text
  -- golang.org/x/mod/semver.IsValid
  pub semver_is_valid : Text → Bool
  -- encoding/json.Marshal of a manifest; `none` is an error
  pub marshal : Plugin → Option Text
  -- golang.org/x/crypto/bcrypt: GenerateFromPassword with a salt, and CompareHashAndPassword
  pub bcrypt_generate : Text → Text → Option Text
  pub bcrypt_matches : Text → Text → Bool
