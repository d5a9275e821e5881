-- ===== src/Auth.antt =====
-- internal/auth/auth.go: usernames, password hashes and tokens.
pub mod Lockout
use agentreg.Base.{
  ℕ, Text, bytes, leb, eqb, Bool, true, false, ◌&&◌, ◌||◌, Option, none, some, [], ◌∷◌, ◌++◌,
  length, driver,
}
use agentreg.World.{M, ◌>>=◌, pure, fail, random_hex}
use agentreg.External.{External}

-- `[a-z0-9]`
abbrev pub is_alphanumeric : ℕ → Bool
is_alphanumeric c = (leb b'a' c && leb c b'z') || (leb b'0' c && leb c b'9')

-- `[a-z0-9-]*[a-z0-9]`
unfoldable pub ends_well : Text → Bool
ends_well [] = false
ends_well (c ∷ []) = is_alphanumeric c
ends_well (c ∷ d ∷ s) = (is_alphanumeric c || eqb c b'-') && ends_well (d ∷ s)

unfoldable pub valid_username : Text → Bool
unfolding ends_well
valid_username [] = false
valid_username (c ∷ []) = is_alphanumeric c
valid_username (c ∷ d ∷ s) = is_alphanumeric c && (leb (length (d ∷ s)) 39 && ends_well (d ∷ s))

unfoldable pub hashed : Option Text → M Text
unfolding pure fail
hashed none = fail (driver (bytes "bcrypt"))
hashed (some h) = pure h

-- The salt is the next random value.
unfoldable pub hash_password : External → Text → M Text
unfolding hashed ◌>>=◌
hash_password x password = do salt ← random_hex; hashed (x.bcrypt_generate salt password)

abbrev pub check_password : External → Text → Text → Bool
check_password x hash password = x.bcrypt_matches hash password

unfoldable pub new_api_token : M Text
unfolding pure ◌>>=◌
new_api_token = do token ← random_hex; pure (bytes "krate_" ++ token)
