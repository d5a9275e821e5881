-- ===== src/Tests/World.antt =====
-- A registry with toy cryptography, an account and a plugin to publish.
use agentreg.Base.{bytes, ◌==◌, true, false, some, none, [], ◌∷◌}
use agentreg.Manifest
use agentreg.World.{World, Db, Env, UserRow, ResetRow}
use agentreg.External.{External}
use agentreg.Registry.{Registry, PublishInput}

abbrev pub empty_db : Db
empty_db = record {
  users = [];
  last_user = 0;
  tokens = [];
  last_token = 0;
  plugins = [];
  versions = [];
  keywords = [];
  verifications = [];
  resets = [];
}

-- Nothing fails, each look at the clock takes a second, and there are two random tokens.
abbrev pub calm : Env
calm = record {
  faults = [];
  now = 1000000000000;
  steps = 1000000000 ∷ 1000000000 ∷ 1000000000 ∷ 1000000000 ∷ [];
  entropy = bytes "t1" ∷ bytes "t2" ∷ [];
}

abbrev pub empty_world : World
empty_world = record { db = empty_db; blobs = []; outbox = []; env = calm }

abbrev pub toy : External
toy = record {
  sha256 = λ t. b'#' ∷ t;
  semver_is_valid = λ v. true;
  marshal = λ p. some p.name;
  bcrypt_generate = λ salt p. some (b'$' ∷ p);
  bcrypt_matches = λ h p. h == b'$' ∷ p;
}

abbrev pub reg : Registry
reg = record { blob_root = bytes "/blobs"; external = toy }

abbrev pub manifest : Manifest.Plugin
manifest = record {
  schema = [];
  name = bytes "demo";
  version = bytes "1.0.0";
  description = bytes "a demo";
  homepage = [];
  repository = [];
  license = bytes "MIT";
  keywords = bytes "k" ∷ [];
  author = [];
}

abbrev pub input : PublishInput
input = record {
  scope = bytes "alice";
  name = bytes "demo";
  version = bytes "1.0.0";
  tarball = bytes "tar";
  bundle = record {
    plugin = manifest;
    has_skills = true;
    has_mcp = false;
    skills = bytes "s" ∷ [];
  };
  requestor = bytes "alice";
  published_at = 0;
}

abbrev pub alice : UserRow
alice = record {
  id = 1;
  username = bytes "alice";
  email = bytes "a@x.org";
  password_hash = bytes "$secret";
  email_verified = false;
  created_at = 900;
}

abbrev pub pending : ResetRow
pending = record { token_hash = bytes "#tok"; user_id = 1; expires_at = 5000; used_at = none }

-- An account with a password reset that was asked for.
abbrev pub account_world : World
account_world = record empty_world {
  db = record empty_db { users = alice ∷ []; last_user = 1; resets = pending ∷ [] };
}
