-- ===== src/Sqlite/Users.antt =====
-- sqlite.go: CreateUser, GetUserByUsername, CreateToken, GetUserByTokenHash, UpdatePassword.
use agentreg.Base.{
  ℕ, ◌+◌, Text, ◌==◌, eqb, false, ◌||◌, Option, none, some, List, [], ◌∷◌, ◌++◌, Result, ok, err,
  driver, not_found, any, find, update_where, if◌then◌else◌,
}
use agentreg.Store.{User, Token, format_rfc3339, parse_rfc3339}
use agentreg.World.{
  Db, UserRow, TokenRow, M, pure, map_error, ignore, ◌>>=◌, ◌>>◌, query, exec, gets, time_now,
}
use agentreg.Sqlite.{unique_message, foreign_key_message, unique_to_conflict, row_or}

abbrev pub user_row : ℕ → Text → Text → Text → ℕ → UserRow
user_row id username email password_hash created_at = record {
  id = id;
  username = username;
  email = email;
  password_hash = password_hash;
  email_verified = false;
  created_at = created_at;
}

unfoldable pub insert_user : Text → Text → Text → ℕ → Db → Result Db
insert_user username email password_hash created_at d =
    if any (λ r. r.username == username || r.email == email) d.users
    then err (driver unique_message)
    else ok (record d {
      users = d.users ++ user_row (d.last_user + 1) username email password_hash created_at ∷ [];
      last_user = d.last_user + 1;
    })

unfoldable pub create_user : Text → Text → Text → M User
create_user username email password_hash = do
  now ← time_now
  map_error unique_to_conflict
      (exec (insert_user username email password_hash (format_rfc3339 now)))
  id ← gets (λ d. d.last_user)
  pure (record {
    id = id;
    username = username;
    email = email;
    password_hash = password_hash;
    email_verified = false;
    created_at = now;
  })

-- `row.Scan(&u.ID, …)`
unfoldable pub scan_user : UserRow → User
scan_user r = record {
  id = r.id;
  username = r.username;
  email = r.email;
  password_hash = r.password_hash;
  email_verified = r.email_verified;
  created_at = parse_rfc3339 r.created_at;
}

unfoldable pub find_user : Text → Db → Option UserRow
find_user username d = find (λ r. r.username == username) d.users

unfoldable pub get_user_by_username : Text → M User
get_user_by_username username = do
  found ← query (find_user username)
  row ← row_or not_found found
  pure (scan_user row)

abbrev pub token_row : ℕ → ℕ → Text → Text → ℕ → TokenRow
token_row id user_id token_hash label created_at = record {
  id = id;
  user_id = user_id;
  token_hash = token_hash;
  label = label;
  created_at = created_at;
  last_used_at = none;
}

unfoldable pub insert_token : ℕ → Text → Text → ℕ → Db → Result Db
insert_token user_id token_hash label created_at d =
    if any (λ r. r.token_hash == token_hash) d.tokens
    then err (driver unique_message)
    else if any (λ r. eqb r.id user_id) d.users
    then ok (record d {
      tokens = d.tokens ++ token_row (d.last_token + 1) user_id token_hash label created_at ∷ [];
      last_token = d.last_token + 1;
    })
    else err (driver foreign_key_message)

unfoldable pub create_token : ℕ → Text → Text → M Token
create_token user_id token_hash label = do
  now ← time_now
  map_error unique_to_conflict (exec (insert_token user_id token_hash label (format_rfc3339 now)))
  id ← gets (λ d. d.last_token)
  pure (record { id = id; user_id = user_id; label = label; created_at = now; last_used_at = none })

-- `FROM tokens t JOIN users u ON u.id = t.user_id WHERE t.token_hash = ?`
unfoldable pub join_user : List UserRow → Option TokenRow → Option UserRow
join_user users none = none
join_user users (some t) = find (λ u. eqb u.id t.user_id) users

unfoldable pub find_token : Text → Db → Option TokenRow
find_token token_hash d = find (λ t. t.token_hash == token_hash) d.tokens

unfoldable pub token_owner : Text → Db → Option UserRow
unfolding join_user find_token
token_owner token_hash d = join_user d.users (find_token token_hash d)

unfoldable pub touch_token : Text → ℕ → Db → Db
touch_token token_hash at d = record d {
  tokens =
      update_where (λ t. t.token_hash == token_hash) (λ t. record t { last_used_at = some at })
        d.tokens;
}

unfoldable pub get_user_by_token_hash : Text → M User
get_user_by_token_hash token_hash = do
  found ← query (token_owner token_hash)
  row ← row_or not_found found
  now ← time_now
  ignore (exec (λ d. ok (touch_token token_hash (format_rfc3339 now) d)))
  pure (scan_user row)

unfoldable pub set_password : ℕ → Text → Db → Db
set_password user_id hash d = record d {
  users = update_where (λ u. eqb u.id user_id) (λ u. record u { password_hash = hash }) d.users;
}

unfoldable pub update_password : ℕ → Text → M (Unit {0})
update_password user_id hash = exec (λ d. ok (set_password user_id hash d))
