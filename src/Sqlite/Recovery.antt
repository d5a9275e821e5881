-- ===== src/Sqlite/Recovery.antt =====
-- sqlite.go: the one-time tokens for confirming an email address and for resetting a password.
use agentreg.Base.{
  ℕ, Text, ◌==◌, eqb, ltb, Bool, true, false, not, Option, none, some, [], ◌∷◌, ◌++◌, Result, ok,
  err, driver, token_invalid, any, find, keep, update_where, if◌then◌else◌,
}
use agentreg.Store.{Time, format_rfc3339, parse_rfc3339}
use agentreg.World.{
  Db, VerificationRow, ResetRow, M, pure, fail, map_error, ◌>>=◌, ◌>>◌, query, exec, transaction,
  time_now,
}
use agentreg.Sqlite.{unique_message, foreign_key_message, unique_to_conflict, row_or}

unfoldable pub insert_verification : ℕ → Text → ℕ → Db → Result Db
insert_verification user_id token_hash expires_at d =
    if any (λ r. r.token_hash == token_hash) d.verifications
    then err (driver unique_message)
    else if any (λ u. eqb u.id user_id) d.users
    then ok (record d {
      verifications =
          d.verifications
          ++ record { token_hash = token_hash; user_id = user_id; expires_at = expires_at } ∷ [];
    })
    else err (driver foreign_key_message)

unfoldable pub create_email_verification : ℕ → Text → Time → M (Unit {0})
create_email_verification user_id token_hash expires_at =
    map_error unique_to_conflict
      (exec (insert_verification user_id token_hash (format_rfc3339 expires_at)))

unfoldable pub find_verification : Text → Db → Option VerificationRow
find_verification token_hash d = find (λ r. r.token_hash == token_hash) d.verifications

unfoldable pub delete_verification : Text → Db → Db
delete_verification token_hash d = record d {
  verifications = keep (λ r. not (r.token_hash == token_hash)) d.verifications;
}

unfoldable pub mark_verified : ℕ → Db → Db
mark_verified user_id d = record d {
  users = update_where (λ u. eqb u.id user_id) (λ u. record u { email_verified = true }) d.users;
}

unfoldable pub consume_email_verification : Text → M ℕ
consume_email_verification token_hash = transaction do
  found ← query (find_verification token_hash)
  row ← row_or token_invalid found
  now ← time_now
  if ltb (parse_rfc3339 row.expires_at) now then fail token_invalid else do
    exec (λ d. ok (delete_verification token_hash d))
    exec (λ d. ok (mark_verified row.user_id d))
    pure row.user_id

abbrev pub reset_row : ℕ → Text → ℕ → ResetRow
reset_row user_id token_hash expires_at = record {
  token_hash = token_hash;
  user_id = user_id;
  expires_at = expires_at;
  used_at = none;
}

unfoldable pub insert_reset : ℕ → Text → ℕ → Db → Result Db
insert_reset user_id token_hash expires_at d =
    if any (λ r. r.token_hash == token_hash) d.resets
    then err (driver unique_message)
    else if any (λ u. eqb u.id user_id) d.users
    then ok (record d { resets = d.resets ++ reset_row user_id token_hash expires_at ∷ [] })
    else err (driver foreign_key_message)

unfoldable pub create_password_reset : ℕ → Text → Time → M (Unit {0})
create_password_reset user_id token_hash expires_at =
    map_error unique_to_conflict
      (exec (insert_reset user_id token_hash (format_rfc3339 expires_at)))

unfoldable pub find_reset : Text → Db → Option ResetRow
find_reset token_hash d = find (λ r. r.token_hash == token_hash) d.resets

-- `usedAt.Valid`
abbrev pub is_set : {A : Type 0} → Option A → Bool
is_set none = false
is_set (some a) = true

unfoldable pub mark_used : Text → ℕ → Db → Db
mark_used token_hash at d = record d {
  resets =
      update_where (λ r. r.token_hash == token_hash) (λ r. record r { used_at = some at }) d.resets;
}

unfoldable pub consume_password_reset : Text → M ℕ
consume_password_reset token_hash = transaction do
  found ← query (find_reset token_hash)
  row ← row_or token_invalid found
  if is_set row.used_at then fail token_invalid else do
    now ← time_now
    if ltb (parse_rfc3339 row.expires_at) now then fail token_invalid else do
      used ← time_now
      exec (λ d. ok (mark_used token_hash (format_rfc3339 used) d))
      pure row.user_id
