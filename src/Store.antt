-- ===== src/Store.antt =====
-- internal/store/store.go: the values that cross the MetadataStore and BlobStore interfaces.
-- A `time.Time` is the number of nanoseconds since Go's zero time; 0 is the zero value, for which
-- `IsZero` holds.
use agentreg.Base.{ℕ, ◌*◌, ◌/◌, Text, Option, List, Bool, eqb}

abbrev pub Time : Type 0
Time = ℕ

abbrev pub second : ℕ
second = 1000000000

abbrev pub is_zero : Time → Bool
is_zero t = eqb t 0

-- `t.UTC().Format(time.RFC3339)` has whole seconds; a column keeps their number.
unfoldable pub format_rfc3339 : Time → ℕ
format_rfc3339 t = t / second

-- `time.Parse(time.RFC3339, s)` of such a text.
unfoldable pub parse_rfc3339 : ℕ → Time
parse_rfc3339 s = s * second

pub record User : Type 0 where
  pub id : ℕ
  pub username : Text
  pub email : Text
  pub password_hash : Text
  pub email_verified : Bool
  pub created_at : Time

pub record Token : Type 0 where
  pub id : ℕ
  pub user_id : ℕ
  pub label : Text
  pub created_at : Time
  pub last_used_at : Option Time

pub record Plugin : Type 0 where
  pub scope : Text
  pub name : Text
  pub description : Text
  pub homepage : Text
  pub repository : Text
  pub license : Text
  pub latest_version : Text
  pub keywords : List Text
  pub total_downloads : ℕ
  pub created_at : Time
  pub updated_at : Time

pub record Version : Type 0 where
  pub scope : Text
  pub name : Text
  pub version : Text
  pub checksum : Text
  pub manifest_json : Text
  pub published_at : Time
  pub download_count : ℕ

pub record NewPlugin : Type 0 where
  pub scope : Text
  pub name : Text
  pub description : Text
  pub homepage : Text
  pub repository : Text
  pub license : Text
  pub keywords : List Text

pub record NewVersion : Type 0 where
  pub scope : Text
  pub name : Text
  pub version : Text
  pub checksum : Text
  pub manifest_json : Text
  pub published_at : Time
