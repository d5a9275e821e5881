-- ===== src/Web.antt =====
-- internal/web/web.go: the age of a version, as the pages write it.
pub mod Ago
use agentreg.Base.{ℕ, ◌*◌, ◌/◌, ◌-◌, Text, bytes, [], ◌∷◌, ◌++◌, eqb, ltb, if◌then◌else◌}
use agentreg.Store.{Time}

-- What package fmt does here: writing a number in decimal.
pub record Strings : Type 0 where
  pub itoa : ℕ → Text

abbrev pub minute : Time
minute = 60000000000

abbrev pub hour : Time
hour = 3600000000000

abbrev pub day : Time
day = 86400000000000

abbrev pub month : Time
month = 2592000000000000

abbrev pub year : Time
year = 31536000000000000

unfoldable pub ago_unit : Strings → ℕ → Text → Text
ago_unit s n unit =
    if eqb n 1 then bytes "1 " ++ unit ++ bytes " ago" else s.itoa n ++ b' ' ∷ unit ++ bytes "s ago"

-- The longest time.Duration.
abbrev pub max_duration : Time
max_duration = 9223372036854775807

-- time.Since, which stops at the longest duration; a time that is yet to come counts as the age 0, which is
-- shown as every negative age is.
unfoldable pub since : Time → Time → Time
since now t = let d = now - t in if ltb max_duration d then max_duration else d

-- timeAgo
unfoldable pub time_ago : Strings → Time → Time → Text
unfolding ago_unit since
time_ago s now t =
    let d = since now t in
    if ltb d minute
    then bytes "just now"
    else if ltb d hour
    then ago_unit s (d / minute) (bytes "minute")
    else if ltb d day
    then ago_unit s (d / hour) (bytes "hour")
    else if ltb d month
    then ago_unit s (d / day) (bytes "day")
    else if ltb d year
    then ago_unit s (d / month) (bytes "month")
    else ago_unit s (d / year) (bytes "year")
