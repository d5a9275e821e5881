-- ===== src/Tests/Web.antt =====
-- The texts of the pages at concrete inputs.
use agentreg.Base.{bytes, [], ◌∷◌, ◌≡◌, refl, arith}
use agentreg.Web.{Strings, since, time_ago}
use agentreg.Web.Ago.{IsAge, time_ago-IsAge}

abbrev strings : Strings
strings = record { itoa = λ n. n ∷ [] }

-- Two hours and a half.
time_ago_run : time_ago strings 9000000000007 7 ≡ 2 ∷ bytes " hours ago"
unfolding time_ago since
time_ago_run = refl

time_ago-IsAge_example : IsAge strings 9000000000000 (time_ago strings 9000000000007 7)
time_ago-IsAge_example = time_ago-IsAge strings 9000000000007 7 (omega arith) (omega arith)
