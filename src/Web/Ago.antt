-- ===== src/Web/Ago.antt =====
-- The age of a version, as the pages write it.
use agentreg.Base.{
  eqb, eqb_iff, ◌⊎◌, ◌++◌, ◌∷◌, ℕ, ◌+◌, ◌-◌, ◌*◌, ◌/◌, ◌≤◌, ◌<◌, Text, bytes, ltb, Bool-cases,
  false, inl, inr, ◌≡◌, refl, arith,
}
use agentreg.Store.{Time}
use agentreg.Web.{Strings, minute, hour, day, month, year, max_duration, since, ago_unit, time_ago}

pub data AgeUnit : Type 0 where
  minutes hours days months years : AgeUnit

abbrev pub size : AgeUnit → Time
size minutes = minute
size hours = hour
size days = day
size months = month
size years = year

abbrev pub unit_name : AgeUnit → Text
unit_name minutes = bytes "minute"
unit_name hours = bytes "hour"
unit_name days = bytes "day"
unit_name months = bytes "month"
unit_name years = bytes "year"

-- `text` says `n` units of an age, rounded down, in the largest unit that fits into it.
pub record IsAge (s : Strings) (age : Time) (text : Text) : Type 0 where
  pub n : ℕ
  pub unit : AgeUnit
  pub written :
      ((n ≡ 1) × (text ≡ bytes "1 " ++ unit_name unit ++ bytes " ago"))
      ⊎ ((2 ≤ n) × (text ≡ s.itoa n ++ b' ' ∷ unit_name unit ++ bytes "s ago"))
  pub positive : 1 ≤ n
  pub lower : n * size unit ≤ age
  pub upper : age < (n + 1) * size unit
  pub largest : (u : AgeUnit) → size u ≤ age → size u ≤ size unit

-- An age from `size unit` on and below this is given in that unit.
abbrev limit : Time → AgeUnit → Time
limit d minutes = hour
limit d hours = day
limit d days = month
limit d months = year
limit d years = d + 1

largest_unit :
    (d : Time) (unit : AgeUnit) → d < limit d unit → (w : AgeUnit) → size w ≤ d → size w ≤ size unit
largest_unit d minutes u w h = grind arith
largest_unit d hours u w h = grind arith
largest_unit d days u w h = grind arith
largest_unit d months u w h = grind arith
largest_unit d years u w h = grind arith

rounded_down :
    (d : Time) (unit : AgeUnit)
    → size unit ≤ d
    → (1 ≤ d / size unit) × (d / size unit * size unit ≤ d) × (d < (d / size unit + 1) * size unit)
rounded_down d minutes h = (omega arith, omega arith, omega arith)
rounded_down d hours h = (omega arith, omega arith, omega arith)
rounded_down d days h = (omega arith, omega arith, omega arith)
rounded_down d months h = (omega arith, omega arith, omega arith)
rounded_down d years h = (omega arith, omega arith, omega arith)

written_out :
    (s : Strings) (n : ℕ) (unit : Text)
    → 1 ≤ n
    → ((n ≡ 1) × (ago_unit s n unit ≡ bytes "1 " ++ unit ++ bytes " ago"))
      ⊎ ((2 ≤ n) × (ago_unit s n unit ≡ s.itoa n ++ b' ' ∷ unit ++ bytes "s ago"))
unfolding ago_unit
written_out s n unit h = elim (Bool-cases (eqb n 1)) [
  | inl e ↦ inl (ground (arith, eqb_iff n 1, e), rw e refl)
  | inr e ↦ inr (ground (arith, eqb_iff n 1, e), rw e refl)
]

in_unit :
    (s : Strings) (d : Time) (unit : AgeUnit)
    → size unit ≤ d
    → d < limit d unit
    → IsAge s d (ago_unit s (d / size unit) (unit_name unit))
in_unit s d unit h u =
    let (positive, lower, upper) = rounded_down d unit h in
    record {
      n = d / size unit;
      unit = unit;
      written = written_out s (d / size unit) (unit_name unit) positive;
      positive = positive;
      lower = lower;
      upper = upper;
      largest = largest_unit d unit u;
    }

-- The age of a time that is at least a minute and at most the longest duration ago is written in the largest
-- unit that fits into it, rounded down: it is at least the number of units that is shown, and less than one
-- unit more.
pub time_ago-IsAge :
    (s : Strings) (now t : Time)
    → minute ≤ now - t
    → now - t ≤ max_duration
    → IsAge s (now - t) (time_ago s now t)
unfolding time_ago since
time_ago-IsAge s now t h k =
    let d = now - t in
    let not_max : ltb max_duration d ≡ false = ground arith in
    let old : ltb d minute ≡ false = ground arith in
    rw (not_max, old)
      (elim (Bool-cases (ltb d hour)) [
        | inl e ↦ rw e (in_unit s d minutes h (ground (arith, e)))
        | inr e ↦ rw e (elim (Bool-cases (ltb d day)) [
          | inl e' ↦ rw e' (in_unit s d hours (ground (arith, e)) (ground (arith, e')))
          | inr e' ↦ rw e' (elim (Bool-cases (ltb d month)) [
            | inl x ↦ rw x (in_unit s d days (ground (arith, e')) (ground (arith, x)))
            | inr x ↦ rw x (elim (Bool-cases (ltb d year)) [
              | inl x' ↦ rw x' (in_unit s d months (ground (arith, x)) (ground (arith, x')))
              | inr x' ↦ rw x' (in_unit s d years (ground (arith, x')) (omega arith))
            ])
          ])
        ])
      ])
