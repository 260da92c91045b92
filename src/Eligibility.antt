-- ===== src/Eligibility.antt =====
-- modules/participations/participations.service.ts, `assertAgeEligible` and `dateYearsAgo`: the age
-- bracket of a test.
pub mod Age
use orbitplay_api.Prelude.{
  ℕ, suc, ◌+◌, ◌-◌, ◌%◌, Bool, true, false, not, ◌&&◌, ◌||◌, Option, none, some, ltb, ◌==◌,
  if◌then◌else◌,
}

-- A date of the calendar. Its `YYYY-MM-DD` text is compared as the code compares it: by the year,
-- then the month, then the day.
pub record Date : Type 0 where
  pub year : ℕ
  pub month : ℕ
  pub day : ℕ

abbrev pub is_before : Date → Date → Bool
is_before a b =
    ltb a.year b.year
    || ((a.year == b.year) && (ltb a.month b.month || ((a.month == b.month) && ltb a.day b.day)))

abbrev pub is_leap_year : ℕ → Bool
is_leap_year y = ((y % 4) == 0) && (not ((y % 100) == 0) || ((y % 400) == 0))

-- `new Date(Date.UTC(year, month, day))` for a month and a day of some year: 29 February of a year
-- that has none is 1 March.
abbrev pub utc_date : ℕ → ℕ → ℕ → Date
utc_date y m d =
    if (m == 2) && (d == 29) && not (is_leap_year y)
    then record { year = y; month = 3; day = 1 }
    else record { year = y; month = m; day = d }

-- `dateYearsAgo`, with the UTC date of today. (`Date.UTC` moves the years 0 to 99 by 1900; the bounds
-- that the request schemas set on ages do not reach them.)
unfoldable pub date_years_ago : Date → ℕ → Date
date_years_ago today years = utc_date (today.year - years) today.month today.day

pub record AgeRange : Type 0 where
  pub age_min : Option ℕ
  pub age_max : Option ℕ

-- `birthdate < dateYearsAgo(ageMax + 1)`
unfoldable pub too_old : Date → Option ℕ → Date → Bool
unfolding date_years_ago
too_old today none birthdate = false
too_old today (some age_max) birthdate = is_before birthdate (date_years_ago today (age_max + 1))

-- `birthdate > dateYearsAgo(ageMin)`
unfoldable pub too_young : Date → Option ℕ → Date → Bool
unfolding date_years_ago
too_young today none birthdate = false
too_young today (some age_min) birthdate = is_before (date_years_ago today age_min) birthdate

-- Whether `assertAgeEligible` lets the player through. No range, or no birth date, lets pass.
unfoldable pub age_eligible : Date → Option AgeRange → Option Date → Bool
age_eligible today none birthdate = true
age_eligible today (some range) none = true
age_eligible today (some range) (some birthdate) =
    not (too_old today range.age_max birthdate || too_young today range.age_min birthdate)
