-- ===== src/Eligibility/Age.antt =====
-- The age bracket against the age of a person in full years.
use orbitplay_api.Prelude.{
  ℕ, suc, ◌-◌, ◌≤◌, ◌<◌, ◌≡◌, ◌↔◌, ◌⊎◌, inl, inr, Bool, true, false, ◌&&◌, ◌||◌, none, some, arith,
  ltb, ◌==◌, if◌then◌else◌,
}
use native.Mathlib.Decide.{dec_le}
use orbitplay_api.Eligibility.{Date, is_before, is_leap_year, too_old, too_young, age_eligible}

-- The birthday of this year has not come yet.
abbrev before_birthday : Date → Date → Bool
before_birthday birth today =
    ltb today.month birth.month || ((today.month == birth.month) && ltb today.day birth.day)

-- The age in full years.
unfoldable pub age : Date → Date → ℕ
age birth today =
    if before_birthday birth today then today.year - birth.year - 1 else today.year - birth.year

abbrev pub IsBirthday : Date → Date → Type 0
IsBirthday birth today = (birth.month ≡ today.month) × (birth.day ≡ today.day)

abbrev pub is_leap_day : Date → Bool
is_leap_day today = (today.month == 2) && (today.day == 29)

module _ (today birth : Date) (not_leap_day : is_leap_day today ≡ false)
    (born : is_before today birth ≡ false) where
  too_young_lem :
      (age_min : ℕ)
      → age_min ≤ today.year
      → (too_young today (some age_min) birth ≡ false) ↔ (age_min ≤ age birth today)
  unfolding too_young age
  too_young_lem age_min m = (λ h. ground arith, λ h. ground arith)

  too_old_lem :
      (age_max : ℕ)
      → age_max < today.year
      → (too_old today (some age_max) birth ≡ false)
        ↔ ((age birth today ≤ age_max) ⊎ ((age birth today ≡ suc age_max) × IsBirthday birth today))
  unfolding too_old age
  too_old_lem age_max m = (
    λ h. elim (dec_le (age birth today) age_max) [
      | yes le ↦ inl (ground arith)
      | no gt ↦ inr (ground arith, (ground arith, ground arith))
    ],
    λ h. ground arith,
  )

-- On every day but 29 February, of a player whose birth date is not in the future, the check lets
-- exactly those through who are at least `age_min`, and at most `age_max` or, on their very birthday,
-- one year older.
pub age_check_exact :
    (today birth : Date) (age_min age_max : ℕ)
    → is_leap_day today ≡ false
    → is_before today birth ≡ false
    → age_min ≤ today.year
    → age_max < today.year
    → (age_eligible today
          (some (record { age_min = some age_min; age_max = some age_max }))
          (some birth)
        ≡ true)
      ↔ ((age_min ≤ age birth today)
          × ((age birth today ≤ age_max)
              ⊎ ((age birth today ≡ suc age_max) × IsBirthday birth today)))
unfolding age_eligible
age_check_exact today birth age_min age_max l b m n =
    let young = too_young_lem today birth l b age_min m in
    let old = too_old_lem today birth l b age_max n in
    (
      λ h. (young.0 (ground arith), old.0 (ground arith)),
      λ h. ground (arith, young.1 h.0, old.1 h.1),
    )

-- On 29 February, in a bracket that starts at an age n for which the year n years ago is no leap
-- year, a player born on 1 March of that year is let through, though a year too young.
pub leap_day_admits_younger :
    (year n : ℕ)
    → n ≤ year
    → is_leap_year (year - n) ≡ false
    → let today : Date = record { year = year; month = 2; day = 29 } in
      let birth : Date = record { year = year - n; month = 3; day = 1 } in
      (age_eligible today (some (record { age_min = some n; age_max = none })) (some birth) ≡ true)
      × (age birth today ≡ n - 1)
unfolding age_eligible too_old too_young age
leap_day_admits_younger year n h l = (ground arith, ground arith)
