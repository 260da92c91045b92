-- ===== src/Accounts/Adults.antt =====
-- The age that a signup takes, against the age in completed years.
use orbitplay_api.Prelude.{
  ℕ, ◌+◌, ◌-◌, ◌≡◌, refl, Bool, true, false, not, ◌&&◌, ◌||◌, arith, leb, ltb, ◌==◌, if◌then◌else◌,
  Bool-cases, inl, inr, ==_iff,
}
use orbitplay_api.Eligibility.{Date, is_leap_year}
use orbitplay_api.Accounts.Auth.Signup.{is_at_least_18, is_calendar_date, days_in_month}

-- The years completed by a day: one fewer while the birthday is still to come in its year.
abbrev pub age_in_years : Date → Date → ℕ
age_in_years today birth =
    if ltb today.month birth.month || ((today.month == birth.month) && ltb today.day birth.day)
    then today.year - birth.year - 1
    else today.year - birth.year

-- The comparison of years, where the birthday is still to come or not.
years :
    (now born : ℕ) (to_come : Bool)
    → (not (ltb now born || ((now == born) && to_come))
        && not (ltb now (born + 18) || ((now == (born + 18)) && to_come)))
      ≡ leb 18 (if to_come then now - born - 1 else now - born)
years now born true = ground arith
years now born false = ground arith

-- In a year without 29 February, that day and 1 March are still to come on the same days.
to_come_in_march :
    (year month day : ℕ)
    → is_leap_year year ≡ false
    → (leb 100 year && leb 1 day && leb day (days_in_month year month)) ≡ true
    → (ltb month 3 || ((month == 3) && ltb day 1)) ≡ (ltb month 2 || ((month == 2) && ltb day 29))
to_come_in_march year month day common h = elim (Bool-cases (month == 2)) [
  | inl february ↦
      let short : leb 100 year && leb 1 day && leb day 28 ≡ true = rw (february, common) at h in
      ground (arith, february, short)
  | inr other ↦ ground (arith, other, h)
]

-- The eighteenth birthday of 29 February, in a year that has none.
march_birthday :
    (today : Date) (born : ℕ)
    → is_calendar_date today ≡ true
    → is_leap_year (born + 18) ≡ false
    → ((today.year == (born + 18))
        && (ltb today.month 3 || ((today.month == 3) && ltb today.day 1)))
      ≡ ((today.year == (born + 18))
          && (ltb today.month 2 || ((today.month == 2) && ltb today.day 29)))
march_birthday today born cal common = elim (Bool-cases (today.year == (born + 18))) [
  | inr other ↦ rw other refl
  | inl same ↦
      let year : today.year ≡ born + 18 = (==_iff today.year (born + 18)).0 same in
      rw same (to_come_in_march today.year today.month today.day (rw year common) cal)
]

leapless : (a b l : Bool) → (a && b && not l) ≡ true → l ≡ false
leapless true true false h = refl
leapless true true true h = cc
leapless true false l h = cc
leapless false b l h = cc

-- On a day of the calendar, a birth date of the calendar from the year 100 on passes the age check
-- exactly if 18 years are completed.
pub adult_exact :
    (today birth : Date)
    → is_calendar_date today ≡ true
    → is_calendar_date birth ≡ true
    → is_at_least_18 today birth ≡ leb 18 (age_in_years today birth)
unfolding is_at_least_18
adult_exact today birth cal born =
    elim (Bool-cases
      ((birth.month == 2) && (birth.day == 29) && not (is_leap_year (birth.year + 18)))) [
        | inr plain ↦ rw (born, plain) (years today.year birth.year _)
        | inl leap ↦
            let month : birth.month ≡ 2 = ground (arith, leap) in
            let day : birth.day ≡ 29 = ground (arith, leap) in
            let common : is_leap_year (birth.year + 18) ≡ false =
              leapless (birth.month == 2) (birth.day == 29) _ leap in
            rw (born, leap, march_birthday today birth.year cal common, month, day)
              (years today.year birth.year _)
      ]
