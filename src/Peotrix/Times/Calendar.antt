-- ===== src/Peotrix/Times/Calendar.antt =====
-- The Gregorian calendar, as the specification of `ptrx_gmtime`.
use my_coding_exercises.Common.{
  ℕ, zero, suc, ◌+◌, ◌-◌, ◌*◌, ◌/◌, ◌%◌, ◌≤◌, ◌≡◌, refl, Bool, true, false, ◌||◌, ◌==◌,
  if◌then◌else◌, arith,
}

abbrev pub is_leap : ℕ → Bool
is_leap year = if year % 400 == 0 then true else if year % 100 == 0 then false else year % 4 == 0

abbrev pub days_in_month : ℕ → ℕ → ℕ
days_in_month year month =
    if month == 2
    then (if is_leap year then 29 else 28)
    else if (month == 4) || (month == 6) || (month == 9) || (month == 11)
    then 30
    else 31

-- The days of a year before its month `month`, counted month by month.
abbrev pub before_month : ℕ → ℕ → ℕ
before_month year zero = 0
before_month year (suc zero) = 0
before_month year (suc (suc month)) = before_month year (suc month) + days_in_month year (suc month)

-- The days before a year since January 1 of year 1, counted year by year.
unfoldable pub before_year : ℕ → ℕ
before_year zero = 0
before_year (suc zero) = 0
before_year (suc (suc year)) = before_year (suc year) + (if is_leap (suc year) then 366 else 365)

-- A date of the calendar.
pub record IsDate (year month day : ℕ) : Type 0 where
  pub some_year : 1 ≤ year
  pub month_in : (1 ≤ month) × (month ≤ 12)
  pub day_in : (1 ≤ day) × (day ≤ days_in_month year month)

-- The number of a day, from 0 on January 1, 1970.
abbrev pub epoch : ℕ
epoch = 719162

abbrev pub day_number : ℕ → ℕ → ℕ → ℕ
day_number year month day = before_year year + before_month year month + day - 1

-- The years counted in one go.
pub before_year-closed :
    (year : ℕ) → before_year (suc year) ≡ 365 * year + year / 4 - year / 100 + year / 400
unfolding before_year
before_year-closed zero = refl
before_year-closed (suc year) = ground (arith, before_year-closed year)
