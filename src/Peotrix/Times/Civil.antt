-- ===== src/Peotrix/Times/Civil.antt =====
-- `ptrx_gmtime` computes the date and the time of day.
use my_coding_exercises.Common.{
  ℕ, zero, suc, ◌+◌, ◌-◌, ◌*◌, ◌/◌, ◌%◌, ◌≤◌, ◌<◌, ◌≡◌, refl, ap, ◌∙◌, inl, inr, ltb, leb, ◌==◌,
  if◌then◌else◌, arith, Bool-cases,
}
use my_coding_exercises.Peotrix.Times.{
  two_32, leap, before_march, YearDay, year_day, Tm, fill_tm, ptrx_gmtime,
}
use my_coding_exercises.Peotrix.Times.Calendar.{
  is_leap, days_in_month, before_month, before_year, before_year-closed, IsDate, epoch, day_number,
}

-- The code's rule of leap years is that of the calendar.
leap-is_leap : (year : ℕ) → leap year ≡ (if is_leap year then 1 else 0)
unfolding leap
leap-is_leap year = ground arith

before_march-suc : (year : ℕ) → before_march (suc year) ≡ before_march year + 365 + leap (suc year)
unfolding before_march leap
before_march-suc year = ground arith

-- March 1 comes 59 or 60 days after the beginning of its year, and March 1, 1 BC 306 days before
-- January 1 of year 1.
before_march-before_year :
    (year : ℕ) → before_march (suc year) ≡ before_year (suc year) + 306 + 59 + leap (suc year)
unfolding before_march leap
before_march-before_year year = ground (arith, before_year-closed year)

-- A day of a year from March on: 365 only if the February at its end has 29 days.
record Fits (days : ℕ) (r : YearDay) : Type 0 where
  counts : before_march r.year + r.yday ≡ days
  in_year : r.yday ≤ 365
  last : r.yday ≡ 365 → leap (r.year + 1) ≡ 1

leap-le-one : (year : ℕ) → leap year ≤ 1
unfolding leap
leap-le-one year = ground arith

-- The quotient is the year, or the next one on the last two days before March.
march_bounds :
    (days year : ℕ)
    → year ≡ (days + 2) * 400 / 146097
    → (before_march year ≤ days + 2) × (days ≤ before_march year + 364)
unfolding before_march
march_bounds days year e = omega arith

before_march-Fits :
    (days year : ℕ)
    → days < before_march year
    → before_march year ≤ days + 2
    → Fits days record { year = year - 1; yday = 365 + leap year - (before_march year - days) }
before_march-Fits days zero lt near = absurd (unfold before_march in omega arith)
before_march-Fits days (suc year) lt near =
    let next = before_march-suc year in
    let one = leap-le-one (suc year) in
    let here : suc year - 1 ≡ year = omega arith in
    rw here (record {
      counts = omega arith;
      in_year = omega arith;
      last = λ f. let again : year + 1 ≡ suc year = omega arith in rw again (omega arith);
    })

year_day-Fits : (days : ℕ) → Fits days (year_day days)
unfolding year_day
year_day-Fits days =
    let year : ℕ = (days + 2) * 400 / 146097 in
    let near = march_bounds days year refl in
    elim (Bool-cases (ltb days (before_march year))) [
      | inr e ↦ rw e (record {
        counts = ground (arith, near);
        in_year = omega (arith, near);
        last = λ f. absurd (omega (arith, near));
      })
      | inl e ↦ rw e (before_march-Fits days year (ground arith) near.0)
    ]

abbrev march_day : ℕ → ℕ → ℕ
march_day yday mon = (yday + two_32 - (367 * mon / 12 - 30) + 1) % two_32

-- The months from March to December.
late_month :
    (year yday mon : ℕ)
    → mon ≡ (yday + 31) * 10 / 306
    → yday < 306
    → (before_month year (mon + 2) + march_day yday mon ≡ 59 + leap year + yday + 1)
      × (3 ≤ mon + 2)
      × (mon + 2 ≤ 12)
      × (1 ≤ march_day yday mon)
      × (march_day yday mon ≤ days_in_month year (mon + 2))
late_month year yday zero e h = absurd (omega arith)
late_month year yday (suc zero) e h = ground (arith, leap-is_leap year)
late_month year yday (suc (suc zero)) e h = ground (arith, leap-is_leap year)
late_month year yday (suc (suc (suc zero))) e h = ground (arith, leap-is_leap year)
late_month year yday (suc (suc (suc (suc zero)))) e h = ground (arith, leap-is_leap year)
late_month year yday (suc (suc (suc (suc (suc zero))))) e h = ground (arith, leap-is_leap year)
late_month year yday (suc (suc (suc (suc (suc (suc zero)))))) e h =
    ground (arith, leap-is_leap year)
late_month year yday (suc (suc (suc (suc (suc (suc (suc zero))))))) e h =
    ground (arith, leap-is_leap year)
late_month year yday (suc (suc (suc (suc (suc (suc (suc (suc zero)))))))) e h =
    ground (arith, leap-is_leap year)
late_month year yday (suc (suc (suc (suc (suc (suc (suc (suc (suc zero))))))))) e h =
    ground (arith, leap-is_leap year)
late_month year yday (suc (suc (suc (suc (suc (suc (suc (suc (suc (suc zero)))))))))) e h =
    ground (arith, leap-is_leap year)
late_month year yday (suc (suc (suc (suc (suc (suc (suc (suc (suc (suc (suc mon))))))))))) e h =
    absurd (omega arith)

-- January and February of the next year.
early_month :
    (year yday mon : ℕ)
    → mon ≡ (yday + 31) * 10 / 306
    → 306 ≤ yday
    → yday ≤ 365
    → (yday ≡ 365 → leap year ≡ 1)
    → (before_month year (mon - 10) + march_day yday mon ≡ yday - 306 + 1)
      × (1 ≤ mon - 10)
      × (mon - 10 ≤ 2)
      × (1 ≤ march_day yday mon)
      × (march_day yday mon ≤ days_in_month year (mon - 10))
early_month year yday mon e lo hi last = elim (Bool-cases (mon == 11)) [
  | inl is ↦ let january : mon ≡ 11 = ground arith in rw january (ground (arith, january))
  | inr not_it ↦
      let february : mon ≡ 12 = ground arith in
      rw february (ground (arith, february, leap-is_leap year))
]

-- A day number since March 1, 1 BC taken for a date of the calendar.
record IsDated (since_march year month day : ℕ) : Type 0 where
  date : IsDate year month day
  number : day_number year month day + 306 ≡ since_march

late-IsDated :
    (since_march year yday mon : ℕ)
    → before_march year + yday ≡ since_march
    → 400 ≤ since_march
    → mon ≡ (yday + 31) * 10 / 306
    → yday < 306
    → IsDated since_march year (mon + 2) (march_day yday mon)
late-IsDated since_march zero yday mon c late e h = absurd (unfold before_march in omega arith)
late-IsDated since_march (suc year) yday mon c late e h =
    let (sum, three, twelve, one, fits) = late_month (suc year) yday mon e h in
    let years = before_march-before_year year in
    record {
      date = record {
        some_year = omega arith;
        month_in = (omega arith, twelve);
        day_in = (one, fits);
      };
      number = omega (arith, sum, years, c, one);
    }

early-IsDated :
    (since_march year yday mon : ℕ)
    → before_march year + yday ≡ since_march
    → mon ≡ (yday + 31) * 10 / 306
    → 306 ≤ yday
    → yday ≤ 365
    → (yday ≡ 365 → leap (year + 1) ≡ 1)
    → IsDated since_march (year + 1) (mon - 10) (march_day yday mon)
early-IsDated since_march year yday mon c e lo hi last =
    let (sum, one_month, two, one, fits) = early_month (year + 1) yday mon e lo hi last in
    let next : year + 1 ≡ suc year = omega arith in
    let years : before_year (year + 1) ≡ before_march year =
      ap before_year next ∙ before_year-closed year ∙ unfold before_march in refl in
    record {
      date = record {
        some_year = omega arith;
        month_in = (one_month, omega arith);
        day_in = (one, fits);
      };
      number = omega (arith, sum, years, c, one);
    }

-- What the fields say of a time.
pub record IsCivil (t : ℕ) (r : Tm) : Type 0 where
  pub date : IsDate r.tm_year r.tm_mon r.tm_mday
  pub number : day_number r.tm_year r.tm_mon r.tm_mday ≡ epoch + t / 86400
  pub time : (r.tm_hour * 60 + r.tm_min) * 60 + r.tm_sec ≡ t % 86400
  pub ranges : (r.tm_hour < 24) × (r.tm_min < 60) × (r.tm_sec < 60)
  pub weekday : r.tm_wday ≡ (day_number r.tm_year r.tm_mon r.tm_mday + 1) % 7

fill_tm-IsCivil : (t : ℕ) (d : YearDay) → Fits (t / 86400 + 719468) d → IsCivil t (fill_tm t d)
unfolding fill_tm
fill_tm-IsCivil t d f = elim (Bool-cases (leb 306 d.yday)) [
  | inl e ↦
      let x =
        early-IsDated (t / 86400 + 719468) d.year d.yday mon f.counts refl (ground arith) f.in_year
          f.last in
      rw e (civil (d.year + 1) (mon - 10) x)
  | inr e ↦
      let x =
        late-IsDated (t / 86400 + 719468) d.year d.yday mon f.counts (omega arith) refl
          (ground arith) in
      rw e (civil d.year (mon + 2) x)
]
  where
    mon : ℕ
    mon = (d.yday + 31) * 10 / 306

    civil :
        (year month : ℕ)
        → IsDated (t / 86400 + 719468) year month (march_day d.yday mon)
        → IsCivil t record {
          tm_sec = t % 86400 % 3600 % 60;
          tm_min = t % 86400 % 3600 / 60;
          tm_hour = t % 86400 / 3600;
          tm_mday = march_day d.yday mon;
          tm_mon = month;
          tm_year = year;
          tm_wday = (4 + t / 86400) % 7;
        }
    civil year month x = record {
      date = x.date;
      number = omega (arith, x.number);
      time = omega arith;
      ranges = omega arith;
      weekday = omega (arith, x.number);
    }

-- For every time before 2 ^ 32, `ptrx_gmtime` gives a date of the Gregorian calendar, with the month
-- from 1 and the year in full, whose day number, counted from year 1 by years and months, is that of
-- January 1, 1970 and the full days of the time; the hour, the minute and the second are in range
-- and make up the rest of the time; and the day of the week is right, Sunday being 0.
pub ptrx_gmtime-IsCivil : (t : ℕ) → t < two_32 → IsCivil t (ptrx_gmtime t)
unfolding ptrx_gmtime
ptrx_gmtime-IsCivil t h =
    let n : t % two_32 ≡ t = omega arith in
    let m : (t / 86400 + two_32 - (31 + 28) + 719527) % two_32 ≡ t / 86400 + 719468 = omega arith in
    rw (n, m)
      (fill_tm-IsCivil t (year_day (t / 86400 + 719468)) (year_day-Fits (t / 86400 + 719468)))
