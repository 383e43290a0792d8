-- ===== src/Peotrix/Times.antt =====
-- Peotrix_nginx/src/core/ptrx_times.c: `ptrx_gmtime`. Unsigned ints have 32 bits, and their
-- wrap-around is written out where a subtraction could need it.
pub mod Calendar
pub mod Civil
use my_coding_exercises.Common.{
  ℕ, ◌+◌, ◌-◌, ◌*◌, ◌/◌, ◌%◌, Bool, true, false, not, ◌&&◌, ◌||◌, ltb, leb, ◌==◌, if◌then◌else◌,
}

abbrev pub two_32 : ℕ
two_32 = 4_294_967_296

-- The fields of `ptrx_tm_t` that are set.
pub record Tm : Type 0 where
  pub tm_sec : ℕ
  pub tm_min : ℕ
  pub tm_hour : ℕ
  pub tm_mday : ℕ
  pub tm_mon : ℕ
  pub tm_year : ℕ
  pub tm_wday : ℕ

-- (year % 4 == 0) && (year % 100 || (year % 400 == 0))
unfoldable pub leap : ℕ → ℕ
leap year = if (year % 4 == 0) && (not (year % 100 == 0) || (year % 400 == 0)) then 1 else 0

-- The days before March 1 of a year, since March 1, 1 BC.
unfoldable pub before_march : ℕ → ℕ
before_march year = 365 * year + year / 4 - year / 100 + year / 400

-- A year that begins on March 1, and a day of it, from 0.
pub record YearDay : Type 0 where
  pub year : ℕ
  pub yday : ℕ

-- `yday` is negative in the first branch of the test, by `before_march year - days`.
unfoldable pub year_day : ℕ → YearDay
year_day days =
    let year = (days + 2) * 400 / (365 * 400 + 100 - 4 + 1) in
    if ltb days (before_march year)
    then record { year = year - 1; yday = 365 + leap year - (before_march year - days) }
    else record { year = year; yday = days - before_march year }

-- The month and its day, and the stores, for the seconds `n` and the day `d`.
unfoldable pub fill_tm : ℕ → YearDay → Tm
fill_tm n d =
    let mon = (d.yday + 31) * 10 / 306 in
    record {
      tm_sec = n % 86400 % 3600 % 60;
      tm_min = n % 86400 % 3600 / 60;
      tm_hour = n % 86400 / 3600;
      tm_mday = (d.yday + two_32 - (367 * mon / 12 - 30) + 1) % two_32;
      tm_mon = if leb 306 d.yday then mon - 10 else mon + 2;
      tm_year = if leb 306 d.yday then d.year + 1 else d.year;
      tm_wday = (4 + n / 86400) % 7;
    }

unfoldable pub ptrx_gmtime : ℕ → Tm
ptrx_gmtime t =
    let n = t % two_32 in fill_tm n (year_day ((n / 86400 + two_32 - (31 + 28) + 719527) % two_32))
