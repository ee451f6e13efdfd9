-- ===== src/Http/Time.antt =====
-- http.rs: the ISO 8601 text of a Unix time. The loop over the years runs on fuel; `year` is a u32 and
-- wraps.
pub mod Calendar
use simple_im.Base.{
  ℕ, zero, suc, ◌+◌, ◌-◌, ◌*◌, ◌/◌, ◌%◌, ◌^◌, Bool, true, false, not, ◌&&◌, ◌||◌, Option, none,
  some, List, [], ◌∷◌, ◌++◌, if◌then◌else◌, ltb, eqb, length, option_map,
}
use simple_im.Base.Text.{Text, codes}
use simple_im.Base.Text.Decimal.{to_string}

unfoldable pub is_leap_year : ℕ → Bool
is_leap_year year = (eqb (year % 4) 0 && not (eqb (year % 100) 0)) || eqb (year % 400) 0

abbrev pub days_in_year : ℕ → ℕ
days_in_year year = if is_leap_year year then 366 else 365

-- The loop over the years: the year, and the days that are left in it.
unfoldable pub find_year : ℕ → ℕ → ℕ → Option (ℕ × ℕ)
unfolding is_leap_year
find_year zero year days = none
find_year (suc fuel) year days =
    let later = find_year fuel ((year + 1) % 2 ^ 32) (days - days_in_year year) in
    if ltb days (days_in_year year) then some (year, days) else later

abbrev pub month_lengths : ℕ → List ℕ
month_lengths year =
    if is_leap_year year
    then 31 ∷ 29 ∷ 31 ∷ 30 ∷ 31 ∷ 30 ∷ 31 ∷ 31 ∷ 30 ∷ 31 ∷ 30 ∷ 31 ∷ []
    else 31 ∷ 28 ∷ 31 ∷ 30 ∷ 31 ∷ 30 ∷ 31 ∷ 31 ∷ 30 ∷ 31 ∷ 30 ∷ 31 ∷ []

-- The loop over the months: the month, and the days that are left in it.
unfoldable pub find_month : List ℕ → ℕ → ℕ → ℕ × ℕ
find_month [] month days = (month, days)
find_month (ml ∷ lengths) month days =
    let later = find_month lengths (month + 1) (days - ml) in
    if ltb days ml then (month, days) else later

-- The numbers that are printed.
pub record Stamp : Type 0 where
  pub year : ℕ
  pub month : ℕ
  pub day : ℕ
  pub h : ℕ
  pub m : ℕ
  pub s : ℕ

abbrev pub stamp_of : ℕ → ℕ × ℕ → Stamp
stamp_of secs (year, days) =
    let (month, left) = find_month (month_lengths year) 1 days in
    record {
      year = year;
      month = month;
      day = left + 1;
      h = secs % 86400 / 3600;
      m = secs % 86400 % 3600 / 60;
      s = secs % 86400 % 60;
    }

-- A year has at least 365 days.
abbrev pub years_fuel : ℕ → ℕ
years_fuel days = days / 365 + 1

unfoldable pub stamp : ℕ → Option Stamp
unfolding find_year find_month
stamp secs = option_map (stamp_of secs) (find_year (years_fuel (secs / 86400)) 1970 (secs / 86400))

zeros : ℕ → Text
zeros zero = []
zeros (suc n) = b'0' ∷ zeros n

-- `{:0w}`
unfoldable pub padded : ℕ → ℕ → Text
unfolding zeros
padded w n = let t = to_string n in zeros (w - length t) ++ t

abbrev pub print : Stamp → Text
print t =
    padded 4 t.year
    ++ b'-' ∷ padded 2 t.month
    ++ b'-' ∷ padded 2 t.day
    ++ b'T' ∷ padded 2 t.h
    ++ b':' ∷ padded 2 t.m
    ++ b':' ∷ padded 2 t.s
    ++ b'Z' ∷ []

unfoldable epoch_secs_to_iso8601 : ℕ → Option Text
unfolding stamp padded
epoch_secs_to_iso8601 secs = option_map print (stamp secs)

-- The clocks read `now_i` and `now_s`, in nanoseconds; a difference that cannot be taken leaves the
-- time at `now_s`.
unfoldable pub instant_to_iso8601 : ℕ → ℕ → ℕ → Option Text
unfolding epoch_secs_to_iso8601
instant_to_iso8601 now_i now_s instant =
    let time =
      if not (ltb instant now_i)
      then now_s + (instant - now_i)
      else if ltb now_s (now_i - instant)
      then now_s
      else now_s - (now_i - instant) in
    epoch_secs_to_iso8601 (time / 1000000000)
