-- ===== src/Http/Time/Calendar.antt =====
-- The dates that http.rs prints are those of the Gregorian calendar.
use simple_im.Base.{
  ℕ, zero, suc, ◌+◌, ◌-◌, ◌*◌, ◌/◌, ◌%◌, ◌^◌, ◌≤◌, ◌<◌, ◌≡◌, refl, ◌∙◌, inl, inr, false, Option,
  some, List, [], ◌∷◌, arith, ltb, eqb, if◌then◌else◌, length, Bool-cases,
}
use simple_im.Http.Time.{
  is_leap_year, days_in_year, find_year, month_lengths, find_month, Stamp, stamp_of, years_fuel,
  stamp,
}

-- The days before the first of January, from the rule that every fourth year is a leap year, but of
-- the centuries only every fourth.
abbrev days_before_year : ℕ → ℕ
days_before_year y = 365 * y + (y - 1) / 4 - (y - 1) / 100 + (y - 1) / 400

before_next : (y : ℕ) → 1 ≤ y → days_before_year (y + 1) ≡ days_before_year y + days_in_year y
unfolding is_leap_year
before_next y h = ground arith

-- What the loop over the years has found for a day that is counted from the start of a year.
record InYear (start days : ℕ) (found : Option (ℕ × ℕ)) : Type 0 where
  pub year : ℕ
  pub left : ℕ
  pub is_found : found ≡ some (year, left)
  pub same : days_before_year start + days ≡ days_before_year year + left
  pub within : left < days_in_year year
  pub after : 1970 ≤ year

same_day :
    (y days b b' r : ℕ) → b' ≡ b + y → ltb days y ≡ false → b' + (days - y) ≡ r → b + days ≡ r
same_day y days b b' r p e q = ground (arith, p, e, q)

fewer_days :
    (fuel days y : ℕ) → 365 ≤ y → ltb days y ≡ false → days < 365 * suc fuel → days - y < 365 * fuel
fewer_days fuel days y l e k = ground (arith, e)

long_year : (y : ℕ) → 365 ≤ days_in_year y
long_year y = ground arith

find_year_next :
    (fuel year days : ℕ)
    → ltb days (days_in_year year) ≡ false
    → year + 1 < 2 ^ 32
    → find_year (suc fuel) year days ≡ find_year fuel (year + 1) (days - days_in_year year)
unfolding find_year
find_year_next fuel year days e l =
    let next : (year + 1) % 2 ^ 32 ≡ year + 1 = omega arith in rw (e, next)

-- The loop stops in the year of the day.
find_year-InYear :
    (fuel year days : ℕ)
    → 1970 ≤ year
    → days < 365 * fuel
    → year + fuel < 2 ^ 32
    → InYear year days (find_year fuel year days)
find_year-InYear zero year days h k l = absurd (omega arith)
find_year-InYear (suc fuel) year days h k l = elim (Bool-cases (ltb days (days_in_year year))) [
  | inl e ↦ record {
    year = year;
    left = days;
    is_found = unfold find_year in rw e;
    same = refl;
    within = ground (arith, e);
    after = h;
  }
  | inr e ↦
      let later =
        find_year-InYear fuel (year + 1) (days - days_in_year year) (omega arith)
          (fewer_days fuel days (days_in_year year) (long_year year) e k) (omega arith) in
      record {
        year = later.year;
        left = later.left;
        is_found = find_year_next fuel year days e (omega arith) ∙ later.is_found;
        same =
            same_day (days_in_year year) days (days_before_year year) (days_before_year (year + 1))
              (days_before_year later.year + later.left) (before_next year (omega arith)) e
              later.same;
        within = later.within;
        after = later.after;
      }
]

-- The days of a year before a month, and the lengths of the months.
abbrev days_before_month : List ℕ → ℕ → ℕ
days_before_month lengths zero = 0
days_before_month [] (suc m) = 0
days_before_month (ml ∷ lengths) (suc m) = ml + days_before_month lengths m

abbrev month_length : List ℕ → ℕ → ℕ
month_length [] m = 0
month_length (ml ∷ lengths) zero = ml
month_length (ml ∷ lengths) (suc m) = month_length lengths m

abbrev sum : List ℕ → ℕ
sum [] = 0
sum (ml ∷ lengths) = ml + sum lengths

-- The loop over the months stops in the month of the day.
find_month_lem :
    (lengths : List ℕ) (month days : ℕ)
    → days < sum lengths
    → (m : ℕ) × (d : ℕ) × (find_month lengths month days ≡ (month + m, d))
      × (days ≡ days_before_month lengths m + d)
      × (d < month_length lengths m)
      × (m < length lengths)
unfolding find_month
find_month_lem [] month days h = absurd (omega arith)
find_month_lem (ml ∷ lengths) month days h = elim (Bool-cases (ltb days ml)) [
  | inl e ↦ (0, days, rw e (ground arith), omega arith, ground (arith, e), omega arith)
  | inr e ↦
      let (m, d, found, same, within, before) =
        find_month_lem lengths (month + 1) (days - ml) (ground (arith, e)) in
      (suc m, d, rw e (found ∙ ground arith), ground (arith, same, e), within, omega arith)
]

-- The days of a year, and those of its months by the rule of the calendar: the odd months are long up
-- to July and the even ones from August on, and February has what the year leaves.
abbrev year_length : ℕ → ℕ
year_length y = days_before_year (y + 1) - days_before_year y

abbrev month_rule : ℕ → ℕ → ℕ
month_rule n month = if eqb month 2 then n - 337 else 30 + (month + month / 8) % 2

-- The days of the first `m` months of a year of `n` days.
abbrev days_of_months : ℕ → ℕ → ℕ
days_of_months n zero = 0
days_of_months n (suc m) = days_of_months n m + month_rule n (suc m)

-- The numbers are a date and a time of day, and they are those of the second: the days from the first
-- of January 1970 are the days of the years before, of the months before and of the month, and the
-- rest is the time of day.
pub record IsStampOf (secs : ℕ) (t : Stamp) : Type 0 where
  pub date :
      days_before_year 1970 + secs / 86400
      ≡ days_before_year t.year + days_of_months (year_length t.year) (t.month - 1) + (t.day - 1)
  pub time : secs % 86400 ≡ t.h * 3600 + t.m * 60 + t.s
  pub month_range : (1 ≤ t.month) × (t.month ≤ 12)
  pub day_range : (1 ≤ t.day) × (t.day ≤ month_rule (year_length t.year) t.month)
  pub time_range : (t.h < 24) × (t.m < 60) × (t.s < 60)

-- A common or a leap year, by the days of February.
abbrev year_with : ℕ → List ℕ
year_with f = 31 ∷ f ∷ 31 ∷ 30 ∷ 31 ∷ 30 ∷ 31 ∷ 31 ∷ 30 ∷ 31 ∷ 30 ∷ 31 ∷ []

length_by_rule : (f m : ℕ) → m < 12 → month_length (year_with f) m ≡ month_rule (f + 337) (1 + m)
length_by_rule f zero h = omega arith
length_by_rule f (suc zero) h = omega arith
length_by_rule f (suc (suc zero)) h = omega arith
length_by_rule f (suc (suc (suc zero))) h = omega arith
length_by_rule f (suc (suc (suc (suc zero)))) h = omega arith
length_by_rule f (suc (suc (suc (suc (suc zero))))) h = omega arith
length_by_rule f (suc (suc (suc (suc (suc (suc zero)))))) h = omega arith
length_by_rule f (suc (suc (suc (suc (suc (suc (suc zero))))))) h = omega arith
length_by_rule f (suc (suc (suc (suc (suc (suc (suc (suc zero)))))))) h = omega arith
length_by_rule f (suc (suc (suc (suc (suc (suc (suc (suc (suc zero))))))))) h = omega arith
length_by_rule f (suc (suc (suc (suc (suc (suc (suc (suc (suc (suc zero)))))))))) h = omega arith
length_by_rule f (suc (suc (suc (suc (suc (suc (suc (suc (suc (suc (suc zero))))))))))) h =
    omega arith
length_by_rule f (suc (suc (suc (suc (suc (suc (suc (suc (suc (suc (suc (suc m)))))))))))) h =
    absurd (omega arith)

until_by_rule : (f m : ℕ) → m < 12 → days_before_month (year_with f) m ≡ days_of_months (f + 337) m
until_by_rule f zero h = omega arith
until_by_rule f (suc zero) h = omega arith
until_by_rule f (suc (suc zero)) h = omega arith
until_by_rule f (suc (suc (suc zero))) h = omega arith
until_by_rule f (suc (suc (suc (suc zero)))) h = omega arith
until_by_rule f (suc (suc (suc (suc (suc zero))))) h = omega arith
until_by_rule f (suc (suc (suc (suc (suc (suc zero)))))) h = omega arith
until_by_rule f (suc (suc (suc (suc (suc (suc (suc zero))))))) h = omega arith
until_by_rule f (suc (suc (suc (suc (suc (suc (suc (suc zero)))))))) h = omega arith
until_by_rule f (suc (suc (suc (suc (suc (suc (suc (suc (suc zero))))))))) h = omega arith
until_by_rule f (suc (suc (suc (suc (suc (suc (suc (suc (suc (suc zero)))))))))) h = omega arith
until_by_rule f (suc (suc (suc (suc (suc (suc (suc (suc (suc (suc (suc zero))))))))))) h =
    omega arith
until_by_rule f (suc (suc (suc (suc (suc (suc (suc (suc (suc (suc (suc (suc m)))))))))))) h =
    absurd (omega arith)

year_length_lem : (y : ℕ) → 1 ≤ y → year_length y ≡ days_in_year y
year_length_lem y h = omega (arith, before_next y h)

month_length_lem :
    (y m : ℕ)
    → 1 ≤ y
    → m < 12
    → month_length (month_lengths y) m ≡ month_rule (year_length y) (1 + m)
month_length_lem y m h l = rw (year_length_lem y h) (elim (Bool-cases (is_leap_year y)) [
  | inl e ↦ rw e (length_by_rule 29 m l)
  | inr e ↦ rw e (length_by_rule 28 m l)
])

before_month_lem :
    (y m : ℕ)
    → 1 ≤ y
    → m < 12
    → days_before_month (month_lengths y) m ≡ days_of_months (year_length y) m
before_month_lem y m h l = rw (year_length_lem y h) (elim (Bool-cases (is_leap_year y)) [
  | inl e ↦ rw e (until_by_rule 29 m l)
  | inr e ↦ rw e (until_by_rule 28 m l)
])

sum_months : (year : ℕ) → sum (month_lengths year) ≡ days_in_year year
sum_months year = elim (Bool-cases (is_leap_year year)) [ inl e ↦ rw e refl | inr e ↦ rw e refl ]

twelve_months : (year : ℕ) → length (month_lengths year) ≡ 12
twelve_months year = elim (Bool-cases (is_leap_year year)) [ inl e ↦ rw e refl | inr e ↦ rw e refl ]

month_stamp :
    (secs year days m d : ℕ)
    → find_month (month_lengths year) 1 days ≡ (1 + m, d)
    → days_before_year 1970 + secs / 86400 ≡ days_before_year year + days
    → days ≡ days_before_month (month_lengths year) m + d
    → d < month_length (month_lengths year) m
    → m < 12
    → 1 ≤ year
    → IsStampOf secs (stamp_of secs (year, days))
month_stamp secs year days m d e same split within before after = rw e (record {
  date =
      let m' : 1 + m - 1 ≡ m = omega arith in
      let d' : d + 1 - 1 ≡ d = omega arith in
      rw (m', d', ← before_month_lem year m after before) (date_sum _ _ _ _ _ same split);
  time = omega arith;
  month_range = (omega arith, omega arith);
  day_range = (omega arith, rw (← month_length_lem year m after before) (omega arith));
  time_range = (omega arith, omega arith, omega arith);
})
  where
    date_sum : (s b c n r : ℕ) → s ≡ b + n → n ≡ c + r → s ≡ b + c + r
    date_sum s b c n r p q = omega arith

-- For every second before 2 ^ 56 the loops end, and the stamp is the Gregorian date and the time of
-- day of that second.
pub stamp_lem : (secs : ℕ) → secs < 2 ^ 56 → (t : Stamp) × (stamp secs ≡ some t) × IsStampOf secs t
unfolding stamp
stamp_lem secs h =
    let days = secs / 86400 in
    let found =
      find_year-InYear (years_fuel days) 1970 days (omega arith) (omega arith) (omega arith) in
    let (m, d, month, split, within, before) =
      find_month_lem (month_lengths found.year) 1 found.left
        (rw (sum_months found.year) found.within) in
    (
      stamp_of secs (found.year, found.left),
      rw (found.is_found) refl,
      month_stamp secs found.year found.left m d month found.same split within
          (rw (← twelve_months found.year) before) (omega (arith, found.after)),
    )

-- Different seconds have different stamps.
stamp_injective : (s t : ℕ) → s < 2 ^ 56 → t < 2 ^ 56 → stamp s ≡ stamp t → s ≡ t
stamp_injective s t h k e =
    let (a, found, of_s) = stamp_lem s h in
    let (b, found', of_t) = stamp_lem t k in
    let same : a ≡ b = cc (found, found', e) in both s t a of_s (rw same of_t)
  where
    both : (u v : ℕ) (x : Stamp) → IsStampOf u x → IsStampOf v x → u ≡ v
    both u v x p q =
        let days : u / 86400 ≡ v / 86400 = omega (arith, p.date, q.date) in
        omega (arith, days, p.time, q.time)
