-- ===== src/Calendar.antt =====
-- The `date` of Python's standard library, as far as the backend uses it: the fields, the checks
-- of the constructor, comparison, and the neighbouring days. A `ValueError` or `OverflowError` of
-- the library, which no service catches, is the error that an unhandled exception becomes
-- (backend/app/core/errors.py).
use finspace.Common.{
  ℕ, ◌+◌, ◌-◌, ◌*◌, ◌/◌, zero, suc, ◌%◌, Bool, true, false, ◌&&◌, ◌||◌, not, ltb, leb, ◌==◌,
  if◌then◌else◌,
}
use finspace.Common.Result.{Result, ok, err, api_error, internal_error}
pub mod Order

-- `date` in Python, with its three attributes.
pub record Date : Type 0 where
  pub year : ℕ
  pub month : ℕ
  pub day : ℕ

-- A date from its attributes, unchecked.
abbrev pub date : ℕ → ℕ → ℕ → Date
date year month day = record { day = day; month = month; year = year }

-- Every fourth year, of the full centuries only every fourth.
unfoldable pub is_leap : ℕ → Bool
is_leap year = (year % 400 == 0) || (year % 4 == 0) && not (year % 100 == 0)

-- `monthrange(year, month)[1]`
unfoldable pub days_in_month : ℕ → ℕ → ℕ
unfolding is_leap
days_in_month y m =
    if m == 4 || m == 6 || m == 9 || m == 11
    then 30
    else if m == 2
    then (if is_leap y then 29 else 28)
    else 31

-- `date(year, month, day)` with its checks.
unfoldable pub make_date : ℕ → ℕ → ℕ → Result Date
make_date y m d =
    if leb 1 y && leb y 9999 && leb 1 m && leb m 12 && leb 1 d && leb d (days_in_month y m)
    then ok (date y m d)
    else err (api_error 500 internal_error)

-- `d - timedelta(days=1)`
unfoldable pub day_before : Date → Result Date
day_before t =
    if ltb 1 t.day
    then ok (record t { day = t.day - 1 })
    else if ltb 1 t.month
    then ok (date t.year (t.month - 1) (days_in_month t.year (t.month - 1)))
    else if ltb 1 t.year
    then ok (date (t.year - 1) 12 31)
    else err (api_error 500 internal_error)

-- `a <= b` and `a < b` on dates.
abbrev pub date_leb : Date → Date → Bool
date_leb a b =
    ltb a.year b.year
    || ((a.year == b.year) && (ltb a.month b.month || ((a.month == b.month) && leb a.day b.day)))

abbrev pub date_ltb : Date → Date → Bool
date_ltb a b =
    ltb a.year b.year
    || ((a.year == b.year) && (ltb a.month b.month || ((a.month == b.month) && ltb a.day b.day)))

-- `d + timedelta(days=1)`
unfoldable pub day_after : Date → Result Date
unfolding make_date
day_after t =
    let following = t.day + 1 in
    if leb following (days_in_month t.year t.month)
    then ok (date t.year t.month following)
    else if t.month == 12
    then make_date (t.year + 1) 1 1
    else make_date t.year (t.month + 1) 1

-- The leap years among the first ones.
abbrev pub leap_years : ℕ → ℕ
leap_years years = years / 4 + years / 400 - years / 100

-- The days of the first months of a year.
unfoldable pub length_of_months : ℕ → ℕ → ℕ
length_of_months year zero = 0
length_of_months year (suc months) = length_of_months year months + days_in_month year (suc months)

-- `d.toordinal()`, by which dates are subtracted.
unfoldable pub to_ordinal : Date → ℕ
unfolding length_of_months
to_ordinal d =
    leap_years (d.year - 1) + 365 * (d.year - 1) + length_of_months d.year (d.month - 1) + d.day

-- `d.weekday()`, from 0 for Monday.
unfoldable pub weekday : Date → ℕ
unfolding to_ordinal
weekday d = (to_ordinal d + 6) % 7
