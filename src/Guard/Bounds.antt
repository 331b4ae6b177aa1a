-- ===== src/Guard/Bounds.antt =====
-- The months of the guard: `next_month`, `previous_month` and `month_end` agree.
use finspace.Common.{ℕ, ◌+◌, ◌≤◌, ◌<◌, ◌≡◌, refl, ◌⊎◌, arith}
use finspace.Common.Result.{ok}
use finspace.Calendar.{Date, date, days_in_month}
use finspace.Calendar.Order.{IsDate}
use finspace.Guard.{next_month, previous_month, month_end}

pub days_in_month_bounds : (y m : ℕ) → (28 ≤ days_in_month y m) × (days_in_month y m ≤ 31)
unfolding days_in_month
days_in_month_bounds y m = ground arith

december : (y : ℕ) → days_in_month y 12 ≡ 31
unfolding days_in_month
december y = refl

-- The first day of a month is the month before that of the next one.
pub previous_month-next_month :
    (y m : ℕ) (following : Date)
    → IsDate (date y m 1)
    → next_month (date y m 1) ≡ ok following
    → IsDate following × (previous_month following ≡ ok (date y m 1))
unfolding next_month previous_month
previous_month-next_month y m following v h = ground (
  arith,
  days_in_month_bounds y m,
  days_in_month_bounds y (m + 1),
  days_in_month_bounds (y + 1) 1,
)

-- The end of a month is its last day, whatever day of the month it is asked for. It fails
-- only in the last month of the calendar.
pub month_end_lem :
    (t : Date)
    → IsDate t
    → (t.year < 9999) ⊎ (t.month < 12)
    → month_end t ≡ ok (date t.year t.month (days_in_month t.year t.month))
unfolding month_end
month_end_lem t v h = ground (
  arith,
  december t.year,
  days_in_month_bounds t.year (t.month + 1),
  days_in_month_bounds (t.year + 1) 1,
)
