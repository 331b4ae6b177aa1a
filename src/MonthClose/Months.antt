-- ===== src/MonthClose/Months.antt =====
-- The months of the services, by their numbers.
use finspace.Common.{ℕ, ◌+◌, ◌*◌, ◌≤◌, ◌≡◌, arith, inl}
use finspace.Common.Result.{ok}
use finspace.Calendar.{Date, date, days_in_month}
use finspace.Calendar.Order.{IsDate}
use finspace.Guard.{next_month, previous_month, month_end}
use finspace.Guard.Bounds.{days_in_month_bounds, month_end_lem}
use finspace.MonthClose.{period_date}
use finspace.MonthClose.Run.{month_number, IsMonth}

pub IsMonth-IsDate : (d : Date) → IsMonth d → IsDate d
IsMonth-IsDate d v = ground (arith, days_in_month_bounds d.year d.month)

-- A period that a request names is a month.
pub period_date-IsMonth : (y m : ℕ) (d : Date) → period_date y m ≡ ok d → IsMonth d
unfolding period_date
period_date-IsMonth y m d h = ground arith

-- The last day of a month is that of its calendar page.
pub month_end-IsMonth :
    (d : Date) → IsMonth d → month_end d ≡ ok (date d.year d.month (days_in_month d.year d.month))
month_end-IsMonth d v = month_end_lem d (IsMonth-IsDate d v) (inl (omega arith))

-- The number of the month after the one of a day.
pub next_month_number :
    (y m : ℕ) (e : Date)
    → 1 ≤ m
    → m ≤ 12
    → next_month (date y m 1) ≡ ok e
    → month_number e ≡ y * 12 + m + 1
unfolding next_month
next_month_number y m e a b h = ground arith

pub previous_month_number :
    (d e : Date)
    → IsMonth d
    → previous_month d ≡ ok e
    → (month_number e + 1 ≡ month_number d)
      × (e.day ≡ 1)
      × (1 ≤ e.month)
      × (e.month ≤ 12)
      × (1999 ≤ e.year)
      × (e.year ≤ 2200)
unfolding previous_month
previous_month_number d e v h = ground arith
