-- ===== src/Calendar/Order.antt =====
-- The order of dates: laws of the comparisons in Calendar.antt, and the dates of the calendar.
use finspace.Common.{◌≡◌, ◌≤◌, true, false, arith}
use finspace.Calendar.{Date, days_in_month, date_leb, date_ltb}

pub record IsDate (d : Date) : Type 0 where
  pub first_year : 1 ≤ d.year
  pub last_year : d.year ≤ 9999
  pub first_month : 1 ≤ d.month
  pub last_month : d.month ≤ 12
  pub first_day : 1 ≤ d.day
  pub last_day : d.day ≤ days_in_month d.year d.month

pub date_leb_trans :
    (a b c : Date) → date_leb a b ≡ true → date_leb b c ≡ true → date_leb a c ≡ true
date_leb_trans a b c h k = ground arith

pub date_leb_antisymm : (a b : Date) → date_leb a b ≡ true → date_leb b a ≡ true → a ≡ b
date_leb_antisymm a b h k = ground arith

-- Exactly one of `a <= b` and `b < a` holds.
pub date_ltb_of_not_leb : (a b : Date) → date_leb a b ≡ false → date_ltb b a ≡ true
date_ltb_of_not_leb a b h = ground arith
