-- ===== src/Tests/Periods.antt =====
-- Runs of the period guard.
use finspace.Common.{
  false, ◌&&◌, not, any, ◌≡◌, ◌↔◌, refl, true, all, some, List, [], ◌∷◌, inl, arith,
}
use mathlib.Core.List
use finspace.Common.Result.{ok}
use finspace.Calendar.{Date, date, days_in_month}
use finspace.Calendar.Order.{IsDate}
use finspace.Model.{MonthCloseControl}
use finspace.Guard.{
  next_month, previous_month, month_end, When, instant, local, local_date_of, closed_dates,
  assert_dates_open,
}
use finspace.Guard.Bounds.{previous_month-next_month, month_end_lem}
use finspace.Guard.Closed.{IsAscending, is_date, is_open, closed_dates_lem, assert_dates_open-eq-ok}
use finspace.Tests.Fixture.{runtime}

abbrev closed_february : MonthCloseControl
closed_february = record {
  workspace_id = 1;
  closed_through = some (date 2024 2 29);
  require_healthy_backup = false;
  version = 1;
}

abbrev asked : List When
asked = instant 240301 ∷ local (date 2024 2 29) ∷ instant 240105 ∷ local (date 2024 1 5) ∷ []

-- The open date is left out, and the date that is asked for twice is reported once.
closed_dates_run :
    closed_dates runtime closed_february 0 asked ≡ date 2024 1 5 ∷ date 2024 2 29 ∷ []
unfolding closed_dates
closed_dates_run = refl

closed_dates_lem_example :
    IsAscending (closed_dates runtime closed_february 0 asked)
    × ((d : Date)
        → any (is_date d) (closed_dates runtime closed_february 0 asked) ≡ (
            any (is_date d) (List.map (local_date_of runtime 0) asked)
            && not (is_open (some (date 2024 2 29)) d)))
closed_dates_lem_example = closed_dates_lem runtime closed_february 0 asked

assert_dates_open-eq-ok_example :
    (assert_dates_open runtime closed_february 0 asked ≡ ok tt)
    ↔ (all (is_open (some (date 2024 2 29))) (List.map (local_date_of runtime 0) asked) ≡ true)
assert_dates_open-eq-ok_example = assert_dates_open-eq-ok runtime closed_february 0 asked

previous_month-next_month_example :
    IsDate (date 2025 1 1) × (previous_month (date 2025 1 1) ≡ ok (date 2024 12 1))
unfolding next_month days_in_month
previous_month-next_month_example =
    previous_month-next_month 2024 12 (date 2025 1 1) (omega arith) refl

month_end_example : month_end (date 2024 2 1) ≡ ok (date 2024 2 (days_in_month 2024 2))
unfolding days_in_month
month_end_example = month_end_lem (date 2024 2 1) (omega arith) (inl (omega arith))
