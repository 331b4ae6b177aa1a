-- ===== src/MonthClose/Guarded.antt =====
-- Closed months and the guard of `assert_dates_open`, which reads the control alone.
use mathlib.Core.List
use finspace.Common.{
  ◌≡◌, refl, ◌∙◌, true, false, Option, none, some, ◌∷◌, [], all, All, List, arith,
}
use finspace.Common.Result.{ok}
use finspace.Calendar.{Date}
use finspace.Calendar.Order.{IsDate}
use finspace.Model.{Runtime, Context}
use finspace.Model.Store.{Store}
use finspace.Guard.{When, local_date_of, assert_dates_open}
use finspace.Guard.Closed.{is_open, assert_dates_open-eq-ok}
use finspace.MonthClose.Run.{month_number, Run, in_run, Ends, closed_month, Represents}
use finspace.MonthClose.Outcome.{control_of}

-- A date past the last closed day is in no closed month.
is_open-in_run :
    (through : Option Date) (run : Run) (d : Date)
    → Ends through run
    → IsDate d
    → is_open through d ≡ true
    → in_run run (month_number d) ≡ false
is_open-in_run through none d ends v h = refl
is_open-in_run none (some (first, last)) d ends v h = absurd ends
is_open-in_run (some t) (some (first, last)) d ends v h =
    ground (arith, v.last_day, v.first_month, v.last_month)

all_open :
    (c : Context) (s : Store) (run : Run) (ds : List Date)
    → Represents c.workspace_id s run
    → All IsDate ds
    → all (is_open (control_of c s).closed_through) ds ≡ true
    → All (λ d. closed_month c.workspace_id (month_number d) s.closures ≡ false) ds
all_open c s run [] r v h = tt
all_open c s run (d ∷ ds) r v h = (
  r.closed_months (month_number d)
      ∙ is_open-in_run (control_of c s).closed_through run d r.ends v.0 (ground arith),
  all_open c s run ds r v.1 (ground arith),
)

-- While the closures and the control stand for a run of closed months, a request that the guard
-- lets through touches no closed month: none of its dates, in the zone of the workspace, is in a
-- month with a confirmed closure. The time zone gives dates of the calendar.
pub assert_dates_open-closed_month :
    (rt : Runtime) (c : Context) (s : Store) (run : Run) (affected : List When)
    → Represents c.workspace_id s run
    → All IsDate (List.map (local_date_of rt c.timezone) affected)
    → assert_dates_open rt (control_of c s) c.timezone affected ≡ ok tt
    → All
        (λ d. closed_month c.workspace_id (month_number d) s.closures ≡ false)
        (List.map (local_date_of rt c.timezone) affected)
assert_dates_open-closed_month rt c s run affected r v h =
    all_open c s run _ r v ((assert_dates_open-eq-ok rt (control_of c s) c.timezone affected).0 h)
