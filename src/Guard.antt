-- ===== src/Guard.antt =====
-- The guard of closed months: backend/app/services/financial_period_guard.py. `Bounds` has the
-- arithmetic of months, `Closed` what the guard lets through.
use mathlib.Core.List
use finspace.Common.{
  ℕ, ◌+◌, ◌-◌, Bool, true, false, Option, none, some, List, [], ◌∷◌, ◌++◌, ◌==◌, if◌then◌else◌,
  filter, find,
}
use finspace.Common.Result.{Result, ok, err, ◌>>=◌, api_error, month_closed}
use finspace.Calendar.{Date, date, make_date, day_before, date_leb, date_ltb}
use finspace.Model.{MonthCloseControl, Runtime}
use finspace.Model.Store.{Store}
pub mod Bounds
pub mod Closed

unfoldable pub next_month : Date → Result Date
unfolding make_date
next_month period =
    if period.month == 12
    then make_date (period.year + 1) 1 1
    else make_date period.year (period.month + 1) 1

unfoldable pub previous_month : Date → Result Date
unfolding make_date
previous_month period =
    if period.month == 1
    then make_date (period.year - 1) 12 1
    else make_date period.year (period.month - 1) 1

unfoldable pub month_end : Date → Result Date
unfolding next_month day_before
month_end period = next_month period >>= day_before

-- The instants at which a month begins and ends in a zone.
unfoldable pub period_bounds : Runtime → Date → ℕ → Result (ℕ × ℕ)
unfolding next_month
period_bounds rt period timezone = next_month period >>= λ following.
    ok (rt.midnight timezone period, rt.midnight timezone following)

-- The row of the workspace, which is inserted if there is none.
unfoldable pub get_or_create_control : ℕ → Store → MonthCloseControl × Store
get_or_create_control workspace s = elim (find (λ c. c.workspace_id == workspace) s.controls) [
  | some control ↦ (control, s)
  | none ↦ (
    record {
      workspace_id = workspace;
      closed_through = none;
      require_healthy_backup = false;
      version = 1;
    },
    record s {
      controls =
          s.controls
          ++ (record {
            workspace_id = workspace;
            closed_through = none;
            require_healthy_backup = false;
            version = 1;
          })
            ∷ [];
    },
  )
]

-- `datetime | date`
pub data When : Type 0 where
  instant : ℕ → When
  local : Date → When

unfoldable pub local_date_of : Runtime → ℕ → When → Date
local_date_of rt timezone (instant t) = rt.local_date timezone t
local_date_of rt timezone (local d) = d

-- `sorted({...})`: insertion into a sorted list without repetition.
unfoldable pub insert_date : Date → List Date → List Date
insert_date d [] = d ∷ []
insert_date d (e ∷ es) =
    if date_ltb d e then d ∷ e ∷ es else if date_ltb e d then e ∷ insert_date d es else e ∷ es

unfoldable pub sorted_dates : List Date → List Date
unfolding insert_date
sorted_dates [] = []
sorted_dates (d ∷ ds) = insert_date d (sorted_dates ds)

-- `[item for item in local_dates if item <= control.closed_through]`, with the early return.
abbrev pub closed_in : Option Date → List Date → List Date
closed_in none ds = []
closed_in (some through) ds = filter (λ d. date_leb d through) ds

unfoldable pub closed_dates : Runtime → MonthCloseControl → ℕ → List When → List Date
unfolding sorted_dates local_date_of
closed_dates rt control timezone affected =
    closed_in control.closed_through (sorted_dates (List.map (local_date_of rt timezone) affected))

abbrev pub raise_closed : List Date → Result (Unit {0})
raise_closed [] = ok tt
raise_closed (d ∷ ds) = err (api_error 409 month_closed)

unfoldable pub assert_dates_open : Runtime → MonthCloseControl → ℕ → List When → Result (Unit {0})
unfolding closed_dates
assert_dates_open rt control timezone affected =
    raise_closed (closed_dates rt control timezone affected)
