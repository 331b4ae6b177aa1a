-- ===== src/MonthClose/Run.antt =====
-- The abstract view of the closed months: none, or all months from a first to a last one; and the
-- closures and the control that stand for it.
use finspace.Common.{
  ℕ, ◌+◌, ◌*◌, ◌≤◌, ◌≡◌, Bool, false, Option, none, some, List, [], ◌∷◌, ◌&&◌, ◌==◌, leb, any, All,
}
use finspace.Calendar.{Date, days_in_month}
use finspace.Model.Closures.{MonthClosure, is_confirmed}
use finspace.Model.Store.{Store}
use finspace.Guard.{get_or_create_control}
use finspace.MonthClose.{same_date}

abbrev pub month_number : Date → ℕ
month_number d = d.year * 12 + d.month

-- The closed months, as numbers: the first and the last.
abbrev pub Run : Type 0
Run = Option (ℕ × ℕ)

abbrev pub in_run : Run → ℕ → Bool
in_run none n = false
in_run (some (first, last)) n = leb first n && leb n last

-- What one request may do to the closed months.
pub data Step (a b : Run) : Type 0 where
  stay : b ≡ a → Step a b
  begin : (n : ℕ) → a ≡ none → b ≡ some (n, n) → Step a b
  extend : (first last : ℕ) → a ≡ some (first, last) → b ≡ some (first, last + 1) → Step a b
  shrink :
      (first last : ℕ)
      → first ≤ last
      → a ≡ some (first, last + 1)
      → b ≡ some (first, last)
      → Step a b
  clear : (n : ℕ) → a ≡ some (n, n) → b ≡ none → Step a b

-- A month of `period_date`.
pub record IsMonth (d : Date) : Type 0 where
  pub first_day : d.day ≡ 1
  pub first_month : 1 ≤ d.month
  pub last_month : d.month ≤ 12
  pub first_year : 2000 ≤ d.year
  pub last_year : d.year ≤ 2200

-- A workspace's confirmed closure of a month, by its number.
abbrev pub closes : ℕ → ℕ → MonthClosure → Bool
closes workspace n m =
    (m.workspace_id == workspace) && is_confirmed m.status && (month_number m.period_month == n)

abbrev pub closed_month : ℕ → ℕ → List MonthClosure → Bool
closed_month workspace n ms = any (closes workspace n) ms

-- No primary key stands twice, and no workspace has two rows for a month.
abbrev pub IsKeyed : List MonthClosure → Type 0
IsKeyed [] = Unit
IsKeyed (m ∷ ms) =
    All
      (λ n.
        ((n.id == m.id) ≡ false)
        × (((n.workspace_id == m.workspace_id) && same_date n.period_month m.period_month) ≡ false))
      ms
    × IsKeyed ms

-- The table of closures is keyed, and its periods are months.
pub record IsTable (ms : List MonthClosure) : Type 0 where
  pub keyed : IsKeyed ms
  pub months : All (λ m. IsMonth m.period_month) ms

-- The last closed day is that of the last month.
abbrev pub Ends : Option Date → Run → Type 0
Ends none none = Unit
Ends (some d) (some (first, last)) =
    (first ≤ last)
    × (month_number d ≡ last)
    × (d.day ≡ days_in_month d.year d.month)
    × (1 ≤ d.month)
    × (d.month ≤ 12)
    × (2000 ≤ d.year)
    × (d.year ≤ 2200)
Ends _ _ = ⊥

pub record Represents (workspace : ℕ) (s : Store) (run : Run) : Type 0 where
  pub table : IsTable s.closures
  pub closed_months : (n : ℕ) → closed_month workspace n s.closures ≡ in_run run n
  pub ends : Ends (get_or_create_control workspace s).0.closed_through run
