-- ===== src/MonthClose/Stands.antt =====
-- The tables of a request in progress, seen abstractly, and what the writes of month closing do to
-- the run of closed months.
use finspace.Common.{
  ℕ, ◌+◌, ◌≤◌, ◌≡◌, ==_iff, refl, sym, subst, true, false, Option, none, some, List, [], ◌∷◌, ◌++◌,
  ◌==◌, if◌then◌else◌, arith, find, find_sound, find-append_none, Bool-cases, Option-cases, inl,
  inr, ◌⊎◌,
}
use finspace.Common.Result.{ok, Result-cases}
use finspace.Calendar.{Date, date}
use finspace.Model.{MonthCloseControl}
use finspace.Model.Closures.{MonthClosure, MonthCloseRevision}
use finspace.Model.Store.{Store}
use finspace.Guard.{next_month, get_or_create_control}
use finspace.MonthClose.Issues.{is_out_of_sequence, has_sequence_issue}
use finspace.MonthClose.{find_closure, put_closure, put_control, moved_control, write_close}
use finspace.MonthClose.Run.{month_number, Run, in_run, closed_month, IsTable, Ends, Represents}
use finspace.MonthClose.Keys.{put_closure-IsTable}
use finspace.MonthClose.Months.{next_month_number}

abbrev pub new_control : ℕ → MonthCloseControl
new_control workspace = record {
  workspace_id = workspace;
  closed_through = none;
  require_healthy_backup = false;
  version = 1;
}

-- The same of the control and the tables that a request begins with.
pub record Stands (workspace : ℕ) (control : MonthCloseControl) (s : Store) (run : Run)
    : Type 0 where
  pub table : IsTable s.closures
  pub closed_months : (n : ℕ) → closed_month workspace n s.closures ≡ in_run run n
  pub ends : Ends control.closed_through run
  pub own : control.workspace_id ≡ workspace
  pub present : find (λ k. k.workspace_id == workspace) s.controls ≡ some control

pub begins :
    (workspace : ℕ) (s : Store) (run : Run)
    → Represents workspace s run
    → Stands workspace
        (get_or_create_control workspace s).0
        (get_or_create_control workspace s).1
        run
unfolding get_or_create_control
begins workspace s run r =
    elim (Option-cases (find (λ k. k.workspace_id == workspace) s.controls)) [
      | inl missing ↦
          let k : MonthCloseControl = new_control workspace in
          let whole : get_or_create_control workspace s
              ≡ (k, record s { controls = s.controls ++ k ∷ [] }) =
            ground arith in
          subst (λ p. Ends p.0.closed_through run → Stands workspace p.0 p.1 run) (sym whole)
            (λ ends. record {
              table = r.table;
              closed_months = r.closed_months;
              ends = ends;
              own = refl;
              present =
                  find-append_none _ s.controls k missing ((==_iff workspace workspace).1 refl);
            })
            r.ends
      | inr (k, e) ↦
          let whole : get_or_create_control workspace s ≡ (k, s) = ground arith in
          let tested = find_sound _ s.controls k e in
          subst (λ p. Ends p.0.closed_through run → Stands workspace p.0 p.1 run) (sym whole)
            (λ ends. record {
              table = r.table;
              closed_months = r.closed_months;
              ends = ends;
              own = (==_iff k.workspace_id workspace).0 tested;
              present = e;
            })
            r.ends
    ]

pub represents :
    (workspace : ℕ) (control : MonthCloseControl) (s : Store) (run : Run)
    → Stands workspace control s run
    → Represents workspace s run
unfolding get_or_create_control
represents workspace control s run r =
    let whole : get_or_create_control workspace s ≡ (control, s) = ground (arith, r.present) in
    record {
      table = r.table;
      closed_months = r.closed_months;
      ends = subst (λ p. Ends p.0.closed_through run) (sym whole) r.ends;
    }

pub find-put_control :
    (workspace : ℕ) (k after : MonthCloseControl) (ks : List MonthCloseControl)
    → after.workspace_id ≡ workspace
    → find (λ l. l.workspace_id == workspace) ks ≡ some k
    → find (λ l. l.workspace_id == workspace) (put_control after ks) ≡ some after
unfolding put_control
find-put_control workspace k after [] own e = cc
find-put_control workspace k after (l ∷ ls) own e =
    elim (Bool-cases (l.workspace_id == workspace)) [
      | inl here ↦ ground arith
      | inr later ↦
          let rest = find-put_control workspace k after ls own (rw later at e) in ground arith
    ]

-- What `confirm` and `reopen` write, seen abstractly.
pub write_close-Stands :
    (workspace : ℕ) (period : Date) (control : MonthCloseControl) (s : Store) (run next : Run)
    (m after : MonthClosure) (through : Option Date) (revisions : List MonthCloseRevision)
    → Stands workspace control s run
    → find_closure workspace period s.closures ≡ some m
    → after.id ≡ m.id
    → after.workspace_id ≡ m.workspace_id
    → after.period_month ≡ m.period_month
    → ((n : ℕ) → closed_month workspace n (put_closure after s.closures) ≡ in_run next n)
    → Ends through next
    → Stands workspace
        (moved_control through control)
        (write_close after (moved_control through control) revisions s)
        next
write_close-Stands workspace period control s run next m after through revisions r e id own same
      closed ends =
    record {
      table = put_closure-IsTable workspace period m after s.closures r.table e id own same;
      closed_months = closed;
      ends = ends;
      own = r.own;
      present =
          find-put_control workspace control (moved_control through control) s.controls r.own
            r.present;
    }

-- A confirmed closure that is put for a month of no closed run begins one.
pub begin_run :
    (n number : ℕ) → (if number == n then true else false) ≡ in_run (some (number, number)) n
begin_run n number = ground arith

pub extend_run :
    (first last n : ℕ)
    → first ≤ last
    → (if last + 1 == n then true else in_run (some (first, last)) n)
      ≡ in_run (some (first, last + 1)) n
extend_run first last n h = ground arith

pub shrink_run :
    (first last n : ℕ)
    → first ≤ last
    → (if last + 1 == n then false else in_run (some (first, last + 1)) n)
      ≡ in_run (some (first, last)) n
shrink_run first last n h = ground arith

pub clear_run :
    (last n : ℕ) → (if last == n then false else in_run (some (last, last)) n) ≡ in_run none n
clear_run last n = ground arith

-- The sequence check lets a month through where no month is closed, or the month after the last.
pub sequence_passed :
    (workspace : ℕ) (control : MonthCloseControl) (period : Date) (s : Store) (run : Run)
    → Stands workspace control s run
    → has_sequence_issue workspace control period s.closures ≡ ok false
    → (run ≡ none)
      ⊎ ((first : ℕ) × (last : ℕ) × (run ≡ some (first, last)) × (month_number period ≡ last + 1))
unfolding has_sequence_issue is_out_of_sequence
sequence_passed workspace control period s none r h = inl refl
sequence_passed workspace control period s (some (first, last)) r h =
    elim (Option-cases control.closed_through) [
      | inl never ↦ absurd (subst (λ o. Ends o (some (first, last))) never r.ends)
      | inr (through, e) ↦
          let ends = subst (λ o. Ends o (some (first, last))) e r.ends in
          elim (Result-cases (next_month (date through.year through.month 1))) [
            | inr (x, failed) ↦ absurd (ground arith)
            | inl (expected, f) ↦
                let number =
                  next_month_number through.year through.month expected ends.3 ends.4 f in
                inr (first, last, refl, ground (arith, number, ends.1))
          ]
    ]
