-- ===== src/MonthClose/Moves.antt =====
-- The requests on a month, past their checks, as steps of the abstract run of closed months.
use finspace.Common.{
  ℕ, ◌+◌, ◌≤◌, ◌≡◌, ==_iff, refl, sym, ap, ◌∙◌, subst, Bool, true, false, Option, none, some, List,
  [], ◌∷◌, ◌==◌, if◌then◌else◌, arith, find, All, Bool-cases, inl, inr, ◌⊎◌,
}
use finspace.Common.Result.{ok, Result-cases}
use finspace.Calendar.{Date, date, days_in_month}
use finspace.Model.{MonthCloseControl, Runtime, Context}
use finspace.Model.Closures.{MonthClosure, is_confirmed}
use finspace.Model.Store.{Store, record_audit}
use finspace.Guard.{previous_month, month_end}
use finspace.MonthClose.Issues.{Evidence}
use finspace.MonthClose.{
  Hashing, find_closure, put_closure, confirmed_closure, moved_control, save_confirmed,
  ConfirmRequest, reopened_closure, save_reopened, has_confirmed, reopened_through,
  is_closed_through, put_control,
}
use finspace.MonthClose.Run.{
  month_number, Run, in_run, Step, begin, extend, shrink, clear, IsMonth, closes, closed_month,
  IsTable, Ends, Represents,
}
use finspace.MonthClose.Table.{
  closed_month-put_closure, closed_month-found, has_confirmed-closed_month,
}
use finspace.MonthClose.Months.{month_end-IsMonth, previous_month_number}
use finspace.MonthClose.Stands.{
  Stands, represents, write_close-Stands, begin_run, extend_run, shrink_run, clear_run,
  sequence_passed,
}
use finspace.MonthClose.Outcome.{Confirmed, Reopened}

-- A step of the closed months that a store stands for.
unfoldable pub Steps : ℕ → Run → Store → Type 0
Steps workspace run s = (next : Run) × Step run next × Represents workspace s next

pub same_run :
    (workspace n : ℕ) (period : Date) (m : MonthClosure) (status : Bool) (s : Store) (run : Run)
    → IsTable s.closures
    → ((k : ℕ) → closed_month workspace k s.closures ≡ in_run run k)
    → IsMonth period
    → find_closure workspace period s.closures ≡ some m
    → is_confirmed m.status ≡ false
    → status ≡ false
    → (if month_number period == n then status else closed_month workspace n s.closures)
      ≡ in_run run n
same_run workspace n period m status s run table closed v e out other =
    let now = closed_month-found workspace period m s.closures table v e in
    elim (Bool-cases (month_number period == n)) [
      | inl here ↦
          let it : month_number period ≡ n = (==_iff (month_number period) n).0 here in
          let open_before : closed_month workspace n s.closures ≡ false = rw it at (now ∙ out) in
          rw (here, other) (sym open_before ∙ closed n)
      | inr elsewhere ↦ rw elsewhere (closed n)
    ]

-- A write of a closure and of the control that makes a step.
write_moves :
    (workspace : ℕ) (period : Date) (control : MonthCloseControl) (m after : MonthClosure)
    (s t : Store) (run next : Run) (through : Option Date)
    → Stands workspace control s run
    → IsMonth period
    → find_closure workspace period s.closures ≡ some m
    → after.id ≡ m.id
    → after.workspace_id ≡ m.workspace_id
    → after.period_month ≡ m.period_month
    → Step run next
    → ((n : ℕ)
        → (if month_number period == n
            then is_confirmed after.status
            else closed_month workspace n s.closures)
          ≡ in_run next n)
    → Ends through next
    → t.closures ≡ put_closure after s.closures
    → t.controls ≡ put_control (moved_control through control) s.controls
    → Steps workspace run t
unfolding Steps
write_moves workspace period control m after s t run next through r v e id own same step closed ends
      rows kept =
    let w =
      write_close-Stands workspace period control s run next m after through [] r e id own same
        (λ n.
          closed_month-put_closure workspace n period m after s.closures r.table v e id own same
          ∙ closed n)
        ends in
    (
      next,
      step,
      represents workspace (moved_control through control) t next (record {
        table = subst IsTable (sym rows) w.table;
        closed_months = λ n. ap (closed_month workspace n) rows ∙ w.closed_months n;
        ends = w.ends;
        own = w.own;
        present = ap (find (λ k. k.workspace_id == workspace)) kept ∙ w.present;
      }),
    )

-- The last day of a month ends a run that ends in it.
month_end-Ends :
    (period through : Date) (first : ℕ)
    → IsMonth period
    → month_end period ≡ ok through
    → first ≤ month_number period
    → Ends (some through) (some (first, month_number period))
month_end-Ends period through first v ended h = ground (arith, month_end-IsMonth period v)

run_ordered :
    (through : Option Date) (first last : ℕ) → Ends through (some (first, last)) → first ≤ last
run_ordered none first last h = absurd h
run_ordered (some d) first last h = h.0

pub confirm-Steps :
    (rt : Runtime) (h : Hashing) (c : Context) (period : Date) (request : ConfirmRequest)
    (key : List ℕ) (hash revision_id : ℕ) (e : Evidence) (control : MonthCloseControl)
    (m : MonthClosure) (s : Store) (run : Run) (r : MonthClosure × Store)
    → Stands c.workspace_id control s run
    → IsMonth period
    → find_closure c.workspace_id period s.closures ≡ some m
    → Confirmed rt h c period request key hash revision_id e control m s r
    → Steps c.workspace_id run r.1
unfolding save_confirmed confirmed_closure record_audit Steps
confirm-Steps rt h c period request key hash revision_id e control m s run r stands v found done =
    let after = confirmed_closure c revision_id done.preview m in
    let number = month_number period in
    let opened : (n : ℕ)
        → (if number == n then true else closed_month c.workspace_id n s.closures)
          ≡ (if number == n then true else in_run run n) =
      λ n. ap (λ b. if number == n then true else b) (stands.closed_months n) in
    subst (λ o. Steps c.workspace_id run o.1) (sym done.saved)
      (elim (sequence_passed c.workspace_id control period s run stands done.in_sequence) [
        | inl first ↦
            write_moves c.workspace_id period control m after s _ run (some (number, number))
              (some done.through) stands v found refl refl refl (begin number first refl)
              (λ n.
                opened n
                ∙ ap (λ a. if number == n then true else in_run a n) first
                ∙ begin_run n number)
              (month_end-Ends period done.through number v done.ended (omega arith)) refl refl
        | inr (first, last, before, following) ↦
            let range =
              run_ordered control.closed_through first last
                (subst (λ a. Ends control.closed_through a) before stands.ends) in
            write_moves c.workspace_id period control m after s _ run (some (first, last + 1))
              (some done.through) stands v found refl refl refl (extend first last before refl)
              (λ n.
                opened n
                ∙ ap (λ a. if number == n then true else in_run a n) before
                ∙ ap (λ k. if k == n then true else in_run (some (first, last)) n) following
                ∙ extend_run first last n range)
              (subst (λ k. Ends (some done.through) (some (first, k))) following
                (month_end-Ends period done.through first v done.ended (omega arith)))
              refl refl
      ])

period_last :
    (period last : Date)
    → IsMonth period
    → month_end period ≡ ok last
    → date period.year period.month (days_in_month period.year period.month) ≡ last
period_last period last v ended = ground (arith, month_end-IsMonth period v)

last_number :
    (through : Option Date) (day : Date) (first last : ℕ)
    → is_closed_through through day ≡ true
    → Ends through (some (first, last))
    → month_number day ≡ last
last_number none day first last h k = absurd k
last_number (some d) day first last h k = ground arith

-- A closed month is a month.
closed_month-IsMonth :
    (workspace n : ℕ) (ms : List MonthClosure)
    → All (λ m. IsMonth m.period_month) ms
    → closed_month workspace n ms ≡ true
    → (d : Date) × IsMonth d × (month_number d ≡ n)
closed_month-IsMonth workspace n [] h k = absurd (cc)
closed_month-IsMonth workspace n (m ∷ ms) h k = elim (Bool-cases (closes workspace n m)) [
  | inl here ↦ (m.period_month, h.0, ground arith)
  | inr later ↦ closed_month-IsMonth workspace n ms h.1 (rw later at k)
]

same_number :
    (d e : Date)
    → IsMonth d
    → e.day ≡ 1
    → 1 ≤ e.month
    → e.month ≤ 12
    → month_number d ≡ month_number e
    → IsMonth e
same_number d e v day low high h = ground arith

-- The last closed day after a reopening: that of the month before, if this is closed.
reopened_through_cases :
    (workspace : ℕ) (period : Date) (s : Store) (through : Option Date)
    → IsMonth period
    → All (λ m. IsMonth m.period_month) s.closures
    → reopened_through workspace period s.closures ≡ ok through
    → ((n : ℕ) × (month_number period ≡ n + 1)
        × (closed_month workspace n s.closures ≡ true)
        × ((first : ℕ) → first ≤ n → Ends through (some (first, n))))
      ⊎ ((n : ℕ) × (month_number period ≡ n + 1)
          × (closed_month workspace n s.closures ≡ false)
          × (through ≡ none))
unfolding reopened_through
reopened_through_cases workspace period s through v months h =
    elim (Result-cases (previous_month period)) [
      | inr (x, failed) ↦ absurd (ground arith)
      | inl (previous, e) ↦
          let (number, day, low, high, oldest, latest) =
            previous_month_number period previous v e in
          let asked =
            has_confirmed-closed_month workspace previous s.closures day low high months in
          elim (Bool-cases (has_confirmed workspace previous s.closures)) [
            | inr not_closed ↦
                inr (month_number previous, sym number, sym asked ∙ not_closed, ground arith)
            | inl closed ↦ elim (Result-cases (month_end previous)) [
              | inr (x, failed) ↦ absurd (ground arith)
              | inl (last, ended) ↦
                  let (d, w, same) =
                    closed_month-IsMonth workspace (month_number previous) s.closures months
                      (sym asked ∙ closed) in
                  let moved : some last ≡ through = ground arith in
                  inl (
                    month_number previous,
                    sym number,
                    sym asked ∙ closed,
                    λ first k.
                        subst (λ o. Ends o (some (first, month_number previous))) moved
                          (month_end-Ends previous last first
                            (same_number d previous w day low high same) ended k),
                  )
            ]
          ]
    ]

pub reopen-Steps :
    (c : Context) (period : Date) (version : ℕ) (reason key : List ℕ) (hash : ℕ)
    (control : MonthCloseControl) (m : MonthClosure) (s : Store) (run : Run)
    (r : MonthClosure × Store)
    → Stands c.workspace_id control s run
    → IsMonth period
    → find_closure c.workspace_id period s.closures ≡ some m
    → Reopened c period version reason key hash control m s r
    → Steps c.workspace_id run r.1
unfolding save_reopened reopened_closure record_audit
reopen-Steps c period version reason key hash control m s none r stands v found done =
    let row = closed_month-found c.workspace_id period m s.closures stands.table v found in
    absurd (cc (row, stands.closed_months (month_number period), done.confirmed))
reopen-Steps c period version reason key hash control m s (some (first, last)) r stands v found
      done =
    let range = run_ordered control.closed_through first last stands.ends in
    let final : month_number period ≡ last =
      ap month_number (period_last period done.last v done.ended)
      ∙ last_number control.closed_through done.last first last done.is_last stands.ends in
    let previous =
      reopened_through_cases c.workspace_id period s done.through v stands.table.months
        done.moved in
    subst (λ o. Steps c.workspace_id (some (first, last)) o.1) (sym done.saved)
      (elim previous [
        | inl (n, before, closed, ends) ↦
            let inside = sym (stands.closed_months n) ∙ closed in
            let low : first ≤ n = ground arith in
            let top : last ≡ n + 1 = sym final ∙ before in
            write_moves c.workspace_id period control m _ s _ (some (first, last)) (some (first, n))
              done.through stands v found refl refl refl
              (shrink first n low (ap (λ k. some (first, k)) top) refl)
              (λ k.
                ap (λ b. if month_number period == k then false else b) (stands.closed_months k)
                ∙ ap (λ j. if j == k then false else in_run (some (first, last)) k) before
                ∙ ap (λ j. if n + 1 == k then false else in_run (some (first, j)) k) top
                ∙ shrink_run first n k low)
              (ends first low) refl refl
        | inr (n, before, not_shut, ended) ↦
            let outside = sym (stands.closed_months n) ∙ not_shut in
            let only : first ≡ last = ground arith in
            write_moves c.workspace_id period control m _ s _ (some (first, last)) none done.through
              stands v found refl refl refl (clear last (ap (λ k. some (k, last)) only) refl)
              (λ k.
                ap (λ b. if month_number period == k then false else b) (stands.closed_months k)
                ∙ ap (λ j. if j == k then false else in_run (some (first, last)) k) final
                ∙ ap (λ j. if last == k then false else in_run (some (j, last)) k) only
                ∙ clear_run last k)
              (subst (λ o. Ends o none) (sym ended) tt) refl refl
      ])
