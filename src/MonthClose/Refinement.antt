-- ===== src/MonthClose/Refinement.antt =====
-- Month closing refines the abstract run of closed months: each request is a step of it.
use finspace.Common.{
  ℕ, ◌≡◌, refl, sym, ◌∙◌, subst, true, false, some, [], ◌∷◌, ◌++◌, ◌&&◌, ◌==◌, arith, All,
  Option-cases, inl, inr,
}
use finspace.Common.Text.{strip}
use finspace.Common.Result.{ok, Result-cases}
use finspace.Calendar.{Date}
use finspace.Model.{MonthCloseControl, Runtime, Context}
use finspace.Model.Closures.{MonthClosure, is_confirmed}
use finspace.Model.Store.{Store, record_audit}
use finspace.Guard.{get_or_create_control}
use finspace.MonthClose.Issues.{Evidence, Preview}
use finspace.MonthClose.{
  Hashing, same_date, period_date, find_closure, get_or_create_closure, new_closure,
  prepared_closure, save_prepared, prepare, CloseRequest, prepare_request, confirm_request,
  reopen_request, perform_for, perform_close,
}
use finspace.MonthClose.Run.{Run, stay, IsMonth, Represents}
use finspace.MonthClose.Table.{closed_month-put_closure}
use finspace.MonthClose.Keys.{put_closure-IsTable, closed_month-append, append-IsTable, added_found}
use finspace.MonthClose.Months.{period_date-IsMonth}
use finspace.MonthClose.Stands.{Stands, begins, represents}
use finspace.MonthClose.Moves.{Steps, same_run, confirm-Steps, reopen-Steps}
use finspace.MonthClose.Outcome.{
  control_of, begun, prepare-Prepared, confirm_fresh-Confirmed, reopen_fresh-Reopened,
  confirm-cases, reopen-cases,
}

-- The database draws a new primary key.
abbrev pub IsFresh : CloseRequest → Store → Type 0
IsFresh (prepare_request id e) s = All (λ m. (m.id == id) ≡ false) s.closures
IsFresh _ s = Unit

pub begun_closures : (c : Context) (s : Store) → (begun c s).closures ≡ s.closures
unfolding get_or_create_control
begun_closures c s = ground arith

abbrev pub Created : Context → MonthCloseControl → Date → Run → MonthClosure × Store → Type 0
Created c control period run made =
    Stands c.workspace_id control made.1 run
    × (find_closure c.workspace_id period made.1.closures ≡ some made.0)

-- The row that a preparation works on, and the tables once it is there.
pub created :
    (c : Context) (id : ℕ) (period : Date) (control : MonthCloseControl) (s : Store) (run : Run)
    → Stands c.workspace_id control s run
    → IsMonth period
    → All (λ m. (m.id == id) ≡ false) s.closures
    → Created c control period run (get_or_create_closure c id period s)
unfolding get_or_create_closure find_closure
created c id period control s run r v fresh =
    elim (Option-cases (find_closure c.workspace_id period s.closures)) [
      | inr (m, there) ↦
          let whole : get_or_create_closure c id period s ≡ (m, s) = ground arith in
          subst (Created c control period run) (sym whole) (r, there)
      | inl missing ↦
          let m = new_closure c id period in
          let mine : ((c.workspace_id == c.workspace_id) && same_date period period) ≡ true =
            ground arith in
          let whole : get_or_create_closure c id period s
              ≡ (m, record s { closures = s.closures ++ m ∷ [] }) =
            ground arith in
          subst (Created c control period run) (sym whole) (
            record {
              table = append-IsTable s.closures m r.table v fresh missing;
              closed_months =
                  λ n. closed_month-append c.workspace_id n s.closures m refl ∙ r.closed_months n;
              ends = r.ends;
              own = r.own;
              present = r.present;
            },
            added_found _ s.closures m missing mine,
          )
    ]

prepared-IsOpen :
    (h : Hashing) (c : Context) (p : Preview) (m : MonthClosure)
    → is_confirmed (prepared_closure h c p m).status ≡ false
unfolding prepared_closure
prepared-IsOpen h c p m = ground arith

save_prepared-Steps :
    (h : Hashing) (c : Context) (period : Date) (p : Preview) (control : MonthCloseControl)
    (m : MonthClosure) (s : Store) (run : Run)
    → Stands c.workspace_id control s run
    → IsMonth period
    → find_closure c.workspace_id period s.closures ≡ some m
    → is_confirmed m.status ≡ false
    → Steps c.workspace_id run (save_prepared c p m (prepared_closure h c p m) s).1
unfolding Steps save_prepared prepared_closure record_audit
save_prepared-Steps h c period p control m s run r v found not_shut =
    let after = prepared_closure h c p m in
    (
      run,
      stay refl,
      represents c.workspace_id control _ run (record {
        table =
            put_closure-IsTable c.workspace_id period m after s.closures r.table found refl refl
              refl;
        closed_months = λ n.
            closed_month-put_closure c.workspace_id n period m after s.closures r.table v found refl
              refl refl
            ∙ same_run c.workspace_id n period m (is_confirmed after.status) s run r.table
                r.closed_months v found not_shut (prepared-IsOpen h c p m);
        ends = r.ends;
        own = r.own;
        present = r.present;
      }),
    )

prepare-Steps :
    (rt : Runtime) (h : Hashing) (c : Context) (period : Date) (id : ℕ) (e : Evidence) (s : Store)
    (run : Run) (r : MonthClosure × Store)
    → Represents c.workspace_id s run
    → IsMonth period
    → All (λ m. (m.id == id) ≡ false) s.closures
    → prepare rt h c period id e s ≡ ok r
    → Steps c.workspace_id run r.1
prepare-Steps rt h c period id e s run r stands v fresh k =
    let done = prepare-Prepared rt h c period id e s r k in
    let (now, found) =
      created c id period (control_of c s) (begun c s) run (begins c.workspace_id s run stands) v
        (subst (λ ms. All (λ m. (m.id == id) ≡ false) ms) (sym (begun_closures c s)) fresh) in
    subst (λ o. Steps c.workspace_id run o.1) (sym done.saved)
      (save_prepared-Steps h c period done.preview (control_of c s) _ _ run now v found
        done.not_confirmed)

unmoved :
    (workspace : ℕ) (s t : Store) (run : Run)
    → Represents workspace s run
    → t ≡ s
    → Steps workspace run t
unfolding Steps
unmoved workspace s t run stands same =
    (run, stay refl, subst (λ o. Represents workspace o run) (sym same) stands)

performed-Steps :
    (rt : Runtime) (h : Hashing) (c : Context) (period : Date) (request : CloseRequest) (s : Store)
    (run : Run) (r : MonthClosure × Store)
    → Represents c.workspace_id s run
    → IsMonth period
    → IsFresh request s
    → perform_for rt h c period request s ≡ ok r
    → Steps c.workspace_id run r.1
performed-Steps rt h c period (prepare_request id e) s run r stands v fresh k =
    prepare-Steps rt h c period id e s run r stands v fresh k
performed-Steps rt h c period (confirm_request request key revision_id e) s run r stands v fresh k =
    let (m, kept, hash, found, how) = confirm-cases rt h c period request key revision_id e s r k in
    elim how [
      | inl same ↦ unmoved c.workspace_id s r.1 run stands same
      | inr done ↦
          confirm-Steps rt h c period request kept hash revision_id e (control_of c s) m (begun c s)
            run r (begins c.workspace_id s run stands) v found
            (confirm_fresh-Confirmed rt h c period request kept hash revision_id e (control_of c s)
              m (begun c s) r done)
    ]
performed-Steps rt h c period (reopen_request version reason key) s run r stands v fresh k =
    let (m, kept, hash, found, _, how) = reopen-cases rt h c period version reason key s r k in
    elim how [
      | inl same ↦ unmoved c.workspace_id s r.1 run stands same
      | inr done ↦
          reopen-Steps c period version (strip rt.is_space reason) kept hash (control_of c s) m
            (begun c s) run r (begins c.workspace_id s run stands) v found
            (reopen_fresh-Reopened c period version (strip rt.is_space reason) kept hash
              (control_of c s) m (begun c s) r done)
    ]

-- While the closures and the control stand for a run of closed months, a successful request on a
-- month leads to tables that stand for a run again. This is the run itself, or it begins with one
-- month, is longer or shorter by the month at its end, or is gone with its only month. The table
-- of closures has one row for a month and a primary key, and the key drawn for a new one is new.
pub perform_close-Steps :
    (rt : Runtime) (h : Hashing) (c : Context) (year month : ℕ) (request : CloseRequest) (s : Store)
    (run : Run) (r : MonthClosure × Store)
    → Represents c.workspace_id s run
    → IsFresh request s
    → perform_close rt h c year month request s ≡ ok r
    → Steps c.workspace_id run r.1
unfolding perform_close
perform_close-Steps rt h c year month request s run r stands fresh k =
    elim (Result-cases (period_date year month)) [
      | inr (x, failed) ↦ absurd (ground arith)
      | inl (period, e) ↦
          let v = period_date-IsMonth year month period e in
          performed-Steps rt h c period request s run r stands v fresh (ground arith)
    ]
