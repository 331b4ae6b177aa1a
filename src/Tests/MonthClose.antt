-- ===== src/Tests/MonthClose.antt =====
-- Month closing on a workspace whose February is closed: its March is prepared, confirmed, sent
-- again and reopened.
use finspace.Common.{
  ℕ, ◌+◌, ◌*◌, ◌≡◌, refl, true, false, some, List, [], ◌∷◌, All, arith, map, sort_by,
}
use finspace.Common.Text.{strip}
use finspace.Common.Result.{Result, ok}
use finspace.Calendar.{Date, date, make_date, days_in_month, day_before}
use finspace.Model.Closures.{confirmed, reopened, ready, MonthClosure}
use finspace.Model.Store.{Store, record_audit}
use finspace.Balances.{calculate_balances}
use finspace.Guard.{
  next_month, previous_month, month_end, period_bounds, get_or_create_control, local, local_date_of,
  insert_date, sorted_dates, closed_dates, assert_dates_open,
}
use finspace.MonthClose.Issues.{
  Evidence, is_out_of_sequence, has_sequence_issue, closing_start, closing_transactions,
  month_transactions, draft_count, uncategorized_count, duplicate_count, negative_count,
  blocking_issues, warning_issues, info_issues, normalized_issues, collect_preview,
}
use finspace.MonthClose.{
  Hashing, period_date, validate_completed_period, find_closure, get_closure, new_closure,
  get_or_create_closure, put_closure, put_control, prepare_token, prepared_closure, save_prepared,
  prepare, validate_idempotency_key, revision_for_key, reopen_audit_for_key, next_revision,
  confirmed_closure, save_confirmed, ConfirmRequest, confirm_fresh, replay_confirm, confirm,
  reopened_closure, save_reopened, has_confirmed, reopened_through, reopen_fresh, replay_reopen,
  reopen, CloseRequest, prepare_request, reopen_request, perform_close,
}
use finspace.MonthClose.Run.{month_number, Run, IsMonth, IsTable, closed_month, Represents}
use finspace.MonthClose.Moves.{Steps}
use finspace.MonthClose.Refinement.{perform_close-Steps}
use finspace.MonthClose.Progress.{confirm-prepare, CanConfirm}
use finspace.MonthClose.Activity.{Activity, closing, elsewhere, after_all}
use finspace.MonthClose.Replay.{confirm-replay}
use finspace.MonthClose.Guarded.{assert_dates_open-closed_month}
use finspace.Tests.Fixture.{runtime, context, store, value_or}

abbrev hashing : Hashing
hashing = record {
  issue = λ i. i.count;
  prepared = λ workspace id generation period p. workspace + id + generation * 1000 + p.fingerprint;
  confirmation = λ workspace id version explicit token. workspace + id + version + token;
  reopening = λ workspace id version reason. workspace + id + version;
}

abbrev evidence : Evidence
evidence = record {
  in_period_conflicts = 0;
  out_of_period_conflicts = 0;
  failed_outbox = 1;
  invalid_import_rows = 0;
  staged_imports_count = 0;
  failed_recurring = 0;
  backup_is_healthy = true;
  backup_status = 0;
  unreconciled = 0;
  effective_count = 1;
  sections = 8;
  financial_fingerprint = 555;
  budget_plan_fingerprint = 556;
}

abbrev february : MonthClosure
february = record (new_closure context 80 (date 2024 2 1)) { status = confirmed; version = 3 }

abbrev books : Store
books = record store { closures = february ∷ [] }

-- February 2024, as a number.
abbrev closed_february : Run
closed_february = some (24290, 24290)

books-Represents : Represents 1 books closed_february
unfolding get_or_create_control days_in_month
books-Represents = record {
  table = record {
    keyed = (tt, tt);
    months = (
      record {
        first_day = refl;
        first_month = ground arith;
        last_month = ground arith;
        first_year = ground arith;
        last_year = ground arith;
      },
      tt,
    );
  };
  closed_months = λ n. ground arith;
  ends = (ground arith, refl, refl, ground arith, ground arith, ground arith, ground arith);
}

abbrev march : Date
march = date 2024 3 1

march-IsMonth : IsMonth march
march-IsMonth = record {
  first_day = refl;
  first_month = ground arith;
  last_month = ground arith;
  first_year = ground arith;
  last_year = ground arith;
}

abbrev key : List ℕ
key = 107 ∷ 49 ∷ []

abbrev second_key : List ℕ
second_key = 107 ∷ 50 ∷ []

abbrev answer : Result (MonthClosure × Store) → MonthClosure × Store
answer r = value_or (february, books) r

abbrev preparing : CloseRequest
preparing = prepare_request 81 evidence

abbrev prepared_march : MonthClosure × Store
prepared_march = answer (prepare runtime hashing context march 81 evidence books)

-- The token is that of workspace 1, closure 81, version 2 and the evidence's fingerprint.
abbrev asked : ConfirmRequest
asked = record { version = 2; explicit = true; token = 2637 }

abbrev confirmed_march : MonthClosure × Store
confirmed_march =
    answer (confirm runtime hashing context march asked key 90 evidence prepared_march.1)

abbrev reopening : CloseRequest
reopening = reopen_request 3 (32 ∷ 120 ∷ []) second_key

abbrev reopened_march : MonthClosure × Store
reopened_march =
    answer (reopen runtime hashing context march 3 (32 ∷ 120 ∷ []) second_key confirmed_march.1)

-- The requests one after another, and the closed days that they leave.
march_closes :
    (prepare runtime hashing context march 81 evidence books ≡ ok prepared_march)
    × (prepared_march.0.status ≡ ready)
    × (prepared_march.0.prepare_token ≡ some 2637)
    × (confirm runtime hashing context march asked key 90 evidence prepared_march.1
        ≡ ok confirmed_march)
    × (confirmed_march.0.status ≡ confirmed)
    × ((get_or_create_control 1 confirmed_march.1).0.closed_through ≡ some (date 2024 3 31))
    × (reopen runtime hashing context march 3 (32 ∷ 120 ∷ []) second_key confirmed_march.1
        ≡ ok reopened_march)
    × (reopened_march.0.status ≡ reopened)
    × ((get_or_create_control 1 reopened_march.1).0.closed_through ≡ some (date 2024 2 29))
unfolding prepare confirm reopen perform_close period_date validate_completed_period find_closure
    get_closure get_or_create_closure put_closure put_control prepare_token prepared_closure
    save_prepared validate_idempotency_key revision_for_key reopen_audit_for_key next_revision
    confirmed_closure save_confirmed confirm_fresh replay_confirm reopened_closure save_reopened
    has_confirmed reopened_through reopen_fresh replay_reopen strip record_audit calculate_balances
    next_month previous_month month_end period_bounds get_or_create_control collect_preview
    normalized_issues blocking_issues warning_issues info_issues is_out_of_sequence
    has_sequence_issue closing_start closing_transactions month_transactions draft_count
    uncategorized_count duplicate_count negative_count sort_by make_date days_in_month day_before
    assert_dates_open closed_dates sorted_dates insert_date local_date_of
march_closes = (refl, refl, refl, refl, refl, refl, refl, refl, refl)

march_prepared : perform_close runtime hashing context 2024 3 preparing books ≡ ok prepared_march
unfolding prepare confirm reopen perform_close period_date validate_completed_period find_closure
    get_closure get_or_create_closure put_closure put_control prepare_token prepared_closure
    save_prepared validate_idempotency_key revision_for_key reopen_audit_for_key next_revision
    confirmed_closure save_confirmed confirm_fresh replay_confirm reopened_closure save_reopened
    has_confirmed reopened_through reopen_fresh replay_reopen strip record_audit calculate_balances
    next_month previous_month month_end period_bounds get_or_create_control collect_preview
    normalized_issues blocking_issues warning_issues info_issues is_out_of_sequence
    has_sequence_issue closing_start closing_transactions month_transactions draft_count
    uncategorized_count duplicate_count negative_count sort_by make_date days_in_month day_before
    assert_dates_open closed_dates sorted_dates insert_date local_date_of
march_prepared = refl

perform_close-Steps_example : Steps 1 closed_february prepared_march.1
perform_close-Steps_example =
    perform_close-Steps runtime hashing context 2024 3 preparing books closed_february
      prepared_march books-Represents (ground arith, tt) march_prepared

confirm-prepare_example :
    CanConfirm runtime hashing context march 2637 90 key evidence prepared_march
unfolding prepare confirm reopen perform_close period_date validate_completed_period find_closure
    get_closure get_or_create_closure put_closure put_control prepare_token prepared_closure
    save_prepared validate_idempotency_key revision_for_key reopen_audit_for_key next_revision
    confirmed_closure save_confirmed confirm_fresh replay_confirm reopened_closure save_reopened
    has_confirmed reopened_through reopen_fresh replay_reopen strip record_audit calculate_balances
    next_month previous_month month_end period_bounds get_or_create_control collect_preview
    normalized_issues blocking_issues warning_issues info_issues is_out_of_sequence
    has_sequence_issue closing_start closing_transactions month_transactions draft_count
    uncategorized_count duplicate_count negative_count sort_by make_date days_in_month day_before
    assert_dates_open closed_dates sorted_dates insert_date local_date_of
confirm-prepare_example =
    confirm-prepare runtime hashing context march 81 evidence books closed_february prepared_march
      2637 90 key key books-Represents march-IsMonth (ground arith, tt) refl refl refl refl refl
      refl

-- March is reopened, another service writes, and March is prepared again.
abbrev since : List Activity
since =
    closing context 2024 3 reopening
    ∷ elsewhere (λ s. record s { payees = [] })
    ∷ closing context 2024 3 (prepare_request 82 evidence)
    ∷ []

prepared-IsTable : IsTable prepared_march.1.closures
unfolding prepare confirm reopen perform_close period_date validate_completed_period find_closure
    get_closure get_or_create_closure put_closure put_control prepare_token prepared_closure
    save_prepared validate_idempotency_key revision_for_key reopen_audit_for_key next_revision
    confirmed_closure save_confirmed confirm_fresh replay_confirm reopened_closure save_reopened
    has_confirmed reopened_through reopen_fresh replay_reopen strip record_audit calculate_balances
    next_month previous_month month_end period_bounds get_or_create_control collect_preview
    normalized_issues blocking_issues warning_issues info_issues is_out_of_sequence
    has_sequence_issue closing_start closing_transactions month_transactions draft_count
    uncategorized_count duplicate_count negative_count sort_by make_date days_in_month day_before
    assert_dates_open closed_dates sorted_dates insert_date local_date_of
prepared-IsTable = record {
  keyed = (((refl, refl), tt), (tt, tt));
  months = (
    record {
      first_day = refl;
      first_month = ground arith;
      last_month = ground arith;
      first_year = ground arith;
      last_year = ground arith;
    },
    (march-IsMonth, tt),
  );
}

-- The row is not the confirmed one any more when the request comes again.
march_moved_on :
    map (λ m. m.status) (after_all runtime hashing since confirmed_march.1).closures
    ≡ confirmed ∷ ready ∷ []
unfolding prepare confirm reopen perform_close period_date validate_completed_period find_closure
    get_closure get_or_create_closure put_closure put_control prepare_token prepared_closure
    save_prepared validate_idempotency_key revision_for_key reopen_audit_for_key next_revision
    confirmed_closure save_confirmed confirm_fresh replay_confirm reopened_closure save_reopened
    has_confirmed reopened_through reopen_fresh replay_reopen strip record_audit calculate_balances
    next_month previous_month month_end period_bounds get_or_create_control collect_preview
    normalized_issues blocking_issues warning_issues info_issues is_out_of_sequence
    has_sequence_issue closing_start closing_transactions month_transactions draft_count
    uncategorized_count duplicate_count negative_count sort_by make_date days_in_month day_before
    assert_dates_open closed_dates sorted_dates insert_date local_date_of
march_moved_on = refl

confirm-replay_example :
    confirm runtime hashing context march asked key 91
      (record evidence { failed_outbox = 9 })
      (after_all runtime hashing since confirmed_march.1)
    ≡ ok (confirmed_march.0, after_all runtime hashing since confirmed_march.1)
unfolding prepare confirm reopen perform_close period_date validate_completed_period find_closure
    get_closure get_or_create_closure put_closure put_control prepare_token prepared_closure
    save_prepared validate_idempotency_key revision_for_key reopen_audit_for_key next_revision
    confirmed_closure save_confirmed confirm_fresh replay_confirm reopened_closure save_reopened
    has_confirmed reopened_through reopen_fresh replay_reopen strip record_audit calculate_balances
    next_month previous_month month_end period_bounds get_or_create_control collect_preview
    normalized_issues blocking_issues warning_issues info_issues is_out_of_sequence
    has_sequence_issue closing_start closing_transactions month_transactions draft_count
    uncategorized_count duplicate_count negative_count sort_by make_date days_in_month day_before
    assert_dates_open closed_dates sorted_dates insert_date local_date_of
confirm-replay_example =
    confirm-replay runtime hashing context context march asked key key 90 91 evidence
      (record evidence { failed_outbox = 9 }) since prepared_march.1 confirmed_march
      prepared-IsTable refl refl march_closes.3
      (
        tt,
        (
          record {
            closures = refl;
            revisions = refl;
            entries = [];
            audit_log = refl;
            no_reopening = tt;
          },
          ((refl, (refl, tt)), tt),
        ),
      )
      refl refl

assert_dates_open-closed_month_example :
    All (λ d. closed_month 1 (month_number d) books.closures ≡ false) (date 2024 3 5 ∷ [])
unfolding prepare confirm reopen perform_close period_date validate_completed_period find_closure
    get_closure get_or_create_closure put_closure put_control prepare_token prepared_closure
    save_prepared validate_idempotency_key revision_for_key reopen_audit_for_key next_revision
    confirmed_closure save_confirmed confirm_fresh replay_confirm reopened_closure save_reopened
    has_confirmed reopened_through reopen_fresh replay_reopen strip record_audit calculate_balances
    next_month previous_month month_end period_bounds get_or_create_control collect_preview
    normalized_issues blocking_issues warning_issues info_issues is_out_of_sequence
    has_sequence_issue closing_start closing_transactions month_transactions draft_count
    uncategorized_count duplicate_count negative_count sort_by make_date days_in_month day_before
    assert_dates_open closed_dates sorted_dates insert_date local_date_of
assert_dates_open-closed_month_example =
    assert_dates_open-closed_month runtime context books closed_february
      (local (date 2024 3 5) ∷ []) books-Represents
      (
        record {
          first_year = ground arith;
          last_year = ground arith;
          first_month = ground arith;
          last_month = ground arith;
          first_day = ground arith;
          last_day = ground arith;
        },
        tt,
      )
      refl
