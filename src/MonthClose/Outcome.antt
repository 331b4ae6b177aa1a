-- ===== src/MonthClose/Outcome.antt =====
-- What a successful request on a month has passed on its way.
use finspace.Common.{
  ℕ, ◌≡◌, true, false, Option, none, some, List, arith, Option-cases, inl, inr, ◌⊎◌,
}
use finspace.Common.Text.{strip}
use finspace.Common.Result.{ok, Result-cases}
use finspace.Calendar.{Date}
use finspace.Model.{MonthCloseControl, Runtime, Context}
use finspace.Model.Closures.{MonthClosure, is_confirmed}
use finspace.Model.Store.{Store}
use finspace.Guard.{period_bounds, month_end, get_or_create_control}
use finspace.MonthClose.Issues.{Evidence, Preview, has_sequence_issue, collect_preview}
use finspace.MonthClose.{
  Hashing, find_closure, get_closure, get_or_create_closure, prepared_closure, save_prepared,
  prepare, save_confirmed, ConfirmRequest, confirm_fresh, replay_confirm, confirm, save_reopened,
  reopened_through, reopen_fresh, replay_reopen, reopen, is_closed_through, is_empty_issues,
  validate_completed_period, validate_idempotency_key, revision_for_key, reopen_audit_for_key,
  reopened_of,
}

abbrev pub control_of : Context → Store → MonthCloseControl
control_of c s = (get_or_create_control c.workspace_id s).0

abbrev pub begun : Context → Store → Store
begun c s = (get_or_create_control c.workspace_id s).1

pub record Prepared (rt : Runtime) (h : Hashing) (c : Context) (period : Date) (id : ℕ)
    (e : Evidence) (s : Store) (r : MonthClosure × Store) : Type 0 where
  pub completed : validate_completed_period rt c period ≡ ok tt
  pub not_confirmed : is_confirmed (get_or_create_closure c id period (begun c s)).0.status ≡ false
  pub preview : Preview
  pub collected :
      collect_preview rt h.issue c period
        (control_of c s)
        e
        (get_or_create_closure c id period (begun c s)).1
      ≡ ok preview
  pub saved :
      r
      ≡ save_prepared c preview
          (get_or_create_closure c id period (begun c s)).0
          (prepared_closure h c preview (get_or_create_closure c id period (begun c s)).0)
          (get_or_create_closure c id period (begun c s)).1

pub prepare-Prepared :
    (rt : Runtime) (h : Hashing) (c : Context) (period : Date) (id : ℕ) (e : Evidence) (s : Store)
    (r : MonthClosure × Store)
    → prepare rt h c period id e s ≡ ok r
    → Prepared rt h c period id e s r
unfolding prepare
prepare-Prepared rt h c period id e s r k =
    let made = get_or_create_closure c id period (begun c s) in
    elim (Result-cases (validate_completed_period rt c period)) [
      | inr (x, failed) ↦ absurd (ground arith)
      | inl (u, completed) ↦
          elim (Result-cases (collect_preview rt h.issue c period (control_of c s) e made.1)) [
            | inr (x, failed) ↦ absurd (ground arith)
            | inl (p, collected) ↦ record {
              completed = completed;
              not_confirmed = ground arith;
              preview = p;
              collected = collected;
              saved = ground arith;
            }
          ]
    ]

pub record Confirmed (rt : Runtime) (h : Hashing) (c : Context) (period : Date)
    (request : ConfirmRequest) (key : List ℕ) (hash revision_id : ℕ) (e : Evidence)
    (control : MonthCloseControl) (m : MonthClosure) (s : Store) (r : MonthClosure × Store)
    : Type 0 where
  pub not_confirmed : is_confirmed m.status ≡ false
  pub version_current : m.version ≡ request.version
  pub in_sequence : has_sequence_issue c.workspace_id control period s.closures ≡ ok false
  pub preview : Preview
  pub collected : collect_preview rt h.issue c period control e s ≡ ok preview
  pub unblocked : is_empty_issues preview.blocking ≡ true
  pub bounds : ℕ × ℕ
  pub bounded : period_bounds rt period c.timezone ≡ ok bounds
  pub through : Date
  pub ended : month_end period ≡ ok through
  pub saved : r ≡ save_confirmed c revision_id key hash bounds preview through control m s

pub confirm_fresh-Confirmed :
    (rt : Runtime) (h : Hashing) (c : Context) (period : Date) (request : ConfirmRequest)
    (key : List ℕ) (hash revision_id : ℕ) (e : Evidence) (control : MonthCloseControl)
    (m : MonthClosure) (s : Store) (r : MonthClosure × Store)
    → confirm_fresh rt h c period request key hash revision_id e control m s ≡ ok r
    → Confirmed rt h c period request key hash revision_id e control m s r
unfolding confirm_fresh
confirm_fresh-Confirmed rt h c period request key hash revision_id e control m s r k =
    elim (Result-cases (has_sequence_issue c.workspace_id control period s.closures)) [
      | inr (x, failed) ↦ absurd (ground arith)
      | inl (out, sequence) ↦
          elim (Result-cases (collect_preview rt h.issue c period control e s)) [
            | inr (x, failed) ↦ absurd (ground arith)
            | inl (p, collected) ↦ elim (Result-cases (period_bounds rt period c.timezone)) [
              | inr (x, failed) ↦ absurd (ground arith)
              | inl (bounds, bounded) ↦ elim (Result-cases (month_end period)) [
                | inr (x, failed) ↦ absurd (ground arith)
                | inl (through, ended) ↦ record {
                  not_confirmed = ground arith;
                  version_current = ground arith;
                  in_sequence = ground arith;
                  preview = p;
                  collected = collected;
                  unblocked = ground arith;
                  bounds = bounds;
                  bounded = bounded;
                  through = through;
                  ended = ended;
                  saved = ground arith;
                }
              ]
            ]
          ]
    ]

pub record Reopened (c : Context) (period : Date) (version : ℕ) (reason key : List ℕ) (hash : ℕ)
    (control : MonthCloseControl) (m : MonthClosure) (s : Store) (r : MonthClosure × Store)
    : Type 0 where
  pub confirmed : is_confirmed m.status ≡ true
  pub version_current : m.version ≡ version
  pub last : Date
  pub ended : month_end period ≡ ok last
  pub is_last : is_closed_through control.closed_through last ≡ true
  pub through : Option Date
  pub moved : reopened_through c.workspace_id period s.closures ≡ ok through
  pub saved : r ≡ save_reopened c key reason hash through control m s

pub reopen_fresh-Reopened :
    (c : Context) (period : Date) (version : ℕ) (reason key : List ℕ) (hash : ℕ)
    (control : MonthCloseControl) (m : MonthClosure) (s : Store) (r : MonthClosure × Store)
    → reopen_fresh c period version reason key hash control m s ≡ ok r
    → Reopened c period version reason key hash control m s r
unfolding reopen_fresh
reopen_fresh-Reopened c period version reason key hash control m s r k =
    elim (Result-cases (month_end period)) [
      | inr (x, failed) ↦ absurd (ground arith)
      | inl (last, ended) ↦
          elim (Result-cases (reopened_through c.workspace_id period s.closures)) [
            | inr (x, failed) ↦ absurd (ground arith)
            | inl (through, moved) ↦ record {
              confirmed = ground arith;
              version_current = ground arith;
              last = last;
              ended = ended;
              is_last = ground arith;
              through = through;
              moved = moved;
              saved = ground arith;
            }
          ]
    ]

-- A successful confirmation found the row, and was a replay, which changes no table, or went
-- through the steps for a new key.
pub confirm-cases :
    (rt : Runtime) (h : Hashing) (c : Context) (period : Date) (request : ConfirmRequest)
    (idempotency_key : List ℕ) (revision_id : ℕ) (e : Evidence) (s : Store)
    (r : MonthClosure × Store)
    → confirm rt h c period request idempotency_key revision_id e s ≡ ok r
    → (m : MonthClosure) × (key : List ℕ) × (hash : ℕ) × (find_closure c.workspace_id period
          (begun c s).closures
        ≡ some m)
      × ((r.1 ≡ s)
          ⊎ (confirm_fresh rt h c period request key hash revision_id e
                (control_of c s)
                m
                (begun c s)
              ≡ ok r))
unfolding confirm get_closure replay_confirm
confirm-cases rt h c period request idempotency_key revision_id e s r k =
    elim (Result-cases (validate_idempotency_key rt idempotency_key)) [
      | inr (x, failed) ↦ absurd (ground arith)
      | inl (key, valid) ↦ elim (Result-cases (validate_completed_period rt c period)) [
        | inr (x, failed) ↦ absurd (ground arith)
        | inl (u, completed) ↦
            elim (Option-cases (find_closure c.workspace_id period (begun c s).closures)) [
              | inl missing ↦ absurd (ground arith)
              | inr (m, found) ↦
                  let hash =
                    h.confirmation m.workspace_id m.id request.version request.explicit
                      request.token in
                  elim (Option-cases (revision_for_key c.workspace_id key (begun c s))) [
                    | inl new ↦ (m, key, hash, found, inr (ground arith))
                    | inr (revision, old) ↦ elim (Option-cases revision.response) [
                      | inl none_stored ↦ (m, key, hash, found, inl (ground arith))
                      | inr (response, stored) ↦ (m, key, hash, found, inl (ground arith))
                    ]
                  ]
            ]
      ]
    ]

-- So did a successful reopening, and no revision had its key.
pub reopen-cases :
    (rt : Runtime) (h : Hashing) (c : Context) (period : Date) (version : ℕ)
    (reason idempotency_key : List ℕ) (s : Store) (r : MonthClosure × Store)
    → reopen rt h c period version reason idempotency_key s ≡ ok r
    → (m : MonthClosure) × (key : List ℕ) × (hash : ℕ) × (find_closure c.workspace_id period
          (begun c s).closures
        ≡ some m)
      × (revision_for_key c.workspace_id key (begun c s) ≡ none)
      × ((r.1 ≡ s)
          ⊎ (reopen_fresh c period version
                (strip rt.is_space reason)
                key
                hash
                (control_of c s)
                m
                (begun c s)
              ≡ ok r))
unfolding reopen get_closure replay_reopen
reopen-cases rt h c period version reason idempotency_key s r k =
    elim (Result-cases (validate_idempotency_key rt idempotency_key)) [
      | inr (x, failed) ↦ absurd (ground arith)
      | inl (key, valid) ↦
          elim (Option-cases (find_closure c.workspace_id period (begun c s).closures)) [
            | inl missing ↦ absurd (ground arith)
            | inr (m, found) ↦
                let free : revision_for_key c.workspace_id key (begun c s) ≡ none = ground arith in
                let hash = h.reopening m.workspace_id m.id version (strip rt.is_space reason) in
                elim (Option-cases (reopen_audit_for_key c.workspace_id key (begun c s))) [
                  | inl new ↦ (m, key, hash, found, free, inr (ground arith))
                  | inr (entry, old) ↦ elim (Option-cases (reopened_of entry.after_data)) [
                    | inl other ↦ absurd (ground arith)
                    | inr (d, stored) ↦ (m, key, hash, found, free, inl (ground arith))
                  ]
                ]
          ]
    ]
