-- ===== src/Common/Result.antt =====
-- Outcomes of a request, after backend/app/core/errors.py: a value, or an `ApiError` with its
-- status code and its `code`. Messages and details are left out.
use finspace.Common.{ℕ, ◌≡◌, refl, Bool, true, false, Option, none, some, ◌⊎◌, inl, inr}

pub data Code : Type 0 where
  account_not_found category_not_found payee_not_found transaction_not_found : Code
  reconciliation_required reconciled_transaction_immutable : Code
  validation_error invalid_transfer invalid_split_total invalid_category_type : Code
  refund_limit_exceeded version_conflict month_closed duplicate_name : Code
  account_currency_immutable transaction_currency_conflict recurring_rule_invalid internal_error :
      Code
  month_close_period_invalid month_close_period_not_ended month_close_not_found : Code
  month_already_closed month_close_invalid_state month_close_version_conflict : Code
  month_close_sequence_conflict month_close_preview_stale month_close_blocked : Code
  month_close_idempotency_conflict month_close_reopen_order_conflict : Code
  currency_mismatch statement_date_before_account_opening idempotency_conflict : Code
  reconciliation_preview_stale reconciliation_difference : Code

pub record ApiError : Type 0 where
  pub status_code : ℕ
  pub code : Code

abbrev pub api_error : ℕ → Code → ApiError
api_error n c = record { status_code = n; code = c }

-- How a service function ends.
pub data Result {ℓ} (Value : Type ℓ) : Type ℓ where
  err : ApiError → Result Value
  ok : Value → Result Value

infixl 5 ◌>>=◌ ◌>>◌
abbrev pub ◌>>=◌ {ℓ κ} : {A : Type ℓ} {B : Type κ} → Result A → (A → Result B) → Result B
◌>>=◌ (err raised) next = err raised
◌>>=◌ (ok value) next = next value

abbrev pub ◌>>◌ {ℓ κ} : {A : Type ℓ} {B : Type κ} → Result A → Result B → Result B
first >> second = first >>= λ ignored. second

-- `if test: raise ApiError(...)`
abbrev pub raise_if : Bool → ℕ → Code → Result (Unit {0})
raise_if true n c = err (api_error n c)
raise_if false n c = ok tt

-- `if row is None: raise ApiError(...)`
abbrev pub or_raise {ℓ} : {A : Type ℓ} → Option A → ℕ → Code → Result A
or_raise none n c = err (api_error n c)
or_raise (some a) n c = ok a

pub Result-cases {ℓ} :
    {A : Type ℓ} (m : Result A) → ((a : A) × (m ≡ ok a)) ⊎ ((e : ApiError) × (m ≡ err e))
Result-cases (ok a) = inl (a, refl)
Result-cases (err e) = inr (e, refl)

-- A row that must be there was there.
pub or_raise->>=-eq-ok {ℓ κ} :
    {A : Type ℓ} {B : Type κ} (o : Option A) (n : ℕ) (c : Code) (f : A → Result B) {b : B}
    → (or_raise o n c >>= f) ≡ ok b
    → (a : A) × (o ≡ some a) × (f a ≡ ok b)
or_raise->>=-eq-ok none n c f h = cc
or_raise->>=-eq-ok (some a) n c f h = (a, refl, h)
