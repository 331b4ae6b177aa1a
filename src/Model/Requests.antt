-- ===== src/Model/Requests.antt =====
-- Request data: `RequestContext` of backend/app/dependencies/context.py, and the schemas of
-- backend/app/schemas/transactions.py. Of the schemas' own checks the model has those on amounts.
use finspace.Common.{ℕ, Bool, Option, List, ◌&&◌, all}
use finspace.Common.Int.{ℤ, pos, ltb_ℤ}
use finspace.Calendar.{Date}
use finspace.Model.Rows.{TransactionType, TransactionStatus}

-- What the services use of the time zone database and of Python's text methods: the local date of
-- an instant in a zone, the instant of local midnight, and `str.isspace` on a code point.
pub record Runtime : Type 0 where
  pub local_date : ℕ → ℕ → Date
  pub midnight : ℕ → Date → ℕ
  pub is_space : ℕ → Bool

-- `RequestContext`, and the clock's reading at the request.
pub record Context : Type 0 where
  pub user_id : ℕ
  pub workspace_id : ℕ
  pub timezone : ℕ
  pub request_id : ℕ
  pub now : ℕ

pub record SplitInput : Type 0 where
  pub category_id : ℕ
  pub amount : ℤ
  pub comment : Option ℕ

pub record TransactionCreate : Type 0 where
  pub occurred_at : ℕ
  pub transaction_type : TransactionType
  pub amount : ℤ
  pub currency : ℕ
  pub account_id : ℕ
  pub target_account_id : Option ℕ
  pub category_id : Option ℕ
  pub payee_id : Option ℕ
  pub counterparty : Option ℕ
  pub description : Option ℕ
  pub comment : Option (List ℕ)
  pub status : TransactionStatus
  pub source : ℕ
  pub related_transaction_id : Option ℕ
  pub external_id : Option ℕ
  pub splits : List SplitInput

-- `PositiveMoney`
abbrev pub is_positive : ℤ → Bool
is_positive a = ltb_ℤ (pos 0) a

unfoldable pub passes_schema : TransactionCreate → Bool
passes_schema t = is_positive t.amount && all (λ p. is_positive p.amount) t.splits

-- A field of an update request: left out (`exclude_unset`), an explicit null, or a value.
pub data Change {ℓ} (A : Type ℓ) : Type ℓ where
  unset : Change A
  null : Change A
  given : A → Change A

pub record TransactionUpdate : Type 0 where
  pub version : ℕ
  pub occurred_at : Change ℕ
  pub transaction_type : Change TransactionType
  pub amount : Change ℤ
  pub currency : Change ℕ
  pub account_id : Change ℕ
  pub target_account_id : Change ℕ
  pub category_id : Change ℕ
  pub payee_id : Change ℕ
  pub counterparty : Change ℕ
  pub description : Change ℕ
  pub comment : Change (List ℕ)
  pub status : Change TransactionStatus
  pub related_transaction_id : Change ℕ
  pub external_id : Change ℕ
  pub splits : Change (List SplitInput)
