-- ===== src/MonthClose/Table.antt =====
-- The table of closures after one row was put: which months are closed then.
use finspace.Common.{
  ℕ, ◌≤◌, ◌≡◌, ==_iff, refl, sym, ap, ◌∙◌, Bool, true, false, some, List, [], ◌∷◌, ◌&&◌, ◌==◌,
  if◌then◌else◌, arith, find, find-All, All, All-map, Bool-cases, inl, inr,
}
use finspace.Calendar.{Date}
use finspace.Model.Closures.{MonthClosure, is_confirmed}
use finspace.MonthClose.{same_date, find_closure, put_closure, has_confirmed}
use finspace.MonthClose.Run.{month_number, IsMonth, closed_month, IsKeyed, IsTable}

-- What tells a row of the table from another one.
abbrev pub Apart : MonthClosure → MonthClosure → Type 0
Apart x n =
    ((n.id == x.id) ≡ false)
    × (((n.workspace_id == x.workspace_id) && same_date n.period_month x.period_month) ≡ false)

same_date-number :
    (a b : Date)
    → IsMonth a
    → b.day ≡ 1
    → 1 ≤ b.month
    → b.month ≤ 12
    → same_date a b ≡ (month_number a == month_number b)
same_date-number a b u day low high = ground arith

-- Two months are one if their numbers are.
pub month_number-inj :
    (a b : Date) → IsMonth a → IsMonth b → same_date a b ≡ (month_number a == month_number b)
month_number-inj a b u v = ground arith

pub put_closure_none :
    (m : MonthClosure) (ms : List MonthClosure)
    → All (λ n. (n.id == m.id) ≡ false) ms
    → put_closure m ms ≡ ms
unfolding put_closure
put_closure_none m [] h = refl
put_closure_none m (x ∷ xs) h = rw (h.0, put_closure_none m xs h.1)

-- The rows after a row do not close its month.
others_open :
    (workspace : ℕ) (x : MonthClosure) (ms : List MonthClosure)
    → IsMonth x.period_month
    → (x.workspace_id == workspace) ≡ true
    → All (Apart x) ms
    → All (λ m. IsMonth m.period_month) ms
    → closed_month workspace (month_number x.period_month) ms ≡ false
others_open workspace x [] v own h k = refl
others_open workspace x (m ∷ ms) v own h k = ground (
  arith,
  month_number-inj m.period_month x.period_month k.0 v,
  others_open workspace x ms v own h.1 k.1,
)

put_head :
    (workspace n : ℕ) (period : Date) (after x : MonthClosure) (xs : List MonthClosure)
    → after.id ≡ x.id
    → after.workspace_id ≡ x.workspace_id
    → after.period_month ≡ x.period_month
    → ((x.workspace_id == workspace) && same_date x.period_month period) ≡ true
    → put_closure after xs ≡ xs
    → closed_month workspace (month_number x.period_month) xs ≡ false
    → same_date x.period_month period ≡ (month_number x.period_month == month_number period)
    → closed_month workspace n (put_closure after (x ∷ xs)) ≡ (
        if month_number period == n
        then is_confirmed after.status
        else closed_month workspace n (x ∷ xs))
unfolding put_closure
put_head workspace n period after x xs key home month here kept others number =
    let whole : put_closure after (x ∷ xs) ≡ after ∷ xs =
      rw (kept, (==_iff x.id after.id).1 (sym key)) refl in
    let at : month_number x.period_month ≡ month_number period = ground arith in
    let where_after : month_number after.period_month ≡ month_number period =
      ap month_number month ∙ at in
    let others' : closed_month workspace (month_number period) xs ≡ false = rw at at others in
    ap (closed_month workspace n) whole ∙ elim (Bool-cases (month_number period == n)) [
      | inl now ↦
          let it : month_number period ≡ n = ground arith in
          let none_else : closed_month workspace n xs ≡ false = rw it at others' in ground arith
      | inr other ↦ ground arith
    ]

put_tail :
    (workspace n : ℕ) (period : Date) (after x : MonthClosure) (xs : List MonthClosure)
    → ((x.workspace_id == workspace) && same_date x.period_month period) ≡ false
    → same_date x.period_month period ≡ (month_number x.period_month == month_number period)
    → closed_month workspace n (put_closure after xs) ≡ (
        if month_number period == n then is_confirmed after.status else closed_month workspace n xs)
    → closed_month workspace n (x ∷ put_closure after xs) ≡ (
        if month_number period == n
        then is_confirmed after.status
        else closed_month workspace n (x ∷ xs))
put_tail workspace n period after x xs later number ih =
    elim (Bool-cases (month_number period == n)) [
      | inl now ↦
          let it : month_number period ≡ n = ground arith in
          let apart : ((x.workspace_id == workspace) && (month_number x.period_month == n))
              ≡ false =
            rw (← it) (rw number at later) in
          ground arith
      | inr other ↦ ground arith
    ]

-- Putting a closure of a month decides that month, and leaves the others as they were.
pub closed_month-put_closure :
    (workspace n : ℕ) (period : Date) (m after : MonthClosure) (ms : List MonthClosure)
    → IsTable ms
    → IsMonth period
    → find_closure workspace period ms ≡ some m
    → after.id ≡ m.id
    → after.workspace_id ≡ m.workspace_id
    → after.period_month ≡ m.period_month
    → closed_month workspace n (put_closure after ms) ≡ (
        if month_number period == n then is_confirmed after.status else closed_month workspace n ms)
unfolding put_closure find_closure
closed_month-put_closure workspace n period m after [] h v e id own same = cc
closed_month-put_closure workspace n period m after (x ∷ xs) h v e id own same =
    elim (Bool-cases ((x.workspace_id == workspace) && same_date x.period_month period)) [
      | inl here ↦
          let found : x ≡ m = ground arith in
          let key : after.id ≡ x.id = id ∙ sym (ap (λ r. r.id) found) in
          let home : after.workspace_id ≡ x.workspace_id =
            own ∙ sym (ap (λ r. r.workspace_id) found) in
          let month : after.period_month ≡ x.period_month =
            same ∙ sym (ap (λ r. r.period_month) found) in
          let kept =
            put_closure_none after xs
              (All-map _ (λ y. (y.id == after.id) ≡ false) xs (λ y a. rw key a.0) h.keyed.0) in
          let others = others_open workspace x xs h.months.0 (ground arith) h.keyed.0 h.months.1 in
          let number = month_number-inj x.period_month period h.months.0 v in
          put_head workspace n period after x xs key home month here kept others number
      | inr later ↦
          let there : find_closure workspace period xs ≡ some m = rw later at e in
          let apart = find-All (Apart x) _ xs m h.keyed.0 there in
          let kept : put_closure after (x ∷ xs) ≡ x ∷ put_closure after xs =
            let differ : (x.id == after.id) ≡ false = ground arith in rw differ refl in
          let ih =
            closed_month-put_closure workspace n period m after xs
              (record { keyed = h.keyed.1; months = h.months.1 }) v there id own same in
          let number = month_number-inj x.period_month period h.months.0 v in
          ap (closed_month workspace n) kept
          ∙ put_tail workspace n period after x xs later number ih
    ]

-- What finds nothing is left as it is, and so is the row that is found.
put_closure_self :
    (p : MonthClosure → Bool) (m : MonthClosure) (ms : List MonthClosure)
    → IsKeyed ms
    → find p ms ≡ some m
    → put_closure m ms ≡ ms
unfolding put_closure
put_closure_self p m [] h e = refl
put_closure_self p m (x ∷ xs) h e = elim (Bool-cases (p x)) [
  | inl here ↦
      let found : x ≡ m = ground arith in
      let rest =
        put_closure_none m xs
          (All-map _ (λ y. (y.id == m.id) ≡ false) xs (λ y a. rw (← found) a.0) h.0) in
      ground arith
  | inr later ↦
      let there : find p xs ≡ some m = rw later at e in
      let apart = find-All (Apart x) p xs m h.0 there in
      let rest = put_closure_self p m xs h.1 there in ground arith
]

-- The row that is found for a month says whether the month is closed.
pub closed_month-found :
    (workspace : ℕ) (period : Date) (m : MonthClosure) (ms : List MonthClosure)
    → IsTable ms
    → IsMonth period
    → find_closure workspace period ms ≡ some m
    → closed_month workspace (month_number period) ms ≡ is_confirmed m.status
unfolding find_closure
closed_month-found workspace period m ms h v e =
    let same = put_closure_self _ m ms h.keyed e in
    let put =
      closed_month-put_closure workspace (month_number period) period m m ms h v e refl refl refl in
    let now : (month_number period == month_number period) ≡ true =
      (==_iff (month_number period) (month_number period)).1 refl in
    sym (ap (closed_month workspace (month_number period)) same) ∙ put ∙ rw now refl

-- A query for the confirmed row of a month finds one where the month is closed.
pub has_confirmed-closed_month :
    (workspace : ℕ) (period : Date) (ms : List MonthClosure)
    → period.day ≡ 1
    → 1 ≤ period.month
    → period.month ≤ 12
    → All (λ m. IsMonth m.period_month) ms
    → has_confirmed workspace period ms ≡ closed_month workspace (month_number period) ms
unfolding has_confirmed
has_confirmed-closed_month workspace period [] day low high h = refl
has_confirmed-closed_month workspace period (m ∷ ms) day low high h = ground (
  arith,
  same_date-number m.period_month period h.0 day low high,
  has_confirmed-closed_month workspace period ms day low high h.1,
)
