-- ===== src/MonthClose/Keys.antt =====
-- The table of closures stays keyed by the writes of the services.
use finspace.Common.{
  ℕ, ◌≡◌, ==_iff, refl, sym, ap, ◌∙◌, subst, Bool, true, false, none, some, List, [], ◌∷◌, ◌++◌,
  ◌&&◌, ◌==◌, arith, find, find-All, find-append_none, any, All, All-map, All-append, Bool-cases,
  inl, inr,
}
use finspace.Calendar.{Date}
use finspace.Model.Closures.{MonthClosure, is_confirmed}
use finspace.MonthClose.{same_date, find_closure, put_closure}
use finspace.MonthClose.Run.{IsMonth, closes, closed_month, IsKeyed, IsTable}
use finspace.MonthClose.Table.{Apart, put_closure_none}

put_closure-Apart :
    (x m : MonthClosure) (ms : List MonthClosure)
    → Apart x m
    → All (Apart x) ms
    → All (Apart x) (put_closure m ms)
unfolding put_closure
put_closure-Apart x m [] h k = tt
put_closure-Apart x m (y ∷ ys) h k = elim (Bool-cases (y.id == m.id)) [
  | inl same ↦ rw same (h, put_closure-Apart x m ys h k.1)
  | inr other ↦ rw other (k.0, put_closure-Apart x m ys h k.1)
]

put_closure-IsKeyed :
    (p : MonthClosure → Bool) (m after : MonthClosure) (ms : List MonthClosure)
    → IsKeyed ms
    → find p ms ≡ some m
    → after.id ≡ m.id
    → after.workspace_id ≡ m.workspace_id
    → after.period_month ≡ m.period_month
    → IsKeyed (put_closure after ms)
unfolding put_closure
put_closure-IsKeyed p m after [] h e id own same = tt
put_closure-IsKeyed p m after (x ∷ xs) h e id own same = elim (Bool-cases (p x)) [
  | inl here ↦
      let found : x ≡ m = ground arith in
      let key : after.id ≡ x.id = id ∙ sym (ap (λ r. r.id) found) in
      let home : after.workspace_id ≡ x.workspace_id = own ∙ sym (ap (λ r. r.workspace_id) found) in
      let month : after.period_month ≡ x.period_month =
        same ∙ sym (ap (λ r. r.period_month) found) in
      let kept =
        put_closure_none after xs
          (All-map _ (λ y. (y.id == after.id) ≡ false) xs (λ y a. rw key a.0) h.0) in
      let whole : put_closure after (x ∷ xs) ≡ after ∷ xs =
        rw (kept, (==_iff x.id after.id).1 (sym key)) refl in
      subst IsKeyed (sym whole)
        (All-map (Apart x) (Apart after) xs (λ y a. rw (key, home, month) a) h.0, h.1)
  | inr later ↦
      let there : find p xs ≡ some m = rw later at e in
      let apart = find-All (Apart x) p xs m h.0 there in
      let differ : (x.id == after.id) ≡ false = ground arith in
      rw differ (
        put_closure-Apart x after xs (rw (id, own, same) apart) h.0,
        put_closure-IsKeyed p m after xs h.1 there id own same,
      )
]

put_closure-months :
    (m : MonthClosure) (ms : List MonthClosure)
    → IsMonth m.period_month
    → All (λ n. IsMonth n.period_month) ms
    → All (λ n. IsMonth n.period_month) (put_closure m ms)
unfolding put_closure
put_closure-months m [] h k = tt
put_closure-months m (x ∷ xs) h k = elim (Bool-cases (x.id == m.id)) [
  | inl same ↦ rw same (h, put_closure-months m xs h k.1)
  | inr other ↦ rw other (k.0, put_closure-months m xs h k.1)
]

-- Putting a row of the same key, workspace and month keeps the table.
pub put_closure-IsTable :
    (workspace : ℕ) (period : Date) (m after : MonthClosure) (ms : List MonthClosure)
    → IsTable ms
    → find_closure workspace period ms ≡ some m
    → after.id ≡ m.id
    → after.workspace_id ≡ m.workspace_id
    → after.period_month ≡ m.period_month
    → IsTable (put_closure after ms)
unfolding find_closure
put_closure-IsTable workspace period m after ms h e id own same = record {
  keyed = put_closure-IsKeyed _ m after ms h.keyed e id own same;
  months =
      put_closure-months after ms
        (subst IsMonth (sym same) (find-All (λ n. IsMonth n.period_month) _ ms m h.months e))
        h.months;
}

any-snoc :
    (p : MonthClosure → Bool) (ms : List MonthClosure) (m : MonthClosure)
    → p m ≡ false
    → any p (ms ++ m ∷ []) ≡ any p ms
any-snoc p [] m h = ground arith
any-snoc p (x ∷ xs) m h = ground (arith, any-snoc p xs m h)

-- A row that is not confirmed closes nothing when it is added.
pub closed_month-append :
    (workspace n : ℕ) (ms : List MonthClosure) (m : MonthClosure)
    → is_confirmed m.status ≡ false
    → closed_month workspace n (ms ++ m ∷ []) ≡ closed_month workspace n ms
closed_month-append workspace n ms m h = any-snoc (closes workspace n) ms m (ground arith)

append-IsKeyed :
    (ms : List MonthClosure) (m : MonthClosure)
    → IsKeyed ms
    → All (λ n. (n.id == m.id) ≡ false) ms
    → All
        (λ n.
          ((n.workspace_id == m.workspace_id) && same_date n.period_month m.period_month) ≡ false)
        ms
    → IsKeyed (ms ++ m ∷ [])
append-IsKeyed [] m h fresh other = (tt, tt)
append-IsKeyed (x ∷ xs) m h fresh other = (
  All-append (Apart x) xs (m ∷ []) h.0 ((ground arith, ground arith), tt),
  append-IsKeyed xs m h.1 fresh.1 other.1,
)

missing_apart :
    (workspace : ℕ) (period : Date) (ms : List MonthClosure)
    → find_closure workspace period ms ≡ none
    → All (λ n. ((n.workspace_id == workspace) && same_date n.period_month period) ≡ false) ms
unfolding find_closure
missing_apart workspace period [] h = tt
missing_apart workspace period (x ∷ xs) h =
    elim (Bool-cases ((x.workspace_id == workspace) && same_date x.period_month period)) [
      | inl here ↦ absurd (ground arith)
      | inr other ↦ (other, missing_apart workspace period xs (rw other at h))
    ]

-- Adding a row with a new primary key for a month that has none keeps the table.
pub append-IsTable :
    (ms : List MonthClosure) (m : MonthClosure)
    → IsTable ms
    → IsMonth m.period_month
    → All (λ n. (n.id == m.id) ≡ false) ms
    → find_closure m.workspace_id m.period_month ms ≡ none
    → IsTable (ms ++ m ∷ [])
append-IsTable ms m h v fresh e = record {
  keyed = append-IsKeyed ms m h.keyed fresh (missing_apart m.workspace_id m.period_month ms e);
  months = All-append (λ n. IsMonth n.period_month) ms (m ∷ []) h.months (v, tt);
}

pub added_found :
    (p : MonthClosure → Bool) (ms : List MonthClosure) (m : MonthClosure)
    → find p ms ≡ none
    → p m ≡ true
    → find p (ms ++ m ∷ []) ≡ some m
added_found p ms m h k = find-append_none p ms m h k
