-- ===== src/Guard/Closed.antt =====
-- What `closed_dates` returns and what `assert_dates_open` lets through.
use mathlib.Core.List
use finspace.Common.{
  ℕ, ◌≡◌, ◌↔◌, refl, Bool, true, false, Option, none, some, List, [], ◌∷◌, ◌||◌, ◌&&◌, ◌==◌, ap,
  not, sym, ◌∙◌, arith, any, all, All, All-map, filter, Bool-cases, inl, inr, if◌then◌else◌,
}
use finspace.Common.Result.{ok}
use finspace.Calendar.{Date, date_leb, date_ltb}
use finspace.Model.{MonthCloseControl, Runtime}
use finspace.Guard.{
  When, local_date_of, closed_in, insert_date, sorted_dates, raise_closed, closed_dates,
  assert_dates_open,
}

date_cases : (a b : Date) → date_ltb a b ≡ false → date_ltb b a ≡ false → a ≡ b
date_cases a b h k = ground arith

or_swap : (a b c : Bool) → (a || (b || c)) ≡ (b || (a || c))
or_swap a b c = ground arith

and_false : (a : Bool) → false ≡ (a && false)
and_false a = ground arith

negated_twice : (a : Bool) → a ≡ not (not a)
negated_twice a = ground arith

or_idem : (a b : Bool) → (a || b) ≡ (a || (a || b))
or_idem a b = ground arith

any-insert_date :
    (p : Date → Bool) (d : Date) (ds : List Date) → any p (insert_date d ds) ≡ (p d || any p ds)
unfolding insert_date
any-insert_date p d [] = refl
any-insert_date p d (e ∷ es) = elim (Bool-cases (date_ltb d e)) [
  | inl before ↦ rw before
  | inr not_before ↦ elim (Bool-cases (date_ltb e d)) [
    | inl after ↦ rw (not_before, after) (rw (any-insert_date p d es) (or_swap (p e) (p d) _))
    | inr not_after ↦
        rw (not_before, not_after) (rw (date_cases d e not_before not_after) (or_idem (p e) _))
  ]
]

any-sorted_dates : (p : Date → Bool) (ds : List Date) → any p (sorted_dates ds) ≡ any p ds
unfolding sorted_dates
any-sorted_dates p [] = refl
any-sorted_dates p (d ∷ ds) =
    rw (any-insert_date p d (sorted_dates ds)) (rw (any-sorted_dates p ds))

-- The dates are in ascending order, none twice.
abbrev pub IsAscending : List Date → Type 0
IsAscending [] = Unit
IsAscending (d ∷ ds) = All (λ e. date_ltb d e ≡ true) ds × IsAscending ds

All-insert_date :
    (a d : Date) (ds : List Date)
    → date_ltb a d ≡ true
    → All (λ e. date_ltb a e ≡ true) ds
    → All (λ e. date_ltb a e ≡ true) (insert_date d ds)
unfolding insert_date
All-insert_date a d [] h k = (h, tt)
All-insert_date a d (e ∷ es) h k = elim (Bool-cases (date_ltb d e)) [
  | inl before ↦ rw before (h, k)
  | inr not_before ↦ elim (Bool-cases (date_ltb e d)) [
    | inl after ↦ rw (not_before, after) (k.0, All-insert_date a d es h k.1)
    | inr not_after ↦ rw (not_before, not_after) k
  ]
]

date_ltb_trans : (a b c : Date) → date_ltb a b ≡ true → date_ltb b c ≡ true → date_ltb a c ≡ true
date_ltb_trans a b c h k = ground arith

insert_date-IsAscending :
    (d : Date) (ds : List Date) → IsAscending ds → IsAscending (insert_date d ds)
unfolding insert_date
insert_date-IsAscending d [] h = (tt, tt)
insert_date-IsAscending d (e ∷ es) h = elim (Bool-cases (date_ltb d e)) [
  | inl before ↦ rw before ((before, All-map _ _ es (λ x k. date_ltb_trans d e x before k) h.0), h)
  | inr not_before ↦ elim (Bool-cases (date_ltb e d)) [
    | inl after ↦
        rw (not_before, after) (All-insert_date e d es after h.0, insert_date-IsAscending d es h.1)
    | inr not_after ↦ rw (not_before, not_after) h
  ]
]

sorted_dates-IsAscending : (ds : List Date) → IsAscending (sorted_dates ds)
unfolding sorted_dates
sorted_dates-IsAscending [] = tt
sorted_dates-IsAscending (d ∷ ds) = insert_date-IsAscending d _ (sorted_dates-IsAscending ds)

All-filter {ℓ} :
    (P : Date → Type ℓ) (p : Date → Bool) (ds : List Date) → All P ds → All P (filter p ds)
All-filter P p [] h = tt
All-filter P p (d ∷ ds) h =
    elim (p d) as (λ b. All P (if b then d ∷ filter p ds else filter p ds)) [
      | true ↦ (h.0, All-filter P p ds h.1)
      | false ↦ All-filter P p ds h.1
    ]

filter-IsAscending : (p : Date → Bool) (ds : List Date) → IsAscending ds → IsAscending (filter p ds)
filter-IsAscending p [] h = tt
filter-IsAscending p (d ∷ ds) h =
    elim (p d) as (λ b. IsAscending (if b then d ∷ filter p ds else filter p ds)) [
      | true ↦ (All-filter _ p ds h.0, filter-IsAscending p ds h.1)
      | false ↦ filter-IsAscending p ds h.1
    ]

closed_in-IsAscending :
    (through : Option Date) (ds : List Date) → IsAscending ds → IsAscending (closed_in through ds)
closed_in-IsAscending none ds h = tt
closed_in-IsAscending (some through) ds h = filter-IsAscending _ ds h

-- A date is open unless the workspace is closed through a date that is not before it.
abbrev pub is_open : Option Date → Date → Bool
is_open none d = true
is_open (some through) d = not (date_leb d through)

abbrev pub is_date : Date → Date → Bool
is_date a b = (a.year == b.year) && (a.month == b.month) && (a.day == b.day)

is_date_eq : (a b : Date) → is_date a b ≡ true → a ≡ b
is_date_eq a b h = ground arith

any-filter_date :
    (d : Date) (q : Date → Bool) (ds : List Date)
    → any (is_date d) (filter q ds) ≡ (any (is_date d) ds && q d)
any-filter_date d q [] = refl
any-filter_date d q (e ∷ es) = elim (Bool-cases (is_date d e)) [
  | inl same ↦
      let kept : q e ≡ q d = ap q (sym (is_date_eq d e same)) in
      elim (Bool-cases (q d)) [
        | inl there ↦ rw (kept, there, same) refl
        | inr out ↦
            rw (kept, out)
              (any-filter_date d q es
                ∙ ap (λ b. any (is_date d) es && b) out
                ∙ sym (and_false _)
                ∙ and_false _)
      ]
  | inr other ↦ elim (Bool-cases (q e)) [
    | inl there ↦ rw (there, other) (any-filter_date d q es)
    | inr out ↦ rw (out, other) (any-filter_date d q es)
  ]
]

any-closed_in :
    (through : Option Date) (d : Date) (ds : List Date)
    → any (is_date d) (closed_in through ds) ≡ (any (is_date d) ds && not (is_open through d))
any-closed_in none d ds = and_false _
any-closed_in (some through) d ds =
    any-filter_date d (λ e. date_leb e through) ds
    ∙ ap (λ b. any (is_date d) ds && b) (negated_twice (date_leb d through))

-- `closed_dates` reports, in strictly ascending order, exactly the dates that are asked for, taken
-- in the time zone, and are not open.
pub closed_dates_lem :
    (rt : Runtime) (control : MonthCloseControl) (timezone : ℕ) (affected : List When)
    → IsAscending (closed_dates rt control timezone affected)
      × ((d : Date)
          → any (is_date d) (closed_dates rt control timezone affected) ≡ (
              any (is_date d) (List.map (local_date_of rt timezone) affected)
              && not (is_open control.closed_through d)))
unfolding closed_dates
closed_dates_lem rt control timezone affected =
    let asked = List.map (local_date_of rt timezone) affected in
    (
      closed_in-IsAscending control.closed_through _ (sorted_dates-IsAscending asked),
      λ d.
          any-closed_in control.closed_through d (sorted_dates asked)
          ∙ ap (λ b. b && not (is_open control.closed_through d))
              (any-sorted_dates (is_date d) asked),
    )

not_any-filter : (p : Date → Bool) (ds : List Date) → (filter p ds ≡ []) ↔ (any p ds ≡ false)
not_any-filter p [] = (λ h. refl, λ h. refl)
not_any-filter p (d ∷ ds) =
    elim (p d)
      as (λ b. ((if b then d ∷ filter p ds else filter p ds) ≡ []) ↔ ((b || any p ds) ≡ false)) [
        | true ↦ (λ h. cc, λ h. cc)
        | false ↦ not_any-filter p ds
      ]

any-eq-not-all :
    (p : Date → Bool) (ds : List Date) → (any p ds ≡ false) ↔ (all (λ d. not (p d)) ds ≡ true)
any-eq-not-all p [] = (λ h. refl, λ h. refl)
any-eq-not-all p (d ∷ ds) =
    let ih = any-eq-not-all p ds in (λ h. ground (arith, ih.0), λ h. ground (arith, ih.1))

all-true : (ds : List Date) → all (λ d. true) ds ≡ true
all-true [] = refl
all-true (d ∷ ds) = all-true ds

closed_in-eq-nil :
    (through : Option Date) (ds : List Date)
    → (closed_in through (sorted_dates ds) ≡ []) ↔ (all (is_open through) ds ≡ true)
closed_in-eq-nil none ds = (λ h. all-true ds, λ h. refl)
closed_in-eq-nil (some through) ds =
    let reported = not_any-filter (λ d. date_leb d through) (sorted_dates ds) in
    let given = any-eq-not-all (λ d. date_leb d through) ds in
    let same = any-sorted_dates (λ d. date_leb d through) ds in
    (λ h. given.0 (sym same ∙ reported.0 h), λ h. reported.1 (same ∙ given.1 h))

raise_closed-eq-ok : (ds : List Date) → (raise_closed ds ≡ ok tt) ↔ (ds ≡ [])
raise_closed-eq-ok [] = (λ h. refl, λ h. refl)
raise_closed-eq-ok (d ∷ ds) = (λ h. cc, λ h. cc)

-- The guard lets a request through exactly when each of its dates, taken in the time zone, is
-- open: the workspace has no closed month, or the date is past the last closed day.
pub assert_dates_open-eq-ok :
    (rt : Runtime) (control : MonthCloseControl) (timezone : ℕ) (affected : List When)
    → (assert_dates_open rt control timezone affected ≡ ok tt) ↔ (
        all (is_open control.closed_through) (List.map (local_date_of rt timezone) affected) ≡ true)
unfolding assert_dates_open
assert_dates_open-eq-ok rt control timezone affected =
    let dates = List.map (local_date_of rt timezone) affected in
    let raised = raise_closed-eq-ok (closed_in control.closed_through (sorted_dates dates)) in
    let nothing = closed_in-eq-nil control.closed_through dates in
    (λ h. nothing.0 (raised.0 h), λ h. raised.1 (nothing.1 h))
