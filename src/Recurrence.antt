-- ===== src/Recurrence.antt =====
-- Recurrence rules: backend/app/services/recurrence.py, from the parts of a rule to the instants
-- at which it falls due. The text of a rule is read into `Parts` beforehand: a part is there or
-- not, and an item that `int`, `WEEKDAYS` or `strptime` refuses is `none`.
use finspace.Common.{
  is_empty, ℕ, ◌+◌, ◌-◌, ◌*◌, ◌/◌, ◌%◌, zero, suc, Bool, true, false, Option, none, some, List, [],
  ◌∷◌, ◌&&◌, ◌||◌, not, ◌==◌, ltb, leb, if◌then◌else◌, is_some, is_none, same_option, any,
}
use finspace.Common.Int.{ℤ, pos, negsuc, ◌+ℤ◌, ltb_ℤ, eqb_ℤ, pos_part}
use finspace.Common.Result.{
  Result, ok, err, ApiError, ◌>>=◌, ◌>>◌, api_error, raise_if, or_raise, recurring_rule_invalid,
}
use finspace.Calendar.{Date, days_in_month, day_after, to_ordinal, weekday}
pub mod Due
pub mod Search
pub mod Expanded

-- `FREQ`
pub data Frequency : Type 0 where
  daily weekly monthly yearly : Frequency

pub record Parts : Type 0 where
  pub freq : Option Frequency
  pub interval : Option (Option ℤ)
  pub by_day : Option (List (Option ℕ))
  pub by_month_day : Option (List (Option ℤ))
  pub by_month : Option (List (Option ℤ))
  pub by_hour : Option (List (Option ℤ))
  pub by_minute : Option (List (Option ℤ))
  pub until : Option (Option ℕ)

-- The values of the parts, which the code reads again where it needs them.
pub record Rule : Type 0 where
  pub freq : Frequency
  pub interval : ℕ
  pub by_day : Option (List (Option ℕ))
  pub by_month_day : List ℤ
  pub by_month : List ℤ
  pub by_hour : List ℤ
  pub by_minute : List ℤ
  pub until : Option ℕ

-- What `zoneinfo` tells of a time zone: the local date, hour and minute of an instant, and the
-- instant of a local time.
pub record Zone : Type 0 where
  pub local_date : ℕ → Date
  pub local_hour : ℕ → ℕ
  pub local_minute : ℕ → ℕ
  pub instant_at : Date → ℕ → ℕ → ℕ

abbrev pub invalid_rrule {ℓ} : {A : Type ℓ} → Result A
invalid_rrule = err (api_error 422 recurring_rule_invalid)

-- `[int(item) for item in ...]`
unfoldable pub read_integers : List (Option ℤ) → Result (List ℤ)
read_integers [] = ok []
read_integers (none ∷ items) = invalid_rrule
read_integers (some value ∷ items) = do values ← read_integers items; ok (value ∷ values)

-- `sorted(set(values))`
unfoldable pub insert_integer : ℤ → List ℤ → List ℤ
insert_integer v [] = v ∷ []
insert_integer v (w ∷ ws) =
    let rest = insert_integer v ws in
    if ltb_ℤ v w then v ∷ w ∷ ws else if ltb_ℤ w v then w ∷ rest else w ∷ ws

unfoldable pub sorted_integers : List ℤ → List ℤ
unfolding insert_integer
sorted_integers [] = []
sorted_integers (v ∷ vs) = insert_integer v (sorted_integers vs)

unfoldable pub integer_list : Option (List (Option ℤ)) → ℤ → ℤ → Result (List ℤ)
unfolding read_integers sorted_integers
integer_list none lower upper = ok []
integer_list (some items) lower upper = do
  values ← read_integers items
  raise_if (is_empty values || any (λ v. ltb_ℤ v lower || ltb_ℤ upper v) values) 422
      recurring_rule_invalid
  ok (sorted_integers values)

unfoldable pub positive_integer : Option (Option ℤ) → ℤ → Result ℕ
positive_integer none upper = ok 1
positive_integer (some none) upper = invalid_rrule
positive_integer (some (some value)) upper = do
  raise_if (ltb_ℤ value (pos 1) || ltb_ℤ upper value) 422 recurring_rule_invalid
  ok (pos_part value)

unfoldable pub check_days : Option (List (Option ℕ)) → Result (Unit {0})
check_days none = ok tt
check_days (some days) =
    raise_if (is_empty days || any (λ d. is_none d) days) 422 recurring_rule_invalid

unfoldable pub read_until : Option (Option ℕ) → Result (Option ℕ)
read_until none = ok none
read_until (some none) = invalid_rrule
read_until (some (some t)) = ok (some t)

unfoldable pub parse_rrule : Parts → Result Rule
unfolding integer_list positive_integer check_days read_until
parse_rrule parts = do
  freq ← or_raise parts.freq 422 recurring_rule_invalid
  interval ← positive_integer parts.interval (pos 366)
  hours ← integer_list parts.by_hour (pos 0) (pos 23)
  minutes ← integer_list parts.by_minute (pos 0) (pos 59)
  months ← integer_list parts.by_month (pos 1) (pos 12)
  month_days ← integer_list parts.by_month_day (negsuc 30) (pos 31)
  raise_if (any (λ v. eqb_ℤ v (pos 0)) month_days) 422 recurring_rule_invalid
  check_days parts.by_day
  until ← read_until parts.until
  ok (record {
    freq = freq;
    interval = interval;
    by_day = parts.by_day;
    by_month_day = month_days;
    by_month = months;
    by_hour = hours;
    by_minute = minutes;
    until = until;
  })

-- `_resolved_month_days`: a negative day counts from the end of the month.
unfoldable pub resolved_month_days : Date → List ℤ → List ℤ
resolved_month_days d [] = []
resolved_month_days d (v ∷ vs) =
    (if ltb_ℤ (pos 0) v then v else pos (days_in_month d.year d.month) +ℤ v +ℤ pos 1)
    ∷ resolved_month_days d vs

abbrev pub has_weekday : Option (List (Option ℕ)) → ℕ → Bool
has_weekday none w = true
has_weekday (some days) w = any (λ d. same_option d (some w)) days

-- A part that is there and does not have the value.
abbrev pub lacks : List ℤ → ℕ → Bool
lacks values n = not (is_empty values) && not (any (λ v. eqb_ℤ v (pos n)) values)

unfoldable pub frequency_matches : Date → Date → Rule → List ℤ → Bool
frequency_matches d anchor rule month_days = elim rule.freq [
  | daily ↦
      leb (to_ordinal anchor) (to_ordinal d)
      && ((to_ordinal d - to_ordinal anchor) % rule.interval == 0)
  | weekly ↦
      leb (to_ordinal anchor) (to_ordinal d)
      && ((to_ordinal d - to_ordinal anchor) / 7 % rule.interval == 0)
      && (is_some rule.by_day || (weekday d == weekday anchor))
  | monthly ↦
      leb (anchor.year * 12 + anchor.month) (d.year * 12 + d.month)
      && ((d.year * 12 + d.month - (anchor.year * 12 + anchor.month)) % rule.interval == 0)
      && (not (is_empty month_days) || (d.day == anchor.day))
  | yearly ↦
      leb anchor.year d.year
      && ((d.year - anchor.year) % rule.interval == 0)
      && (not (is_empty rule.by_month) || (d.month == anchor.month))
      && (not (is_empty month_days) || (d.day == anchor.day))
]

-- `_date_matches`
unfoldable pub date_matches : Date → Date → Rule → Bool
unfolding frequency_matches resolved_month_days
date_matches d anchor rule =
    let month_days = resolved_month_days d rule.by_month_day in
    if not (has_weekday rule.by_day (weekday d))
    then false
    else if lacks rule.by_month d.month
    then false
    else if lacks month_days d.day
    then false
    else frequency_matches d anchor rule month_days

-- The loop over the minutes of an hour: the first instant after a given one.
unfoldable pub in_hour : Zone → ℕ → Date → ℕ → List ℕ → Option ℕ
in_hour zone after d hour [] = none
in_hour zone after d hour (minute ∷ minutes) =
    let rest = in_hour zone after d hour minutes in
    if leb (zone.instant_at d hour minute) after then rest else some (zone.instant_at d hour minute)

-- The loop over the hours of a day.
unfoldable pub in_day : Zone → ℕ → Date → List ℕ → List ℕ → Option ℕ
unfolding in_hour
in_day zone after d [] minutes = none
in_day zone after d (hour ∷ hours) minutes = elim (in_hour zone after d hour minutes) [
  | some t ↦ some t
  | none ↦ in_day zone after d hours minutes
]

-- `if until is not None and candidate > until: return None`
abbrev pub until_answer : Option ℕ → ℕ → Option ℕ
until_answer none t = some t
until_answer (some until) t = if ltb until t then none else some t

unfoldable pub candidate_of : Zone → Rule → Date → ℕ → List ℕ → List ℕ → Date → Option ℕ
unfolding in_day date_matches
candidate_of zone rule anchor after hours minutes d =
    if date_matches d anchor rule then in_day zone after d hours minutes else none

-- The loop over the days, from the date of the present turn.
unfoldable pub search_days :
    Zone → Rule → Date → ℕ → List ℕ → List ℕ → ℕ → Result Date → Result (Option ℕ)
unfolding candidate_of
search_days zone rule anchor after hours minutes zero here = invalid_rrule
search_days zone rule anchor after hours minutes (suc turns) here = do
  d ← here
  elim (candidate_of zone rule anchor after hours minutes d) [
    | some t ↦ ok (until_answer rule.until t)
    | none ↦ search_days zone rule anchor after hours minutes turns (day_after d)
  ]

-- `values or [default]`, as hours or minutes.
unfoldable pub or_default : List ℤ → ℕ → List ℕ
or_default [] default = default ∷ []
or_default (v ∷ []) default = pos_part v ∷ []
or_default (v ∷ w ∷ ws) default = pos_part v ∷ or_default (w ∷ ws) default

abbrev pub search_range : ℕ
search_range = 366 * 20

abbrev pub or_instant : Option ℕ → ℕ → ℕ
or_instant none t = t
or_instant (some a) t = a

unfoldable pub search_from : Zone → Rule → ℕ → ℕ → Result (Option ℕ)
unfolding search_days or_default
search_from zone rule after anchor =
    search_days zone rule (zone.local_date anchor) after
      (or_default rule.by_hour (zone.local_hour anchor))
      (or_default rule.by_minute (zone.local_minute anchor)) search_range
      (ok (zone.local_date after))

-- `zones` is `ZoneInfo`, and `none` its `ZoneInfoNotFoundError`.
unfoldable pub next_occurrence : (ℕ → Option Zone) → Parts → ℕ → ℕ → Option ℕ → Result (Option ℕ)
unfolding parse_rrule search_from
next_occurrence zones parts timezone after anchor = do
  rule ← parse_rrule parts
  zone ← or_raise (zones timezone) 422 recurring_rule_invalid
  search_from zone rule after (or_instant anchor after)

-- `OccurrenceExpansion`, or how the expansion ends otherwise; `unfinished` is the end of the fuel.
pub data Expansion : Type 0 where
  expansion : List ℕ → ℕ → Expansion
  limit_exceeded unfinished : Expansion
  failed : ApiError → Expansion

-- `.replace(microsecond=0)`
abbrev pub whole_second : ℕ → ℕ
whole_second t = t / 1000000 * 1000000

-- `occurrences.append(current)`, with what the later turns append.
abbrev pub append_from : ℕ → ℕ → Expansion → Expansion
append_from start current (expansion occurrences count) =
    expansion (if leb start current then current ∷ occurrences else occurrences) count
append_from start current limit_exceeded = limit_exceeded
append_from start current unfinished = unfinished
append_from start current (failed e) = failed e

-- The while loop, for a search of the next instant.
unfoldable pub expand : (ℕ → Result (Option ℕ)) → ℕ → ℕ → ℕ → ℕ → ℕ → ℕ → Expansion
expand next start end limit zero count current = unfinished
expand next start end limit (suc fuel) count current = elim (ltb current end) [
  | false ↦ expansion [] count
  | true ↦ elim (ltb limit (count + 1)) [
    | true ↦ limit_exceeded
    | false ↦ elim (next current) [
      | err e ↦ failed e
      | ok none ↦ append_from start current (expansion [] (count + 1))
      | ok (some following) ↦
          append_from start current
            (expand next start end limit fuel (count + 1) (whole_second following))
    ]
  ]
]

unfoldable pub occurrences_between : (ℕ → Option Zone) → Parts → ℕ → ℕ → ℕ → ℕ → ℕ → ℕ → Expansion
unfolding expand next_occurrence
occurrences_between zones parts timezone first_occurrence start end anchor limit =
    if ltb limit 1
    then limit_exceeded
    else expand (λ t. next_occurrence zones parts timezone t (some anchor)) start end limit
        (limit + 1) 0 (whole_second first_occurrence)
