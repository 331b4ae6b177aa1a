-- ===== src/Recurrence/Search.antt =====
-- The search for the next occurrence answers the first day on which the rule falls due.
use finspace.Common.{
  ℕ, ◌<◌, zero, suc, ◌≡◌, refl, subst, Option, some, List, arith, Option-cases, inl, inr,
}
use finspace.Common.Result.{Result, ok, err, ◌>>=◌, Result-cases}
use finspace.Calendar.{Date, day_after}
use finspace.Recurrence.{
  Parts, Zone, Rule, parse_rrule, or_default, or_instant, candidate_of, until_answer, search_days,
  search_range, search_from, next_occurrence,
}
use finspace.Recurrence.Due.{IsDue, NoneDue, candidate_of-some, candidate_of-none}

-- `start + timedelta(days=n)`, as the loop comes to it.
abbrev pub days_after : ℕ → Result Date → Result Date
days_after zero here = here
days_after (suc n) here = days_after n (here >>= day_after)

-- The rule falls due at an instant of a day in reach, and not on the days before it.
pub record IsFirst (zone : Zone) (rule : Rule) (anchor : Date) (after : ℕ) (hours minutes : List ℕ)
    (turns : ℕ) (here : Result Date) (t : ℕ) : Type 0 where
  pub offset : ℕ
  pub in_reach : offset < turns
  pub day : Date
  pub on_day : days_after offset here ≡ ok day
  pub due : IsDue zone rule anchor after hours minutes day t
  pub none_before :
      (j : ℕ) (d : Date)
      → j < offset
      → days_after j here ≡ ok d
      → NoneDue zone rule anchor after hours minutes d

-- The next turn's answer is this turn's, if the rule does not fall due on this day.
later-IsFirst :
    (zone : Zone) (rule : Rule) (anchor : Date) (after : ℕ) (hours minutes : List ℕ) (turns : ℕ)
    (d : Date) (t : ℕ)
    → NoneDue zone rule anchor after hours minutes d
    → IsFirst zone rule anchor after hours minutes turns (day_after d) t
    → IsFirst zone rule anchor after hours minutes (suc turns) (ok d) t
later-IsFirst zone rule anchor after hours minutes turns d t out first = record {
  offset = suc first.offset;
  in_reach = ground (arith, first.in_reach);
  day = first.day;
  on_day = first.on_day;
  due = first.due;
  none_before = before;
}
  where
    before :
        (j : ℕ) (e : Date)
        → j < suc first.offset
        → days_after j (ok d) ≡ ok e
        → NoneDue zone rule anchor after hours minutes e
    before zero e h at = subst (NoneDue zone rule anchor after hours minutes) (ground arith) out
    before (suc j) e h at = first.none_before j e (ground arith) at

search_days-IsFirst :
    (zone : Zone) (rule : Rule) (anchor : Date) (after : ℕ) (hours minutes : List ℕ) (turns : ℕ)
    (here : Result Date) (o : Option ℕ)
    → search_days zone rule anchor after hours minutes turns here ≡ ok o
    → (t : ℕ) × IsFirst zone rule anchor after hours minutes turns here t
      × (o ≡ until_answer rule.until t)
unfolding search_days
search_days-IsFirst zone rule anchor after hours minutes zero here o h = absurd (ground arith)
search_days-IsFirst zone rule anchor after hours minutes (suc turns) (err e) o h =
    absurd (ground arith)
search_days-IsFirst zone rule anchor after hours minutes (suc turns) (ok d) o h =
    elim (Option-cases (candidate_of zone rule anchor after hours minutes d)) [
      | inr (t, found) ↦ (
        t,
        record {
          offset = 0;
          in_reach = ground arith;
          day = d;
          on_day = refl;
          due = candidate_of-some zone rule anchor after hours minutes d t found;
          none_before = λ j e early at. absurd (ground arith);
        },
        ground arith,
      )
      | inl missing ↦
          let (t, first, answer) =
            search_days-IsFirst zone rule anchor after hours minutes turns (day_after d) o
              (ground arith) in
          (
            t,
            later-IsFirst zone rule anchor after hours minutes turns d t
                (candidate_of-none zone rule anchor after hours minutes d missing) first,
            answer,
          )
    ]

-- A search that succeeds has read a valid rule and a known zone. It found the first day, from that
-- of the instant `after` on and within 20 times 366 days, on which the rule falls due after this
-- instant, and an instant of that day; it answers this, or nothing if it is past the end of the
-- rule.
pub next_occurrence-IsFirst :
    (zones : ℕ → Option Zone) (parts : Parts) (timezone after : ℕ) (anchor : Option ℕ)
    (o : Option ℕ)
    → next_occurrence zones parts timezone after anchor ≡ ok o
    → (rule : Rule) × (zone : Zone) × (parse_rrule parts ≡ ok rule)
      × (zones timezone ≡ some zone)
      × (t : ℕ) × IsFirst zone rule
          (zone.local_date (or_instant anchor after))
          after
          (or_default rule.by_hour (zone.local_hour (or_instant anchor after)))
          (or_default rule.by_minute (zone.local_minute (or_instant anchor after)))
          search_range
          (ok (zone.local_date after))
          t
      × (o ≡ until_answer rule.until t)
unfolding next_occurrence search_from
next_occurrence-IsFirst zones parts timezone after anchor o h =
    elim (Result-cases (parse_rrule parts)) [
      | inr (e, failed) ↦ absurd (ground arith)
      | inl (rule, parsed) ↦ elim (Option-cases (zones timezone)) [
        | inl missing ↦ absurd (ground arith)
        | inr (zone, known) ↦
            let (t, first, answer) =
              search_days-IsFirst zone rule (zone.local_date (or_instant anchor after)) after
                (or_default rule.by_hour (zone.local_hour (or_instant anchor after)))
                (or_default rule.by_minute (zone.local_minute (or_instant anchor after)))
                search_range (ok (zone.local_date after)) o (rw (parsed, known) at h) in
            (rule, zone, parsed, known, t, first, answer)
      ]
    ]
