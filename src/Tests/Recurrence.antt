-- ===== src/Tests/Recurrence.antt =====
-- Runs of a recurrence rule: Mondays and Thursdays at nine, in January 2024.
use finspace.Common.{
  ℕ, ◌+◌, ◌*◌, ◌/◌, ◌≡◌, ◌≢◌, ◌≤◌, refl, subst, true, Option, none, some, [], ◌∷◌, arith,
}
use finspace.Common.Int.{pos, negsuc, ◌+ℤ◌}
use finspace.Common.Result.{ok}
use finspace.Calendar.{
  date, is_leap, days_in_month, day_after, length_of_months, to_ordinal, weekday,
}
use finspace.Recurrence.{
  weekly, monthly, Parts, Rule, Zone, read_integers, insert_integer, sorted_integers, integer_list,
  positive_integer, check_days, read_until, parse_rrule, resolved_month_days, frequency_matches,
  date_matches, in_hour, in_day, candidate_of, until_answer, search_days, or_default, search_range,
  search_from, next_occurrence, expansion, limit_exceeded, unfinished, expand, occurrences_between,
}
use finspace.Recurrence.Search.{IsFirst, next_occurrence-IsFirst}
use finspace.Recurrence.Expanded.{
  IsWhole, IsWindow, occurrences_between_ends, occurrences_between-IsWindow,
}

-- An instant of January 2024, in microseconds.
abbrev instant : ℕ → ℕ → ℕ → ℕ
instant day hour minute = ((day * 24 + hour) * 60 + minute) * 60 * 1000000

abbrev january : Zone
january = record {
  local_date = λ t. date 2024 1 (t / 86400000000);
  local_hour = λ t. 9;
  local_minute = λ t. 0;
  instant_at = λ d hour minute. instant d.day hour minute;
}

abbrev zones : ℕ → Option Zone
zones n = some january

abbrev twice_a_week : Parts
twice_a_week = record {
  freq = some weekly;
  interval = none;
  by_day = some (some 0 ∷ some 3 ∷ []);
  by_month_day = none;
  by_month = none;
  by_hour = some (some (pos 9) ∷ []);
  by_minute = none;
  until = some (some (instant 12 0 0));
}

runs :
    (next_occurrence zones twice_a_week 0 (instant 2 12 0) (some (instant 1 9 0))
      ≡ ok (some (instant 4 9 0)))
    × (next_occurrence zones twice_a_week 0 (instant 11 9 0) (some (instant 1 9 0)) ≡ ok none)
    × (occurrences_between zones twice_a_week 0
          (instant 1 9 0)
          (instant 3 0 0)
          (instant 20 0 0)
          (instant 1 9 0)
          10
        ≡ expansion (instant 4 9 0 ∷ instant 8 9 0 ∷ instant 11 9 0 ∷ []) 4)
    × (occurrences_between zones twice_a_week 0
          (instant 1 9 0)
          (instant 3 0 0)
          (instant 20 0 0)
          (instant 1 9 0)
          2
        ≡ limit_exceeded)
unfolding next_occurrence occurrences_between expand search_from search_days candidate_of in_day
    in_hour date_matches frequency_matches resolved_month_days or_default parse_rrule read_until
    check_days positive_integer integer_list sorted_integers insert_integer read_integers weekday
    to_ordinal length_of_months day_after days_in_month is_leap
runs = (refl, refl, refl, refl)

abbrev twice_a_week_rule : Rule
twice_a_week_rule = record {
  freq = weekly;
  interval = 1;
  by_day = some (some 0 ∷ some 3 ∷ []);
  by_month_day = [];
  by_month = [];
  by_hour = pos 9 ∷ [];
  by_minute = [];
  until = some (instant 12 0 0);
}

-- The last day of a month, counted from its end, in a leap year.
last_day_matches :
    date_matches
      (date 2024 2 29)
      (date 2024 1 31)
      (record twice_a_week_rule { freq = monthly; by_day = none; by_month_day = negsuc 0 ∷ [] })
    ≡ true
unfolding date_matches frequency_matches resolved_month_days weekday to_ordinal length_of_months
    days_in_month is_leap ◌+ℤ◌
last_day_matches = refl

next_occurrence-IsFirst_example :
    (rule : Rule) × (zone : Zone) × (parse_rrule twice_a_week ≡ ok rule)
    × (zones 0 ≡ some zone)
    × (t : ℕ) × IsFirst zone rule
        (zone.local_date (instant 1 9 0))
        (instant 2 12 0)
        (or_default rule.by_hour (zone.local_hour (instant 1 9 0)))
        (or_default rule.by_minute (zone.local_minute (instant 1 9 0)))
        search_range
        (ok (zone.local_date (instant 2 12 0)))
        t
    × (some (instant 4 9 0) ≡ until_answer rule.until t)
next_occurrence-IsFirst_example =
    next_occurrence-IsFirst zones twice_a_week 0 (instant 2 12 0) (some (instant 1 9 0))
      (some (instant 4 9 0)) runs.0

occurrences_between_ends_example :
    occurrences_between zones twice_a_week 0
      (instant 1 9 0)
      (instant 3 0 0)
      (instant 20 0 0)
      (instant 1 9 0)
      10
    ≢ unfinished
occurrences_between_ends_example =
    occurrences_between_ends zones twice_a_week 0 (instant 1 9 0) (instant 3 0 0) (instant 20 0 0)
      (instant 1 9 0) 10

january-IsWhole : IsWhole january
january-IsWhole d hour minute = ground arith

zones-IsWhole : (zone : Zone) → zones 0 ≡ some zone → IsWhole zone
zones-IsWhole zone h =
    let same : january ≡ zone = ground arith in subst IsWhole same january-IsWhole

occurrences_between-IsWindow_example :
    IsWindow
      (instant 3 0 0)
      (instant 20 0 0)
      (instant 1 9 0)
      (instant 4 9 0 ∷ instant 8 9 0 ∷ instant 11 9 0 ∷ [])
    × (3 ≤ 4)
    × (4 ≤ 10)
occurrences_between-IsWindow_example =
    occurrences_between-IsWindow zones twice_a_week 0 (instant 1 9 0) (instant 3 0 0)
      (instant 20 0 0) (instant 1 9 0) 10 (instant 4 9 0 ∷ instant 8 9 0 ∷ instant 11 9 0 ∷ []) 4
      zones-IsWhole runs.2
