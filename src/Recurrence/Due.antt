-- ===== src/Recurrence/Due.antt =====
-- When a rule falls due, without the order in which the code looks for it.
use mathlib.Core.List.{Mem, mem-cons_self, mem-cons_of_mem}
use finspace.Common.{
  ℕ, ◌≤◌, ◌<◌, ◌≡◌, true, none, some, List, [], ◌∷◌, leb, arith, All, Bool-cases, Option-cases, inl,
  inr,
}
use finspace.Calendar.{Date}
use finspace.Recurrence.{Zone, Rule, date_matches, in_hour, in_day, candidate_of}

-- An instant of a day at which a rule falls due, after a given one.
pub record IsDue (zone : Zone) (rule : Rule) (anchor : Date) (after : ℕ) (hours minutes : List ℕ)
    (d : Date) (t : ℕ) : Type 0 where
  pub matches_date : date_matches d anchor rule ≡ true
  pub hour : ℕ
  pub of_hours : Mem hour hours
  pub minute : ℕ
  pub of_minutes : Mem minute minutes
  pub at_minute : t ≡ zone.instant_at d hour minute
  pub is_later : after < t

-- A day on which the rule does not fall due after a given instant.
abbrev pub NoneDue : Zone → Rule → Date → ℕ → List ℕ → List ℕ → Date → Type 0
NoneDue zone rule anchor after hours minutes d =
    date_matches d anchor rule ≡ true
    → All (λ h. All (λ m. zone.instant_at d h m ≤ after) minutes) hours

in_hour-some :
    (zone : Zone) (after : ℕ) (d : Date) (hour : ℕ) (minutes : List ℕ) (t : ℕ)
    → in_hour zone after d hour minutes ≡ some t
    → (minute : ℕ) × Mem minute minutes × (t ≡ zone.instant_at d hour minute) × (after < t)
unfolding in_hour
in_hour-some zone after d hour [] t h = cc
in_hour-some zone after d hour (m ∷ ms) t h =
    elim (Bool-cases (leb (zone.instant_at d hour m) after)) [
      | inl early ↦
          let (minute, mem, at, late) = in_hour-some zone after d hour ms t (rw early at h) in
          (minute, mem-cons_of_mem _ mem, at, late)
      | inr late ↦ (m, mem-cons_self, ground arith, ground arith)
    ]

in_hour-none :
    (zone : Zone) (after : ℕ) (d : Date) (hour : ℕ) (minutes : List ℕ)
    → in_hour zone after d hour minutes ≡ none
    → All (λ m. zone.instant_at d hour m ≤ after) minutes
unfolding in_hour
in_hour-none zone after d hour [] h = tt
in_hour-none zone after d hour (m ∷ ms) h =
    elim (Bool-cases (leb (zone.instant_at d hour m) after)) [
      | inl early ↦ (ground arith, in_hour-none zone after d hour ms (rw early at h))
      | inr late ↦ absurd (ground arith)
    ]

in_day-some :
    (zone : Zone) (after : ℕ) (d : Date) (hours minutes : List ℕ) (t : ℕ)
    → in_day zone after d hours minutes ≡ some t
    → (hour : ℕ) × Mem hour hours
      × (minute : ℕ) × Mem minute minutes
      × (t ≡ zone.instant_at d hour minute)
      × (after < t)
unfolding in_day
in_day-some zone after d [] minutes t h = cc
in_day-some zone after d (hour ∷ hours) minutes t h =
    elim (Option-cases (in_hour zone after d hour minutes)) [
      | inl missing ↦
          let (other, of_hours, minute, of_minutes, at, late) =
            in_day-some zone after d hours minutes t (ground arith) in
          (other, mem-cons_of_mem _ of_hours, minute, of_minutes, at, late)
      | inr (u, found) ↦
          let same : u ≡ t = ground arith in
          let (minute, mem, at, late) = in_hour-some zone after d hour minutes u found in
          (hour, mem-cons_self, minute, mem, rw (← same) at, rw (← same) late)
    ]

in_day-none :
    (zone : Zone) (after : ℕ) (d : Date) (hours minutes : List ℕ)
    → in_day zone after d hours minutes ≡ none
    → All (λ h. All (λ m. zone.instant_at d h m ≤ after) minutes) hours
unfolding in_day
in_day-none zone after d [] minutes h = tt
in_day-none zone after d (hour ∷ hours) minutes h =
    elim (Option-cases (in_hour zone after d hour minutes)) [
      | inr (u, found) ↦ absurd (ground arith)
      | inl missing ↦ (
        in_hour-none zone after d hour minutes missing,
        in_day-none zone after d hours minutes (ground arith),
      )
    ]

pub candidate_of-some :
    (zone : Zone) (rule : Rule) (anchor : Date) (after : ℕ) (hours minutes : List ℕ) (d : Date)
    (t : ℕ)
    → candidate_of zone rule anchor after hours minutes d ≡ some t
    → IsDue zone rule anchor after hours minutes d t
unfolding candidate_of
candidate_of-some zone rule anchor after hours minutes d t h =
    elim (Bool-cases (date_matches d anchor rule)) [
      | inr other ↦ absurd (ground arith)
      | inl same ↦
          let (hour, of_hours, minute, of_minutes, at, late) =
            in_day-some zone after d hours minutes t (ground arith) in
          record {
            matches_date = same;
            hour = hour;
            of_hours = of_hours;
            minute = minute;
            of_minutes = of_minutes;
            at_minute = at;
            is_later = late;
          }
    ]

pub candidate_of-none :
    (zone : Zone) (rule : Rule) (anchor : Date) (after : ℕ) (hours minutes : List ℕ) (d : Date)
    → candidate_of zone rule anchor after hours minutes d ≡ none
    → NoneDue zone rule anchor after hours minutes d
unfolding candidate_of
candidate_of-none zone rule anchor after hours minutes d h same =
    in_day-none zone after d hours minutes (rw same at h)
