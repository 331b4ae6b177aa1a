-- ===== src/Recurrence/Expanded.antt =====
-- The expansion of a rule between two instants stays within its bounds, and comes to an end.
use finspace.Common.{
  ℕ, ◌+◌, ◌≤◌, ◌<◌, zero, suc, ◌≡◌, ◌≢◌, refl, sym, ap, ◌∙◌, subst, Option, none, some, List, [],
  ◌∷◌, length, ltb, leb, if◌then◌else◌, arith, All, All-map, Bool-cases, inl, inr,
}
use finspace.Common.Result.{Result, ok, Result-cases}
use finspace.Calendar.{Date}
use finspace.Recurrence.{
  Parts, Zone, whole_second, Expansion, expansion, limit_exceeded, unfinished, failed, append_from,
  expand, next_occurrence, occurrences_between,
}
use finspace.Recurrence.Search.{next_occurrence-IsFirst}

abbrev pub IsAscending : List ℕ → Type 0
IsAscending [] = Unit
IsAscending (t ∷ ts) = All (λ u. t < u) ts × IsAscending ts

-- Instants of an interval, from a given one on, in strictly ascending order.
pub record IsWindow (start end current : ℕ) (ts : List ℕ) : Type 0 where
  pub inside : All (λ t. (start ≤ t) × (t < end)) ts
  pub from_current : All (λ t. current ≤ t) ts
  pub ascending : IsAscending ts

-- A search that goes ahead by a second at least.
abbrev Advances : (ℕ → Result (Option ℕ)) → Type 0
Advances next = (t u : ℕ) → next t ≡ ok (some u) → t < whole_second u

append_from-cases :
    (start current : ℕ) (rest : Expansion) (ts : List ℕ) (n : ℕ)
    → append_from start current rest ≡ expansion ts n
    → (us : List ℕ) × (rest ≡ expansion us n)
      × (ts ≡ (if leb start current then current ∷ us else us))
append_from-cases start current (expansion us m) ts n h = (us, ground arith, ground arith)
append_from-cases start current limit_exceeded ts n h = absurd (ground arith)
append_from-cases start current unfinished ts n h = absurd (ground arith)
append_from-cases start current (failed e) ts n h = absurd (ground arith)

append_from-unfinished :
    (start current : ℕ) (rest : Expansion)
    → append_from start current rest ≡ unfinished
    → rest ≡ unfinished
append_from-unfinished start current (expansion us m) h = absurd (ground arith)
append_from-unfinished start current limit_exceeded h = absurd (ground arith)
append_from-unfinished start current unfinished h = refl
append_from-unfinished start current (failed e) h = absurd (ground arith)

-- The window of this turn, from that of the turns after it.
append_from-IsWindow :
    (start end current following : ℕ) (us : List ℕ)
    → current < end
    → current < following
    → IsWindow start end following us
    → IsWindow start end current (if leb start current then current ∷ us else us)
append_from-IsWindow start end current following us before later w =
    let past = All-map _ (λ t. current < t) us (λ t h. ground (arith, h)) w.from_current in
    let onward = All-map _ (λ t. current ≤ t) us (λ t h. ground (arith, h)) w.from_current in
    elim (Bool-cases (leb start current)) [
      | inl kept ↦ rw kept (record {
        inside = ((ground arith, before), w.inside);
        from_current = (ground arith, onward);
        ascending = (past, w.ascending);
      })
      | inr skipped ↦
          rw skipped (record { inside = w.inside; from_current = onward; ascending = w.ascending })
    ]

append_from-length :
    (start current : ℕ) (us : List ℕ)
    → length (if leb start current then current ∷ us else us) ≤ length us + 1
append_from-length start current us = ground arith

-- What an expansion from some turn on keeps to.
abbrev Keeps : ℕ → ℕ → ℕ → ℕ → ℕ → List ℕ → ℕ → Type 0
Keeps start end limit count current ts n =
    IsWindow start end current ts × (length ts + count ≤ n) × (n ≤ limit)

nothing_kept :
    (start end limit count current : ℕ) (ts : List ℕ) (n : ℕ)
    → count ≤ limit
    → expansion [] count ≡ expansion ts n
    → Keeps start end limit count current ts n
nothing_kept start end limit count current ts n h same =
    let none_kept : [] ≡ ts = ground arith in
    let counted : count ≡ n = ground arith in
    subst (λ os. Keeps start end limit count current os n) none_kept
      (record { inside = tt; from_current = tt; ascending = tt }, ground arith, ground arith)

appended :
    (start end limit count current following : ℕ) (rest : Expansion) (ts : List ℕ) (n : ℕ)
    → current < end
    → current < following
    → ((us : List ℕ) → rest ≡ expansion us n → Keeps start end limit (count + 1) following us n)
    → append_from start current rest ≡ expansion ts n
    → Keeps start end limit count current ts n
appended start end limit count current following rest ts n before later keeps h =
    let (us, is, whole) = append_from-cases start current rest ts n h in
    let (window, counted, limited) = keeps us is in
    subst (λ os. Keeps start end limit count current os n) (sym whole)
      (
        append_from-IsWindow start end current following us before later window,
        ground (arith, append_from-length start current us),
        limited,
      )

expand-Keeps :
    (next : ℕ → Result (Option ℕ)) (start end limit fuel count current : ℕ) (ts : List ℕ) (n : ℕ)
    → Advances next
    → count ≤ limit
    → expand next start end limit fuel count current ≡ expansion ts n
    → Keeps start end limit count current ts n
unfolding expand
expand-Keeps next start end limit zero count current ts n ahead low h = absurd (ground arith)
expand-Keeps next start end limit (suc fuel) count current ts n ahead low h =
    elim (Bool-cases (ltb current end)) [
      | inr done ↦ nothing_kept start end limit count current ts n low (ground arith)
      | inl more ↦ elim (Bool-cases (ltb limit (count + 1))) [
        | inl over ↦ absurd (ground arith)
        | inr within ↦ elim (Result-cases (next current)) [
          | inr (e, f) ↦ absurd (ground arith)
          | inl (none, f) ↦
              appended start end limit count current (suc current) (expansion [] (count + 1)) ts n
                (ground arith) (ground arith)
                (λ us is.
                  nothing_kept start end limit (count + 1) (suc current) us n (ground arith) is)
                (ground arith)
          | inl (some following, f) ↦
              appended start end limit count current (whole_second following) _ ts n (ground arith)
                (ahead current following f)
                (λ us is.
                  expand-Keeps next start end limit fuel (count + 1) (whole_second following) us n
                    ahead (ground arith) is)
                (ground arith)
        ]
      ]
    ]

-- With one unit of fuel more than there are instants left, the loop ends by itself.
expand_finishes :
    (next : ℕ → Result (Option ℕ)) (start end limit fuel count current : ℕ)
    → limit + 1 ≤ fuel + count
    → count ≤ limit
    → expand next start end limit fuel count current ≢ unfinished
unfolding expand
expand_finishes next start end limit zero count current enough low h = ground arith
expand_finishes next start end limit (suc fuel) count current enough low h =
    elim (Bool-cases (ltb current end)) [
      | inr done ↦ ground arith
      | inl more ↦ elim (Bool-cases (ltb limit (count + 1))) [
        | inl over ↦ ground arith
        | inr within ↦ elim (Result-cases (next current)) [
          | inr (e, f) ↦ ground arith
          | inl (none, f) ↦
              let ended =
                append_from-unfinished start current (expansion [] (count + 1)) (ground arith) in
              ground arith
          | inl (some following, f) ↦
              expand_finishes next start end limit fuel (count + 1) (whole_second following)
                (ground arith) (ground arith)
                (append_from-unfinished start current _ (ground arith))
        ]
      ]
    ]

-- The expansion of a rule always comes to an end: within one turn more than its limit it has
-- answered, refused or met an error, whatever the rule is.
pub occurrences_between_ends :
    (zones : ℕ → Option Zone) (parts : Parts) (timezone first_occurrence start end anchor limit : ℕ)
    → occurrences_between zones parts timezone first_occurrence start end anchor limit ≢ unfinished
unfolding occurrences_between
occurrences_between_ends zones parts timezone first_occurrence start end anchor limit h =
    elim (Bool-cases (ltb limit 1)) [
      | inl refused ↦ ground arith
      | inr allowed ↦
          expand_finishes (λ t. next_occurrence zones parts timezone t (some anchor)) start end
            limit (limit + 1) 0 (whole_second first_occurrence) (ground arith) (ground arith)
            (ground arith)
    ]

-- The local times of a zone are whole seconds.
abbrev pub IsWhole : Zone → Type 0
IsWhole zone =
    (d : Date) (hour minute : ℕ)
    → whole_second (zone.instant_at d hour minute) ≡ zone.instant_at d hour minute

next_occurrence-Advances :
    (zones : ℕ → Option Zone) (parts : Parts) (timezone anchor : ℕ)
    → ((zone : Zone) → zones timezone ≡ some zone → IsWhole zone)
    → Advances (λ t. next_occurrence zones parts timezone t (some anchor))
next_occurrence-Advances zones parts timezone anchor whole t u h =
    let (rule, zone, parsed, known, v, first, answer) =
      next_occurrence-IsFirst zones parts timezone t (some anchor) (some u) h in
    let same : u ≡ v = ground arith in
    let due = first.due in
    let seconds = whole zone known first.day due.hour due.minute in
    let floor : whole_second u ≡ u =
      ap whole_second (same ∙ due.at_minute) ∙ seconds ∙ sym (same ∙ due.at_minute) in
    subst (λ w. t < w) (sym floor) (subst (λ w. t < w) (sym same) due.is_later)

-- What an expansion answers lies between the two instants and not before the second of the first
-- occurrence, in strictly ascending order, and its count is at most the limit and at least the
-- number of instants, if the local times of the zone are whole seconds.
pub occurrences_between-IsWindow :
    (zones : ℕ → Option Zone) (parts : Parts) (timezone first_occurrence start end anchor limit : ℕ)
    (ts : List ℕ) (n : ℕ)
    → ((zone : Zone) → zones timezone ≡ some zone → IsWhole zone)
    → occurrences_between zones parts timezone first_occurrence start end anchor limit
      ≡ expansion ts n
    → IsWindow start end (whole_second first_occurrence) ts × (length ts ≤ n) × (n ≤ limit)
unfolding occurrences_between
occurrences_between-IsWindow zones parts timezone first_occurrence start end anchor limit ts n whole
      h =
    elim (Bool-cases (ltb limit 1)) [
      | inl refused ↦ absurd (ground arith)
      | inr allowed ↦
          let (window, counted, limited) =
            expand-Keeps (λ t. next_occurrence zones parts timezone t (some anchor)) start end limit
              (limit + 1) 0 (whole_second first_occurrence) ts n
              (next_occurrence-Advances zones parts timezone anchor whole) (ground arith)
              (ground arith) in
          (window, ground arith, limited)
    ]
