-- ===== src/MonthClose/Kept.antt =====
-- No request forgets a confirmation: its revision stays the one of its key, the month keeps its
-- row, and no reopening takes the key.
use mathlib.Core.List.{append-nil}
use finspace.Common.{
  ℕ, ◌≡◌, refl, sym, ap, ◌∙◌, subst, Bool, true, false, none, some, List, [], ◌∷◌, ◌++◌, ◌&&◌, ◌==◌,
  arith, find, find_sound, find-append_none, All, Bool-cases, Option-cases, inl, inr,
}
use finspace.Common.Text.{strip, same_text}
use finspace.Common.Result.{ok}
use finspace.Calendar.{Date}
use finspace.Model.{Runtime, Context}
use finspace.Model.Closures.{MonthClosure, MonthCloseRevision}
use finspace.Model.Audit.{AuditEntry}
use finspace.Model.Store.{Store, record_audit}
use finspace.Guard.{get_or_create_control}
use finspace.MonthClose.Issues.{Evidence}
use finspace.MonthClose.{
  Hashing, same_date, find_closure, new_closure, get_or_create_closure, put_closure,
  prepared_closure, save_prepared, prepare, revision_for_key, confirmed_closure, save_confirmed,
  reopened_closure, save_reopened, reopen, ConfirmRequest, confirm,
}
use finspace.MonthClose.Run.{IsMonth, IsTable}
use finspace.MonthClose.Keys.{put_closure-IsTable, append-IsTable}
use finspace.MonthClose.Outcome.{
  control_of, begun, prepare-Prepared, confirm_fresh-Confirmed, reopen_fresh-Reopened,
  confirm-cases, reopen-cases,
}
use finspace.MonthClose.Activity.{
  Row, IsKept, find-append_some, reopens, write-IsKept, only_closure, put_closure-Row,
}

abbrev pub tables_of : Store → List MonthClosure × (List MonthCloseRevision × List AuditEntry)
tables_of s = (s.closures, (s.revisions, s.audit_log))

pub begun-tables_of : (c : Context) (s : Store) → tables_of (begun c s) ≡ tables_of s
unfolding get_or_create_control
begun-tables_of c s = ground arith

same_text_trans :
    (a b c : List ℕ) → same_text a b ≡ true → same_text c b ≡ true → same_text a c ≡ true
same_text_trans [] [] [] h k = refl
same_text_trans [] [] (z ∷ c) h k = absurd cc
same_text_trans [] (y ∷ b) c h k = absurd cc
same_text_trans (x ∷ a) [] c h k = absurd cc
same_text_trans (x ∷ a) (y ∷ b) [] h k = absurd cc
same_text_trans (x ∷ a) (y ∷ b) (z ∷ c) h k = ground (arith, same_text_trans a b c)

none_elsewhere {ℓ} :
    {A : Type ℓ} (p q : A → Bool) (xs : List A) (x : A)
    → find p xs ≡ none
    → find q xs ≡ some x
    → p x ≡ false
none_elsewhere p q [] x h k = absurd cc
none_elsewhere p q (y ∷ xs) x h k = elim (Bool-cases (p y)) [
  | inl here ↦ absurd (ground arith)
  | inr later ↦ elim (Bool-cases (q y)) [
    | inl found ↦ let same : y ≡ x = ground arith in subst (λ z. p z ≡ false) same later
    | inr other ↦ none_elsewhere p q xs x (rw later at h) (rw other at k)
  ]
]

module _ (workspace : ℕ) (period : Date) (key : List ℕ) (id home : ℕ)
    (revision : MonthCloseRevision) where
  abbrev pub Kept : Store → Type 0
  Kept s = IsKept workspace period key id home revision s

  pub begun-Kept : (c : Context) (s : Store) → Kept s → Kept (begun c s)
  begun-Kept c s kept =
      let same = begun-tables_of c s in
      write-IsKept workspace period key id home revision s (begun c s) [] [] kept
        (subst IsTable (sym (ap (λ x. x.0) same)) kept.table)
        (subst (Row workspace period id home) (sym (ap (λ x. x.0) same)) kept.row)
        (ap (λ x. x.1.0) same ∙ sym (append-nil s.revisions))
        (ap (λ x. x.1.1) same ∙ sym (append-nil s.audit_log)) refl

  -- The write of a row that a query found.
  put-Kept :
      (w : ℕ) (p : Date) (m after : MonthClosure) (s t : Store)
      (revisions : List MonthCloseRevision) (a : AuditEntry)
      → Kept s
      → find_closure w p s.closures ≡ some m
      → after.id ≡ m.id
      → after.workspace_id ≡ m.workspace_id
      → after.period_month ≡ m.period_month
      → t.closures ≡ put_closure after s.closures
      → t.revisions ≡ s.revisions ++ revisions
      → t.audit_log ≡ s.audit_log ++ a ∷ []
      → reopens workspace key a ≡ false
      → Kept t
  unfolding find_closure
  put-Kept w p m after s t revisions a kept found same own month written longer logged other =
      write-IsKept workspace period key id home revision s t revisions (a ∷ []) kept
        (subst IsTable (sym written)
          (put_closure-IsTable w p m after s.closures kept.table found same own month))
        (subst (Row workspace period id home) (sym written) (
          put_closure-Row workspace period id home m after s.closures
            (only_closure _ s.closures m kept.table.keyed found) same own month kept.row))
        longer logged (rw other refl)

  abbrev Ready : Context → Date → MonthClosure × Store → Type 0
  Ready c p made = Kept made.1 × (find_closure c.workspace_id p made.1.closures ≡ some made.0)

  made-Ready :
      (c : Context) (drawn : ℕ) (p : Date) (s : Store)
      → Kept s
      → IsMonth p
      → All (λ m. (m.id == drawn) ≡ false) s.closures
      → Ready c p (get_or_create_closure c drawn p s)
  unfolding get_or_create_closure find_closure
  made-Ready c drawn p s kept v fresh =
      elim (Option-cases (find_closure c.workspace_id p s.closures)) [
        | inr (m, there) ↦
            let whole : get_or_create_closure c drawn p s ≡ (m, s) = ground arith in
            subst (Ready c p) (sym whole) (kept, there)
        | inl missing ↦
            let m = new_closure c drawn p in
            let mine : ((c.workspace_id == c.workspace_id) && same_date p p) ≡ true =
              ground arith in
            let whole : get_or_create_closure c drawn p s
                ≡ (m, record s { closures = s.closures ++ m ∷ [] }) =
              ground arith in
            let (n, there, a, b) = kept.row in
            subst (Ready c p) (sym whole) (
              write-IsKept workspace period key id home revision s _ [] [] kept
                  (append-IsTable s.closures m kept.table v fresh missing)
                  (n, find-append_some _ s.closures (m ∷ []) n there, a, b)
                  (sym (append-nil s.revisions)) (sym (append-nil s.audit_log)) refl,
              find-append_none _ s.closures m missing mine,
            )
      ]

  pub prepare-Kept :
      (rt : Runtime) (h : Hashing) (c : Context) (p : Date) (drawn : ℕ) (e : Evidence) (s : Store)
      (r : MonthClosure × Store)
      → Kept s
      → IsMonth p
      → All (λ m. (m.id == drawn) ≡ false) s.closures
      → prepare rt h c p drawn e s ≡ ok r
      → Kept r.1
  unfolding save_prepared prepared_closure record_audit
  prepare-Kept rt h c p drawn e s r kept v fresh k =
      let done = prepare-Prepared rt h c p drawn e s r k in
      let t = get_or_create_closure c drawn p (begun c s) in
      let (now, found) = made-Ready c drawn p (begun c s) (begun-Kept c s kept) v (
        subst (λ ms. All (λ m. (m.id == drawn) ≡ false) ms)
          (sym (ap (λ x. x.0) (begun-tables_of c s))) fresh) in
      subst (λ o. Kept o.1) (sym done.saved)
        (put-Kept c.workspace_id p t.0 (prepared_closure h c done.preview t.0) t.1 _ [] _ now found
          refl refl refl refl (sym (append-nil t.1.revisions)) refl (ground arith))

  pub confirm-Kept :
      (rt : Runtime) (h : Hashing) (c : Context) (p : Date) (request : ConfirmRequest)
      (text : List ℕ) (drawn : ℕ) (e : Evidence) (s : Store) (r : MonthClosure × Store)
      → Kept s
      → confirm rt h c p request text drawn e s ≡ ok r
      → Kept r.1
  unfolding save_confirmed confirmed_closure record_audit
  confirm-Kept rt h c p request text drawn e s r kept k =
      let (m, used, hash, found, how) = confirm-cases rt h c p request text drawn e s r k in
      elim how [
        | inl same ↦ subst Kept (sym same) kept
        | inr fresh ↦
            let done =
              confirm_fresh-Confirmed rt h c p request used hash drawn e (control_of c s) m
                (begun c s) r fresh in
            subst (λ o. Kept o.1) (sym done.saved)
              (put-Kept c.workspace_id p m (confirmed_closure c drawn done.preview m) (begun c s) _
                (_ ∷ []) _ (begun-Kept c s kept) found refl refl refl refl refl refl (ground arith))
      ]

  -- A reopening cannot take the key, which a revision has.
  other_key :
      (w : ℕ) (used : List ℕ) (s : Store)
      → Kept s
      → revision_for_key w used s ≡ none
      → ((w == workspace) && same_text used key) ≡ false
  unfolding revision_for_key
  other_key w used s kept free =
      let tested = find_sound _ s.revisions revision kept.recorded in
      let absent = none_elsewhere _ _ s.revisions revision free kept.recorded in
      elim (Bool-cases ((w == workspace) && same_text used key)) [
        | inr other ↦ other
        | inl same ↦ absurd (ground (arith, same_text_trans revision.idempotency_key key used))
      ]

  pub reopen-Kept :
      (rt : Runtime) (h : Hashing) (c : Context) (p : Date) (version : ℕ) (reason text : List ℕ)
      (s : Store) (r : MonthClosure × Store)
      → Kept s
      → reopen rt h c p version reason text s ≡ ok r
      → Kept r.1
  unfolding save_reopened reopened_closure record_audit
  reopen-Kept rt h c p version reason text s r kept k =
      let (m, used, hash, found, free, how) = reopen-cases rt h c p version reason text s r k in
      let now = begun-Kept c s kept in
      elim how [
        | inl same ↦ subst Kept (sym same) kept
        | inr fresh ↦
            let done =
              reopen_fresh-Reopened c p version (strip rt.is_space reason) used hash
                (control_of c s) m (begun c s) r fresh in
            let other = other_key c.workspace_id used (begun c s) now free in
            subst (λ o. Kept o.1) (sym done.saved)
              (put-Kept c.workspace_id p m (reopened_closure c (strip rt.is_space reason) m)
                (begun c s) _ [] _ now found refl refl refl refl refl refl (ground arith))
      ]
