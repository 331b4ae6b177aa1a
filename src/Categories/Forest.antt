-- ===== src/Categories/Forest.antt =====
-- The categories of a workspace stay a forest: no category is above itself.
use finspace.Common.{
  ◌∙◌, if◌then◌else◌, ℕ, ◌≡◌, ◌≢◌, ◌⊎◌, refl, sym, ap, subst, true, false, none, some, arith,
  is_none, find_sound, Bool-cases, inl, inr,
}
use finspace.Model.{Category, Context, AuditAction, Operation}
use finspace.Model.Store.{Store, get_category}
use finspace.Common.Result.{ok, or_raise->>=-eq-ok}
use finspace.Categories.{
  CategoryCreate, CategoryUpdate, CategoryRequest, create_request, update_request, delete_request,
  restore_request, save_category, save_new_category, new_category, changed_category, archives,
  update_found, delete_found, deleted_category, restored_category, restore_found, perform_category,
  create_category, update_category, delete_category, restore_category, validate_parent,
}
use finspace.Categories.Hierarchy.{Link, Above, parent, higher, validate_parent_blocks}
use finspace.Transactions.Write.{optional}
use finspace.Categories.Table.{Link-publish_category, Link-write_category, Link-add_category}

-- No live category is above itself.
abbrev pub IsForest : ℕ → Store → Type 0
IsForest workspace s = (id : ℕ) → ¬ Above workspace s id id

pub Above-trans :
    (workspace : ℕ) (s : Store) (a b c : ℕ)
    → Above workspace s a b
    → Above workspace s b c
    → Above workspace s a c
Above-trans workspace s a b c (parent _ _ link) k = higher a b c link k
Above-trans workspace s a b c (higher _ d _ link more) k =
    higher a d c link (Above-trans workspace s d b c more k)

-- A change of the parent of one category: the other links were there, and the category is neither
-- its new parent nor above it.
module _ (workspace id : ℕ) (s t : Store) (IsParent : ℕ → Type 0)
    (links : (a b : ℕ) → Link workspace t a b → ((a ≡ id) × IsParent b) ⊎ Link workspace s a b)
    (safe : (b : ℕ) → IsParent b → (b ≢ id) × ¬ Above workspace s b id) where
  abbrev AtOrAbove : ℕ → ℕ → Type 0
  AtOrAbove a b = (a ≡ b) ⊎ Above workspace s a b

  abbrev Detour : ℕ → ℕ → Type 0
  Detour a b = (p : ℕ) × AtOrAbove a id × IsParent p × AtOrAbove p b

  no_return : (p b : ℕ) → IsParent p → ¬ AtOrAbove p id
  no_return p b new (inl same) = (safe p new).0 same
  no_return p b new (inr above) = (safe p new).1 above

  climb : (a b c : ℕ) → Link workspace s a b → AtOrAbove b c → Above workspace s a c
  climb a b c link (inl same) = subst (λ x. Above workspace s a x) same (parent a b link)
  climb a b c link (inr above) = higher a b c link above

  -- A way up in the new table is a way up in the old one, or goes through the changed category.
  traced : (a b : ℕ) → Above workspace t a b → Above workspace s a b ⊎ Detour a b
  traced a b (parent _ _ link) = elim (links a b link) [
    | inl (at, new) ↦ inr (b, inl at, new, inl refl)
    | inr old ↦ inl (parent a b old)
  ]
  traced a b (higher _ c _ link more) = elim (links a c link) [
    | inl (at, new) ↦ elim (traced c b more) [
      | inl direct ↦ inr (c, inl at, new, inr direct)
      | inr (p, back, _, _) ↦ absurd (no_return c b new back)
    ]
    | inr old ↦ elim (traced c b more) [
      | inl direct ↦ inl (higher a c b old direct)
      | inr (p, below, new, onward) ↦ inr (p, inr (climb a c id old below), new, onward)
    ]
  ]

  closes : (p a : ℕ) → AtOrAbove p a → AtOrAbove a id → AtOrAbove p id
  closes p a (inl same) k = subst (λ x. AtOrAbove x id) (sym same) k
  closes p a (inr above) (inl same) = inr (subst (λ x. Above workspace s p x) same above)
  closes p a (inr above) (inr more) = inr (Above-trans workspace s p a id above more)

  relinked-IsForest : IsForest workspace s → IsForest workspace t
  relinked-IsForest forest a h = elim (traced a a h) [
    | inl direct ↦ forest a direct
    | inr (p, below, new, onward) ↦ no_return p a new (closes p a onward below)
  ]

-- What the service does not check: a new key is in no row, and a restored category is not above its
-- parent, nor its own parent.
abbrev pub IsSafe : ℕ → CategoryRequest → Store → Type 0
IsSafe workspace (create_request id fields) s =
    (fields.parent_id ≢ some id) × ((b : ℕ) → ¬ Above workspace s b id)
IsSafe workspace (restore_request id version) s =
    (row : Category) (p : ℕ)
    → get_category workspace id true s ≡ some row
    → row.parent_id ≡ some p
    → (p ≢ id) × ¬ Above workspace s p id
IsSafe workspace _ s = Unit {0}

saved-IsForest :
    (x : Context) (action : AuditAction) (operation : Operation) (before c : Category) (s : Store)
    → ((p : ℕ)
        → c.parent_id ≡ some p
        → c.deleted_at ≡ none
        → (p ≢ c.id) × ¬ Above x.workspace_id s p c.id)
    → IsForest x.workspace_id s
    → IsForest x.workspace_id (save_category x action operation before c s).1
unfolding save_category
saved-IsForest x action operation before c s safe forest =
    relinked-IsForest x.workspace_id c.id s _ (λ b. (c.parent_id ≡ some b) × (c.deleted_at ≡ none))
      (λ a b link.
        Link-write_category x.workspace_id c s a b
          (Link-publish_category x.workspace_id x action operation (some before) c _ a b link))
      (λ b new. safe b new.0 new.1) forest

create-IsForest :
    (x : Context) (id : ℕ) (fields : CategoryCreate) (s : Store) (r : Category × Store)
    → (fields.parent_id ≢ some id) × ((b : ℕ) → ¬ Above x.workspace_id s b id)
    → IsForest x.workspace_id s
    → create_category x id fields s ≡ ok r
    → IsForest x.workspace_id r.1
unfolding create_category save_new_category new_category
create-IsForest x id fields s r safe forest h =
    let saved : save_new_category x (new_category x id fields) s ≡ r = ground arith in
    subst (λ o. IsForest x.workspace_id o.1) saved
      (relinked-IsForest x.workspace_id id s _ (λ b. fields.parent_id ≡ some b)
        (λ a b link.
          Link-add_category x.workspace_id (new_category x id fields) s a b
            (Link-publish_category x.workspace_id x _ _ none _ _ a b link))
        (λ b new. (λ e. safe.0 (new ∙ ap some e), safe.1 b)) forest)

update_found-IsForest :
    (x : Context) (none_text : ℕ) (changes : CategoryUpdate) (c : Category) (s : Store)
    (r : Category × Store)
    → IsForest x.workspace_id s
    → update_found x none_text changes c s ≡ ok r
    → IsForest x.workspace_id r.1
unfolding update_found changed_category
update_found-IsForest x none_text changes c s r forest h =
    let after = changed_category x changes c in
    let archived = archives c after in
    let checked : validate_parent x.workspace_id (optional changes.parent_id c.parent_id)
          (some c.id) s
        ≡ ok tt =
      ground arith in
    let saved : save_category x (if archived then AuditAction.archive else AuditAction.update)
          (if archived then Operation.archive else Operation.upsert) c after s
        ≡ r =
      ground arith in
    subst (λ o. IsForest x.workspace_id o.1) saved
      (saved-IsForest x _ _ c after s
        (λ p e k.
          validate_parent_blocks x.workspace_id p c.id s
            (subst (λ o. validate_parent x.workspace_id o (some c.id) s ≡ ok tt) e checked))
        forest)

update-IsForest :
    (x : Context) (none_text id : ℕ) (changes : CategoryUpdate) (s : Store) (r : Category × Store)
    → IsForest x.workspace_id s
    → update_category x none_text id changes s ≡ ok r
    → IsForest x.workspace_id r.1
unfolding update_category
update-IsForest x none_text id changes s r forest h =
    let (c, found, rest) =
      or_raise->>=-eq-ok (get_category x.workspace_id id false s) _ _
        (λ c. update_found x none_text changes c s) h in
    update_found-IsForest x none_text changes c s r forest rest

delete-IsForest :
    (x : Context) (id version : ℕ) (s : Store) (r : Category × Store)
    → IsForest x.workspace_id s
    → delete_category x id version s ≡ ok r
    → IsForest x.workspace_id r.1
unfolding delete_category delete_found deleted_category
delete-IsForest x id version s r forest h =
    let (c, found, rest) =
      or_raise->>=-eq-ok (get_category x.workspace_id id false s) _ _
        (λ c. delete_found x version c s) h in
    let saved : save_category x AuditAction.delete Operation.delete c (deleted_category x c) s ≡ r =
      ground arith in
    subst (λ o. IsForest x.workspace_id o.1) saved
      (saved-IsForest x _ _ c (deleted_category x c) s (λ p e k. absurd (cc)) forest)

restore_found-IsForest :
    (x : Context) (id version : ℕ) (c : Category) (s : Store) (r : Category × Store)
    → get_category x.workspace_id id true s ≡ some c
    → ((p : ℕ) → c.parent_id ≡ some p → (p ≢ id) × ¬ Above x.workspace_id s p id)
    → IsForest x.workspace_id s
    → restore_found x version c s ≡ ok r
    → IsForest x.workspace_id r.1
unfolding restore_found restored_category get_category
restore_found-IsForest x id version c s r found safe forest h =
    let tested = find_sound _ s.categories c found in
    let key : id ≡ c.id = ground arith in
    elim (Bool-cases (is_none c.deleted_at)) [
      | inl live ↦
          let same : (c, s) ≡ r = ground arith in
          subst (λ o. IsForest x.workspace_id o.1) same forest
      | inr deleted ↦
          let saved : save_category x AuditAction.restore Operation.restore c
                (restored_category x c) s
              ≡ r =
            ground arith in
          subst (λ o. IsForest x.workspace_id o.1) saved
            (saved-IsForest x _ _ c (restored_category x c) s
              (λ p e k. subst (λ i. (p ≢ i) × ¬ Above x.workspace_id s p i) key (safe p e)) forest)
    ]

restore-IsForest :
    (x : Context) (id version : ℕ) (s : Store) (r : Category × Store)
    → IsSafe x.workspace_id (restore_request id version) s
    → IsForest x.workspace_id s
    → restore_category x id version s ≡ ok r
    → IsForest x.workspace_id r.1
unfolding restore_category
restore-IsForest x id version s r safe forest h =
    let (c, found, rest) =
      or_raise->>=-eq-ok (get_category x.workspace_id id true s) _ _
        (λ c. restore_found x version c s) h in
    restore_found-IsForest x id version c s r found (λ p e. safe c p found e) forest rest

-- A successful request on categories keeps them a forest, if a new key is neither the parent that
-- the request names nor above any category, and if a restored category is not above its parent, nor
-- its own parent.
pub perform_category-IsForest :
    (x : Context) (none_text : ℕ) (request : CategoryRequest) (s : Store) (r : Category × Store)
    → IsSafe x.workspace_id request s
    → IsForest x.workspace_id s
    → perform_category x none_text request s ≡ ok r
    → IsForest x.workspace_id r.1
unfolding perform_category
perform_category-IsForest x none_text (create_request id fields) s r safe forest h =
    create-IsForest x id fields s r safe forest h
perform_category-IsForest x none_text (update_request id changes) s r safe forest h =
    update-IsForest x none_text id changes s r forest h
perform_category-IsForest x none_text (delete_request id version) s r safe forest h =
    delete-IsForest x id version s r forest h
perform_category-IsForest x none_text (restore_request id version) s r safe forest h =
    restore-IsForest x id version s r safe forest h
