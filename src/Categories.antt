-- ===== src/Categories.antt =====
-- Categories: backend/app/services/categories.py, with `find_level_name` of
-- backend/app/repositories/categories.py and the schemas of backend/app/schemas/categories.py.
use finspace.Common.{
  ℕ, ◌+◌, zero, suc, Bool, true, false, Option, none, some, List, [], ◌∷◌, ◌++◌, ◌&&◌, ◌||◌, not,
  ◌==◌, if◌then◌else◌, is_none, is_some, same_option, find, any, length,
}
use finspace.Common.Int.{ℤ}
use finspace.Common.Result.{
  Result, ok, err, ◌>>=◌, ◌>>◌, api_error, raise_if, or_raise, validation_error, category_not_found,
  duplicate_name, version_conflict, internal_error,
}
use finspace.Model.{
  Category, CategoryType, Context, Change, unset, null, given, category_entity, AuditAction,
  Operation,
}
use finspace.Model.Audit.{category_snapshot}
use finspace.Model.Store.{Store, get_category, record_audit}
use finspace.Model.Store.Outbox.{enqueue_entity}
use finspace.Transactions.Write.{optional, assigned, given_value}
pub mod Hierarchy
pub mod Table
pub mod Forest
pub mod Validation

pub record CategoryCreate : Type 0 where
  pub parent_id : Option ℕ
  pub name : ℕ
  pub category_type : CategoryType
  pub color : Option ℕ
  pub icon : Option ℕ
  pub sort_order : ℤ

pub record CategoryUpdate : Type 0 where
  pub version : ℕ
  pub parent_id : Change ℕ
  pub name : Change ℕ
  pub category_type : Change CategoryType
  pub color : Change ℕ
  pub icon : Change ℕ
  pub sort_order : Change ℤ
  pub is_archived : Change Bool

-- `find_level_name`, as the test that its callers make of it.
unfoldable pub has_level_name : ℕ → Option ℕ → ℕ → Option ℕ → Store → Bool
has_level_name workspace parent name excluded s =
    any
      (λ c.
        (c.workspace_id == workspace)
        && same_option c.parent_id parent
        && (c.name == name)
        && is_none c.deleted_at
        && not (same_option (some c.id) excluded))
      s.categories

-- The loop of `_validate_parent`, with fuel: `none` is that it ran out.
unfoldable pub walk : ℕ → ℕ → Option ℕ → Store → List ℕ → Category → Option (Result (Unit {0}))
walk zero workspace id s visited current = none
walk (suc fuel) workspace id s visited current = elim current.parent_id [
  | none ↦ some (ok tt)
  | some above ↦
      let onward : Option (Result (Unit {0})) = elim (get_category workspace above false s) [
        | none ↦ some (ok tt)
        | some ancestor ↦ walk fuel workspace id s (current.id ∷ visited) ancestor
      ] in
      if any (λ k. k == current.id) visited || same_option (some above) id
      then some (err (api_error 422 validation_error))
      else onward
]

-- Running out of fuel is an error of its own.
abbrev pub answer : Option (Result (Unit {0})) → Result (Unit {0})
answer none = err (api_error 500 internal_error)
answer (some r) = r

-- `_validate_parent`
unfoldable pub validate_parent : ℕ → Option ℕ → Option ℕ → Store → Result (Unit {0})
unfolding walk
validate_parent workspace none id s = ok tt
validate_parent workspace (some parent_id) id s = do
  raise_if (same_option id (some parent_id)) 422 validation_error
  parent ← or_raise (get_category workspace parent_id false s) 404 category_not_found
  answer (walk (suc (length s.categories)) workspace id s [] parent)

-- The flush of a changed row.
unfoldable pub put_category : Category → List Category → List Category
put_category c [] = []
put_category c (d ∷ ds) = (if d.id == c.id then c else d) ∷ put_category c ds

abbrev pub write_category : Category → Store → Store
write_category c s = record s { categories = put_category c s.categories }

-- `record_audit` and `enqueue_entity` at the end of every operation.
unfoldable pub publish_category :
    Context → AuditAction → Operation → Option Category → Category → Store → Store
publish_category x action operation before c s =
    enqueue_entity x category_entity c.id c.version operation (
      record_audit x category_entity c.id action
        (elim before [ none ↦ none | some b ↦ some (category_snapshot b) ])
        (some (category_snapshot c)) s)

unfoldable pub new_category : Context → ℕ → CategoryCreate → Category
new_category x id fields = record {
  id = id;
  workspace_id = x.workspace_id;
  parent_id = fields.parent_id;
  name = fields.name;
  category_type = fields.category_type;
  color = fields.color;
  icon = fields.icon;
  sort_order = fields.sort_order;
  is_archived = false;
  version = 1;
  updated_at = x.now;
  deleted_at = none;
}

abbrev pub add_category : Category → Store → Store
add_category c s = record s { categories = s.categories ++ c ∷ [] }

unfoldable pub save_new_category : Context → Category → Store → Category × Store
save_new_category x c s =
    (c, publish_category x AuditAction.create Operation.upsert none c (add_category c s))

unfoldable pub create_category : Context → ℕ → CategoryCreate → Store → Result (Category × Store)
create_category x id fields s = do
  validate_parent x.workspace_id fields.parent_id none s
  raise_if (has_level_name x.workspace_id fields.parent_id fields.name none s) 409 duplicate_name
  ok (save_new_category x (new_category x id fields) s)

abbrev pub is_null {ℓ} : {A : Type ℓ} → Change A → Bool
is_null null = true
is_null _ = false

-- The columns that are not nullable: an explicit null fails in the flush.
abbrev pub nulls_required : CategoryUpdate → Bool
nulls_required changes =
    is_null changes.name
    || is_null changes.category_type
    || is_null changes.sort_order
    || is_null changes.is_archived

-- `str(changes.get("name", category.name))`, where the text of None is given.
abbrev pub name_text : ℕ → Change ℕ → ℕ → ℕ
name_text none_text unset old = old
name_text none_text null old = none_text
name_text none_text (given name) old = name

-- The assignments of `update_category`.
unfoldable pub changed_category : Context → CategoryUpdate → Category → Category
changed_category x changes c = record c {
  parent_id = optional changes.parent_id c.parent_id;
  name = assigned changes.name c.name;
  category_type = assigned changes.category_type c.category_type;
  color = optional changes.color c.color;
  icon = optional changes.icon c.icon;
  sort_order = assigned changes.sort_order c.sort_order;
  is_archived = assigned changes.is_archived c.is_archived;
  version = c.version + 1;
  updated_at = x.now;
}

abbrev pub archives : Category → Category → Bool
archives before after = not before.is_archived && after.is_archived

-- What an operation on a category writes once its checks have passed.
unfoldable pub save_category :
    Context → AuditAction → Operation → Category → Category → Store → Category × Store
save_category x action operation before c s =
    (c, publish_category x action operation (some before) c (write_category c s))

-- `update_category` from where the row is at hand.
unfoldable pub update_found :
    Context → ℕ → CategoryUpdate → Category → Store → Result (Category × Store)
update_found x none_text changes c s = do
  raise_if (not (c.version == changes.version)) 409 version_conflict
  let parent = optional changes.parent_id c.parent_id
  validate_parent x.workspace_id parent (some c.id) s
  let name = name_text none_text changes.name c.name
  raise_if (has_level_name x.workspace_id parent name (some c.id) s) 409 duplicate_name
  raise_if (nulls_required changes) 500 internal_error
  let after = changed_category x changes c
  let archived = archives c after
  ok (
      save_category x (if archived then AuditAction.archive else AuditAction.update)
        (if archived then Operation.archive else Operation.upsert) c after s)

unfoldable pub update_category :
    Context → ℕ → ℕ → CategoryUpdate → Store → Result (Category × Store)
unfolding update_found
update_category x none_text id changes s = do
  c ← or_raise (get_category x.workspace_id id false s) 404 category_not_found
  update_found x none_text changes c s

unfoldable pub deleted_category : Context → Category → Category
deleted_category x c = record c {
  deleted_at = some x.now;
  updated_at = x.now;
  version = c.version + 1;
}

unfoldable pub delete_found : Context → ℕ → Category → Store → Result (Category × Store)
delete_found x version c s = do
  raise_if (not (c.version == version)) 409 version_conflict
  ok (save_category x AuditAction.delete Operation.delete c (deleted_category x c) s)

unfoldable pub delete_category : Context → ℕ → ℕ → Store → Result (Category × Store)
unfolding delete_found
delete_category x id version s = do
  c ← or_raise (get_category x.workspace_id id false s) 404 category_not_found
  delete_found x version c s

unfoldable pub restored_category : Context → Category → Category
restored_category x c = record c { deleted_at = none; updated_at = x.now; version = c.version + 1 }

-- `restore_category` from where the row is at hand: a live one is returned as it is.
unfoldable pub restore_found : Context → ℕ → Category → Store → Result (Category × Store)
restore_found x version c s = do
  raise_if (not (c.version == version)) 409 version_conflict
  if is_none c.deleted_at then ok (c, s) else do
    raise_if (has_level_name x.workspace_id c.parent_id c.name (some c.id) s) 409 duplicate_name
    ok (save_category x AuditAction.restore Operation.restore c (restored_category x c) s)

unfoldable pub restore_category : Context → ℕ → ℕ → Store → Result (Category × Store)
unfolding restore_found
restore_category x id version s = do
  c ← or_raise (get_category x.workspace_id id true s) 404 category_not_found
  restore_found x version c s

-- The requests on categories, each with its path's key, or the key that a new category gets.
pub data CategoryRequest : Type 0 where
  create_request : ℕ → CategoryCreate → CategoryRequest
  update_request : ℕ → CategoryUpdate → CategoryRequest
  delete_request restore_request : ℕ → ℕ → CategoryRequest

unfoldable pub perform_category : Context → ℕ → CategoryRequest → Store → Result (Category × Store)
unfolding create_category update_category delete_category restore_category
perform_category x none_text (create_request id fields) s = create_category x id fields s
perform_category x none_text (update_request id changes) s =
    update_category x none_text id changes s
perform_category x none_text (delete_request id version) s = delete_category x id version s
perform_category x none_text (restore_request id version) s = restore_category x id version s
