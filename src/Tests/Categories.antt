-- ===== src/Tests/Categories.antt =====
-- Runs of the category service: an update, and the cycle that a restoration can make.
use finspace.Common.{
  ℕ, ◌+◌, ◌≡◌, ◌≢◌, ◌↔◌, ◌<◌, refl, true, false, none, some, [], ◌∷◌, arith, length,
}
use finspace.Common.Result.{Result, ok, ◌>>=◌}
use finspace.Model.{Category, unset, null, given}
use finspace.Model.Audit.{category_snapshot}
use finspace.Model.Store.{Store, get_category, record_audit}
use finspace.Model.Store.Outbox.{takes_events, active_binding, same_key, enqueue_entity}
use finspace.Categories.{
  has_level_name, walk, validate_parent, put_category, publish_category, save_category,
  changed_category, update_found, update_category, deleted_category, delete_found, delete_category,
  restored_category, restore_found, restore_category, CategoryRequest, update_request,
  delete_request, restore_request, perform_category,
}
use finspace.Categories.Hierarchy.{Link, Above, parent, higher, walk_ends}
use finspace.Categories.Forest.{IsForest, perform_category-IsForest}
use finspace.Categories.Validation.{validate_parent-eq-ok}
use finspace.Tests.Fixture.{context, category, store, value_or}

category_services : Unit {0}
unfolding category_snapshot get_category record_audit takes_events active_binding same_key
    enqueue_entity has_level_name walk validate_parent put_category publish_category save_category
    changed_category update_found update_category deleted_category delete_found delete_category
    restored_category restore_found restore_category perform_category
category_services = tt

Link-down : (id above : ℕ) → Link 1 store id above → above < id
unfolding get_category
Link-down id above link = ground (arith, link.found, link.named)

Above-down : (id top : ℕ) → Above 1 store id top → top < id
Above-down id top (parent _ _ link) = Link-down id top link
Above-down id top (higher _ above _ link more) =
    omega (arith, Link-down id above link, Above-down above top more)

store-IsForest : IsForest 1 store
store-IsForest id h = omega (arith, Above-down id id h)

walk_ends_example :
    (r : Result (Unit {0})) × (walk
        (1 + length store.categories)
        1
        (some 30)
        store
        []
        (category 31 (some 30))
      ≡ some r)
unfolding category_services
walk_ends_example = walk_ends 1 31 (some 30) store (category 31 (some 30)) refl

validate_parent-eq-ok_example : (validate_parent 1 (some 31) (some 30) store ≡ ok tt) ↔ (
    ((row : Category) × (get_category 1 31 false store ≡ some row))
    × (◌≢◌ {A = ℕ} 31 30)
    × ¬ Above 1 store 31 30)
validate_parent-eq-ok_example = validate_parent-eq-ok 1 31 30 store store-IsForest

abbrev move : ℕ → ℕ → CategoryRequest
move id target = update_request id (record {
  version = 1;
  parent_id = given target;
  name = unset;
  category_type = unset;
  color = null;
  icon = unset;
  sort_order = unset;
  is_archived = given true;
})

abbrev moved : Category × Store
moved = value_or (category 31 none, store) (perform_category context 0 (move 31 30) store)

perform_category-IsForest_example : IsForest 1 moved.1
unfolding category_services
perform_category-IsForest_example =
    perform_category-IsForest context 0 (move 31 30) store moved tt store-IsForest refl

-- Three levels: 32 under 31 under 30.
abbrev levels : Store
levels = record store { categories = category 32 (some 31) ∷ store.categories }

-- 31 is deleted, 30 is moved under 32, and 31 is restored: no step is refused.
abbrev knotted : Store
knotted =
    (value_or (category 31 none, levels)
      (perform_category context 0 (delete_request 31 1) levels >>= λ a.
        perform_category context 0 (move 30 32) a.1 >>= λ b.
        perform_category context 0 (restore_request 31 2) b.1)).1

-- Then 30 is above itself.
cycle : Above 1 knotted 30 30
unfolding category_services
cycle =
    higher 30 32 30 (record { row = _; found = refl; named = refl })
      (higher 32 31 30 (record { row = _; found = refl; named = refl })
        (parent 31 30 (record { row = _; found = refl; named = refl })))
