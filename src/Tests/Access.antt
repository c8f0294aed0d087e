-- ===== src/Tests/Access.antt =====
-- The checks of access at the two entities and the clerk.
use treasury_os_app.Base.{
  ◌≡◌, map, refl, true, ◌||◌, none, some, if◌then◌else◌, ok, raised, forbidden,
}
use treasury_os_app.Auth.{
  bank_reconciliation, view, LegalEntity, get_entity, assert_entity_access, get_authorized_scope,
  resolve_scope_entity_ids, apply_resolved_entity_scope, apply_entity_scope,
  assert_record_belongs_to_authorized_entity, grants_permission, same_module, same_action, has_perm,
}
use treasury_os_app.Auth.Grants.{
  access_spec, granted, assert_entity_access-granted, apply_resolved_entity_scope-granted,
  apply_entity_scope-record, assert_entity_access-grants_permission,
}
use treasury_os_app.Auth.Groups.{ungrouped, grants_permission-ungrouped}
use treasury_os_app.Tests.{entities, clerk}

abbrev second : LegalEntity
second = record { id = 2; group_id = 7 }

assert_entity_access-granted_example :
    assert_entity_access entities clerk bank_reconciliation view (some 2)
    ≡ access_spec clerk bank_reconciliation view 2 (get_entity entities 2)
assert_entity_access-granted_example =
    assert_entity_access-granted entities clerk bank_reconciliation view 2

apply_resolved_entity_scope-granted_example :
    apply_resolved_entity_scope
      (resolve_scope_entity_ids entities (get_authorized_scope clerk bank_reconciliation view))
      2
    ≡ (clerk.is_superuser
        || granted bank_reconciliation view (some 2) (some 7) clerk.role_assignments)
unfolding get_entity
apply_resolved_entity_scope-granted_example =
    apply_resolved_entity_scope-granted entities clerk bank_reconciliation view 2 second
      (refl, (refl, tt)) refl

apply_entity_scope-record_example :
    let scope = get_authorized_scope clerk bank_reconciliation view in
    let check =
      assert_record_belongs_to_authorized_entity entities clerk bank_reconciliation view in
    (check (some 2) none
      ≡ (if apply_entity_scope entities scope true (some 2) none then ok tt else raised forbidden))
    × (check none (some 7) ≡ (
        if apply_entity_scope entities scope true none (some 7) then ok tt else raised forbidden))
unfolding get_entity
apply_entity_scope-record_example =
    apply_entity_scope-record entities clerk bank_reconciliation view 2 7 second (refl, (refl, tt))
      refl

assert_entity_access-grants_permission_example :
    grants_permission clerk bank_reconciliation view (some 2) ≡ true
unfolding assert_entity_access get_authorized_scope get_entity has_perm same_module same_action
assert_entity_access-grants_permission_example =
    assert_entity_access-grants_permission entities clerk bank_reconciliation view 2 (some second)
      refl

grants_permission-ungrouped_example : grants_permission clerk bank_reconciliation view (some 2) ≡ (
    clerk.is_superuser
    || granted bank_reconciliation view (some 2) (some 7) (map ungrouped clerk.role_assignments))
grants_permission-ungrouped_example =
    grants_permission-ungrouped clerk bank_reconciliation view 2 (some 7)
