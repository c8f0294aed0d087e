-- ===== src/Auth/Grants.antt =====
-- What an authorization check lets through (backend/app/auth/authorization.py), against a
-- description of a user's grants that does not go through scopes.
use treasury_os_app.Base.{
  ℕ, ◌≡◌, refl, inl, inr, Bool, true, false, ◌&&◌, ◌||◌, Option, none, some, List, [], ◌∷◌, ◌++◌,
  map, if◌then◌else◌, contains, arith, same_key, Outcome, ok, raised, not_found, forbidden,
  Option-cases, Bool-cases,
}
use treasury_os_app.Auth.{
  TreasuryModule, TreasuryAction, EntityScopeType, group_wide, entity, UserRoleAssignment, User,
  LegalEntity, AuthorizedScope, allows_entity, has_perm, add_grant, add_grants,
  get_authorized_scope, get_entity, assert_entity_access, empty_scope, entities_in_groups,
  resolve_scope_entity_ids, apply_resolved_entity_scope, allows_group, apply_entity_scope,
  grants_by, grants_permission, assert_record_belongs_to_authorized_entity,
}

-- Whether one assignment covers the entity: as group-wide without a group, as group-wide over the
-- entity's group, or by naming the entity.
abbrev pub reaches : EntityScopeType → Option ℕ → Option ℕ → Option ℕ → Option ℕ → Bool
reaches group_wide none own_entity e g = true
reaches group_wide (some own) own_entity e g = same_key g (some own)
reaches entity own_group none e g = false
reaches entity own_group (some own) e g = same_key e (some own)

-- Some active assignment has the permission and covers the entity.
unfoldable pub granted :
    TreasuryModule → TreasuryAction → Option ℕ → Option ℕ → List UserRoleAssignment → Bool
granted m a e g [] = false
granted m a e g (x ∷ xs) =
    (x.is_active
      && has_perm m a x.permissions
      && reaches x.scope_type x.group_id x.legal_entity_id e g)
    || granted m a e g xs

allows_add_grant :
    (s : EntityScopeType) (x : UserRoleAssignment) (scope : AuthorizedScope) (e g : Option ℕ)
    → allows_entity (add_grant s x scope) e g
      ≡ (reaches s x.group_id x.legal_entity_id e g || allows_entity scope e g)
unfolding allows_entity add_grant
allows_add_grant group_wide x scope e g = ground arith
allows_add_grant entity x scope e g = ground arith

allows_add_grants :
    (m : TreasuryModule) (a : TreasuryAction) (xs : List UserRoleAssignment)
    (scope : AuthorizedScope) (e g : Option ℕ)
    → allows_entity (add_grants m a xs scope) e g ≡ (granted m a e g xs || allows_entity scope e g)
unfolding add_grants granted
allows_add_grants m a [] scope e g = refl
allows_add_grants m a (x ∷ xs) scope e g =
    elim (Bool-cases (x.is_active && has_perm m a x.permissions)) [
      | inl used ↦ ground (
        arith,
        allows_add_grants m a xs (add_grant x.scope_type x scope) e g,
        allows_add_grant x.scope_type x scope e g,
      )
      | inr unused ↦ ground (arith, allows_add_grants m a xs scope e g)
    ]

-- The scope of a user allows what the user was granted.
pub allows-granted :
    (user : User) (m : TreasuryModule) (a : TreasuryAction) (e g : Option ℕ)
    → allows_entity (get_authorized_scope user m a) e g
      ≡ (user.is_superuser || granted m a e g user.role_assignments)
unfolding get_authorized_scope allows_entity
allows-granted user m a e g =
    ground (arith, allows_add_grants m a user.role_assignments empty_scope e g)

-- What the check should answer for an entity's row, or for none.
abbrev pub access_spec :
    User → TreasuryModule → TreasuryAction → ℕ → Option LegalEntity → Outcome (Option LegalEntity)
access_spec user m a e none = raised not_found
access_spec user m a e (some ent) =
    if user.is_superuser || granted m a (some e) (some ent.group_id) user.role_assignments
    then ok (some ent)
    else raised forbidden

-- The check of one entity: a missing entity is a 404; of an existing one the check returns its row if
-- the user is a superuser or some active assignment has the permission and reaches the entity, and
-- it is a 403 in every other case.
pub assert_entity_access-granted :
    (entities : List LegalEntity) (user : User) (m : TreasuryModule) (a : TreasuryAction) (e : ℕ)
    → assert_entity_access entities user m a (some e)
      ≡ access_spec user m a e (get_entity entities e)
unfolding assert_entity_access
assert_entity_access-granted entities user m a e = elim (Option-cases (get_entity entities e)) [
  | inl missing ↦ rw missing
  | inr (ent, found) ↦ rw (found, allows-granted user m a (some e) (some ent.group_id))
]

-- The primary key of the table of legal entities.
abbrev pub HasUniqueIds : List LegalEntity → Type 0
HasUniqueIds [] = Unit
HasUniqueIds (x ∷ xs) =
    (contains x.id (map (λ (e : LegalEntity). e.id) xs) ≡ false) × HasUniqueIds xs

missing_in_groups :
    (entities : List LegalEntity) (groups : List ℕ) (e : ℕ)
    → contains e (map (λ (x : LegalEntity). x.id) entities) ≡ false
    → contains e (entities_in_groups entities groups) ≡ false
missing_in_groups [] groups e h = refl
missing_in_groups (x ∷ xs) groups e h = ground (arith, missing_in_groups xs groups e)

contains-entities_in_groups :
    (entities : List LegalEntity) (groups : List ℕ) (e : ℕ) (ent : LegalEntity)
    → HasUniqueIds entities
    → get_entity entities e ≡ some ent
    → contains e (entities_in_groups entities groups) ≡ contains ent.group_id groups
unfolding get_entity
contains-entities_in_groups [] groups e ent u h = ground arith
contains-entities_in_groups (x ∷ xs) groups e ent u h =
    ground
      (arith, missing_in_groups xs groups x.id u.0, contains-entities_in_groups xs groups e ent u.1)

contains-append :
    (k : ℕ) (xs ys : List ℕ) → contains k (xs ++ ys) ≡ (contains k xs || contains k ys)
contains-append k [] ys = refl
contains-append k (x ∷ xs) ys = ground (arith, contains-append k xs ys)

-- A list shows exactly the rows that the check of one entity would let through: for a row whose
-- entity exists, in a table with unique ids, the condition added to the query holds if and only if
-- the user is a superuser or was granted the permission on the entity.
pub apply_resolved_entity_scope-granted :
    (entities : List LegalEntity) (user : User) (m : TreasuryModule) (a : TreasuryAction) (e : ℕ)
    (ent : LegalEntity)
    → HasUniqueIds entities
    → get_entity entities e ≡ some ent
    → apply_resolved_entity_scope
        (resolve_scope_entity_ids entities (get_authorized_scope user m a))
        e
      ≡ (user.is_superuser || granted m a (some e) (some ent.group_id) user.role_assignments)
unfolding apply_resolved_entity_scope resolve_scope_entity_ids allows_entity
apply_resolved_entity_scope-granted entities user m a e ent u h =
    let scope = get_authorized_scope user m a in
    ground (
      arith,
      allows-granted user m a (some e) (some ent.group_id),
      contains-entities_in_groups entities scope.group_ids e ent u h,
      contains-append e (entities_in_groups entities scope.group_ids) scope.entity_ids,
    )

-- One table serves single records and lists: for a row with an entity that exists, or a row with a
-- group alone in a query that passes the column of groups, the condition of `apply_entity_scope`
-- holds if and only if the check of the record itself lets it through.
pub apply_entity_scope-record :
    (entities : List LegalEntity) (user : User) (m : TreasuryModule) (a : TreasuryAction) (e : ℕ)
    (g : ℕ) (ent : LegalEntity)
    → HasUniqueIds entities
    → get_entity entities e ≡ some ent
    → let scope = get_authorized_scope user m a in
      let check = assert_record_belongs_to_authorized_entity entities user m a in
      (check (some e) none ≡ (
        if apply_entity_scope entities scope true (some e) none then ok tt else raised forbidden))
      × (check none (some g) ≡ (
          if apply_entity_scope entities scope true none (some g) then ok tt else raised forbidden))
unfolding apply_entity_scope assert_record_belongs_to_authorized_entity allows_entity allows_group
apply_entity_scope-record entities user m a e g ent u h =
    let scope = get_authorized_scope user m a in
    (
      ground (
        arith,
        contains-entities_in_groups entities scope.group_ids e ent u h,
        contains-append e (entities_in_groups entities scope.group_ids) scope.entity_ids,
      ),
      ground arith,
    )

granted-grants_by :
    (m : TreasuryModule) (a : TreasuryAction) (e : ℕ) (g : ℕ) (xs : List UserRoleAssignment)
    → granted m a (some e) (some g) xs ≡ true
    → grants_by m a (some e) xs ≡ true
unfolding granted grants_by
granted-grants_by m a e g [] h = h
granted-grants_by m a e g (x ∷ xs) h = ground (arith, granted-grants_by m a e g xs)

-- The check with groups is never laxer than the older check without: if it lets a user at an
-- entity, the older check grants the permission too.
pub assert_entity_access-grants_permission :
    (entities : List LegalEntity) (user : User) (m : TreasuryModule) (a : TreasuryAction) (e : ℕ)
    (found : Option LegalEntity)
    → assert_entity_access entities user m a (some e) ≡ ok found
    → grants_permission user m a (some e) ≡ true
unfolding grants_permission
assert_entity_access-grants_permission entities user m a e found h =
    elim (Option-cases (get_entity entities e)) [
      | inl missing ↦ absurd (ground (arith, assert_entity_access-granted entities user m a e))
      | inr (ent, row) ↦ ground (
        arith,
        assert_entity_access-granted entities user m a e,
        granted-grants_by m a e ent.group_id user.role_assignments,
      )
    ]
