-- ===== src/Auth.antt =====
-- Users, roles and permissions (backend/app/models/rbac.py), and the scope of a user
-- (backend/app/auth/authorization.py, backend/app/auth/dependencies.py). Ids are numbers. A query
-- on the table of legal entities is a filter of the list of its rows.
pub mod Grants
pub mod Groups
use treasury_os_app.Base.{
  ℕ, ◌≡◌, Bool, true, false, not, ◌&&◌, ◌||◌, Option, none, some, List, [], ◌∷◌, ◌++◌, map, ◌==◌,
  if◌then◌else◌, same_key, contains, any, filter, find, is_some, Outcome, ok, raised, HttpError,
  not_found, forbidden,
}
use mathlib.Core.Logic.{ite}

pub data TreasuryModule : Type 0 where
  group_entity banks_accounts cash_liquidity forecast_13wk facilities payments : TreasuryModule
  bank_reconciliation intercompany_reconciliation working_capital investments : TreasuryModule
  risk_controls kpis reports tasks_workflow administration excel_data_hub : TreasuryModule
  currency_fx ai_copilot audit : TreasuryModule

pub data TreasuryAction : Type 0 where
  view upload import create edit submit investigate assign comment approve : TreasuryAction
  execute resolve close adjust export configure place terminate rollover rebook : TreasuryAction

pub TreasuryModule-discrete : Discrete TreasuryModule
TreasuryModule-discrete = hlevel

pub TreasuryAction-discrete : Discrete TreasuryAction
TreasuryAction-discrete = hlevel

unfoldable pub same_module : TreasuryModule → TreasuryModule → Bool
unfolding TreasuryModule-discrete
same_module a b = ite (TreasuryModule-discrete a b) true false

unfoldable pub same_action : TreasuryAction → TreasuryAction → Bool
unfolding TreasuryAction-discrete
same_action a b = ite (TreasuryAction-discrete a b) true false

pub data EntityScopeType : Type 0 where
  group_wide entity : EntityScopeType

pub record Permission : Type 0 where
  pub module_of : TreasuryModule
  pub action_of : TreasuryAction

-- `permissions` are those of the assignment's role.
pub record UserRoleAssignment : Type 0 where
  pub is_active : Bool
  pub scope_type : EntityScopeType
  pub legal_entity_id : Option ℕ
  pub group_id : Option ℕ
  pub permissions : List Permission

pub record User : Type 0 where
  pub id : ℕ
  pub is_active : Bool
  pub is_superuser : Bool
  pub role_assignments : List UserRoleAssignment

pub record LegalEntity : Type 0 where
  pub id : ℕ
  pub group_id : ℕ

-- The sets of the source are lists, which are only asked for membership.
pub record AuthorizedScope : Type 0 where
  pub unrestricted : Bool
  pub entity_ids : List ℕ
  pub group_ids : List ℕ

-- `x is not None and x in xs`
abbrev pub key_in : Option ℕ → List ℕ → Bool
key_in none xs = false
key_in (some k) xs = contains k xs

pub allows_entity : AuthorizedScope → Option ℕ → Option ℕ → Bool
allows_entity scope entity_id entity_group_id =
    if scope.unrestricted
    then true
    else if key_in entity_id scope.entity_ids
    then true
    else key_in entity_group_id scope.group_ids

pub allows_group : AuthorizedScope → Option ℕ → Bool
allows_group scope group_id = if scope.unrestricted then true else key_in group_id scope.group_ids

-- `has_perm`, over the permissions of a role
unfoldable pub has_perm : TreasuryModule → TreasuryAction → List Permission → Bool
has_perm m a = any (λ p. same_module p.module_of m && same_action p.action_of a)

abbrev pub empty_scope : AuthorizedScope
empty_scope = record { unrestricted = false; entity_ids = []; group_ids = [] }

-- What one assignment that is active and has the permission adds to the scope.
pub add_group : Option ℕ → AuthorizedScope → AuthorizedScope
add_group none scope = record scope { unrestricted = true }
add_group (some g) scope = record scope { group_ids = g ∷ scope.group_ids }

pub add_entity : Option ℕ → AuthorizedScope → AuthorizedScope
add_entity none scope = scope
add_entity (some e) scope = record scope { entity_ids = e ∷ scope.entity_ids }

pub add_grant : EntityScopeType → UserRoleAssignment → AuthorizedScope → AuthorizedScope
unfolding add_group add_entity
add_grant group_wide a scope = add_group a.group_id scope
add_grant entity a scope = add_entity a.legal_entity_id scope

-- The loop of `get_authorized_scope` over the role assignments.
pub add_grants :
    TreasuryModule → TreasuryAction → List UserRoleAssignment → AuthorizedScope → AuthorizedScope
unfolding add_grant
add_grants m a [] scope = scope
add_grants m a (x ∷ xs) scope =
    add_grants m a xs
      (if x.is_active && has_perm m a x.permissions then add_grant x.scope_type x scope else scope)

unfoldable pub get_authorized_scope : User → TreasuryModule → TreasuryAction → AuthorizedScope
unfolding add_grants
get_authorized_scope user m a =
    if user.is_superuser
    then record { unrestricted = true; entity_ids = []; group_ids = [] }
    else add_grants m a user.role_assignments empty_scope

-- `db.get(LegalEntity, id)`
unfoldable pub get_entity : List LegalEntity → ℕ → Option LegalEntity
get_entity entities k = find (λ (e : LegalEntity). e.id == k) entities

abbrev pub group_of : Option LegalEntity → Option ℕ
group_of none = none
group_of (some e) = some e.group_id

abbrev pub lookup_entity : List LegalEntity → Option ℕ → Option LegalEntity
lookup_entity entities none = none
lookup_entity entities (some k) = get_entity entities k

unfoldable pub assert_entity_access :
    List LegalEntity
    → User
    → TreasuryModule
    → TreasuryAction
    → Option ℕ
    → Outcome (Option LegalEntity)
unfolding allows_entity
assert_entity_access entities user m a entity_id =
    let scope = get_authorized_scope user m a in
    let found = lookup_entity entities entity_id in
    if is_some entity_id && not (is_some found)
    then raised not_found
    else if allows_entity scope entity_id (group_of found)
    then ok found
    else raised forbidden

-- `select(LegalEntity.id).where(LegalEntity.group_id.in_(scope.group_ids))`
abbrev pub entities_in_groups : List LegalEntity → List ℕ → List ℕ
entities_in_groups entities groups =
    map (λ (e : LegalEntity). e.id)
      (filter (λ (e : LegalEntity). contains e.group_id groups) entities)

-- `none` stands for "ALL".
pub resolve_scope_entity_ids : List LegalEntity → AuthorizedScope → Option (List ℕ)
resolve_scope_entity_ids entities scope =
    if scope.unrestricted
    then none
    else some (entities_in_groups entities scope.group_ids ++ scope.entity_ids)

-- The condition that is added to a query on rows with this entity column.
pub apply_resolved_entity_scope : Option (List ℕ) → ℕ → Bool
apply_resolved_entity_scope none row_entity_id = true
apply_resolved_entity_scope (some ids) row_entity_id = contains row_entity_id ids

-- The condition of `apply_entity_scope`, for a row with an entity or, without one, with a group;
-- the flag says whether the caller passed a column of groups.
pub apply_entity_scope : List LegalEntity → AuthorizedScope → Bool → Option ℕ → Option ℕ → Bool
apply_entity_scope entities scope has_group_column row_entity_id row_group_id =
    if scope.unrestricted
    then true
    else key_in row_entity_id (entities_in_groups entities scope.group_ids ++ scope.entity_ids)
      || (has_group_column && not (is_some row_entity_id) && key_in row_group_id scope.group_ids)

-- The last test of `assert_record_belongs_to_authorized_entity`, for a row without an entity.
abbrev pub allows_group_record : AuthorizedScope → Option ℕ → Bool
allows_group_record scope none = scope.unrestricted
allows_group_record scope (some g) = allows_group scope (some g)

pub assert_record_belongs_to_authorized_entity :
    List LegalEntity
    → User
    → TreasuryModule
    → TreasuryAction
    → Option ℕ
    → Option ℕ
    → Outcome (Unit {0})
unfolding allows_entity allows_group
assert_record_belongs_to_authorized_entity entities user m a (some e) record_group_id =
    if allows_entity (get_authorized_scope user m a) (some e) (group_of (get_entity entities e))
    then ok tt
    else raised forbidden
assert_record_belongs_to_authorized_entity entities user m a none record_group_id =
    if allows_group_record (get_authorized_scope user m a) record_group_id
    then ok tt
    else raised forbidden

-- backend/app/auth/dependencies.py: the loop of the older check, which knows no groups.
abbrev pub covers : EntityScopeType → Option ℕ → Option ℕ → Bool
covers group_wide e own = true
covers entity none own = false
covers entity (some e) own = same_key own (some e)

pub grants_by : TreasuryModule → TreasuryAction → Option ℕ → List UserRoleAssignment → Bool
grants_by m a entity_id [] = false
grants_by m a entity_id (x ∷ xs) =
    (x.is_active && has_perm m a x.permissions && covers x.scope_type entity_id x.legal_entity_id)
    || grants_by m a entity_id xs

pub grants_permission : User → TreasuryModule → TreasuryAction → Option ℕ → Bool
unfolding grants_by
grants_permission user m a entity_id =
    if user.is_superuser then true else grants_by m a entity_id user.role_assignments
