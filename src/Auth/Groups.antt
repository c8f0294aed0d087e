-- ===== src/Auth/Groups.antt =====
-- What the older check of backend/app/auth/dependencies.py makes of the groups of assignments.
use treasury_os_app.Base.{ℕ, ◌≡◌, refl, ◌||◌, Option, none, some, List, [], ◌∷◌, map, arith}
use treasury_os_app.Auth.{
  TreasuryModule, TreasuryAction, EntityScopeType, group_wide, entity, UserRoleAssignment, User,
  covers, grants_by, grants_permission,
}
use treasury_os_app.Auth.Grants.{reaches, granted}

-- The assignment as one over all groups.
abbrev pub ungrouped : UserRoleAssignment → UserRoleAssignment
ungrouped x = record x { group_id = none }

covers-reaches :
    (s : EntityScopeType) (e : ℕ) (own g : Option ℕ)
    → covers s (some e) own ≡ reaches s none own (some e) g
covers-reaches group_wide e own g = refl
covers-reaches entity e none g = ground arith
covers-reaches entity e (some k) g = ground arith

grants_by-ungrouped :
    (m : TreasuryModule) (a : TreasuryAction) (e : ℕ) (g : Option ℕ) (xs : List UserRoleAssignment)
    → grants_by m a (some e) xs ≡ granted m a (some e) g (map ungrouped xs)
unfolding grants_by granted
grants_by-ungrouped m a e g [] = refl
grants_by-ungrouped m a e g (x ∷ xs) =
    ground
      (arith, covers-reaches x.scope_type e x.legal_entity_id g, grants_by-ungrouped m a e g xs)

-- The older check does not look at groups: on an entity of any group, it grants exactly what the
-- assignments would grant if each GROUP_WIDE one were over all groups.
pub grants_permission-ungrouped :
    (user : User) (m : TreasuryModule) (a : TreasuryAction) (e : ℕ) (g : Option ℕ)
    → grants_permission user m a (some e)
      ≡ (user.is_superuser || granted m a (some e) g (map ungrouped user.role_assignments))
unfolding grants_permission
grants_permission-ungrouped user m a e g =
    ground (arith, grants_by-ungrouped m a e g user.role_assignments)
