-- ===== src/Roles/Sanitized.antt =====
-- What a custom role may hold, and where its members land: roles.service.ts, under
-- apps/api/src/modules/roles.
use vertxing.Prelude.{
  String, ◌≡◌, refl, ap, ◌∙◌, Bool, true, false, ◌&&◌, ◌||◌, List, [], ◌∷◌, arith,
}
use vertxing.Permission.{
  Permission, meetings_host, is_permission, assignable_permissions, has_permission, to_permissions,
  add_all,
}
use vertxing.Permission.Laws.{has_permission-add_all}
use vertxing.Roles.{filter_allowed, sanitize_permissions}

same : (r p q : Permission) → is_permission p q ≡ true → is_permission r p ≡ is_permission r q
same r p q h = ground arith

or_false : (b : Bool) → (b || has_permission [] meetings_host) ≡ b
unfolding has_permission
or_false true = refl
or_false false = refl

has_permission_respects :
    (ps : List Permission) (p q : Permission)
    → is_permission p q ≡ true
    → has_permission ps p ≡ has_permission ps q
unfolding has_permission
has_permission_respects [] p q h = refl
has_permission_respects (r ∷ ps) p q h =
    ground (arith, has_permission_respects ps p q h, same r p q h)

has_permission-filter_allowed :
    (allowed ps : List Permission) (q : Permission)
    → has_permission (filter_allowed allowed ps) q
      ≡ (has_permission ps q && has_permission allowed q)
unfolding filter_allowed has_permission
has_permission-filter_allowed allowed [] q = refl
has_permission-filter_allowed allowed (p ∷ ps) q =
    ground (arith, has_permission-filter_allowed allowed ps q, has_permission_respects allowed p q)

-- The permissions of a custom role are exactly the known ones that were asked for and are assignable,
-- so never `license.manage`.
pub sanitize_permissions_exact :
    (values : List String) (p : Permission)
    → has_permission (sanitize_permissions values) p
      ≡ (has_permission (to_permissions values) p && has_permission assignable_permissions p)
unfolding sanitize_permissions
sanitize_permissions_exact values p =
    has_permission-filter_allowed assignable_permissions (add_all (to_permissions values) []) p
    ∙ ap (λ b. b && has_permission assignable_permissions p)
        (has_permission-add_all (to_permissions values) p []
          ∙ or_false (has_permission (to_permissions values) p))
