-- ===== src/Roles/Tests.antt =====
-- The theorems on custom roles at concrete requests: roles.service.ts, under
-- apps/api/src/modules/roles.
use vertxing.Prelude.{◌≡◌, refl, true, ◌&&◌, none, some, [], ◌∷◌, String}
use vertxing.Permission.{license_manage, assignable_permissions, has_permission, to_permissions}
use vertxing.Roles.{sanitize_permissions}
use vertxing.Roles.Store.{Role, find_by_key, unique_key, base_key, free_key}
use vertxing.Prelude.Ascii.{to_lower_case, slug, dashed, undash_start, undash_end, decimal, digits}
use vertxing.Roles.Keys.{unique_key_found}
use vertxing.Roles.Pages.{opens}
use vertxing.Roles.Landing.{
  lands, all_land, creates, changes, removes, manage_roles, manage_roles-all_land,
}
use vertxing.Roles.Sanitized.{sanitize_permissions_exact}

sanitize_permissions_exact_example :
    has_permission
      (sanitize_permissions ("license.manage" ∷ "fly" ∷ "calls.start" ∷ []))
      license_manage
    ≡ (has_permission
          (to_permissions ("license.manage" ∷ "fly" ∷ "calls.start" ∷ []))
          license_manage
        && has_permission assignable_permissions license_manage)
sanitize_permissions_exact_example =
    sanitize_permissions_exact ("license.manage" ∷ "fly" ∷ "calls.start" ∷ []) license_manage

abbrev lead : String → Role
lead key = record {
  id = key;
  name = "Team lead";
  key = key;
  permissions = "users.manage" ∷ [];
  default_landing = "/app";
  created_at = 1;
}

-- The slug is taken, and so is the first numbered one.
third_key :
    unique_key " Team  Lead!" (lead "team-lead-2" ∷ lead "team-lead" ∷ []) ≡ some "team-lead-3"
unfolding unique_key base_key free_key find_by_key to_lower_case slug dashed undash_start undash_end
    decimal digits
third_key = refl

unique_key_found_example :
    (key : String) × (unique_key "Team lead" (lead "team-lead" ∷ []) ≡ some key)
    × (find_by_key key (lead "team-lead" ∷ []) ≡ none)
unique_key_found_example = unique_key_found "Team lead" (lead "team-lead" ∷ [])

manage_roles-all_land_example :
    all_land
      (manage_roles
        (creates "r1" 5 (record {
          name = "Guide";
          permissions = "calls.start" ∷ [];
          default_landing = some "/app/admin/users";
        })
          ∷ changes "team-lead" (record {
            name = none;
            permissions = some ("calls.start" ∷ []);
            default_landing = none;
          })
          ∷ removes "r1"
          ∷ [])
        (record { roles = lead "team-lead" ∷ []; members = [] })).roles
    ≡ true
unfolding all_land lands opens
manage_roles-all_land_example =
    manage_roles-all_land
      (creates "r1" 5 (record {
        name = "Guide";
        permissions = "calls.start" ∷ [];
        default_landing = some "/app/admin/users";
      })
        ∷ changes "team-lead" (record {
          name = none;
          permissions = some ("calls.start" ∷ []);
          default_landing = none;
        })
        ∷ removes "r1"
        ∷ [])
      (record { roles = lead "team-lead" ∷ []; members = [] }) refl
