-- ===== src/Roles/Pages.antt =====
-- The pages that a landing may be: clampLanding of roles.service.ts, under apps/api/src/modules/roles,
-- and the pages of apps/web/app/app.
use vertxing.Prelude.{
  String, ◌≡◌, ◌∙◌, refl, sym, ap, Bool, true, false, ◌&&◌, ◌||◌, Option, none, some, List, [], ◌∷◌,
  ◌++◌, ◌==◌, arith, if◌then◌else◌, Bool-cases, inl, inr,
}
use vertxing.Permission.{
  Permission, calls_start, users_manage, has_permission, visible_nav, visible_from,
}
use vertxing.Roles.{includes, allowed_landings, clamp_landing}
use vertxing.Roles.Store.{}

-- The pages of the app and whom they are for: those of the sidebar, and the two of the administrators
-- (apps/web/app/app/admin/users/page.tsx and apps/web/app/app/admin/roles/page.tsx).
abbrev pub opens_for : (calls users : Bool) → String → Bool
opens_for calls users page =
    ("/app" == page || "/app/meetings" == page || "/app/settings" == page)
    || (calls && ("/app/contacts" == page || "/app/calls" == page))
    || (users && ("/app/admin/users" == page || "/app/admin/roles" == page))

unfoldable pub opens : List Permission → String → Bool
opens ps page = opens_for (has_permission ps calls_start) (has_permission ps users_manage) page

abbrev pages : (calls users : Bool) → List String
pages calls users =
    (if calls
      then "/app" ∷ "/app/meetings" ∷ "/app/contacts" ∷ "/app/calls" ∷ "/app/settings" ∷ []
      else "/app" ∷ "/app/meetings" ∷ "/app/settings" ∷ [])
    ++ (if users then "/app/admin/users" ∷ "/app/admin/roles" ∷ [] else [])

pages-opens_for :
    (calls users : Bool) (page : String)
    → includes (pages calls users) page ≡ true
    → opens_for calls users page ≡ true
unfolding includes
pages-opens_for true true page h = ground arith
pages-opens_for true false page h = ground arith
pages-opens_for false true page h = ground arith
pages-opens_for false false page h = ground arith

allowed_landings-pages :
    (ps : List Permission)
    → allowed_landings ps ≡ pages (has_permission ps calls_start) (has_permission ps users_manage)
unfolding allowed_landings visible_nav visible_from
allowed_landings-pages ps = ground arith

allowed_landings-opens :
    (ps : List Permission) (page : String)
    → includes (allowed_landings ps) page ≡ true
    → opens ps page ≡ true
unfolding opens
allowed_landings-opens ps page h =
    pages-opens_for _ _ page (sym (ap (λ l. includes l page) (allowed_landings-pages ps)) ∙ h)

home_opens : (ps : List Permission) → opens ps "/app" ≡ true
unfolding opens
home_opens ps = refl

pub clamp_landing-lands :
    (landing : Option String) (ps : List Permission) → opens ps (clamp_landing landing ps) ≡ true
unfolding clamp_landing
clamp_landing-lands none ps = home_opens ps
clamp_landing-lands (some l) ps = elim (Bool-cases (includes (allowed_landings ps) l)) [
  | inl e ↦ ground (arith, e, allowed_landings-opens ps l e)
  | inr e ↦ ground (arith, e, home_opens ps)
]
