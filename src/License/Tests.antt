-- ===== src/License/Tests.antt =====
-- The theorem on licences at a concrete key: license.service.ts, under apps/api/src/modules/license.
use vertxing.Prelude.{◌≡◌, refl, true, false, none, some, [], ◌∷◌}
use vertxing.License.{License, starter, team, active, activate, Claims, parse_plan}
use vertxing.License.Activation.{activate-active}

abbrev old : License
old = record {
  key = "k0";
  plan = starter;
  seats = 20;
  is_active = true;
  activated_by = "root";
  activated_at = 7;
  expires_at = none;
}

abbrev team_claims : Claims
team_claims = record { plan = "TEAM"; seats = none; exp = some 9 }

activate-active_example :
    active 100 (activate "k1" "root" (some team_claims) 100 3 (old ∷ [])).1 ≡ record {
      plan = team;
      seats = 50;
      is_default = false;
      activated_at = some 100;
      expires_at = some 9000;
    }
unfolding parse_plan
activate-active_example = activate-active "k1" "root" team_claims 100 3 team (old ∷ []) refl refl
