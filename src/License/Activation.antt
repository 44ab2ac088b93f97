-- ===== src/License/Activation.antt =====
-- The licence in force after a key is activated: license.service.ts, under
-- apps/api/src/modules/license.
use vertxing.Prelude.{ℕ, String, ◌≡◌, refl, ap, ◌∙◌, true, false, none, some, List, [], ◌∷◌, arith}
use vertxing.Http.{ok}
use vertxing.License.{
  LicensePlan, License, latest_active, revoke_active, upsert, Claims, seats_of, expiry, is_current,
  parse_plan, active, from_row, activate, activate_plan, activate_parsed,
}

latest_active-revoke_active : (ls : List License) → latest_active (revoke_active ls) ≡ none
unfolding latest_active revoke_active
latest_active-revoke_active [] = refl
latest_active-revoke_active (l ∷ ls) = latest_active-revoke_active ls

latest_active-upsert :
    (l : License) (ls : List License)
    → l.is_active ≡ true
    → latest_active (upsert l (revoke_active ls)) ≡ some l
unfolding latest_active revoke_active upsert
latest_active-upsert l [] h = ground arith
latest_active-upsert l (m ∷ ls) h =
    ground (arith, latest_active-upsert l ls h, latest_active-revoke_active ls)

from_row-current :
    (l : License) (now : ℕ)
    → is_current l.expires_at now ≡ true
    → from_row now (some l) ≡ record {
      plan = l.plan;
      seats = l.seats;
      is_default = false;
      activated_at = some l.activated_at;
      expires_at = l.expires_at;
    }
unfolding from_row
from_row-current l now c = rw c refl

-- Activating a key that verifies, names a known plan and has not expired puts exactly its plan, its
-- seats (those of the plan where it names none) and its expiry in force, whatever licences there were.
pub activate-active :
    (key by_user_id : String) (claims : Claims) (now used : ℕ) (plan : LicensePlan)
    (ls : List License)
    → parse_plan claims.plan ≡ ok plan
    → is_current (expiry claims.exp) now ≡ true
    → active now (activate key by_user_id (some claims) now used ls).1 ≡ record {
      plan = plan;
      seats = seats_of claims.seats plan;
      is_default = false;
      activated_at = some now;
      expires_at = expiry claims.exp;
    }
unfolding active activate activate_parsed activate_plan from_row
activate-active key by_user_id claims now used plan ls p c =
    let row : License = record {
      key = key;
      plan = plan;
      seats = seats_of claims.seats plan;
      is_active = true;
      activated_by = by_user_id;
      activated_at = now;
      expires_at = expiry claims.exp;
    } in
    ap (λ r. active now (activate_parsed key by_user_id claims now used r ls).1) p
    ∙ ap (from_row now) (latest_active-upsert row ls refl)
    ∙ from_row-current row now c
