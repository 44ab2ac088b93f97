-- ===== src/License.antt =====
-- Licences and seats: apps/api/src/modules/license/license.service.ts, with
-- packages/shared/src/types/license.types.ts. The table of licences is a list; verifying a key is the
-- JWT library's, and its outcome an argument. Times are in milliseconds. Minting keys is not modelled.
pub mod Activation
mod Tests
use vertxing.Prelude.{
  ℕ, zero, suc, ◌-◌, ◌*◌, String, Bool, true, false, ◌&&◌, Option, none, some, List, [], ◌∷◌, ◌==◌,
  ltb, leb, if◌then◌else◌,
}
use vertxing.Http.{HttpError, forbidden, Result, ok, throws}

pub data LicensePlan : Type 0 where
  starter team business : LicensePlan

abbrev pub plan_seats : LicensePlan → ℕ
plan_seats starter = 10
plan_seats team = 50
plan_seats business = 250

-- A row of the table; `is_active` is the status ACTIVE, and otherwise it is REVOKED.
pub record License : Type 0 where
  pub key : String
  pub plan : LicensePlan
  pub seats : ℕ
  pub is_active : Bool
  pub activated_by : String
  pub activated_at : ℕ
  pub expires_at : Option ℕ

pub record ActiveLicense : Type 0 where
  pub plan : LicensePlan
  pub seats : ℕ
  pub is_default : Bool
  pub activated_at : Option ℕ
  pub expires_at : Option ℕ

pub record LicenseStatus : Type 0 where
  pub plan : LicensePlan
  pub seats : ℕ
  pub used : ℕ
  pub remaining : ℕ
  pub is_default : Bool
  pub activated_at : Option ℕ
  pub expires_at : Option ℕ

-- The later of two activations.
abbrev pub later : License → Option License → Option License
later l none = some l
later l (some m) = if ltb l.activated_at m.activated_at then some m else some l

-- `findFirst` of the ACTIVE rows by `activatedAt`, latest first.
unfoldable pub latest_active : List License → Option License
latest_active [] = none
latest_active (l ∷ ls) = let rest = latest_active ls in if l.is_active then later l rest else rest

abbrev pub default_license : ActiveLicense
default_license = record {
  plan = starter;
  seats = plan_seats starter;
  is_default = true;
  activated_at = none;
  expires_at = none;
}

abbrev pub is_current : Option ℕ → ℕ → Bool
is_current none now = true
is_current (some t) now = ltb now t

unfoldable pub from_row : ℕ → Option License → ActiveLicense
from_row now none = default_license
from_row now (some l) =
    if is_current l.expires_at now
    then record {
      plan = l.plan;
      seats = l.seats;
      is_default = false;
      activated_at = some l.activated_at;
      expires_at = l.expires_at;
    }
    else default_license

unfoldable pub active : ℕ → List License → ActiveLicense
unfolding latest_active from_row
active now ls = from_row now (latest_active ls)

unfoldable pub status : ℕ → ℕ → List License → LicenseStatus
unfolding active
status now used ls =
    let a = active now ls in
    record {
      plan = a.plan;
      seats = a.seats;
      used = used;
      remaining = a.seats - used;
      is_default = a.is_default;
      activated_at = a.activated_at;
      expires_at = a.expires_at;
    }

unfoldable pub assert_seat_available : ℕ → ℕ → List License → Result (Unit {0})
unfolding active
assert_seat_available now used ls =
    if leb (active now ls).seats used
    then throws (forbidden "License limit reached. Please contact your administrator.")
    else ok tt

-- The claims of a verified key.
pub record Claims : Type 0 where
  pub plan : String
  pub seats : Option ℕ
  pub exp : Option ℕ

unfoldable pub parse_plan : String → Result LicensePlan
parse_plan value =
    if value == "STARTER"
    then ok starter
    else if value == "TEAM"
    then ok team
    else if value == "BUSINESS"
    then ok business
    else throws (forbidden "Unknown license plan.")

-- `typeof claims.seats === 'number' && claims.seats > 0 ? claims.seats : PLAN_SEATS[plan]`
abbrev pub seats_of : Option ℕ → LicensePlan → ℕ
seats_of none plan = plan_seats plan
seats_of (some zero) plan = plan_seats plan
seats_of (some (suc n)) plan = suc n

-- `claims.exp ? new Date(claims.exp * 1000) : null`
abbrev pub expiry : Option ℕ → Option ℕ
expiry none = none
expiry (some zero) = none
expiry (some (suc n)) = some (suc n * 1000)

unfoldable pub revoke_active : List License → List License
revoke_active [] = []
revoke_active (l ∷ ls) = record l { is_active = false } ∷ revoke_active ls

-- The key is unique.
unfoldable pub upsert : License → List License → List License
upsert l [] = l ∷ []
upsert l (m ∷ ls) = if m.key == l.key then l ∷ ls else m ∷ upsert l ls

-- The rows after the activation of a key whose claims name a known plan.
unfoldable pub activate_plan :
    String → String → Claims → ℕ → LicensePlan → List License → List License
unfolding revoke_active upsert
activate_plan key by_user_id claims now plan ls =
    upsert
      (record {
        key = key;
        plan = plan;
        seats = seats_of claims.seats plan;
        is_active = true;
        activated_by = by_user_id;
        activated_at = now;
        expires_at = expiry claims.exp;
      })
      (revoke_active ls)

unfoldable pub activate_parsed :
    String
    → String
    → Claims
    → ℕ
    → ℕ
    → Result LicensePlan
    → List License
    → Result LicenseStatus × List License
unfolding activate_plan status
activate_parsed key by_user_id claims now used (throws e) ls = (throws e, ls)
activate_parsed key by_user_id claims now used (ok plan) ls =
    let ls' = activate_plan key by_user_id claims now plan ls in (ok (status now used ls'), ls')

-- `verified` is what verifying the key gives, `none` where it is invalid or has expired.
unfoldable pub activate :
    String → String → Option Claims → ℕ → ℕ → List License → Result LicenseStatus × List License
unfolding activate_parsed parse_plan
activate key by_user_id none now used ls =
    (throws (forbidden "Invalid or expired license key."), ls)
activate key by_user_id (some claims) now used ls =
    activate_parsed key by_user_id claims now used (parse_plan claims.plan) ls
