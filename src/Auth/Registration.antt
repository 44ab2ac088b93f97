-- ===== src/Auth/Registration.antt =====
-- What a registration leaves, written out: `register` of
-- apps/api/src/modules/auth/auth.service.ts.
use vertxing.Prelude.{
  ℕ, String, ◌≡◌, Bool, false, ◌||◌, none, some, List, [], ◌∷◌, ◌++◌, ◌==◌, leb, if◌then◌else◌,
  is_text, length,
}
use vertxing.Prelude.Ascii.{trim}
use vertxing.Http.{conflict, forbidden, Result, ok, throws}
use vertxing.Permission.{UserRole, user, admin, super_admin}
use vertxing.Redis.Dataset.{answer}
use vertxing.Database.Tables.{DbRole, db_user, db_admin, db_super_admin}
use vertxing.License.{active}
use vertxing.Auth.Token.{JwtPayload, refresh_key}
use vertxing.Auth.SignIn.{Account, Store, Config, RegisterDto, AuthResult, Fresh, normalized}
use vertxing.Auth.Accounts.{Ruling, taken, no_seat, joins_as}

unfoldable pub has_email : String → List Account → Bool
has_email email [] = false
has_email email (a ∷ rest) = a.user.row.email == email || has_email email rest

-- The rule: an address that has an account is refused; the very first account and that of the
-- configured address are the owner's, and need no seat; any other needs one that is free, and is an
-- ordinary user's.
unfoldable pub verdict : Config → ℕ → String → Store → Ruling
verdict config now email st =
    if has_email email st.accounts
    then taken
    else if leb (length st.accounts) 0 || is_text config.super_admin_email email
    then joins_as db_super_admin
    else if leb (active now st.licenses).seats (length st.accounts)
    then no_seat
    else joins_as db_user

-- The role as the contracts name it.
abbrev pub public_role : DbRole → UserRole
public_role db_super_admin = super_admin
public_role db_admin = admin
public_role db_user = user

module _ (config : Config) (fresh : Fresh) (dto : RegisterDto) (st : Store) where
  -- The row of the new account.
  abbrev pub row_of : DbRole → Account
  row_of role = record {
    user = record {
      row = record {
        id = fresh.id;
        email = normalized dto.email;
        display_name = trim dto.display_name;
        avatar_url = none;
        role = role;
        custom_role_id = none;
        do_not_disturb = false;
        calls_enabled = false;
        fcm_token = none;
        created_at = fresh.now;
      };
      custom_role = none;
    };
    password_hash = config.bcrypt.hash dto.password fresh.salt;
  }

  -- The payload of the new account's tokens.
  abbrev pub payload_of : DbRole → JwtPayload
  payload_of role = record { sub = fresh.id; email = normalized dto.email; role = public_role role }

  -- What a registration that is granted leaves and answers.
  pub record Joined (role : DbRole) (result : Result AuthResult × Store) : Type 0 where
    pub accounts : result.1.accounts ≡ st.accounts ++ (row_of role ∷ [])
    pub licenses : result.1.licenses ≡ st.licenses
    pub stored : result.1.redis.text (refresh_key fresh.id fresh.jti) ≡ some "1"
    pub answer :
        (x : AuthResult) × (result.0 ≡ ok x)
        × (x.tokens ≡ record {
          access_token = config.jwt.sign_access (payload_of role);
          refresh_token = config.jwt.sign_refresh (payload_of role) fresh.jti;
          expires_in = config.jwt.access_ttl;
        })
        × (x.user.id ≡ fresh.id)
        × (x.user.email ≡ normalized dto.email)
        × (x.user.role ≡ public_role role)
        × (x.user.calls_enabled ≡ false)

  abbrev pub Rules : Ruling → Result AuthResult × Store → Type 0
  Rules taken result = result ≡ (throws (conflict "An account with this email already exists"), st)
  Rules no_seat result =
      result ≡ (throws (forbidden "License limit reached. Please contact your administrator."), st)
  Rules (joins_as role) result = Joined role result
