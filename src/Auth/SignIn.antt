-- ===== src/Auth/SignIn.antt =====
-- Accounts that sign up and sign in: apps/api/src/modules/auth/auth.service.ts, with `create`,
-- `findByEmail` and `count` of apps/api/src/modules/users/users.repository.ts over the table of users
-- with their password hashes. bcrypt is a parameter; the id and the salt that a new account takes,
-- the token's id and the time are arguments. A request runs whole.
use vertxing.Prelude.{
  ℕ, String, Bool, true, false, ◌||◌, Option, none, some, List, [], ◌∷◌, ◌++◌, ◌==◌, if◌then◌else◌,
  is_text, is_some, length,
}
use vertxing.Prelude.Ascii.{to_lower_case, trim}
use vertxing.Http.{conflict, unauthorized, internal, Result, ok, throws}
use vertxing.Redis.Dataset.{Dataset}
use vertxing.Redis.Prog.{run}
use vertxing.Database.Tables.{DbRole, db_user, db_super_admin, UserWithRole}
use vertxing.Users.Service.{PublicUser, to_public_user, to_user_role}
use vertxing.License.{License, assert_seat_available}
use vertxing.Auth.Token.{TokenSubject, AuthTokens, Jwt, issue_tokens}

pub record Account : Type 0 where
  pub user : UserWithRole
  pub password_hash : String

pub record Store : Type 0 where
  pub accounts : List Account
  pub licenses : List License
  pub redis : Dataset

pub record Bcrypt : Type 0 where
  pub hash : (password salt : String) → String
  pub matches : (password password_hash : String) → Bool

-- The services that AuthService holds, with the configured owner's e-mail address.
pub record Config : Type 0 where
  pub jwt : Jwt
  pub bcrypt : Bcrypt
  pub super_admin_email : Option String

pub record RegisterDto : Type 0 where
  pub email : String
  pub password : String
  pub display_name : String

pub record LoginDto : Type 0 where
  pub email : String
  pub password : String

pub record AuthResult : Type 0 where
  pub user : PublicUser
  pub tokens : AuthTokens

-- What a request draws: the id and the salt of a new account, the id of its refresh token, the time.
pub record Fresh : Type 0 where
  pub id : String
  pub salt : String
  pub jti : String
  pub now : ℕ

-- `dto.email.toLowerCase().trim()`
unfoldable pub normalized : String → String
unfolding to_lower_case trim
normalized email = trim (to_lower_case email)

unfoldable pub find_by_email : String → List Account → Option Account
find_by_email email [] = none
find_by_email email (a ∷ rest) =
    if a.user.row.email == email then some a else find_by_email email rest

unfoldable pub new_account : Config → Fresh → RegisterDto → String → DbRole → Account
unfolding trim
new_account config fresh dto email role = record {
  user = record {
    row = record {
      id = fresh.id;
      email = email;
      display_name = trim dto.display_name;
      avatar_url = none;
      role = role;
      custom_role_id = none;
      do_not_disturb = false;
      calls_enabled = false;
      fcm_token = none;
      created_at = fresh.now;
    };
    custom_role = none;
  };
  password_hash = config.bcrypt.hash dto.password fresh.salt;
}

unfoldable pub subject_of : UserWithRole → TokenSubject
unfolding to_user_role
subject_of u = record { id = u.row.id; email = u.row.email; role = to_user_role u.row.role }

-- The tokens and the answer that end both operations.
unfoldable pub signed_in : Config → String → UserWithRole → Store → Result AuthResult × Store
unfolding issue_tokens subject_of to_public_user
signed_in config jti user st =
    let (tokens, redis) = run (issue_tokens config.jwt (subject_of user) jti) st.redis in
    (ok record { user = to_public_user user; tokens = tokens }, record st { redis = redis })

-- `create`: the e-mail address is unique.
unfoldable pub create : Config → Fresh → Account → Store → Result AuthResult × Store
unfolding find_by_email signed_in
create config fresh account st =
    if is_some (find_by_email account.user.row.email st.accounts)
    then (throws internal, st)
    else signed_in config fresh.jti account.user
        (record st { accounts = st.accounts ++ (account ∷ []) })

abbrev pub is_first : List Account → Bool
is_first [] = true
is_first (a ∷ rest) = false

unfoldable pub is_owner : Config → String → List Account → Bool
is_owner config email accounts = is_first accounts || is_text config.super_admin_email email

abbrev granted : Bool → DbRole
granted true = db_super_admin
granted false = db_user

-- `register` once the seat gate is passed.
unfoldable pub admit :
    Config → Fresh → RegisterDto → String → Bool → Store → Result AuthResult × Store
unfolding create new_account
admit config fresh dto email owner st =
    create config fresh (new_account config fresh dto email (granted owner)) st

-- The seat gate of one who is not the owner.
unfoldable pub seated :
    Config → Fresh → RegisterDto → String → Result (Unit {0}) → Store → Result AuthResult × Store
unfolding admit
seated config fresh dto email (throws e) st = (throws e, st)
seated config fresh dto email (ok u) st = admit config fresh dto email false st

unfoldable pub register : Config → Fresh → RegisterDto → Store → Result AuthResult × Store
unfolding normalized find_by_email is_owner admit seated assert_seat_available
register config fresh dto st =
    let email = normalized dto.email in
    if is_some (find_by_email email st.accounts)
    then (throws (conflict "An account with this email already exists"), st)
    else if is_owner config email st.accounts
    then admit config fresh dto email true st
    else seated config fresh dto email
        (assert_seat_available fresh.now (length st.accounts) st.licenses) st

abbrev pub invalid_login : Result AuthResult
invalid_login = throws (unauthorized "Invalid email or password")

unfoldable pub login_as :
    Config → String → String → Option Account → Store → Result AuthResult × Store
unfolding signed_in
login_as config jti password none st = (invalid_login, st)
login_as config jti password (some a) st =
    if config.bcrypt.matches password a.password_hash
    then signed_in config jti a.user st
    else (invalid_login, st)

unfoldable pub login : Config → String → LoginDto → Store → Result AuthResult × Store
unfolding normalized find_by_email login_as
login config jti dto st =
    login_as config jti dto.password (find_by_email (normalized dto.email) st.accounts) st
