-- ===== src/Auth/AccountTests.antt =====
-- The theorems on accounts at concrete accounts: auth.service.ts, under apps/api/src/modules/auth.
use Prim.Native.String.{◌++◌ as cat}
use vertxing.Prelude.{◌≤◌, ◌≡◌, refl, none, [], ◌∷◌, ◌==◌, length}
use vertxing.Prelude.Ascii.{to_lower_case, trim, trim_start, trim_end}
use vertxing.Http.{ok, unauthorized}
use vertxing.Permission.{resolve_user_permissions, to_permissions}
use vertxing.Redis.Dataset.{answer}
use vertxing.Redis.Service.{set}
use vertxing.Database.Tables.{db_user, db_super_admin}
use vertxing.License.{active, latest_active, from_row, assert_seat_available}
use vertxing.Auth.Token.{issue_tokens, refresh_key}
use vertxing.Users.Service.{to_public_user, to_user_role}
use vertxing.Auth.SignIn.{
  Store, Config, RegisterDto, LoginDto, AuthResult, Fresh, normalized, find_by_email, new_account,
  signed_in, subject_of, create, is_owner, admit, seated, register, login_as, login, invalid_login,
}
use vertxing.Auth.Accounts.{register-login, register_seats, login_fails}

abbrev config : Config
config = record {
  jwt = record {
    access_ttl = 900;
    refresh_ttl = 604800;
    sign_access = λ p. p.sub;
    sign_refresh = λ p j. j;
    verify_refresh_token = λ t. none;
  };
  bcrypt = record { hash = λ p salt. cat salt p; matches = λ p h. cat "$" p == h };
  super_admin_email = none;
}

abbrev empty : Store
empty = record {
  accounts = [];
  licenses = [];
  redis = record {
    text = λ k. none;
    counter = λ k. none;
    hash = λ k. [];
    members = λ k. [];
    ttl = λ k. none;
  };
}

abbrev ann_dto : RegisterDto
ann_dto = record { email = " Ann@X.org"; password = "correct horse"; display_name = "Ann " }

abbrev bob_dto : RegisterDto
bob_dto = record { email = "bob@x.org"; password = "battery staple"; display_name = "Bob" }

abbrev first : Fresh
first = record { id = "u1"; salt = "$"; jti = "j1"; now = 5 }

abbrev second : Fresh
second = record { id = "u2"; salt = "$"; jti = "j2"; now = 6 }

ann-normalized : normalized ann_dto.email ≡ "ann@x.org"
unfolding normalized to_lower_case trim trim_start trim_end
ann-normalized = refl

-- What Ann's registration is answered with.
abbrev anns : AuthResult
anns = record {
  user = to_public_user (new_account config first ann_dto "ann@x.org" db_super_admin).user;
  tokens = record { access_token = "u1"; refresh_token = "j1"; expires_in = 900 };
}

abbrev ann_again : LoginDto
ann_again = record { email = "ann@x.ORG"; password = "correct horse" }

register-login_example :
    (y : AuthResult) × ((login config "j2" ann_again (register config first ann_dto empty).1).0
      ≡ ok y)
    × (y.user ≡ anns.user)
unfolding register normalized to_lower_case trim trim_start trim_end find_by_email is_owner admit
    seated create new_account signed_in subject_of to_public_user to_user_role
    resolve_user_permissions to_permissions assert_seat_available active latest_active from_row
    issue_tokens set answer refresh_key
register-login_example =
    register-login config first ann_dto empty anns "j2" ann_again refl refl refl

-- Ann's account is there.
abbrev with_ann : Store
with_ann = record empty {
  accounts = new_account config first ann_dto "ann@x.org" db_super_admin ∷ [];
}

abbrev bobs : AuthResult
bobs = record {
  user = to_public_user (new_account config second bob_dto "bob@x.org" db_user).user;
  tokens = record { access_token = "u2"; refresh_token = "j2"; expires_in = 900 };
}

register_seats_example :
    length (register config second bob_dto with_ann).1.accounts ≤ (active 6 []).seats
unfolding register normalized to_lower_case trim trim_start trim_end find_by_email is_owner admit
    seated create new_account signed_in subject_of to_public_user to_user_role
    resolve_user_permissions to_permissions assert_seat_available active latest_active from_row
    issue_tokens set answer refresh_key
register_seats_example = register_seats config second bob_dto with_ann bobs refl refl

login_fails_example :
    login config "j2" (record { email = "eve@x.org"; password = "guess" }) with_ann
    ≡ (invalid_login, with_ann)
unfolding login login_as normalized to_lower_case trim trim_start trim_end find_by_email new_account
login_fails_example =
    login_fails config "j2" (record { email = "eve@x.org"; password = "guess" }) with_ann
      (unauthorized "Invalid email or password") refl
