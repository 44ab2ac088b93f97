-- ===== src/Auth/Token.antt =====
-- Access and refresh tokens: apps/api/src/modules/auth/token.service.ts, with `JwtPayload` and
-- `AuthTokens` of packages/shared/src/types/auth.types.ts. Signing and verifying are the JWT
-- library's, and a parameter, `Jwt`; the id that a new refresh token takes is an argument.
use Prim.Native.String.{◌++◌ as cat}
use vertxing.Prelude.{ℕ, String, Bool, true, false, Option, none, some, ◌==◌, if◌then◌else◌}
use vertxing.Http.{unauthorized, Result, ok, throws}
use vertxing.Permission.{UserRole}
use vertxing.Redis.Prog.{Prog, ret, ◌>>=◌, ◌>>◌}
use vertxing.Redis.Service.{set, get, delete}

pub record TokenSubject : Type 0 where
  pub id : String
  pub email : String
  pub role : UserRole

pub record JwtPayload : Type 0 where
  pub sub : String
  pub email : String
  pub role : UserRole

pub record AuthTokens : Type 0 where
  pub access_token : String
  pub refresh_token : String
  pub expires_in : ℕ

-- The JWT library with the configured secrets and lifetimes. A verified token gives its payload and
-- its `jti`, if it has one; `none` is a token that is invalid or has expired.
pub record Jwt : Type 0 where
  pub access_ttl : ℕ
  pub refresh_ttl : ℕ
  pub sign_access : JwtPayload → String
  pub sign_refresh : JwtPayload → String → String
  pub verify_refresh_token : String → Option (JwtPayload × Option String)

unfoldable pub refresh_key : String → String → String
refresh_key user_id jti = cat "refresh:" (cat user_id (cat ":" jti))

-- Both ways to fail end in the same exception, since the `catch` takes the first one too.
abbrev with_jti : Option (JwtPayload × Option String) → Result (JwtPayload × String)
with_jti none = throws (unauthorized "Invalid or expired refresh token")
with_jti (some (p, none)) = throws (unauthorized "Invalid or expired refresh token")
with_jti (some (p, some j)) =
    if j == "" then throws (unauthorized "Invalid or expired refresh token") else ok (p, j)

unfoldable pub verify_refresh : Jwt → String → Result (JwtPayload × String)
verify_refresh jwt token = with_jti (jwt.verify_refresh_token token)

unfoldable pub issue_tokens : Jwt → TokenSubject → String → Prog AuthTokens
issue_tokens jwt subject jti =
    let payload : JwtPayload = record {
      sub = subject.id;
      email = subject.email;
      role = subject.role;
    } in
    do
      set (refresh_key subject.id jti) "1" (some jwt.refresh_ttl)
      ret record {
        access_token = jwt.sign_access payload;
        refresh_token = jwt.sign_refresh payload jti;
        expires_in = jwt.access_ttl;
      }

abbrev pub is_present : Option String → Bool
is_present none = false
is_present (some v) = if v == "" then false else true

-- `rotate`, of a verified token, once its key is read.
unfoldable pub consume : Jwt → JwtPayload → String → String → Bool → Prog (Result AuthTokens)
unfolding issue_tokens
consume jwt decoded jti fresh false = ret (throws (unauthorized "Refresh token is no longer valid"))
consume jwt decoded jti fresh true = do
  delete (refresh_key decoded.sub jti)
  tokens ←
      issue_tokens jwt (record { id = decoded.sub; email = decoded.email; role = decoded.role })
        fresh
  ret (ok tokens)

unfoldable pub rotate_verified :
    Jwt → String → Result (JwtPayload × String) → Prog (Result AuthTokens)
unfolding consume
rotate_verified jwt fresh (throws e) = ret (throws e)
rotate_verified jwt fresh (ok (decoded, jti)) = do
  present ← get (refresh_key decoded.sub jti)
  consume jwt decoded jti fresh (is_present present)

unfoldable pub rotate : Jwt → String → String → Prog (Result AuthTokens)
unfolding verify_refresh rotate_verified
rotate jwt refresh_token fresh = rotate_verified jwt fresh (verify_refresh jwt refresh_token)

unfoldable pub revoke_verified : Result (JwtPayload × String) → Prog (Result (Unit {0}))
revoke_verified (throws e) = ret (throws e)
revoke_verified (ok (decoded, jti)) = do delete (refresh_key decoded.sub jti); ret (ok tt)

unfoldable pub revoke : Jwt → String → Prog (Result (Unit {0}))
unfolding verify_refresh revoke_verified
revoke jwt refresh_token = revoke_verified (verify_refresh jwt refresh_token)
