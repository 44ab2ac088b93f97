-- ===== src/Auth/Tests.antt =====
-- The theorems on refresh tokens at concrete tokens: token.service.ts, under
-- apps/api/src/modules/auth.
use vertxing.Prelude.{◌≡◌, refl, none, some, [], ◌∷◌, ◌==◌, arith, eq_iff, if◌then◌else◌}
use vertxing.Http.{ok}
use vertxing.Permission.{user}
use vertxing.Redis.Dataset.{Dataset, elapse, answer}
use vertxing.Redis.Prog.{run}
use vertxing.Redis.Service.{get, set, delete}
use vertxing.Call.Race.{turn, interleave, winners}
use vertxing.Auth.Token.{
  JwtPayload, TokenSubject, Jwt, refresh_key, verify_refresh, issue_tokens, consume,
  rotate_verified, rotate, revoke,
}
use vertxing.Auth.Rotation.{
  no_longer_valid, rotate-single_use, revoke-rotate, issue_tokens-rotate, attempt, rotate-races,
}

abbrev ann_claims : JwtPayload
ann_claims = record { sub = "ann"; email = "ann@x"; role = user }

abbrev ann_subject : TokenSubject
ann_subject = record { id = "ann"; email = "ann@x"; role = user }

-- A JWT library that signs Ann's tokens by their id.
abbrev jwt : Jwt
jwt = record {
  access_ttl = 900;
  refresh_ttl = 604800;
  sign_access = λ p. p.sub;
  sign_refresh = λ p j. j;
  verify_refresh_token = λ t. if t == "j1" then some (ann_claims, some "j1") else none;
}

abbrev signed_in : Dataset
signed_in = record {
  text = λ k. if k == "refresh:ann:j1" then some "1" else none;
  counter = λ k. none;
  hash = λ k. [];
  members = λ k. [];
  ttl = λ k. none;
}

rotate-single_use_example :
    (run (rotate jwt "j1" "j3") (elapse 5 (run (rotate jwt "j1" "j2") signed_in).1)).0
    ≡ no_longer_valid
unfolding rotate verify_refresh rotate_verified consume issue_tokens get set delete answer
    refresh_key
rotate-single_use_example =
    rotate-single_use jwt "j1" "j2" "j3" ann_claims "j1" signed_in
      (record { access_token = "ann"; refresh_token = "j2"; expires_in = 900 }) 5 refl
      (λ e. ground (arith, (eq_iff "j2" "j1").1 e)) refl

revoke-rotate_example :
    (run (rotate jwt "j1" "j2") (elapse 5 (run (revoke jwt "j1") signed_in).1)).0 ≡ no_longer_valid
unfolding verify_refresh
revoke-rotate_example = revoke-rotate jwt "j1" "j2" ann_claims "j1" signed_in 5 refl

issue_tokens-rotate_example :
    (run
      (rotate jwt (run (issue_tokens jwt ann_subject "j1") signed_in).0.refresh_token "j2")
      (elapse 60 (run (issue_tokens jwt ann_subject "j1") signed_in).1)).0
    ≡ ok (record { access_token = "ann"; refresh_token = "j2"; expires_in = 900 })
unfolding issue_tokens set
issue_tokens-rotate_example =
    issue_tokens-rotate jwt ann_subject "j1" "j2" signed_in 60 refl (omega arith) refl

rotate-races_example :
    winners
      (interleave
        (turn 0 ∷ turn 1 ∷ turn 0 ∷ turn 0 ∷ turn 1 ∷ turn 1 ∷ [])
        (attempt jwt "j1" "j2" ∷ attempt jwt "j1" "j3" ∷ [])
        signed_in).0
    ≡ 2
unfolding verify_refresh refresh_key
rotate-races_example = rotate-races jwt "j1" "j2" "j3" ann_claims "j1" signed_in refl refl
