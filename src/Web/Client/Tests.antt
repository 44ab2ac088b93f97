-- ===== src/Web/Client/Tests.antt =====
-- The client's requests at concrete servers: apps/web/lib/api-client.ts.
use vertxing.Prelude.{
  ℕ, suc, ◌≤◌, ◌≡◌, refl, true, false, none, some, [], ◌∷◌, ◌==◌, if◌then◌else◌, length, is_text,
}
use vertxing.Web.Client.{
  Session, AuthTokens, RequestOptions, FetchCall, ApiError, Response, text, tokens, success,
  failure, api_error, throws, renews, request, run,
}
use vertxing.Web.Client.Laws.{
  is_finished, outcome_of, call_of, refresh_call, signed_out, request_bounded, request_single,
  request_renewed, request-signed_out,
}

abbrev stale : Session
stale = record { access_token = some "a1"; refresh_token = some "r1"; user = none }

abbrev plain : RequestOptions
plain = record { method = "GET"; body = none; anonymous = false; is_retry = false }

abbrev expired : ApiError
expired = record { message = "Unauthorized"; code = "UNAUTHORIZED"; status_code = 401 }

abbrev renewed : AuthTokens
renewed = record { access_token = "a2"; refresh_token = "r2" }

-- A server that takes the token a2 only, and rotates r1; it counts what it is asked.
abbrev server : FetchCall → ℕ → Response × ℕ
server c n =
    if c.path == "/auth/refresh"
    then (if is_text c.body "r1" then success 200 (tokens renewed) else failure 401 expired, suc n)
    else (if is_text c.bearer "a2" then success 200 (text "me") else failure 401 expired, suc n)

abbrev revoked : Session
revoked = record { access_token = some "a1"; refresh_token = some "r0"; user = none }

request_bounded_example :
    let (o, s', w', calls) = run server (request 2 "/users/me" plain) stale 0 in
    (is_finished o ≡ true) × (length calls ≤ 3)
request_bounded_example = request_bounded server "/users/me" plain stale 0 0

abbrev login : RequestOptions
login = record { method = "POST"; body = some "{}"; anonymous = true; is_retry = false }

request_single_example :
    run server (request 2 "/auth/login" login) stale 0
    ≡ (throws (api_error expired), stale, 1, call_of "/auth/login" login stale ∷ [])
request_single_example = request_single server "/auth/login" login stale 0 0 refl

request_renewed_example :
    let s' : Session = record {
      access_token = some "a2";
      refresh_token = some "r2";
      user = none;
    } in
    let again = call_of "/users/me" plain s' in
    run server (request 2 "/users/me" plain) stale 0 ≡ (
      outcome_of (success 200 (text "me")),
      s',
      3,
      call_of "/users/me" plain stale ∷ refresh_call stale ∷ again ∷ [],
    )
request_renewed_example =
    request_renewed server "/users/me" plain stale 0 0 200 expired renewed 1 2 refl refl refl refl
      refl refl

request-signed_out_example : run server (request 2 "/users/me" plain) revoked 0 ≡ (
  throws (api_error expired),
  signed_out,
  2,
  call_of "/users/me" plain revoked ∷ refresh_call revoked ∷ [],
)
unfolding renews
request-signed_out_example =
    request-signed_out server "/users/me" plain revoked 0 0 401 401 expired expired 1 2 refl refl
      refl
