-- ===== src/Web/Client/Laws.antt =====
-- A request refreshes its access token once at most: apps/web/lib/api-client.ts.
use vertxing.Prelude.{
  ℕ, suc, ◌≤◌, ◌≡◌, String, Bool, true, false, not, ◌&&◌, ◌==◌, ◌||◌, none, some, [], ◌∷◌, arith,
  if◌then◌else◌, length,
}
use vertxing.Call.Types.{is_truthy}
use vertxing.Web.Client.{
  undefined, other, Session, AuthTokens, RequestOptions, FetchCall, ApiError, Value, Response,
  api_error, Outcome, returns, throws, unfinished, unreadable, no_content, success, failure, tokens,
  exchange, answered, bearer_of, renews, renew, refresh, as_tokens, save_tokens, clear, request,
  run,
}

abbrev pub outcome_of : Response → Outcome Value
outcome_of unreadable = throws other
outcome_of no_content = returns undefined
outcome_of (success status v) = returns v
outcome_of (failure status e) = throws (api_error e)

abbrev pub is_finished : Outcome Value → Bool
is_finished (returns v) = true
is_finished (throws e) = true
is_finished unfinished = false

-- The fetch of a request, and that of a refresh.
abbrev pub call_of : String → RequestOptions → Session → FetchCall
call_of path options s = record {
  path = path;
  method = options.method;
  body = options.body;
  bearer = (if not options.anonymous && is_truthy s.access_token then s.access_token else none);
}

abbrev pub refresh_call : Session → FetchCall
refresh_call s = record {
  path = "/auth/refresh";
  method = "POST";
  body = s.refresh_token;
  bearer = none;
}

abbrev pub signed_out : Session
signed_out = record { access_token = none; refresh_token = none; user = none }

module _ {κ} {Server : Type κ} (server : FetchCall → Server → Response × Server) (path : String)
    (options : RequestOptions) (s : Session) (w : Server) (k : ℕ) where
  -- Whatever the server answers, a request comes to an end, with a value or an error, after at most
  -- three fetches: two calls of `request` inside one another are all that there ever are.
  pub request_bounded :
      let (o, s', w', calls) = run server (request (suc (suc k)) path options) s w in
      (is_finished o ≡ true) × (length calls ≤ 3)
  unfolding request exchange answered renews renew refresh as_tokens save_tokens clear
  request_bounded = (ground arith, ground arith)

  -- A request that no refresh can follow, an anonymous one or a retry, is one fetch, and leaves the
  -- session.
  pub request_single :
      (options.anonymous || options.is_retry) ≡ true
      → run server (request (suc (suc k)) path options) s w ≡ (
        outcome_of (server (call_of path options s) w).0,
        s,
        (server (call_of path options s) w).1,
        call_of path options s ∷ [],
      )
  unfolding request exchange answered renews bearer_of
  request_single h = ground arith

  -- When the server refuses a request that bears the session and is no retry with a 401, other than
  -- that of a refused refresh, there is a refresh token, and the server gives new tokens for it, the
  -- request is sent once more, with the new access token. The answer to that is the outcome, whatever
  -- it is, also another 401; there are three fetches; and the session keeps the new tokens.
  pub request_renewed :
      (status : ℕ) (e : ApiError) (t : AuthTokens) (w1 w2 : Server)
      → server (call_of path options s) w ≡ (failure 401 e, w1)
      → options.anonymous ≡ false
      → options.is_retry ≡ false
      → is_truthy s.refresh_token ≡ true
      → (e.code == "UNAUTHORIZED_REFRESH") ≡ false
      → server (refresh_call s) w1 ≡ (success status (tokens t), w2)
      → let s' : Session = record s {
        access_token = some t.access_token;
        refresh_token = some t.refresh_token;
      } in
        let again = call_of path options s' in
        run server (request (suc (suc k)) path options) s w ≡ (
          outcome_of (server again w2).0,
          s',
          (server again w2).1,
          call_of path options s ∷ refresh_call s ∷ again ∷ [],
        )
  unfolding request exchange answered renew refresh as_tokens save_tokens bearer_of renews
  request_renewed status e t w1 w2 h a r n c q = ground arith

  -- When the server refuses the access token and the refresh too, the caller is thrown the first error,
  -- and the user is signed out.
  pub request-signed_out :
      (status status' : ℕ) (e e' : ApiError) (w1 w2 : Server)
      → server (call_of path options s) w ≡ (failure status e, w1)
      → renews options s status e ≡ true
      → server (refresh_call s) w1 ≡ (failure status' e', w2)
      → run server (request (suc (suc k)) path options) s w
        ≡ (throws (api_error e), signed_out, w2, call_of path options s ∷ refresh_call s ∷ [])
  unfolding request exchange answered renew refresh clear bearer_of
  request-signed_out status status' e e' w1 w2 h n q = ground arith
