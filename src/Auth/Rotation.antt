-- ===== src/Auth/Rotation.antt =====
-- Refresh tokens are used once: token.service.ts, under apps/api/src/modules/auth.
use text.Mathlib.TextLemmas.{append_cancel_left}
use vertxing.Prelude.{
  ℕ, ◌<◌, suc, zero, String, ◌≡◌, ◌≢◌, ◌∙◌, refl, sym, ap, Bool, true, false, none, some, [], ◌∷◌,
  ◌==◌, arith, eq_refl, ne-eq_false,
}
use vertxing.Http.{unauthorized, Result, ok, throws}
use vertxing.Redis.Dataset.{Dataset, answer, elapse}
use vertxing.Redis.Prog.{Prog, ret, run, ◌>>=◌}
use vertxing.Redis.Service.{set, get, delete}
use vertxing.Call.Race.{turn, interleave, winners}
use vertxing.Auth.Token.{
  TokenSubject, JwtPayload, AuthTokens, Jwt, refresh_key, verify_refresh, is_present, issue_tokens,
  consume, rotate_verified, rotate, revoke_verified, revoke,
}

-- A refresh token that verifies as this user's, with this id.
abbrev Verifies : Jwt → String → JwtPayload → String → Type 0
unfolding verify_refresh
Verifies jwt token p jti = verify_refresh jwt token ≡ ok (p, jti)

abbrev pub no_longer_valid : Result AuthTokens
no_longer_valid = throws (unauthorized "Refresh token is no longer valid")

refresh_key-injective : (u i j : String) → i ≢ j → (refresh_key u i == refresh_key u j) ≡ false
unfolding refresh_key
refresh_key-injective u i j n = ne-eq_false _ _ (λ e.
    n (append_cancel_left ":" i j (append_cancel_left u _ _ (append_cancel_left "refresh:" _ _ e))))

-- A refresh token whose key is gone is refused.
spent :
    (jwt : Jwt) (token fresh : String) (p : JwtPayload) (jti : String) (d : Dataset)
    → verify_refresh jwt token ≡ ok (p, jti)
    → d.text (refresh_key p.sub jti) ≡ none
    → (run (rotate jwt token fresh) d).0 ≡ no_longer_valid
unfolding rotate rotate_verified consume get answer
spent jwt token fresh p jti d v h = rw v (ground arith)

spent-elapse : (n : ℕ) (d : Dataset) (k : String) → d.text k ≡ none → (elapse n d).text k ≡ none
unfolding elapse
spent-elapse n d k h = ground arith

consume-spends :
    (jwt : Jwt) (p : JwtPayload) (jti fresh : String) (b : Bool) (d d' : Dataset) (x : AuthTokens)
    → fresh ≢ jti
    → run (consume jwt p jti fresh b) d ≡ (ok x, d')
    → d'.text (refresh_key p.sub jti) ≡ none
unfolding consume issue_tokens set delete answer
consume-spends jwt p jti fresh false d d' x n h = ground (arith, ap (λ r. r.0) h)
consume-spends jwt p jti fresh true d d' x n h =
    ap (λ r. r.1.text (refresh_key p.sub jti)) (sym h)
    ∙ ground (arith, refresh_key-injective p.sub fresh jti n, eq_refl (refresh_key p.sub jti))

rotate-consume :
    (jwt : Jwt) (token fresh : String) (p : JwtPayload) (jti : String) (d : Dataset)
    → verify_refresh jwt token ≡ ok (p, jti)
    → run (rotate jwt token fresh) d
      ≡ run (consume jwt p jti fresh (is_present (d.text (refresh_key p.sub jti)))) d
unfolding rotate rotate_verified get answer
rotate-consume jwt token fresh p jti d v = rw v refl

-- A refresh token is used once: after a rotation that gave new tokens, with another id than the
-- token's, and any time, rotating the same token is refused.
pub rotate-single_use :
    (jwt : Jwt) (token fresh again : String) (p : JwtPayload) (jti : String) (d : Dataset)
    (x : AuthTokens) (n : ℕ)
    → verify_refresh jwt token ≡ ok (p, jti)
    → fresh ≢ jti
    → (run (rotate jwt token fresh) d).0 ≡ ok x
    → (run (rotate jwt token again) (elapse n (run (rotate jwt token fresh) d).1)).0
      ≡ no_longer_valid
rotate-single_use jwt token fresh again p jti d x n v ne h =
    let d' = (run (rotate jwt token fresh) d).1 in
    let gone =
      consume-spends jwt p jti fresh (is_present (d.text (refresh_key p.sub jti))) d d' x ne
        (sym (rotate-consume jwt token fresh p jti d v) ∙ ap (λ r. (r, d')) h) in
    spent jwt token again p jti (elapse n d') v (spent-elapse n d' (refresh_key p.sub jti) gone)

revoke-spends :
    (jwt : Jwt) (token : String) (p : JwtPayload) (jti : String) (d : Dataset)
    → verify_refresh jwt token ≡ ok (p, jti)
    → (run (revoke jwt token) d).1.text (refresh_key p.sub jti) ≡ none
unfolding revoke revoke_verified delete answer
revoke-spends jwt token p jti d v = rw v (ground (arith, eq_refl (refresh_key p.sub jti)))

-- After a logout, and any time, the refresh token is refused.
pub revoke-rotate :
    (jwt : Jwt) (token again : String) (p : JwtPayload) (jti : String) (d : Dataset) (n : ℕ)
    → verify_refresh jwt token ≡ ok (p, jti)
    → (run (rotate jwt token again) (elapse n (run (revoke jwt token) d).1)).0 ≡ no_longer_valid
revoke-rotate jwt token again p jti d n v =
    spent jwt token again p jti (elapse n (run (revoke jwt token) d).1) v (
      spent-elapse n (run (revoke jwt token) d).1 (refresh_key p.sub jti)
        (revoke-spends jwt token p jti d v))

live :
    (k : String) (t n : ℕ) (d : Dataset)
    → n < t
    → (elapse n (run (set k "1" (some t)) d).1).text k ≡ some "1"
unfolding set answer elapse
live k zero n d l = ground arith
live k (suc t) n d l = ground (arith, eq_refl k)

issue_tokens-live :
    (jwt : Jwt) (s : TokenSubject) (jti : String) (d : Dataset) (n : ℕ)
    → n < jwt.refresh_ttl
    → (elapse n (run (issue_tokens jwt s jti) d).1).text (refresh_key s.id jti) ≡ some "1"
unfolding issue_tokens set answer
issue_tokens-live jwt s jti d n l =
    unfold set answer in live (refresh_key s.id jti) jwt.refresh_ttl n d l

verified :
    (jwt : Jwt) (token : String) (p : JwtPayload) (jti : String)
    → (jti == "") ≡ false
    → jwt.verify_refresh_token token ≡ some (p, some jti)
    → verify_refresh jwt token ≡ ok (p, jti)
unfolding verify_refresh
verified jwt token p jti j v = rw (v, j) refl

consume-live :
    (jwt : Jwt) (p : JwtPayload) (jti fresh : String) (d : Dataset)
    → d.text (refresh_key p.sub jti) ≡ some "1"
    → (run (consume jwt p jti fresh (is_present (d.text (refresh_key p.sub jti)))) d).0
      ≡ ok (record {
        access_token = jwt.sign_access p;
        refresh_token = jwt.sign_refresh p fresh;
        expires_in = jwt.access_ttl;
      })
unfolding consume issue_tokens delete set answer
consume-live jwt p jti fresh d h = rw h refl

-- Tokens that were issued are accepted by a rotation within the lifetime of the refresh token, which
-- gives tokens of the same subject, where the JWT library verifies what it signs.
pub issue_tokens-rotate :
    (jwt : Jwt) (s : TokenSubject) (jti fresh : String) (d : Dataset) (n : ℕ)
    → (jti == "") ≡ false
    → n < jwt.refresh_ttl
    → jwt.verify_refresh_token (run (issue_tokens jwt s jti) d).0.refresh_token
      ≡ some (record { sub = s.id; email = s.email; role = s.role }, some jti)
    → (run
        (rotate jwt (run (issue_tokens jwt s jti) d).0.refresh_token fresh)
        (elapse n (run (issue_tokens jwt s jti) d).1)).0
      ≡ ok (record {
        access_token = jwt.sign_access (record { sub = s.id; email = s.email; role = s.role });
        refresh_token =
            jwt.sign_refresh (record { sub = s.id; email = s.email; role = s.role }) fresh;
        expires_in = jwt.access_ttl;
      })
issue_tokens-rotate jwt s jti fresh d n j l v =
    let p : JwtPayload = record { sub = s.id; email = s.email; role = s.role } in
    let token = (run (issue_tokens jwt s jti) d).0.refresh_token in
    let d' = elapse n (run (issue_tokens jwt s jti) d).1 in
    ap (λ r. r.0) (rotate-consume jwt token fresh p jti d' (verified jwt token p jti j v))
    ∙ consume-live jwt p jti fresh d' (issue_tokens-live jwt s jti d n l)

abbrev is_ok : Result AuthTokens → Bool
is_ok (ok x) = true
is_ok (throws e) = false

-- A rotation as a thread that ends with `true` if it gives new tokens.
unfoldable pub attempt : Jwt → String → String → Prog Bool
unfolding rotate
attempt jwt token fresh = do r ← rotate jwt token fresh; ret (is_ok r)

-- The use of a refresh token is not atomic: of two rotations of one valid token that both read its
-- key before either deletes it, both give new tokens.
pub rotate-races :
    (jwt : Jwt) (token fresh fresh' : String) (p : JwtPayload) (jti : String) (d : Dataset)
    → verify_refresh jwt token ≡ ok (p, jti)
    → d.text (refresh_key p.sub jti) ≡ some "1"
    → winners
        (interleave
          (turn 0 ∷ turn 1 ∷ turn 0 ∷ turn 0 ∷ turn 1 ∷ turn 1 ∷ [])
          (attempt jwt token fresh ∷ attempt jwt token fresh' ∷ [])
          d).0
      ≡ 2
unfolding attempt interleave winners rotate rotate_verified consume issue_tokens get set delete
    answer
rotate-races jwt token fresh fresh' p jti d v h = rw v (ground arith)
