-- ===== src/Web/Client.antt =====
-- The client's requests: `request` and `refresh` of apps/web/lib/api-client.ts, with the session of
-- apps/web/lib/session.ts in a browser. The server is whatever answers each request; the bodies are
-- texts, that of a refresh the refresh token.
pub mod Laws
mod Tests
use vertxing.Prelude.{
  ℕ, zero, suc, String, Bool, true, false, not, ◌&&◌, Option, none, some, List, [], ◌∷◌, ◌==◌,
  if◌then◌else◌,
}
use vertxing.Call.Types.{is_truthy}
use Prim.Native.Nat.{compare, Ordering}

-- `localStorage`, under the three keys of the session.
pub record Session : Type 0 where
  pub access_token : Option String
  pub refresh_token : Option String
  pub user : Option String

pub record AuthTokens : Type 0 where
  pub access_token : String
  pub refresh_token : String

pub record RequestOptions : Type 0 where
  pub method : String
  pub body : Option String
  pub anonymous : Bool
  pub is_retry : Bool

-- What `fetch` is given, with the bearer token of the header.
pub record FetchCall : Type 0 where
  pub path : String
  pub method : String
  pub body : Option String
  pub bearer : Option String

pub record ApiError : Type 0 where
  pub message : String
  pub code : String
  pub status_code : ℕ

-- What a request throws: the server's error, or one of `fetch`, of parsing or of a missing value.
pub data Exception : Type 0 where
  api_error : ApiError → Exception
  other : Exception

-- A response: none that can be read, nothing to parse (204), or the envelope, whose data is a text or
-- a pair of tokens.
pub data Value : Type 0 where
  undefined : Value
  text : String → Value
  tokens : AuthTokens → Value

pub data Response : Type 0 where
  unreadable no_content : Response
  success : (status : ℕ) → Value → Response
  failure : (status : ℕ) → ApiError → Response

-- What a request does: it fetches, reads and writes the session, and ends in a value or an error, or
-- has not ended when the fuel is spent.
pub data Client {ℓ} (A : Type ℓ) : Type ℓ where
  ret : A → Client A
  throw : Exception → Client A
  exhausted : Client A
  fetch : FetchCall → (Response → Client A) → Client A
  read : (Session → Client A) → Client A
  write : Session → Client A → Client A

infixl 5 ◌>>=◌ ◌>>◌
abbrev pub ◌>>=◌ {ℓ κ} : {A : Type ℓ} {B : Type κ} → Client A → (A → Client B) → Client B
ret a >>= f = f a
throw e >>= f = throw e
exhausted >>= f = exhausted
fetch c k >>= f = fetch c (λ r. k r >>= f)
read k >>= f = read (λ s. k s >>= f)
write s m >>= f = write s (m >>= f)

abbrev pub ◌>>◌ {ℓ κ} : {A : Type ℓ} {B : Type κ} → Client A → Client B → Client B
m >> n = m >>= λ _. n

-- `try { p } catch { q }`
abbrev pub catching {ℓ} : {A : Type ℓ} → Client A → Client A → Client A
catching (ret a) q = ret a
catching (throw e) q = q
catching exhausted q = exhausted
catching (fetch c k) q = fetch c (λ r. catching (k r) q)
catching (read k) q = read (λ s. catching (k s) q)
catching (write s m) q = write s (catching m q)

unfoldable pub save_tokens : AuthTokens → Client (Unit {0})
save_tokens t = read (λ s.
    write (record s { access_token = some t.access_token; refresh_token = some t.refresh_token })
      (ret tt))

unfoldable pub clear : Client (Unit {0})
clear = write (record { access_token = none; refresh_token = none; user = none }) (ret tt)

-- The header: the access token, unless the request is anonymous or there is none.
unfoldable pub bearer_of : RequestOptions → Session → Option String
bearer_of options s =
    if not options.anonymous && is_truthy s.access_token then s.access_token else none

abbrev is_401 : ℕ → Bool
is_401 n = elim (compare n 401) [ Ordering.eq ↦ true | _ ↦ false ]

-- Whether a failure is met with a refresh.
unfoldable pub renews : RequestOptions → Session → ℕ → ApiError → Bool
renews options s status e =
    is_401 status
    && not options.anonymous
    && not options.is_retry
    && is_truthy s.refresh_token
    && not (e.code == "UNAUTHORIZED_REFRESH")

-- The fetch that every request begins with.
unfoldable pub exchange : String → RequestOptions → Client Response
unfolding bearer_of
exchange path options = read (λ s.
    fetch
      (record {
        path = path;
        method = options.method;
        body = options.body;
        bearer = bearer_of options s;
      })
      ret)

-- `saveTokens` reads the two fields of what was parsed; a text has neither, and nothing at all throws.
unfoldable pub as_tokens : Value → Client AuthTokens
as_tokens (tokens t) = ret t
as_tokens (text s) = ret record { access_token = "undefined"; refresh_token = "undefined" }
as_tokens undefined = throw other

-- `request` and `refresh` call each other: the calls of `request` are an argument here.
module _ (call : String → RequestOptions → Client Value) where
  unfoldable pub refresh : Client AuthTokens
  unfolding as_tokens
  refresh = read (λ s. do
    v ←
        call "/auth/refresh"
          record { method = "POST"; body = s.refresh_token; anonymous = true; is_retry = false }
    as_tokens v)

  -- The `try` of the refresh gives the tokens; its `catch` clears the session. The retry is returned
  -- from the `try` without being awaited, so that its own failure is the caller's.
  unfoldable pub renew : ApiError → Client (Unit {0})
  unfolding refresh save_tokens clear
  renew e = catching (do t ← refresh; save_tokens t) (do clear; throw (api_error e))

  unfoldable pub answered : String → RequestOptions → Response → Client Value
  unfolding renews renew
  answered path options unreadable = throw other
  answered path options no_content = ret undefined
  answered path options (success status v) = ret v
  answered path options (failure status e) = read (λ s.
      if renews options s status e
      then (do renew e; call path (record options { is_retry = true }))
      else throw (api_error e))

-- The fuel is how deep the calls of `request` may stand inside one another.
unfoldable pub request : ℕ → String → RequestOptions → Client Value
unfolding exchange answered
request zero path options = exhausted
request (suc n) path options = exchange path options >>= answered (request n) path options

-- How a request ends.
pub data Outcome {ℓ} (A : Type ℓ) : Type ℓ where
  returns : A → Outcome A
  throws : Exception → Outcome A
  unfinished : Outcome A

-- A run against a server that answers each call from its state; the calls are listed. No other
-- request changes the session meanwhile.
abbrev pub run {ℓ κ} :
    {A : Type ℓ} {Server : Type κ}
    → (FetchCall → Server → Response × Server)
    → Client A
    → Session
    → Server
    → Outcome A × Session × Server × List FetchCall
run server (ret a) s w = (returns a, s, w, [])
run server (throw e) s w = (throws e, s, w, [])
run server exhausted s w = (unfinished, s, w, [])
run server (fetch c k) s w =
    let (r, w1) = server c w in
    let (o, s', w', calls) = run server (k r) s w1 in (o, s', w', c ∷ calls)
run server (read k) s w = run server (k s) s w
run server (write s m) old w = run server m s w
