-- ===== src/Errors.antt =====
-- What a request that throws is answered with: apps/api/src/common/filters/all-exceptions.filter.ts.
-- The time stamp and the log are left out.
mod Tests
use vertxing.Prelude.{
  ℕ, String, ◌≡◌, ◌≢◌, refl, Bool, true, false, ◌||◌, Option, none, some, List, [], ◌∷◌, ◌==◌,
  arith, eq_iff, if◌then◌else◌,
}
use vertxing.Http.{HttpError, bad_request, unauthorized, forbidden, not_found, conflict, internal}
use Prim.Native.Nat.{compare, Ordering}

-- The `message` of an exception's payload: one text, or those of class-validator.
pub data Messages : Type 0 where
  absent : Messages
  one : String → Messages
  many : List String → Messages

-- `exception.getResponse()`
pub data Payload : Type 0 where
  text : String → Payload
  body : Messages → (code : Option String) → Payload

-- An `HttpException` with its status, or anything else that is thrown.
pub data Exception : Type 0 where
  http : (status : ℕ) → Payload → Exception
  unexpected : (message : String) → Exception

pub record ErrorBody : Type 0 where
  pub status_code : ℕ
  pub code : String
  pub message : String
  pub details : Option (List String)

abbrev is : ℕ → ℕ → Bool
is a b = elim (compare a b) [ Ordering.eq ↦ true | _ ↦ false ]

unfoldable pub code_from_status : ℕ → String
code_from_status status =
    if is status 400
    then "BAD_REQUEST"
    else if is status 401
    then "UNAUTHORIZED"
    else if is status 403
    then "FORBIDDEN"
    else if is status 404
    then "NOT_FOUND"
    else if is status 409
    then "CONFLICT"
    else if is status 422
    then "UNPROCESSABLE_ENTITY"
    else "INTERNAL_ERROR"

-- `String(body.message[0])`
abbrev first : List String → String
first [] = "undefined"
first (m ∷ ms) = m

abbrev message_of : Payload → String
message_of (text s) = s
message_of (body absent code) = "Internal server error"
message_of (body (one m) code) = m
message_of (body (many ms) code) = first ms

abbrev details_of : Payload → Option (List String)
details_of (body (many ms) code) = some ms
details_of _ = none

abbrev code_of : Payload → String
code_of (body m (some code)) = code
code_of _ = "INTERNAL_ERROR"

unfoldable pub catch : Exception → ErrorBody
unfolding code_from_status
catch (unexpected m) = record {
  status_code = 500;
  code = "INTERNAL_ERROR";
  message = "Internal server error";
  details = none;
}
catch (http status payload) = record {
  status_code = status;
  code = (if code_of payload == "INTERNAL_ERROR" then code_from_status status else code_of payload);
  message = message_of payload;
  details = details_of payload;
}

-- What NestJS documents of the exceptions that the services throw: the status, and a payload with the
-- message.
unfoldable pub thrown : HttpError → Exception
thrown (bad_request m) = http 400 (body (one m) none)
thrown (unauthorized m) = http 401 (body (one m) none)
thrown (forbidden m) = http 403 (body (one m) none)
thrown (not_found m) = http 404 (body (one m) none)
thrown (conflict m) = http 409 (body (one m) none)
thrown internal = unexpected "database"

-- Two errors of services that are answered alike have the same kind and the same message.
pub catch-injective : (e f : HttpError) → catch (thrown e) ≡ catch (thrown f) → e ≡ f
unfolding catch thrown code_from_status
catch-injective e f h = ground arith
