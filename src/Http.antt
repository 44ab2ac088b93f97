-- ===== src/Http.antt =====
-- How the services answer: a value, or one of NestJS's exceptions with its message.
use vertxing.Prelude.{String}

pub data HttpError : Type 0 where
  bad_request unauthorized forbidden not_found conflict : String → HttpError
  -- An exception that no service raises itself, such as the database's: answered with status 500.
  internal : HttpError

pub data Result {ℓ} (A : Type ℓ) : Type ℓ where
  ok : A → Result A
  throws : HttpError → Result A
