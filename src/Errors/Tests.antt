-- ===== src/Errors/Tests.antt =====
-- Answers to concrete errors: apps/api/src/common/filters/all-exceptions.filter.ts.
use vertxing.Prelude.{◌≡◌, refl, none, some, [], ◌∷◌}
use vertxing.Http.{conflict, HttpError}
use vertxing.Errors.{http, body, many, catch, code_from_status, catch-injective}

validation :
    catch (http 400 (body (many ("email must be an email" ∷ "password is short" ∷ [])) none))
    ≡ record {
      status_code = 400;
      code = "BAD_REQUEST";
      message = "email must be an email";
      details = some ("email must be an email" ∷ "password is short" ∷ []);
    }
unfolding catch code_from_status
validation = refl

abbrev taken : HttpError
taken = conflict "taken"

catch-injective_example : taken ≡ taken
catch-injective_example = catch-injective taken taken refl
