-- ===== src/Prelude/Results.antt =====
-- The HTTP exceptions that the services throw, and the outcome of a call.

-- NotFoundException, ConflictException, BadRequestException, UnauthorizedException,
-- ServiceUnavailableException, and the 500 for an error that no handler expects.
pub data HttpError : Type 0 where
  not_found conflict bad_request unauthorized unavailable internal : HttpError

pub data Result (A : Type 0) : Type 0 where
  ok : A → Result A
  err : HttpError → Result A
