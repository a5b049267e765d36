-- ===== src/Errors.antt =====
-- packages/utils/src/errors.ts: the errors that handlers throw, with their codes and HTTP statuses.
-- Stack traces, `details` and `cause` are left out.
use auto_ops.Prelude.{ℕ, String, ◌<>◌}

pub data ErrorCode : Type 0 where
  validation_failed unauthenticated unauthorized not_found conflict rate_limited bad_request
        external_service_error internal :
      ErrorCode

pub record AppError : Type 0 where
  pub code : ErrorCode
  pub status_code : ℕ
  pub message : String

-- What a `throw` throws: an `AppError`, or an `Error` that is none.
pub data Thrown : Type 0 where
  app : AppError → Thrown
  plain : String → Thrown

abbrev pub unauthenticated_error : String → Thrown
unauthenticated_error message =
    app (record { code = unauthenticated; status_code = 401; message = message })

abbrev pub unauthorized_error : String → Thrown
unauthorized_error message =
    app (record { code = unauthorized; status_code = 403; message = message })

abbrev pub not_found_error : String → Thrown
not_found_error resource =
    app (record { code = not_found; status_code = 404; message = resource <> " not found" })

abbrev pub conflict_error : String → Thrown
conflict_error message = app (record { code = conflict; status_code = 409; message = message })

abbrev pub bad_request_error : String → Thrown
bad_request_error message =
    app (record { code = bad_request; status_code = 400; message = message })
