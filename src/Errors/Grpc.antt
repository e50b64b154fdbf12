-- ===== src/Errors/Grpc.antt =====
-- The conversion of errors.go to a gRPC status.
pub mod Laws
use Prim.Native.String.{◌++◌}
use go_modulith_template.Prelude.{
  String, Bool, true, false, Option, none, some, List, [], ◌∷◌, ◌==◌, eq_string, lookup,
  if◌then◌else◌,
}
use go_modulith_template.Errors.{
  ErrorType, ErrorCode, DomainError, Error, unknown, not_found, already_exists, validation,
  unauthorized, forbidden, conflict, internal, unavailable, errors_as, get_code,
}

-- The codes of google.golang.org/grpc/codes that the program uses.
pub data GrpcCode : Type 0 where
  grpc_unknown grpc_invalid_argument grpc_not_found grpc_already_exists grpc_permission_denied
        grpc_aborted grpc_internal grpc_unavailable grpc_unauthenticated :
      GrpcCode

pub record Status : Type 0 where
  pub code : GrpcCode
  pub message : String

unfoldable pub map_error_type_to_grpc_code : ErrorType → GrpcCode
map_error_type_to_grpc_code not_found = grpc_not_found
map_error_type_to_grpc_code already_exists = grpc_already_exists
map_error_type_to_grpc_code validation = grpc_invalid_argument
map_error_type_to_grpc_code unauthorized = grpc_unauthenticated
map_error_type_to_grpc_code forbidden = grpc_permission_denied
map_error_type_to_grpc_code conflict = grpc_aborted
map_error_type_to_grpc_code unavailable = grpc_unavailable
map_error_type_to_grpc_code internal = grpc_internal
map_error_type_to_grpc_code unknown = grpc_unknown

abbrev pub error_code_to_translation_key : List (ErrorCode × String)
error_code_to_translation_key =
    ("USER_NOT_FOUND", "errors.user_not_found")
    ∷ ("AUTH_INVALID_CREDENTIALS", "errors.invalid_credentials")
    ∷ ("AUTH_MAGIC_CODE_EXPIRED", "errors.magic_code_expired")
    ∷ ("AUTH_MAGIC_CODE_INVALID", "errors.magic_code_invalid")
    ∷ ("AUTH_REQUIRED", "errors.auth_required")
    ∷ ("AUTH_TOKEN_EXPIRED", "errors.token_expired")
    ∷ ("AUTH_INVALID_TOKEN", "errors.token_invalid")
    ∷ ("AUTH_SESSION_EXPIRED", "errors.session_expired")
    ∷ ("AUTH_SESSION_REVOKED", "errors.session_revoked")
    ∷ ("FORBIDDEN", "errors.forbidden")
    ∷ ("INSUFFICIENT_PERMISSION", "errors.insufficient_permission")
    ∷ ("NOT_RESOURCE_OWNER", "errors.not_resource_owner")
    ∷ ("USER_ALREADY_EXISTS", "errors.user_already_exists")
    ∷ ("USER_SUSPENDED", "errors.user_suspended")
    ∷ ("VALIDATION_FAILED", "errors.validation_failed")
    ∷ ("ALREADY_EXISTS", "errors.already_exists")
    ∷ ("CONFLICT", "errors.conflict")
    ∷ ("SERVICE_UNAVAILABLE", "errors.service_unavailable")
    ∷ ("RATE_LIMITED", "errors.rate_limited")
    ∷ ("QUOTA_EXCEEDED", "errors.quota_exceeded")
    ∷ ("INTERNAL_ERROR", "errors.internal_error")
    ∷ ("UNKNOWN", "errors.unknown")
    ∷ []

abbrev pub or_empty : Option String → String
or_empty none = ""
or_empty (some key) = key

unfoldable pub map_error_code_to_translation_key : ErrorCode → String
map_error_code_to_translation_key code = or_empty (lookup code error_code_to_translation_key)

-- The message, or its translation if there is a locale, a key and a translation of it.
abbrev pub translated : Option (String → String) → String → String → String
translated none key message = message
translated (some translate) key message =
    if key == "" then message else if translate key == key then message else translate key

abbrev pub bracketed : ErrorCode → String → String
bracketed code message = "[" ++ (code ++ ("] " ++ message))

unfoldable pub status_of : Option (String → String) → Option DomainError → Status
unfolding map_error_type_to_grpc_code get_code map_error_code_to_translation_key
status_of translate none = record {
  code = grpc_internal;
  message =
      bracketed "INTERNAL_ERROR"
        (translated translate "errors.internal_error" "internal server error");
}
status_of translate (some e) = record {
  code = map_error_type_to_grpc_code e.type;
  message =
      bracketed (get_code e)
        (translated translate (map_error_code_to_translation_key (get_code e)) e.message);
}

unfoldable pub to_grpc_with_context : Option (String → String) → Option Error → Option Status
unfolding status_of errors_as
to_grpc_with_context translate none = none
to_grpc_with_context translate (some err) = some (status_of translate (errors_as err))

unfoldable pub to_grpc : Option Error → Option Status
unfolding to_grpc_with_context
to_grpc err = to_grpc_with_context none err
