-- ===== src/Errors.antt =====
-- internal/errors/errors.go: domain errors, their stable codes and the gRPC status they become.
-- An `error` that may be nil is an `Option`; `ErrorCode` is a text, and the empty one is no code.
-- `translate key` stands for `i18n.T`, which gives the key back where it has no translation;
-- `none` for it means that no locale is set. `Sprintf` with a format is the caller's text.
pub mod Codes
pub mod Grpc
pub mod Tests
use Prim.Native.String.{◌++◌}
use go_modulith_template.Prelude.{
  String, Bool, true, false, ◌||◌, Option, none, some, List, [], ◌∷◌, ◌==◌, eq_string, lookup,
  if◌then◌else◌,
}

pub data ErrorType : Type 0 where
  unknown not_found already_exists validation unauthorized forbidden conflict internal unavailable :
      ErrorType

abbrev pub ErrorCode : Type 0
ErrorCode = String

pub record DomainError : Type 0 where
  pub type : ErrorType
  pub code : ErrorCode
  pub message : String
  pub details : List (String × String)

-- A Go error chain: a domain error without and with a wrapped error, an error with a text and no
-- cause, and `fmt.Errorf` with one `%w` and the text that it printed.
pub data Error : Type 0 where
  domain : DomainError → Error
  domain_over : DomainError → Error → Error
  plain : String → Error
  wrapped : String → Error → Error

unfoldable pub error_text : Error → String
error_text (domain e) = e.message
error_text (domain_over e cause) = e.message ++ (": " ++ error_text cause)
error_text (plain text) = text
error_text (wrapped text cause) = text

unfoldable pub unwrap : Error → Option Error
unwrap (domain e) = none
unwrap (domain_over e cause) = some cause
unwrap (plain text) = none
unwrap (wrapped text cause) = some cause

-- `errors.As(err, &domainErr)`: the first domain error of the chain.
unfoldable pub errors_as : Error → Option DomainError
errors_as (domain e) = some e
errors_as (domain_over e cause) = some e
errors_as (plain text) = none
errors_as (wrapped text cause) = errors_as cause

unfoldable pub map_error_type_to_code : ErrorType → ErrorCode
map_error_type_to_code not_found = "NOT_FOUND"
map_error_type_to_code already_exists = "ALREADY_EXISTS"
map_error_type_to_code validation = "VALIDATION_FAILED"
map_error_type_to_code unauthorized = "AUTH_REQUIRED"
map_error_type_to_code forbidden = "FORBIDDEN"
map_error_type_to_code conflict = "CONFLICT"
map_error_type_to_code unavailable = "SERVICE_UNAVAILABLE"
map_error_type_to_code internal = "INTERNAL_ERROR"
map_error_type_to_code unknown = "UNKNOWN"

abbrev pub one_of : ErrorCode → List ErrorCode → Bool
one_of code [] = false
one_of code (c ∷ codes) = code == c || one_of code codes

unfoldable pub map_code_to_error_type : ErrorCode → ErrorType
map_code_to_error_type code =
    if one_of code ("NOT_FOUND" ∷ "USER_NOT_FOUND" ∷ [])
    then not_found
    else if one_of code ("ALREADY_EXISTS" ∷ "USER_ALREADY_EXISTS" ∷ [])
    then already_exists
    else if code == "VALIDATION_FAILED"
    then validation
    else if one_of code (
        "AUTH_REQUIRED" ∷ "AUTH_INVALID_TOKEN" ∷ "AUTH_TOKEN_EXPIRED" ∷ "AUTH_INVALID_CREDENTIALS"
        ∷ "AUTH_SESSION_EXPIRED" ∷ "AUTH_SESSION_REVOKED" ∷ "AUTH_MAGIC_CODE_EXPIRED"
        ∷ "AUTH_MAGIC_CODE_INVALID" ∷ [])
    then unauthorized
    else if one_of code ("FORBIDDEN" ∷ "INSUFFICIENT_PERMISSION" ∷ "NOT_RESOURCE_OWNER" ∷ [])
    then forbidden
    else if code == "CONFLICT"
    then conflict
    else if code == "SERVICE_UNAVAILABLE"
    then unavailable
    else if one_of code ("RATE_LIMITED" ∷ "QUOTA_EXCEEDED" ∷ [])
    then forbidden
    else internal

unfoldable pub get_code : DomainError → ErrorCode
unfolding map_error_type_to_code
get_code e = if e.code == "" then map_error_type_to_code e.type else e.code

unfoldable pub set_code : Error → ErrorCode → Error
set_code (domain e) code = domain (record e { code = code })
set_code (domain_over e cause) code = domain_over (record e { code = code }) cause
set_code err code = err

unfoldable pub set_details : Error → List (String × String) → Error
set_details (domain e) details = domain (record e { details = details })
set_details (domain_over e cause) details = domain_over (record e { details = details }) cause
set_details err details = err

abbrev pub info : ErrorType → ErrorCode → String → DomainError
info type code message = record { type = type; code = code; message = message; details = [] }

abbrev pub over : DomainError → Option Error → Error
over e none = domain e
over e (some cause) = domain_over e cause

-- The constructors: `NotFound(message)` is `new_error not_found message`, and so on for the types
-- without a cause; `Internal` and `Unavailable` take a cause, which may be nil.
unfoldable pub new_error : ErrorType → String → Error
new_error type message = domain (info type "" message)

unfoldable pub new_error_over : ErrorType → String → Option Error → Error
new_error_over type message cause = over (info type "" message) cause

unfoldable pub with_code : ErrorCode → String → Error
unfolding map_code_to_error_type
with_code code message = domain (info (map_code_to_error_type code) code message)

unfoldable pub with_code_and_error : ErrorCode → String → Option Error → Error
unfolding map_code_to_error_type
with_code_and_error code message cause =
    over (info (map_code_to_error_type code) code message) cause

abbrev pub type_or_internal : Option DomainError → ErrorType
type_or_internal none = internal
type_or_internal (some e) = e.type

unfoldable pub wrap : Option Error → String → Option Error
unfolding errors_as
wrap none message = none
wrap (some err) message =
    some (domain_over (info (type_or_internal (errors_as err)) "" message) err)

unfoldable pub get_error_code : Option Error → ErrorCode
unfolding errors_as get_code
get_error_code none = ""
get_error_code (some err) = elim (errors_as err) [ none ↦ "UNKNOWN" | some e ↦ get_code e ]

abbrev pub same_type : ErrorType → ErrorType → Bool
same_type not_found not_found = true
same_type already_exists already_exists = true
same_type validation validation = true
same_type _ _ = false

-- `IsNotFound`, `IsAlreadyExists` and `IsValidation`.
unfoldable pub has_type : ErrorType → Option Error → Bool
unfolding errors_as
has_type type none = false
has_type type (some err) = elim (errors_as err) [ none ↦ false | some e ↦ same_type e.type type ]
