-- ===== src/Errors/Grpc/Laws.antt =====
-- The status that an error becomes, under wrapping and translation.
use go_modulith_template.Prelude.{
  String, ◌≡◌, ◌↔◌, ◌⊎◌, ap, sym, refl, true, false, Option, none, some, Option-cases, inl, inr,
  arith,
}
use go_modulith_template.Errors.{
  ErrorType, ErrorCode, DomainError, Error, unknown, not_found, already_exists, validation,
  internal, errors_as, get_code, wrap, type_or_internal, has_type, same_type,
}
use go_modulith_template.Errors.Grpc.{
  GrpcCode, Status, map_error_type_to_grpc_code, status_of, to_grpc_with_context, to_grpc,
  bracketed,
}

abbrev pub code_of : Option Status → Option GrpcCode
code_of none = none
code_of (some s) = some s.code

status_code :
    (t : Option (String → String)) (d : Option DomainError)
    → (status_of t d).code ≡ map_error_type_to_grpc_code (type_or_internal d)
unfolding status_of
status_code t none = refl
status_code t (some e) = refl

-- `Wrap` does not change the gRPC code that an error becomes, whatever the locale.
pub to_grpc-wrap :
    (t : Option (String → String)) (err : Error) (message : String)
    → code_of (to_grpc_with_context t (wrap (some err) message))
      ≡ code_of (to_grpc_with_context t (some err))
unfolding wrap to_grpc_with_context
to_grpc-wrap t err message = ap some (sym (status_code t (errors_as err)))

code_to_grpc :
    (err : Error)
    → code_of (to_grpc (some err))
      ≡ some (map_error_type_to_grpc_code (type_or_internal (errors_as err)))
unfolding to_grpc
code_to_grpc err = ap some (status_code none (errors_as err))

abbrev shown_code : Option DomainError → ErrorCode
shown_code none = "INTERNAL_ERROR"
shown_code (some e) = get_code e

status_shape :
    (t : Option (String → String)) (d : Option DomainError)
    → (text : String) × (status_of t d ≡ record {
      code = map_error_type_to_grpc_code (type_or_internal d);
      message = bracketed (shown_code d) text;
    })
unfolding status_of
status_shape t none = (_, refl)
status_shape t (some e) = (_, refl)

-- A locale changes nothing but the text behind the bracket: the status keeps the gRPC code and the
-- bracketed error code that it has without one.
pub to_grpc_with_context-locale :
    (t : Option (String → String)) (err : Error)
    → (code : GrpcCode) × (shown : ErrorCode) × (text text' : String) × (to_grpc_with_context t
          (some err)
        ≡ some (record { code = code; message = bracketed shown text }))
      × (to_grpc (some err) ≡ some (record { code = code; message = bracketed shown text' }))
unfolding to_grpc_with_context to_grpc
to_grpc_with_context-locale t err =
    let (text, e) = status_shape t (errors_as err) in
    let (text', e') = status_shape none (errors_as err) in
    (_, _, text, text', ap some e, ap some e')

has_type-same_type :
    (type : ErrorType) (err : Error)
    → has_type type (some err) ≡ same_type (type_or_internal (errors_as err)) type
unfolding has_type
has_type-same_type type err = elim (Option-cases (errors_as err)) [
  | inl e ↦ rw (e, has_type) (no_internal type)
  | inr (d, e) ↦ rw (e, has_type)
]
  where
    no_internal : (type : ErrorType) → false ≡ same_type internal type
    no_internal unknown = refl
    no_internal _ = refl

same_type_iff :
    (found type : ErrorType)
    → (type ≡ not_found) ⊎ (type ≡ already_exists) ⊎ (type ≡ validation)
    → (same_type found type ≡ true)
      ↔ (some (map_error_type_to_grpc_code found) ≡ some (map_error_type_to_grpc_code type))
unfolding map_error_type_to_grpc_code
same_type_iff found type h = (λ p. ground arith, λ p. ground arith)

-- `IsNotFound`, `IsAlreadyExists` and `IsValidation` hold exactly of the errors that become the gRPC
-- codes NotFound, AlreadyExists and InvalidArgument.
pub has_type_iff :
    (type : ErrorType) (err : Error)
    → (type ≡ not_found) ⊎ (type ≡ already_exists) ⊎ (type ≡ validation)
    → (has_type type (some err) ≡ true)
      ↔ (code_of (to_grpc (some err)) ≡ some (map_error_type_to_grpc_code type))
has_type_iff type err h =
    rw (has_type-same_type, code_to_grpc) (same_type_iff (type_or_internal (errors_as err)) type h)
