-- ===== src/Errors/Tests.antt =====
-- The properties of the errors at concrete errors.
use go_modulith_template.Prelude.{◌≡◌, some, eq_string}
use go_modulith_template.Errors.{not_found, new_error, wrap}
use go_modulith_template.Errors.Grpc.{to_grpc_with_context}
use go_modulith_template.Errors.Grpc.Laws.{code_of, to_grpc-wrap}

to_grpc-wrap_example :
    code_of (
      to_grpc_with_context (some (λ key. key)) (wrap (some (new_error not_found "no user")) "load"))
    ≡ code_of (to_grpc_with_context (some (λ key. key)) (some (new_error not_found "no user")))
to_grpc-wrap_example = to_grpc-wrap (some (λ key. key)) (new_error not_found "no user") "load"
