-- ===== src/Errors/Codes.antt =====
-- The stable codes of the errors.
use go_modulith_template.Prelude.{
  String, ◌≡◌, ◌≢◌, ◌∙◌, sym, Option-cases, List, [], ◌∷◌, foldr, refl, true, false, none, some,
  ◌==◌, eq_string, Bool-cases, inl, inr,
}
use go_modulith_template.Errors.{
  ErrorType, ErrorCode, DomainError, Error, unknown, errors_as, map_error_type_to_code, get_code,
  with_code, get_error_code, wrapped,
}
use text.Mathlib.TextEquality.{eq_iff}

default_code-ne-empty : (type : ErrorType) → map_error_type_to_code type ≢ ""
unfolding map_error_type_to_code
default_code-ne-empty unknown h = cc
default_code-ne-empty _ h = cc

get_code-default :
    (e : DomainError) → (e.code == "") ≡ true → get_code e ≡ map_error_type_to_code e.type
unfolding get_code
get_code-default e q = rw (q, get_code)

get_code-own : (e : DomainError) → (e.code == "") ≡ false → get_code e ≡ e.code
unfolding get_code
get_code-own e q = rw (q, get_code)

code_of_none : (err : Error) → errors_as err ≡ none → get_error_code (some err) ≡ "UNKNOWN"
unfolding get_error_code
code_of_none err e = rw (e, get_error_code)

code_of_some :
    (err : Error) (d : DomainError)
    → errors_as err ≡ some d
    → get_error_code (some err) ≡ get_code d
unfolding get_error_code
code_of_some err d e = rw (e, get_error_code)

-- The code that `GetErrorCode` finds in an error is never empty.
pub get_error_code-ne-empty : (err : Error) → get_error_code (some err) ≢ ""
get_error_code-ne-empty err h = elim (Option-cases (errors_as err)) [
  | inl e ↦ cc (sym (code_of_none err e) ∙ h)
  | inr (d, e) ↦ get_code-ne-empty d (sym (code_of_some err d e) ∙ h)
]
  where
    get_code-ne-empty : (e : DomainError) → get_code e ≢ ""
    get_code-ne-empty e h = elim (Bool-cases (e.code == "")) [
      | inl q ↦ default_code-ne-empty e.type (sym (get_code-default e q) ∙ h)
      | inr q ↦
          let same : (e.code == "") ≡ true = (eq_iff e.code "").1 (sym (get_code-own e q) ∙ h) in cc
    ]

errors_as-wrapped :
    (err : Error) (texts : List String) → errors_as (foldr wrapped err texts) ≡ errors_as err
unfolding errors_as
errors_as-wrapped err [] = refl
errors_as-wrapped err (text ∷ texts) = errors_as-wrapped err texts

with_code_domain :
    (code : ErrorCode) (message : String)
    → (d : DomainError) × (errors_as (with_code code message) ≡ some d) × (d.code ≡ code)
unfolding with_code errors_as
with_code_domain code message = (_, refl, refl)

-- A specific code that is not empty survives `fmt.Errorf` with `%w`, however often.
pub get_error_code-wrapped :
    (code : ErrorCode) (message : String) (texts : List String)
    → code ≢ ""
    → get_error_code (some (foldr wrapped (with_code code message) texts)) ≡ code
get_error_code-wrapped code message texts h =
    let (d, found, own) = with_code_domain code message in
    let err = foldr wrapped (with_code code message) texts in
    let reached = code_of_some err d (errors_as-wrapped (with_code code message) texts ∙ found) in
    elim (Bool-cases (d.code == "")) [
      | inl q ↦ absurd (h (sym own ∙ (eq_iff d.code "").0 q))
      | inr q ↦ reached ∙ get_code-own d q ∙ own
    ]
