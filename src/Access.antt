-- ===== src/Access.antt =====
-- Who may call what: the context and the interceptor of internal/authn, the checks of internal/authz.
-- The verifier and the reading of the token from the metadata are parameters; an empty value in the
-- context counts as none.
pub mod Checks
pub mod Tests
use go_modulith_template.Prelude.{
  String, Bool, true, false, ◌||◌, Option, none, some, List, [], ◌∷◌, any, lookup, insert, ◌==◌,
  eq_string, if◌then◌else◌,
}

pub record Claims : Type 0 where
  pub user_id : String
  pub role : String

pub record Context : Type 0 where
  pub user_id : Option String
  pub role : Option String

unfoldable pub context_with_claims : Context → Claims → Context
context_with_claims ctx c = record { user_id = some c.user_id; role = some c.role }

unfoldable pub system_context : Context → Context
unfolding context_with_claims
system_context ctx = context_with_claims ctx (record { user_id = "system"; role = "platform" })

abbrev pub not_empty : Option String → Option String
not_empty none = none
not_empty (some s) = if s == "" then none else some s

unfoldable pub user_id_from_context : Context → Option String
user_id_from_context ctx = not_empty ctx.user_id

unfoldable pub role_from_context : Context → Option String
role_from_context ctx = not_empty ctx.role

-- The errors of the interceptor, and its call of the handler.
pub data Passed : Type 0 where
  not_configured no_token bad_token : Passed
  handled : Context → Passed

-- `verifier` is `none` where none is configured; `token` is what the metadata holds.
unfoldable pub intercept :
    List String → Option (String → Option Claims) → Option String → Context → String → Passed
unfolding context_with_claims
intercept public verifier token ctx method =
    if any (λ m. m == method) public then handled ctx else elim verifier [
      | none ↦ not_configured
      | some verify ↦ elim token [
        | none ↦ no_token
        | some raw ↦ elim (verify raw) [
          | none ↦ bad_token
          | some claims ↦ handled (context_with_claims ctx claims)
        ]
      ]
    ]

-- `nil`, `Unauthorized` and `Forbidden`.
pub data Verdict : Type 0 where
  allowed unauthorized forbidden : Verdict

abbrev pub Permissions : Type 0
Permissions = List (String × List String)

abbrev pub role_permissions : Permissions
role_permissions = ("admin", "admin:*" ∷ []) ∷ ("user", "users:read" ∷ []) ∷ []

unfoldable pub register_role : String → List String → Permissions → Permissions
register_role role permissions roles = insert role permissions roles

unfoldable pub has_permission : Permissions → String → String → Bool
has_permission roles role permission = elim (lookup role roles) [
  | none ↦ false
  | some permissions ↦ any (λ p. p == "admin:*" || p == permission) permissions
]

unfoldable pub require_permission : Permissions → Context → String → Verdict
require_permission roles ctx permission = elim (role_from_context ctx) [
  | none ↦ unauthorized
  | some role ↦ if has_permission roles role permission then allowed else forbidden
]

unfoldable pub require_role : Context → List String → Verdict
require_role ctx roles = elim (role_from_context ctx) [
  | none ↦ unauthorized
  | some role ↦ if any (λ r. r == role) roles then allowed else forbidden
]

-- A role that is missing is an empty text.
abbrev pub or_empty : Option String → String
or_empty none = ""
or_empty (some s) = s

unfoldable pub require_ownership : Context → String → Verdict
require_ownership ctx owner = elim (user_id_from_context ctx) [
  | none ↦ unauthorized
  | some user ↦
      if or_empty (role_from_context ctx) == "admin"
      then allowed
      else if user == owner
      then allowed
      else forbidden
]

unfoldable pub require_ownership_or_role : Context → String → List String → Verdict
require_ownership_or_role ctx owner roles = elim (user_id_from_context ctx) [
  | none ↦ unauthorized
  | some user ↦ if user == owner then allowed else elim (role_from_context ctx) [
    | none ↦ forbidden
    | some role ↦ if any (λ r. r == role) roles then allowed else forbidden
  ]
]
