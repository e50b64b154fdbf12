-- ===== src/Access/Tests.antt =====
-- A user who acts on what is their own.
use go_modulith_template.Prelude.{◌≡◌, ◌↔◌, refl, String, Option, some, [], ◌∷◌}
use go_modulith_template.Access.{Claims, Context, intercept}
use go_modulith_template.Access.Checks.{Acts, MayAct, claims_of, intercept-require_ownership}

abbrev ada : Claims
ada = record { user_id = "a"; role = "user" }

abbrev blank : Context
blank = record { user_id = some ""; role = some "admin" }

abbrev verify : String → Option Claims
verify _ = some ada

intercept-require_ownership_example :
    Acts (intercept ("/login" ∷ []) (some verify) (some "t") blank "/profile") "a"
    ↔ ((c : Claims) × (claims_of (some verify) (some "t") ≡ some c) × MayAct c "a")
intercept-require_ownership_example =
    intercept-require_ownership ("/login" ∷ []) (some verify) (some "t") blank "/profile" "a" refl
