-- ===== src/Access/Checks.antt =====
-- A handler that asks for ownership, behind the interceptor.
use go_modulith_template.Prelude.{
  ◌≡◌, ◌≢◌, ◌∙◌, ◌↔◌, ◌⊎◌, inl, inr, refl, sym, ap, subst, String, false, Option, none, some, List,
  any, ◌==◌, eq_string, Bool-cases, Option-cases, arith,
}
use text.Mathlib.TextEquality.{eq_iff}
use go_modulith_template.Access.{
  Claims, Context, context_with_claims, not_empty, user_id_from_context, role_from_context, Passed,
  handled, intercept, allowed, or_empty, require_ownership,
}

admin_role : (role : String) → or_empty (not_empty (some role)) ≡ role
admin_role role = elim (Bool-cases (role == "")) [
  | inl e ↦ rw e (sym ((eq_iff role "").0 e))
  | inr e ↦ rw e refl
]

-- The claims let the user act on what the owner has.
abbrev pub MayAct : Claims → String → Type 0
MayAct c owner = (c.user_id ≢ "") × ((c.role ≡ "admin") ⊎ (c.user_id ≡ owner))

owns_iff :
    (ctx : Context) (c : Claims) (owner : String)
    → (require_ownership (context_with_claims ctx c) owner ≡ allowed) ↔ MayAct c owner
unfolding require_ownership context_with_claims user_id_from_context role_from_context
owns_iff ctx c owner = elim (Bool-cases (c.user_id == "")) [
  | inl e ↦
      rw (e, require_ownership)
        ((λ h. absurd (ground (arith, h))), (λ h. absurd (h.0 ((eq_iff c.user_id "").0 e))))
  | inr e ↦
      let named : c.user_id ≢ "" = λ q. ground (arith, e, (eq_iff c.user_id "").1 q) in
      rw (e, require_ownership, admin_role c.role)
        (elim (Bool-cases (c.role == "admin")) [
          | inl f ↦ rw f ((λ _. (named, inl ((eq_iff c.role "admin").0 f))), (λ _. refl))
          | inr f ↦ elim (Bool-cases (c.user_id == owner)) [
            | inl g ↦ rw (f, g) ((λ _. (named, inr ((eq_iff c.user_id owner).0 g))), (λ _. refl))
            | inr g ↦
                rw (f, g)
                  (
                    (λ h. absurd (ground (arith, h))),
                    (λ h. elim h.1 [
                      | inl q ↦ absurd (ground (arith, f, (eq_iff c.role "admin").1 q))
                      | inr q ↦ absurd (ground (arith, g, (eq_iff c.user_id owner).1 q))
                    ]),
                  )
          ]
        ])
]

-- What the interceptor hands to the handler, and the handler's check of the owner.
abbrev pub Acts : Passed → String → Type 0
Acts x owner = (ctx : Context) × (x ≡ handled ctx) × (require_ownership ctx owner ≡ allowed)

-- The claims of a call: those that the configured verifier finds in its token.
abbrev pub claims_of : Option (String → Option Claims) → Option String → Option Claims
claims_of none token = none
claims_of (some verify) none = none
claims_of (some verify) (some raw) = verify raw

-- A call of a method that is not public acts on the owner's resource exactly when a verifier is
-- configured, there is a token, and the token verifies to claims whose user is not empty and is the
-- owner or has the role admin; the context of the caller before the interceptor plays no part.
pub intercept-require_ownership :
    (public : List String) (verifier : Option (String → Option Claims)) (token : Option String)
    (ctx : Context) (method owner : String)
    → any (λ m. m == method) public ≡ false
    → Acts (intercept public verifier token ctx method) owner
      ↔ ((c : Claims) × (claims_of verifier token ≡ some c) × MayAct c owner)
unfolding intercept
intercept-require_ownership public none token ctx method owner private =
    rw (private, intercept)
      ((λ (x, ran, _). absurd (ground (arith, ran))), (λ (c, k, _). absurd (ground (arith, k))))
intercept-require_ownership public (some verify) none ctx method owner private =
    rw (private, intercept)
      ((λ (x, ran, _). absurd (ground (arith, ran))), (λ (c, k, _). absurd (ground (arith, k))))
intercept-require_ownership public (some verify) (some raw) ctx method owner private =
    elim (Option-cases (verify raw)) [
      | inl e ↦
          rw (private, intercept, e)
            (
              (λ (x, ran, _). absurd (ground (arith, ran))),
              (λ (c, k, _). absurd (ground (arith, k))),
            )
      | inr (c, e) ↦
          rw (private, intercept, e)
            (
              (λ (x, ran, ok).
                  let same : context_with_claims ctx c ≡ x = cc ran in
                  (
                    c,
                    refl,
                    (owns_iff ctx c owner).0 (ap (λ x. require_ownership x owner) same ∙ ok),
                  )),
              (λ (d, k, may).
                  let same : c ≡ d = cc k in
                  (
                    context_with_claims ctx c,
                    refl,
                    (owns_iff ctx c owner).1 (subst (λ c. MayAct c owner) (sym same) may),
                  )),
            )
    ]
