-- ===== src/Feature/Rollout.antt =====
-- Who gets a flag: the gradual rollout, the rules and the flags by name.
use go_modulith_template.Prelude.{
  ℕ, ◌≤◌, ◌<◌, ◌≡◌, ◌≢◌, ◌↔◌, ◌⊎◌, ◌∙◌, refl, ap, true, false, none, some, List, [], ◌∷◌, Bytes,
  String, ◌==◌, eq_bytes, eq_string, lookup, lookup-insert, lookup-insert_self, All, arith,
  Option-cases, inl, inr, if◌then◌else◌,
}
use go_modulith_template.Feature.{
  Flag, Flags, Rule, Context, hash_to_bucket, held_back, evaluate_rule, evaluate_rules,
  flag_enabled_for, is_enabled_for, get_flag, set_flag,
}

hash_to_bucket-lt : (s : Bytes) → hash_to_bucket s < 100
unfolding hash_to_bucket
hash_to_bucket-lt s = ground arith

evaluate_rules_cons :
    (rule : Rule) (rules : List Rule) (ctx : Context)
    → (evaluate_rules (rule ∷ rules) ctx ≡ some true)
      ↔ ((evaluate_rule rule ctx ≡ some true) × (evaluate_rules rules ctx ≡ some true))
unfolding evaluate_rules
evaluate_rules_cons rule rules ctx = (λ h. ground arith, λ h. ground arith)

evaluate_rules_iff :
    (rules : List Rule) (ctx : Context)
    → (evaluate_rules rules ctx ≡ some true)
      ↔ All (λ rule. evaluate_rule rule ctx ≡ some true) rules
evaluate_rules_iff [] ctx = unfold evaluate_rules in (λ _. tt, λ _. refl)
evaluate_rules_iff (rule ∷ rules) ctx =
    let ih = evaluate_rules_iff rules ctx in
    let step = evaluate_rules_cons rule rules ctx in
    (λ h. let (p, q) = step.0 h in (p, ih.0 q), λ (p, q). step.1 (p, ih.1 q))

-- Whether the percentage of a flag lets a user through: it holds nobody back at 0 and from 100 on.
abbrev pub LetsThrough : ℕ → Bytes → Type 0
LetsThrough percentage user =
    (percentage ≡ 0) ⊎ (100 ≤ percentage) ⊎ (hash_to_bucket user ≤ percentage)

held_back_iff :
    (percentage : ℕ) (user : Bytes)
    → (held_back percentage (hash_to_bucket user) ≡ false) ↔ LetsThrough percentage user
held_back_iff percentage user = (λ h. grind arith, λ h. grind arith)

flag_enabled_for_iff :
    (flag : Flag) (ctx : Context)
    → (flag_enabled_for (some flag) ctx ≡ some true) ↔ (
        (flag.enabled ≡ true)
        × (held_back flag.percentage (hash_to_bucket ctx.user_id) ≡ false)
        × (evaluate_rules flag.rules ctx ≡ some true))
unfolding flag_enabled_for
flag_enabled_for_iff flag ctx = (λ h. ground arith, λ h. ground arith)

abbrev pub Passed : Flags → String → Context → Type 0
Passed flags name ctx =
    (flag : Flag) × (lookup name flags ≡ some flag)
    × (flag.enabled ≡ true)
    × LetsThrough flag.percentage ctx.user_id
    × All (λ rule. evaluate_rule rule ctx ≡ some true) flag.rules

unknown_disabled :
    (flags : Flags) (name : String) (ctx : Context)
    → lookup name flags ≡ none
    → is_enabled_for flags name ctx ≢ some true
unfolding is_enabled_for flag_enabled_for
unknown_disabled flags name ctx e h = ground arith

known_enabled_for :
    (flags : Flags) (name : String) (ctx : Context) (flag : Flag)
    → lookup name flags ≡ some flag
    → is_enabled_for flags name ctx ≡ flag_enabled_for (some flag) ctx
unfolding is_enabled_for
known_enabled_for flags name ctx flag e = ap (λ o. flag_enabled_for o ctx) e

-- A flag is enabled for a context exactly if it exists, is enabled, its percentage lets the user
-- through (it is 0, at least 100, or not below the bucket of the user) and every rule holds.
pub is_enabled_for_iff :
    (flags : Flags) (name : String) (ctx : Context)
    → (is_enabled_for flags name ctx ≡ some true) ↔ Passed flags name ctx
is_enabled_for_iff flags name ctx = (found, back)
  where
    found : is_enabled_for flags name ctx ≡ some true → Passed flags name ctx
    found h = elim (Option-cases (lookup name flags)) [
      | inl e ↦ absurd (unknown_disabled flags name ctx e h)
      | inr (flag, e) ↦
          let (on, free, rules) =
            (flag_enabled_for_iff flag ctx).0 (rw (known_enabled_for flags name ctx flag e) at h) in
          (
            flag,
            e,
            on,
            (held_back_iff flag.percentage ctx.user_id).0 free,
            (evaluate_rules_iff flag.rules ctx).0 rules,
          )
    ]

    back : Passed flags name ctx → is_enabled_for flags name ctx ≡ some true
    back (flag, e, on, free, rules) =
        known_enabled_for flags name ctx flag e
        ∙ (flag_enabled_for_iff flag ctx).1 (
          on,
          (held_back_iff flag.percentage ctx.user_id).1 free,
          (evaluate_rules_iff flag.rules ctx).1 rules,
        )

-- To raise a percentage (that is not 0) takes the flag away from nobody.
pub raise_percentage :
    (flags : Flags) (flag : Flag) (percentage : ℕ) (ctx : Context)
    → 0 < flag.percentage
    → flag.percentage ≤ percentage
    → is_enabled_for (set_flag flags flag) flag.name ctx ≡ some true
    → is_enabled_for (set_flag flags (record flag { percentage = percentage })) flag.name ctx
      ≡ some true
unfolding is_enabled_for set_flag
raise_percentage flags flag percentage ctx p le h = rw lookup-insert_self (
    let (on, free, rules) = (flag_enabled_for_iff flag ctx).0 (rw lookup-insert_self at h) in
    (flag_enabled_for_iff (record flag { percentage = percentage }) ctx).1
      (on, ground arith, rules))

-- A flag that was set reads back, and every other flag reads as before.
pub get_flag-set_flag :
    (flags : Flags) (flag : Flag) (name : String)
    → get_flag (set_flag flags flag) name
      ≡ (if flag.name == name then some flag else get_flag flags name)
unfolding get_flag set_flag
get_flag-set_flag flags flag name = lookup-insert flag.name name flag flags

-- Where the percentage of an enabled flag with no rules is 99, or 0, no user is held back: at 99 the
-- test `bucket > percentage` never holds of a bucket below 100, and at 0 it is not made.
pub everyone_passes :
    (flags : Flags) (flag : Flag) (ctx : Context)
    → flag.enabled ≡ true
    → flag.rules ≡ []
    → (flag.percentage ≡ 99) ⊎ (flag.percentage ≡ 0)
    → is_enabled_for (set_flag flags flag) flag.name ctx ≡ some true
unfolding is_enabled_for set_flag evaluate_rules
everyone_passes flags flag ctx on no_rules p = rw lookup-insert_self (
    (flag_enabled_for_iff flag ctx).1
      (on, ground (arith, hash_to_bucket-lt ctx.user_id), rw no_rules refl))
