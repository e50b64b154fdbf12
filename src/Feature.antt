-- ===== src/Feature.antt =====
-- internal/feature/flags.go: feature flags in memory, with rules and gradual rollouts. A Go string
-- that is walked, hashed or searched is a list of bytes; a name that is only compared is a text. A
-- result in `Option` is `none` where the code panics. A negative percentage acts as 0 does.
pub mod Search
pub mod Rollout
pub mod Tests
use go_modulith_template.Prelude.{
  ℕ, zero, suc, ◌+◌, ◌-◌, ◌*◌, ◌%◌, ◌^◌, String, Bool, true, false, not, ◌&&◌, Option, none, some,
  List, [], ◌∷◌, Bytes, ltb, leb, ◌==◌, nat_eq, any, eq_bytes, eq_string, if◌then◌else◌, length,
  take, lookup, insert, map,
}

-- A value of type `any`. Comparing two values of one uncomparable type, such as `[]string`, panics.
pub data Value : Type 0 where
  nil : Value
  str : Bytes → Value
  strs : List Bytes → Value
  other : ℕ → Value  -- of any other type, which is comparable

abbrev pub any_equal : Value → Value → Option Bool
any_equal nil nil = some true
any_equal (str s) (str t) = some (s == t)
any_equal (strs s) (strs t) = none
any_equal (other n) (other m) = some (nat_eq n m)
any_equal _ _ = some false

pub record Rule : Type 0 where
  pub attribute : String
  pub operator : String
  pub value : Value

pub record Flag : Type 0 where
  pub name : String
  pub description : String
  pub default_value : Bool
  pub enabled : Bool
  pub percentage : ℕ
  pub rules : List Rule

-- `attributes` is empty where the source has a nil map: both read as nil for any key.
pub record Context : Type 0 where
  pub user_id : Bytes
  pub email : Bytes
  pub attributes : List (String × Value)

abbrev pub or_nil : Option Value → Value
or_nil none = nil
or_nil (some v) = v

unfoldable pub get_attribute_value : String → Context → Value
get_attribute_value attr ctx =
    if attr == "user_id"
    then str ctx.user_id
    else if attr == "email"
    then str ctx.email
    else or_nil (lookup attr ctx.attributes)

-- The rounds of the loop of `contains`: `s` is what is left of the text at index `i`.
unfoldable pub contains_from : ℕ → Bytes → Bytes → Bool
contains_from zero s substr = false
contains_from (suc rounds) [] substr = take (length substr) [] == substr
contains_from (suc rounds) (c ∷ s) substr =
    let rest = contains_from rounds s substr in
    if take (length substr) (c ∷ s) == substr then true else rest

-- The loop runs while `i <= len(s)-len(substr)`, a difference of ints that may be negative.
unfoldable pub contains : Bytes → Bytes → Bool
unfolding contains_from
contains s substr =
    if leb (length substr) (length s)
    then contains_from (length s - length substr + 1) s substr
    else false

unfoldable pub evaluate_contains : Value → Value → Bool
unfolding contains
evaluate_contains (str s) (str v) = contains s v
evaluate_contains _ _ = false

unfoldable pub evaluate_in : Value → Value → Bool
evaluate_in (str s) (strs list) = any (λ x. s == x) list
evaluate_in _ _ = false

abbrev pub negated : Option Bool → Option Bool
negated none = none
negated (some b) = some (not b)

unfoldable pub evaluate_operator : String → Value → Value → Option Bool
unfolding evaluate_contains evaluate_in
evaluate_operator operator value rule_value =
    if operator == "equals"
    then any_equal value rule_value
    else if operator == "not_equals"
    then negated (any_equal value rule_value)
    else if operator == "contains"
    then some (evaluate_contains value rule_value)
    else if operator == "in"
    then some (evaluate_in value rule_value)
    else some false

unfoldable pub evaluate_rule : Rule → Context → Option Bool
unfolding evaluate_operator get_attribute_value
evaluate_rule rule ctx =
    evaluate_operator rule.operator (get_attribute_value rule.attribute ctx) rule.value

-- The loop over the rules: it stops at the first one that fails.
unfoldable pub evaluate_rules : List Rule → Context → Option Bool
evaluate_rules [] ctx = some true
evaluate_rules (rule ∷ rules) ctx =
    let rest = evaluate_rules rules ctx in
    elim (evaluate_rule rule ctx) [ none ↦ none | some ok ↦ if ok then rest else some false ]

-- uint32 arithmetic.
unfoldable pub hash_from : ℕ → Bytes → ℕ
hash_from hash [] = hash
hash_from hash (b ∷ s) = hash_from ((hash * 31 + b) % 2 ^ 32) s

unfoldable pub hash_to_bucket : Bytes → ℕ
unfolding hash_from
hash_to_bucket s = if s == [] then 0 else hash_from 0 s % 100

-- The test of the percentage: whether the flag is held back from the user.
abbrev pub held_back : ℕ → ℕ → Bool
held_back percentage bucket =
    if ltb 0 percentage && ltb percentage 100 then ltb percentage bucket else false

abbrev pub Flags : Type 0
Flags = List (String × Flag)

abbrev pub enabled_of : Option Flag → Bool
enabled_of none = false
enabled_of (some flag) = flag.enabled

unfoldable pub is_enabled : Flags → String → Bool
is_enabled flags name = enabled_of (lookup name flags)

unfoldable pub flag_enabled_for : Option Flag → Context → Option Bool
flag_enabled_for none ctx = some false
flag_enabled_for (some flag) ctx =
    if not flag.enabled
    then some false
    else if held_back flag.percentage (hash_to_bucket ctx.user_id)
    then some false
    else evaluate_rules flag.rules ctx

unfoldable pub is_enabled_for : Flags → String → Context → Option Bool
unfolding flag_enabled_for
is_enabled_for flags name ctx = flag_enabled_for (lookup name flags) ctx

unfoldable pub get_flag : Flags → String → Option Flag
get_flag flags name = lookup name flags

unfoldable pub set_flag : Flags → Flag → Flags
set_flag flags flag = insert flag.name flag flags

unfoldable pub list_flags : Flags → List Flag
list_flags flags = map (λ e. e.1) flags

unfoldable pub register_flag : Flags → String → String → Bool → Flags
unfolding set_flag
register_flag flags name description enabled = set_flag flags (record {
  name = name;
  description = description;
  default_value = enabled;
  enabled = enabled;
  percentage = 100;
  rules = [];
})
