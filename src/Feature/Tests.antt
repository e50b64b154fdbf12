-- ===== src/Feature/Tests.antt =====
-- The properties of the flags at concrete flags.
use go_modulith_template.Prelude.{
  ℕ, ◌≡◌, ◌↔◌, refl, inl, true, false, some, [], ◌∷◌, eq_string, codes,
}
use go_modulith_template.Feature.{
  Flag, Context, is_enabled_for, flag_enabled_for, evaluate_rules, hash_to_bucket, hash_from,
  set_flag,
}
use go_modulith_template.Feature.Rollout.{Passed, is_enabled_for_iff, everyone_passes}

abbrev partial : ℕ → Flag
partial percentage = record {
  name = "beta";
  description = "";
  default_value = false;
  enabled = true;
  percentage = percentage;
  rules = [];
}

abbrev ada : Context
ada = record { user_id = codes "ada"; email = codes "ada@example.com"; attributes = [] }

-- The bucket of "ada" is 14.
ada_passes : is_enabled_for (set_flag [] (partial 14)) "beta" ada ≡ some true
unfolding is_enabled_for set_flag flag_enabled_for hash_to_bucket hash_from evaluate_rules
ada_passes = refl

is_enabled_for_iff_example :
    (is_enabled_for (("beta", partial 14) ∷ []) "beta" ada ≡ some true)
    ↔ Passed (("beta", partial 14) ∷ []) "beta" ada
is_enabled_for_iff_example = is_enabled_for_iff (("beta", partial 14) ∷ []) "beta" ada

everyone_passes_example : is_enabled_for (set_flag [] (partial 99)) "beta" ada ≡ some true
everyone_passes_example = everyone_passes [] (partial 99) ada refl refl (inl refl)
