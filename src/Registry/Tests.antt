-- ===== src/Registry/Tests.antt =====
-- The properties of the registry at three modules.
use go_modulith_template.Prelude.{
  ◌≡◌, ◌⊎◌, refl, String, Option, none, some, List, [], ◌∷◌, eq_string,
}
use go_modulith_template.Registry.{Module, on_start_of, for_each, on_stop_all}
use go_modulith_template.Registry.Lifecycle.{
  Ran, StoppedAt, stop_later_first, for_each-outcome, on_stop_all-stop_later_first,
}

-- The hooks write down whom they were called for.
abbrev logging : String → Option String → Module (List String) String
logging name stop_err = record {
  name = name;
  initialize = λ log. (name ∷ log, none);
  register_grpc = λ log. log;
  register_gateway = λ log. (log, none);
  lifecycle =
      some
        (record { on_start = λ log. (name ∷ log, none); on_stop = λ log. (name ∷ log, stop_err) });
  health = none;
  public_endpoints = none;
}

abbrev mods : List (Module (List String) String)
mods = logging "auth" (some "busy") ∷ logging "orders" (some "late") ∷ logging "mail" none ∷ []

for_each-outcome_example :
    let x = for_each on_start_of mods [] in
    (x.1 ≡ none) × Ran on_start_of [] mods x.0 ⊎ StoppedAt on_start_of [] mods x
for_each-outcome_example = for_each-outcome on_start_of mods []

on_stop_all-stop_later_first_example : on_stop_all mods [] ≡ stop_later_first mods []
on_stop_all-stop_later_first_example = on_stop_all-stop_later_first mods []

-- All three stop, the last registered first, and the error is that of "orders".
stops_in_reverse :
    stop_later_first mods []
    ≡ ("auth" ∷ "orders" ∷ "mail" ∷ [], some (record { of_module = "orders"; cause = "late" }))
stops_in_reverse = refl
