-- ===== src/Registry.antt =====
-- internal/registry/registry.go, with the interfaces of internal/registry/module.go. A module is a
-- record of its hooks on a state that the modules share; an interface that a module may lack is an
-- option. The hooks that only hand a server on are of that form too.
pub mod Lifecycle
pub mod Tests
use go_modulith_template.Prelude.{
  String, Bool, true, false, Option, none, some, List, [], ◌∷◌, ◌++◌, reverse, map, ◌==◌, eq_string,
  if◌then◌else◌, any,
}

-- A call of a hook: the state after it, and its error.
abbrev pub Hook {ℓ κ} : Type ℓ → Type κ → Type (ℓ ⊔ κ)
Hook S E = S → S × Option E

pub record ModuleLifecycle {ℓ κ} (S : Type ℓ) (E : Type κ) : Type (ℓ ⊔ κ) where
  pub on_start : Hook S E
  pub on_stop : Hook S E

pub record Module {ℓ κ} (S : Type ℓ) (E : Type κ) : Type (ℓ ⊔ κ) where
  pub name : String
  pub initialize : Hook S E
  pub register_grpc : S → S
  pub register_gateway : Hook S E
  pub lifecycle : Option (ModuleLifecycle S E)
  pub health : Option (Hook S E)
  pub public_endpoints : Option (List String)

-- An error wrapped with the name of its module.
pub record ModuleFailed {ℓ} (E : Type ℓ) : Type ℓ where
  pub of_module : String
  pub cause : E

abbrev pub first {ℓ} : {A : Type ℓ} → List A → Option A
first [] = none
first (x ∷ _) = some x

-- The map from endpoints to the empty struct, as the list of its keys.
unfoldable pub insert_all : List String → List String → List String
insert_all [] endpoints = endpoints
insert_all (endpoint ∷ more) endpoints =
    if any (λ known. known == endpoint) endpoints
    then insert_all more endpoints
    else insert_all more (endpoints ++ endpoint ∷ [])

module _ {ℓ κ} {S : Type ℓ} {E : Type κ} where
  unfoldable pub register : List (Module S E) → Module S E → List (Module S E)
  register modules m = modules ++ m ∷ []

  -- The loop of the methods that stop at the first error, over the hook they call; a module that
  -- lacks it is skipped.
  unfoldable pub for_each :
      (Module S E → Option (Hook S E)) → List (Module S E) → S → S × Option (ModuleFailed E)
  for_each hook_of [] s = (s, none)
  for_each hook_of (m ∷ modules) s = elim (hook_of m) [
    | none ↦ for_each hook_of modules s
    | some hook ↦
        let rest = for_each hook_of modules (hook s).0 in
        elim (hook s).1 [
          | some cause ↦ ((hook s).0, some (record { of_module = m.name; cause = cause }))
          | none ↦ rest
        ]
  ]

  abbrev pub on_start_of : Module S E → Option (Hook S E)
  on_start_of m = elim m.lifecycle [ none ↦ none | some lc ↦ some lc.on_start ]

  abbrev pub on_stop_of : Module S E → Option (Hook S E)
  on_stop_of m = elim m.lifecycle [ none ↦ none | some lc ↦ some lc.on_stop ]

  unfoldable pub initialize_all : List (Module S E) → S → S × Option (ModuleFailed E)
  initialize_all modules = for_each (λ m. some m.initialize) modules

  unfoldable pub register_grpc_all : List (Module S E) → S → S
  register_grpc_all [] s = s
  register_grpc_all (m ∷ modules) s = register_grpc_all modules (m.register_grpc s)

  unfoldable pub register_gateway_all : List (Module S E) → S → S × Option (ModuleFailed E)
  register_gateway_all modules = for_each (λ m. some m.register_gateway) modules

  unfoldable pub on_start_all : List (Module S E) → S → S × Option (ModuleFailed E)
  on_start_all modules = for_each on_start_of modules

  unfoldable pub health_check_all : List (Module S E) → S → S × Option (ModuleFailed E)
  health_check_all modules = for_each (λ m. m.health) modules

  -- The loop of `OnStopAll`, over the modules from the last to the first, with `errs`.
  unfoldable pub stop_each :
      List (Module S E) → List (ModuleFailed E) → S → S × List (ModuleFailed E)
  stop_each [] errs s = (s, errs)
  stop_each (m ∷ modules) errs s = elim (on_stop_of m) [
    | none ↦ stop_each modules errs s
    | some stop ↦
        let went_on = stop_each modules errs (stop s).0 in
        elim (stop s).1 [
          | none ↦ went_on
          | some cause ↦
              stop_each modules (errs ++ record { of_module = m.name; cause = cause } ∷ [])
                (stop s).0
        ]
  ]

  unfoldable pub on_stop_all : List (Module S E) → S → S × Option (ModuleFailed E)
  unfolding stop_each
  on_stop_all modules s =
      let stopped = stop_each (reverse modules) [] s in (stopped.0, first stopped.1)

  unfoldable pub get_module : String → List (Module S E) → Option (Module S E)
  get_module name [] = none
  get_module name (m ∷ modules) =
      let rest = get_module name modules in if m.name == name then some m else rest

  unfoldable pub endpoints_from : List (Module S E) → List String → List String
  unfolding insert_all
  endpoints_from [] endpoints = endpoints
  endpoints_from (m ∷ modules) endpoints = elim m.public_endpoints [
    | none ↦ endpoints_from modules endpoints
    | some paths ↦ endpoints_from modules (insert_all paths endpoints)
  ]

  unfoldable pub get_public_endpoints : List (Module S E) → List String
  unfolding endpoints_from
  get_public_endpoints modules = endpoints_from modules []
