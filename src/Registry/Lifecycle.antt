-- ===== src/Registry/Lifecycle.antt =====
-- The order in which the hooks of the modules are called, and what becomes of their errors.
use go_modulith_template.Prelude.{
  ◌≡◌, refl, sym, ap, ◌⊎◌, inl, inr, String, Option, none, some, List, [], ◌∷◌, ◌++◌, reverse,
  reverse-cons, append-nil, Option-cases, Bool-cases, ◌==◌, eq_string, if◌then◌else◌,
}
use go_modulith_template.Registry.{
  Hook, Module, ModuleFailed, for_each, on_stop_of, stop_each, first, on_stop_all, register,
  get_module,
}

abbrev pub or_else {ℓ} : {A : Type ℓ} → Option A → Option A → Option A
or_else none o = o
or_else (some x) o = some x

first-append {ℓ} : {A : Type ℓ} (xs ys : List A) → first (xs ++ ys) ≡ or_else (first xs) (first ys)
first-append [] ys = refl
first-append (x ∷ xs) ys = refl

abbrev as_list {ℓ} : {A : Type ℓ} → Option A → List A
as_list none = []
as_list (some x) = x ∷ []

first-as_list {ℓ} : {A : Type ℓ} (o : Option A) → first (as_list o) ≡ o
first-as_list none = refl
first-as_list (some x) = refl

module _ {ℓ κ} {S : Type ℓ} {E : Type κ} where
  -- The hooks of all the modules have run, in order and without an error.
  pub data Ran (hook_of : Module S E → Option (Hook S E))
      : S → List (Module S E) → S → Type (ℓ ⊔ κ) where
    done : (s : S) → Ran hook_of s [] s
    skip :
        {s t : S} {ms : List (Module S E)} (m : Module S E)
        → hook_of m ≡ none
        → Ran hook_of s ms t
        → Ran hook_of s (m ∷ ms) t
    call :
        {s t : S} {ms : List (Module S E)} (m : Module S E) (hook : Hook S E)
        → hook_of m ≡ some hook
        → (hook s).1 ≡ none
        → Ran hook_of (hook s).0 ms t
        → Ran hook_of s (m ∷ ms) t

  -- The hooks of the modules before some module have run, and its hook has failed.
  pub record StoppedAt (hook_of : Module S E → Option (Hook S E)) (s : S)
      (modules : List (Module S E)) (x : S × Option (ModuleFailed E)) : Type (ℓ ⊔ κ) where
    pub before : List (Module S E)
    pub at : Module S E
    pub rest : List (Module S E)
    pub split : modules ≡ before ++ at ∷ rest
    pub state : S
    pub run : Ran hook_of s before state
    pub hook : Hook S E
    pub has_hook : hook_of at ≡ some hook
    pub cause : E
    pub fails : (hook state).1 ≡ some cause
    pub result : x ≡ ((hook state).0, some (record { of_module = at.name; cause = cause }))

  -- `InitializeAll`, `RegisterGatewayAll`, `OnStartAll` and `HealthCheckAll` are `for_each` of a hook.
  -- Either it succeeds, and the hook of every module that has it ran once, in the order of
  -- registration; or the hooks before some module ran, that module's hook failed, no later hook was
  -- called, and the error names that module and its cause.
  pub for_each-outcome :
      (hook_of : Module S E → Option (Hook S E)) (modules : List (Module S E)) (s : S)
      → let x = for_each hook_of modules s in
        (x.1 ≡ none) × Ran hook_of s modules x.0 ⊎ StoppedAt hook_of s modules x
  unfolding for_each
  for_each-outcome hook_of [] s = inl (refl, done s)
  for_each-outcome hook_of (m ∷ modules) s = elim (Option-cases (hook_of m)) [
    | inl e ↦
        rw (e, for_each)
          (elim (for_each-outcome hook_of modules s) [
            | inl h ↦ inl (h.0, skip m e h.1)
            | inr h ↦ inr (record {
              before = m ∷ h.before;
              at = h.at;
              rest = h.rest;
              split = ap (◌∷◌ m) h.split;
              state = h.state;
              run = skip m e h.run;
              hook = h.hook;
              has_hook = h.has_hook;
              cause = h.cause;
              fails = h.fails;
              result = h.result;
            })
          ])
    | inr (hook, e) ↦ elim (Option-cases (hook s).1) [
      | inr (cause, f) ↦
          rw (e, for_each, f)
            (inr (record {
              before = [];
              at = m;
              rest = modules;
              split = refl;
              state = s;
              run = done s;
              hook = hook;
              has_hook = e;
              cause = cause;
              fails = f;
              result = refl;
            }))
      | inl ok ↦
          rw (e, for_each, ok)
            (elim (for_each-outcome hook_of modules (hook s).0) [
              | inl h ↦ inl (h.0, call m hook e ok h.1)
              | inr h ↦ inr (record {
                before = m ∷ h.before;
                at = h.at;
                rest = h.rest;
                split = ap (◌∷◌ m) h.split;
                state = h.state;
                run = call m hook e ok h.run;
                hook = h.hook;
                has_hook = h.has_hook;
                cause = h.cause;
                fails = h.fails;
                result = h.result;
              })
            ])
    ]
  ]

  -- One module's stop: a module without the hook does nothing.
  abbrev pub stop_one : Module S E → S → S × Option (ModuleFailed E)
  stop_one m s = elim (on_stop_of m) [
    | none ↦ (s, none)
    | some stop ↦ (
      (stop s).0,
      elim (stop s).1 [
        | none ↦ none
        | some cause ↦ some (record { of_module = m.name; cause = cause })
      ],
    )
  ]

  -- The later modules stop first.
  abbrev pub stop_later_first : List (Module S E) → S → S × Option (ModuleFailed E)
  stop_later_first [] s = (s, none)
  stop_later_first (m ∷ modules) s =
      let later = stop_later_first modules s in
      ((stop_one m later.0).0, or_else later.1 (stop_one m later.0).1)

  stop_each_step :
      (m : Module S E) (modules : List (Module S E)) (errs : List (ModuleFailed E)) (s : S)
      → stop_each (m ∷ modules) errs s
        ≡ stop_each modules (errs ++ as_list (stop_one m s).1) (stop_one m s).0
  unfolding stop_each
  stop_each_step m modules errs s = elim (Option-cases (on_stop_of m)) [
    | inl e ↦ rw (e, stop_each, stop_one) (ap (λ l. stop_each modules l s) (sym (append-nil errs)))
    | inr (stop, e) ↦ elim (Option-cases (stop s).1) [
      | inl f ↦
          rw (e, stop_each, stop_one, f)
            (ap (λ l. stop_each modules l (stop s).0) (sym (append-nil errs)))
      | inr (cause, f) ↦ rw (e, stop_each, stop_one, f)
    ]
  ]

  stop_each_last :
      (modules : List (Module S E)) (m : Module S E) (errs : List (ModuleFailed E)) (s : S)
      → let x = stop_each modules errs s in
        stop_each (modules ++ m ∷ []) errs s
        ≡ ((stop_one m x.0).0, x.1 ++ as_list (stop_one m x.0).1)
  stop_each_last [] m errs s = unfold stop_each in stop_each_step m [] errs s
  stop_each_last (n ∷ modules) m errs s =
      rw (stop_each_step n modules errs s, stop_each_step n (modules ++ m ∷ []) errs s)
        (stop_each_last modules m (errs ++ as_list (stop_one n s).1) (stop_one n s).0)

  stop_reverse :
      (modules : List (Module S E)) (s : S)
      → let x = stop_each (reverse modules) [] s in (x.0, first x.1) ≡ stop_later_first modules s
  stop_reverse [] s = unfold stop_each in refl
  stop_reverse (m ∷ modules) s =
      rw
        (
          reverse-cons m modules,
          stop_each_last (reverse modules) m [] s,
          first-append,
          sym (stop_reverse modules s),
          first-as_list,
        )
        refl

  -- `OnStopAll` calls the stop hook of every module that has one, the last registered first, whether
  -- or not others fail, each on the state that the later modules left; its error is the first one that
  -- came up, which is that of the last registered of the modules that failed.
  pub on_stop_all-stop_later_first :
      (modules : List (Module S E)) (s : S) → on_stop_all modules s ≡ stop_later_first modules s
  unfolding on_stop_all
  on_stop_all-stop_later_first modules s = stop_reverse modules s

  -- After a module is registered, its name gives the module that had the name before, or else this
  -- one; every other name gives what it gave.
  pub get_module-register :
      (name : String) (modules : List (Module S E)) (m : Module S E)
      → get_module name (register modules m)
        ≡ or_else (get_module name modules) (if m.name == name then some m else none)
  unfolding get_module register
  get_module-register name [] m = refl
  get_module-register name (n ∷ modules) m = elim (Bool-cases (n.name == name)) [
    | inl e ↦ rw e
    | inr e ↦ rw e (get_module-register name modules m)
  ]
