-- ===== src/Saga/Tests.antt =====
-- The properties of the saga at an order whose payment fails.
use go_modulith_template.Prelude.{
  arith, ap, ℕ, ◌+◌, ◌-◌, ◌≡◌, ◌≢◌, ◌⊎◌, refl, String, none, some, List, [], ◌∷◌, All,
}
use go_modulith_template.Saga.{Step, execute}
use go_modulith_template.Saga.Order.{Completed, Failed, execute-outcome}
use go_modulith_template.Saga.Atomic.{IsUndoable, execute_atomic}

abbrev reserve : Step ℕ String
reserve = record {
  name = "reserve";
  execute = λ n. (n + 1, none);
  compensate = some (λ n. (n - 1, none));
}

abbrev pay : Step ℕ String
pay = record {
  name = "pay";
  execute = λ n. (n, some "declined");
  compensate = some (λ n. (n, none));
}

abbrev order : List (Step ℕ String)
order = reserve ∷ pay ∷ []

one_back : (n : ℕ) → n + 1 - 1 ≡ n
one_back n = omega arith

order-IsUndoable : All IsUndoable order
order-IsUndoable = (
  record {
    undo = λ n. (n - 1, none);
    has_undo = refl;
    undoes = λ s _. ap (λ n. (n, none)) (one_back s);
    fails_cleanly = λ s e. cc;
  },
  (
    record {
      undo = λ n. (n, none);
      has_undo = refl;
      undoes = λ s e. refl;
      fails_cleanly = λ s e. refl;
    },
    tt,
  ),
)

order_fails : (execute order 7).err ≢ none
unfolding execute
order_fails e = cc

execute-outcome_example : Completed order 7 (execute order 7) ⊎ Failed order 7 (execute order 7)
execute-outcome_example = execute-outcome order 7

execute_atomic_example : (execute order 7).state ≡ 7
execute_atomic_example = execute_atomic order 7 order-IsUndoable order_fails
