-- ===== src/Events/Bus.antt =====
-- The bus of internal/events/bus.go. A handler is a closure: `code` is what `%p` prints of it, the
-- address of its code, which all closures of one function literal share, and `closure` tells them apart.
-- The goroutines of a publication are the list of handlers that it starts; logging is left out.
pub mod Removal
use go_modulith_template.Prelude.{
  ℕ, String, Bool, true, false, Option, none, some, List, [], ◌∷◌, ◌++◌, map, lookup, insert,
  nat_eq, ◌==◌, eq_string, if◌then◌else◌,
}

pub record Handler : Type 0 where
  pub code : ℕ
  pub closure : ℕ

pub record Event : Type 0 where
  pub name : String
  pub payload : String

-- `reports` is whether an error handler is set.
pub record Bus : Type 0 where
  pub handlers : List (String × List Handler)
  pub reports : Bool

unfoldable pub new_bus : Bus
new_bus = record { handlers = []; reports = true }

unfoldable pub set_error_handler : Bool → Bus → Bus
set_error_handler given b = record b { reports = given }

abbrev pub or_none : Option (List Handler) → List Handler
or_none none = []
or_none (some hs) = hs

unfoldable pub handlers_of : String → Bus → List Handler
handlers_of name b = or_none (lookup name b.handlers)

unfoldable pub subscribe : String → Handler → Bus → Bus
unfolding handlers_of
subscribe name h b = record b { handlers = insert name (handlers_of name b ++ h ∷ []) b.handlers }

-- The loop removes the first handler whose code is that of the handler.
abbrev pub remove_first : Handler → List Handler → Option (List Handler)
remove_first h [] = none
remove_first h (k ∷ hs) =
    let rest = remove_first h hs in
    if nat_eq k.code h.code
    then some hs
    else elim rest [ none ↦ none | some left ↦ some (k ∷ left) ]

-- The function that `Subscribe` returns.
unfoldable pub unsubscribe : String → Handler → Bus → Bus
unfolding handlers_of
unsubscribe name h b = elim (remove_first h (handlers_of name b)) [
  | none ↦ b
  | some left ↦ record b { handlers = insert name left b.handlers }
]

-- The handlers that run with the event, each in its goroutine.
unfoldable pub publish : Event → Bus → List (Handler × Event)
unfolding handlers_of
publish event b = map (λ h. (h, event)) (handlers_of event.name b)

-- The end of such a goroutine: the event goes to the error handler after an error.
unfoldable pub finished : Bool → Event → Bus → Option Event
finished failed event b = if failed then if b.reports then some event else none else none

unfoldable pub close : Bus → Bus
close b = record b { handlers = [] }
