-- ===== src/Events/Tests.antt =====
-- The end of a subscription on a bus where an older handler shares the code.
use go_modulith_template.Prelude.{◌≡◌, true, [], ◌∷◌, string_ne, refl}
use go_modulith_template.Events.Bus.{Handler, Bus, handlers_of, subscribe, unsubscribe}
use go_modulith_template.Events.Bus.Removal.{IsLeft, unsubscribe-subscribe}

abbrev older : Handler
older = record { code = 7; closure = 1 }

abbrev newer : Handler
newer = record { code = 7; closure = 2 }

abbrev bus : Bus
bus = record { handlers = ("made", older ∷ []) ∷ []; reports = true }

unsubscribe-subscribe_example :
    let after = unsubscribe "made" newer (subscribe "made" newer bus) in
    IsLeft newer (handlers_of "made" bus) (handlers_of "made" after)
    × (handlers_of "gone" after ≡ handlers_of "gone" bus)
unsubscribe-subscribe_example =
    unsubscribe-subscribe "made" "gone" newer bus (string_ne "made" "gone" refl)
