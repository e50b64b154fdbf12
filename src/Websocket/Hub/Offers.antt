-- ===== src/Websocket/Hub/Offers.antt =====
-- What a message to several connections, or the end of several, does to their channels.
use go_modulith_template.Prelude.{
  ◌≡◌, ◌∙◌, refl, sym, subst, inl, inr, String, Bool, true, false, Option, none, some, List, [],
  ◌∷◌, any, lookup, insert, lookup-insert, ◌==◌, eq_string, if◌then◌else◌, Bool-cases, arith,
}
use text.Mathlib.TextEquality.{eq_iff}
use go_modulith_template.Websocket.Hub.{Message, Channel, close, deliver, offer, each}

abbrev pub is_in : String → List String → Bool
is_in id ids = any (λ i. i == id) ids

-- No id stands twice.
abbrev pub IsDistinct : List String → Type 0
IsDistinct [] = Unit
IsDistinct (id ∷ ids) = (is_in id ids ≡ false) × IsDistinct ids

-- The channel of the id is open.
abbrev pub IsOpen : List (String × Channel) → String → Type 0
IsOpen channels id = (ch : Channel) × (lookup id channels ≡ some ch) × (ch.closed ≡ false)

abbrev pub AllOpen : List (String × Channel) → List String → Type 0
AllOpen channels ids = (id : String) → is_in id ids ≡ true → IsOpen channels id

abbrev pub changed : (Channel → Channel) → Bool → Option Channel → Option Channel
changed f b none = none
changed f b (some ch) = if b then some (f ch) else some ch

-- Every channel of `ids` is changed by `f`, and no other.
abbrev pub IsChanged :
    (Channel → Channel) → List String → List (String × Channel) → List (String × Channel) → Type 0
IsChanged f ids before after =
    (id : String) → lookup id after ≡ changed f (is_in id ids) (lookup id before)

-- The step changes an open channel by `f`.
abbrev IsStep :
    (Channel → Channel)
    → (String → List (String × Channel) → Option (List (String × Channel)))
    → Type 0
IsStep f step =
    (id : String) (channels : List (String × Channel)) (ch : Channel)
    → lookup id channels ≡ some ch
    → ch.closed ≡ false
    → step id channels ≡ some (insert id (f ch) channels)

pub changed-false : (f : Channel → Channel) (o : Option Channel) → changed f false o ≡ o
changed-false f none = refl
changed-false f (some ch) = refl

each_changes :
    (f : Channel → Channel)
    (step : String → List (String × Channel) → Option (List (String × Channel)))
    → IsStep f step
    → (ids : List String) (channels : List (String × Channel)) → IsDistinct ids
    → AllOpen channels ids
    → (after : List (String × Channel)) × (each step ids channels ≡ some after)
      × IsChanged f ids channels after
each_changes f step h [] channels distinct live =
    (channels, refl, λ id. sym (changed-false f (lookup id channels)))
each_changes f step h (i ∷ ids) channels distinct live =
    let (ch, found, is_open) = live i (ground (arith, (eq_iff i i).1 refl)) in
    let next = insert i (f ch) channels in
    let (after, ran, changes) = each_changes f step h ids next distinct.1 (λ id there.
      still_open i ch ids channels distinct.0 id there (live id (ground (arith, there)))) in
    (after, rw (h i channels ch found is_open, each) ran, λ id. changes id ∙ now ch found id)
  where
    still_open :
        (i : String) (ch : Channel) (ids : List String) (channels : List (String × Channel))
        → is_in i ids ≡ false
        → (id : String) → is_in id ids ≡ true
        → IsOpen channels id
        → IsOpen (insert i (f ch) channels) id
    still_open i ch ids channels fresh id there (c, at, is_open) = elim (Bool-cases (i == id)) [
      | inl e ↦
          let same = (eq_iff i id).0 e in
          let absent : is_in id ids ≡ false = subst (λ j. is_in j ids ≡ false) same fresh in
          absurd (ground (arith, there, absent))
      | inr e ↦ (c, rw (lookup-insert i id (f ch) channels, e) at, is_open)
    ]

    now :
        (ch : Channel)
        → lookup i channels ≡ some ch
        → (id : String)
        → changed f (is_in id ids) (lookup id (insert i (f ch) channels))
          ≡ changed f (is_in id (i ∷ ids)) (lookup id channels)
    now ch found id = rw (lookup-insert i id (f ch) channels) (elim (Bool-cases (i == id)) [
      | inl e ↦
          let same = (eq_iff i id).0 e in
          let absent : is_in id ids ≡ false = subst (λ j. is_in j ids ≡ false) same distinct.0 in
          let at : lookup id channels ≡ some ch =
            subst (λ j. lookup j channels ≡ some ch) same found in
          rw (e, absent, at) refl
      | inr e ↦ rw e refl
    ])

abbrev pub end_channel : Channel → Channel
end_channel ch = record ch { closed = true }

offer-IsStep : (m : Message) → IsStep (deliver m) (offer m)
unfolding offer
offer-IsStep m id channels ch found is_open = rw (found, offer, is_open) refl

pub close-IsStep : IsStep end_channel close
unfolding close
close-IsStep id channels ch found is_open = rw (found, close, is_open) refl

-- A message to distinct open channels reaches each of them, unless its buffer is full, and no other.
pub offers_change :
    (m : Message) (ids : List String) (channels : List (String × Channel))
    → IsDistinct ids
    → AllOpen channels ids
    → (after : List (String × Channel)) × (each (offer m) ids channels ≡ some after)
      × IsChanged (deliver m) ids channels after
offers_change m = each_changes (deliver m) (offer m) (offer-IsStep m)

pub closes_change :
    (ids : List String) (channels : List (String × Channel))
    → IsDistinct ids
    → AllOpen channels ids
    → (after : List (String × Channel)) × (each close ids channels ≡ some after)
      × IsChanged end_channel ids channels after
closes_change = each_changes end_channel close close-IsStep
