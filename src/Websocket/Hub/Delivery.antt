-- ===== src/Websocket/Hub/Delivery.antt =====
-- The specification of the hub, and the delivery of messages.
use go_modulith_template.Prelude.{
  ◌≡◌, ◌∙◌, refl, sym, ap, subst, inl, inr, String, Bool, true, false, not, ◌&&◌, Option, none,
  some, List, lookup, ◌==◌, eq_string, if◌then◌else◌, Option-cases, arith,
}
use go_modulith_template.Websocket.Hub.{
  Message, Client, Channel, Hub, new_client, register_client, unregister_client, deliver, offer,
  each, client_ids, with_channels, broadcast_message, present, send_to_user, shutdown,
}
use go_modulith_template.Websocket.Hub.Marks.{is_some, marked_in}
use go_modulith_template.Websocket.Hub.Offers.{
  is_in, AllOpen, changed, changed-false, IsChanged, offers_change,
}
use go_modulith_template.Websocket.Hub.Ids.{
  is_in-client_ids, client_ids-IsDistinct, is_in-present, present-IsDistinct,
}
use go_modulith_template.Websocket.Hub.Invariant.{is_of, Inv, IsMade, offered-Inv}

-- What a hub promises: which connections there are, and of which user.
abbrev pub Users : Type 0
Users = String → Option String

pub data Op : Type 0 where
  op_connect op_disconnect : Client → Op
  op_broadcast : Message → Op
  op_send : String → Message → Op
  op_shutdown : Op

abbrev pub after_op : Op → Users → Users
after_op (op_connect c) s = λ id. if c.id == id then some c.user_id else s id
after_op (op_disconnect c) s = λ id. if c.id == id then none else s id
after_op (op_broadcast m) s = s
after_op (op_send user m) s = s
after_op op_shutdown s = λ id. none

unfoldable pub apply : Op → Hub → Option Hub
apply (op_connect c) h = some (register_client c (new_client c h))
apply (op_disconnect c) h = unregister_client c h
apply (op_broadcast m) h = broadcast_message m h
apply (op_send user m) h = send_to_user user m h
apply op_shutdown h = shutdown h

-- A client is new when it connects, and was made before it disconnects, once or more often.
abbrev pub Allowed : Op → Hub → Type 0
Allowed (op_connect c) h = lookup c.id h.channels ≡ none
Allowed (op_disconnect c) h = IsMade h c
Allowed (op_broadcast m) h = Unit
Allowed (op_send user m) h = Unit
Allowed op_shutdown h = Unit

abbrev pub user_of : Option Client → Option String
user_of none = none
user_of (some c) = some c.user_id

abbrev pub live : Hub → Users
live h id = user_of (lookup id h.clients)

-- The connection is one of the user.
abbrev pub is_user : String → Option String → Bool
is_user user none = false
is_user user (some u) = not (u == "") && u == user

pub is_some_user : (o : Option Client) → is_some o ≡ is_some (user_of o)
is_some_user none = refl
is_some_user (some c) = refl

pub is_of_user : (user : String) (o : Option Client) → is_of user o ≡ is_user user (user_of o)
is_of_user user none = refl
is_of_user user (some c) = refl

pub all_open :
    (h : Hub) (ids : List String)
    → Inv h
    → ((id : String) → is_in id ids ≡ true → is_some (lookup id h.clients) ≡ true)
    → AllOpen h.channels ids
all_open h ids inv within id there = elim (Option-cases (lookup id h.clients)) [
  | inl e ↦ absurd (ground (arith, within id there, ap is_some e))
  | inr (c, e) ↦ let (ch, at, is_open, _) = inv.opened id c e in (ch, at, is_open)
]

-- What an offer to some ids of clients leaves.
abbrev pub IsOffered : Message → (String → Bool) → Hub → Option Hub → Type 0
IsOffered m chosen h x =
    (h' : Hub) × (x ≡ some h')
    × Inv h'
    × ((id : String) → live h' id ≡ live h id)
    × ((id : String)
        → lookup id h'.channels ≡ changed (deliver m) (chosen id) (lookup id h.channels))

pub each-IsOffered :
    (m : Message) (ids : List String) (chosen : String → Bool) (h : Hub)
    → Inv h
    → ((after : List (String × Channel)) × (each (offer m) ids h.channels ≡ some after)
        × IsChanged (deliver m) ids h.channels after)
    → ((id : String) → is_in id ids ≡ chosen id)
    → IsOffered m chosen h (with_channels h (each (offer m) ids h.channels))
each-IsOffered m ids chosen h inv (after, ran, changes) same = (
  record h { channels = after },
  rw (ran, with_channels) refl,
  offered-Inv m ids h after changes inv,
  (λ id. refl),
  (λ id. changes id ∙ ap (λ b. changed (deliver m) b (lookup id h.channels)) (same id)),
)

pub broadcast_offers :
    (m : Message) (h : Hub)
    → Inv h
    → IsOffered m (λ id. is_some (live h id)) h (broadcast_message m h)
unfolding broadcast_message
broadcast_offers m h inv =
    let ids = client_ids h.clients in
    let names : (id : String) → is_in id ids ≡ is_some (lookup id h.clients) =
      λ id. is_in-client_ids id h.clients inv.named in
    each-IsOffered m ids (λ id. is_some (live h id)) h inv
      (offers_change m ids h.channels (client_ids-IsDistinct h.clients inv.named inv.keyed)
        (all_open h ids inv (λ id there. sym (names id) ∙ there)))
      (λ id. names id ∙ is_some_user (lookup id h.clients))

pub send_offers :
    (user : String) (m : Message) (h : Hub)
    → Inv h
    → IsOffered m (λ id. is_user user (live h id)) h (send_to_user user m h)
unfolding send_to_user
send_offers user m h inv = elim (Option-cases (lookup user h.user_clients)) [
  | inl e ↦ (
    h,
    rw (e, send_to_user) refl,
    inv,
    (λ id. refl),
    (λ id.
        let nobody : is_user user (live h id) ≡ false =
          sym (is_of_user user (lookup id h.clients))
          ∙ sym (inv.marks user id)
          ∙ ap (marked_in id) e in
        sym (
          ap (λ b. changed (deliver m) b (lookup id h.channels)) nobody
          ∙ changed-false (deliver m) (lookup id h.channels))),
  )
  | inr (ids, e) ↦
      let chosen = present h.clients ids in
      let names : (id : String) → is_in id chosen ≡ is_of user (lookup id h.clients) = λ id.
        is_in-present id h.clients ids inv.named
        ∙ ap (λ b. is_some (lookup id h.clients) && b)
            (sym (ap (marked_in id) e) ∙ inv.marks user id)
        ∙ of_some user (lookup id h.clients) in
      subst (IsOffered m (λ id. is_user user (live h id)) h) (rw (e, send_to_user) refl) (
        each-IsOffered m chosen (λ id. is_user user (live h id)) h inv
          (offers_change m chosen h.channels
            (present-IsDistinct h.clients ids inv.named (inv.sets user ids e))
            (all_open h chosen inv
              (λ id there. some_of user (lookup id h.clients) (sym (names id) ∙ there))))
          (λ id. names id ∙ is_of_user user (lookup id h.clients)))
]
  where
    of_some : (user : String) (o : Option Client) → (is_some o && is_of user o) ≡ is_of user o
    of_some user none = refl
    of_some user (some c) = refl

    some_of : (user : String) (o : Option Client) → is_of user o ≡ true → is_some o ≡ true
    some_of user none k = k
    some_of user (some c) k = refl
