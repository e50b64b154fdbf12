-- ===== src/Websocket/Hub/Promise.antt =====
-- What a hub keeps to, from its start on.
use go_modulith_template.Prelude.{
  ◌≡◌, ◌∙◌, refl, sym, ap, String, none, some, lookup, ◌==◌, eq_string, if◌then◌else◌,
}
use go_modulith_template.Websocket.Hub.{
  Message, Hub, new_hub, deliver, broadcast_message, send_to_user,
}
use go_modulith_template.Websocket.Hub.Marks.{is_some}
use go_modulith_template.Websocket.Hub.Offers.{changed}
use go_modulith_template.Websocket.Hub.Invariant.{Inv, new_hub-Inv}
use go_modulith_template.Websocket.Hub.Delivery.{
  Users, Op, op_connect, op_disconnect, op_broadcast, op_send, op_shutdown, after_op, apply,
  Allowed, live, is_user, broadcast_offers, send_offers,
}
use go_modulith_template.Websocket.Hub.Refinement.{apply-IsDone}

-- The hubs that operations reach, each with the connections that the specification says.
pub data Reach : Hub → Users → Type 0 where
  started : Reach new_hub (λ _. none)
  stepped :
      (op : Op) {h h' : Hub} {s : Users}
      → Reach h s
      → Allowed op h
      → apply op h ≡ some h'
      → Reach h' (after_op op s)

after_op_same :
    (op : Op) (r s : Users) (id : String) → r id ≡ s id → after_op op r id ≡ after_op op s id
after_op_same (op_connect c) r s id e = ap (λ u. if c.id == id then some c.user_id else u) e
after_op_same (op_disconnect c) r s id e = ap (λ u. if c.id == id then none else u) e
after_op_same (op_broadcast m) r s id e = e
after_op_same (op_send user m) r s id e = e
after_op_same op_shutdown r s id e = refl

reach_live : {h : Hub} {s : Users} → Reach h s → Inv h × ((id : String) → live h id ≡ s id)
unfolding new_hub
reach_live started = (new_hub-Inv, (λ id. refl))
reach_live (stepped op {h} {h'} {s} r k ran) =
    let (inv, same) = reach_live r in
    let (g, done, inv', after) = apply-IsDone op h inv k in
    let is : g ≡ h' = cc (sym done ∙ ran) in
    rw (sym is) (inv', (λ id. after id ∙ after_op_same op (live h) s id (same id)))

-- From an empty hub on, an operation on clients that are new when they connect, and that were made
-- before they disconnect, never closes a closed channel nor sends on one, and it leaves exactly the
-- connections, each with its user, that the specification says.
pub apply-after_op :
    (op : Op) {h : Hub} {s : Users}
    → Reach h s
    → Allowed op h
    → (h' : Hub) × (apply op h ≡ some h') × ((id : String) → live h' id ≡ after_op op s id)
apply-after_op op {h} {s} r k =
    let (inv, same) = reach_live r in
    let (h', ran, _, after) = apply-IsDone op h inv k in
    (h', ran, (λ id. after id ∙ after_op_same op (live h) s id (same id)))

-- A message to a user reaches the channel of every connection that the specification gives to that
-- user, unless its buffer is full, and no other channel, in every hub that operations reach.
pub send_to_user_delivers :
    (user : String) (m : Message) {h : Hub} {s : Users}
    → Reach h s
    → (h' : Hub) × (send_to_user user m h ≡ some h')
      × ((id : String)
          → lookup id h'.channels
            ≡ changed (deliver m) (is_user user (s id)) (lookup id h.channels))
send_to_user_delivers user m {h} {s} r =
    let (inv, same) = reach_live r in
    let (h', ran, _, _, reaches) = send_offers user m h inv in
    (
      h',
      ran,
      (λ id.
          reaches id
          ∙ ap (λ u. changed (deliver m) (is_user user u) (lookup id h.channels)) (same id)),
    )

-- A broadcast reaches the channel of every connection of the specification, unless its buffer is
-- full, and no other channel, in every hub that operations reach.
pub broadcast_message_delivers :
    (m : Message) {h : Hub} {s : Users}
    → Reach h s
    → (h' : Hub) × (broadcast_message m h ≡ some h')
      × ((id : String)
          → lookup id h'.channels ≡ changed (deliver m) (is_some (s id)) (lookup id h.channels))
broadcast_message_delivers m {h} {s} r =
    let (inv, same) = reach_live r in
    let (h', ran, _, _, reaches) = broadcast_offers m h inv in
    (
      h',
      ran,
      (λ id.
          reaches id ∙ ap (λ u. changed (deliver m) (is_some u) (lookup id h.channels)) (same id)),
    )
