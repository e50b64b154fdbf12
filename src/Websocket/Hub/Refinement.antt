-- ===== src/Websocket/Hub/Refinement.antt =====
-- The hub as a table of connections and their users.
use go_modulith_template.Prelude.{
  ◌≡◌, ◌∙◌, refl, sym, ap, subst, inl, inr, String, none, some, List, [], lookup, delete_key,
  lookup-insert, lookup-delete_key, ◌==◌, eq_string, if◌then◌else◌, Bool-cases, Option-cases, arith,
}
use text.Mathlib.TextEquality.{eq_iff}
use go_modulith_template.Websocket.Hub.{
  Client, Channel, Hub, new_client, register_client, unregister_client, client_ids, shutdown,
}
use go_modulith_template.Websocket.Hub.Marks.{is_some}
use go_modulith_template.Websocket.Hub.Offers.{is_in, closes_change}
use go_modulith_template.Websocket.Hub.Ids.{is_in-client_ids, client_ids-IsDistinct}
use go_modulith_template.Websocket.Hub.Invariant.{Inv, connect-Inv, disconnect_some}
use go_modulith_template.Websocket.Hub.Delivery.{
  op_connect, op_disconnect, op_broadcast, op_send, op_shutdown, Op, after_op, apply, Allowed,
  user_of, live, all_open, broadcast_offers, send_offers,
}

shutdown-some :
    (h : Hub)
    → Inv h
    → (h' : Hub) × (shutdown h ≡ some h') × Inv h' × ((id : String) → live h' id ≡ none)
unfolding shutdown
shutdown-some h inv =
    let ids = client_ids h.clients in
    let names : (id : String) → is_in id ids ≡ is_some (lookup id h.clients) =
      λ id. is_in-client_ids id h.clients inv.named in
    let (after, ran, _) =
      closes_change ids h.channels (client_ids-IsDistinct h.clients inv.named inv.keyed)
        (all_open h ids inv (λ id there. sym (names id) ∙ there)) in
    (
      record { clients = []; user_clients = []; channels = after },
      rw (ran, shutdown) refl,
      empty after,
      (λ id. refl),
    )
  where
    empty :
        (channels : List (String × Channel))
        → Inv (record { clients = []; user_clients = []; channels = channels })
    empty channels = record {
      named = tt;
      keyed = tt;
      sets = λ user ids k. absurd (ground (arith, k));
      marks = λ user id. refl;
      opened = λ id c k. absurd (ground (arith, k));
    }

-- An operation that is allowed does not panic, and does to the connections what it promises.
abbrev pub IsDone : Op → Hub → Type 0
IsDone op h =
    (h' : Hub) × (apply op h ≡ some h')
    × Inv h'
    × ((id : String) → live h' id ≡ after_op op (live h) id)

connect-IsDone : (c : Client) (h : Hub) → Inv h → Allowed (op_connect c) h → IsDone (op_connect c) h
unfolding apply register_client new_client
connect-IsDone c h inv fresh = (
  register_client c (new_client c h),
  refl,
  connect-Inv c h fresh inv,
  (λ id.
      rw (lookup-insert c.id id c h.clients)
        (elim (Bool-cases (c.id == id)) [ inl e ↦ rw e refl | inr e ↦ rw e refl ])),
)

disconnect-IsDone :
    (c : Client) (h : Hub) → Inv h → Allowed (op_disconnect c) h → IsDone (op_disconnect c) h
unfolding apply
disconnect-IsDone c h inv made = elim (Option-cases (lookup c.id h.clients)) [
  | inl e ↦ (
    h,
    unfold unregister_client in rw (e, unregister_client) refl,
    inv,
    (λ id. elim (Bool-cases (c.id == id)) [
      | inl f ↦ rw f (ap user_of (subst (λ i. lookup i h.clients ≡ none) ((eq_iff c.id id).0 f) e))
      | inr f ↦ rw f refl
    ]),
  )
  | inr (d, e) ↦
      let (h', ran, inv', clients) = disconnect_some c d h made inv e in
      (h', ran, inv', (λ id. ap (λ m. user_of (lookup id m)) clients ∙ removed id))
]
  where
    removed :
        (id : String)
        → user_of (lookup id (delete_key c.id h.clients)) ≡ (if c.id == id then none else live h id)
    removed id =
        rw (lookup-delete_key c.id id h.clients)
          (elim (Bool-cases (c.id == id)) [ inl f ↦ rw f refl | inr f ↦ rw f refl ])

pub apply-IsDone : (op : Op) (h : Hub) → Inv h → Allowed op h → IsDone op h
unfolding apply
apply-IsDone (op_connect c) h inv k = connect-IsDone c h inv k
apply-IsDone (op_disconnect c) h inv k = disconnect-IsDone c h inv k
apply-IsDone (op_broadcast m) h inv k =
    let (h', ran, inv', same, _) = broadcast_offers m h inv in (h', ran, inv', same)
apply-IsDone (op_send user m) h inv k =
    let (h', ran, inv', same, _) = send_offers user m h inv in (h', ran, inv', same)
apply-IsDone op_shutdown h inv k = shutdown-some h inv
