-- ===== src/Websocket/Hub/Invariant.antt =====
-- What holds of the hub between its operations.
use go_modulith_template.Prelude.{
  ◌≡◌, ◌∙◌, refl, sym, ap, subst, inl, inr, String, Bool, true, false, not, ◌&&◌, Option, none,
  some, List, [], length, ltb, lookup, insert, delete_key, lookup-insert, lookup-delete_key, IsMap,
  IsMap-insert, IsMap-delete_key, ◌==◌, eq_string, if◌then◌else◌, Bool-cases, Option-cases, arith,
}
use text.Mathlib.TextEquality.{eq_iff}
use go_modulith_template.Websocket.Hub.{
  Message, Client, Channel, Hub, new_hub, new_client, register_client, add_user, unregister_client,
  remove_user, deliver,
}
use go_modulith_template.Websocket.Hub.Marks.{
  is_marked, is_marked-add_user, is_marked-remove_user, HasSets, add_user-HasSets,
  remove_user-HasSets,
}
use go_modulith_template.Websocket.Hub.Offers.{is_in, IsChanged, end_channel, close-IsStep}
use go_modulith_template.Websocket.Hub.Ids.{IsNamed, insert-IsNamed, delete_key-IsNamed}

-- The client is one of the user, who is not anonymous.
abbrev pub is_of : String → Option Client → Bool
is_of user none = false
is_of user (some c) = not (c.user_id == "") && c.user_id == user

-- The channel of the client is open and its own.
abbrev pub IsLive : List (String × Channel) → String → Client → Type 0
IsLive channels id c =
    (ch : Channel) × (lookup id channels ≡ some ch) × (ch.closed ≡ false) × (ch.user_id ≡ c.user_id)

pub record Inv (h : Hub) : Type 0 where
  pub named : IsNamed h.clients
  pub keyed : IsMap h.clients
  pub sets : HasSets h.user_clients
  pub marks :
      (user id : String) → is_marked user id h.user_clients ≡ is_of user (lookup id h.clients)
  pub opened : (id : String) (c : Client) → lookup id h.clients ≡ some c → IsLive h.channels id c

pub new_hub-Inv : Inv new_hub
unfolding new_hub
new_hub-Inv = record {
  named = tt;
  keyed = tt;
  sets = λ user ids h. absurd (ground (arith, h));
  marks = λ user id. refl;
  opened = λ id c h. absurd (ground (arith, h));
}

-- The id of a channel that was never made names no client.
no_client :
    (id : String) (h : Hub) → Inv h → lookup id h.channels ≡ none → lookup id h.clients ≡ none
no_client id h inv fresh = elim (Option-cases (lookup id h.clients)) [
  | inl e ↦ e
  | inr (c, e) ↦ let (ch, found, _, _) = inv.opened id c e in absurd (ground (arith, fresh, found))
]

pub connect-Inv :
    (c : Client) (h : Hub)
    → lookup c.id h.channels ≡ none
    → Inv h
    → Inv (register_client c (new_client c h))
unfolding register_client new_client
connect-Inv c h fresh inv = record {
  named = insert-IsNamed c h.clients inv.named;
  keyed = IsMap-insert c.id c h.clients inv.keyed;
  sets = add_user-HasSets c h.user_clients inv.sets;
  marks = marks;
  opened = opened;
}
  where
    marks :
        (user id : String)
        → is_marked user id (add_user c h.user_clients)
          ≡ is_of user (lookup id (insert c.id c h.clients))
    marks user id =
        rw
          (
            is_marked-add_user c user id h.user_clients,
            lookup-insert c.id id c h.clients,
            inv.marks user id,
          )
          (elim (Bool-cases (c.id == id)) [
            | inl e ↦
                let absent =
                  subst (λ i. lookup i h.clients ≡ none) ((eq_iff c.id id).0 e)
                    (no_client c.id h inv fresh) in
                rw (e, absent) (ground arith)
            | inr e ↦ rw e (ground arith)
          ])

    opened :
        (id : String) (d : Client)
        → lookup id (insert c.id c h.clients) ≡ some d
        → IsLive
            (insert c.id (record { user_id = c.user_id; queue = []; closed = false }) h.channels)
            id
            d
    opened id d =
        rw
          (
            lookup-insert c.id id c h.clients,
            lookup-insert c.id id (record { user_id = c.user_id; queue = []; closed = false })
                h.channels,
          )
          (elim (Bool-cases (c.id == id)) [
            | inl e ↦ rw e (λ k.
                let same : c ≡ d = cc k in
                (
                  record { user_id = c.user_id; queue = []; closed = false },
                  refl,
                  refl,
                  ap Client.user_id same,
                ))
            | inr e ↦ rw e (inv.opened id d)
          ])

-- The client is one that was made.
abbrev pub IsMade : Hub → Client → Type 0
IsMade h c = (ch : Channel) × (lookup c.id h.channels ≡ some ch) × (ch.user_id ≡ c.user_id)

same_user :
    (a b : String) (user : String)
    → a ≡ b
    → (if not (a == "") && a == user then false else not (b == "") && b == user) ≡ false
same_user a b user e =
    rw e (elim (Bool-cases (not (b == "") && b == user)) [ inl f ↦ rw f refl | inr f ↦ rw f refl ])

removed_marks :
    (c d : Client) (h : Hub)
    → Inv h
    → lookup c.id h.clients ≡ some d
    → c.user_id ≡ d.user_id
    → (user id : String)
    → is_marked user id (remove_user c h.user_clients)
      ≡ is_of user (lookup id (delete_key c.id h.clients))
removed_marks c d h inv found same user id =
    rw
      (
        is_marked-remove_user c user id h.user_clients,
        lookup-delete_key c.id id h.clients,
        inv.marks user id,
      )
      (elim (Bool-cases (c.id == id)) [
        | inl e ↦
            let there = subst (λ i. lookup i h.clients ≡ some d) ((eq_iff c.id id).0 e) found in
            rw (e, there)
              (gone (not (c.user_id == "")) (c.user_id == user) _
                (same_user c.user_id d.user_id user same))
        | inr e ↦ rw e (other (not (c.user_id == "")) (c.user_id == user) _)
      ])
  where
    gone :
        (a b x : Bool)
        → (if a && b then false else x) ≡ false
        → (if a && b && true then false else x) ≡ false
    gone true true x k = k
    gone true false x k = k
    gone false b x k = k

    other : (a b x : Bool) → (if a && b && false then false else x) ≡ x
    other true true x = refl
    other true false x = refl
    other false b x = refl

pub disconnect_some :
    (c d : Client) (h : Hub)
    → IsMade h c
    → Inv h
    → lookup c.id h.clients ≡ some d
    → (h' : Hub) × (unregister_client c h ≡ some h')
      × Inv h'
      × (h'.clients ≡ delete_key c.id h.clients)
unfolding unregister_client
disconnect_some c d h (made, at, own) inv found =
    let (ch, live, is_open, theirs) = inv.opened c.id d found in
    let same_channel : made ≡ ch = cc (sym at ∙ live) in
    let same : c.user_id ≡ d.user_id = sym own ∙ ap Channel.user_id same_channel ∙ theirs in
    let channels = insert c.id (end_channel ch) h.channels in
    let after : Hub = record {
      clients = delete_key c.id h.clients;
      user_clients = remove_user c h.user_clients;
      channels = channels;
    } in
    (
      after,
      rw (found, unregister_client, close-IsStep c.id h.channels ch live is_open) refl,
      record {
        named = delete_key-IsNamed c.id h.clients inv.named;
        keyed = IsMap-delete_key c.id h.clients inv.keyed;
        sets = remove_user-HasSets c h.user_clients inv.sets;
        marks = removed_marks c d h inv found same;
        opened = still ch;
      },
      refl,
    )
  where
    still :
        (ch : Channel) (id : String) (e : Client)
        → lookup id (delete_key c.id h.clients) ≡ some e
        → IsLive (insert c.id (end_channel ch) h.channels) id e
    still ch id e =
        rw (lookup-delete_key c.id id h.clients, lookup-insert c.id id (end_channel ch) h.channels)
          (elim (Bool-cases (c.id == id)) [
            | inl q ↦ rw q (λ k. absurd (ground (arith, k)))
            | inr q ↦ rw q (inv.opened id e)
          ])

-- A message that is offered leaves the rest of a channel.
delivered_same :
    (m : Message) (ch : Channel)
    → ((deliver m ch).closed ≡ ch.closed) × ((deliver m ch).user_id ≡ ch.user_id)
delivered_same m ch = elim (Bool-cases (ltb (length ch.queue) 256)) [
  | inl e ↦ rw e (refl, refl)
  | inr e ↦ rw e (refl, refl)
]

pub offered-Inv :
    (m : Message) (ids : List String) (h : Hub) (after : List (String × Channel))
    → IsChanged (deliver m) ids h.channels after
    → Inv h
    → Inv (record h { channels = after })
offered-Inv m ids h after changes inv = record {
  named = inv.named;
  keyed = inv.keyed;
  sets = inv.sets;
  marks = inv.marks;
  opened = opened;
}
  where
    opened : (id : String) (c : Client) → lookup id h.clients ≡ some c → IsLive after id c
    opened id c found =
        let (ch, at, is_open, own) = inv.opened id c found in
        elim (Bool-cases (is_in id ids)) [
          | inl e ↦
              let (closed, user) = delivered_same m ch in
              (deliver m ch, rw (changes id, e, at) refl, closed ∙ is_open, user ∙ own)
          | inr e ↦ (ch, rw (changes id, e, at) refl, is_open, own)
        ]
