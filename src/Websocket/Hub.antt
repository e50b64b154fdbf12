-- ===== src/Websocket/Hub.antt =====
-- The hub of internal/websocket/hub.go, one operation at a time as its lock and its loop run them. The
-- channel `send` of every client that was made stands under the client's id, which `NewClient` draws
-- anew; it keeps the user of the client. An operation that panics, by closing a closed channel or
-- sending on one, is `none`. Maps are visited in the order of their entries; logging is left out.
pub mod Marks
pub mod Offers
pub mod Ids
pub mod Invariant
pub mod Delivery
pub mod Refinement
pub mod Promise
use go_modulith_template.Prelude.{
  ℕ, String, Bool, true, false, Option, none, some, List, [], ◌∷◌, ◌++◌, map, length, ltb, lookup,
  insert, delete_key, ◌==◌, eq_string, if◌then◌else◌,
}

pub record Message : Type 0 where
  pub kind : String
  pub payload : String

pub record Client : Type 0 where
  pub id : String
  pub user_id : String

-- A channel of messages.
pub record Channel : Type 0 where
  pub user_id : String
  pub queue : List Message
  pub closed : Bool

pub record Hub : Type 0 where
  pub clients : List (String × Client)
  pub user_clients : List (String × List (String × Bool))
  pub channels : List (String × Channel)

unfoldable pub new_hub : Hub
new_hub = record { clients = []; user_clients = []; channels = [] }

-- `make(chan *Message, 256)`.
unfoldable pub new_client : Client → Hub → Hub
new_client c h = record h {
  channels = insert c.id (record { user_id = c.user_id; queue = []; closed = false }) h.channels;
}

abbrev pub or_none : Option (List (String × Bool)) → List (String × Bool)
or_none none = []
or_none (some ids) = ids

unfoldable pub add_user :
    Client → List (String × List (String × Bool)) → List (String × List (String × Bool))
add_user c users =
    if c.user_id == ""
    then users
    else insert c.user_id (insert c.id true (or_none (lookup c.user_id users))) users

unfoldable pub register_client : Client → Hub → Hub
register_client c h = record h {
  clients = insert c.id c h.clients;
  user_clients = add_user c h.user_clients;
}

-- A user without connections is dropped.
abbrev pub put_ids :
    String
    → List (String × Bool)
    → List (String × List (String × Bool))
    → List (String × List (String × Bool))
put_ids user [] users = delete_key user users
put_ids user (i ∷ ids) users = insert user (i ∷ ids) users

abbrev pub without :
    Client
    → Option (List (String × Bool))
    → List (String × List (String × Bool))
    → List (String × List (String × Bool))
without c none users = users
without c (some ids) users = put_ids c.user_id (delete_key c.id ids) users

unfoldable pub remove_user :
    Client → List (String × List (String × Bool)) → List (String × List (String × Bool))
remove_user c users = if c.user_id == "" then users else without c (lookup c.user_id users) users

abbrev pub closed_channel :
    String → Option Channel → List (String × Channel) → Option (List (String × Channel))
closed_channel id none channels = none
closed_channel id (some ch) channels =
    if ch.closed then none else some (insert id (record ch { closed = true }) channels)

unfoldable pub close : String → List (String × Channel) → Option (List (String × Channel))
close id channels = closed_channel id (lookup id channels) channels

unfoldable pub unregister_client : Client → Hub → Option Hub
unregister_client c h = elim (lookup c.id h.clients) [
  | none ↦ some h
  | some _ ↦ elim (close c.id h.channels) [
    | none ↦ none
    | some channels ↦ some (record {
      clients = delete_key c.id h.clients;
      user_clients = remove_user c h.user_clients;
      channels = channels;
    })
  ]
]

-- A full buffer drops the message.
abbrev pub deliver : Message → Channel → Channel
deliver m ch = if ltb (length ch.queue) 256 then record ch { queue = ch.queue ++ m ∷ [] } else ch

abbrev pub offered :
    Message → String → Option Channel → List (String × Channel) → Option (List (String × Channel))
offered m id none channels = some channels
offered m id (some ch) channels =
    if ch.closed then none else some (insert id (deliver m ch) channels)

-- `select` with a default.
unfoldable pub offer : Message → String → List (String × Channel) → Option (List (String × Channel))
offer m id channels = offered m id (lookup id channels) channels

-- One step for each id of a loop.
abbrev pub each :
    (String → List (String × Channel) → Option (List (String × Channel)))
    → List String
    → List (String × Channel)
    → Option (List (String × Channel))
each step [] channels = some channels
each step (id ∷ ids) channels = elim (step id channels) [
  | none ↦ none
  | some after ↦ each step ids after
]

abbrev pub client_ids : List (String × Client) → List String
client_ids clients = map (λ p. p.1.id) clients

abbrev pub with_channels : Hub → Option (List (String × Channel)) → Option Hub
with_channels h none = none
with_channels h (some channels) = some (record h { channels = channels })

unfoldable pub broadcast_message : Message → Hub → Option Hub
broadcast_message m h = with_channels h (each (offer m) (client_ids h.clients) h.channels)

-- The ids that still name a client.
abbrev pub present : List (String × Client) → List (String × Bool) → List String
present clients [] = []
present clients ((id, _) ∷ ids) =
    let rest = present clients ids in
    elim (lookup id clients) [ none ↦ rest | some c ↦ c.id ∷ rest ]

unfoldable pub send_to_user : String → Message → Hub → Option Hub
send_to_user user m h = elim (lookup user h.user_clients) [
  | none ↦ some h
  | some ids ↦ with_channels h (each (offer m) (present h.clients ids) h.channels)
]

unfoldable pub shutdown : Hub → Option Hub
shutdown h = elim (each close (client_ids h.clients) h.channels) [
  | none ↦ none
  | some channels ↦ some (record { clients = []; user_clients = []; channels = channels })
]

unfoldable pub get_connected_users : Hub → ℕ
get_connected_users h = length h.user_clients

unfoldable pub get_total_connections : Hub → ℕ
get_total_connections h = length h.clients
