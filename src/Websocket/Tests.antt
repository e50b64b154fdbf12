-- ===== src/Websocket/Tests.antt =====
-- The hub with two connections of one user.
use go_modulith_template.Prelude.{◌≡◌, refl, String, none, some, [], lookup, eq_string}
use go_modulith_template.Websocket.Hub.{
  Message, Client, Hub, new_hub, new_client, register_client, add_user, deliver, send_to_user,
  broadcast_message,
}
use go_modulith_template.Websocket.Hub.Marks.{is_some}
use go_modulith_template.Websocket.Hub.Offers.{changed}
use go_modulith_template.Websocket.Hub.Delivery.{
  Users, op_connect, op_disconnect, after_op, apply, live, is_user,
}
use go_modulith_template.Websocket.Hub.Promise.{
  Reach, started, stepped, apply-after_op, send_to_user_delivers, broadcast_message_delivers,
}

abbrev first : Client
first = record { id = "1"; user_id = "a" }

abbrev second : Client
second = record { id = "2"; user_id = "a" }

abbrev hello : Message
hello = record { kind = "hello"; payload = "{}" }

abbrev one : Hub
one = register_client first (new_client first new_hub)

abbrev both : Hub
both = register_client second (new_client second one)

abbrev users : Users
users = after_op (op_connect second) (after_op (op_connect first) (λ _. none))

both_reached : Reach both users
unfolding apply register_client new_client new_hub add_user
both_reached = stepped (op_connect second) (stepped (op_connect first) started refl refl) refl refl

apply-after_op_example :
    (h : Hub) × (apply (op_disconnect first) both ≡ some h)
    × ((id : String) → live h id ≡ after_op (op_disconnect first) users id)
unfolding register_client new_client new_hub
apply-after_op_example =
    apply-after_op (op_disconnect first) both_reached
      (record { user_id = "a"; queue = []; closed = _ }, refl, refl)

send_to_user_delivers_example :
    (h : Hub) × (send_to_user "a" hello both ≡ some h)
    × ((id : String)
        → lookup id h.channels
          ≡ changed (deliver hello) (is_user "a" (users id)) (lookup id both.channels))
send_to_user_delivers_example = send_to_user_delivers "a" hello both_reached

broadcast_message_delivers_example :
    (h : Hub) × (broadcast_message hello both ≡ some h)
    × ((id : String)
        → lookup id h.channels
          ≡ changed (deliver hello) (is_some (users id)) (lookup id both.channels))
broadcast_message_delivers_example = broadcast_message_delivers hello both_reached
