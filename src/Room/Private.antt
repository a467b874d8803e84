-- ===== src/Room/Private.antt =====
-- server/room/privateRoom/privateRoom.cpp.
use Prim.Native.String.{String}
use qchat_server.Base.{
  ℕ, Bool, true, false, not, ◌||◌, ◌==◌, if◌then◌else◌, Result, ok, err, Failure, Errc,
  system_error, [],
}
use qchat_server.Base.Dict.{id_key, contains}
use qchat_server.Room.Tcp.{TcpRoom, UserNames, Notice, empty_room, join_room, send_data}
use qchat_server.Room.History.{
  History, MessageType, no_user, insert_message, messages_between, clean,
}

pub record PrivateRoom : Type 0 where
  pub tcp : TcpRoom
  pub user_id_1 : ℕ
  pub user_id_2 : ℕ
  pub can_be_used : Bool
  pub messages : History

abbrev unable_to_use : Failure
unable_to_use = system_error Errc.private_room_unable_to_use

-- The constructor; `joinRoom` fails for an id of no user.
unfoldable pub construct : UserNames → ℕ → ℕ → Result PrivateRoom
construct names user_1 user_2 =
    let (first, tcp_1) = join_room names user_1 empty_room in
    elim first [
      | err e ↦ err e
      | ok _ ↦
          let (second, tcp_2) = join_room names user_2 tcp_1 in
          elim second [
            | err e ↦ err e
            | ok _ ↦ ok (record {
              tcp = tcp_2;
              user_id_1 = user_1;
              user_id_2 = user_2;
              can_be_used = true;
              messages = [];
            })
          ]
    ]

-- The message is stored at the time itself: a message that is there stays, and the new one is lost.
post : MessageType → ℕ → String → Notice → ℕ → PrivateRoom → PrivateRoom
post type sender message notice now room = record room {
  messages =
      insert_message now
        (record { sender = sender; message = message; type = type; receiver = no_user })
        room.messages;
  tcp = send_data notice room.tcp;
}

-- `sendMessage` stores the message with the type of a tip.
pub send_message : String → ℕ → ℕ → PrivateRoom → Result (Unit {0}) × PrivateRoom
unfolding post
send_message message sender now room =
    if not room.can_be_used
    then (err unable_to_use, room)
    else if not (contains sender room.tcp.joined)
    then (ok tt, room)
    else (
      ok tt,
      post MessageType.tip_message sender message (Notice.private_message sender message) now room,
    )

pub send_tip_message : String → ℕ → ℕ → PrivateRoom → Result (Unit {0}) × PrivateRoom
unfolding post
send_tip_message message sender now room =
    if not room.can_be_used
    then (err unable_to_use, room)
    else if not (contains sender room.tcp.joined)
    then (ok tt, room)
    else (
      ok tt,
      post MessageType.tip_message sender message (Notice.private_tip_message sender message) now
          room,
    )

-- The code of the failure is that of a group room.
pub get_message : ℕ → ℕ → PrivateRoom → Result History
get_message from to room =
    if not room.can_be_used
    then err (system_error Errc.group_room_unable_to_use)
    else ok (messages_between from to room.messages)

unfoldable pub get_user_id : PrivateRoom → Result (ℕ × ℕ)
get_user_id room =
    if not room.can_be_used then err unable_to_use else ok (room.user_id_1, room.user_id_2)

pub has_member : ℕ → PrivateRoom → Result Bool
has_member user room =
    if not room.can_be_used
    then err unable_to_use
    else ok (user == room.user_id_1 || user == room.user_id_2)

pub remove_this_room : PrivateRoom → PrivateRoom
remove_this_room room = record room { can_be_used = false }

-- One round of the loop of `auto_clean`.
pub auto_clean : ℕ → PrivateRoom → PrivateRoom
auto_clean now room = record room { messages = clean now room.messages }
