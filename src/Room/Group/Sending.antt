-- ===== src/Room/Group/Sending.antt =====
-- server/room/groupRoom/groupRoom.cpp: sending, reading and cleaning messages.
pub mod Posting
use Prim.Native.String.{String}
use qchat_server.Base.{
  ℕ, ◌+◌, ◌*◌, Bool, true, false, not, leb, if◌then◌else◌, none, some, Result, ok, err,
}
use qchat_server.Base.Dict.{id_key, lookup, erase}
use qchat_server.Room.Tcp.{UserNames, Notice, send_data, send_data_to}
use qchat_server.Room.History.{
  History, MessageStructure, MessageType, no_user, store_message, messages_between, clean,
}
use qchat_server.Room.Group.{
  GroupRoom, Held, nothing_held, can_share, can_own, unable_to_use, minute, has_user,
}

-- "发送者是否被禁言": a sender who is muted until `now` or later may not send; a mute that is over is
-- dropped under the exclusive hold.
unfoldable pub may_send : Held → ℕ → ℕ → GroupRoom → Result Bool × GroupRoom
may_send held sender now room =
    if not (can_share held.muted)
    then (err held.relocked, room)
    else elim (lookup sender room.muted) [
      | none ↦ (ok true, room)
      | some m ↦
          if leb now (m.start + m.minutes * minute)
          then (ok false, room)
          else if can_own held.muted
          then (ok true, record room { muted = erase sender room.muted })
          else (err held.relocked, room)
    ]

-- The steps that the three methods share: the member's check, the mute, and then `post`. The clock
-- is read twice, for the mute and for the message.
unfoldable pub send_checked :
    Held
    → ℕ
    → ℕ
    → ℕ
    → (GroupRoom → Result (Unit {0}) × GroupRoom)
    → GroupRoom
    → Result (Unit {0}) × GroupRoom
send_checked held member sender now post room = elim (has_user held member room) [
  | err e ↦ (err e, room)
  | ok is_member ↦
      if not is_member
      then (ok tt, room)
      else let (gate, room') = may_send held sender now room in
        elim gate [
          | err e ↦ (err e, room')
          | ok open_gate ↦ if open_gate then post room' else (ok tt, room')
        ]
]

abbrev pub message_from : ℕ → String → MessageType → ℕ → MessageStructure
message_from sender message type receiver = record {
  sender = sender;
  message = message;
  type = type;
  receiver = receiver;
}

-- "store the message", and `sendData` to everyone who has joined.
unfoldable pub post_to_all :
    MessageStructure → Notice → ℕ → GroupRoom → Result (Unit {0}) × GroupRoom
post_to_all m notice later room = (
  ok tt,
  record room { messages = store_message later m room.messages; tcp = send_data notice room.tcp },
)

-- "store the message", and `sendData` to one user.
unfoldable pub post_to_one :
    UserNames → MessageStructure → Notice → ℕ → ℕ → GroupRoom → Result (Unit {0}) × GroupRoom
post_to_one names m notice receiver later room =
    let (sent, tcp) = send_data_to names notice receiver room.tcp in
    (sent, record room { messages = store_message later m room.messages; tcp = tcp })

unfoldable pub send_message : ℕ → String → ℕ → ℕ → GroupRoom → Result (Unit {0}) × GroupRoom
send_message sender message now later room =
    send_checked nothing_held sender sender now
      (post_to_all (message_from sender message MessageType.nomal_message no_user)
        (Notice.group_message sender room.group_id message) later)
      room

unfoldable pub send_tip_message :
    Held → ℕ → String → ℕ → ℕ → GroupRoom → Result (Unit {0}) × GroupRoom
send_tip_message held sender message now later room =
    send_checked held sender sender now
      (post_to_all (message_from sender message MessageType.tip_message no_user)
        (Notice.group_tip_message sender room.group_id message) later)
      room

-- The member whose presence is checked is the receiver.
unfoldable pub send_user_tip_message :
    UserNames → ℕ → String → ℕ → ℕ → ℕ → GroupRoom → Result (Unit {0}) × GroupRoom
send_user_tip_message names sender message receiver now later room =
    send_checked nothing_held receiver sender now
      (post_to_one names (message_from sender message MessageType.tip_message receiver)
        (Notice.group_tip_message sender room.group_id message) receiver later)
      room

unfoldable pub get_message : ℕ → ℕ → GroupRoom → Result History
get_message from to room =
    if not room.can_be_used then err unable_to_use else ok (messages_between from to room.messages)

-- One round of the loop of `auto_clean`.
unfoldable pub auto_clean : ℕ → GroupRoom → GroupRoom
auto_clean now room = record room { messages = clean now room.messages }
