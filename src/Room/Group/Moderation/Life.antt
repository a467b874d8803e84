-- ===== src/Room/Group/Moderation/Life.antt =====
-- server/room/groupRoom/groupRoom.cpp: the life of a room in which `setAdministrator` is not called. Nothing
-- in the server calls it.
use Prim.Native.String.{String}
use qchat_server.Base.{ℕ, ◌≡◌, Result, ok, Failure}
use qchat_server.Base.Dict.{id_key}
use qchat_server.Room.Tcp.{UserNames}
use qchat_server.Room.Group.{GroupRoom, Held, construct, add_member, remove_member}
use qchat_server.Room.Group.Sending.{
  send_message, send_tip_message, send_user_tip_message, auto_clean,
}
use qchat_server.Room.Group.Moderation.{
  mute_user, unmute_user, kick_user, add_operator, remove_operator, remove_this_room,
}

-- The methods that change a room, with their arguments and what they read of the clock.
pub data Method : Type 0 where
  adds_member : UserNames → ℕ → Method
  removes_member : ℕ → Method
  sends_message : ℕ → String → ℕ → ℕ → Method
  sends_tip_message : Held → ℕ → String → ℕ → ℕ → Method
  sends_user_tip_message : UserNames → ℕ → String → ℕ → ℕ → ℕ → Method
  mutes : Failure → ℕ → ℕ → ℕ → ℕ → ℕ → Method
  unmutes : Failure → ℕ → ℕ → ℕ → ℕ → Method
  kicks : Failure → ℕ → ℕ → ℕ → ℕ → Method
  adds_operator : ℕ → ℕ → ℕ → ℕ → Method
  removes_operator : ℕ → ℕ → ℕ → ℕ → Method
  cleans : ℕ → Method
  removes_room : Method

-- The room behind a call, whether it returned or not.
abbrev pub behind : Method → GroupRoom → GroupRoom
behind (adds_member names user) room = (add_member names user room).1
behind (removes_member user) room = (remove_member user room).1
behind (sends_message sender text now later) room = (send_message sender text now later room).1
behind (sends_tip_message held sender text now later) room =
    (send_tip_message held sender text now later room).1
behind (sends_user_tip_message names sender text receiver now later) room =
    (send_user_tip_message names sender text receiver now later room).1
behind (mutes relocked e u mins now later) room = (mute_user relocked e u mins now later room).1
behind (unmutes relocked e u now later) room = (unmute_user relocked e u now later room).1
behind (kicks relocked e u now later) room = (kick_user relocked e u now later room).1
behind (adds_operator e u now later) room = (add_operator e u now later room).1
behind (removes_operator e u now later) room = (remove_operator e u now later room).1
behind (cleans now) room = auto_clean now room
behind removes_room room = remove_this_room room

-- The rooms that a construction and calls lead to.
pub data Life (names : UserNames) (group_id administrator : ℕ) : GroupRoom → Type 0 where
  begins :
      (room : GroupRoom)
      → construct names group_id administrator ≡ ok room
      → Life names group_id administrator room
  goes_on :
      {room : GroupRoom} (m : Method)
      → Life names group_id administrator room
      → Life names group_id administrator (behind m room)

-- That a call keeps the permissions.
abbrev Keeps : {A : Type 0} → GroupRoom → Result A × GroupRoom → Type 0
Keeps room result = result.1.permission ≡ room.permission
