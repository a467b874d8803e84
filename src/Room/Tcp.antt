-- ===== src/Room/Tcp.antt =====
-- server/room/room.cpp: `TCPRoom` and `TextDataRoom`. A user's object is known by its id: the server
-- never drops a user, so no `weak_ptr<User>` in a room expires.
use Prim.Native.String.{String}
use qchat_server.Base.{
  ℕ, ◌≡◌, Bool, false, ◌==◌, if◌then◌else◌, arith, List, ◌∷◌, [], ◌++◌, Option, none, some, Result,
  ok, err, Errc, system_error, logic_error,
}
use qchat_server.Base.Dict.{Dict, id_key, lookup, insert, erase, contains, lookup-erase}

-- `serverManager.getUser(id)->getUserName()`, or none where `getUser` throws `user_not_existed`.
abbrev pub UserNames : Type 0
UserNames = ℕ → Option String

-- The JSON objects that rooms and users send.
pub data Notice : Type 0 where
  group_message : ℕ → ℕ → String → Notice
  group_tip_message : ℕ → ℕ → String → Notice
  private_message : ℕ → String → Notice
  private_tip_message : ℕ → String → Notice
  added_friend_verification : ℕ → Notice
  added_friend : ℕ → Notice
  rejected_to_add_friend : ℕ → Notice
  removed_friend : ℕ → Notice
  added_group_verification : ℕ → ℕ → Notice
  added_group : ℕ → Notice
  rejected_to_add_group : ℕ → Notice
  group_removed : ℕ → Notice
  group_leave_member : ℕ → ℕ → Notice

-- `TCPRoomImpl::m_user_map`, and the calls of `User::notifyAll` that the room has made: the user and
-- what was sent, oldest first.
pub record TcpRoom : Type 0 where
  pub joined : Dict ℕ ℕ
  pub notified : List (ℕ × Notice)

unfoldable pub empty_room : TcpRoom
empty_room = record { joined = []; notified = [] }

unfoldable pub join_room : UserNames → ℕ → TcpRoom → Result (Unit {0}) × TcpRoom
join_room names user room = elim (lookup user room.joined) [
  | some _ ↦ (ok tt, room)
  | none ↦ elim (names user) [
    | none ↦ (err (system_error Errc.user_not_existed), room)
    | some _ ↦ (ok tt, record room { joined = insert user user room.joined })
  ]
]

unfoldable has_user : ℕ → TcpRoom → Bool
has_user user room = contains user room.joined

unfoldable pub leave_room : ℕ → TcpRoom → TcpRoom
leave_room user room = elim (lookup user room.joined) [
  | none ↦ room
  | some _ ↦ record room { joined = erase user room.joined }
]

-- One copy for everyone who has joined.
unfoldable pub copies : Notice → Dict ℕ ℕ → List (ℕ × Notice)
copies notice [] = []
copies notice ((user, _) ∷ rest) = (user, notice) ∷ copies notice rest

unfoldable pub send_data : Notice → TcpRoom → TcpRoom
send_data notice room = record room { notified = room.notified ++ copies notice room.joined }

-- The overload with a receiver.
unfoldable pub send_data_to : UserNames → Notice → ℕ → TcpRoom → Result (Unit {0}) × TcpRoom
send_data_to names notice user room = elim (lookup user room.joined) [
  | none ↦ (err logic_error, room)
  | some _ ↦ elim (names user) [
    | none ↦ (err (system_error Errc.user_not_existed), room)
    | some _ ↦ (ok tt, record room { notified = room.notified ++ (user, notice) ∷ [] })
  ]
]

-- A user who has left is not in the room, and the others are as before.
has_user-leave_room :
    (user other : ℕ) (room : TcpRoom)
    → has_user other (leave_room user room) ≡ (if user == other then false else has_user other room)
unfolding has_user leave_room
has_user-leave_room user other room = ground (arith, lookup-erase other user room.joined)
