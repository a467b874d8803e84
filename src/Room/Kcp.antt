-- ===== src/Room/Kcp.antt =====
-- server/room/room.cpp: `KCPRoom`, whose members and sockets are apart. A socket is known by the number of
-- its `shared_ptr`.
use qchat_server.Base.{
  ℕ, ◌≡◌, List, [], ◌∷◌, ◌++◌, Bool, false, ◌==◌, if◌then◌else◌, none, some, Result, ok, err, Errc,
  system_error, arith,
}
use qchat_server.Base.Dict.{Dict, id_key, lookup, insert, erase, contains, lookup-erase}
use qchat_server.Room.Tcp.{UserNames}

-- `KCPRoomImpl`, and the writes to the sockets that the room has begun, oldest first.
pub record KcpRoom : Type 0 where
  pub joined : Dict ℕ ℕ
  pub sockets : Dict ℕ (Unit {0})
  pub written : List (ℕ × List ℕ)

unfoldable empty_room : KcpRoom
empty_room = record { joined = []; sockets = []; written = [] }

unfoldable join_room : UserNames → ℕ → KcpRoom → Result (Unit {0}) × KcpRoom
join_room names user room = elim (lookup user room.joined) [
  | some _ ↦ (ok tt, room)
  | none ↦ elim (names user) [
    | none ↦ (err (system_error Errc.user_not_existed), room)
    | some _ ↦ (ok tt, record room { joined = insert user user room.joined })
  ]
]

unfoldable has_user : ℕ → KcpRoom → Bool
has_user user room = contains user room.joined

unfoldable leave_room : ℕ → KcpRoom → KcpRoom
leave_room user room = elim (lookup user room.joined) [
  | none ↦ room
  | some _ ↦ record room { joined = erase user room.joined }
]

unfoldable add_socket : ℕ → KcpRoom → KcpRoom
add_socket socket room = record room { sockets = insert socket tt room.sockets }

unfoldable has_socket : ℕ → KcpRoom → Bool
has_socket socket room = contains socket room.sockets

unfoldable remove_socket : ℕ → KcpRoom → KcpRoom
remove_socket socket room = elim (lookup socket room.sockets) [
  | none ↦ room
  | some _ ↦ record room { sockets = erase socket room.sockets }
]

-- One write for every socket.
unfoldable socket_writes : List ℕ → Dict ℕ (Unit {0}) → List (ℕ × List ℕ)
socket_writes bytes [] = []
socket_writes bytes ((socket, _) ∷ rest) = (socket, bytes) ∷ socket_writes bytes rest

unfoldable send_data : List ℕ → KcpRoom → KcpRoom
send_data bytes room = record room { written = room.written ++ socket_writes bytes room.sockets }

-- The overload with a receiver, whose body is empty.
unfoldable send_data_to : List ℕ → ℕ → KcpRoom → KcpRoom
send_data_to bytes user room = room

-- A socket that has been removed is not there, and the others are as before.
has_socket-remove_socket :
    (socket other : ℕ) (room : KcpRoom)
    → has_socket other (remove_socket socket room)
      ≡ (if socket == other then false else has_socket other room)
unfolding has_socket remove_socket
has_socket-remove_socket socket other room = ground (arith, lookup-erase other socket room.sockets)

-- A user who has left is not in the room, and the others are as before.
has_user-leave_room :
    (user other : ℕ) (room : KcpRoom)
    → has_user other (leave_room user room) ≡ (if user == other then false else has_user other room)
unfolding has_user leave_room
has_user-leave_room user other room = ground (arith, lookup-erase other user room.joined)
