-- ===== src/Server/Manager.antt =====
-- server/manager/manager.cpp: users, private rooms and group rooms. A method holds the mutexes of
-- the maps that it touches for its whole body, so it is one step.
use qchat_server.Base.{
  ℕ, ◌+◌, ◌%◌, ◌^◌, Bool, ◌||◌, [], none, some, Result, ok, err, Errc, system_error, Action,
}
use qchat_server.Base.Dict.{Dict, id_key, lookup, insert, erase, emplace, contains}
use qchat_server.Room.Group.{GroupRoom}
use qchat_server.Room.Group
use qchat_server.Room.Private.{PrivateRoom}
use qchat_server.Room.Private
use qchat_server.Server.User.{User, new_user}
use qchat_server.Server.State.{Server, PrivateRoomId, pair_of, private_room_id_key, names_of}

-- `++` of a `std::atomic<long long>`, which wraps.
abbrev pub next_id : ℕ → ℕ
next_id n = (n + 1) % 2 ^ 64

abbrev pub first_id : ℕ
first_id = 10_000

-- A server behind `Manager::init`.
unfoldable pub init : Server
init = record {
  users = [];
  group_rooms = [];
  private_rooms = [];
  private_ids = [];
  connections = [];
  new_user_id = first_id;
  new_private_room_id = first_id;
  new_group_room_id = first_id;
  friend_applications = [];
  group_applications = [];
  written = [];
}

-- The ids of private rooms come from `m_newGroupRoomId`.
unfoldable pub add_private_room : ℕ → ℕ → Action Server ℕ
add_private_room user_1 user_2 s =
    let id = s.new_group_room_id in
    let s' : Server = record s { new_group_room_id = next_id id } in
    elim (Private.construct (names_of s) user_1 user_2) [
      | err e ↦ (err e, s')
      | ok room ↦ (
        ok id,
        record s' {
          private_rooms = insert id room s.private_rooms;
          private_ids = insert (pair_of user_1 user_2) id s.private_ids;
        },
      )
    ]

unfoldable pub get_private_room_id : ℕ → ℕ → Server → Result ℕ
get_private_room_id user_1 user_2 s = elim (lookup (pair_of user_1 user_2) s.private_ids) [
  | some id ↦ ok id
  | none ↦ elim (lookup (pair_of user_2 user_1) s.private_ids) [
    | some id ↦ ok id
    | none ↦ err (system_error Errc.private_room_not_existed)
  ]
]

unfoldable pub has_private_room : ℕ → Server → Bool
has_private_room id s = contains id s.private_rooms

unfoldable pub has_private_room_between : ℕ → ℕ → Server → Bool
has_private_room_between user_1 user_2 s =
    contains (pair_of user_1 user_2) s.private_ids || contains (pair_of user_2 user_1) s.private_ids

unfoldable pub get_private_room : ℕ → Server → Result PrivateRoom
get_private_room id s = elim (lookup id s.private_rooms) [
  | none ↦ err (system_error Errc.private_room_not_existed)
  | some room ↦ ok room
]

-- The entry of the two users, under whichever order it is found.
unfoldable pub erase_pair : ℕ → ℕ → Dict PrivateRoomId ℕ → Dict PrivateRoomId ℕ
erase_pair user_1 user_2 ids = elim (lookup (pair_of user_1 user_2) ids) [
  | some _ ↦ erase (pair_of user_1 user_2) ids
  | none ↦ elim (lookup (pair_of user_2 user_1) ids) [
    | some _ ↦ erase (pair_of user_2 user_1) ids
    | none ↦ ids
  ]
]

unfoldable pub remove_private_room : ℕ → Action Server (Unit {0})
remove_private_room id s = elim (lookup id s.private_rooms) [
  | none ↦ (err (system_error Errc.private_room_not_existed), s)
  | some room ↦ elim (Private.get_user_id room) [
    | err e ↦ (err e, s)
    | ok (user_1, user_2) ↦ (
      ok tt,
      record s {
        private_ids = erase_pair user_1 user_2 s.private_ids;
        private_rooms = erase id s.private_rooms;
      },
    )
  ]
]

-- The ids of group rooms come from `m_newPrivateRoomId`.
unfoldable pub add_group_room : ℕ → Action Server ℕ
add_group_room operator_user s =
    let id = s.new_private_room_id in
    let s' : Server = record s { new_private_room_id = next_id id } in
    elim (Group.construct (names_of s) id operator_user) [
      | err e ↦ (err e, s')
      | ok room ↦ (ok id, record s' { group_rooms = insert id room s.group_rooms })
    ]

unfoldable pub has_group_room : ℕ → Server → Bool
has_group_room id s = contains id s.group_rooms

unfoldable pub get_group_room : ℕ → Server → Result GroupRoom
get_group_room id s = elim (lookup id s.group_rooms) [
  | none ↦ err (system_error Errc.group_room_not_existed)
  | some room ↦ ok room
]

unfoldable pub remove_group_room : ℕ → Action Server (Unit {0})
remove_group_room id s = elim (lookup id s.group_rooms) [
  | none ↦ (err (system_error Errc.group_room_not_existed), s)
  | some _ ↦ (ok tt, record s { group_rooms = erase id s.group_rooms })
]

-- The id of the object that the map then holds under the new id.
unfoldable pub add_new_user : ℕ → Action Server ℕ
add_new_user now s =
    let id = s.new_user_id in
    (ok id, record s { new_user_id = next_id id; users = emplace id (new_user id now) s.users })

unfoldable pub has_user : ℕ → Server → Bool
has_user user s = contains user s.users

unfoldable pub get_user : ℕ → Server → Result User
get_user user s = elim (lookup user s.users) [
  | none ↦ err (system_error Errc.user_not_existed)
  | some u ↦ ok u
]
