-- ===== src/Room/Group.antt =====
-- server/room/groupRoom/groupRoom.cpp: the state and the methods of `GroupRoom`. A method takes the
-- mutexes of the room for parts of its body and calls other methods meanwhile; `Held` says which of
-- them the calling thread holds. What `std::shared_mutex` does when a thread asks for one that it holds
-- exclusively, or for the exclusive hold of one that it holds, is the library's: the standard leaves
-- it undefined, libstdc++ throws `resource_deadlock_would_occur`, others wait forever. The call does
-- not get the mutex, and how it ends is an argument. Asking twice for a shared hold goes through, as
-- it does in these libraries while no writer waits.
pub mod Sending
pub mod Moderation
mod Getters
use Prim.Native.String.{String, ◌++◌ as concat}
use qchat_server.Base.{
  ℕ, ◌+◌, ◌*◌, Bool, true, false, not, ◌||◌, List, ltb, leb, ◌==◌, if◌then◌else◌, Option, none,
  some, [], Result, ok, err, Failure, undefined_behaviour, Errc, system_error, is_some,
}
use qchat_server.Base.Dict.{Dict, id_key, lookup, insert, erase, contains, emplace}
use qchat_server.Room.Permission.{
  PermissionType, GroupPermission, rank, no_permissions, modify_user_permission,
  get_user_permission_type,
}
use qchat_server.Room.Tcp.{
  TcpRoom, UserNames, Notice, empty_room, join_room, leave_room, send_data, send_data_to,
}
use qchat_server.Room.History.{
  History, MessageStructure, MessageType, no_user, store_message, messages_between, clean,
}

-- `UserDataStructure`; a new member has the level at which `UserLevel` begins.
pub record UserData : Type 0 where
  pub nickname : String
  pub level : ℕ

abbrev pub new_member : String → UserData
new_member name = record { nickname = name; level = 1 }

-- When a member was muted, and for how many minutes.
pub record Mute : Type 0 where
  pub start : ℕ
  pub minutes : ℕ

-- Nanoseconds.
abbrev pub minute : ℕ
minute = 60_000_000_000

pub record GroupRoom : Type 0 where
  pub tcp : TcpRoom
  pub group_id : ℕ
  pub administrator : ℕ
  pub can_be_used : Bool
  pub permission : GroupPermission
  pub users : Dict ℕ UserData
  pub muted : Dict ℕ Mute
  pub messages : History

-- How the calling thread holds a `std::shared_mutex`.
pub data Hold : Type 0 where
  free shared exclusive : Hold

-- `m_user_id_map_mutex` and `m_muted_user_map_mutex`, and how a call ends that asks for one of them
-- which the thread's own hold bars.
pub record Held : Type 0 where
  pub users : Hold
  pub muted : Hold
  pub relocked : Failure

abbrev pub nothing_held : Held
nothing_held = record { users = free; muted = free; relocked = undefined_behaviour }

abbrev pub can_share : Hold → Bool
can_share exclusive = false
can_share _ = true

abbrev pub can_own : Hold → Bool
can_own free = true
can_own _ = false

abbrev unable_to_use : Failure
unable_to_use = system_error Errc.group_room_unable_to_use

-- The constructor; it fails when the administrator is no user.
unfoldable pub construct : UserNames → ℕ → ℕ → Result GroupRoom
construct names group_id administrator = elim (names administrator) [
  | none ↦ err (system_error Errc.user_not_existed)
  | some name ↦ ok (record {
    tcp = (join_room names administrator empty_room).1;
    group_id = group_id;
    administrator = administrator;
    can_be_used = true;
    permission = no_permissions;
    users = insert administrator (new_member name) [];
    muted = [];
    messages = [];
  })
]

-- `addMember` behind its check: a user who is no member yet becomes one, and joins.
enter : UserNames → ℕ → GroupRoom → Result Bool × GroupRoom
enter names user room =
    let (joined, tcp) = join_room names user room.tcp in
    (elim joined [ err e ↦ err e | ok _ ↦ ok true ], record room { tcp = tcp })

unfoldable pub add_member : UserNames → ℕ → GroupRoom → Result Bool × GroupRoom
unfolding enter
add_member names user room =
    if not room.can_be_used then (err unable_to_use, room) else elim (lookup user room.users) [
      | some _ ↦ enter names user room
      | none ↦ elim (names user) [
        | none ↦ (err (system_error Errc.user_not_existed), room)
        | some name ↦
            enter names user (record room { users = insert user (new_member name) room.users })
      ]
    ]

-- `hasMember` takes `m_user_id_map_mutex` exclusively.
unfoldable pub has_member : ℕ → GroupRoom → Result Bool
has_member user room =
    if not room.can_be_used then err unable_to_use else ok (contains user room.users)

unfoldable pub remove_member : ℕ → GroupRoom → Result Bool × GroupRoom
remove_member user room =
    if not room.can_be_used
    then (err unable_to_use, room)
    else (ok true, record room { users = erase user room.users; tcp = leave_room user room.tcp })

unfoldable pub has_user : Held → ℕ → GroupRoom → Result Bool
has_user held user room =
    if not room.can_be_used
    then err unable_to_use
    else if can_share held.users
    then ok (contains user room.users)
    else err held.relocked
