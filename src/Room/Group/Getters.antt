-- ===== src/Room/Group/Getters.antt =====
-- server/room/groupRoom/groupRoom.cpp: what `GroupRoom` tells about itself. The functions that are called with
-- a map get it while its mutex is held.
use Prim.Native.String.{String}
use qchat_server.Base.{ℕ, Bool, not, if◌then◌else◌, none, some, Result, ok, err, Errc, system_error}
use qchat_server.Base.Dict.{Dict, id_key, lookup}
use qchat_server.Room.Permission.{PermissionType}
use qchat_server.Room.Group.{GroupRoom, UserData, Held, can_share, unable_to_use}

-- The check that the room can be used, and a shared hold of `m_user_id_map_mutex`.
unfoldable with_users : {A : Type 0} → Held → GroupRoom → (Dict ℕ UserData → Result A) → Result A
with_users held room read =
    if not room.can_be_used
    then err unable_to_use
    else if can_share held.users
    then read room.users
    else err held.relocked

unfoldable get_user_list : {A : Type 0} → Held → (Dict ℕ UserData → A) → GroupRoom → Result A
get_user_list held func room = with_users held room (λ users. ok (func users))

-- The member's entry.
unfoldable get_user_data : Held → ℕ → GroupRoom → Result UserData
get_user_data held user room = with_users held room λ users. elim (lookup user users) [
  | none ↦ err (system_error Errc.user_not_existed)
  | some u ↦ ok u
]

unfoldable get_user_nickname : Held → ℕ → GroupRoom → Result String
get_user_nickname held user room = elim (get_user_data held user room) [
  | err e ↦ err e
  | ok u ↦ ok u.nickname
]

unfoldable get_user_group_level : Held → ℕ → GroupRoom → Result ℕ
get_user_group_level held user room = elim (get_user_data held user room) [
  | err e ↦ err e
  | ok u ↦ ok u.level
]

-- The permissions have a mutex of their own.
unfoldable get_user_permission_list :
    {A : Type 0} → (Dict ℕ PermissionType → A) → GroupRoom → Result A
get_user_permission_list func room =
    if not room.can_be_used then err unable_to_use else ok (func room.permission.users)

unfoldable get_administrator : GroupRoom → Result ℕ
get_administrator room = if not room.can_be_used then err unable_to_use else ok room.administrator

unfoldable get_group_id : GroupRoom → ℕ
get_group_id room = room.group_id

unfoldable can_be_used : GroupRoom → Bool
can_be_used room = room.can_be_used
