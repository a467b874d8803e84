-- ===== src/Room/Group/Moderation.antt =====
-- server/room/groupRoom/groupRoom.cpp: muting, kicking, operators and the administrator.
pub mod Authority
pub mod Relocking
pub mod Operators
pub mod Powerless
pub mod Life
use Prim.Native.String.{String, ◌++◌ as concat}
use qchat_server.Base.{
  ℕ, Bool, true, false, not, ◌||◌, leb, ◌==◌, if◌then◌else◌, none, some, Result, ok, err, Errc,
  system_error, [], Failure, undefined_behaviour, ◌&&◌,
}
use qchat_server.Base.Dict.{Dict, id_key, lookup, insert, erase}
use qchat_server.Room.Permission.{
  PermissionType, rank, modify_user_permission, get_user_permission_type,
}
use qchat_server.Room.Tcp.{UserNames}
use qchat_server.Room.Group.{
  GroupRoom, UserData, new_member, Mute, Held, Hold, free, shared, exclusive, nothing_held,
  unable_to_use, has_user,
}
use qchat_server.Room.Group.Sending.{send_tip_message}

-- `m_user_id_map[user].nickname`, for a user whose membership has been checked.
unfoldable pub nickname : ℕ → GroupRoom → String
nickname user room = elim (lookup user room.users) [ none ↦ "" | some d ↦ d.nickname ]

pub tip : ℕ → String → ℕ → GroupRoom → String
tip user what executor room = concat (nickname user room) (concat what (nickname executor room))

-- `executor_id == user_id || !hasUser(user_id) || !hasUser(executor_id)`, evaluated in this order.
pub are_not_two_members : ℕ → ℕ → GroupRoom → Result Bool
are_not_two_members executor user room =
    if executor == user then ok true else elim (has_user nothing_held user room) [
      | err e ↦ err e
      | ok is_member ↦
          if not is_member then ok true else elim (has_user nothing_held executor room) [
            | err e ↦ err e
            | ok executor_is_member ↦ ok (not executor_is_member)
          ]
    ]

-- The checks with which `muteUser`, `unmuteUser` and `kickUser` begin: true when they go on, false
-- when they return false.
pub outranks : ℕ → ℕ → GroupRoom → Result Bool
outranks executor user room =
    if not room.can_be_used
    then err unable_to_use
    else elim (are_not_two_members executor user room) [
      | err e ↦ err e
      | ok refused ↦
          if refused then ok false else elim (get_user_permission_type executor room.permission) [
            | err e ↦ err e
            | ok executor_type ↦ elim (get_user_permission_type user room.permission) [
              | err e ↦ err e
              | ok user_type ↦ ok (not (leb (rank executor_type) (rank user_type)))
            ]
          ]
    ]

-- The rest of a method: `sendTipMessage` under the holds, and `return true` behind `last`.
pub announce :
    Held → ℕ → String → ℕ → ℕ → (GroupRoom → GroupRoom) → GroupRoom → Result Bool × GroupRoom
announce held executor text now later last room =
    let (sent, room') = send_tip_message held executor text now later room in
    elim sent [ err e ↦ (err e, room') | ok _ ↦ (ok true, last room') ]

-- A method whose checks did not let it through, or that goes on by `act`.
abbrev pub guarded :
    Result Bool → (GroupRoom → Result Bool × GroupRoom) → GroupRoom → Result Bool × GroupRoom
guarded (err e) act room = (err e, room)
guarded (ok false) act room = (ok false, room)
guarded (ok true) act room = act room

pub mute_user : Failure → ℕ → ℕ → ℕ → ℕ → ℕ → GroupRoom → Result Bool × GroupRoom
mute_user relocked executor user mins now later room =
    guarded (outranks executor user room)
      (λ r.
        announce (record { users = shared; muted = exclusive; relocked = relocked }) executor
          (tip user " was muted by " executor r) now later (λ s. s)
          (record r { muted = insert user (record { start = now; minutes = mins }) r.muted }))
      room

pub unmute_user : Failure → ℕ → ℕ → ℕ → ℕ → GroupRoom → Result Bool × GroupRoom
unmute_user relocked executor user now later room =
    guarded (outranks executor user room)
      (λ r.
        announce (record { users = shared; muted = exclusive; relocked = relocked }) executor
          (tip user " was unmuted by " executor r) now later (λ s. s)
          (record r { muted = erase user r.muted }))
      room

pub kick_user : Failure → ℕ → ℕ → ℕ → ℕ → GroupRoom → Result Bool × GroupRoom
kick_user relocked executor user now later room =
    guarded (outranks executor user room)
      (λ r.
        announce (record { users = exclusive; muted = exclusive; relocked = relocked }) executor
          (tip user " was kicked by " executor r) now later
          (λ s. record s { users = erase user s.users }) r)
      room

-- The checks of `addOperator` and `removeOperator`: the executor is the administrator, and the user
-- has the type that is to be changed.
pub may_change : PermissionType → ℕ → ℕ → GroupRoom → Result Bool
may_change from executor user room =
    if not room.can_be_used
    then err unable_to_use
    else elim (are_not_two_members executor user room) [
      | err e ↦ err e
      | ok refused ↦
          if refused then ok false else elim (get_user_permission_type executor room.permission) [
            | err e ↦ err e
            | ok executor_type ↦
                if not (rank executor_type == rank PermissionType.administrator)
                then ok false
                else elim (get_user_permission_type user room.permission) [
                  | err e ↦ err e
                  | ok user_type ↦ ok (rank user_type == rank from)
                ]
          ]
    ]

pub add_operator : ℕ → ℕ → ℕ → ℕ → GroupRoom → Result Bool × GroupRoom
add_operator executor user now later room =
    guarded (may_change PermissionType.default executor user room)
      (λ r.
        announce (record { users = shared; muted = free; relocked = undefined_behaviour }) executor
          (tip user " was turned operator by " executor r) now later (λ s. s)
          (record r {
            permission = modify_user_permission user PermissionType.operator r.permission;
          }))
      room

pub remove_operator : ℕ → ℕ → ℕ → ℕ → GroupRoom → Result Bool × GroupRoom
remove_operator executor user now later room =
    guarded (may_change PermissionType.operator executor user room)
      (λ r.
        announce (record { users = shared; muted = free; relocked = undefined_behaviour }) executor
          (tip user " was turned default user by " executor r) now later (λ s. s)
          (record r {
            permission = modify_user_permission user PermissionType.default r.permission;
          }))
      room

-- A room whose administrator is 0 gives the permission and leaves the administrator as it is.
pub set_administrator : UserNames → ℕ → GroupRoom → Result (Unit {0}) × GroupRoom
set_administrator names user room =
    let promote : GroupRoom → GroupRoom = λ r. record r {
      permission = modify_user_permission user PermissionType.administrator r.permission;
    } in
    if not room.can_be_used
    then (err unable_to_use, room)
    else if room.administrator == 0
    then elim (lookup user room.users) [
      | some _ ↦ (ok tt, promote room)
      | none ↦ elim (names user) [
        | none ↦ (err (system_error Errc.user_not_existed), room)
        | some name ↦
            (ok tt, promote (record room { users = insert user (new_member name) room.users }))
      ]
    ]
    else (
      ok tt,
      record room {
        permission =
            modify_user_permission user PermissionType.administrator
              (modify_user_permission room.administrator PermissionType.default room.permission);
        administrator = user;
      },
    )

pub remove_this_room : GroupRoom → GroupRoom
remove_this_room room = record room { can_be_used = false }
