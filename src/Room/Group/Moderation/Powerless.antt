-- ===== src/Room/Group/Moderation/Powerless.antt =====
-- server/room/groupRoom/groupRoom.cpp: moderation in a room whose permissions nobody has set. The
-- constructor sets none, and of the methods of a room only `setAdministrator` gives the first.
use qchat_server.Base.{ℕ, ◌≡◌, refl, Bool, arith, Result, err, Failure, Errc, system_error}
use qchat_server.Base.Dict.{id_key, lookup}
use qchat_server.Room.Permission.{PermissionType, no_permissions, get_user_permission_type}
use qchat_server.Room.Group.{GroupRoom, has_user}
use qchat_server.Room.Group.Moderation.{
  are_not_two_members, outranks, may_change, mute_user, unmute_user, kick_user, add_operator,
  remove_operator,
}
use qchat_server.Room.Group.Moderation.Authority.{AreMembers}

outranks_throws :
    (e u : ℕ) (room : GroupRoom)
    → AreMembers e u room
    → room.permission ≡ no_permissions
    → outranks e u room ≡ err (system_error Errc.user_not_existed)
unfolding outranks are_not_two_members has_user get_user_permission_type no_permissions lookup
outranks_throws e u room m p = ground (arith, m.distinct, m.usable, m.executor_in, m.user_in)

may_change_throws :
    (from : PermissionType) (e u : ℕ) (room : GroupRoom)
    → AreMembers e u room
    → room.permission ≡ no_permissions
    → may_change from e u room ≡ err (system_error Errc.user_not_existed)
unfolding may_change are_not_two_members has_user get_user_permission_type no_permissions lookup
may_change_throws from e u room m p = ground (arith, m.distinct, m.usable, m.executor_in, m.user_in)

-- A method that throws `user_not_existed` and leaves the room as it is.
abbrev pub Throws : GroupRoom → Result Bool × GroupRoom → Type 0
Throws room result = result ≡ (err (system_error Errc.user_not_existed), room)

-- Between two members of a room in which no permission is set, whoever they are, the administrator
-- too, all of muting, unmuting, kicking and making and removing operators throw `user_not_existed`
-- and change nothing.
pub moderation-Throws :
    (relocked : Failure) (e u mins now later : ℕ) (room : GroupRoom)
    → AreMembers e u room
    → room.permission ≡ no_permissions
    → Throws room (mute_user relocked e u mins now later room)
      × Throws room (unmute_user relocked e u now later room)
      × Throws room (kick_user relocked e u now later room)
      × Throws room (add_operator e u now later room)
      × Throws room (remove_operator e u now later room)
unfolding mute_user unmute_user kick_user add_operator remove_operator
moderation-Throws relocked e u mins now later room m p = (
  rw (outranks_throws e u room m p) refl,
  rw (outranks_throws e u room m p) refl,
  rw (outranks_throws e u room m p) refl,
  rw (may_change_throws PermissionType.default e u room m p) refl,
  rw (may_change_throws PermissionType.operator e u room m p) refl,
)
