-- ===== src/Server/Groups.antt =====
-- server/user/user.cpp: the groups of a user, `self`.
pub mod Entering
pub mod Listed
pub mod Joining
pub mod Leaving
use qchat_server.Base.{
  ℕ, Bool, true, false, not, [], ◌∷◌, ◌==◌, if◌then◌else◌, none, some, ok, err, Action, ◌>>=◌, ◌>>◌,
  pure, Errc, system_error,
}
use qchat_server.Base.Dict.{Dict, id_key, lookup}
use qchat_server.Room.Tcp.{Notice}
use qchat_server.Room.Group.{UserData, has_member, remove_member}
use qchat_server.Server.User.{insert_group}
use qchat_server.Server.State.{Server, update_user, with_group_room, send_json_to_user}
use qchat_server.Server.Manager.{has_group_room, add_group_room, remove_group_room}
use qchat_server.Server.Verification.{
  administrator_of, apply_group_room_verification, has_group_room_verification, accept_group_room,
  reject_group_room,
}

-- `serverManager.getGroupRoom(group)->hasMember(user)`.
unfoldable pub has_member_of : ℕ → ℕ → Action Server Bool
has_member_of group user = with_group_room group (λ room. (has_member user room, room))

-- `sendJsonToUser` for every user of the room's map.
unfoldable pub send_json_to_members : Dict ℕ UserData → Notice → Action Server (Unit {0})
send_json_to_members [] notice = pure tt
send_json_to_members ((user, _) ∷ users) notice =
    send_json_to_user user notice >> send_json_to_members users notice

-- `getUserList` with a callback that sends to `first` and to all.
unfoldable pub notify_members : ℕ → ℕ → Notice → Action Server (Unit {0})
notify_members group first notice s = elim (lookup group s.group_rooms) [
  | none ↦ (err (system_error Errc.group_room_not_existed), s)
  | some room ↦
      if not room.can_be_used
      then (err (system_error Errc.group_room_unable_to_use), s)
      else (send_json_to_user first notice >> send_json_to_members room.users notice) s
]

-- `if (refused) { return false; }`.
abbrev pub refuse_if : Bool → Action Server Bool → Action Server Bool
refuse_if true go s = (ok false, s)
refuse_if false go s = go s

unfoldable pub add_group : ℕ → ℕ → Action Server Bool
add_group self group s =
    refuse_if (not (has_group_room group s))
      (do
        is_member ← has_member_of group self
        refuse_if is_member λ s'.
            refuse_if (has_group_room_verification self group s')
              (do
                apply_group_room_verification self group
                admin ← administrator_of group
                send_json_to_user admin (Notice.added_group_verification group self)
                pure true)
              s')
      s

unfoldable pub create_group : ℕ → Action Server ℕ
create_group self = do
  group ← add_group_room self
  update_user self (insert_group group)
  pure group

-- The test with which `acceptGroup` and `rejectGroup` begin: a room, in which the user is no member
-- and of which `self` is the administrator.
unfoldable pub may_decide : ℕ → ℕ → ℕ → Action Server Bool
may_decide self group user s =
    refuse_if (not (has_group_room group s))
      (do
        is_member ← has_member_of group user
        refuse_if is_member (do admin ← administrator_of group; pure (self == admin)))
      s

unfoldable pub accept_group : ℕ → ℕ → ℕ → Action Server Bool
accept_group self group user = do
  allowed ← may_decide self group user
  refuse_if (not allowed) (do
    accept_group_room user group
    send_json_to_user user (Notice.added_group group)
    pure true)

unfoldable pub reject_group : ℕ → ℕ → ℕ → Action Server Bool
reject_group self group user = do
  allowed ← may_decide self group user
  refuse_if (not allowed) λ s.
      refuse_if (not (has_group_room_verification user group s))
        (do
          reject_group_room user group
          send_json_to_user user (Notice.rejected_to_add_group group)
          pure true)
        s

-- An exception of `removeGroupRoom` is caught.
unfoldable pub try_remove_group_room : ℕ → Action Server Bool
try_remove_group_room group s =
    let (r, s') = remove_group_room group s in
    elim r [ err _ ↦ (ok false, s') | ok _ ↦ (ok true, s') ]

unfoldable pub remove_group : ℕ → ℕ → Action Server Bool
remove_group self group s =
    refuse_if (not (has_group_room group s))
      (do
        admin ← administrator_of group
        refuse_if (not (self == admin)) (do
          notify_members group self (Notice.group_removed group)
          try_remove_group_room group))
      s

-- The member is removed before the administrator is asked for.
unfoldable pub leave_group : ℕ → ℕ → Action Server Bool
leave_group self group s =
    refuse_if (not (has_group_room group s))
      (do
        removed ← with_group_room group (remove_member self)
        refuse_if (not removed) (do
          admin ← administrator_of group
          refuse_if (admin == self)
              (do notify_members group admin (Notice.group_leave_member self group); pure true)))
      s
