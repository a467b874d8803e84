-- ===== src/Server/Groups/Leaving.antt =====
-- server/user/user.cpp: what `leaveGroup` brings about when the administrator calls it.
use qchat_server.Base.{
  ℕ, ◌≡◌, refl, ◌∙◌, Bool, true, false, not, ◌==◌, some, ok, arith, Action, ◌>>=◌, ◌>>◌, bind_runs,
  pure,
}
use qchat_server.Base.Dict.{id_key, lookup, insert, erase, lookup-insert_self, lookup-erase_self}
use qchat_server.Room.Tcp.{Notice, leave_room}
use qchat_server.Room.Group.{GroupRoom, remove_member, has_member}
use qchat_server.Server.State.{Server, with_group_room}
use qchat_server.Server.Manager.{has_group_room}
use qchat_server.Server.Verification.{administrator_of}
use qchat_server.Server.Groups.{leave_group, refuse_if, notify_members}

module _ (self group : ℕ) (s : Server) {room : GroupRoom}
    (there : lookup group s.group_rooms ≡ some room) (usable : room.can_be_used ≡ true)
    (administrates : room.administrator ≡ self) where
  left : GroupRoom
  left = record room { users = erase self room.users; tcp = leave_room self room.tcp }

  s' : Server
  s' = record s { group_rooms = insert group left s.group_rooms }

  left_there : lookup group s'.group_rooms ≡ some left
  unfolding s'
  left_there = lookup-insert_self group left s.group_rooms

  removal_runs : with_group_room group (remove_member self) s ≡ (ok true, s')
  unfolding with_group_room remove_member left s'
  removal_runs = rw (there, with_group_room) (rw (usable, remove_member) refl)

  administrator_runs : administrator_of group s' ≡ (ok self, s')
  unfolding administrator_of left
  administrator_runs = rw (left_there, administrator_of) (rw (usable, administrates) refl)

  leave_group_runs : leave_group self group s ≡ (ok false, s')
  unfolding leave_group has_group_room
  leave_group_runs = rw there (
      bind_runs (with_group_room group (remove_member self)) after removal_runs
      ∙ bind_runs (administrator_of group) decide administrator_runs
      ∙ rw same refl)
    where
      same : (self == self) ≡ true
      same = ground arith

      decide : ℕ → Action Server Bool
      decide admin =
          refuse_if (admin == self)
            (do notify_members group admin (Notice.group_leave_member self group); pure true)

      after : Bool → Action Server Bool
      after removed = refuse_if (not removed) (administrator_of group >>= decide)

  -- When the administrator leaves a room, `leaveGroup` returns false, and yet the administrator is
  -- a member no more: the room's administrator is then a user whom it does not have.
  pub administrator_leaves :
      let (r, t) = leave_group self group s in
      (r ≡ ok false)
      × ((after : GroupRoom) × (lookup group t.group_rooms ≡ some after)
          × (after.administrator ≡ self)
          × (has_member self after ≡ ok false))
  unfolding left has_member
  administrator_leaves =
      rw leave_group_runs (
        refl,
        (left, left_there, administrates, rw (usable, lookup-erase_self self room.users) refl),
      )
