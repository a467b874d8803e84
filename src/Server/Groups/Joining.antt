-- ===== src/Server/Groups/Joining.antt =====
-- server/user/user.cpp and server/manager/verificationManager.cpp: what `acceptGroup` brings about when
-- the administrator of a room accepts an application.
use qchat_server.Base.{
  ℕ, ◌≡◌, ◌≢◌, refl, sym, ap, ◌∙◌, Bool, true, false, not, ◌++◌, ◌==◌, none, some, is_some, ok,
  arith, Action, ◌>>=◌, ◌>>◌, pure, bind_runs,
}
use qchat_server.Base.Dict.{
  Dict, id_key, lookup, insert, erase, lookup-insert_self, lookup-insert_other, lookup-erase_self,
}
use qchat_server.Room.Tcp.{Notice}
use qchat_server.Room.Group.{GroupRoom, add_member, has_member}
use qchat_server.Server.User.{
  User, GroupVerification, insert_group, user_has_group, remove_group_verification,
}
use qchat_server.Server.State.{
  Server, apply_to, application_key, names_of, with_user, update_user, send_json_to_user, writes,
}
use qchat_server.Server.State.Runs.{
  update_user_runs, send_json_to_user_runs, with_user_runs, with_group_room_runs,
}
use qchat_server.Server.Manager.{has_group_room}
use qchat_server.Server.Verification.{
  administrator_of, mark_group_application, add_member_of, erase_group_application,
  remove_group_room_verification, accept_group_room, has_group_room_verification,
}
use qchat_server.Server.Groups.Listed.{IsFrom, is_listed, unlisted, removes_listed}
use qchat_server.Server.Groups.Entering.{Joined, add_member-Joined, administrator_runs}
use qchat_server.Server.Groups.{has_member_of, refuse_if, may_decide, accept_group}

-- `userHasGroup` of the user.
abbrev pub is_in_group : ℕ → ℕ → Server → Bool
is_in_group group user s = elim (lookup user s.users) [
  | none ↦ false
  | some u ↦ user_has_group group u
]

module _ (self user group : ℕ) (s : Server) {room : GroupRoom} {mine theirs : User} {flag : Bool}
    (different : self ≢ user) (there : lookup group s.group_rooms ≡ some room)
    (usable : room.can_be_used ≡ true) (administrates : room.administrator ≡ self)
    (outsider : lookup user room.users ≡ none) (self_there : lookup self s.users ≡ some mine)
    (user_there : lookup user s.users ≡ some theirs)
    (applied : lookup (apply_to user group) s.group_applications ≡ some flag)
    (mine_ordered : IsFrom 0 mine.group_verifications)
    (mine_listed : is_listed group user mine.group_verifications ≡ true)
    (theirs_ordered : IsFrom 0 theirs.group_verifications)
    (theirs_listed : is_listed group user theirs.group_verifications ≡ true) where
  mine_left : Dict ℕ GroupVerification
  mine_left = unlisted group user mine.group_verifications

  theirs_left : Dict ℕ GroupVerification
  theirs_left = unlisted group user theirs.group_verifications

  differs : user ≢ self
  differs e = different (sym e)

  -- The states that the call goes through.
  s₀ : Server
  s₀ = record s { group_rooms = insert group room s.group_rooms }

  s₁ : Server
  unfolding s₀
  s₁ = record s₀ { group_applications = insert (apply_to user group) true s₀.group_applications }

  entered : GroupRoom
  entered = (add_member (names_of s₁) user room).1

  s₂ : Server
  unfolding s₁
  s₂ = record s₁ { group_rooms = insert group entered s₁.group_rooms }

  member : User
  unfolding insert_group
  member = insert_group group theirs

  s₃ : Server
  unfolding s₂
  s₃ = record s₂ { users = insert user member s₂.users }

  s₄ : Server
  unfolding s₃
  s₄ = record s₃ { group_applications = erase (apply_to user group) s₃.group_applications }

  s₅ : Server
  unfolding s₄
  s₅ = record s₄ { users = insert self (record mine { group_verifications = mine_left }) s₄.users }

  joined_user : User
  unfolding member
  joined_user = record member { group_verifications = theirs_left }

  s₆ : Server
  unfolding s₅
  s₆ = record s₅ { users = insert user joined_user s₅.users }

  s₇ : Server
  unfolding s₆
  s₇ = record s₆ {
    written = s₆.written ++ writes (Notice.added_group group) joined_user.connections;
  }

  joins : Joined user room (add_member (names_of s₁) user room)
  unfolding names_of s₀ s₁
  joins =
      add_member-Joined (names_of s₁) user room {name = theirs.user_name} usable
        (rw user_there refl) outsider

  -- What each call finds.
  room₀ : lookup group s₀.group_rooms ≡ some room
  unfolding s₀
  room₀ = lookup-insert_self group room s.group_rooms

  room₂ : lookup group s₂.group_rooms ≡ some entered
  unfolding s₀ s₁ s₂
  room₂ = lookup-insert_self group entered s₀.group_rooms

  self₄ : lookup self s₄.users ≡ some mine
  unfolding s₀ s₁ s₂ s₃ s₄
  self₄ = lookup-insert_other self user member s.users differs ∙ self_there

  user₃ : lookup user s₃.users ≡ some member
  unfolding s₀ s₁ s₂ s₃
  user₃ = lookup-insert_self user member s.users

  user₅ : lookup user s₅.users ≡ some member
  unfolding s₄ s₅
  user₅ =
      lookup-insert_other user self (record mine { group_verifications = mine_left }) s₄.users
        different
      ∙ user₃

  is_outsider : has_member user room ≡ ok false
  unfolding has_member
  is_outsider = rw usable (rw outsider refl)

  decides : may_decide self group user s ≡ (ok true, s₀)
  unfolding may_decide has_group_room has_member_of s₀
  decides = rw there (
      bind_runs (has_member_of group user)
        (λ is_member.
          refuse_if is_member (administrator_of group >>= λ admin. pure (self == admin)))
        (with_group_room_runs group (λ r. (has_member user r, r)) s there
          (ap (λ r. (r, room)) is_outsider))
      ∙ bind_runs (administrator_of group) (λ admin. pure (self == admin))
          (administrator_runs self group s₀ room₀ usable administrates)
      ∙ same)
    where
      same : pure (self == self) s₀ ≡ (ok true, s₀)
      same = ground arith

  marked : mark_group_application user group s₀ ≡ (ok tt, s₁)
  unfolding mark_group_application s₀ s₁
  marked = rw (applied, mark_group_application) refl

  added : add_member_of group user s₁ ≡ (ok true, s₂)
  unfolding add_member_of s₀ s₁ s₂ entered
  added =
      with_group_room_runs group (add_member (names_of s₁) user) s₁ room₀
        (ap (λ r. (r, (add_member (names_of s₁) user room).1)) joins.returned)

  erased : erase_group_application user group s₃ ≡ (ok tt, s₄)
  unfolding erase_group_application s₀ s₁ s₂ s₃ s₄
  erased =
      rw
        (
          lookup-insert_self (apply_to user group) true s.group_applications,
          erase_group_application,
        )
        refl

  removed : remove_group_room_verification user group s₃ ≡ (ok tt, s₆)
  unfolding remove_group_room_verification remove_group_verification mine_left theirs_left s₀ s₁ s₂
      s₃ s₄ s₅ s₆ member joined_user entered
  removed =
      bind_runs (erase_group_application user group)
        (λ _. administrator_of group >>= λ admin.
          with_user admin (remove_group_verification group user)
          >> with_user user (remove_group_verification group user))
        erased
      ∙ bind_runs (administrator_of group)
          (λ admin.
            with_user admin (remove_group_verification group user)
            >> with_user user (remove_group_verification group user))
          (administrator_runs self group s₄ room₂ (joins.usable ∙ usable)
            (joins.administrator ∙ administrates))
      ∙ bind_runs (with_user self (remove_group_verification group user))
          (λ _. with_user user (remove_group_verification group user))
          (with_user_runs self (remove_group_verification group user) s₄ self₄ (
            rw
              (
                removes_listed group user 0 mine.group_verifications mine_ordered mine_listed,
                remove_group_verification,
              )
              refl))
      ∙ with_user_runs user (remove_group_verification group user) s₅ user₅ (
          rw
            (
              removes_listed group user 0 theirs.group_verifications theirs_ordered theirs_listed,
              remove_group_verification,
            )
            refl)

  accepts : accept_group_room user group s₀ ≡ (ok tt, s₆)
  unfolding accept_group_room s₀ s₁ s₂ s₃ member
  accepts =
      bind_runs (mark_group_application user group)
        (λ _. add_member_of group user >>= λ _.
          update_user user (insert_group group) >>= λ _. remove_group_room_verification user group)
        marked
      ∙ bind_runs (add_member_of group user)
          (λ _. update_user user (insert_group group) >>= λ _.
            remove_group_room_verification user group)
          added
      ∙ bind_runs (update_user user (insert_group group))
          (λ _. remove_group_room_verification user group)
          (update_user_runs user (insert_group group) s₂ user_there)
      ∙ removed

  user₆ : lookup user s₆.users ≡ some joined_user
  unfolding s₆
  user₆ = lookup-insert_self user joined_user s₅.users

  accept_group_runs : accept_group self group user s ≡ (ok true, s₇)
  unfolding accept_group s₇
  accept_group_runs =
      bind_runs (may_decide self group user)
        (λ allowed. refuse_if (not allowed) (accepting >>= λ _. telling >>= λ _. pure true)) decides
      ∙ bind_runs accepting (λ _. telling >>= λ _. pure true) accepts
      ∙ bind_runs telling (λ _. pure true)
          (send_json_to_user_runs user (Notice.added_group group) s₆ user₆)
    where
      accepting : Action Server (Unit {0})
      accepting = accept_group_room user group

      telling : Action Server (Unit {0})
      telling = send_json_to_user user (Notice.added_group group)

  -- The administrator of a usable room accepts the application of another user, who is no member. The
  -- application is there, also in the lists of both users, which are in the order of their keys. Then
  -- the call returns true, the user is a member of the room and has the group, the room keeps its
  -- administrator, and the application is gone: the server has it no more, and each of the two lists
  -- is the one of before without it.
  pub accept_group_lem :
      let (r, t) = accept_group self group user s in
      (r ≡ ok true)
      × ((after : GroupRoom) × (lookup group t.group_rooms ≡ some after)
          × (has_member user after ≡ ok true)
          × (after.administrator ≡ self))
      × (is_in_group group user t ≡ true)
      × (has_group_room_verification user group t ≡ false)
      × ((admin : User) × (lookup self t.users ≡ some admin)
          × (admin.group_verifications ≡ unlisted group user mine.group_verifications))
      × ((applicant : User) × (lookup user t.users ≡ some applicant)
          × (applicant.group_verifications ≡ unlisted group user theirs.group_verifications))
  unfolding has_member has_group_room_verification user_has_group s₀ s₁ s₂ s₃ s₄ s₅ s₆ s₇ entered
      member joined_user mine_left theirs_left
  accept_group_lem = rw accept_group_runs (
    refl,
    (
      entered,
      room₂,
      rw (joins.usable, usable) (ap ok joins.member),
      joins.administrator ∙ administrates,
    ),
    rw (user₆, is_in_group) (ap is_some (lookup-insert_self group tt theirs.groups)),
    ap is_some (lookup-erase_self (apply_to user group) s₃.group_applications),
    (
      record mine { group_verifications = mine_left },
      lookup-insert_other self user joined_user s₅.users differs
          ∙ lookup-insert_self self (record mine { group_verifications = mine_left }) s₄.users,
      refl,
    ),
    (joined_user, user₆, refl),
  )
