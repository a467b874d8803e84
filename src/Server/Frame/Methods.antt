-- ===== src/Server/Frame/Methods.antt =====
-- server/user/user.cpp: what the methods on friends and groups leave alone.
use qchat_server.Base.{
  ℕ, Bool, true, false, not, ◌||◌, ◌==◌, Result, ok, err, Action, ◌>>◌, pure, [], ◌∷◌, inl, inr,
  Option-cases, Errc, system_error,
}
use qchat_server.Base.Dict.{Dict, id_key, lookup}
use qchat_server.Room.Tcp.{Notice}
use qchat_server.Room.Group.{UserData, remove_member}
use qchat_server.Server.State.{Server, send_json_to_user}
use qchat_server.Server.Manager.{
  has_user, has_private_room_between, has_group_room, remove_group_room,
}
use qchat_server.Server.Verification.{
  has_friend_room_verification, has_group_room_verification, reject_group_room,
}
use qchat_server.Server.Friends.{
  add_friend, accept_friend, reject_friend, remove_friend, has_application_from, is_friend,
}
use qchat_server.Server.Groups.{
  has_member_of, send_json_to_members, notify_members, refuse_if, add_group, create_group,
  may_decide, accept_group, reject_group, try_remove_group_room, remove_group, leave_group,
}
use qchat_server.Server.Frame.{
  Frames, Keeps, stays, bind-Keeps, if-Frames, pure-Keeps, guard-Keeps, reader-Keeps, refuse-Keeps,
  update_user-Keeps, with_group_room-Keeps, send_json_to_user-Keeps,
}
use qchat_server.Server.Frame.Calls.{
  erase_friend-same, insert_group-same, add_group_room-Keeps, remove_group_room-Keeps,
  administrator_of-Keeps, apply_friend_room_verification-Keeps, accept_friend_verification-Keeps,
  reject_friend_verification-Keeps, apply_group_room_verification-Keeps,
  remove_group_room_verification-Keeps, accept_group_room-Keeps,
}

-- `self` and the friend.
module _ (self friend : ℕ) where
  -- A call, a notice to the friend and true.
  with_notice :
      {A : Type 0} {m : Action Server A}
      → Keeps m
      → (n : Notice) → Keeps (m >> send_json_to_user friend n >> pure true)
  with_notice h n =
      bind-Keeps (bind-Keeps h λ _. send_json_to_user-Keeps friend n) λ _. pure-Keeps true

  pub add_friend-Keeps : Keeps (add_friend self friend)
  unfolding add_friend
  add_friend-Keeps =
      guard-Keeps (λ s. self == friend || not (has_user friend s)) _
        (guard-Keeps (has_private_room_between self friend) _ (
          guard-Keeps (has_friend_room_verification self friend) _
            (with_notice (apply_friend_room_verification-Keeps self friend) _)))

  pub accept_friend-Keeps : Keeps (accept_friend self friend)
  unfolding accept_friend
  accept_friend-Keeps =
      guard-Keeps (λ s. not (has_application_from friend self s)) _
        (with_notice (accept_friend_verification-Keeps friend self) _)

  pub reject_friend-Keeps : Keeps (reject_friend self friend)
  unfolding reject_friend
  reject_friend-Keeps =
      guard-Keeps (λ s. not (has_application_from friend self s)) _
        (with_notice (reject_friend_verification-Keeps friend self) _)

  pub remove_friend-Keeps : Keeps (remove_friend self friend)
  unfolding remove_friend
  remove_friend-Keeps =
      guard-Keeps (λ s. self == friend || not (has_user friend s)) _
        (guard-Keeps (λ s. not (is_friend friend self s)) _
          (with_notice
            (bind-Keeps (update_user-Keeps self _ (erase_friend-same friend))
              λ _. update_user-Keeps friend _ (erase_friend-same friend))
            _))

has_member_of-Keeps : (group user : ℕ) → Keeps (has_member_of group user)
unfolding has_member_of
has_member_of-Keeps group user = with_group_room-Keeps group _

send_json_to_members-Keeps :
    (users : Dict ℕ UserData) (n : Notice) → Keeps (send_json_to_members users n)
unfolding send_json_to_members
send_json_to_members-Keeps [] n = pure-Keeps tt
send_json_to_members-Keeps ((user, _) ∷ users) n =
    bind-Keeps (send_json_to_user-Keeps user n) λ _. send_json_to_members-Keeps users n

notify_members-Keeps : (group first : ℕ) (n : Notice) → Keeps (notify_members group first n)
unfolding notify_members
notify_members-Keeps group first n = record {
  run = λ s. elim (Option-cases (lookup group s.group_rooms)) [
    | inl missing ↦
        rw (missing, notify_members) (stays (err (system_error Errc.group_room_not_existed)))
    | inr (room, found) ↦
        rw (found, notify_members)
          (if-Frames (not room.can_be_used) (stays _) (
            (bind-Keeps (send_json_to_user-Keeps first n)
                λ _. send_json_to_members-Keeps room.users n).run
              s))
  ];
}

pub add_group-Keeps : (self group : ℕ) → Keeps (add_group self group)
unfolding add_group
add_group-Keeps self group =
    reader-Keeps (λ s. refuse_if (not (has_group_room group s)) _)
      λ s. refuse-Keeps (not (has_group_room group s)) (
        bind-Keeps (has_member_of-Keeps group self) λ is_member. refuse-Keeps is_member (
          reader-Keeps (λ s'. refuse_if (has_group_room_verification self group s') _)
            λ s'. refuse-Keeps (has_group_room_verification self group s') (
              bind-Keeps (apply_group_room_verification-Keeps self group) λ _.
                bind-Keeps (administrator_of-Keeps group)
                  λ admin. bind-Keeps (send_json_to_user-Keeps admin _) λ _. pure-Keeps true)))

pub create_group-Keeps : (self : ℕ) → Keeps (create_group self)
unfolding create_group
create_group-Keeps self =
    bind-Keeps (add_group_room-Keeps self)
      λ group. bind-Keeps (update_user-Keeps self _ (insert_group-same group)) λ _. pure-Keeps group

may_decide-Keeps : (self group user : ℕ) → Keeps (may_decide self group user)
unfolding may_decide
may_decide-Keeps self group user =
    reader-Keeps (λ s. refuse_if (not (has_group_room group s)) _)
      λ s. refuse-Keeps (not (has_group_room group s)) (
        bind-Keeps (has_member_of-Keeps group user) λ is_member.
          refuse-Keeps is_member
            (bind-Keeps (administrator_of-Keeps group) λ admin. pure-Keeps (self == admin)))

pub accept_group-Keeps : (self group user : ℕ) → Keeps (accept_group self group user)
unfolding accept_group
accept_group-Keeps self group user = bind-Keeps (may_decide-Keeps self group user) λ allowed.
    refuse-Keeps (not allowed) (
      bind-Keeps (accept_group_room-Keeps user group)
        λ _. bind-Keeps (send_json_to_user-Keeps user _) λ _. pure-Keeps true)

pub reject_group-Keeps : (self group user : ℕ) → Keeps (reject_group self group user)
unfolding reject_group reject_group_room
reject_group-Keeps self group user = bind-Keeps (may_decide-Keeps self group user) λ allowed.
    refuse-Keeps (not allowed) (
      reader-Keeps (λ s. refuse_if (not (has_group_room_verification user group s)) _)
        λ s. refuse-Keeps (not (has_group_room_verification user group s)) (
          bind-Keeps (remove_group_room_verification-Keeps user group)
            λ _. bind-Keeps (send_json_to_user-Keeps user _) λ _. pure-Keeps true))

try_remove_group_room-Keeps : (group : ℕ) → Keeps (try_remove_group_room group)
unfolding try_remove_group_room
try_remove_group_room-Keeps group = record {
  run = λ s. after s (remove_group_room group s) ((remove_group_room-Keeps group).run s);
}
  where
    after :
        (s : Server) (p : Result (Unit {0}) × Server)
        → Frames s p
        → Frames s (
            let (r, s') = p in
            let q : Result Bool × Server = elim r [
              | err _ ↦ (ok false, s')
              | ok _ ↦ (ok true, s')
            ] in
            q)
    after s (ok _, t) f = record { frame = f.frame }
    after s (err _, t) f = record { frame = f.frame }

pub remove_group-Keeps : (self group : ℕ) → Keeps (remove_group self group)
unfolding remove_group
remove_group-Keeps self group =
    reader-Keeps (λ s. refuse_if (not (has_group_room group s)) _)
      λ s. refuse-Keeps (not (has_group_room group s)) (
        bind-Keeps (administrator_of-Keeps group) λ admin.
          refuse-Keeps (not (self == admin))
            (bind-Keeps (notify_members-Keeps group self _) λ _. try_remove_group_room-Keeps group))

pub leave_group-Keeps : (self group : ℕ) → Keeps (leave_group self group)
unfolding leave_group
leave_group-Keeps self group =
    reader-Keeps (λ s. refuse_if (not (has_group_room group s)) _)
      λ s. refuse-Keeps (not (has_group_room group s)) (
        bind-Keeps (with_group_room-Keeps group (remove_member self)) λ removed.
          refuse-Keeps (not removed) (
            bind-Keeps (administrator_of-Keeps group) λ admin.
              refuse-Keeps (admin == self)
                (bind-Keeps (notify_members-Keeps group admin _) λ _. pure-Keeps true)))
