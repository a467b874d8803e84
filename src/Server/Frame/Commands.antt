-- ===== src/Server/Frame/Commands.antt =====
-- server/jsonMessageProcess/JsonMsgProcessCommand.cpp: what the commands leave alone.
use Prim.Native.String.{String}
use qchat_server.Base.{
  ℕ, ◌≡◌, ◌≢◌, refl, not, Result, ok, err, Action, ◌>>=◌, ◌>>◌, pure, List, [], ◌∷◌, ◌++◌, inl, inr,
  Option-cases, Errc, system_error, logic_error, runtime_error, resource_deadlock, never_ends,
  undefined_behaviour,
}
use qchat_server.Base.Dict.{id_key, lookup}
use qchat_server.Room.Tcp.{Notice}
use qchat_server.Server.User.{user_has_friend, user_has_group}
use qchat_server.Server.State.{Server, writes}
use qchat_server.Server.Manager.{has_user, get_user, has_group_room, get_private_room_id}
use qchat_server.Server.Json.{JsonLibrary, Reply}
use qchat_server.Server.Commands.{Command}
use qchat_server.Server.Commands.Execute.{
  Surroundings, found_user, deliver, send_to_group, send_to_private, or_reply, when_user,
  when_group, has_user_command, search_user, add_friend, accept_friend, reject_friend,
  get_friend_list, get_friend_verification_list, remove_friend, add_group, accept_group,
  reject_group, get_group_list, get_group_verification_list, send_friend_message,
  send_group_message, create_group, remove_group, leave_group, int_of, string_of, execute,
  invalid_user, invalid_group,
}
use qchat_server.Server.Frame.{
  Frames, Keeps, same_users, stays, bind-Keeps, if-Keeps, if-Frames, pure-Keeps,
}
use qchat_server.Server.Frame.Methods

-- A call that reads alone.
read-Keeps : {A : Type 0} (r : Server → Result A) → Keeps (λ s. (r s, s))
read-Keeps r = record { run = λ s. stays (r s) }

found_user-Keeps : (u : ℕ) → Keeps (found_user u)
unfolding found_user
found_user-Keeps u = read-Keeps (get_user u)

when_user-Keeps : (u : ℕ) {m : Action Server Reply} → Keeps m → Keeps (when_user u m)
when_user-Keeps u h = record {
  run = λ s. if-Frames (has_user u s) (h.run s) (stays (ok invalid_user));
}

when_group-Keeps : (g : ℕ) {m : Action Server Reply} → Keeps m → Keeps (when_group g m)
when_group-Keeps g h = record {
  run = λ s. if-Frames (has_group_room g s) (h.run s) (stays (ok invalid_group));
}

deliver_same :
    (copies : List (ℕ × Notice)) (s : Server)
    → ((deliver copies s).connections ≡ s.connections)
      × ((deliver copies s).users ≡ s.users)
      × ((deliver copies s).new_user_id ≡ s.new_user_id)
unfolding deliver
deliver_same [] s = (refl, refl, refl)
deliver_same ((user, notice) ∷ rest) s = elim (Option-cases (lookup user s.users)) [
  | inl missing ↦ rw (missing, deliver) (deliver_same rest s)
  | inr (u, found) ↦
      rw (found, deliver)
        (deliver_same rest (record s { written = s.written ++ writes notice u.connections }))
]

send_to_group-Keeps :
    (g u : ℕ) (text : String) (now later : ℕ) → Keeps (send_to_group g u text now later)
unfolding send_to_group
send_to_group-Keeps g u text now later = record {
  run = λ s. elim (Option-cases (lookup g s.group_rooms)) [
    | inl missing ↦
        rw (missing, send_to_group) (stays (err (system_error Errc.group_room_not_existed)))
    | inr (room, found) ↦
        let (c, d, n) = deliver_same _ _ in
        rw (found, send_to_group) (record { frame = same_users s _ c d n })
  ];
}

send_to_private-Keeps : (id u : ℕ) (text : String) (now : ℕ) → Keeps (send_to_private id u text now)
unfolding send_to_private
send_to_private-Keeps id u text now = record {
  run = λ s. elim (Option-cases (lookup id s.private_rooms)) [
    | inl missing ↦
        rw (missing, send_to_private) (stays (err (system_error Errc.private_room_not_existed)))
    | inr (room, found) ↦
        let (c, d, n) = deliver_same _ _ in
        rw (found, send_to_private) (record { frame = same_users s _ c d n })
  ];
}

-- A method of the executor, and a reply to what it returns.
replying :
    {A : Type 0} (u : ℕ) {m : Action Server A} (reply : A → Reply)
    → Keeps m
    → Keeps (found_user u >> (m >>= λ done. pure (reply done)))
replying u reply h =
    bind-Keeps (found_user-Keeps u) λ _. bind-Keeps h λ done. pure-Keeps (reply done)

module _ (self : ℕ) where
  add_friend-Keeps : (user : ℕ) → Keeps (add_friend self user)
  unfolding add_friend
  add_friend-Keeps user =
      when_user-Keeps user (replying self _ (Methods.add_friend-Keeps self user))

  accept_friend-Keeps : (user : ℕ) → Keeps (accept_friend self user)
  unfolding accept_friend
  accept_friend-Keeps user =
      when_user-Keeps user (replying self _ (Methods.accept_friend-Keeps self user))

  reject_friend-Keeps : (user : ℕ) → Keeps (reject_friend self user)
  unfolding reject_friend
  reject_friend-Keeps user =
      when_user-Keeps user (replying self _ (Methods.reject_friend-Keeps self user))

  remove_friend-Keeps : (user : ℕ) → Keeps (remove_friend self user)
  unfolding remove_friend
  remove_friend-Keeps user =
      when_user-Keeps user (replying self _ (Methods.remove_friend-Keeps self user))

  add_group-Keeps : (group : ℕ) → Keeps (add_group self group)
  unfolding add_group
  add_group-Keeps group =
      when_group-Keeps group (replying self _ (Methods.add_group-Keeps self group))

  accept_group-Keeps : (group user : ℕ) → Keeps (accept_group self group user)
  unfolding accept_group
  accept_group-Keeps group user = replying self _ (Methods.accept_group-Keeps self group user)

  reject_group-Keeps : (group user : ℕ) → Keeps (reject_group self group user)
  unfolding reject_group
  reject_group-Keeps group user = replying self _ (Methods.reject_group-Keeps self group user)

  remove_group-Keeps : (group : ℕ) → Keeps (remove_group self group)
  unfolding remove_group
  remove_group-Keeps group = replying self _ (Methods.remove_group-Keeps self group)

  leave_group-Keeps : (group : ℕ) → Keeps (leave_group self group)
  unfolding leave_group
  leave_group-Keeps group = replying self _ (Methods.leave_group-Keeps self group)

  create_group-Keeps : Keeps (create_group self)
  unfolding create_group or_reply
  create_group-Keeps = record {
    run = λ s. after s _ ((replying self _ (Methods.create_group-Keeps self)).run s);
  }
    where
      after :
          (s : Server) (p : Result Reply × Server)
          → Frames s p
          → Frames s (or_reply "Failed to create a group!" p)
      after s (ok r, t) f = f
      after s (err (system_error x), t) f = record { frame = f.frame }
      after s (err logic_error, t) f = record { frame = f.frame }
      after s (err runtime_error, t) f = record { frame = f.frame }
      after s (err resource_deadlock, t) f = record { frame = f.frame }
      after s (err never_ends, t) f = f
      after s (err undefined_behaviour, t) f = f

  send_friend_message-Keeps :
      (user : ℕ) (text : String) (now : ℕ) → Keeps (send_friend_message self user text now)
  unfolding send_friend_message
  send_friend_message-Keeps user text now = when_user-Keeps user (
      bind-Keeps (found_user-Keeps self) λ u.
        if-Keeps (not (user_has_friend user u)) (pure-Keeps _) (
          bind-Keeps (read-Keeps (get_private_room_id self user))
            λ id. bind-Keeps (send_to_private-Keeps id self text now) λ _. pure-Keeps _))

  send_group_message-Keeps :
      (group : ℕ) (text : String) (now later : ℕ)
      → Keeps (send_group_message self group text now later)
  unfolding send_group_message
  send_group_message-Keeps group text now later = when_group-Keeps group (
      bind-Keeps (found_user-Keeps self) λ u.
        if-Keeps (not (user_has_group group u)) (pure-Keeps _)
          (bind-Keeps (send_to_group-Keeps group self text now later) λ _. pure-Keeps _))

has_user_command-Keeps : (user : ℕ) → Keeps (has_user_command user)
unfolding has_user_command
has_user_command-Keeps user = read-Keeps _

pub int_of-Keeps : (j : JsonLibrary) (name : String) (p : j.JsonValue) → Keeps (int_of j name p)
unfolding int_of
int_of-Keeps j name p = read-Keeps _

pub string_of-Keeps :
    (j : JsonLibrary) (name : String) (p : j.JsonValue) → Keeps (string_of j name p)
unfolding string_of
string_of-Keeps j name p = read-Keeps _

-- `execute` of every command but the registration of a user.
pub execute-Keeps :
    (j : JsonLibrary) (e : Surroundings) (c : Command) (self : ℕ) (p : j.JsonValue)
    → c ≢ Command.register
    → Keeps (execute j e c self p)
unfolding execute search_user get_friend_list get_group_list get_friend_verification_list
    get_group_verification_list
execute-Keeps j e Command.register self p h = absurd (h refl)
execute-Keeps j e Command.has_user self p h =
    bind-Keeps (int_of-Keeps j "user_id" p) λ user. has_user_command-Keeps user
execute-Keeps j e Command.search_user self p h = pure-Keeps _
execute-Keeps j e Command.add_friend self p h =
    bind-Keeps (int_of-Keeps j "user_id" p) λ user. add_friend-Keeps self user
execute-Keeps j e Command.accept_friend_verification self p h =
    bind-Keeps (int_of-Keeps j "user_id" p) λ user. accept_friend-Keeps self user
execute-Keeps j e Command.reject_friend_verification self p h =
    bind-Keeps (int_of-Keeps j "user_id" p) λ user. reject_friend-Keeps self user
execute-Keeps j e Command.get_friend_list self p h =
    bind-Keeps (found_user-Keeps self) λ u. pure-Keeps _
execute-Keeps j e Command.get_friend_verification_list self p h =
    bind-Keeps (found_user-Keeps self) λ u. pure-Keeps _
execute-Keeps j e Command.remove_friend self p h =
    bind-Keeps (int_of-Keeps j "user_id" p) λ user. remove_friend-Keeps self user
execute-Keeps j e Command.add_group self p h =
    bind-Keeps (int_of-Keeps j "group_id" p) λ group. add_group-Keeps self group
execute-Keeps j e Command.accept_group_verification self p h =
    bind-Keeps (int_of-Keeps j "group_id" p)
      λ group. bind-Keeps (int_of-Keeps j "user_id" p) λ user. accept_group-Keeps self group user
execute-Keeps j e Command.reject_group_verification self p h =
    bind-Keeps (int_of-Keeps j "group_id" p)
      λ group. bind-Keeps (int_of-Keeps j "user_id" p) λ user. reject_group-Keeps self group user
execute-Keeps j e Command.get_group_list self p h =
    bind-Keeps (found_user-Keeps self) λ u. pure-Keeps _
execute-Keeps j e Command.get_group_verification_list self p h =
    bind-Keeps (found_user-Keeps self) λ u. pure-Keeps _
execute-Keeps j e Command.create_group self p h = create_group-Keeps self
execute-Keeps j e Command.remove_group self p h =
    bind-Keeps (int_of-Keeps j "group_id" p) λ group. remove_group-Keeps self group
execute-Keeps j e Command.leave_group self p h =
    bind-Keeps (int_of-Keeps j "group_id" p) λ group. leave_group-Keeps self group
execute-Keeps j e Command.send_friend_message self p h =
    bind-Keeps (int_of-Keeps j "user_id" p) λ user.
      bind-Keeps (string_of-Keeps j "message" p)
        λ text. send_friend_message-Keeps self user text e.now
execute-Keeps j e Command.send_group_message self p h =
    bind-Keeps (int_of-Keeps j "group_id" p) λ group.
      bind-Keeps (string_of-Keeps j "message" p)
        λ text. send_group_message-Keeps self group text e.now e.later
