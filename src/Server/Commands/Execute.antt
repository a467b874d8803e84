-- ===== src/Server/Commands/Execute.antt =====
-- server/jsonMessageProcess/JsonMsgProcessCommand.cpp: what the commands do.
use Prim.Native.String.{String}
use qchat_server.Base.{
  ℕ, Bool, not, List, [], ◌∷◌, ◌++◌, if◌then◌else◌, none, some, Result, ok, err, length, drop,
  Action, ◌>>=◌, ◌>>◌, pure, Errc, system_error, logic_error, runtime_error, resource_deadlock,
  never_ends, undefined_behaviour,
}
use qchat_server.Base.Dict.{Dict, id_key, lookup, insert}
use qchat_server.Room.Tcp.{Notice}
use qchat_server.Room.Private.{PrivateRoom}
use qchat_server.Room.Private
use qchat_server.Room.Group.Sending as Sending
use qchat_server.Server.User.{
  User, IdSet, Digest, GroupVerification, user_has_friend, user_has_group, update_user_email,
  first_update_user_password,
}
use qchat_server.Server.State.{Server, with_user, update_user, writes}
use qchat_server.Server.Manager.{
  has_user, get_user, add_new_user, has_group_room, get_private_room_id,
}
use qchat_server.Server.Friends as Friends
use qchat_server.Server.Groups as Groups
use qchat_server.Server.Json.{JsonLibrary, Extra, Reply, error_message, success_message}
use qchat_server.Server.Commands.{Command}

-- What a command reads that is not in the message or the server: whether a text matches the regular
-- expression of an email, the digest of a password, the random salt and two readings of the clock.
pub record Surroundings : Type 0 where
  pub email_match : String → Bool
  pub digest : Digest
  pub salt : String
  pub now : ℕ
  pub later : ℕ

-- `serverManager.getUser(user)`, which throws where the user is missing.
unfoldable pub found_user : ℕ → Action Server User
found_user user s = (get_user user s, s)

-- The connections to which `notifyAll` of each user writes.
unfoldable pub deliver : List (ℕ × Notice) → Server → Server
deliver [] s = s
deliver ((user, notice) ∷ rest) s = deliver rest (elim (lookup user s.users) [
  | none ↦ s
  | some u ↦ record s { written = s.written ++ writes notice u.connections }
])

-- `getGroupRoom(group)->sendMessage(…)`, and the calls of `notifyAll` that it makes.
unfoldable pub send_to_group : ℕ → ℕ → String → ℕ → ℕ → Action Server (Unit {0})
send_to_group group sender message now later s = elim (lookup group s.group_rooms) [
  | none ↦ (err (system_error Errc.group_room_not_existed), s)
  | some room ↦
      let (r, room') = Sending.send_message sender message now later room in
      (
        r,
        deliver (drop (length room.tcp.notified) room'.tcp.notified)
            (record s { group_rooms = insert group room' s.group_rooms }),
      )
]

-- `getPrivateRoom(room)->sendMessage(…)`, and the calls of `notifyAll` that it makes.
unfoldable pub send_to_private : ℕ → ℕ → String → ℕ → Action Server (Unit {0})
send_to_private id sender message now s = elim (lookup id s.private_rooms) [
  | none ↦ (err (system_error Errc.private_room_not_existed), s)
  | some room ↦
      let (r, room') = Private.send_message message sender now room in
      (
        r,
        deliver (drop (length room.tcp.notified) room'.tcp.notified)
            (record s { private_rooms = insert id room' s.private_rooms }),
      )
]

-- The ids of a set, in its order.
unfoldable pub ids : IdSet → List ℕ
ids [] = []
ids ((id, _) ∷ set) = id ∷ ids set

-- One entry of the reply for each group: a later application for a group replaces an earlier one.
unfoldable pub by_group :
    Dict ℕ GroupVerification → Dict ℕ GroupVerification → Dict ℕ GroupVerification
by_group [] result = result
by_group ((group, v) ∷ rest) result = by_group rest (insert group v result)

-- `catch (...)` of `createGroup`'s caller: what is no exception is not caught.
unfoldable pub or_reply : String → Result Reply × Server → Result Reply × Server
or_reply message (ok r, s) = (ok r, s)
or_reply message (err (system_error _), s) = (ok (error_message message), s)
or_reply message (err logic_error, s) = (ok (error_message message), s)
or_reply message (err runtime_error, s) = (ok (error_message message), s)
or_reply message (err resource_deadlock, s) = (ok (error_message message), s)
or_reply message (err never_ends, s) = (err never_ends, s)
or_reply message (err undefined_behaviour, s) = (err undefined_behaviour, s)

-- `if (done) { … }` of a command that replies by whether the user's method returned true.
abbrev pub reply_if : Bool → String → String → Reply
reply_if done yes_text no_text =
    if done then success_message yes_text Extra.nothing else error_message no_text

abbrev pub invalid_user : Reply
invalid_user = error_message "UserID is invalid!"

abbrev pub invalid_group : Reply
invalid_group = error_message "GroupID is invalid!"

-- `if (!serverManager.hasUser(user)) { return …; }`, and the same for a group.
abbrev pub when_user : ℕ → Action Server Reply → Action Server Reply
when_user user go s = if has_user user s then go s else (ok invalid_user, s)

abbrev pub when_group : ℕ → Action Server Reply → Action Server Reply
when_group group go s = if has_group_room group s then go s else (ok invalid_group, s)

unfoldable pub register : Surroundings → String → String → Action Server Reply
register e email password s =
    if not (e.email_match email)
    then (ok (error_message "Email is invalid"), s)
    else (do
      user ← add_new_user e.now
      with_user user (first_update_user_password e.digest e.salt password)
      update_user user (update_user_email email)
      pure (success_message "Successfully created a new user!" (Extra.user_id user)))
        s

unfoldable pub has_user_command : ℕ → Action Server Reply
has_user_command user s =
    (ok (success_message "Successfully get a result!" (Extra.has_user (has_user user s))), s)

unfoldable pub search_user : Action Server Reply
search_user = pure (error_message "This function is incomplete.")

unfoldable pub add_friend : ℕ → ℕ → Action Server Reply
add_friend executor user = when_user user (do
  found_user executor
  done ← Friends.add_friend executor user
  pure (reply_if done "Successfully sent application!" "Can't send application"))

-- The reply does not depend on what `acceptFriend` returns.
unfoldable pub accept_friend : ℕ → ℕ → Action Server Reply
accept_friend executor user = when_user user (do
  found_user executor
  Friends.accept_friend executor user
  pure (success_message "Successfully added a friend!" Extra.nothing))

unfoldable pub reject_friend : ℕ → ℕ → Action Server Reply
reject_friend executor user = when_user user (do
  found_user executor
  done ← Friends.reject_friend executor user
  pure (reply_if done "Successfully rejected a friend verification!" "Failed to reject!"))

unfoldable pub get_friend_list : ℕ → Action Server Reply
get_friend_list executor = do
  u ← found_user executor
  pure (success_message "Successfully obtained friend list!" (Extra.friend_list (ids u.friends)))

unfoldable pub get_friend_verification_list : ℕ → Action Server Reply
get_friend_verification_list executor = do
  u ← found_user executor
  pure (
      success_message "Successfully obtained verification list!"
        (Extra.friend_verifications u.friend_verifications))

unfoldable pub remove_friend : ℕ → ℕ → Action Server Reply
remove_friend executor user = when_user user (do
  found_user executor
  done ← Friends.remove_friend executor user
  pure (reply_if done "Successfully removed a friend" "Failed to remove a friend!"))

unfoldable pub add_group : ℕ → ℕ → Action Server Reply
add_group executor group = when_group group (do
  found_user executor
  done ← Groups.add_group executor group
  pure (
      reply_if done "Successfully sent a group application!" "Failed to send a group application!"))

unfoldable pub accept_group : ℕ → ℕ → ℕ → Action Server Reply
accept_group executor group user = do
  found_user executor
  done ← Groups.accept_group executor group user
  pure (
      reply_if done "Successfully accepted a group application!"
        "Failed to accept a group application!")

unfoldable pub reject_group : ℕ → ℕ → ℕ → Action Server Reply
reject_group executor group user = do
  found_user executor
  done ← Groups.reject_group executor group user
  pure (
      reply_if done "Successfully reject a group verfication!"
        "Failed to reject a group application!")

unfoldable pub get_group_list : ℕ → Action Server Reply
get_group_list executor = do
  u ← found_user executor
  pure (success_message "Successfully obtained group list!" (Extra.group_list (ids u.groups)))

unfoldable pub get_group_verification_list : ℕ → Action Server Reply
get_group_verification_list executor = do
  u ← found_user executor
  pure (
      success_message "Successfully obtained verification list!"
        (Extra.group_verifications (by_group u.group_verifications [])))

unfoldable pub send_friend_message : ℕ → ℕ → String → ℕ → Action Server Reply
send_friend_message executor user message now = when_user user (do
  u ← found_user executor
  if not (user_has_friend user u) then pure (error_message "You don't have this friend!") else do
    id ← λ s. (get_private_room_id executor user s, s)
    send_to_private id executor message now
    pure (success_message "Successfully sent a message!" Extra.nothing))

unfoldable pub send_group_message : ℕ → ℕ → String → ℕ → ℕ → Action Server Reply
send_group_message executor group message now later = when_group group (do
  u ← found_user executor
  if not (user_has_group group u) then pure (error_message "You don't have this group!") else do
    send_to_group group executor message now later
    pure (success_message "Successfully sent a message!" Extra.nothing))

unfoldable pub create_group : ℕ → Action Server Reply
create_group executor s = or_reply "Failed to create a group!" (
    (do
      found_user executor
      group ← Groups.create_group executor
      pure (success_message "Successfully create a group!" (Extra.group_id group)))
      s)

unfoldable pub remove_group : ℕ → ℕ → Action Server Reply
remove_group executor group = do
  found_user executor
  done ← Groups.remove_group executor group
  pure (reply_if done "Successfully removed a group!" "Failed to remove a group!")

unfoldable pub leave_group : ℕ → ℕ → Action Server Reply
leave_group executor group = do
  found_user executor
  done ← Groups.leave_group executor group
  pure (reply_if done "Successfully left a group!" "Failed to leave a group!")

-- `parameters[name].getInt()` and `.getString()`.
module _ (j : JsonLibrary) where
  unfoldable pub int_of : String → j.JsonValue → Action Server ℕ
  int_of name parameters s = (j.get_int (j.at name parameters), s)

  unfoldable pub string_of : String → j.JsonValue → Action Server String
  string_of name parameters s = (j.get_string (j.at name parameters), s)

  -- `execute` of each command: what it reads, in order, and what it does.
  unfoldable pub execute : Surroundings → Command → ℕ → j.JsonValue → Action Server Reply
  execute e Command.register self p = do
    email ← string_of "email" p
    password ← string_of "password" p
    register e email password
  execute e Command.has_user self p = do user ← int_of "user_id" p; has_user_command user
  execute e Command.search_user self p = search_user
  execute e Command.add_friend self p = do user ← int_of "user_id" p; add_friend self user
  execute e Command.accept_friend_verification self p = do
    user ← int_of "user_id" p
    accept_friend self user
  execute e Command.reject_friend_verification self p = do
    user ← int_of "user_id" p
    reject_friend self user
  execute e Command.get_friend_list self p = get_friend_list self
  execute e Command.get_friend_verification_list self p = get_friend_verification_list self
  execute e Command.remove_friend self p = do user ← int_of "user_id" p; remove_friend self user
  execute e Command.add_group self p = do group ← int_of "group_id" p; add_group self group
  execute e Command.accept_group_verification self p = do
    group ← int_of "group_id" p
    user ← int_of "user_id" p
    accept_group self group user
  execute e Command.reject_group_verification self p = do
    group ← int_of "group_id" p
    user ← int_of "user_id" p
    reject_group self group user
  execute e Command.get_group_list self p = get_group_list self
  execute e Command.get_group_verification_list self p = get_group_verification_list self
  execute e Command.create_group self p = create_group self
  execute e Command.remove_group self p = do group ← int_of "group_id" p; remove_group self group
  execute e Command.leave_group self p = do group ← int_of "group_id" p; leave_group self group
  execute e Command.send_friend_message self p = do
    user ← int_of "user_id" p
    message ← string_of "message" p
    send_friend_message self user message e.now
  execute e Command.send_group_message self p = do
    group ← int_of "group_id" p
    message ← string_of "message" p
    send_group_message self group message e.now e.later
