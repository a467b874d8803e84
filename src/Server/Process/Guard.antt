-- ===== src/Server/Process/Guard.antt =====
-- server/jsonMessageProcess/JsonMsgProcess.cpp: what a connection may do on which nobody has logged in.
use Prim.Native.Nat.{bit_and}
use Prim.Native.String.{String}
use text.Mathlib.Text.{◌==◌ as str_eq}
use qchat_server.Base.{
  ℕ, ◌≡◌, refl, ap, ◌∙◌, inl, inr, Bool, true, false, not, ◌&&◌, ◌==◌, some, Option-cases, arith,
  Result, ok, err, Errc, system_error, Action, ◌>>=◌,
}
use qchat_server.Base.Dict.{id_key, string_key, lookup}
use qchat_server.Room.History.{no_user}
use qchat_server.Server.State.{Server}
use qchat_server.Server.Manager.{has_user, get_user}
use qchat_server.Server.Json.{JsonLibrary, Reply, error_message, success_message}
use qchat_server.Server.Commands.{
  Command, command_type, normal_type, login_type, has_command, get_command, command_list, options,
}
use qchat_server.Server.Commands.Execute.{
  Surroundings, execute, found_user, int_of, string_of, add_friend, accept_friend, reject_friend,
  get_friend_list, get_friend_verification_list, remove_friend, add_group, accept_group,
  reject_group, get_group_list, get_group_verification_list, send_friend_message,
  send_group_message, create_group, remove_group, leave_group, or_reply,
}
use qchat_server.Server.Process.{
  Session, on_server, turned_away, wrong_parameter, run_command, dispatch,
}

bit_and_normal : (c : Command) → (bit_and (command_type c) normal_type == 0) ≡ true
unfolding command_type
bit_and_normal Command.register = refl
bit_and_normal c = refl

-- Whether a message is turned away depends on its name alone: somebody who has not logged in gets
-- through with `login` and with every command that there is, whatever type of login it asks for.
pub turned_away_lem :
    (local_user : ℕ) (name : String)
    → turned_away local_user name
      ≡ ok (
          local_user == no_user && not (str_eq name "login") && not (has_command name command_list))
unfolding turned_away has_command get_command
turned_away_lem local_user name = elim (Option-cases (lookup name command_list)) [
  | inl missing ↦ ground arith
  | inr (c, found) ↦ ground (arith, bit_and_normal c)
]

abbrev pub succeeded : Result Reply → Bool
succeeded (ok (success_message _ _)) = true
succeeded (ok (error_message _)) = false
succeeded (err _) = false

-- The call did not succeed, and the server is as before.
abbrev pub Fails : Server → Result Reply × Server → Type 0
Fails s (r, s') = (succeeded r ≡ false) × (s' ≡ s)

module _ (executor : ℕ) (s : Server) (missing : has_user executor s ≡ false) where
  not_found : found_user executor s ≡ (err (system_error Errc.user_not_existed), s)
  unfolding found_user get_user has_user
  not_found = ground arith

  add_friend-Fails : (user : ℕ) → Fails s (add_friend executor user s)
  unfolding add_friend
  add_friend-Fails user = ground (arith, not_found)

  send_friend_message-Fails :
      (user : ℕ) (text : String) (now : ℕ) → Fails s (send_friend_message executor user text now s)
  unfolding send_friend_message
  send_friend_message-Fails user text now = ground (arith, not_found)

  accept_group-Fails : (group user : ℕ) → Fails s (accept_group executor group user s)
  unfolding accept_group
  accept_group-Fails group user = ground (arith, not_found)

  create_group-Fails : Fails s (create_group executor s)
  unfolding create_group or_reply
  create_group-Fails = ground (arith, not_found)

  accept_friend-Fails : (user : ℕ) → Fails s (accept_friend executor user s)
  unfolding accept_friend
  accept_friend-Fails user = ground (arith, not_found)

  reject_friend-Fails : (user : ℕ) → Fails s (reject_friend executor user s)
  unfolding reject_friend
  reject_friend-Fails user = ground (arith, not_found)

  remove_friend-Fails : (user : ℕ) → Fails s (remove_friend executor user s)
  unfolding remove_friend
  remove_friend-Fails user = ground (arith, not_found)

  get_friend_list-Fails : Fails s (get_friend_list executor s)
  unfolding get_friend_list
  get_friend_list-Fails = ground (arith, not_found)

  get_friend_verification_list-Fails : Fails s (get_friend_verification_list executor s)
  unfolding get_friend_verification_list
  get_friend_verification_list-Fails = ground (arith, not_found)

  get_group_list-Fails : Fails s (get_group_list executor s)
  unfolding get_group_list
  get_group_list-Fails = ground (arith, not_found)

  get_group_verification_list-Fails : Fails s (get_group_verification_list executor s)
  unfolding get_group_verification_list
  get_group_verification_list-Fails = ground (arith, not_found)

  add_group-Fails : (group : ℕ) → Fails s (add_group executor group s)
  unfolding add_group
  add_group-Fails group = ground (arith, not_found)

  remove_group-Fails : (group : ℕ) → Fails s (remove_group executor group s)
  unfolding remove_group
  remove_group-Fails group = ground (arith, not_found)

  leave_group-Fails : (group : ℕ) → Fails s (leave_group executor group s)
  unfolding leave_group
  leave_group-Fails group = ground (arith, not_found)

  reject_group-Fails : (group user : ℕ) → Fails s (reject_group executor group user s)
  unfolding reject_group
  reject_group-Fails group user = ground (arith, not_found)

  send_group_message-Fails :
      (group : ℕ) (text : String) (now later : ℕ)
      → Fails s (send_group_message executor group text now later s)
  unfolding send_group_message
  send_group_message-Fails group text now later = ground (arith, not_found)

-- What a command reads first: where the getter throws, the command fails.
read_int-Fails :
    (j : JsonLibrary) (name : String) (p : j.JsonValue) (k : ℕ → Action Server Reply) (s : Server)
    → ((n : ℕ) → Fails s (k n s))
    → Fails s ((int_of j name p >>= k) s)
unfolding int_of
read_int-Fails j name p k s h =
    elim (j.get_int (j.at name p))
      as (λ r. Fails s (elim r [ ok n ↦ k n s | err e ↦ (err e, s) ])) [
        | ok n ↦ h n
        | err e ↦ (refl, refl)
      ]

read_string-Fails :
    (j : JsonLibrary) (name : String) (p : j.JsonValue) (k : String → Action Server Reply)
    (s : Server)
    → ((n : String) → Fails s (k n s))
    → Fails s ((string_of j name p >>= k) s)
unfolding string_of
read_string-Fails j name p k s h =
    elim (j.get_string (j.at name p))
      as (λ r. Fails s (elim r [ ok n ↦ k n s | err e ↦ (err e, s) ])) [
        | ok n ↦ h n
        | err e ↦ (refl, refl)
      ]

-- A command that asks for a login, run for an id that no user has, such as the -1 of somebody who
-- has not logged in, never replies a success and leaves the server as it was.
pub execute-Fails :
    (j : JsonLibrary) (e : Surroundings) (c : Command) (executor : ℕ) (p : j.JsonValue) (s : Server)
    → command_type c ≡ login_type
    → has_user executor s ≡ false
    → Fails s (execute j e c executor p s)
unfolding command_type execute
execute-Fails j e Command.register executor p s h missing = absurd (omega arith)
execute-Fails j e Command.has_user executor p s h missing = absurd (omega arith)
execute-Fails j e Command.search_user executor p s h missing = absurd (omega arith)
execute-Fails j e Command.add_friend executor p s h missing =
    read_int-Fails j "user_id" p (add_friend executor) s (add_friend-Fails executor s missing)
execute-Fails j e Command.send_friend_message executor p s h missing =
    read_int-Fails j "user_id" p
      (λ user. string_of j "message" p >>= λ text. send_friend_message executor user text e.now) s
      λ user.
        read_string-Fails j "message" p (λ text. send_friend_message executor user text e.now) s
          λ text. send_friend_message-Fails executor s missing user text e.now
execute-Fails j e Command.accept_friend_verification executor p s h missing =
    read_int-Fails j "user_id" p (accept_friend executor) s (accept_friend-Fails executor s missing)
execute-Fails j e Command.reject_friend_verification executor p s h missing =
    read_int-Fails j "user_id" p (reject_friend executor) s (reject_friend-Fails executor s missing)
execute-Fails j e Command.get_friend_list executor p s h missing =
    get_friend_list-Fails executor s missing
execute-Fails j e Command.get_friend_verification_list executor p s h missing =
    get_friend_verification_list-Fails executor s missing
execute-Fails j e Command.remove_friend executor p s h missing =
    read_int-Fails j "user_id" p (remove_friend executor) s (remove_friend-Fails executor s missing)
execute-Fails j e Command.add_group executor p s h missing =
    read_int-Fails j "group_id" p (add_group executor) s (add_group-Fails executor s missing)
execute-Fails j e Command.accept_group_verification executor p s h missing =
    read_int-Fails j "group_id" p (λ group. int_of j "user_id" p >>= accept_group executor group) s
      λ group.
        read_int-Fails j "user_id" p (accept_group executor group) s
          (accept_group-Fails executor s missing group)
execute-Fails j e Command.reject_group_verification executor p s h missing =
    read_int-Fails j "group_id" p (λ group. int_of j "user_id" p >>= reject_group executor group) s
      λ group.
        read_int-Fails j "user_id" p (reject_group executor group) s
          (reject_group-Fails executor s missing group)
execute-Fails j e Command.get_group_list executor p s h missing =
    get_group_list-Fails executor s missing
execute-Fails j e Command.get_group_verification_list executor p s h missing =
    get_group_verification_list-Fails executor s missing
execute-Fails j e Command.create_group executor p s h missing =
    create_group-Fails executor s missing
execute-Fails j e Command.remove_group executor p s h missing =
    read_int-Fails j "group_id" p (remove_group executor) s (remove_group-Fails executor s missing)
execute-Fails j e Command.leave_group executor p s h missing =
    read_int-Fails j "group_id" p (leave_group executor) s (leave_group-Fails executor s missing)
execute-Fails j e Command.send_group_message executor p s h missing =
    read_int-Fails j "group_id" p
      (λ group.
        string_of j "message" p >>= λ text. send_group_message executor group text e.now e.later)
      s
      λ group.
        read_string-Fails j "message" p
          (λ text. send_group_message executor group text e.now e.later) s
          λ text. send_group_message-Fails executor s missing group text e.now e.later

run_command-Fails :
    (j : JsonLibrary) (e : Surroundings) (name : String) (p : j.JsonValue) (z : Session)
    {c : Command}
    → lookup name command_list ≡ some c
    → command_type c ≡ login_type
    → has_user z.local_user z.server ≡ false
    → let (r, z') = run_command j e name p z in (succeeded r ≡ false) × (z' ≡ z)
unfolding run_command on_server
run_command-Fails j e name p z {c} known type missing =
    elim (Option-cases (wrong_parameter j (options c) p)) [
      | inr (text, wrong) ↦ rw (known, run_command) (rw wrong (refl, refl))
      | inl right ↦
          let (failed, same) = execute-Fails j e c z.local_user p z.server type missing in
          rw (known, run_command) (rw right (failed, ap (λ s. record z { server = s }) same))
    ]

-- On a connection on which nobody has logged in, a message that names a command with a login never
-- succeeds and changes nothing: the check of the login lets it through, and it fails for want of a
-- user with the id -1.
pub not_logged_in :
    (j : JsonLibrary) (e : Surroundings) (c : ℕ) (name : String) (p : j.JsonValue) (z : Session)
    (command : Command)
    → z.local_user ≡ no_user
    → has_user no_user z.server ≡ false
    → str_eq name "login" ≡ false
    → lookup name command_list ≡ some command
    → command_type command ≡ login_type
    → (turned_away z.local_user name ≡ ok false)
      × (let (r, z') = dispatch j e c name p z in (succeeded r ≡ false) × (z' ≡ z))
unfolding dispatch has_command
not_logged_in j e c name p z command nobody missing other known type = (
  through,
  rw (through, dispatch)
      (rw other (
        run_command-Fails j e name p z known type
          (ap (λ u. has_user u z.server) nobody ∙ missing))),
)
  where
    through : turned_away z.local_user name ≡ ok false
    through = turned_away_lem z.local_user name ∙ rw known (ground arith)
