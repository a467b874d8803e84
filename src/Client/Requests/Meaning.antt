-- ===== src/Client/Requests/Meaning.antt =====
-- testclient/session.cpp and server/jsonMessageProcess: what the server does for the requests of a
-- client.
use text.Mathlib.Text.{◌==◌ as str_eq}
use qchat_server.Base.{
  ℕ, ◌≡◌, refl, ap, ◌∙◌, Bool, true, false, Option, none, some, ◌==◌, Bool-cases, inl, inr, Result,
  ok, Action, pure,
}
use qchat_server.Base.Dict.{string_key, lookup, insert}
use qchat_server.Room.History.{no_user}
use qchat_server.Server.State.{Server}
use qchat_server.Server.Json.{JsonLibrary, JsonLaws, Reply}
use qchat_server.Server.Commands.{Command, command_list, options}
use qchat_server.Server.Commands.Execute.{Surroundings, execute}
use qchat_server.Server.Commands.Execute as Execute
use qchat_server.Server.Process.{
  Session, on_server, login, or_unknown, run_login, dispatch, process_json_message, wrong_parameter,
}
use Prim.Native.String.{String}
use qchat_server.Server.Process.Guard.{turned_away_lem}
use qchat_server.Client.Requests.{
  JsonMaking, MakingLaws, Request, function_name, parameters, json_of,
}
use qchat_server.Client.Requests.Reading.{
  IsMessage, with_parameters, built-IsMessage, processed, commanded, one_passes, one_runs,
  ints_pass, ints_run, text_passes, text_runs, texts_pass, texts_run, last_put, before_put,
  second_found, first_found, none_left, two,
}

-- What each request is to do on the server: a login on the connection, or an operation of the local
-- user.
abbrev pub operation : Surroundings → ℕ → Request → Action Server Reply
operation e self (Request.register_user email password) = Execute.register e email password
operation e self (Request.login_user user password) = pure (Reply.error_message "")
operation e self (Request.create_friend_application user) = Execute.add_friend self user
operation e self (Request.apply_friend_application user) = Execute.accept_friend self user
operation e self (Request.reject_friend_application user) = Execute.reject_friend self user
operation e self Request.create_group = Execute.create_group self
operation e self (Request.create_group_application group) = Execute.add_group self group
operation e self (Request.apply_group_application group user) = Execute.accept_group self group user
operation e self (Request.reject_group_application group user) =
    Execute.reject_group self group user
operation e self (Request.send_friend_message user message) =
    Execute.send_friend_message self user message e.now
operation e self (Request.send_group_message group message) =
    Execute.send_group_message self group message e.now e.later
operation e self (Request.remove_friend user) = Execute.remove_friend self user
operation e self (Request.leave_group group) = Execute.leave_group self group

abbrev pub meaning : Surroundings → ℕ → Request → Action Session Reply
meaning e c (Request.login_user user password) z = login e c user password "PersonalComputer" z
meaning e c r z = on_server (operation e z.local_user r) z

-- The command that a request names, and whether it is the login.
abbrev command_of : Request → Option Command
command_of (Request.register_user email password) = some Command.register
command_of (Request.login_user user password) = none
command_of (Request.create_friend_application user) = some Command.add_friend
command_of (Request.apply_friend_application user) = some Command.accept_friend_verification
command_of (Request.reject_friend_application user) = some Command.reject_friend_verification
command_of Request.create_group = some Command.create_group
command_of (Request.create_group_application group) = some Command.add_group
command_of (Request.apply_group_application group user) = some Command.accept_group_verification
command_of (Request.reject_group_application group user) = some Command.reject_group_verification
command_of (Request.send_friend_message user message) = some Command.send_friend_message
command_of (Request.send_group_message group message) = some Command.send_group_message
command_of (Request.remove_friend user) = some Command.remove_friend
command_of (Request.leave_group group) = some Command.leave_group

known : (r : Request) → lookup (function_name r) command_list ≡ command_of r
unfolding function_name command_list lookup insert
known (Request.register_user email password) = refl
known (Request.login_user user password) = refl
known (Request.create_friend_application user) = refl
known (Request.apply_friend_application user) = refl
known (Request.reject_friend_application user) = refl
known Request.create_group = refl
known (Request.create_group_application group) = refl
known (Request.apply_group_application group user) = refl
known (Request.reject_group_application group user) = refl
known (Request.send_friend_message user message) = refl
known (Request.send_group_message group message) = refl
known (Request.remove_friend user) = refl
known (Request.leave_group group) = refl

abbrev is_login : Request → Bool
is_login (Request.login_user user password) = true
is_login _ = false

other : (r : Request) → str_eq (function_name r) "login" ≡ is_login r
unfolding function_name
other (Request.register_user email password) = refl
other (Request.login_user user password) = refl
other (Request.create_friend_application user) = refl
other (Request.apply_friend_application user) = refl
other (Request.reject_friend_application user) = refl
other Request.create_group = refl
other (Request.create_group_application group) = refl
other (Request.apply_group_application group user) = refl
other (Request.reject_group_application group user) = refl
other (Request.send_friend_message user message) = refl
other (Request.send_group_message group message) = refl
other (Request.remove_friend user) = refl
other (Request.leave_group group) = refl

module _ {j : JsonLibrary} {m : JsonMaking j} (laws : JsonLaws j) (made : MakingLaws j m)
    (e : Surroundings) (c : ℕ) (z : Session) where
  -- A command that is executed as an operation.
  on_server_same :
      (f g : Action Server Reply) → f z.server ≡ g z.server → on_server f z ≡ on_server g z
  unfolding on_server
  on_server_same f g h = ap wrap h
    where
      wrap : Result Reply × Server → Result Reply × Session
      wrap (r, s) = (r, record z { server = s })

  -- A request that is a command, from what is known of its name, of its parameters and of the command.
  asked :
      (r : Request) (command : Command)
      → command_of r ≡ some command
      → is_login r ≡ false
      → wrong_parameter j
          (options command)
          (with_parameters laws made (parameters m r) m.empty_dict)
        ≡ none
      → execute j e command z.local_user
          (with_parameters laws made (parameters m r) m.empty_dict)
          z.server
        ≡ operation e z.local_user r z.server
      → process_json_message j e c (json_of m r) z
        ≡ or_unknown (on_server (operation e z.local_user r) z)
  unfolding json_of
  asked r command named ordinary passes runs =
      commanded laws made (built-IsMessage laws made (function_name r) (parameters m r)) command e c
        z (known r ∙ named) (other r ∙ ordinary) passes
      ∙ ap or_unknown (on_server_same _ _ runs)

  -- The parameters of a login.
  module _ (user : ℕ) (password : String) where
    login_parameters : j.JsonValue
    login_parameters =
        m.put "device" (m.from_string "PersonalComputer")
          (two laws made "user_id" "password" (m.from_int user) (m.from_string password))

    behind :
        j.is_dict (two laws made "user_id" "password" (m.from_int user) (m.from_string password))
        ≡ true
    behind = made.put-is_dict _ _ _ (made.put-is_dict _ _ _ made.empty-is_dict)

    device_found : j.find "device" login_parameters ≡ some (m.from_string "PersonalComputer")
    unfolding login_parameters
    device_found = last_put laws made "device" _ _ behind

    password_found : j.find "password" login_parameters ≡ some (m.from_string password)
    unfolding login_parameters
    password_found =
        before_put laws made "device" "password" _ _ behind refl
        ∙ second_found laws made "user_id" "password" _ _

    user_found : j.find "user_id" login_parameters ≡ some (m.from_int user)
    unfolding login_parameters
    user_found =
        before_put laws made "device" "user_id" _ _ behind refl
        ∙ first_found laws made "user_id" "password" _ _ refl

    login_runs : run_login j e c login_parameters z ≡ login e c user password "PersonalComputer" z
    unfolding run_login
    login_runs = rw (read_user, run_login) (rw read_password (rw read_device refl))
      where
        read_user : j.get_int (j.at "user_id" login_parameters) ≡ ok user
        read_user = rw (laws.at-find "user_id" login_parameters _ user_found) (made.int_same user)

        read_password : j.get_string (j.at "password" login_parameters) ≡ ok password
        read_password =
            rw (laws.at-find "password" login_parameters _ password_found)
              (made.string_same password)

        read_device : j.get_string (j.at "device" login_parameters) ≡ ok "PersonalComputer"
        read_device =
            rw (laws.at-find "device" login_parameters _ device_found)
              (made.string_same "PersonalComputer")

    -- The login passes the check of the login.
    login_dispatched :
        dispatch j e c "login" login_parameters z ≡ run_login j e c login_parameters z
    unfolding dispatch
    login_dispatched =
        rw (turned_away_lem z.local_user "login", dispatch)
          (elim (Bool-cases (z.local_user == no_user)) [
            | inl nobody ↦ rw nobody refl
            | inr somebody ↦ rw somebody refl
          ])

    login-IsMessage :
        IsMessage laws made "login" login_parameters (json_of m (Request.login_user user password))
    unfolding json_of function_name parameters with_parameters login_parameters
    login-IsMessage = built-IsMessage laws made _ _

  -- The server understands every request of the client. Whatever the state of the session, what
  -- `processJsonMessage` does for the message that a method of `Session` builds is the operation that
  -- the method is named after, with the method's arguments: the login on the connection, or the
  -- operation of the local user, with what is thrown answered as `processJsonMessage` answers it.
  pub request_meaning :
      (r : Request) → process_json_message j e c (json_of m r) z ≡ or_unknown (meaning e c r z)
  unfolding parameters with_parameters execute options
  request_meaning (Request.login_user user password) =
      processed laws made (login-IsMessage user password) e c z
      ∙ ap or_unknown (login_dispatched user password ∙ login_runs user password)
  request_meaning (Request.register_user email password) =
      asked (Request.register_user email password) Command.register refl refl
        (texts_pass laws made "email" "password" refl email password)
        (texts_run laws made "email" "password" refl email password (Execute.register e) z.server)
  request_meaning (Request.create_friend_application user) =
      asked (Request.create_friend_application user) Command.add_friend refl refl
        (one_passes laws made "user_id" user)
        (one_runs laws made "user_id" user (Execute.add_friend z.local_user) z.server)
  request_meaning (Request.apply_friend_application user) =
      asked (Request.apply_friend_application user) Command.accept_friend_verification refl refl
        (one_passes laws made "user_id" user)
        (one_runs laws made "user_id" user (Execute.accept_friend z.local_user) z.server)
  request_meaning (Request.reject_friend_application user) =
      asked (Request.reject_friend_application user) Command.reject_friend_verification refl refl
        (one_passes laws made "user_id" user)
        (one_runs laws made "user_id" user (Execute.reject_friend z.local_user) z.server)
  request_meaning Request.create_group =
      asked Request.create_group Command.create_group refl refl (none_left laws made m.empty_dict)
        refl
  request_meaning (Request.create_group_application group) =
      asked (Request.create_group_application group) Command.add_group refl refl
        (one_passes laws made "group_id" group)
        (one_runs laws made "group_id" group (Execute.add_group z.local_user) z.server)
  request_meaning (Request.apply_group_application group user) =
      asked (Request.apply_group_application group user) Command.accept_group_verification refl refl
        (ints_pass laws made "group_id" "user_id" refl group user)
        (ints_run laws made "group_id" "user_id" refl group user (Execute.accept_group z.local_user)
          z.server)
  request_meaning (Request.reject_group_application group user) =
      asked (Request.reject_group_application group user) Command.reject_group_verification refl
        refl (ints_pass laws made "group_id" "user_id" refl group user)
        (ints_run laws made "group_id" "user_id" refl group user (Execute.reject_group z.local_user)
          z.server)
  request_meaning (Request.send_friend_message user message) =
      asked (Request.send_friend_message user message) Command.send_friend_message refl refl
        (text_passes laws made "user_id" "message" refl user message)
        (text_runs laws made "user_id" "message" refl user message
          (λ u t. Execute.send_friend_message z.local_user u t e.now) z.server)
  request_meaning (Request.send_group_message group message) =
      asked (Request.send_group_message group message) Command.send_group_message refl refl
        (text_passes laws made "group_id" "message" refl group message)
        (text_runs laws made "group_id" "message" refl group message
          (λ g t. Execute.send_group_message z.local_user g t e.now e.later) z.server)
  request_meaning (Request.remove_friend user) =
      asked (Request.remove_friend user) Command.remove_friend refl refl
        (one_passes laws made "user_id" user)
        (one_runs laws made "user_id" user (Execute.remove_friend z.local_user) z.server)
  request_meaning (Request.leave_group group) =
      asked (Request.leave_group group) Command.leave_group refl refl
        (one_passes laws made "group_id" group)
        (one_runs laws made "group_id" group (Execute.leave_group z.local_user) z.server)
