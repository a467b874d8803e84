-- ===== src/Server/Process.antt =====
-- server/jsonMessageProcess/JsonMsgProcess.cpp: `JsonMessageProcessImpl`, which a connection keeps.
-- Its own state is the id of the user who has logged in on the connection, -1 for nobody.
pub mod Guard
pub mod Login
pub mod Parameters
pub mod Registering
use Prim.Native.Nat.{bit_and}
use Prim.Native.String.{String, ◌++◌ as concat}
use text.Mathlib.Text.{◌==◌ as str_eq}
use qchat_server.Base.{
  ℕ, Bool, true, false, not, ◌&&◌, ◌||◌, List, [], ◌∷◌, ◌==◌, if◌then◌else◌, Option, none, some,
  Result, ok, err, Action, ◌>>=◌, ◌>>◌, pure, Failure, system_error, logic_error, runtime_error,
  resource_deadlock, never_ends, undefined_behaviour,
}
use qchat_server.Base.Dict.{string_key, lookup}
use qchat_server.Room.History.{no_user}
use qchat_server.Server.User.{User, DeviceType, is_user_password}
use qchat_server.Server.State.{Server}
use qchat_server.Server.Manager.{has_user}
use qchat_server.Server.Connections.{modify_user_of_connection}
use qchat_server.Server.Json.{
  JsonLibrary, ParameterType, Extra, Reply, error_message, success_message,
}
use qchat_server.Server.Commands.{
  Command, CommandList, command_type, normal_type, options, has_command, get_command, command_list,
}
use qchat_server.Server.Commands.Execute.{Surroundings, found_user, execute}

-- The server, and `m_user_id`.
pub record Session : Type 0 where
  pub server : Server
  pub local_user : ℕ

-- A call on the server.
unfoldable pub on_server : {A : Type 0} → Action Server A → Action Session A
on_server m z = let (r, s) = m z.server in (r, record z { server = s })

-- The names of the devices.
unfoldable pub device_type : String → DeviceType
device_type device =
    if str_eq device "PersonalComputer"
    then DeviceType.personal_computer
    else if str_eq device "Phone"
    then DeviceType.phone
    else if str_eq device "Web"
    then DeviceType.web
    else DeviceType.unknown

abbrev pub wrong_login : Reply
wrong_login = error_message "The user ID or password is wrong!"

-- `login` behind the check of the password.
unfoldable pub log_in : ℕ → ℕ → DeviceType → Action Session Reply
log_in c user type = do
  on_server (modify_user_of_connection c user type)
  λ z.
      (ok (success_message "Successfully logged in!" Extra.nothing), record z { local_user = user })

-- `login` with a user id, on the connection `c`.
unfoldable pub login : Surroundings → ℕ → ℕ → String → String → Action Session Reply
login e c user password device z =
    if not (has_user user z.server)
    then (ok wrong_login, z)
    else (do
      u ← on_server (found_user user)
      if is_user_password e.digest password u
          then log_in c user (device_type device)
          else pure wrong_login)
        z

-- "Check if user has logined": whether the message is turned away.
unfoldable pub turned_away : ℕ → String → Result Bool
turned_away local_user name =
    if not (local_user == no_user) || str_eq name "login"
    then ok false
    else if not (has_command name command_list)
    then ok true
    else elim (get_command name command_list) [
      | err e ↦ err e
      | ok command ↦ ok (not (bit_and (command_type command) normal_type == 0))
    ]

-- `catch (const std::exception &)`: what is no exception is not caught.
unfoldable pub or_unknown : Result Reply × Session → Result Reply × Session
or_unknown (ok r, z) = (ok r, z)
or_unknown (err (system_error _), z) = (ok (error_message "Unknown error occured!"), z)
or_unknown (err logic_error, z) = (ok (error_message "Unknown error occured!"), z)
or_unknown (err runtime_error, z) = (ok (error_message "Unknown error occured!"), z)
or_unknown (err resource_deadlock, z) = (ok (error_message "Unknown error occured!"), z)
or_unknown (err never_ends, z) = (err never_ends, z)
or_unknown (err undefined_behaviour, z) = (err undefined_behaviour, z)

module _ (j : JsonLibrary) where
  -- "Check whether the json pack is valid": the reply to one that is not.
  unfoldable pub invalid_message : j.JsonValue → Option String
  invalid_message json =
      if not (j.is_dict json)
      then some "The data body must be json dictory type!"
      else if not (j.has_member "function" json)
      then some "\"function\" must be included in json dictory!"
      else if not (j.has_member "parameters" json)
      then some "\"parameters\" must be included in json dictory!"
      else if not (j.has_type ParameterType.string (j.at "function" json))
      then some "\"function\" must be string type!"
      else if not (j.is_dict (j.at "parameters" json))
      then some "\"parameters\" must be dictory type!"
      else none

  -- "Check whether the type of json values match the options": the reply where one does not.
  unfoldable pub wrong_parameter : List (String × ParameterType) → j.JsonValue → Option String
  wrong_parameter [] parameters = none
  wrong_parameter ((name, type) ∷ rest) parameters = elim (j.find name parameters) [
    | none ↦ some (concat "Lost a parameter: " (concat name "."))
    | some value ↦
        if not (j.has_type type value)
        then some (concat "Wrong parameter type: " (concat name "."))
        else wrong_parameter rest parameters
  ]

  unfoldable pub run_login : Surroundings → ℕ → j.JsonValue → Action Session Reply
  run_login e c p z = elim (j.get_int (j.at "user_id" p)) [
    | err x ↦ (err x, z)
    | ok user ↦ elim (j.get_string (j.at "password" p)) [
      | err x ↦ (err x, z)
      | ok password ↦ elim (j.get_string (j.at "device" p)) [
        | err x ↦ (err x, z)
        | ok device ↦ login e c user password device z
      ]
    ]
  ]

  unfoldable pub run_command : Surroundings → String → j.JsonValue → Action Session Reply
  run_command e name p z = elim (lookup name command_list) [
    | none ↦ (ok (error_message "There isn't a function that matches the name!"), z)
    | some command ↦ elim (wrong_parameter (options command) p) [
      | some text ↦ (ok (error_message text), z)
      | none ↦ on_server (execute j e command z.local_user p) z
    ]
  ]

  -- The body of `processJsonMessage` behind the check of the message.
  unfoldable pub dispatch : Surroundings → ℕ → String → j.JsonValue → Action Session Reply
  dispatch e c name p z = elim (turned_away z.local_user name) [
    | err x ↦ (err x, z)
    | ok away ↦
        if away
        then (ok (error_message "You haven't logged in!"), z)
        else if str_eq name "login"
        then run_login e c p z
        else run_command e name p z
  ]

  unfoldable pub process_json_message : Surroundings → ℕ → j.JsonValue → Action Session Reply
  process_json_message e c json z = or_unknown (elim (invalid_message json) [
    | some text ↦ (ok (error_message text), z)
    | none ↦ elim (j.get_string (j.at "function" json)) [
      | err x ↦ (err x, z)
      | ok name ↦ dispatch e c name (j.at "parameters" json) z
    ]
  ])
