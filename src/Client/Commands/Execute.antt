-- ===== src/Client/Commands/Execute.antt =====
-- testclient/commands.cpp and the loop of testclient/main.cpp: what the commands of the terminal do. What
-- is printed is the result.
use Prim.Native.String.{String}
use qchat_server.Base.{
  ℕ, Bool, not, List, [], ◌∷◌, if◌then◌else◌, Option, none, some, Result, ok, err, Failure,
  system_error, logic_error, runtime_error, resource_deadlock, never_ends, undefined_behaviour,
  Action, ◌>>=◌, pure,
}
use qchat_server.Base.Dict.{lookup}
use qchat_server.Net.DataPackage.{DataPackage}
use qchat_server.Options.{
  Text, codes, text_eq, text_key, Options, has_opt_with_value, get_string, get_int, parse,
}
use qchat_server.Options.Words.{split, strip}
use qchat_server.Server.Json.{JsonLibrary}
use qchat_server.Client.Requests.{JsonMaking, Request}
use qchat_server.Client.Session.{Session, register_user, login_user, create_group, send_request}
use qchat_server.Client.Commands.{
  Command, help, exit, register_user_command, login_user_command, create_friend_application,
  accept_friend_application, reject_friend_application, create_group_command,
  create_group_application, accept_group_application, reject_group_application, send_friend_message,
  send_group_message, remove_friend, leave_group, CommandMap, get_command, command_manager,
  get_option,
}

-- A text as a `String`, and `std::stoll`.
pub record Readings : Type 0 where
  pub string_of : Text → String
  pub stoll : Text → Result ℕ

module _ (readings : Readings) where
  open readings use {string_of, stoll}

  -- The arguments that `execute` reads, by the call of the session that they are for. `help` and
  -- `exit` call nothing.
  with_string : Text → Options → (String → Result (Option Request)) → Result (Option Request)
  with_string name o k = elim (get_string name o) [ err x ↦ err x | ok text ↦ k (string_of text) ]

  with_int : Text → Options → (ℕ → Result (Option Request)) → Result (Option Request)
  with_int name o k = elim (get_int stoll name o) [ err x ↦ err x | ok n ↦ k n ]

  unfoldable pub call_of : Command → Options → Result (Option Request)
  unfolding with_string with_int
  call_of help o = ok none
  call_of exit o = ok none
  call_of register_user_command o =
      with_string (codes "email") o λ email.
        with_string (codes "password") o λ word. ok (some (Request.register_user email word))
  call_of login_user_command o =
      with_int (codes "userid") o
        λ user. with_string (codes "password") o λ word. ok (some (Request.login_user user word))
  call_of create_friend_application o =
      with_int (codes "userid") o λ user. ok (some (Request.create_friend_application user))
  call_of accept_friend_application o =
      with_int (codes "userid") o λ user. ok (some (Request.apply_friend_application user))
  call_of reject_friend_application o =
      with_int (codes "userid") o λ user. ok (some (Request.reject_friend_application user))
  call_of create_group_command o = ok (some Request.create_group)
  call_of create_group_application o =
      with_int (codes "groupid") o λ group. ok (some (Request.create_group_application group))
  call_of accept_group_application o = with_int (codes "groupid") o λ group.
      with_int (codes "userid") o λ user. ok (some (Request.apply_group_application group user))
  call_of reject_group_application o = with_int (codes "groupid") o λ group.
      with_int (codes "userid") o λ user. ok (some (Request.reject_group_application group user))
  call_of send_friend_message o = with_int (codes "userid") o λ user.
      with_string (codes "message") o λ text. ok (some (Request.send_friend_message user text))
  call_of send_group_message o = with_int (codes "groupid") o λ group.
      with_string (codes "message") o λ text. ok (some (Request.send_group_message group text))
  call_of remove_friend o =
      with_int (codes "userid") o λ user. ok (some (Request.remove_friend user))
  call_of leave_group o =
      with_int (codes "groupid") o λ group. ok (some (Request.leave_group group))

-- What a line of the terminal comes to: which message of a command is printed, the id of a new user,
-- the options or the names that `help` shows, a name that is no command, the text of an exception, or
-- the end of the program.
pub data Outcome : Type 0 where
  done : Bool → Outcome
  registered : Option ℕ → Outcome
  shown : Options → Outcome
  listed : List Text → Outcome
  unknown_command : Text → Outcome
  reported : Failure → Outcome
  nothing stopped exited : Outcome

unfoldable pub names : CommandMap → List Text
names [] = []
names ((name, command) ∷ commands) = name ∷ names commands

-- `HelpCommand::execute`. A name that is not found is printed, and then `getCommand` throws.
unfoldable pub help_on : Options → Result Outcome
help_on o =
    if not (has_opt_with_value (codes "name") o)
    then ok (listed (names command_manager))
    else elim (get_string (codes "name") o) [
      | err x ↦ err x
      | ok name ↦ elim (get_command name command_manager) [
        | err x ↦ err x
        | ok command ↦ ok (shown (get_option command))
      ]
    ]

module _ (readings : Readings) {W : Type 0} {j : JsonLibrary} (m : JsonMaking j)
    (to_json : List ℕ → Result j.JsonValue) (ask : List ℕ → Action W DataPackage) where
  -- The call of the session, and which message follows it.
  unfoldable pub perform : Request → Action (Session W) Outcome
  perform (Request.register_user email word) = do
    user ← register_user m to_json ask email word
    pure (registered user)
  perform (Request.login_user user word) = do
    logged_in ← login_user m to_json ask user word
    pure (done logged_in)
  perform Request.create_group = do made ← create_group m to_json ask; pure (done made)
  perform r = do sent ← send_request m to_json ask r; pure (done sent)

  unfoldable pub perform_call : Command → Options → Option Request → Action (Session W) Outcome
  perform_call command o (some r) x = perform r x
  perform_call help o none x = (help_on o, x)
  perform_call _ o none x = (ok exited, x)

  -- `execute` of each command.
  unfoldable pub execute : Command → Options → Action (Session W) Outcome
  execute command o x = elim (call_of readings command o) [
    | err e ↦ (err e, x)
    | ok call ↦ perform_call command o call x
  ]

  -- `parse` and `execute` of a command that was found.
  unfoldable pub run_command : Command → List Text → Action (Session W) Outcome
  run_command command arguments x =
      let (r, o) = parse arguments (get_option command) in
      elim r [ err e ↦ (err e, x) | ok _ ↦ execute command o x ]

  -- `catch (const std::exception &e)`: what is no exception is not caught.
  unfoldable pub or_reported : Result Outcome × Session W → Result Outcome × Session W
  or_reported (ok outcome, x) = (ok outcome, x)
  or_reported (err (system_error code), x) = (ok (reported (system_error code)), x)
  or_reported (err logic_error, x) = (ok (reported logic_error), x)
  or_reported (err runtime_error, x) = (ok (reported runtime_error), x)
  or_reported (err resource_deadlock, x) = (ok (reported resource_deadlock), x)
  or_reported (err never_ends, x) = (err never_ends, x)
  or_reported (err undefined_behaviour, x) = (err undefined_behaviour, x)

  -- The words of a line: the first one names the command.
  unfoldable pub run_words : List Text → Action (Session W) Outcome
  run_words [] x = (err undefined_behaviour, x)
  run_words (name ∷ arguments) x =
      if text_eq name (codes "stop")
      then (ok stopped, x)
      else or_reported (elim (lookup name command_manager) [
        | none ↦ (ok (unknown_command name), x)
        | some command ↦ run_command command arguments x
      ])

  -- A line that was read.
  unfoldable pub run_line : Text → Action (Session W) Outcome
  run_line [] x = (ok nothing, x)
  run_line (c ∷ cs) x = run_words (split (strip (c ∷ cs))) x
