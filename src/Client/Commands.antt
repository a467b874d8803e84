-- ===== src/Client/Commands.antt =====
-- testclient/commands.cpp: the commands of the terminal, and their options.
pub mod Execute
pub mod Typed
mod Tests
use Prim.Native.String.{String}
use qchat_server.Base.{
  ℕ, Bool, true, false, not, List, [], ◌∷◌, if◌then◌else◌, Option, none, some, reverse, Result, ok,
  err, Failure, system_error, logic_error, runtime_error, resource_deadlock, never_ends,
  undefined_behaviour, Action, ◌>>=◌, ◌>>◌, pure, ◌==◌,
}
use qchat_server.Base.Dict.{Dict, lookup, insert, erase, contains}
use qchat_server.Net.DataPackage.{DataPackage}
use qchat_server.Options.{
  Text, codes, text_eq, text_key, space, OptionType, Options, add, has_opt_with_value, get_string,
  get_int, parse,
}
use qchat_server.Options.Words.{split}
use qchat_server.Server.Json.{JsonLibrary}
use qchat_server.Client.Requests.{JsonMaking, Request}
use qchat_server.Client.Session.{Session, register_user, login_user, create_group, send_request}

-- A constructor for each subclass of `Command`.
pub data Command : Type 0 where
  help exit register_user_command login_user_command : Command
  create_friend_application accept_friend_application reject_friend_application : Command
  create_group_command create_group_application accept_group_application : Command
  reject_group_application send_friend_message send_group_message : Command
  remove_friend leave_group : Command

-- `m_command_map`. The order of the map shows in the list of `help` alone.
abbrev pub CommandMap : Type 0
CommandMap = Dict Text Command

unfoldable pub add_command : Text → Command → CommandMap → Bool × CommandMap
add_command name command commands =
    if contains name commands then (false, commands) else (true, insert name command commands)

unfoldable pub remove_command : Text → CommandMap → Bool × CommandMap
remove_command name commands =
    if not (contains name commands) then (false, commands) else (true, erase name commands)

unfoldable pub can_find_command : Text → CommandMap → Bool
can_find_command name commands = contains name commands

unfoldable pub get_command : Text → CommandMap → Result Command
get_command name commands = elim (lookup name commands) [
  | none ↦ err logic_error
  | some command ↦ ok command
]

-- The calls of `addCommand` in the constructor.
abbrev pub initial_commands : List (Text × Command)
initial_commands =
    (codes "exit", exit)
    ∷ (codes "help", help)
    ∷ (codes "registerUser", register_user_command)
    ∷ (codes "loginUser", login_user_command)
    ∷ (codes "createFriendApplication", create_friend_application)
    ∷ (codes "acceptFriendApplication", accept_friend_application)
    ∷ (codes "rejectFriendApplication", reject_friend_application)
    ∷ (codes "createGroup", create_group_command)
    ∷ (codes "createGroupApplication", create_group_application)
    ∷ (codes "acceptGroupApplication", accept_group_application)
    ∷ (codes "rejectGroupApplication", reject_group_application)
    ∷ (codes "sendFriendMessage", send_friend_message)
    ∷ (codes "sendGroupMessage", send_group_message)
    ∷ (codes "removeFriend", remove_friend)
    ∷ (codes "leaveGroup", leave_group)
    ∷ []

unfoldable pub add_commands : List (Text × Command) → CommandMap → CommandMap
add_commands [] commands = commands
add_commands ((name, command) ∷ rest) commands =
    add_commands rest (add_command name command commands).1

unfoldable pub command_manager : CommandMap
unfolding add_commands add_command
command_manager = add_commands initial_commands []

-- The calls of `add` in `getOption`.
abbrev pub userid : Text × OptionType
userid = (codes "userid", OptionType.opt_required)

abbrev pub groupid : Text × OptionType
groupid = (codes "groupid", OptionType.opt_required)

abbrev pub message : Text × OptionType
message = (codes "message", OptionType.opt_required)

abbrev pub password : Text × OptionType
password = (codes "password", OptionType.opt_required)

unfoldable pub option_list : Command → List (Text × OptionType)
option_list help = (codes "name", OptionType.opt_optional) ∷ []
option_list exit = []
option_list register_user_command = (codes "email", OptionType.opt_required) ∷ password ∷ []
option_list login_user_command = userid ∷ password ∷ []
option_list create_friend_application = userid ∷ []
option_list accept_friend_application = userid ∷ []
option_list reject_friend_application = userid ∷ []
option_list create_group_command = []
option_list create_group_application = groupid ∷ []
option_list accept_group_application = groupid ∷ userid ∷ []
option_list reject_group_application = groupid ∷ userid ∷ []
option_list send_friend_message = userid ∷ message ∷ []
option_list send_group_message = groupid ∷ message ∷ []
option_list remove_friend = userid ∷ []
option_list leave_group = groupid ∷ []

unfoldable pub add_options : List (Text × OptionType) → Options → Options
add_options [] o = o
add_options ((name, type) ∷ rest) o = add_options rest (add name type o).1

unfoldable pub get_option : Command → Options
get_option command = add_options (option_list command) (record { opts = []; args = [] })
