-- ===== src/Server/Commands.antt =====
-- server/jsonMessageProcess/JsonMsgProcessCommand.h, and the list of commands of
-- server/jsonMessageProcess/JsonMsgProcess.cpp.
pub mod Execute
use Prim.Native.String.{String}
use qchat_server.Base.{
  ℕ, Bool, true, false, List, [], ◌∷◌, if◌then◌else◌, none, some, Result, ok, err, Errc,
  system_error,
}
use qchat_server.Base.Dict.{Dict, string_key, lookup, insert, erase, contains}
use qchat_server.Server.Json.{ParameterType}

-- A constructor for each subclass of `JsonMessageCommand`.
pub data Command : Type 0 where
  register has_user search_user add_friend accept_friend_verification : Command
  reject_friend_verification get_friend_list get_friend_verification_list remove_friend : Command
  add_group accept_group_verification reject_group_verification get_group_list : Command
  get_group_verification_list create_group remove_group leave_group : Command
  send_friend_message send_group_message : Command

-- `enum CommandType`.
abbrev pub normal_type : ℕ
normal_type = 0

abbrev pub login_type : ℕ
login_type = 1

-- `getCommandType`.
unfoldable pub command_type : Command → ℕ
command_type register = normal_type
command_type has_user = normal_type
command_type search_user = normal_type
command_type add_friend = login_type
command_type accept_friend_verification = login_type
command_type reject_friend_verification = login_type
command_type get_friend_list = login_type
command_type get_friend_verification_list = login_type
command_type remove_friend = login_type
command_type add_group = login_type
command_type accept_group_verification = login_type
command_type reject_group_verification = login_type
command_type get_group_list = login_type
command_type get_group_verification_list = login_type
command_type create_group = login_type
command_type remove_group = login_type
command_type leave_group = login_type
command_type send_friend_message = login_type
command_type send_group_message = login_type

abbrev user_id_option : List (String × ParameterType)
user_id_option = ("user_id", ParameterType.int) ∷ []

abbrev group_id_option : List (String × ParameterType)
group_id_option = ("group_id", ParameterType.int) ∷ []

abbrev group_and_user_options : List (String × ParameterType)
group_and_user_options = ("group_id", ParameterType.int) ∷ ("user_id", ParameterType.int) ∷ []

-- `getOption`.
unfoldable pub options : Command → List (String × ParameterType)
options register = ("email", ParameterType.string) ∷ ("password", ParameterType.string) ∷ []
options has_user = user_id_option
options search_user = user_id_option
options add_friend = user_id_option
options accept_friend_verification = user_id_option
options reject_friend_verification = user_id_option
options get_friend_list = []
options get_friend_verification_list = []
options remove_friend = user_id_option
options add_group = group_id_option
options accept_group_verification = group_and_user_options
options reject_group_verification = group_and_user_options
options get_group_list = []
options get_group_verification_list = []
options create_group = []
options remove_group = group_id_option
options leave_group = group_id_option
options send_friend_message =
    ("user_id", ParameterType.int) ∷ ("message", ParameterType.string) ∷ []
options send_group_message =
    ("group_id", ParameterType.int) ∷ ("message", ParameterType.string) ∷ []

-- `m_function_map`.
abbrev pub CommandList : Type 0
CommandList = Dict String Command

unfoldable pub has_command : String → CommandList → Bool
has_command name commands = contains name commands

unfoldable pub get_command : String → CommandList → Result Command
get_command name commands = elim (lookup name commands) [
  | none ↦ err (system_error Errc.null_pointer)
  | some command ↦ ok command
]

-- `addCommand`, and `init_command` of the constructor.
unfoldable pub add_command : String → Command → CommandList → Bool × CommandList
add_command name command commands =
    if has_command name commands then (false, commands) else (true, insert name command commands)

unfoldable pub remove_command : String → CommandList → Bool × CommandList
remove_command name commands =
    if has_command name commands then (true, erase name commands) else (false, commands)

-- The calls of `init_command`.
abbrev pub initial_commands : List (String × Command)
initial_commands =
    ("register", register)
    ∷ ("has_user", has_user)
    ∷ ("search_user", search_user)
    ∷ ("add_friend", add_friend)
    ∷ ("add_group", add_group)
    ∷ ("get_friend_list", get_friend_list)
    ∷ ("get_group_list", get_group_list)
    ∷ ("send_friend_message", send_friend_message)
    ∷ ("send_group_message", send_group_message)
    ∷ ("accept_friend_verification", accept_friend_verification)
    ∷ ("get_friend_verification_list", get_friend_verification_list)
    ∷ ("accept_group_verification", accept_group_verification)
    ∷ ("get_group_verification_list", get_group_verification_list)
    ∷ ("reject_friend_verification", reject_friend_verification)
    ∷ ("reject_group_verification", reject_group_verification)
    ∷ ("create_group", create_group)
    ∷ ("remove_group", remove_group)
    ∷ ("leave_group", leave_group)
    ∷ ("remove_friend", remove_friend)
    ∷ []

unfoldable pub init_commands : List (String × Command) → CommandList → CommandList
init_commands [] commands = commands
init_commands ((name, command) ∷ rest) commands =
    init_commands rest (add_command name command commands).1

-- `m_jmpc_list`.
unfoldable pub command_list : CommandList
unfolding init_commands add_command has_command
command_list = init_commands initial_commands []
