-- ===== src/Console.antt =====
-- server/input/input.cpp and server/input/inputCommands.cpp: the console of the server. What is logged
-- is kept.
pub mod Stopping
mod Tests
use Prim.Native.String.{String}
use qchat_server.Base.{
  ℕ, Bool, true, false, not, ◌||◌, List, [], ◌∷◌, ◌++◌, if◌then◌else◌, Option, none, some, Result,
  ok, err, Action, ◌>>=◌, ◌>>◌, pure, ◌==◌, length, take, drop, leb, map,
}
use qchat_server.Base.Dict.{Dict, lookup, insert, emplace}
use qchat_server.Options.{
  Text, codes, text_eq, text_key, space, OptionType, Options, add, has_opt_with_value, parse,
}
use qchat_server.Options.Words.{split, drop_spaces, strip}
use qchat_server.Server.User.{User}

-- `stop_command` and `show_user_command`.
pub data Command : Type 0 where
  stop show_user : Command

-- A line of the log: a command with its description, a name that is no command, "User data list:", and
-- a user.
pub data Line : Type 0 where
  described : Text → Text → Line
  not_existed : Text → Line
  user_data_list : Line
  listed_user : ℕ → String → Line

-- Whether the network has been told to stop, and the log.
pub record Console : Type 0 where
  pub stopped : Bool
  pub log : List Line

unfoldable pub say : Line → Console → Console
say line s = record s { log = s.log ++ line ∷ [] }

-- `getTargetName`: the name of a class with its underscores as spaces.
unfoldable pub target_name : Text → Text
target_name [] = []
target_name (c ∷ cs) = (if c == 95 then space else c) ∷ target_name cs

-- `SET_A_COMMAND` in the constructor.
unfoldable pub command_map : Dict Text Command
unfolding target_name
command_map =
    emplace (target_name (codes "show_user")) show_user
      (emplace (target_name (codes "stop")) stop [])

unfoldable pub description : Command → Text
description stop = codes "stop server"
description show_user = codes "show user's infomation"

-- The loops over the iterator: the text before the first dash, and the text from it on.
unfoldable pub cut_at_dash : Text → Text × Text
cut_at_dash [] = ([], [])
cut_at_dash (c ∷ cs) =
    let (before, behind) = cut_at_dash cs in if c == 45 then ([], c ∷ cs) else (c ∷ before, behind)

-- Every command is logged.
unfoldable pub describe_all : Dict Text Command → Console → Console
describe_all [] s = s
describe_all ((name, command) ∷ commands) s =
    describe_all commands (say (described name (description command)) s)

-- The commands whose names begin with a text, and whether there is one.
unfoldable pub with_prefix : Text → Dict Text Command → Dict Text Command
with_prefix prefix [] = []
with_prefix prefix ((name, command) ∷ commands) =
    let rest = with_prefix prefix commands in
    if text_eq (take (length prefix) name) prefix then (name, command) ∷ rest else rest

unfoldable pub describe_like : Text → Dict Text Command → Console → Console
describe_like name [] s = say (not_existed name) s
describe_like name (entry ∷ commands) s = describe_all (entry ∷ commands) s

-- `help`, alone or with the name of a command.
unfoldable pub help : Text → Console → Console
help first_word s =
    if leb (length first_word) 5
    then describe_all command_map s
    else (let name = strip (drop 5 first_word) in
        elim (lookup name command_map) [
          | some command ↦ say (described name (description command)) s
          | none ↦ describe_like name (with_prefix name command_map) s
        ])

unfoldable pub list_users : Dict ℕ User → Console → Console
list_users [] s = s
list_users ((id, user) ∷ users) s = list_users users (say (listed_user id user.user_name) s)

-- `execute`: whether the server goes on.
unfoldable pub execute : Dict ℕ User → Command → Action Console Bool
execute users stop s = (ok false, record s { stopped = true })
execute users show_user s = (ok true, list_users users (say user_data_list s))

-- `registerCommand().option` with the two options that are added.
unfoldable pub console_options : Options
console_options =
    (add (codes "h") OptionType.opt_optional
      (add (codes "help") OptionType.opt_optional (record { opts = []; args = [] })).1).1

-- A command that was found, with its arguments.
unfoldable pub run_found : Dict ℕ User → Text → Command → Text → Action Console Bool
run_found users name command arguments s =
    let (r, o) = parse (split arguments) console_options in
    elim r [
      | err e ↦ (err e, s)
      | ok _ ↦
          if has_opt_with_value (codes "help") o || has_opt_with_value (codes "h") o
          then (ok true, say (described name (description command)) s)
          else execute users command s
    ]

unfoldable pub run_word : Dict ℕ User → Text → Text → Action Console Bool
run_word users first_word arguments s = elim (lookup first_word command_map) [
  | none ↦ (ok true, say (not_existed first_word) s)
  | some command ↦ run_found users first_word command arguments s
]

-- `words[0] == "help"`.
unfoldable pub asks_help : List Text → Bool
asks_help [] = false
asks_help (word ∷ _) = text_eq word (codes "help")

-- `input`, with the first word stripped.
unfoldable pub input_words : Dict ℕ User → Text → Text → Action Console Bool
input_words users [] arguments s = (ok true, s)
input_words users (c ∷ cs) arguments s =
    if asks_help (split (c ∷ cs))
    then (ok true, help (c ∷ cs) s)
    else run_word users (c ∷ cs) arguments s

unfoldable pub input : Dict ℕ User → Text → Action Console Bool
input users param s =
    let (first_word, arguments) = cut_at_dash (drop_spaces param) in
    input_words users (strip first_word) arguments s
