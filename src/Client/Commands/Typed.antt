-- ===== src/Client/Commands/Typed.antt =====
-- testclient/commands.cpp: commands that are typed with a value for each option.
pub mod Line
use qchat_server.Base.{
  ℕ, ◌≡◌, refl, ap, ◌∙◌, false, List, [], ◌∷◌, ◌++◌, Option, none, some, Result, ok, err, Action,
  All, true, arith,
}
use qchat_server.Base.Dict.{Dict, lookup, insert}
use qchat_server.Net.DataPackage.{DataPackage}
use qchat_server.Options.{
  Text, codes, text_eq, text_key, dashes, equals, OptionType, Options, add, get_string, get_int,
  has_opt, parse, parse_loop, argument, long_option, assign, get_type, set_value, next_value,
  split_at, all_required,
}
use qchat_server.Options.Words.{split, split_loop, strip, drop_spaces, has_no_space}
use qchat_server.Options.Words.Line.{IsWord, line_of, split-strip-line_of}
use qchat_server.Server.Json.{JsonLibrary}
use qchat_server.Client.Requests.{JsonMaking, Request}
use qchat_server.Client.Session.{Session}
use qchat_server.Client.Commands.{
  Command, help, exit, register_user_command, login_user_command, create_friend_application,
  accept_friend_application, reject_friend_application, create_group_command,
  create_group_application, accept_group_application, reject_group_application, send_friend_message,
  send_group_message, remove_friend, leave_group, command_manager, option_list, add_options,
  get_option,
}
use qchat_server.Client.Commands.Execute.{
  Readings, Outcome, unknown_command, call_of, perform_call, execute, run_command, or_reported,
  run_words, run_line,
}

-- A value for each option.
abbrev pub Values : List (Text × OptionType) → Type 0
Values [] = Unit {0}
Values (option ∷ rest) = Text × Values rest

-- "--name=value" for each option.
abbrev pub typed : (options : List (Text × OptionType)) → Values options → List Text
typed [] values = []
typed ((name, type) ∷ rest) (value, values) =
    (dashes ++ (name ++ (equals ∷ value))) ∷ typed rest values

abbrev pub with_values : (options : List (Text × OptionType)) → Values options → Dict Text Text
with_values [] values = []
with_values ((name, type) ∷ rest) (value, values) = (name, value) ∷ with_values rest values

abbrev pub filled : (c : Command) → Values (option_list c) → Options
filled c values = record (get_option c) { args = with_values (option_list c) values }

parse-typed :
    (c : Command) (values : Values (option_list c))
    → parse (typed (option_list c) values) (get_option c) ≡ (ok tt, filled c values)
unfolding option_list get_option add_options add parse parse_loop argument long_option assign
    get_type set_value next_value split_at all_required lookup insert
parse-typed help (u, _) = refl
parse-typed exit _ = refl
parse-typed register_user_command (u, (v, _)) = refl
parse-typed login_user_command (u, (v, _)) = refl
parse-typed create_friend_application (u, _) = refl
parse-typed accept_friend_application (u, _) = refl
parse-typed reject_friend_application (u, _) = refl
parse-typed create_group_command _ = refl
parse-typed create_group_application (u, _) = refl
parse-typed accept_group_application (u, (v, _)) = refl
parse-typed reject_group_application (u, (v, _)) = refl
parse-typed send_friend_message (u, (v, _)) = refl
parse-typed send_group_message (u, (v, _)) = refl
parse-typed remove_friend (u, _) = refl
parse-typed leave_group (u, _) = refl

-- The name under which a command is added.
abbrev pub name_of : Command → Text
name_of exit = codes "exit"
name_of help = codes "help"
name_of register_user_command = codes "registerUser"
name_of login_user_command = codes "loginUser"
name_of create_friend_application = codes "createFriendApplication"
name_of accept_friend_application = codes "acceptFriendApplication"
name_of reject_friend_application = codes "rejectFriendApplication"
name_of create_group_command = codes "createGroup"
name_of create_group_application = codes "createGroupApplication"
name_of accept_group_application = codes "acceptGroupApplication"
name_of reject_group_application = codes "rejectGroupApplication"
name_of send_friend_message = codes "sendFriendMessage"
name_of send_group_message = codes "sendGroupMessage"
name_of remove_friend = codes "removeFriend"
name_of leave_group = codes "leaveGroup"

name_known : (c : Command) → lookup (name_of c) command_manager ≡ some c
unfolding command_manager lookup insert
name_known exit = refl
name_known help = refl
name_known register_user_command = refl
name_known login_user_command = refl
name_known create_friend_application = refl
name_known accept_friend_application = refl
name_known reject_friend_application = refl
name_known create_group_command = refl
name_known create_group_application = refl
name_known accept_group_application = refl
name_known reject_group_application = refl
name_known send_friend_message = refl
name_known send_group_message = refl
name_known remove_friend = refl
name_known leave_group = refl

not_stop : (c : Command) → text_eq (name_of c) (codes "stop") ≡ false
not_stop exit = refl
not_stop help = refl
not_stop register_user_command = refl
not_stop login_user_command = refl
not_stop create_friend_application = refl
not_stop accept_friend_application = refl
not_stop reject_friend_application = refl
not_stop create_group_command = refl
not_stop create_group_application = refl
not_stop accept_group_application = refl
not_stop reject_group_application = refl
not_stop send_friend_message = refl
not_stop send_group_message = refl
not_stop remove_friend = refl
not_stop leave_group = refl

module _ (readings : Readings) where
  open readings use {string_of, stoll}

  -- A request from the number that a text stands for, or what `std::stoll` throws.
  abbrev pub numbered : Text → (ℕ → Request) → Result (Option Request)
  numbered text request = elim (stoll text) [ err x ↦ err x | ok n ↦ ok (some (request n)) ]

  abbrev pub numbered_twice : Text → Text → (ℕ → ℕ → Request) → Result (Option Request)
  numbered_twice text other request = elim (stoll text) [
    | err x ↦ err x
    | ok n ↦ numbered other (request n)
  ]

  -- The request that a command is to make of the values that are typed, in their order.
  unfoldable pub request_of : (c : Command) → Values (option_list c) → Result (Option Request)
  unfolding option_list
  request_of help _ = ok none
  request_of exit _ = ok none
  request_of register_user_command (email, (word, _)) =
      ok (some (Request.register_user (string_of email) (string_of word)))
  request_of login_user_command (user, (word, _)) =
      numbered user λ n. Request.login_user n (string_of word)
  request_of create_friend_application (user, _) = numbered user Request.create_friend_application
  request_of accept_friend_application (user, _) = numbered user Request.apply_friend_application
  request_of reject_friend_application (user, _) = numbered user Request.reject_friend_application
  request_of create_group_command _ = ok (some Request.create_group)
  request_of create_group_application (group, _) = numbered group Request.create_group_application
  request_of accept_group_application (group, (user, _)) =
      numbered_twice group user Request.apply_group_application
  request_of reject_group_application (group, (user, _)) =
      numbered_twice group user Request.reject_group_application
  request_of send_friend_message (user, (text, _)) =
      numbered user λ n. Request.send_friend_message n (string_of text)
  request_of send_group_message (group, (text, _)) =
      numbered group λ n. Request.send_group_message n (string_of text)
  request_of remove_friend (user, _) = numbered user Request.remove_friend
  request_of leave_group (group, _) = numbered group Request.leave_group

  call_of-filled :
      (c : Command) (values : Values (option_list c))
      → call_of readings c (filled c values) ≡ request_of c values
  unfolding option_list get_option add_options add call_of get_string get_int has_opt lookup insert
      request_of
  call_of-filled help _ = refl
  call_of-filled exit _ = refl
  call_of-filled register_user_command (u, (v, _)) = refl
  call_of-filled login_user_command (u, (v, _)) = refl
  call_of-filled create_friend_application (u, _) = refl
  call_of-filled accept_friend_application (u, _) = refl
  call_of-filled reject_friend_application (u, _) = refl
  call_of-filled create_group_command _ = refl
  call_of-filled create_group_application (u, _) = refl
  call_of-filled accept_group_application (u, (v, _)) = refl
  call_of-filled reject_group_application (u, (v, _)) = refl
  call_of-filled send_friend_message (u, (v, _)) = refl
  call_of-filled send_group_message (u, (v, _)) = refl
  call_of-filled remove_friend (u, _) = refl
  call_of-filled leave_group (u, _) = refl

  module _ {W : Type 0} {j : JsonLibrary} (m : JsonMaking j) (to_json : List ℕ → Result j.JsonValue)
      (ask : List ℕ → Action W DataPackage) (x : Session W) where
    -- The words of a command, its name and a value for each of its options, as "--name=value" in the
    -- order in which they were added: whatever the values are, what is done is the call of the session with
    -- these values. An exception, also of reading a number, is printed.
    pub run_typed :
        (c : Command) (values : Values (option_list c))
        → run_words readings m to_json ask (name_of c ∷ typed (option_list c) values) x
          ≡ or_reported readings m to_json ask (elim (request_of c values) [
            | err e ↦ (err e, x)
            | ok call ↦ perform_call readings m to_json ask c (filled c values) call x
          ])
    unfolding run_words run_command execute
    run_typed c values = rw (not_stop c) (
        ap found (name_known c)
        ∙ ap (or_reported readings m to_json ask)
            (ap parsed (parse-typed c values) ∙ ap called (call_of-filled c values)))
      where
        found : Option Command → Result Outcome × Session W
        found o = or_reported readings m to_json ask (elim o [
          | none ↦ (ok (unknown_command (name_of c)), x)
          | some command ↦
              run_command readings m to_json ask command (typed (option_list c) values) x
        ])

        parsed : Result (Unit {0}) × Options → Result Outcome × Session W
        parsed p =
            let (r, o) = p in
            elim r [ err e ↦ (err e, x) | ok _ ↦ execute readings m to_json ask c o x ]

        called : Result (Option Request) → Result Outcome × Session W
        called r = elim r [
          | err e ↦ (err e, x)
          | ok call ↦ perform_call readings m to_json ask c (filled c values) call x
        ]
