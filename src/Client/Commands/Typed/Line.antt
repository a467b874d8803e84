-- ===== src/Client/Commands/Typed/Line.antt =====
-- testclient/main.cpp: commands that are typed as a line.
use qchat_server.Base.{
  ℕ, ◌≡◌, refl, ap, ◌∙◌, List, [], ◌∷◌, Result, ok, err, Action, All, true, arith,
}
use qchat_server.Net.DataPackage.{DataPackage}
use qchat_server.Options.{Text, text_key, OptionType}
use qchat_server.Options.Words.{split, split_loop, strip, drop_spaces, has_no_space}
use qchat_server.Options.Words.Line.{IsWord, line_of, split-strip-line_of}
use qchat_server.Server.Json.{JsonLibrary}
use qchat_server.Client.Requests.{JsonMaking}
use qchat_server.Client.Session.{Session}
use qchat_server.Client.Commands.{
  Command, help, exit, register_user_command, login_user_command, create_friend_application,
  accept_friend_application, reject_friend_application, create_group_command,
  create_group_application, accept_group_application, reject_group_application, send_friend_message,
  send_group_message, remove_friend, leave_group, option_list,
}
use qchat_server.Client.Commands.Execute.{Readings, perform_call, or_reported, run_words, run_line}
use qchat_server.Client.Commands.Typed.{Values, typed, filled, name_of, request_of, run_typed}

-- Values without a space.
abbrev pub ArePlain : (options : List (Text × OptionType)) → Values options → Type 0
ArePlain [] values = Unit {0}
ArePlain ((name, type) ∷ rest) (value, values) = (has_no_space value ≡ true) × ArePlain rest values

name-IsWord : (c : Command) → IsWord (name_of c)
name-IsWord exit = (refl, refl)
name-IsWord help = (refl, refl)
name-IsWord register_user_command = (refl, refl)
name-IsWord login_user_command = (refl, refl)
name-IsWord create_friend_application = (refl, refl)
name-IsWord accept_friend_application = (refl, refl)
name-IsWord reject_friend_application = (refl, refl)
name-IsWord create_group_command = (refl, refl)
name-IsWord create_group_application = (refl, refl)
name-IsWord accept_group_application = (refl, refl)
name-IsWord reject_group_application = (refl, refl)
name-IsWord send_friend_message = (refl, refl)
name-IsWord send_group_message = (refl, refl)
name-IsWord remove_friend = (refl, refl)
name-IsWord leave_group = (refl, refl)

typed-AreWords :
    (c : Command) (values : Values (option_list c))
    → ArePlain (option_list c) values
    → All IsWord (typed (option_list c) values)
unfolding option_list
typed-AreWords help (u, _) (f, _) = ((refl, f), tt)
typed-AreWords exit _ _ = tt
typed-AreWords register_user_command (u, (v, _)) (f, (g, _)) = ((refl, f), ((refl, g), tt))
typed-AreWords login_user_command (u, (v, _)) (f, (g, _)) = ((refl, f), ((refl, g), tt))
typed-AreWords create_friend_application (u, _) (f, _) = ((refl, f), tt)
typed-AreWords accept_friend_application (u, _) (f, _) = ((refl, f), tt)
typed-AreWords reject_friend_application (u, _) (f, _) = ((refl, f), tt)
typed-AreWords create_group_command _ _ = tt
typed-AreWords create_group_application (u, _) (f, _) = ((refl, f), tt)
typed-AreWords accept_group_application (u, (v, _)) (f, (g, _)) = ((refl, f), ((refl, g), tt))
typed-AreWords reject_group_application (u, (v, _)) (f, (g, _)) = ((refl, f), ((refl, g), tt))
typed-AreWords send_friend_message (u, (v, _)) (f, (g, _)) = ((refl, f), ((refl, g), tt))
typed-AreWords send_group_message (u, (v, _)) (f, (g, _)) = ((refl, f), ((refl, g), tt))
typed-AreWords remove_friend (u, _) (f, _) = ((refl, f), tt)
typed-AreWords leave_group (u, _) (f, _) = ((refl, f), tt)

module _ (readings : Readings) {W : Type 0} {j : JsonLibrary} (m : JsonMaking j)
    (to_json : List ℕ → Result j.JsonValue) (ask : List ℕ → Action W DataPackage)
    (x : Session W) where
  -- A line that is typed: the name of a command, and behind a space each the options with a value
  -- without a space, as "--name=value" in the order in which they were added. What is done is the
  -- call of the session with these values. An exception, also of reading a number, is printed.
  pub run_line-typed :
      (c : Command) (values : Values (option_list c))
      → ArePlain (option_list c) values
      → run_line readings m to_json ask (line_of (name_of c) (typed (option_list c) values)) x
        ≡ or_reported readings m to_json ask (elim (request_of readings c values) [
          | err e ↦ (err e, x)
          | ok call ↦ perform_call readings m to_json ask c (filled c values) call x
        ])
  unfolding run_line run_words split split_loop strip drop_spaces
  run_line-typed c values plain =
      not_empty (line_of (name_of c) (typed (option_list c) values)) cut
      ∙ run_typed readings m to_json ask x c values
    where
      first : List Text → Text
      first [] = []
      first (word ∷ words) = word

      cut :
          split (strip (line_of (name_of c) (typed (option_list c) values)))
          ≡ name_of c ∷ typed (option_list c) values
      cut =
          split-strip-line_of (name_of c) (typed (option_list c) values) (name-IsWord c)
            (typed-AreWords c values plain)

      not_empty :
          (line : Text)
          → split (strip line) ≡ name_of c ∷ typed (option_list c) values
          → run_line readings m to_json ask line x
            ≡ run_words readings m to_json ask (name_of c ∷ typed (option_list c) values) x
      not_empty [] e =
          let none_typed : [] ≡ name_of c = ap first e in
          absurd (ground (arith, rw (← none_typed) at (name-IsWord c).0))
      not_empty (k ∷ ks) e = ap (λ words. run_words readings m to_json ask words x) e
