-- ===== src/Console/Stopping.antt =====
-- server/input/input.cpp: when the console stops the server.
use qchat_server.Base.{
  ℕ, ◌≡◌, refl, inl, inr, Bool, true, false, not, ◌||◌, [], ◌∷◌, if◌then◌else◌, Option, none, some,
  Bool-cases, Option-cases, arith, Result, ok, err, leb, length, drop,
}
use qchat_server.Base.Dict.{Dict, lookup, insert}
use qchat_server.Options.{Text, codes, text_eq, text_key, Options, parse, has_opt_with_value}
use qchat_server.Options.Words.{split, drop_spaces, strip}
use qchat_server.Server.User.{User}
use qchat_server.Console.{
  Command, stop, show_user, Console, say, command_map, description, cut_at_dash, describe_all,
  with_prefix, describe_like, help, list_users, execute, console_options, run_found, run_word,
  asks_help, input_words, input, described,
}

-- Whether a call returned false.
abbrev pub answers_false : Result Bool → Bool
answers_false (ok b) = not b
answers_false (err e) = false

-- What a call comes to that began with a first word and a console.
abbrev pub Ends : Text → Console → Result Bool × Console → Type 0
Ends word s (r, s') =
    (answers_false r ≡ true
      → (text_eq (codes "stop") word ≡ true) × (s' ≡ record s { stopped = true }))
    × (answers_false r ≡ false → s'.stopped ≡ s.stopped)

goes_on : (word : Text) (s s' : Console) → s'.stopped ≡ s.stopped → Ends word s (ok true, s')
goes_on word s s' same = ((λ h. cc h), λ h. same)

describe_all_stopped :
    (commands : Dict Text Command) (s : Console) → (describe_all commands s).stopped ≡ s.stopped
unfolding describe_all say
describe_all_stopped [] s = refl
describe_all_stopped ((name, command) ∷ commands) s =
    describe_all_stopped commands (say (described name (description command)) s)

describe_like_stopped :
    (name : Text) (commands : Dict Text Command) (s : Console)
    → (describe_like name commands s).stopped ≡ s.stopped
unfolding describe_like say
describe_like_stopped name [] s = refl
describe_like_stopped name (entry ∷ commands) s = describe_all_stopped (entry ∷ commands) s

help_stopped : (word : Text) (s : Console) → (help word s).stopped ≡ s.stopped
unfolding help say
help_stopped word s = elim (Bool-cases (leb (length word) 5)) [
  | inl alone ↦ rw alone (describe_all_stopped command_map s)
  | inr named ↦ rw named (by_name (lookup (strip (drop 5 word)) command_map))
]
  where
    by_name :
        (o : Option Command)
        → (let name = strip (drop 5 word) in
            let s' : Console = elim o [
              | some command ↦ say (described name (description command)) s
              | none ↦ describe_like name (with_prefix name command_map) s
            ] in
            s'.stopped)
          ≡ s.stopped
    by_name (some command) = refl
    by_name none =
        let name = strip (drop 5 word) in
        describe_like_stopped name (with_prefix name command_map) s

list_users_stopped : (users : Dict ℕ User) (s : Console) → (list_users users s).stopped ≡ s.stopped
unfolding list_users say
list_users_stopped [] s = refl
list_users_stopped ((id, user) ∷ users) s = list_users_stopped users _

-- The command of a name that is in the map.
named_stop :
    (word : Text) → lookup word command_map ≡ some stop → text_eq (codes "stop") word ≡ true
unfolding command_map lookup insert
named_stop word h = ground arith

module _ (users : Dict ℕ User) (word : Text) (s : Console) where
  execute-Ends :
      (command : Command)
      → lookup word command_map ≡ some command
      → Ends word s (execute users command s)
  unfolding execute say
  execute-Ends stop h = ((λ e. (named_stop word h, refl)), λ e. cc e)
  execute-Ends show_user h = goes_on word s _ (list_users_stopped users _)

  run_found-Ends :
      (command : Command) (arguments : Text)
      → lookup word command_map ≡ some command
      → Ends word s (run_found users word command arguments s)
  unfolding run_found say
  run_found-Ends command arguments h = after (parse (split arguments) console_options)
    where
      after :
          (p : Result (Unit {0}) × Options)
          → Ends word s (
              let (r, o) = p in
              let q : Result Bool × Console = elim r [
                | err e ↦ (err e, s)
                | ok _ ↦
                    if has_opt_with_value (codes "help") o || has_opt_with_value (codes "h") o
                    then (ok true, say (described word (description command)) s)
                    else execute users command s
              ] in
              q)
      after (err e, o) = ((λ x. cc x), λ x. refl)
      after (ok _, o) =
          elim (Bool-cases
            (has_opt_with_value (codes "help") o || has_opt_with_value (codes "h") o)) [
              | inl helps ↦ rw helps (goes_on word s _ refl)
              | inr runs ↦ rw runs (execute-Ends command h)
            ]

  run_word-Ends : (arguments : Text) → Ends word s (run_word users word arguments s)
  unfolding run_word say
  run_word-Ends arguments = elim (Option-cases (lookup word command_map)) [
    | inl missing ↦ rw (missing, run_word) (goes_on word s _ refl)
    | inr (command, found) ↦ rw (found, run_word) (run_found-Ends command arguments found)
  ]

input_words-Ends :
    (users : Dict ℕ User) (word arguments : Text) (s : Console)
    → Ends word s (input_words users word arguments s)
unfolding input_words
input_words-Ends users [] arguments s = goes_on [] s s refl
input_words-Ends users (c ∷ cs) arguments s = elim (Bool-cases (asks_help (split (c ∷ cs)))) [
  | inl helps ↦ rw helps (goes_on (c ∷ cs) s _ (help_stopped (c ∷ cs) s))
  | inr runs ↦ rw runs (run_word-Ends users (c ∷ cs) s arguments)
]

-- Whatever is typed, `input` returns false only where the text before the first dash is the word stop,
-- but for spaces before and behind it; then the network has been stopped and nothing was logged. If it
-- returns true or throws, then it has not stopped the network.
pub input-Ends :
    (users : Dict ℕ User) (param : Text) (s : Console)
    → Ends (strip (cut_at_dash (drop_spaces param)).0) s (input users param s)
unfolding input
input-Ends users param s = input_words-Ends users _ (cut_at_dash (drop_spaces param)).1 s
