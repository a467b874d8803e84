-- ===== src/Client/Commands/Tests.antt =====
-- A message that is typed.
use qchat_server.Base.{refl, ℕ, ◌-◌, ◌≡◌, false, List, [], ◌∷◌, ok, err, logic_error, Action, some}
use qchat_server.Net.DataPackage.{DataPackage}
use qchat_server.Options.{codes}
use qchat_server.Server.Service.Tests.{Json, library}
use qchat_server.Client.Requests.{JsonMaking, Request}
use qchat_server.Client.Session.{Session, send_request}
use qchat_server.Client.Commands.{Command, option_list}
use qchat_server.Client.Commands.Execute.{
  Readings, done, perform_call, or_reported, run_words, run_line, perform,
}
use qchat_server.Client.Commands.Typed.Line.{run_line-typed}
use qchat_server.Client.Commands.Typed.{Values, run_typed, request_of, filled}

abbrev maker : JsonMaking library
maker = record {
  empty_dict = Json.null;
  put = λ name w v. v;
  from_int = Json.number;
  from_string = Json.string;
  to_string = λ v. [];
}

-- One digit is a number, and every text is the same.
abbrev readings : Readings
readings = record {
  string_of = λ text. "hello";
  stoll = λ text. elim text [ [] ↦ err logic_error | c ∷ _ ↦ ok (c - 48) ];
}

abbrev ask : List ℕ → Action (Unit {0}) DataPackage
ask text w = (err logic_error, w)

abbrev session : Session (Unit {0})
session = record { network = tt; user_id = 0; has_login = false }

-- Nobody has logged in, so that the request is not sent.
not_sent :
    run_words readings maker
      (λ bytes. ok Json.null)
      ask
      (codes "sendFriendMessage" ∷ codes "--userid=2" ∷ codes "--message=hello" ∷ [])
      session
    ≡ (ok (done false), session)
unfolding option_list request_of perform_call perform send_request or_reported
not_sent =
    run_typed readings maker (λ bytes. ok Json.null) ask session Command.send_friend_message
      (codes "2", (codes "hello", tt))

seven : Values (option_list Command.leave_group)
unfolding option_list
seven = (codes "7", tt)

run_line-typed_example :
    run_line readings maker (λ bytes. ok Json.null) ask (codes "leaveGroup --groupid=7") session
    ≡ or_reported readings maker
        (λ bytes. ok Json.null)
        ask
        (perform_call readings maker
          (λ bytes. ok Json.null)
          ask
          Command.leave_group
          (filled Command.leave_group seven)
          (some (Request.leave_group 7))
          session)
unfolding option_list request_of seven
run_line-typed_example =
    run_line-typed readings maker (λ bytes. ok Json.null) ask session Command.leave_group seven
      (refl, tt)
