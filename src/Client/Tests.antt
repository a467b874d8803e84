-- ===== src/Client/Tests.antt =====
-- A client with two numbers of its generator, at the server with two users, and the theorems at it.
use Prim.Native.String.{String}
use text.Mathlib.Text.{◌==◌ as str_eq}
use qchat_server.Base.{
  ℕ, ◌≡◌, ◌≢◌, ◌<◌, refl, ap, ◌∙◌, true, false, List, [], ◌∷◌, ◌==◌, if◌then◌else◌, Option, none,
  some, arith, ok, err, logic_error, is_some,
}
use qchat_server.Base.Dict.{id_key, string_key, lookup, insert, string_sym}
use qchat_server.Net.Endianness.{Endian}
use qchat_server.Net.DataPackage.{make_package, package_to_string}
use qchat_server.Net.DataPackage.PackageType
use qchat_server.Net.DataPackage.Layout.{wire}
use qchat_server.Net.DataPackage.RoundTrip.{string_to_package-wire, make_package-IsPackage}
use qchat_server.Room.History.{no_user}
use qchat_server.Server.Connections.Links.{IsLinked}
use qchat_server.Server.Json.{Extra, Reply, error_message, success_message}
use qchat_server.Server.Commands.Execute as Execute
use qchat_server.Server.Manager.{get_user}
use qchat_server.Server.Process.{process_json_message, or_unknown, on_server}
use qchat_server.Server.Service.{Texts}
use qchat_server.Server.Service.Answer.{IsSendable}
use qchat_server.Server.Service.Tests.{Json, Fields, library, library-JsonLaws, surroundings}
use qchat_server.Server.Service.Tests as Json
use qchat_server.Server.Tests.{office}
use qchat_server.Server.Sessions as Sessions
use qchat_server.Server.Connections.{register_connection}
use qchat_server.Client.Network.{
  Network, Callback, answered, deliver, draw, send_data_with_option, send_with_id, send_data,
  call_received_stdstring, connected,
}
use qchat_server.Client.Network.Pending.{
  Reachable, start, next, sends, connects, new_network, answered_once,
}
use qchat_server.Client.Requests.{
  JsonMaking, MakingLaws, Request, json_of, make_json_function_data_package, put_parameters,
  function_name, parameters,
}
use qchat_server.Client.Requests.Meaning.{meaning, request_meaning}
use qchat_server.Client.Session.{Session, register_user, login_user, create_group}
use qchat_server.Client.Session.Exchange.{Link, exchange, as_text}
use qchat_server.Client.Session.Answered.{text_package, exchange_lem}
use qchat_server.Client.Session.Asking.{Carries, IsReady, Draws}
use qchat_server.Client.Session.Registering.{register_then_login_user}
use qchat_server.Client.Session.Sending.{create_group_throws}

abbrev put : String → Json → Json → Json
put name value (Json.dict fields) = Json.dict (Json.field name value fields)
put name value Json.null = Json.null
put name value (Json.number n) = Json.number n
put name value (Json.string s) = Json.string s

-- A byte for each of the messages: the first one of the name of its function.
abbrev byte_of : Option Json → ℕ
byte_of (some (Json.string name)) =
    if str_eq name "register" then 1 else if str_eq name "login" then 2 else 3
byte_of (some Json.null) = 0
byte_of (some (Json.number n)) = 0
byte_of (some (Json.dict fields)) = 0
byte_of none = 0

abbrev maker : JsonMaking library
maker = record {
  empty_dict = Json.dict Json.empty;
  put = put;
  from_int = Json.number;
  from_string = Json.string;
  to_string = λ v. byte_of (library.find "function" v) ∷ [];
}

maker-MakingLaws : MakingLaws library maker
maker-MakingLaws = record {
  empty-is_dict = refl;
  put-is_dict = put-is_dict;
  find-put = find-put;
  has_member-find = has_member-find;
  int_typed = λ n. refl;
  int_same = λ n. refl;
  string_typed = λ s. refl;
  string_same = λ s. refl;
}
  where
    put-is_dict :
        (name : String) (w v : Json)
        → library.is_dict v ≡ true
        → library.is_dict (put name w v) ≡ true
    put-is_dict name w (Json.dict fields) h = refl
    put-is_dict name w Json.null h = h
    put-is_dict name w (Json.number n) h = h
    put-is_dict name w (Json.string s) h = h

    find-put :
        (name other : String) (w v : Json)
        → library.is_dict v ≡ true
        → library.find other (put name w v)
          ≡ (if str_eq name other then some w else library.find other v)
    find-put name other w (Json.dict fields) h = ground (arith, string_sym name other)
    find-put name other w Json.null h = cc h
    find-put name other w (Json.number n) h = cc h
    find-put name other w (Json.string s) h = cc h

    has_member-find :
        (name : String) (v : Json) → library.has_member name v ≡ is_some (library.find name v)
    has_member-find name v = ground arith

-- Carol registers and logs in.
abbrev carol : Request
carol = Request.register_user "carol@example.org" "secret"

abbrev carol_logs_in : Request
carol_logs_in = Request.login_user 10_000 "secret"

abbrev says : String → String → Fields → Json
says state message rest =
    Json.dict
      (Json.field "state" (Json.string state) (Json.field "message" (Json.string message) rest))

-- The texts that are read: three messages, and three replies.
json_of_byte : ℕ → Json
unfolding json_of function_name parameters make_json_function_data_package put_parameters
json_of_byte code =
    if code == 1
    then json_of maker carol
    else if code == 2
    then json_of maker carol_logs_in
    else if code == 3
    then json_of maker Request.create_group
    else if code == 4
    then says "success" "Successfully created a new user!"
        (Json.field "user_id" (Json.number 10_000) Json.empty)
    else if code == 5
    then says "success" "Successfully logged in!" Json.empty
    else says "error" "Failed to create a group!" Json.empty

byte_of_reply : Reply → ℕ
byte_of_reply (error_message text) = 6
byte_of_reply (success_message text (Extra.user_id user)) = 4
byte_of_reply (success_message text _) = 5

abbrev texts : Texts library
texts = record {
  to_json = λ bytes. elim bytes [ [] ↦ err logic_error | code ∷ _ ↦ ok (json_of_byte code) ];
  to_string = λ reply. byte_of_reply reply ∷ [];
}

byte_of_reply-lt : (reply : Reply) → byte_of_reply reply < 256
unfolding byte_of_reply
byte_of_reply-lt (error_message text) = omega arith
byte_of_reply-lt (success_message text (Extra.user_id user)) = omega arith
byte_of_reply-lt (success_message text _) = omega arith

texts-IsSendable : (reply : Reply) → IsSendable texts reply
texts-IsSendable reply = record {
  text_bytes = (byte_of_reply-lt reply, tt);
  text_fits = omega arith;
}

carol-Carries :
    Carries maker texts carol
      (success_message "Successfully created a new user!" (Extra.user_id 10_000))
unfolding json_of_byte byte_of_reply json_of function_name parameters
    make_json_function_data_package put_parameters
carol-Carries = record {
  message_read = refl;
  message_bytes = (omega arith, tt);
  message_fits = omega arith;
  reply_sendable = texts-IsSendable _;
  reply_json = json_of_byte 4;
  reply_read = refl;
  reply_holds = record { state = refl; message = refl; extra = refl };
}

carol_logs_in-Carries :
    Carries maker texts carol_logs_in (success_message "Successfully logged in!" Extra.nothing)
unfolding json_of_byte byte_of_reply json_of function_name parameters
    make_json_function_data_package put_parameters
carol_logs_in-Carries = record {
  message_read = refl;
  message_bytes = (omega arith, tt);
  message_fits = omega arith;
  reply_sendable = texts-IsSendable _;
  reply_json = json_of_byte 5;
  reply_read = refl;
  reply_holds = record { state = refl; message = refl; extra = tt };
}

create_group-Carries :
    Carries maker texts Request.create_group (error_message "Failed to create a group!")
unfolding json_of_byte byte_of_reply json_of function_name parameters
    make_json_function_data_package put_parameters
create_group-Carries = record {
  message_read = refl;
  message_bytes = (omega arith, tt);
  message_fits = omega arith;
  reply_sendable = texts-IsSendable _;
  reply_json = json_of_byte 6;
  reply_read = refl;
  reply_holds = record { state = refl; message = refl; extra = tt };
}

-- A client that is connected, at a server on which nobody has logged in on the connection 71.
abbrev fresh_client : Network
fresh_client = record (new_network (5 ∷ 6 ∷ [])) { is_receiving = true }

abbrev link : Link
link = record { client = fresh_client; server = record { server = office; local_user = no_user } }

abbrev session : Session Link
session = record { network = link; user_id = 0; has_login = false }

link-IsReady : IsReady link
unfolding lookup
link-IsReady = record {
  open_socket = refl;
  nothing_read = refl;
  pending = record { agree = λ id. refl };
}

link-Draws : Draws link 5 (6 ∷ [])
unfolding draw lookup
link-Draws = record { drawn = refl; real = omega arith; small = omega arith }

-- The same client at a server that has just begun, on its first connection.
abbrev opened : Sessions.World
opened = Sessions.connect 71 Sessions.new_world

opened-Reachable : Sessions.Reachable texts Endian.big opened
unfolding lookup
opened-Reachable = Sessions.next Sessions.start (Sessions.connects Sessions.new_world 71 refl)

abbrev first_session : Session Link
first_session = record session {
  network = record link { server = record { server = opened.server; local_user = no_user } };
}

first-IsReady : IsReady first_session.network
unfolding lookup
first-IsReady = record {
  open_socket = refl;
  nothing_read = refl;
  pending = record { agree = λ id. refl };
}

first-Draws : Draws first_session.network 5 (6 ∷ [])
unfolding draw lookup
first-Draws = record { drawn = refl; real = omega arith; small = omega arith }

second-Draws :
    Draws (record first_session.network { client = record fresh_client { numbers = 6 ∷ [] } }) 6 []
unfolding draw lookup
second-Draws = record { drawn = refl; real = omega arith; small = omega arith }

new_id : 10_000 ≢ no_user
new_id = omega arith

register_then_login_user_example :
    let ask = exchange texts Endian.little Endian.big surroundings 71 0 in
    let (u, x₁) =
      register_user maker texts.to_json ask "carol@example.org" "secret" first_session in
    let (done, x₂) = login_user maker texts.to_json ask 10_000 "secret" x₁ in
    (u ≡ ok (some 10_000))
    × (done ≡ ok true)
    × (x₂.user_id ≡ 10_000)
    × (x₂.has_login ≡ true)
    × (x₂.network.server.local_user ≡ 10_000)
    × (lookup 71 x₂.network.server.server.connections ≡ some 10_000)
    × IsLinked x₂.network.server.server
    × IsReady x₂.network
unfolding lookup insert Sessions.connect register_connection
register_then_login_user_example =
    register_then_login_user texts library-JsonLaws maker-MakingLaws Endian.little Endian.big
      surroundings 71 0 "carol@example.org" "secret" first_session 5 6 (6 ∷ []) [] opened
      carol-Carries carol_logs_in-Carries first-IsReady first-Draws second-Draws refl
      opened-Reachable refl refl new_id

-- The message of a request to the user 2, on a connection on which nobody has logged in.
request_meaning_example :
    process_json_message library surroundings 71
      (json_of maker (Request.send_friend_message 2 "hello"))
      link.server
    ≡ or_unknown (meaning surroundings 71 (Request.send_friend_message 2 "hello") link.server)
request_meaning_example =
    request_meaning library-JsonLaws maker-MakingLaws surroundings 71 link.server
      (Request.send_friend_message 2 "hello")

-- Nobody has logged in, so that no group is made.
create_group_fails :
    meaning surroundings 71 Request.create_group link.server
    ≡ (ok (error_message "Failed to create a group!"), link.server)
unfolding on_server Execute.create_group Execute.or_reply Execute.found_user get_user lookup
create_group_fails = refl

exchange_example : exchange texts Endian.little Endian.big surroundings 71 0 (3 ∷ []) link ≡ (
  ok (text_package (6 ∷ []) 5),
  record {
    client = record fresh_client {
      numbers = 6 ∷ [];
      written = wire (text_package (3 ∷ []) 5) ∷ [];
    };
    server = link.server;
  },
)
unfolding byte_of_reply json_of_byte or_unknown
exchange_example =
    exchange_lem texts Endian.little Endian.big surroundings 71 0 (3 ∷ []) link 5 (6 ∷ [])
      link.server (json_of maker Request.create_group) (error_message "Failed to create a group!")
      (texts-IsSendable _) (omega arith, tt) (omega arith) refl refl link-IsReady.pending
      link-Draws.drawn link-Draws.real link-Draws.small refl
      (request_meaning library-JsonLaws maker-MakingLaws surroundings 71 link.server
          Request.create_group
        ∙ ap or_unknown create_group_fails)

-- A client that has logged in before, on another connection.
abbrev old_session : Session Link
old_session = record session { user_id = 2; has_login = true }

-- A member that is missing is a null, which is no integer.
missing_int :
    (name : String) (v : Json)
    → library.has_member name v ≡ false
    → library.get_int (library.at name v) ≡ err logic_error
missing_int name v absent = ground (arith, absent)

create_group_throws_example :
    (create_group maker texts.to_json
      (exchange texts Endian.little Endian.big surroundings 71 0)
      old_session).0
    ≡ err logic_error
unfolding json_of_byte create_group-Carries
create_group_throws_example =
    create_group_throws texts library-JsonLaws maker-MakingLaws Endian.little Endian.big
      surroundings 71 0 old_session 5 (6 ∷ []) link.server "Failed to create a group!" logic_error
      create_group-Carries refl link-IsReady link-Draws create_group_fails missing_int refl

-- A client that has connected and sent a request, whose answer arrives.
abbrev asked : Network
asked =
    (send_data_with_option Endian.little (3 ∷ []) (some as_text) (some 0)
      (connected (new_network (5 ∷ 6 ∷ []))).1).1

asked-Reachable : Reachable Endian.little asked
asked-Reachable =
    next (next (start (5 ∷ 6 ∷ [])) (connects (new_network (5 ∷ 6 ∷ []))))
      (sends _ (3 ∷ []) (some as_text) (some 0))

abbrev answer : List ℕ
answer = wire (text_package [] 5)

answered_once_example :
    let (r, n') = call_received_stdstring Endian.little answer asked in
    (f : Callback) × (lookup 5 asked.functions ≡ some f)
    × (r ≡ ok (answered f (text_package [] 5) ∷ []))
    × ((i : ℕ) → i ≢ 5 → lookup i n'.functions ≡ lookup i asked.functions)
    × (call_received_stdstring Endian.little answer n'
        ≡ (ok (deliver answer asked.received_callbacks), n'))
unfolding make_package send_data_with_option send_with_id send_data connected draw lookup insert
    package_to_string
answered_once_example =
    answered_once answer (text_package [] 5) asked-Reachable
      (string_to_package-wire Endian.little (text_package [] 5) (
        make_package-IsPackage [] PackageType.text 1 0 5 tt (omega arith) (omega arith)
          (omega arith) (omega arith) (omega arith)))
      refl (omega arith)
