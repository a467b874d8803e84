-- ===== src/Server/Service/Tests.antt =====
-- A small JSON library, and requests at the server with two users.
use Prim.Native.String.{String}
use text.Mathlib.Text.{◌==◌ as str_eq}
use qchat_server.Base.{
  ℕ, ◌≡◌, refl, Bool, true, false, ◌&&◌, [], ◌∷◌, if◌then◌else◌, Option, none, some, ◌==◌, ok, err,
  logic_error, arith, All,
}
use qchat_server.Base.Dict.{id_key, lookup, insert}
use qchat_server.Net.Endianness.{Endian}
use qchat_server.Net.DataPackage.{DataPackage}
use qchat_server.Room.History.{no_user}
use qchat_server.Server.Connections.Links.{IsLinked}
use qchat_server.Server.Json.{
  JsonLibrary, JsonLaws, ParameterType, Extra, Reply, error_message, success_message,
}
use qchat_server.Server.Commands.{Command, options, command_type, command_list}
use qchat_server.Server.Manager.{has_user}
use qchat_server.Server.Commands.Execute.{Surroundings}
use qchat_server.Server.Process.{Session, dispatch, login, turned_away, wrong_parameter}
use qchat_server.Server.Process.Parameters.{IsReadable, wrong_parameter-IsReadable}
use qchat_server.Server.Process.Guard.{succeeded, not_logged_in}
use qchat_server.Server.Process.Login.{admits, login_lem}
use qchat_server.Server.Service.{Texts, process}
use qchat_server.Server.Service.Answer.{IsSendable, received, packed, answer, process-answer}
use qchat_server.Server.Tests.{office, office-IsLinked, real_user}

mutual
  pub data Json : Type 0 where
    null : Json
    number : ℕ → Json
    string : String → Json
    dict : Fields → Json

  pub data Fields : Type 0 where
    empty : Fields
    field : String → Json → Fields → Fields

abbrev find_field : String → Fields → Option Json
find_field name empty = none
find_field name (field key value rest) =
    let found = find_field name rest in if str_eq name key then some value else found

abbrev find : String → Json → Option Json
find name (dict fields) = find_field name fields
find name _ = none

abbrev has_type : ParameterType → Json → Bool
has_type ParameterType.int (number _) = true
has_type ParameterType.string (string _) = true
has_type _ _ = false

abbrev pub library : JsonLibrary
library = record {
  JsonValue = Json;
  is_dict = λ v. elim v [ dict _ ↦ true | null ↦ false | number _ ↦ false | string _ ↦ false ];
  has_type = has_type;
  has_member = λ name v. elim (find name v) [ none ↦ false | some _ ↦ true ];
  find = find;
  at = λ name v. elim (find name v) [ none ↦ null | some w ↦ w ];
  get_int = λ v. elim v [
    | number n ↦ ok n
    | null ↦ err logic_error
    | string _ ↦ err logic_error
    | dict _ ↦ err logic_error
  ];
  get_string = λ v. elim v [
    | string s ↦ ok s
    | null ↦ err logic_error
    | number _ ↦ err logic_error
    | dict _ ↦ err logic_error
  ];
}

pub library-JsonLaws : JsonLaws library
library-JsonLaws = record { at-find = at-find; int_read = int_read; string_read = string_read }
  where
    at-find : (name : String) (v w : Json) → library.find name v ≡ some w → library.at name v ≡ w
    at-find name v w h = ground arith

    int_read :
        (v : Json) → has_type ParameterType.int v ≡ true → (n : ℕ) × (library.get_int v ≡ ok n)
    int_read (number n) h = (n, refl)
    int_read null h = ground arith
    int_read (string s) h = ground arith
    int_read (dict fields) h = ground arith

    string_read :
        (v : Json)
        → has_type ParameterType.string v ≡ true
        → (s : String) × (library.get_string v ≡ ok s)
    string_read (string s) h = (s, refl)
    string_read (number n) h = ground arith
    string_read null h = ground arith
    string_read (dict fields) h = ground arith

-- The parameters of a message to the user 2.
abbrev greeting : Json
greeting = dict (field "user_id" (number 2) (field "message" (string "hello") empty))

wrong_parameter-IsReadable_example :
    All (IsReadable library greeting) (options Command.send_friend_message)
unfolding options wrong_parameter
wrong_parameter-IsReadable_example =
    wrong_parameter-IsReadable library-JsonLaws (options Command.send_friend_message) greeting refl

abbrev pub surroundings : Surroundings
surroundings = record {
  email_match = λ email. true;
  digest = λ password salt. password;
  salt = "salt";
  now = 5;
  later = 6;
}

-- Nobody has logged in, and Alice has.
abbrev stranger : Session
stranger = record { server = office; local_user = no_user }

abbrev customer : Session
customer = record { server = office; local_user = 1 }

not_logged_in_example :
    (turned_away no_user "send_friend_message" ≡ ok false)
    × (let (r, z') = dispatch library surroundings 71 "send_friend_message" greeting stranger in
        (succeeded r ≡ false) × (z' ≡ stranger))
unfolding lookup insert command_type command_list has_user
not_logged_in_example =
    not_logged_in library surroundings 71 "send_friend_message" greeting stranger
      Command.send_friend_message refl refl refl refl refl

-- Bob logs in on Alice's connection.
login_example :
    let right = admits surroundings.digest 2 "" office in
    let (r, z') = login surroundings 70 2 "" "Web" customer in
    (r
      ≡ ok (
          if right
          then success_message "Successfully logged in!" Extra.nothing
          else error_message "The user ID or password is wrong!"))
    × (z'.local_user ≡ (if right then 2 else 1))
    × IsLinked z'.server
    × ((d : ℕ)
        → lookup d z'.server.connections
          ≡ (if right && 70 == d then some 2 else lookup d office.connections))
    × (z' ≡ (if right then z' else customer))
unfolding lookup
login_example = login_lem surroundings 70 2 "" "Web" customer office-IsLinked real_user refl

-- Texts of the library: every text is the greeting, and every reply is three bytes.
abbrev pub texts : Texts library
texts = record { to_json = λ bytes. ok greeting; to_string = λ reply. 1 ∷ 2 ∷ 3 ∷ [] }

texts-IsSendable : (reply : Reply) → IsSendable texts reply
texts-IsSendable reply = record {
  text_bytes = (omega arith, (omega arith, (omega arith, tt)));
  text_fits = omega arith;
}

abbrev pub stream : DataPackage
stream = record {
  size = 25;
  type = 3;
  sequence_size = 1;
  sequence = 0;
  request_id = 9;
  payload = 7 ∷ [];
}

process-answer_example :
    let (r, z') = process texts Endian.little surroundings 71 (7 ∷ []) stream stranger in
    let (a, z₁) = answer texts surroundings 71 (7 ∷ []) stream stranger in
    (received Endian.big r ≡ packed texts 9 a) × (z' ≡ z₁)
process-answer_example =
    process-answer texts Endian.little Endian.big surroundings 71 (7 ∷ []) stream stranger
      (λ reply replied. texts-IsSendable reply) (omega arith)
