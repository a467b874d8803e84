-- ===== src/Client/Requests.antt =====
-- testclient/session.cpp: the requests that the methods of `Session` make.
pub mod Reading
pub mod Meaning
use Prim.Native.String.{String}
use text.Mathlib.Text.{◌==◌ as str_eq}
use qchat_server.Base.{
  ℕ, ◌≡◌, Bool, true, List, [], ◌∷◌, if◌then◌else◌, Option, none, some, is_some, Result, ok,
}
use qchat_server.Server.Json.{JsonLibrary, ParameterType}

-- What the client calls of the JSON library to make a value: an empty dictionary, `json[name] = value`,
-- a value from an integer or a text, and `to_string`.
pub record JsonMaking (j : JsonLibrary) : Type 0 where
  pub empty_dict : j.JsonValue
  pub put : String → j.JsonValue → j.JsonValue → j.JsonValue
  pub from_int : ℕ → j.JsonValue
  pub from_string : String → j.JsonValue
  pub to_string : j.JsonValue → List ℕ

-- A dictionary has the entries that were put in, and a value of an integer or a text has its type and
-- is read by the getter of it.
pub record MakingLaws (j : JsonLibrary) (m : JsonMaking j) : Type 0 where
  pub empty-is_dict : j.is_dict m.empty_dict ≡ true
  pub put-is_dict :
      (name : String) (w v : j.JsonValue) → j.is_dict v ≡ true → j.is_dict (m.put name w v) ≡ true
  pub find-put :
      (name other : String) (w v : j.JsonValue)
      → j.is_dict v ≡ true
      → j.find other (m.put name w v) ≡ (if str_eq name other then some w else j.find other v)
  pub has_member-find :
      (name : String) (v : j.JsonValue) → j.has_member name v ≡ is_some (j.find name v)
  pub int_typed : (n : ℕ) → j.has_type ParameterType.int (m.from_int n) ≡ true
  pub int_same : (n : ℕ) → j.get_int (m.from_int n) ≡ ok n
  pub string_typed : (s : String) → j.has_type ParameterType.string (m.from_string s) ≡ true
  pub string_same : (s : String) → j.get_string (m.from_string s) ≡ ok s

-- A constructor for each method that sends a request, with its arguments. An id is the pattern of its
-- 64 bits.
pub data Request : Type 0 where
  register_user : String → String → Request
  login_user : ℕ → String → Request
  create_friend_application apply_friend_application reject_friend_application : ℕ → Request
  create_group : Request
  create_group_application : ℕ → Request
  apply_group_application reject_group_application : ℕ → ℕ → Request
  send_friend_message send_group_message : ℕ → String → Request
  remove_friend leave_group : ℕ → Request

-- The name of the function that a method asks for.
unfoldable pub function_name : Request → String
function_name (register_user email password) = "register"
function_name (login_user user password) = "login"
function_name (create_friend_application user) = "add_friend"
function_name (apply_friend_application user) = "accept_friend_verification"
function_name (reject_friend_application user) = "reject_friend_verification"
function_name create_group = "create_group"
function_name (create_group_application group) = "add_group"
function_name (apply_group_application group user) = "accept_group_verification"
function_name (reject_group_application group user) = "reject_group_verification"
function_name (send_friend_message user message) = "send_friend_message"
function_name (send_group_message group message) = "send_group_message"
function_name (remove_friend user) = "remove_friend"
function_name (leave_group group) = "leave_group"

module _ {j : JsonLibrary} (m : JsonMaking j) where
  open m use {empty_dict, put, from_int, from_string}

  -- The loop of `makeJsonFunctionDataPackage`.
  unfoldable pub put_parameters : List (String × j.JsonValue) → j.JsonValue → j.JsonValue
  put_parameters [] json = json
  put_parameters ((name, value) ∷ list) json =
      put_parameters list (put "parameters" (put name value (j.at "parameters" json)) json)

  unfoldable pub make_json_function_data_package :
      String → List (String × j.JsonValue) → j.JsonValue
  make_json_function_data_package name list =
      put_parameters list
        (put "parameters" empty_dict (put "function" (from_string name) empty_dict))

  -- The list of parameters that a method gives.
  unfoldable pub parameters : Request → List (String × j.JsonValue)
  parameters (register_user email password) =
      ("email", from_string email) ∷ ("password", from_string password) ∷ []
  parameters (login_user user password) =
      ("user_id", from_int user)
      ∷ ("password", from_string password)
      ∷ ("device", from_string "PersonalComputer")
      ∷ []
  parameters (create_friend_application user) = ("user_id", from_int user) ∷ []
  parameters (apply_friend_application user) = ("user_id", from_int user) ∷ []
  parameters (reject_friend_application user) = ("user_id", from_int user) ∷ []
  parameters create_group = []
  parameters (create_group_application group) = ("group_id", from_int group) ∷ []
  parameters (apply_group_application group user) =
      ("group_id", from_int group) ∷ ("user_id", from_int user) ∷ []
  parameters (reject_group_application group user) =
      ("group_id", from_int group) ∷ ("user_id", from_int user) ∷ []
  parameters (send_friend_message user message) =
      ("user_id", from_int user) ∷ ("message", from_string message) ∷ []
  parameters (send_group_message group message) =
      ("group_id", from_int group) ∷ ("message", from_string message) ∷ []
  parameters (remove_friend user) = ("user_id", from_int user) ∷ []
  parameters (leave_group group) = ("group_id", from_int group) ∷ []

  -- The JSON value that a method sends.
  unfoldable pub json_of : Request → j.JsonValue
  json_of request = make_json_function_data_package (function_name request) (parameters request)
