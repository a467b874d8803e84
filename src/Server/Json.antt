-- ===== src/Server/Json.antt =====
-- What server/jsonMessageProcess takes from the JSON library (`qjson`, a submodule), and the replies
-- that it makes with utils/returnStateMessage.hpp.
use Prim.Native.String.{String}
use qchat_server.Base.{ℕ, ◌≡◌, Bool, true, List, Option, some, Result, ok}
use qchat_server.Base.Dict.{Dict}
use qchat_server.Server.User.{UserVerification, GroupVerification}

-- The types that a command asks of its parameters, `qjson::JInt` and `qjson::JString`.
pub data ParameterType : Type 0 where
  int string : ParameterType

-- `qjson::JObject`, and the methods that are called. An integer is the pattern of its 64 bits; `at`
-- is `operator[]`, which gives a null where the name is missing.
pub record JsonLibrary : Type 1 where
  pub JsonValue : Type 0
  pub is_dict : JsonValue → Bool
  pub has_type : ParameterType → JsonValue → Bool
  pub has_member : String → JsonValue → Bool
  pub find : String → JsonValue → Option JsonValue
  pub at : String → JsonValue → JsonValue
  pub get_int : JsonValue → Result ℕ
  pub get_string : JsonValue → Result String

-- Reading a value by its type goes through, and what `find` finds is what `operator[]` gives.
pub record JsonLaws (j : JsonLibrary) : Type 0 where
  pub at-find : (name : String) (v w : j.JsonValue) → j.find name v ≡ some w → j.at name v ≡ w
  pub int_read : (v : j.JsonValue) → j.has_type int v ≡ true → (n : ℕ) × (j.get_int v ≡ ok n)
  pub string_read :
      (v : j.JsonValue) → j.has_type string v ≡ true → (s : String) × (j.get_string v ≡ ok s)

-- What a reply holds beside its state and its message.
pub data Extra : Type 0 where
  nothing : Extra
  user_id group_id : ℕ → Extra
  has_user : Bool → Extra
  friend_list group_list : List ℕ → Extra
  friend_verifications : Dict ℕ UserVerification → Extra
  group_verifications : Dict ℕ GroupVerification → Extra

-- `makeErrorMessage`, and `makeSuccessMessage` with what is added to it.
pub data Reply : Type 0 where
  error_message : String → Reply
  success_message : String → Extra → Reply
