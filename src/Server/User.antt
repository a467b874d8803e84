-- ===== src/Server/User.antt =====
-- server/user/user.{h,cpp}: the data of a user, and the methods that touch nothing else. The digest
-- of a password with a salt is OpenSSL's, and comes as an argument.
use Prim.Native.String.{String}
use text.Mathlib.Text.{◌==◌ as str_eq}
use qchat_server.Base.{
  ℕ, Bool, not, [], ◌∷◌, ltb, ◌==◌, if◌then◌else◌, none, some, Result, ok, err, Errc, system_error,
  undefined_behaviour,
}
use qchat_server.Base.Int.{ℤ, pos}
use qchat_server.Base.Dict.{Dict, id_key, lookup, insert, erase, emplace, contains}

-- `enum class DeviceType` of server/main/definition.hpp.
pub data DeviceType : Type 0 where
  unknown personal_computer phone web : DeviceType

-- `struct Verification`.
pub data VerificationType : Type 0 where
  unknown sent received : VerificationType

pub record UserVerification : Type 0 where
  pub user_id : ℕ
  pub verification_type : VerificationType
  pub message : String

pub record GroupVerification : Type 0 where
  pub user_id : ℕ
  pub group_id : ℕ
  pub verification_type : VerificationType
  pub message : String

-- `std::unordered_set` of ids.
abbrev pub IdSet : Type 0
IdSet = Dict ℕ (Unit {0})

-- A connection is known by the number of its `shared_ptr`. The multimap of group verifications is in
-- the order of its keys, and for one key in the order of insertion.
pub record User : Type 0 where
  pub user_id : ℕ
  pub user_name : String
  pub registered_time : ℕ
  pub age : ℤ
  pub email : String
  pub phone : String
  pub profile : String
  pub password : String
  pub salt : String
  pub friends : IdSet
  pub friend_verifications : Dict ℕ UserVerification
  pub groups : IdSet
  pub group_verifications : Dict ℕ GroupVerification
  pub connections : Dict ℕ DeviceType

-- The constructor, at `registered_time`.
unfoldable pub new_user : ℕ → ℕ → User
new_user user_id registered_time = record {
  user_id = user_id;
  user_name = "";
  registered_time = registered_time;
  age = pos 0;
  email = "";
  phone = "";
  profile = "";
  password = "";
  salt = "";
  friends = [];
  friend_verifications = [];
  groups = [];
  group_verifications = [];
  connections = [];
}

-- `sha512_proxy(password, salt)`.
abbrev pub Digest : Type 0
Digest = String → String → String

unfoldable pub is_user_password : Digest → String → User → Bool
is_user_password digest password u = str_eq (digest password u.salt) u.password

unfoldable pub update_user_email : String → User → User
update_user_email email u = record u { email = email }

unfoldable pub update_user_name : String → User → User
update_user_name name u = record u { user_name = name }

unfoldable update_age : ℤ → User → User
update_age age u = record u { age = age }

unfoldable update_user_phone : String → User → User
update_user_phone digits u = record u { phone = digits }

unfoldable update_user_profile : String → User → User
update_user_profile profile u = record u { profile = profile }

-- The salt is a random number's text.
unfoldable pub first_update_user_password :
    Digest → String → String → User → Result (Unit {0}) × User
first_update_user_password digest salt password u =
    if not (str_eq u.password "")
    then (err (system_error Errc.password_already_set), u)
    else (ok tt, record u { password = digest password salt; salt = salt })

unfoldable pub update_user_password :
    Digest → String → String → String → User → Result (Unit {0}) × User
update_user_password digest salt old password u =
    if not (is_user_password digest old u)
    then (err (system_error Errc.password_mismatched), u)
    else (ok tt, record u { password = digest password salt; salt = salt })

unfoldable pub user_has_friend : ℕ → User → Bool
user_has_friend friend u = contains friend u.friends

unfoldable pub user_has_group : ℕ → User → Bool
user_has_group group u = contains group u.groups

-- `UserImpl::removeFriend`.
unfoldable pub erase_friend : ℕ → User → Bool × User
erase_friend friend u = (contains friend u.friends, record u { friends = erase friend u.friends })

-- `updateFriendList` and `updateGroupList` with the callbacks that the server gives them.
unfoldable pub insert_friend : ℕ → User → User
insert_friend friend u = record u { friends = insert friend tt u.friends }

unfoldable pub insert_group : ℕ → User → User
insert_group group u = record u { groups = insert group tt u.groups }

unfoldable pub add_friend_verification : ℕ → UserVerification → User → User
add_friend_verification friend v u = record u {
  friend_verifications = emplace friend v u.friend_verifications;
}

unfoldable pub remove_friend_verification : ℕ → User → User
remove_friend_verification friend u = record u {
  friend_verifications = erase friend u.friend_verifications;
}

-- `multimap::insert`: behind the entries of the same key.
unfoldable pub insert_multi :
    ℕ → GroupVerification → Dict ℕ GroupVerification → Dict ℕ GroupVerification
insert_multi group v [] = (group, v) ∷ []
insert_multi group v ((k, w) ∷ d) =
    if ltb group k then (group, v) ∷ (k, w) ∷ d else (k, w) ∷ insert_multi group v d

unfoldable pub add_group_verification : ℕ → GroupVerification → User → User
add_group_verification group v u = record u {
  group_verifications = insert_multi group v u.group_verifications;
}

-- The loop of `removeGroupVerification`, from the first entry of the group on. It reads the entry
-- that it stands on before it asks whether it stands on the end.
unfoldable pub remove_verification_of :
    ℕ → ℕ → Dict ℕ GroupVerification → Result (Dict ℕ GroupVerification)
remove_verification_of group user [] = err undefined_behaviour
remove_verification_of group user ((k, v) ∷ d) =
    if not (k == group)
    then ok ((k, v) ∷ d)
    else if v.user_id == user
    then ok d
    else elim (remove_verification_of group user d) [ err e ↦ err e | ok r ↦ ok ((k, v) ∷ r) ]

-- `find(group)`, and what stands before it.
unfoldable pub remove_first_of :
    ℕ → ℕ → Dict ℕ GroupVerification → Result (Dict ℕ GroupVerification)
remove_first_of group user [] = err (system_error Errc.verification_not_existed)
remove_first_of group user ((k, v) ∷ d) =
    if k == group
    then remove_verification_of group user ((k, v) ∷ d)
    else elim (remove_first_of group user d) [ err e ↦ err e | ok r ↦ ok ((k, v) ∷ r) ]

unfoldable pub remove_group_verification : ℕ → ℕ → User → Result (Unit {0}) × User
remove_group_verification group user u = elim (remove_first_of group user u.group_verifications) [
  | err e ↦ (err e, u)
  | ok d ↦ (ok tt, record u { group_verifications = d })
]

unfoldable pub add_connection : ℕ → DeviceType → User → Result (Unit {0}) × User
add_connection c type u = elim (lookup c u.connections) [
  | some _ ↦ (err (system_error Errc.socket_pointer_existed), u)
  | none ↦ (ok tt, record u { connections = insert c type u.connections })
]

unfoldable has_connection : ℕ → User → Bool
has_connection c u = contains c u.connections

unfoldable pub modify_connection_type : ℕ → DeviceType → User → Result (Unit {0}) × User
modify_connection_type c type u = elim (lookup c u.connections) [
  | none ↦ (err (system_error Errc.null_socket_pointer), u)
  | some _ ↦ (ok tt, record u { connections = insert c type u.connections })
]

unfoldable pub remove_connection : ℕ → User → Result (Unit {0}) × User
remove_connection c u = elim (lookup c u.connections) [
  | none ↦ (err (system_error Errc.null_socket_pointer), u)
  | some _ ↦ (ok tt, record u { connections = erase c u.connections })
]
