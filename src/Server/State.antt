-- ===== src/Server/State.antt =====
-- The data of server/manager/manager.cpp (`ManagerImpl`) and server/manager/verificationManager.cpp
-- (`VerificationManagerImpl`), and the writes of `User::notifyAll`.
pub mod Runs
use mathlib.Core.Option
use qchat_server.Base.{
  ℕ, ◌≡◌, Bool, true, false, if◌then◌else◌, ◌&&◌, ◌||◌, List, [], ◌∷◌, ◌++◌, ◌==◌, none, some,
  Result, ok, err, Errc, system_error, Action, arith,
}
use qchat_server.Base.Dict.{Dict, KeyEq, id_key, lookup, insert}
use qchat_server.Room.Tcp.{UserNames, Notice}
use qchat_server.Room.Group.{GroupRoom}
use qchat_server.Room.Private.{PrivateRoom}
use qchat_server.Server.User.{User, DeviceType}

-- `PrivateRoomIDStruct` of server/main/definition.hpp: the order of the users does not matter.
pub record PrivateRoomId : Type 0 where
  pub user_id_1 : ℕ
  pub user_id_2 : ℕ

abbrev pub pair_of : ℕ → ℕ → PrivateRoomId
pair_of a b = record { user_id_1 = a; user_id_2 = b }

abbrev pub private_room_id_eq : PrivateRoomId → PrivateRoomId → Bool
private_room_id_eq a b =
    (a.user_id_1 == b.user_id_1 && a.user_id_2 == b.user_id_2)
    || (a.user_id_2 == b.user_id_1 && a.user_id_1 == b.user_id_2)

pub pair_refl : (a : PrivateRoomId) → private_room_id_eq a a ≡ true
pair_refl a = ground arith

pub pair_sym : (a b : PrivateRoomId) → private_room_id_eq a b ≡ private_room_id_eq b a
pair_sym a b = ground arith

pub pair_left :
    (a b c : PrivateRoomId)
    → private_room_id_eq a b ≡ true
    → private_room_id_eq a c ≡ private_room_id_eq b c
pair_left a b c h = ground arith

instance abbrev pub private_room_id_key : KeyEq PrivateRoomId
private_room_id_key = record {
  beq = private_room_id_eq;
  beq_refl = pair_refl;
  beq_sym = pair_sym;
  beq_left = pair_left;
}

-- `FriendVerification`, and `GroupVerification` of the manager: who applies, and to whom or what.
pub record Application : Type 0 where
  pub applicator : ℕ
  pub controller : ℕ

abbrev pub apply_to : ℕ → ℕ → Application
apply_to a b = record { applicator = a; controller = b }

abbrev pub application_eq : Application → Application → Bool
application_eq a b = a.applicator == b.applicator && a.controller == b.controller

pub application_refl : (a : Application) → application_eq a a ≡ true
application_refl a = ground arith

pub application_sym : (a b : Application) → application_eq a b ≡ application_eq b a
application_sym a b = ground arith

pub application_left :
    (a b c : Application) → application_eq a b ≡ true → application_eq a c ≡ application_eq b c
application_left a b c h = ground arith

instance abbrev pub application_key : KeyEq Application
application_key = record {
  beq = application_eq;
  beq_refl = application_refl;
  beq_sym = application_sym;
  beq_left = application_left;
}

pub record Server : Type 0 where
  pub users : Dict ℕ User
  pub group_rooms : Dict ℕ GroupRoom
  pub private_rooms : Dict ℕ PrivateRoom
  pub private_ids : Dict PrivateRoomId ℕ
  pub connections : Dict ℕ ℕ
  pub new_user_id : ℕ
  pub new_private_room_id : ℕ
  pub new_group_room_id : ℕ
  pub friend_applications : Dict Application Bool
  pub group_applications : Dict Application Bool
  pub written : List (ℕ × Notice)

-- The names that `getUser(id)->getUserName()` gives.
unfoldable pub names_of : Server → UserNames
names_of s user = Option.map (λ (u : User). u.user_name) (lookup user s.users)

-- `getUser(user)`, and a method of the object that it returns.
unfoldable pub with_user : {A : Type 0} → ℕ → (User → Result A × User) → Action Server A
with_user user method s = elim (lookup user s.users) [
  | none ↦ (err (system_error Errc.user_not_existed), s)
  | some u ↦ let (r, u') = method u in (r, record s { users = insert user u' s.users })
]

-- A method that cannot fail.
unfoldable pub update_user : ℕ → (User → User) → Action Server (Unit {0})
update_user user change s = elim (lookup user s.users) [
  | none ↦ (err (system_error Errc.user_not_existed), s)
  | some u ↦ (ok tt, record s { users = insert user (change u) s.users })
]

-- `getGroupRoom(group)`, and a method of the object that it returns.
unfoldable pub with_group_room :
    {A : Type 0} → ℕ → (GroupRoom → Result A × GroupRoom) → Action Server A
with_group_room group method s = elim (lookup group s.group_rooms) [
  | none ↦ (err (system_error Errc.group_room_not_existed), s)
  | some room ↦
      let (r, room') = method room in
      (r, record s { group_rooms = insert group room' s.group_rooms })
]

-- One write to each connection of a user.
unfoldable pub writes : Notice → Dict ℕ DeviceType → List (ℕ × Notice)
writes notice [] = []
writes notice ((c, _) ∷ cs) = (c, notice) ∷ writes notice cs

-- `dtype == type`.
abbrev same_type : DeviceType → DeviceType → Bool
same_type DeviceType.unknown DeviceType.unknown = true
same_type DeviceType.personal_computer DeviceType.personal_computer = true
same_type DeviceType.phone DeviceType.phone = true
same_type DeviceType.web DeviceType.web = true
same_type _ _ = false

-- `User::notifyWithType`: one write to each connection of the type.
unfoldable writes_with_type : DeviceType → Notice → Dict ℕ DeviceType → List (ℕ × Notice)
writes_with_type type notice [] = []
writes_with_type type notice ((c, dtype) ∷ cs) =
    let rest = writes_with_type type notice cs in
    if same_type dtype type then (c, notice) ∷ rest else rest

-- `sendJsonToUser`: `getUser` and `notifyAll`.
unfoldable pub send_json_to_user : ℕ → Notice → Action Server (Unit {0})
send_json_to_user user notice s = elim (lookup user s.users) [
  | none ↦ (err (system_error Errc.user_not_existed), s)
  | some u ↦ (ok tt, record s { written = s.written ++ writes notice u.connections })
]
