-- ===== src/Server/Verification.antt =====
-- server/manager/verificationManager.cpp.
use qchat_server.Base.{
  ℕ, Bool, true, false, not, ◌==◌, if◌then◌else◌, none, some, Result, ok, err, Errc, system_error,
  Action, ◌>>=◌, ◌>>◌,
}
use qchat_server.Base.Dict.{id_key, lookup, insert, erase, contains}
use qchat_server.Room.Group.{add_member}
use qchat_server.Server.User.{
  UserVerification, GroupVerification, VerificationType, add_friend_verification,
  remove_friend_verification, add_group_verification, remove_group_verification, insert_friend,
  insert_group,
}
use qchat_server.Server.State.{
  Server, apply_to, application_key, names_of, with_user, update_user, with_group_room,
}
use qchat_server.Server.Manager.{
  has_user, has_private_room_between, add_private_room, has_group_room,
}

abbrev pub friend_verification : ℕ → VerificationType → UserVerification
friend_verification user type = record { user_id = user; verification_type = type; message = "" }

abbrev pub group_verification : ℕ → ℕ → VerificationType → GroupVerification
group_verification user group type = record {
  user_id = user;
  group_id = group;
  verification_type = type;
  message = "";
}

-- `GroupRoom::getAdministrator` of `getGroupRoom(group)`.
unfoldable pub administrator_of : ℕ → Action Server ℕ
administrator_of group s = elim (lookup group s.group_rooms) [
  | none ↦ (err (system_error Errc.group_room_not_existed), s)
  | some room ↦
      if not room.can_be_used
      then (err (system_error Errc.group_room_unable_to_use), s)
      else (ok room.administrator, s)
]

-- `find` and `emplace` in the map of friend applications, under its mutex.
unfoldable pub enter_friend_application : ℕ → ℕ → Action Server (Unit {0})
enter_friend_application sender receiver s =
    elim (lookup (apply_to sender receiver) s.friend_applications) [
      | some _ ↦ (err (system_error Errc.verification_existed), s)
      | none ↦ (
        ok tt,
        record s {
          friend_applications = insert (apply_to sender receiver) false s.friend_applications;
        },
      )
    ]

unfoldable pub apply_friend_room_verification : ℕ → ℕ → Action Server (Unit {0})
apply_friend_room_verification sender receiver s =
    if sender == receiver
    then (err (system_error Errc.invalid_verification), s)
    else if not (has_user sender s)
    then (err (system_error Errc.user_not_existed), s)
    else if not (has_user receiver s)
    then (err (system_error Errc.user_not_existed), s)
    else if has_private_room_between sender receiver s
    then (err (system_error Errc.private_room_existed), s)
    else (enter_friend_application sender receiver
          >> update_user sender (
              add_friend_verification receiver (friend_verification receiver VerificationType.sent))
          >> update_user receiver (
              add_friend_verification sender
                (friend_verification sender VerificationType.received)))
        s

unfoldable pub has_friend_room_verification : ℕ → ℕ → Server → Bool
has_friend_room_verification sender receiver s =
    if sender == receiver then false else contains (apply_to sender receiver) s.friend_applications

unfoldable pub remove_friend_room_verification : ℕ → ℕ → Action Server (Unit {0})
remove_friend_room_verification sender receiver s =
    if sender == receiver
    then (err (system_error Errc.invalid_verification), s)
    else elim (lookup (apply_to sender receiver) s.friend_applications) [
      | none ↦ (ok tt, s)
      | some _ ↦
          (update_user sender (remove_friend_verification receiver)
              >> update_user receiver (remove_friend_verification sender))
            (record s {
              friend_applications = erase (apply_to sender receiver) s.friend_applications;
            })
    ]

-- `iter->second = true`.
unfoldable pub mark_friend_application : ℕ → ℕ → Action Server (Unit {0})
mark_friend_application sender receiver s =
    elim (lookup (apply_to sender receiver) s.friend_applications) [
      | none ↦ (err (system_error Errc.verification_not_existed), s)
      | some _ ↦ (
        ok tt,
        record s {
          friend_applications = insert (apply_to sender receiver) true s.friend_applications;
        },
      )
    ]

unfoldable pub accept_friend_verification : ℕ → ℕ → Action Server (Unit {0})
accept_friend_verification sender receiver s =
    if sender == receiver
    then (err (system_error Errc.invalid_verification), s)
    else (do
      mark_friend_application sender receiver
      _ ← add_private_room sender receiver
      update_user sender (insert_friend receiver)
      update_user receiver (insert_friend sender)
      remove_friend_room_verification sender receiver)
        s

unfoldable pub reject_friend_verification : ℕ → ℕ → Action Server (Unit {0})
reject_friend_verification sender receiver s =
    if sender == receiver
    then (err (system_error Errc.invalid_verification), s)
    else remove_friend_room_verification sender receiver s

unfoldable pub is_friend_verified : ℕ → ℕ → Server → Result Bool
is_friend_verified sender receiver s =
    if sender == receiver
    then err (system_error Errc.invalid_verification)
    else elim (lookup (apply_to sender receiver) s.friend_applications) [
      | none ↦ err (system_error Errc.verification_not_existed)
      | some verified ↦ ok verified
    ]

-- `find` and `emplace` in the map of group applications, under its mutex; an application that is
-- there is reported as one that is not.
unfoldable pub enter_group_application : ℕ → ℕ → Action Server (Unit {0})
enter_group_application sender group s =
    elim (lookup (apply_to sender group) s.group_applications) [
      | some _ ↦ (err (system_error Errc.verification_not_existed), s)
      | none ↦ (
        ok tt,
        record s { group_applications = insert (apply_to sender group) false s.group_applications },
      )
    ]

unfoldable pub apply_group_room_verification : ℕ → ℕ → Action Server (Unit {0})
apply_group_room_verification sender group s =
    if not (has_group_room group s)
    then (err (system_error Errc.group_room_not_existed), s)
    else if not (has_user sender s)
    then (err (system_error Errc.user_not_existed), s)
    else (do
      enter_group_application sender group
      update_user sender
          (add_group_verification group (group_verification sender group VerificationType.sent))
      admin ← administrator_of group
      update_user admin (
          add_group_verification group (group_verification sender group VerificationType.received)))
        s

unfoldable pub has_group_room_verification : ℕ → ℕ → Server → Bool
has_group_room_verification sender group s = contains (apply_to sender group) s.group_applications

unfoldable pub erase_group_application : ℕ → ℕ → Action Server (Unit {0})
erase_group_application sender group s =
    elim (lookup (apply_to sender group) s.group_applications) [
      | none ↦ (err (system_error Errc.verification_not_existed), s)
      | some _ ↦ (
        ok tt,
        record s { group_applications = erase (apply_to sender group) s.group_applications },
      )
    ]

unfoldable pub remove_group_room_verification : ℕ → ℕ → Action Server (Unit {0})
remove_group_room_verification sender group = do
  erase_group_application sender group
  admin ← administrator_of group
  with_user admin (remove_group_verification group sender)
  with_user sender (remove_group_verification group sender)

unfoldable pub mark_group_application : ℕ → ℕ → Action Server (Unit {0})
mark_group_application sender group s = elim (lookup (apply_to sender group) s.group_applications) [
  | none ↦ (err (system_error Errc.verification_not_existed), s)
  | some _ ↦ (
    ok tt,
    record s { group_applications = insert (apply_to sender group) true s.group_applications },
  )
]

-- `addMember` asks for the user's name, in the state of the call.
unfoldable pub add_member_of : ℕ → ℕ → Action Server Bool
add_member_of group user s = with_group_room group (add_member (names_of s) user) s

unfoldable pub accept_group_room : ℕ → ℕ → Action Server (Unit {0})
accept_group_room sender group = do
  mark_group_application sender group
  _ ← add_member_of group sender
  update_user sender (insert_group group)
  remove_group_room_verification sender group

unfoldable pub reject_group_room : ℕ → ℕ → Action Server (Unit {0})
reject_group_room = remove_group_room_verification

unfoldable pub is_group_room_verified : ℕ → ℕ → Server → Result Bool
is_group_room_verified sender group s = elim (lookup (apply_to sender group) s.group_applications) [
  | none ↦ err (system_error Errc.verification_not_existed)
  | some verified ↦ ok verified
]
