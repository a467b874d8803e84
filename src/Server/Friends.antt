-- ===== src/Server/Friends.antt =====
-- server/user/user.cpp: the friends of a user, `self`.
pub mod Applying
pub mod Making
pub mod Removing
use qchat_server.Base.{
  ℕ, Bool, true, false, not, ◌||◌, ◌==◌, if◌then◌else◌, ok, err, Action, ◌>>◌, pure,
}
use qchat_server.Room.Tcp.{Notice}
use qchat_server.Server.User.{user_has_friend, erase_friend}
use qchat_server.Server.State.{Server, update_user, send_json_to_user}
use qchat_server.Server.Manager.{has_user, has_private_room_between, get_user}
use qchat_server.Server.Verification.{
  apply_friend_room_verification, has_friend_room_verification, accept_friend_verification,
  reject_friend_verification,
}

unfoldable pub add_friend : ℕ → ℕ → Action Server Bool
add_friend self friend s =
    if self == friend || not (has_user friend s)
    then (ok false, s)
    else if has_private_room_between self friend s
    then (ok false, s)
    else if has_friend_room_verification self friend s
    then (ok false, s)
    else (apply_friend_room_verification self friend
          >> send_json_to_user friend (Notice.added_friend_verification self)
          >> pure true)
        s

-- The test with which `acceptFriend` and `rejectFriend` begin.
unfoldable pub has_application_from : ℕ → ℕ → Server → Bool
has_application_from friend self s =
    if self == friend || not (has_user friend s)
    then false
    else has_friend_room_verification friend self s

unfoldable pub accept_friend : ℕ → ℕ → Action Server Bool
accept_friend self friend s =
    if not (has_application_from friend self s)
    then (ok false, s)
    else (accept_friend_verification friend self
          >> send_json_to_user friend (Notice.added_friend self)
          >> pure true)
        s

unfoldable pub reject_friend : ℕ → ℕ → Action Server Bool
reject_friend self friend s =
    if not (has_application_from friend self s)
    then (ok false, s)
    else (reject_friend_verification friend self
          >> send_json_to_user friend (Notice.rejected_to_add_friend self)
          >> pure true)
        s

-- `userHasFriend` of the object itself.
unfoldable pub is_friend : ℕ → ℕ → Server → Bool
is_friend friend self s = elim (get_user self s) [ err _ ↦ false | ok u ↦ user_has_friend friend u ]

-- `m_impl->removeFriend(friend)`, and of the friend's object `m_impl->removeFriend(friend)` too.
unfoldable pub remove_friend : ℕ → ℕ → Action Server Bool
remove_friend self friend s =
    if self == friend || not (has_user friend s)
    then (ok false, s)
    else if not (is_friend friend self s)
    then (ok false, s)
    else (update_user self (λ u. (erase_friend friend u).1)
          >> update_user friend (λ u. (erase_friend friend u).1)
          >> send_json_to_user friend (Notice.removed_friend self)
          >> pure true)
        s
