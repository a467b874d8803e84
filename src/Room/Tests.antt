-- ===== src/Room/Tests.antt =====
-- Rooms with a few members and messages, and the theorems at these.
use qchat_server.Base.{
  ℕ, ◌+◌, ◌-◌, ◌≤◌, ◌≡◌, ◌⊎◌, false, not, ◌&&◌, [], ◌∷◌, arith, ltb, leb, ◌==◌, if◌then◌else◌, none,
  some, refl, err, resource_deadlock, true, ok,
}
use qchat_server.Base.Int.{pos, ◌+ℤ◌, ◌-ℤ◌, ltb_ℤ}
use qchat_server.Room.Level.{increase, decrease}
use qchat_server.Room.Level.Range.{in_range, increase_lem, decrease_lem}
use qchat_server.Base.Dict.{id_key, lookup, insert, contains}
use qchat_server.Room.Permission.{no_permissions, PermissionType}
use qchat_server.Room.Tcp.{UserNames, empty_room, Notice}
use qchat_server.Room.History.{
  History, MessageStructure, MessageType, no_user, store_message, first_free, insert_message,
  messages_between, clean, week,
}
use qchat_server.Room.History.Slots.{IsSorted, store_message_lem, clean_lem}
use qchat_server.Room.History.Range.{within, messages_between_lem}
use qchat_server.Room.Group.{minute, GroupRoom, new_member}
use qchat_server.Room.Group.Sending.{message_from, send_message}
use qchat_server.Room.Group.Sending.Posting.{Posted, send_message_lem}
use qchat_server.Room.Group.Moderation.{mute_user, kick_user, add_operator, remove_operator}
use qchat_server.Room.Group.Moderation.Authority.{Outranks, MayChange}
use qchat_server.Room.Group.Moderation.Life.{Method, behind, Life}
use qchat_server.Room.Group.Moderation.Relocking.{Refused, mute_user_relocks, kick_user_relocks}
use qchat_server.Room.Group.Moderation.Operators.{Changed, add_operator_lem, remove_operator_lem}

abbrev greeting : MessageStructure
greeting = message_from 1 "hello" MessageType.nomal_message no_user

-- Two messages at neighbouring time points, and a later one.
abbrev three_messages : History
three_messages = (10, greeting) ∷ (11, greeting) ∷ (20, greeting) ∷ []

three_messages-IsSorted : IsSorted three_messages
three_messages-IsSorted = (omega arith, (omega arith, (omega arith, tt)))

store_message_example :
    (t : ℕ) × (10 ≤ t)
    × (lookup t three_messages ≡ none)
    × ((j : ℕ) → (leb 10 j && ltb j t && not (contains j three_messages)) ≡ false)
    × IsSorted (store_message 10 greeting three_messages)
    × ((j : ℕ)
        → lookup j (store_message 10 greeting three_messages)
          ≡ (if t == j then some greeting else lookup j three_messages))
store_message_example = store_message_lem 10 greeting three_messages three_messages-IsSorted

-- Both time points from 10 on are taken up to 12.
stored_at_12 :
    store_message 10 greeting three_messages
    ≡ (10, greeting) ∷ (11, greeting) ∷ (12, greeting) ∷ (20, greeting) ∷ []
unfolding store_message first_free insert_message lookup
stored_at_12 = refl

clean_example :
    IsSorted (clean (week + 11) three_messages)
    × ((j : ℕ)
        → lookup j (clean (week + 11) three_messages)
          ≡ (if ltb (week + 11 - week) j then lookup j three_messages else none))
clean_example = clean_lem (week + 11) three_messages three_messages-IsSorted

messages_between_example : messages_between 11 20 three_messages ≡ within 11 20 three_messages
messages_between_example = messages_between_lem 11 20 three_messages three_messages-IsSorted

-- The administrator 1, the operator 2 and the members 3 and 4, of whom 3 is muted.
abbrev club : GroupRoom
club = record {
  tcp = empty_room;
  group_id = 100;
  administrator = 1;
  can_be_used = true;
  permission = record {
    permissions = [];
    users =
        (1, PermissionType.administrator)
        ∷ (2, PermissionType.operator)
        ∷ (3, PermissionType.default)
        ∷ (4, PermissionType.default)
        ∷ [];
  };
  users =
      (1, new_member "one")
      ∷ (2, new_member "two")
      ∷ (3, new_member "three")
      ∷ (4, new_member "four")
      ∷ [];
  muted = (3, record { start = 5; minutes = 1 }) ∷ [];
  messages = three_messages;
}

mute_user_example :
    (Outranks 2 4 club
      × (mute_user resource_deadlock 2 4 30 50 51 club ≡ (
        err resource_deadlock,
        record club { muted = insert 4 (record { start = 50; minutes = 30 }) club.muted },
      )))
    ⊎ ((¬ Outranks 2 4 club) × Refused club (mute_user resource_deadlock 2 4 30 50 51 club))
mute_user_example = mute_user_relocks resource_deadlock 2 4 30 50 51 club

kick_user_example :
    (Outranks 1 3 club
      × (kick_user resource_deadlock 1 3 50 51 club ≡ (err resource_deadlock, club)))
    ⊎ ((¬ Outranks 1 3 club) × Refused club (kick_user resource_deadlock 1 3 50 51 club))
kick_user_example = kick_user_relocks resource_deadlock 1 3 50 51 club

add_operator_example :
    (MayChange PermissionType.default 1 4 club
      × Changed PermissionType.operator 4 club (add_operator 1 4 50 51 club))
    ⊎ ((¬ MayChange PermissionType.default 1 4 club) × Refused club (add_operator 1 4 50 51 club))
add_operator_example = add_operator_lem 1 4 50 51 club

remove_operator_example :
    (MayChange PermissionType.operator 1 2 club
      × Changed PermissionType.default 2 club (remove_operator 1 2 50 51 club))
    ⊎ ((¬ MayChange PermissionType.operator 1 2 club)
        × Refused club (remove_operator 1 2 50 51 club))
remove_operator_example = remove_operator_lem 1 2 50 51 club

-- The mute of the member 3 ends with the minute.
send_message_example :
    Posted
      (message_from 3 "hi" MessageType.nomal_message no_user)
      (Notice.group_message 3 100 "hi")
      3
      10
      club
      (send_message 3 "hi" (6 + minute) 10 club)
unfolding lookup
send_message_example =
    send_message_lem 3 "hi" (6 + minute) 10 club refl refl refl three_messages-IsSorted

-- A level rises by 5, and falls below the range.
increase_example :
    let (r, level') = increase (pos 1) (pos 100) (pos 5) (pos 1) in
    let inside = in_range (pos 1) (pos 100) (pos 1 +ℤ pos 5) in
    (r ≡ ok inside)
    × (level' ≡ (if inside then pos 1 +ℤ pos 5 else pos 1))
    × (in_range (pos 1) (pos 100) level' ≡ true)
unfolding ◌+ℤ◌
increase_example = increase_lem (pos 1) (pos 100) (pos 5) (pos 1) refl refl

decrease_example :
    (decrease (pos 1) (pos 100) (pos 3) (pos 1) ≡ (ok true, pos 1 -ℤ pos 3))
    × (ltb_ℤ (pos 1 -ℤ pos 3) (pos 1) ≡ true)
unfolding ◌+ℤ◌ ◌-ℤ◌
decrease_example = decrease_lem (pos 1) (pos 100) 3 (omega arith) refl refl refl

-- A room that the user 1 has made and the user 3 has entered.
abbrev members : UserNames
members user = some "somebody"

abbrev new_club : GroupRoom
new_club = record {
  tcp = record { joined = (1, 1) ∷ []; notified = [] };
  group_id = 100;
  administrator = 1;
  can_be_used = true;
  permission = no_permissions;
  users = (1, new_member "somebody") ∷ [];
  muted = [];
  messages = [];
}

abbrev entered_club : GroupRoom
entered_club = behind (Method.adds_member members 3) new_club
