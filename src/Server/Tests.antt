-- ===== src/Server/Tests.antt =====
-- A server with two users and two connections, and the theorems at it.
use qchat_server.Base.{
  ℕ, ◌≡◌, ◌≢◌, refl, [], ◌∷◌, ◌==◌, if◌then◌else◌, some, arith, ok, true, false,
}
use qchat_server.Base.Dict.{id_key, lookup}
use qchat_server.Room.History.{no_user}
use qchat_server.Room.Permission.{no_permissions}
use qchat_server.Room.Group.{GroupRoom, new_member, has_member}
use qchat_server.Server.User.{User, DeviceType, VerificationType, new_user}
use qchat_server.Server.State.{Server, apply_to}
use qchat_server.Server.Manager.{has_private_room_between, get_private_room_id, get_private_room}
use qchat_server.Server.Verification.{
  has_friend_room_verification, has_group_room_verification, group_verification,
}
use qchat_server.Server.Groups.{leave_group, accept_group}
use qchat_server.Server.Groups.Joining.{is_in_group, accept_group_lem}
use qchat_server.Server.Groups.Leaving.{administrator_leaves}
use qchat_server.Server.Friends.Applying.{friendship_made}
use qchat_server.Server.Friends.{add_friend, accept_friend, remove_friend, is_friend}
use qchat_server.Server.Friends.Making.{accept_friend_lem, room_of}
use qchat_server.Server.Friends.Removing.{remove_friend_lem}
use qchat_server.Server.Connections.{modify_user_of_connection}
use qchat_server.Server.Connections.Links.{IsLinked, modify_user_of_connection-IsLinked}

abbrev pub alice : User
alice = record (new_user 1 0) { connections = (70, DeviceType.phone) ∷ [] }

-- Alice is logged in on the connection 70, nobody on 71.
abbrev pub office : Server
office = record {
  users = (1, alice) ∷ (2, new_user 2 0) ∷ [];
  group_rooms = [];
  private_rooms = [];
  private_ids = [];
  connections = (70, 1) ∷ (71, no_user) ∷ [];
  new_user_id = 3;
  new_private_room_id = 1;
  new_group_room_id = 1;
  friend_applications = [];
  group_applications = [];
  written = [];
}

pub office-IsLinked : IsLinked office
unfolding new_user lookup
office-IsLinked u c = ground arith

pub real_user : 2 ≢ no_user
real_user = omega arith

-- Bob logs in on Alice's connection.
modify_user_of_connection_example :
    let (r, s') = modify_user_of_connection 70 2 DeviceType.web office in
    (r ≡ ok tt)
    × IsLinked s'
    × ((d : ℕ)
        → lookup d s'.connections ≡ (if 70 == d then some 2 else lookup d office.connections))
unfolding lookup
modify_user_of_connection_example =
    modify_user_of_connection-IsLinked 70 2 DeviceType.web office office-IsLinked real_user refl
      refl

-- Alice, 1, and Bob, 2, before and after they are friends.
abbrev applied : Server
applied = record office { friend_applications = (apply_to 2 1, false) ∷ [] }

different_ids : ◌≢◌ {A = ℕ} 1 2
different_ids = omega arith

other_ids : ◌≢◌ {A = ℕ} 2 1
other_ids = omega arith

accept_friend_example :
    let (r, s') = accept_friend 1 2 applied in
    (r ≡ ok true)
    × (is_friend 2 1 s' ≡ true)
    × (is_friend 1 2 s' ≡ true)
    × (has_friend_room_verification 2 1 s' ≡ false)
    × (get_private_room_id 2 1 s' ≡ ok 1)
    × (get_private_room_id 1 2 s' ≡ ok 1)
    × (get_private_room 1 s' ≡ ok (room_of 2 1))
unfolding lookup
accept_friend_example = accept_friend_lem 1 2 applied different_ids refl refl refl

abbrev friends : Server
friends = record office {
  users =
      (1, record alice { friends = (2, tt) ∷ [] })
      ∷ (2, record (new_user 2 0) { friends = (1, tt) ∷ [] })
      ∷ [];
}

remove_friend_example :
    let (r, s') = remove_friend 1 2 friends in
    (r ≡ ok true) × (is_friend 2 1 s' ≡ false) × (is_friend 1 2 s' ≡ is_friend 1 2 friends)
unfolding lookup
remove_friend_example = remove_friend_lem 1 2 friends different_ids refl refl refl

-- A group room of Alice and Bob, whose administrator is Alice.
abbrev shared_room : GroupRoom
shared_room = record {
  tcp = record { joined = (1, 1) ∷ (2, 2) ∷ []; notified = [] };
  group_id = 5;
  administrator = 1;
  can_be_used = true;
  permission = no_permissions;
  users = (1, new_member "Alice") ∷ (2, new_member "Bob") ∷ [];
  muted = [];
  messages = [];
}

abbrev with_group : Server
with_group = record office { group_rooms = (5, shared_room) ∷ [] }

administrator_leaves_example :
    let (r, t) = leave_group 1 5 with_group in
    (r ≡ ok false)
    × ((after : GroupRoom) × (lookup 5 t.group_rooms ≡ some after)
        × (after.administrator ≡ 1)
        × (has_member 1 after ≡ ok false))
unfolding lookup
administrator_leaves_example = administrator_leaves 1 5 with_group refl refl refl

friendship_made_example :
    let (applied, s') = add_friend 2 1 office in
    let (accepted, s'') = accept_friend 1 2 s' in
    (applied ≡ ok true)
    × (accepted ≡ ok true)
    × (is_friend 1 2 s'' ≡ true)
    × (is_friend 2 1 s'' ≡ true)
    × (has_friend_room_verification 2 1 s'' ≡ false)
unfolding lookup has_private_room_between
friendship_made_example = friendship_made 2 1 office other_ids refl refl refl refl

-- Bob has applied for the room of Alice.
abbrev own_room : GroupRoom
own_room = record shared_room {
  tcp = record { joined = (1, 1) ∷ []; notified = [] };
  users = (1, new_member "Alice") ∷ [];
}

abbrev with_applicant : Server
with_applicant = record office {
  users =
      (
        1,
        record alice {
          group_verifications = (5, group_verification 2 5 VerificationType.received) ∷ [];
        },
      )
      ∷ (
        2,
        record (new_user 2 0) {
          group_verifications = (5, group_verification 2 5 VerificationType.sent) ∷ [];
        },
      )
      ∷ [];
  group_rooms = (5, own_room) ∷ [];
  group_applications = (apply_to 2 5, false) ∷ [];
}

accept_group_example :
    let (r, t) = accept_group 1 5 2 with_applicant in
    (r ≡ ok true)
    × ((after : GroupRoom) × (lookup 5 t.group_rooms ≡ some after)
        × (has_member 2 after ≡ ok true)
        × (after.administrator ≡ 1))
    × (is_in_group 5 2 t ≡ true)
    × (has_group_room_verification 2 5 t ≡ false)
    × ((admin : User) × (lookup 1 t.users ≡ some admin) × (admin.group_verifications ≡ []))
    × ((applicant : User) × (lookup 2 t.users ≡ some applicant)
        × (applicant.group_verifications ≡ []))
unfolding lookup
accept_group_example =
    accept_group_lem 1 2 5 with_applicant different_ids refl refl refl refl refl refl refl
      (omega arith, tt) refl (omega arith, tt) refl
