-- ===== src/Server/Groups/Entering.antt =====
-- server/room/groupRoom/groupRoom.cpp: a user enters a usable room, and the room's administrator.
use Prim.Native.String.{String}
use qchat_server.Base.{ℕ, ◌≡◌, refl, ap, Bool, true, some, none, is_some, Result, ok, err, arith}
use qchat_server.Base.Dict.{id_key, lookup, contains, lookup-insert_self}
use qchat_server.Room.Tcp.{UserNames, TcpRoom, join_room}
use qchat_server.Room.Group.{GroupRoom, new_member, add_member}
use qchat_server.Server.State.{Server}
use qchat_server.Server.Verification.{administrator_of}

-- What `addMember` makes of a room.
pub record Joined (user : ℕ) (room : GroupRoom) (result : Result Bool × GroupRoom) : Type 0 where
  pub returned : result.0 ≡ ok true
  pub member : contains user result.1.users ≡ true
  pub usable : result.1.can_be_used ≡ room.can_be_used
  pub administrator : result.1.administrator ≡ room.administrator

join_room_runs :
    (names : UserNames) (user : ℕ) (tcp : TcpRoom) {name : String}
    → names user ≡ some name
    → (join_room names user tcp).0 ≡ ok tt
unfolding join_room
join_room_runs names user tcp named = ground (arith, named)

pub add_member-Joined :
    (names : UserNames) (user : ℕ) (room : GroupRoom) {name : String}
    → room.can_be_used ≡ true
    → names user ≡ some name
    → lookup user room.users ≡ none
    → Joined user room (add_member names user room)
unfolding add_member
add_member-Joined names user room {name} usable named outsider =
    rw (usable, add_member)
      (rw outsider (
        rw named (record {
          returned =
              let finish : Result (Unit {0}) → Result Bool =
                λ r. elim r [ err e ↦ err e | ok _ ↦ ok true ] in
              ap finish (join_room_runs names user room.tcp named);
          member = ap is_some (lookup-insert_self user (new_member name) room.users);
          usable = usable;
          administrator = refl;
        })))

pub administrator_runs :
    (self group : ℕ) (s : Server) {room : GroupRoom}
    → lookup group s.group_rooms ≡ some room
    → room.can_be_used ≡ true
    → room.administrator ≡ self
    → administrator_of group s ≡ (ok self, s)
unfolding administrator_of
administrator_runs self group s there usable administrates =
    rw (there, administrator_of) (rw (usable, administrates) refl)
