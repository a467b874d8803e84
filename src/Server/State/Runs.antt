-- ===== src/Server/State/Runs.antt =====
-- `Manager::getUser` of server/manager/manager.cpp, and `sendJsonToUser` of server/user/user.cpp, for a
-- user who is there.
use qchat_server.Base.{ℕ, ◌≡◌, refl, ◌++◌, some, Result, ok}
use qchat_server.Base.Dict.{id_key, lookup, insert}
use qchat_server.Room.Tcp.{Notice}
use qchat_server.Server.User.{User}
use qchat_server.Room.Group.{GroupRoom}
use qchat_server.Server.State.{
  Server, with_user, update_user, with_group_room, send_json_to_user, writes,
}

pub update_user_runs :
    (u : ℕ) (f : User → User) (s : Server) {x : User}
    → lookup u s.users ≡ some x
    → update_user u f s ≡ (ok tt, record s { users = insert u (f x) s.users })
unfolding update_user
update_user_runs u f s e = rw (e, update_user) refl

pub send_json_to_user_runs :
    (u : ℕ) (n : Notice) (s : Server) {x : User}
    → lookup u s.users ≡ some x
    → send_json_to_user u n s ≡ (ok tt, record s { written = s.written ++ writes n x.connections })
unfolding send_json_to_user
send_json_to_user_runs u n s e = rw (e, send_json_to_user) refl

pub with_user_runs :
    {A : Type 0} (u : ℕ) (method : User → Result A × User) (s : Server) {x y : User} {a : A}
    → lookup u s.users ≡ some x
    → method x ≡ (ok a, y)
    → with_user u method s ≡ (ok a, record s { users = insert u y s.users })
unfolding with_user
with_user_runs u method s e ran = rw (e, with_user) (rw ran refl)

pub with_group_room_runs :
    {A : Type 0} (group : ℕ) (method : GroupRoom → Result A × GroupRoom) (s : Server)
    {x y : GroupRoom} {a : A}
    → lookup group s.group_rooms ≡ some x
    → method x ≡ (ok a, y)
    → with_group_room group method s
      ≡ (ok a, record s { group_rooms = insert group y s.group_rooms })
unfolding with_group_room
with_group_room_runs group method s e ran = rw (e, with_group_room) (rw ran refl)
