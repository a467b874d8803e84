-- ===== src/Server/Connections.antt =====
-- server/manager/manager.cpp: which connection belongs to which user. A connection that nobody has
-- logged in on belongs to the id -1.
pub mod Links
use qchat_server.Base.{
  ℕ, Bool, true, false, ◌==◌, if◌then◌else◌, none, some, Result, ok, err, Errc, system_error,
  undefined_behaviour, Action, ◌>>◌, ◌>>=◌,
}
use qchat_server.Base.Dict.{Dict, id_key, lookup, insert, erase, contains}
use qchat_server.Room.History.{no_user}
use qchat_server.Server.User.{User, DeviceType, add_connection, remove_connection}
use qchat_server.Server.State.{Server}

unfoldable pub register_connection : ℕ → Action Server (Unit {0})
register_connection c s = elim (lookup c s.connections) [
  | some _ ↦ (err (system_error Errc.socket_pointer_existed), s)
  | none ↦ (ok tt, record s { connections = insert c no_user s.connections })
]

unfoldable pub has_connection : ℕ → Server → Bool
has_connection c s = contains c s.connections

unfoldable pub match_user_of_connection : ℕ → ℕ → Server → Bool
match_user_of_connection c user s = elim (lookup c s.connections) [
  | none ↦ false
  | some u ↦ u == user
]

unfoldable pub get_user_id_of_connection : ℕ → Server → Result ℕ
get_user_id_of_connection c s = elim (lookup c s.connections) [
  | none ↦ err (system_error Errc.socket_pointer_not_existed)
  | some u ↦ ok u
]

-- `m_user_map.find(user)->second->…`, with no test of what `find` returns.
unfoldable pub on_found_user : ℕ → (User → Result (Unit {0}) × User) → Action Server (Unit {0})
on_found_user user method s = elim (lookup user s.users) [
  | none ↦ (err undefined_behaviour, s)
  | some u ↦ let (r, u') = method u in (r, record s { users = insert user u' s.users })
]

-- `if (iter->second != -1LL)`: the user who was logged in loses the connection.
unfoldable pub detach : ℕ → ℕ → Action Server (Unit {0})
detach c owner s =
    if owner == no_user then (ok tt, s) else on_found_user owner (remove_connection c) s

unfoldable pub modify_user_of_connection : ℕ → ℕ → DeviceType → Action Server (Unit {0})
modify_user_of_connection c user type s = elim (lookup user s.users) [
  | none ↦ (err (system_error Errc.user_not_existed), s)
  | some _ ↦ elim (lookup c s.connections) [
    | none ↦ (err (system_error Errc.socket_pointer_not_existed), s)
    | some owner ↦
        let (detached, s₁) = detach c owner s in
        elim detached [
          | err e ↦ (err e, s₁)
          | ok _ ↦
              let (attached, s₂) = on_found_user user (add_connection c type) s₁ in
              elim attached [
                | err e ↦ (err e, s₂)
                | ok _ ↦ (ok tt, record s₂ { connections = insert c user s₂.connections })
              ]
        ]
  ]
]

unfoldable pub remove_connection_of : ℕ → Action Server (Unit {0})
remove_connection_of c s = elim (lookup c s.connections) [
  | none ↦ (err (system_error Errc.socket_pointer_not_existed), s)
  | some owner ↦
      let (detached, s') = detach c owner s in
      elim detached [
        | err e ↦ (err e, s')
        | ok _ ↦ (ok tt, record s' { connections = erase c s'.connections })
      ]
]
