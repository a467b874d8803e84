-- ===== src/Room/Group/Moderation/Operators.antt =====
-- server/room/groupRoom/groupRoom.cpp: `addOperator` and `removeOperator`.
use Prim.Native.String.{String}
use qchat_server.Base.{
  ℕ, ◌≡◌, ◌≢◌, refl, ap, ◌∙◌, ◌⊎◌, inl, inr, Bool, true, false, some, arith, Result, ok, err,
  undefined_behaviour, if◌then◌else◌, ◌==◌,
}
use qchat_server.Base.Dict.{id_key, lookup, contains, lookup-insert}
use qchat_server.Room.Permission.{PermissionType, GroupPermission, modify_user_permission}
use qchat_server.Room.Group.{GroupRoom, free, shared, has_user}
use qchat_server.Room.Group.Sending.{send_tip_message, send_checked, may_send, post_to_all}
use qchat_server.Room.Group.Moderation.{
  may_change, announce, guarded, add_operator, remove_operator,
}
use qchat_server.Room.Group.Moderation.Authority.{MayChange, may_change_sound, may_change_complete}
use qchat_server.Room.Group.Moderation.Relocking.{Refused}

announce_returns :
    (e : ℕ) (text : String) (now later : ℕ) (room : GroupRoom)
    → room.can_be_used ≡ true
    → contains e room.users ≡ true
    → let (r, room') =
        announce
          (record { users = shared; muted = free; relocked = undefined_behaviour })
          e
          text
          now
          later
          (λ s. s)
          room in
      (r ≡ ok true)
      × (room'.permission ≡ room.permission)
      × (room'.users ≡ room.users)
      × (room'.administrator ≡ room.administrator)
unfolding announce send_tip_message send_checked may_send has_user post_to_all
announce_returns e text now later room usable member = ground arith

-- The method returned true: the user's permission is changed as told, everyone else's is kept, and
-- so are the members and the administrator.
pub record Changed (to : PermissionType) (u : ℕ) (room : GroupRoom)
    (result : Result Bool × GroupRoom) : Type 0 where
  pub returned : result.0 ≡ ok true
  pub permissions :
      (v : ℕ)
      → lookup v result.1.permission.users
        ≡ (if u == v then some to else lookup v room.permission.users)
  pub users : result.1.users ≡ room.users
  pub administrator : result.1.administrator ≡ room.administrator

guarded_changes :
    (from to : PermissionType) (e u : ℕ) (room : GroupRoom)
    (act : GroupRoom → Result Bool × GroupRoom)
    → (MayChange from e u room → Changed to u room (act room))
    → (MayChange from e u room × Changed to u room (guarded (may_change from e u room) act room))
      ⊎ ((¬ MayChange from e u room) × Refused room (guarded (may_change from e u room) act room))
guarded_changes from to e u room act runs = go (may_change from e u room) refl
  where
    denied : may_change from e u room ≢ ok true → ¬ MayChange from e u room
    denied differs o = differs (may_change_complete from e u room o)

    go :
        (r : Result Bool)
        → may_change from e u room ≡ r
        → (MayChange from e u room × Changed to u room (guarded r act room))
          ⊎ ((¬ MayChange from e u room) × Refused room (guarded r act room))
    go (err x) eq = inr (denied (λ k. cc), (λ k. cc, refl))
    go (ok false) eq = inr (denied (λ k. cc), (λ k. cc, refl))
    go (ok true) eq =
        let o : MayChange from e u room = may_change_sound from e u room eq in inl (o, runs o)

changed :
    (to : PermissionType) (e u : ℕ) (text : String) (now later : ℕ) (room : GroupRoom)
    → room.can_be_used ≡ true
    → contains e room.users ≡ true
    → Changed to u room (
        announce
          (record { users = shared; muted = free; relocked = undefined_behaviour })
          e
          text
          now
          later
          (λ s. s)
          (record room { permission = modify_user_permission u to room.permission }))
unfolding modify_user_permission
changed to e u text now later room usable member =
    let room' : GroupRoom = record room {
      permission = modify_user_permission u to room.permission;
    } in
    let (returned, permission, users, administrator) =
      announce_returns e text now later room' usable member in
    record {
      returned = returned;
      permissions = λ v.
          ap (λ (p : GroupPermission). lookup v p.users) permission
          ∙ lookup-insert v u to room.permission.users;
      users = users;
      administrator = administrator;
    }

-- `addOperator` returns true and makes the user an operator exactly when both are members, the
-- executor is the administrator and the user has the default type; everyone else's permission, the
-- members and the administrator stay. Otherwise it does not return true and changes nothing.
pub add_operator_lem :
    (e u now later : ℕ) (room : GroupRoom)
    → (MayChange PermissionType.default e u room
        × Changed PermissionType.operator u room (add_operator e u now later room))
      ⊎ ((¬ MayChange PermissionType.default e u room)
          × Refused room (add_operator e u now later room))
unfolding add_operator
add_operator_lem e u now later room =
    guarded_changes PermissionType.default PermissionType.operator e u room _
      λ o. changed PermissionType.operator e u _ now later room o.0.usable o.0.executor_in

-- `removeOperator` returns true and makes the user a default member exactly when both are members,
-- the executor is the administrator and the user is an operator; everyone else's permission, the
-- members and the administrator stay. Otherwise it does not return true and changes nothing.
pub remove_operator_lem :
    (e u now later : ℕ) (room : GroupRoom)
    → (MayChange PermissionType.operator e u room
        × Changed PermissionType.default u room (remove_operator e u now later room))
      ⊎ ((¬ MayChange PermissionType.operator e u room)
          × Refused room (remove_operator e u now later room))
unfolding remove_operator
remove_operator_lem e u now later room =
    guarded_changes PermissionType.operator PermissionType.default e u room _
      λ o. changed PermissionType.default e u _ now later room o.0.usable o.0.executor_in
