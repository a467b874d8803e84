-- ===== src/Server/Frame/Calls.antt =====
-- server/manager and server/user: what the calls on friends and groups leave alone.
use qchat_server.Base.{ℕ, ◌≡◌, refl, not, ◌==◌, arith, ok, ◌>>◌, inl, inr, Option-cases}
use qchat_server.Base.Dict.{id_key, lookup, erase}
use qchat_server.Server.User.{
  User, VerificationType, UserVerification, GroupVerification, add_friend_verification,
  remove_friend_verification, add_group_verification, remove_group_verification, insert_friend,
  insert_group, erase_friend,
}
use qchat_server.Server.State.{
  Server, apply_to, application_key, private_room_id_key, update_user, with_group_room,
}
use qchat_server.Server.Manager.{
  has_user, add_private_room, add_group_room, remove_group_room, has_group_room,
}
use qchat_server.Server.Verification.{
  enter_friend_application, apply_friend_room_verification, remove_friend_room_verification,
  mark_friend_application, accept_friend_verification, reject_friend_verification,
  enter_group_application, apply_group_room_verification, erase_group_application,
  remove_group_room_verification, mark_group_application, add_member_of, accept_group_room,
  administrator_of, friend_verification,
}
use qchat_server.Server.Frame.{
  Keeps, stays, others-Keeps, bind-Keeps, if-Frames, guard-Keeps, reader-Keeps, update_user-Keeps,
  with_user-Keeps, with_group_room-Keeps,
}

-- What a user's object keeps.
pub add_friend_verification-same :
    (f : ℕ) (v : UserVerification) (x : User)
    → (add_friend_verification f v x).connections ≡ x.connections
unfolding add_friend_verification
add_friend_verification-same f v x = refl

pub remove_friend_verification-same :
    (f : ℕ) (x : User) → (remove_friend_verification f x).connections ≡ x.connections
unfolding remove_friend_verification
remove_friend_verification-same f x = refl

pub add_group_verification-same :
    (g : ℕ) (v : GroupVerification) (x : User)
    → (add_group_verification g v x).connections ≡ x.connections
unfolding add_group_verification
add_group_verification-same g v x = refl

pub remove_group_verification-same :
    (g u : ℕ) (x : User) → (remove_group_verification g u x).1.connections ≡ x.connections
unfolding remove_group_verification
remove_group_verification-same g u x = ground arith

pub insert_friend-same : (f : ℕ) (x : User) → (insert_friend f x).connections ≡ x.connections
unfolding insert_friend
insert_friend-same f x = refl

pub insert_group-same : (g : ℕ) (x : User) → (insert_group g x).connections ≡ x.connections
unfolding insert_group
insert_group-same g x = refl

pub erase_friend-same : (f : ℕ) (x : User) → (erase_friend f x).1.connections ≡ x.connections
unfolding erase_friend
erase_friend-same f x = refl

-- The maps of the manager and of the verification manager.
pub add_private_room-Keeps : (a b : ℕ) → Keeps (add_private_room a b)
unfolding add_private_room
add_private_room-Keeps a b =
    others-Keeps (add_private_room a b) (λ s. ground arith) (λ s. ground arith) (λ s. ground arith)

pub add_group_room-Keeps : (a : ℕ) → Keeps (add_group_room a)
unfolding add_group_room
add_group_room-Keeps a =
    others-Keeps (add_group_room a) (λ s. ground arith) (λ s. ground arith) (λ s. ground arith)

pub remove_group_room-Keeps : (a : ℕ) → Keeps (remove_group_room a)
unfolding remove_group_room
remove_group_room-Keeps a =
    others-Keeps (remove_group_room a) (λ s. ground arith) (λ s. ground arith) (λ s. ground arith)

pub enter_friend_application-Keeps : (a b : ℕ) → Keeps (enter_friend_application a b)
unfolding enter_friend_application
enter_friend_application-Keeps a b =
    others-Keeps (enter_friend_application a b) (λ s. ground arith) (λ s. ground arith)
      (λ s. ground arith)

pub mark_friend_application-Keeps : (a b : ℕ) → Keeps (mark_friend_application a b)
unfolding mark_friend_application
mark_friend_application-Keeps a b =
    others-Keeps (mark_friend_application a b) (λ s. ground arith) (λ s. ground arith)
      (λ s. ground arith)

pub enter_group_application-Keeps : (a b : ℕ) → Keeps (enter_group_application a b)
unfolding enter_group_application
enter_group_application-Keeps a b =
    others-Keeps (enter_group_application a b) (λ s. ground arith) (λ s. ground arith)
      (λ s. ground arith)

pub mark_group_application-Keeps : (a b : ℕ) → Keeps (mark_group_application a b)
unfolding mark_group_application
mark_group_application-Keeps a b =
    others-Keeps (mark_group_application a b) (λ s. ground arith) (λ s. ground arith)
      (λ s. ground arith)

pub erase_group_application-Keeps : (a b : ℕ) → Keeps (erase_group_application a b)
unfolding erase_group_application
erase_group_application-Keeps a b =
    others-Keeps (erase_group_application a b) (λ s. ground arith) (λ s. ground arith)
      (λ s. ground arith)

pub administrator_of-Keeps : (group : ℕ) → Keeps (administrator_of group)
unfolding administrator_of
administrator_of-Keeps group =
    others-Keeps (administrator_of group) (λ s. ground arith) (λ s. ground arith)
      (λ s. ground arith)

-- Applications for friendship.
pub apply_friend_room_verification-Keeps : (a b : ℕ) → Keeps (apply_friend_room_verification a b)
unfolding apply_friend_room_verification
apply_friend_room_verification-Keeps a b = record {
  run = λ s. search (if-Frames, stays, applies.run);
}
  where
    applies : Keeps (
        enter_friend_application a b
        >> update_user a (add_friend_verification b (friend_verification b VerificationType.sent))
        >> update_user b
            (add_friend_verification a (friend_verification a VerificationType.received)))
    applies = search (
      bind-Keeps, enter_friend_application-Keeps, update_user-Keeps, add_friend_verification-same,
    )

pub erase_friend_application-Keeps :
    (a b : ℕ)
    → Keeps (λ s.
      (ok tt, record s { friend_applications = erase (apply_to a b) s.friend_applications }))
erase_friend_application-Keeps a b = others-Keeps _ (λ s. refl) (λ s. refl) (λ s. refl)

pub remove_friend_room_verification-Keeps : (a b : ℕ) → Keeps (remove_friend_room_verification a b)
unfolding remove_friend_room_verification
remove_friend_room_verification-Keeps a b = record {
  run = λ s.
      if-Frames (a == b) (stays _)
        (elim (Option-cases (lookup (apply_to a b) s.friend_applications)) [
          | inl missing ↦ rw missing (stays (ok tt))
          | inr (_, found) ↦ rw found (removal.run s)
        ]);
}
  where
    removal : Keeps (
        (λ (s : Server).
          (ok tt, record s { friend_applications = erase (apply_to a b) s.friend_applications }))
        >> (update_user a (remove_friend_verification b)
            >> update_user b (remove_friend_verification a)))
    removal = bind-Keeps (erase_friend_application-Keeps a b) λ _.
        bind-Keeps
          (update_user-Keeps a (remove_friend_verification b) (remove_friend_verification-same b))
          λ _.
            update_user-Keeps b (remove_friend_verification a) (remove_friend_verification-same a)

pub accept_friend_verification-Keeps : (a b : ℕ) → Keeps (accept_friend_verification a b)
unfolding accept_friend_verification
accept_friend_verification-Keeps a b =
    guard-Keeps (λ _. a == b) _
      (bind-Keeps (mark_friend_application-Keeps a b) λ _.
        bind-Keeps (add_private_room-Keeps a b) λ _.
          bind-Keeps (update_user-Keeps a _ (insert_friend-same b)) λ _.
            bind-Keeps (update_user-Keeps b _ (insert_friend-same a))
              λ _. remove_friend_room_verification-Keeps a b)

pub reject_friend_verification-Keeps : (a b : ℕ) → Keeps (reject_friend_verification a b)
unfolding reject_friend_verification
reject_friend_verification-Keeps a b =
    guard-Keeps (λ _. a == b) _ (remove_friend_room_verification-Keeps a b)

-- Applications for membership.
pub apply_group_room_verification-Keeps : (a g : ℕ) → Keeps (apply_group_room_verification a g)
unfolding apply_group_room_verification
apply_group_room_verification-Keeps a g =
    guard-Keeps (λ s. not (has_group_room g s)) _
      (guard-Keeps (λ s. not (has_user a s)) _
        (bind-Keeps (enter_group_application-Keeps a g) λ _.
          bind-Keeps (update_user-Keeps a _ (add_group_verification-same g _)) λ _.
            bind-Keeps (administrator_of-Keeps g)
              λ admin. update_user-Keeps admin _ (add_group_verification-same g _)))

pub remove_group_room_verification-Keeps : (a g : ℕ) → Keeps (remove_group_room_verification a g)
unfolding remove_group_room_verification
remove_group_room_verification-Keeps a g = bind-Keeps (erase_group_application-Keeps a g) λ _.
    bind-Keeps (administrator_of-Keeps g) λ admin.
      bind-Keeps (with_user-Keeps admin _ (remove_group_verification-same g a))
        λ _. with_user-Keeps a _ (remove_group_verification-same g a)

pub add_member_of-Keeps : (g a : ℕ) → Keeps (add_member_of g a)
unfolding add_member_of
add_member_of-Keeps g a = reader-Keeps (λ s. with_group_room g _) λ s. with_group_room-Keeps g _

pub accept_group_room-Keeps : (a g : ℕ) → Keeps (accept_group_room a g)
unfolding accept_group_room
accept_group_room-Keeps a g = bind-Keeps (mark_group_application-Keeps a g) λ _.
    bind-Keeps (add_member_of-Keeps g a) λ _.
      bind-Keeps (update_user-Keeps a _ (insert_group-same g))
        λ _. remove_group_room_verification-Keeps a g
