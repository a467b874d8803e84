-- ===== src/Server/Friends/Applying.antt =====
-- server/user/user.cpp and server/manager/verificationManager.cpp: applying for friendship, and the
-- whole way from the application to the friendship.
use qchat_server.Base.{
  ℕ, ◌≡◌, ◌≢◌, refl, sym, ◌∙◌, true, false, ◌++◌, ◌==◌, none, some, ok, arith, ◌>>◌, pure,
  bind_runs,
}
use qchat_server.Base.Dict.{id_key, lookup, insert, lookup-insert_self, lookup-insert_other}
use qchat_server.Room.Tcp.{Notice}
use qchat_server.Server.User.{User, VerificationType, add_friend_verification}
use qchat_server.Server.State.{
  Server, apply_to, application_key, private_room_id_key, update_user, send_json_to_user, writes,
}
use qchat_server.Server.State.Runs.{update_user_runs, send_json_to_user_runs}
use qchat_server.Server.Manager.{has_user, has_private_room_between}
use qchat_server.Server.Verification.{
  friend_verification, enter_friend_application, apply_friend_room_verification,
  has_friend_room_verification,
}
use qchat_server.Server.Friends.{add_friend, accept_friend, is_friend}
use qchat_server.Server.Friends.Making.{accept_friend_lem}

module _ (self friend : ℕ) (s : Server) {mine theirs : User} (different : self ≢ friend)
    (self_there : lookup self s.users ≡ some mine)
    (friend_there : lookup friend s.users ≡ some theirs)
    (no_room : has_private_room_between self friend s ≡ false)
    (not_applied : lookup (apply_to self friend) s.friend_applications ≡ none) where
  apart : (self == friend) ≡ false
  apart = ground (arith, different)

  differs : friend ≢ self
  differs e = different (sym e)

  record_sent : User → User
  record_sent = add_friend_verification friend (friend_verification friend VerificationType.sent)

  record_received : User → User
  record_received =
      add_friend_verification self (friend_verification self VerificationType.received)

  -- The states that the application goes through.
  s₁ : Server
  s₁ = record s { friend_applications = insert (apply_to self friend) false s.friend_applications }

  s₂ : Server
  unfolding s₁
  s₂ = record s₁ { users = insert self (record_sent mine) s₁.users }

  s₃ : Server
  unfolding s₂
  s₃ = record s₂ { users = insert friend (record_received theirs) s₂.users }

  s₄ : Server
  unfolding s₃
  s₄ = record s₃ {
    written =
        s₃.written
        ++ writes (Notice.added_friend_verification self) (record_received theirs).connections;
  }

  entered : enter_friend_application self friend s ≡ (ok tt, s₁)
  unfolding enter_friend_application s₁
  entered = rw (not_applied, enter_friend_application) refl

  friend_in_s₂ : lookup friend s₂.users ≡ some theirs
  unfolding s₁ s₂
  friend_in_s₂ = lookup-insert_other friend self (record_sent mine) s.users different ∙ friend_there

  friend_in_s₃ : lookup friend s₃.users ≡ some (record_received theirs)
  unfolding s₃
  friend_in_s₃ = lookup-insert_self friend (record_received theirs) s₂.users

  self_in_s₃ : lookup self s₃.users ≡ some (record_sent mine)
  unfolding s₁ s₂ s₃
  self_in_s₃ =
      lookup-insert_other self friend (record_received theirs) s₂.users differs
      ∙ lookup-insert_self self (record_sent mine) s.users

  applies : apply_friend_room_verification self friend s ≡ (ok tt, s₃)
  unfolding apply_friend_room_verification has_user s₁ s₂ s₃ record_sent record_received
  applies =
      rw (apart, self_there, friend_there, no_room)
        (bind_runs (enter_friend_application self friend >> update_user self record_sent)
            (λ _. update_user friend record_received)
            (bind_runs (enter_friend_application self friend) (λ _. update_user self record_sent)
                entered
              ∙ update_user_runs self record_sent s₁ self_there)
          ∙ update_user_runs friend record_received s₂ friend_in_s₂)

  add_friend_runs : add_friend self friend s ≡ (ok true, s₄)
  unfolding add_friend has_user has_friend_room_verification s₄
  add_friend_runs =
      rw (apart, friend_there, no_room, not_applied)
        (bind_runs
          (apply_friend_room_verification self friend
            >> send_json_to_user friend (Notice.added_friend_verification self))
          (λ _. pure true)
          (bind_runs (apply_friend_room_verification self friend)
              (λ _. send_json_to_user friend (Notice.added_friend_verification self)) applies
            ∙ send_json_to_user_runs friend (Notice.added_friend_verification self) s₃
                friend_in_s₃))

  application_there : lookup (apply_to self friend) s₄.friend_applications ≡ some false
  unfolding s₁ s₂ s₃ s₄
  application_there = lookup-insert_self (apply_to self friend) false s.friend_applications

  -- One of two different users who are there, without a private room between them and without an
  -- application of this one, applies for friendship and the other accepts: both calls return true,
  -- then each has the other as a friend, and the application that was made is gone.
  pub friendship_made :
      let (applied, s') = add_friend self friend s in
      let (accepted, s'') = accept_friend friend self s' in
      (applied ≡ ok true)
      × (accepted ≡ ok true)
      × (is_friend friend self s'' ≡ true)
      × (is_friend self friend s'' ≡ true)
      × (has_friend_room_verification self friend s'' ≡ false)
  unfolding s₄
  friendship_made =
      let (accepted, theirs_made, mine_made, gone, _, _, _) =
        accept_friend_lem friend self s₄ differs friend_in_s₃ self_in_s₃ application_there in
      rw add_friend_runs (refl, accepted, mine_made, theirs_made, gone)
