-- ===== src/Server/Friends/Removing.antt =====
-- server/user/user.cpp: what `removeFriend` brings about.
use qchat_server.Base.{
  ℕ, ◌≡◌, ◌≢◌, refl, ap, ◌∙◌, true, false, ◌++◌, ◌==◌, some, ok, Action, ◌>>◌, pure, bind_runs,
  arith, is_some,
}
use qchat_server.Base.Dict.{id_key, lookup, insert, contains, lookup-insert, lookup-erase}
use qchat_server.Room.Tcp.{Notice}
use qchat_server.Server.User.{User, user_has_friend, erase_friend}
use qchat_server.Server.State.{Server, update_user, send_json_to_user, writes}
use qchat_server.Server.State.Runs.{update_user_runs, send_json_to_user_runs}
use qchat_server.Server.Manager.{has_user, get_user}
use qchat_server.Server.Friends.{is_friend, remove_friend}

pub is_friend-eq :
    (friend self : ℕ) (s : Server)
    → {x : User} → lookup self s.users ≡ some x
    → is_friend friend self s ≡ contains friend x.friends
unfolding is_friend get_user user_has_friend
is_friend-eq friend self s e = ground arith

three_run :
    {S : Type 0} (a b c : Action S (Unit {0})) {s s₁ s₂ s₃ : S}
    → a s ≡ (ok tt, s₁)
    → b s₁ ≡ (ok tt, s₂)
    → c s₂ ≡ (ok tt, s₃)
    → (a >> b >> c >> pure true) s ≡ (ok true, s₃)
three_run a b c e f g =
    bind_runs (a >> b >> c) (λ _. pure true)
      (bind_runs (a >> b) (λ _. c) (bind_runs a (λ _. b) e ∙ f) ∙ g)

module _ (self friend : ℕ) (s : Server) {mine theirs : User} (different : self ≢ friend)
    (self_there : lookup self s.users ≡ some mine)
    (friend_there : lookup friend s.users ≡ some theirs)
    (are_friends : contains friend mine.friends ≡ true) where
  s₁ : Server
  s₁ = record s { users = insert self (erase_friend friend mine).1 s.users }

  s₂ : Server
  unfolding s₁
  s₂ = record s₁ { users = insert friend (erase_friend friend theirs).1 s₁.users }

  s₃ : Server
  unfolding s₂
  s₃ = record s₂ { written = s₂.written ++ writes (Notice.removed_friend self) theirs.connections }

  friend_in_s₁ : lookup friend s₁.users ≡ some theirs
  unfolding s₁
  friend_in_s₁ =
      lookup-insert friend self (erase_friend friend mine).1 s.users
      ∙ ground (arith, friend_there, different)

  friend_in_s₂ : lookup friend s₂.users ≡ some (erase_friend friend theirs).1
  unfolding s₂ s₁
  friend_in_s₂ = lookup-insert friend friend (erase_friend friend theirs).1 s₁.users ∙ ground arith

  self_in_s₂ : lookup self s₂.users ≡ some (erase_friend friend mine).1
  unfolding s₂ s₁
  self_in_s₂ =
      lookup-insert self friend (erase_friend friend theirs).1 s₁.users
      ∙ ground (arith, different, lookup-insert self self (erase_friend friend mine).1 s.users)

  remove_friend_runs : remove_friend self friend s ≡ (ok true, s₃)
  unfolding remove_friend has_user s₃ s₂ s₁ erase_friend
  remove_friend_runs =
      rw (apart, present, befriended)
        (three_run (update_user self (λ u. (erase_friend friend u).1))
          (update_user friend (λ u. (erase_friend friend u).1))
          (send_json_to_user friend (Notice.removed_friend self))
          (update_user_runs self (λ u. (erase_friend friend u).1) s self_there)
          (update_user_runs friend (λ u. (erase_friend friend u).1) s₁ friend_in_s₁)
          (send_json_to_user_runs friend (Notice.removed_friend self) s₂ friend_in_s₂))
    where
      apart : (self == friend) ≡ false
      apart = ground (arith, different)

      present : contains friend s.users ≡ true
      present = ap is_some friend_there

      befriended : is_friend friend self s ≡ true
      befriended = is_friend-eq friend self s self_there ∙ are_friends

  -- Removing a friend, where both users are there and different, returns true and takes the friend
  -- out of the user's set of friends; the set of the friend keeps the user if it had the user.
  pub remove_friend_lem :
      let (r, s') = remove_friend self friend s in
      (r ≡ ok true)
      × (is_friend friend self s' ≡ false)
      × (is_friend self friend s' ≡ is_friend self friend s)
  unfolding s₃ s₂ s₁ erase_friend
  remove_friend_lem = rw remove_friend_runs (
    refl,
    is_friend-eq friend self s₃ self_in_s₂
        ∙ ground (arith, lookup-erase friend friend mine.friends),
    is_friend-eq self friend s₃ friend_in_s₂
        ∙ ground (
          arith,
          different,
          lookup-erase self friend theirs.friends,
          is_friend-eq self friend s friend_there,
        ),
  )
