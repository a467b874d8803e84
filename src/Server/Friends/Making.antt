-- ===== src/Server/Friends/Making.antt =====
-- server/user/user.cpp and server/manager/verificationManager.cpp: what accepting an application
-- for friendship brings about.
use Prim.Native.String.{String}
use qchat_server.Base.{
  ℕ, ◌≡◌, ◌≢◌, refl, sym, ap, ◌∙◌, Bool, true, false, ◌++◌, ◌==◌, none, some, [], Result, ok, arith,
  Action, ◌>>◌, ◌>>=◌, pure, bind_runs, is_some,
}
use qchat_server.Base.Dict.{
  id_key, lookup, insert, erase, lookup-insert, lookup-insert_self, lookup-insert_other,
  lookup-erase_self, lookup_nil,
}
use qchat_server.Room.Tcp.{UserNames, TcpRoom, Notice, empty_room, join_room}
use qchat_server.Room.Private.{PrivateRoom}
use qchat_server.Room.Private
use qchat_server.Server.User.{User, insert_friend, remove_friend_verification}
use qchat_server.Server.State.{
  Server, apply_to, application_key, pair_of, private_room_id_key, private_room_id_eq, names_of,
  update_user, send_json_to_user, writes,
}
use qchat_server.Server.State.Runs.{update_user_runs, send_json_to_user_runs}
use qchat_server.Server.Manager.{
  has_user, add_private_room, get_private_room_id, get_private_room, next_id,
}
use qchat_server.Server.Verification.{
  mark_friend_application, remove_friend_room_verification, accept_friend_verification,
  has_friend_room_verification,
}
use qchat_server.Server.Friends.{has_application_from, accept_friend, is_friend}
use qchat_server.Server.Friends.Removing.{is_friend-eq}

join_room_runs :
    (names : UserNames) (user : ℕ) (room : TcpRoom) {name : String}
    → lookup user room.joined ≡ none
    → names user ≡ some name
    → join_room names user room ≡ (ok tt, record room { joined = insert user user room.joined })
unfolding join_room
join_room_runs names user room e f = rw (e, join_room) (rw f refl)

-- The room of two different users.
pub room_of : ℕ → ℕ → PrivateRoom
room_of a b = record {
  tcp = record { joined = insert b b (insert a a []); notified = [] };
  user_id_1 = a;
  user_id_2 = b;
  can_be_used = true;
  messages = [];
}

construct_runs :
    (names : UserNames) (a b : ℕ) {m n : String}
    → a ≢ b
    → names a ≡ some m
    → names b ≡ some n
    → Private.construct names a b ≡ ok (room_of a b)
unfolding Private.construct empty_room room_of
construct_runs names a b ne ea eb = rw (first, Private.construct) (rw second (rw second refl))
  where
    free : lookup b (insert a a []) ≡ none
    free = lookup-insert_other b a a [] ne ∙ lookup_nil b

    first : join_room names a empty_room ≡ (ok tt, record { joined = insert a a []; notified = [] })
    first = join_room_runs names a empty_room (lookup_nil a) ea

    second : join_room names b (join_room names a empty_room).1 ≡ (ok tt, (room_of a b).tcp)
    second =
        ap (λ (p : Result (Unit {0}) × TcpRoom). join_room names b p.1) first
        ∙ join_room_runs names b (record { joined = insert a a []; notified = [] }) free eb

pub names_of-eq :
    (user : ℕ) (s : Server) {x : User}
    → lookup user s.users ≡ some x
    → names_of s user ≡ some x.user_name
unfolding names_of
names_of-eq user s e = rw e refl

module _ (self friend : ℕ) (s : Server) {mine theirs : User} {verified : Bool}
    (different : self ≢ friend) (self_there : lookup self s.users ≡ some mine)
    (friend_there : lookup friend s.users ≡ some theirs)
    (applied : lookup (apply_to friend self) s.friend_applications ≡ some verified) where
  apart : (self == friend) ≡ false
  apart = ground (arith, different)

  apart' : (friend == self) ≡ false
  apart' = ground (arith, different)

  differs : friend ≢ self
  differs e = different (sym e)

  -- The states that acceptance goes through.
  s₁ : Server
  s₁ = record s { friend_applications = insert (apply_to friend self) true s.friend_applications }

  s₂ : Server
  unfolding s₁
  s₂ = record s₁ {
    new_group_room_id = next_id s.new_group_room_id;
    private_rooms = insert s.new_group_room_id (room_of friend self) s.private_rooms;
    private_ids = insert (pair_of friend self) s.new_group_room_id s.private_ids;
  }

  s₃ : Server
  unfolding s₂
  s₃ = record s₂ { users = insert friend (insert_friend self theirs) s₂.users }

  s₄ : Server
  unfolding s₃
  s₄ = record s₃ { users = insert self (insert_friend friend mine) s₃.users }

  s₅ : Server
  unfolding s₄
  s₅ = record s₄ { friend_applications = erase (apply_to friend self) s₄.friend_applications }

  s₆ : Server
  unfolding s₅
  s₆ = record s₅ {
    users = insert friend (remove_friend_verification self (insert_friend self theirs)) s₅.users;
  }

  s₇ : Server
  unfolding s₆
  s₇ = record s₆ {
    users = insert self (remove_friend_verification friend (insert_friend friend mine)) s₆.users;
  }

  s₈ : Server
  unfolding s₇
  s₈ = record s₇ { written = s₇.written ++ writes (Notice.added_friend self) theirs.connections }

  marked : mark_friend_application friend self s ≡ (ok tt, s₁)
  unfolding mark_friend_application s₁
  marked = rw (applied, mark_friend_application) refl

  room_added : add_private_room friend self s₁ ≡ (ok s.new_group_room_id, s₂)
  unfolding add_private_room s₁ s₂
  room_added =
      rw
        (
          construct_runs (names_of s₁) friend self differs (names_of-eq friend s₁ friend_there)
              (names_of-eq self s₁ self_there),
          add_private_room,
        )
        refl

  friend_entered : update_user friend (insert_friend self) s₂ ≡ (ok tt, s₃)
  unfolding s₁ s₂ s₃
  friend_entered = update_user_runs friend (insert_friend self) s₂ friend_there

  self_entered : update_user self (insert_friend friend) s₃ ≡ (ok tt, s₄)
  unfolding s₁ s₂ s₃ s₄
  self_entered =
      update_user_runs self (insert_friend friend) s₃
        (lookup-insert_other self friend _ s.users differs ∙ self_there)

  application_there : lookup (apply_to friend self) s₄.friend_applications ≡ some true
  unfolding s₁ s₂ s₃ s₄
  application_there = lookup-insert_self (apply_to friend self) true s.friend_applications

  friend_in_s₅ : lookup friend s₅.users ≡ some (insert_friend self theirs)
  unfolding s₁ s₂ s₃ s₄ s₅
  friend_in_s₅ =
      lookup-insert_other friend self _ s₃.users different
      ∙ lookup-insert_self friend (insert_friend self theirs) s.users

  self_in_s₆ : lookup self s₆.users ≡ some (insert_friend friend mine)
  unfolding s₁ s₂ s₃ s₄ s₅ s₆
  self_in_s₆ =
      lookup-insert_other self friend _ s₅.users differs
      ∙ lookup-insert_self self (insert_friend friend mine) s₃.users

  application_removed : remove_friend_room_verification friend self s₄ ≡ (ok tt, s₇)
  unfolding remove_friend_room_verification s₅ s₆ s₇
  application_removed =
      rw (apart', application_there)
        (bind_runs (update_user friend (remove_friend_verification self))
            (λ _. update_user self (remove_friend_verification friend))
            (update_user_runs friend (remove_friend_verification self) s₅ friend_in_s₅)
          ∙ update_user_runs self (remove_friend_verification friend) s₆ self_in_s₆)

  accepted : accept_friend_verification friend self s ≡ (ok tt, s₇)
  unfolding accept_friend_verification
  accepted = rw apart' (
      bind_runs (mark_friend_application friend self) (λ _. add_room) marked
      ∙ bind_runs (add_private_room friend self) (λ _. enter_friend) room_added
      ∙ bind_runs (update_user friend (insert_friend self)) (λ _. enter_self) friend_entered
      ∙ bind_runs (update_user self (insert_friend friend))
          (λ _. remove_friend_room_verification friend self) self_entered
      ∙ application_removed)
    where
      enter_self : Action Server (Unit {0})
      enter_self =
          update_user self (insert_friend friend) >> remove_friend_room_verification friend self

      enter_friend : Action Server (Unit {0})
      enter_friend = update_user friend (insert_friend self) >> enter_self

      add_room : Action Server (Unit {0})
      add_room = add_private_room friend self >>= λ _. enter_friend

  friend_in_s₇ :
      lookup friend s₇.users ≡ some (remove_friend_verification self (insert_friend self theirs))
  unfolding s₆ s₇
  friend_in_s₇ =
      lookup-insert_other friend self _ s₆.users different ∙ lookup-insert_self friend _ s₅.users

  self_in_s₇ :
      lookup self s₇.users ≡ some (remove_friend_verification friend (insert_friend friend mine))
  unfolding s₇
  self_in_s₇ = lookup-insert_self self _ s₆.users

  accept_friend_runs : accept_friend self friend s ≡ (ok true, s₈)
  unfolding accept_friend has_application_from has_user has_friend_room_verification s₈
      remove_friend_verification insert_friend
  accept_friend_runs =
      rw (apart, friend_there, apart', applied)
        (bind_runs
          (accept_friend_verification friend self
            >> send_json_to_user friend (Notice.added_friend self))
          (λ _. pure true)
          (bind_runs (accept_friend_verification friend self)
              (λ _. send_json_to_user friend (Notice.added_friend self)) accepted
            ∙ send_json_to_user_runs friend (Notice.added_friend self) s₇ friend_in_s₇))

  application_gone : lookup (apply_to friend self) s₈.friend_applications ≡ none
  unfolding s₅ s₆ s₇ s₈
  application_gone = lookup-erase_self (apply_to friend self) s₄.friend_applications

  room_there : lookup s.new_group_room_id s₈.private_rooms ≡ some (room_of friend self)
  unfolding s₂ s₃ s₄ s₅ s₆ s₇ s₈
  room_there = lookup-insert_self s.new_group_room_id (room_of friend self) s.private_rooms

  id_there : lookup (pair_of friend self) s₈.private_ids ≡ some s.new_group_room_id
  unfolding s₂ s₃ s₄ s₅ s₆ s₇ s₈
  id_there = lookup-insert_self (pair_of friend self) s.new_group_room_id s.private_ids

  id_there_swapped : lookup (pair_of self friend) s₈.private_ids ≡ some s.new_group_room_id
  unfolding s₂ s₃ s₄ s₅ s₆ s₇ s₈
  id_there_swapped =
      lookup-insert (pair_of self friend) (pair_of friend self) s.new_group_room_id s.private_ids
      ∙ rw swapped refl
    where
      swapped : private_room_id_eq (pair_of friend self) (pair_of self friend) ≡ true
      swapped = ground arith

  -- Accepting an application between two different users who are there returns true: each has the
  -- other as a friend, the application is gone, and the two have a new private room, found under
  -- either order of their ids, which both have joined.
  pub accept_friend_lem :
      let (r, s') = accept_friend self friend s in
      (r ≡ ok true)
      × (is_friend friend self s' ≡ true)
      × (is_friend self friend s' ≡ true)
      × (has_friend_room_verification friend self s' ≡ false)
      × (get_private_room_id friend self s' ≡ ok s.new_group_room_id)
      × (get_private_room_id self friend s' ≡ ok s.new_group_room_id)
      × (get_private_room s.new_group_room_id s' ≡ ok (room_of friend self))
  unfolding has_friend_room_verification get_private_room_id get_private_room
      remove_friend_verification insert_friend s₈
  accept_friend_lem = rw accept_friend_runs (
    refl,
    is_friend-eq friend self s₈ self_in_s₇ ∙ ap is_some (lookup-insert_self friend tt mine.friends),
    is_friend-eq self friend s₈ friend_in_s₇
        ∙ ap is_some (lookup-insert_self self tt theirs.friends),
    rw (apart', application_gone) refl,
    rw (id_there, get_private_room_id) refl,
    rw (id_there_swapped, get_private_room_id) refl,
    rw (room_there, get_private_room) refl,
  )
