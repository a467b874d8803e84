-- ===== src/Server/Frame.antt =====
-- What the calls of the server leave alone: the connections, in the manager's map
-- (server/manager/manager.cpp) and in the users' own, which users there
-- are, and the next user's id.
pub mod Calls
pub mod Commands
pub mod Growth
pub mod Methods
use qchat_server.Base.{
  ℕ, ◌≡◌, refl, ap, ◌∙◌, Bool, true, false, ◌==◌, if◌then◌else◌, none, some, arith, Result, ok, err,
  Action, ◌>>=◌, ◌>>◌, pure, List, [], ◌∷◌, Option-cases, ◌⊎◌, inl, inr, is_some, Bool-cases,
  Option,
}
use qchat_server.Base.Dict.{Dict, id_key, lookup, insert, contains, lookup-insert}
use qchat_server.Room.Tcp.{Notice}
use qchat_server.Room.Group.{GroupRoom}
use qchat_server.Server.User.{User}
use qchat_server.Server.State.{Server, with_user, update_user, with_group_room, send_json_to_user}
use qchat_server.Server.Groups.{refuse_if}
use qchat_server.Server.Connections.Links.{holds}

pub record Frame (s t : Server) : Type 0 where
  pub counter : t.new_user_id ≡ s.new_user_id
  pub connections : t.connections ≡ s.connections
  pub holding : (u c : ℕ) → holds u c t.users ≡ holds u c s.users
  pub present : (u : ℕ) → contains u t.users ≡ contains u s.users

-- The same of the result of a call, and of a call from every state.
pub record Frames {A : Type 0} (s : Server) (result : Result A × Server) : Type 0 where
  pub frame : Frame s result.1

pub record Keeps {A : Type 0} (m : Action Server A) : Type 0 where
  pub run : (s : Server) → Frames s (m s)

pub Frame-refl : (s : Server) → Frame s s
Frame-refl s = record {
  counter = refl;
  connections = refl;
  holding = λ u c. refl;
  present = λ u. refl;
}

pub Frame-trans : {s t u : Server} → Frame s t → Frame t u → Frame s u
Frame-trans f g = record {
  counter = g.counter ∙ f.counter;
  connections = g.connections ∙ f.connections;
  holding = λ u c. g.holding u c ∙ f.holding u c;
  present = λ u. g.present u ∙ f.present u;
}

-- The users and the connections are those of before.
pub same_users :
    (s t : Server)
    → t.connections ≡ s.connections
    → t.users ≡ s.users
    → t.new_user_id ≡ s.new_user_id
    → Frame s t
same_users s t e f n = record {
  counter = n;
  connections = e;
  holding = λ u c. ap (holds u c) f;
  present = λ u. ap (contains u) f;
}

-- One user, who was there, has the same connections as before.
pub one_user :
    (s t : Server) (u : ℕ) (y : User) {x : User}
    → lookup u s.users ≡ some x
    → t.connections ≡ s.connections
    → t.users ≡ insert u y s.users
    → y.connections ≡ x.connections
    → t.new_user_id ≡ s.new_user_id
    → Frame s t
one_user s t u y {x} found e f same n = record {
  counter = n;
  connections = e;
  holding = λ v c.
      ap (holds v c) f ∙ ground (arith, lookup-insert v u y s.users, found, ap (contains c) same);
  present = λ v. ap (contains v) f ∙ ground (arith, lookup-insert v u y s.users, found);
}

pub stays : {A : Type 0} {s : Server} (r : Result A) → Frames s (r, s)
stays {s} r = record { frame = Frame-refl s }

pub bind-Keeps :
    {A B : Type 0} {m : Action Server A} {k : A → Action Server B}
    → Keeps m
    → ((a : A) → Keeps (k a))
    → Keeps (m >>= k)
bind-Keeps {A} {B} {m} {k} h g = record { run = λ s. after s (m s) (h.run s) }
  where
    after :
        (s : Server) (p : Result A × Server)
        → Frames s p
        → Frames s (
            let (r, t) = p in
            let q : Result B × Server = elim r [ ok a ↦ k a t | err x ↦ (err x, t) ] in q)
    after s (ok a, t) f = record { frame = Frame-trans f.frame ((g a).run t).frame }
    after s (err x, t) f = record { frame = f.frame }

pub if-Frames :
    {A : Type 0} {s : Server} (b : Bool) {p q : Result A × Server}
    → Frames s p
    → Frames s q
    → Frames s (if b then p else q)
if-Frames true f g = f
if-Frames false f g = g

pub if-Keeps :
    {A : Type 0} (b : Bool) {m n : Action Server A} → Keeps m → Keeps n → Keeps (if b then m else n)
if-Keeps true f g = f
if-Keeps false f g = g

pub pure-Keeps : {A : Type 0} (a : A) → Keeps (pure {S = Server} a)
pure-Keeps a = record { run = λ s. stays (ok a) }

-- A call that first looks at the state.
pub reader-Keeps :
    {A : Type 0} (m : Server → Action Server A) → ((s : Server) → Keeps (m s)) → Keeps (λ s. m s s)
reader-Keeps m h = record { run = λ s. (h s).run s }

-- A test that a call begins with.
pub guard-Keeps :
    {A : Type 0} (b : Server → Bool) (r : Result A) {m : Action Server A}
    → Keeps m
    → Keeps (λ s. if b s then (r, s) else m s)
guard-Keeps b r h = record { run = λ s. if-Frames (b s) (stays r) (h.run s) }

pub refuse-Keeps : (b : Bool) {m : Action Server Bool} → Keeps m → Keeps (refuse_if b m)
refuse-Keeps true h = record { run = λ s. stays (ok false) }
refuse-Keeps false h = h

-- A call that changes other maps alone.
pub others-Keeps :
    {A : Type 0} (m : Action Server A)
    → ((s : Server) → (m s).1.connections ≡ s.connections)
    → ((s : Server) → (m s).1.users ≡ s.users)
    → ((s : Server) → (m s).1.new_user_id ≡ s.new_user_id)
    → Keeps m
others-Keeps m e f n = record {
  run = λ s. record { frame = same_users s (m s).1 (e s) (f s) (n s) };
}

pub update_user-Keeps :
    (u : ℕ) (f : User → User)
    → ((x : User) → (f x).connections ≡ x.connections)
    → Keeps (update_user u f)
unfolding update_user
update_user-Keeps u f same = record {
  run = λ s. elim (Option-cases (lookup u s.users)) [
    | inl missing ↦ rw (missing, update_user) (record { frame = Frame-refl s })
    | inr (x, found) ↦
        rw (found, update_user)
          (record { frame = one_user s _ u (f x) found refl refl (same x) refl })
  ];
}

pub with_user-Keeps :
    {A : Type 0} (u : ℕ) (f : User → Result A × User)
    → ((x : User) → (f x).1.connections ≡ x.connections)
    → Keeps (with_user u f)
unfolding with_user
with_user-Keeps u f same = record {
  run = λ s. elim (Option-cases (lookup u s.users)) [
    | inl missing ↦ rw (missing, with_user) (record { frame = Frame-refl s })
    | inr (x, found) ↦
        rw (found, with_user)
          (record { frame = one_user s _ u (f x).1 found refl refl (same x) refl })
  ];
}

pub with_group_room-Keeps :
    {A : Type 0} (group : ℕ) (f : GroupRoom → Result A × GroupRoom)
    → Keeps (with_group_room group f)
unfolding with_group_room
with_group_room-Keeps group f = record {
  run = λ s. elim (Option-cases (lookup group s.group_rooms)) [
    | inl missing ↦ rw (missing, with_group_room) (record { frame = Frame-refl s })
    | inr (x, found) ↦
        rw (found, with_group_room) (record { frame = same_users s _ refl refl refl })
  ];
}

pub send_json_to_user-Keeps : (u : ℕ) (n : Notice) → Keeps (send_json_to_user u n)
unfolding send_json_to_user
send_json_to_user-Keeps u n = record {
  run = λ s. elim (Option-cases (lookup u s.users)) [
    | inl missing ↦ rw (missing, send_json_to_user) (record { frame = Frame-refl s })
    | inr (x, found) ↦
        rw (found, send_json_to_user) (record { frame = same_users s _ refl refl refl })
  ];
}
