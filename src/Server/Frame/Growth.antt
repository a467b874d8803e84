-- ===== src/Server/Frame/Growth.antt =====
-- server/jsonMessageProcess: what a command does to the connections and the users, the registration of
-- a user included.
use Prim.Native.String.{String}
use qchat_server.Base.{
  ℕ, ◌≡◌, ◌≢◌, refl, ap, ◌∙◌, false, arith, ◌≤◌, ◌+◌, ◌==◌, Result, ok, err, Action, ◌>>=◌, ◌>>◌,
  pure, inl, inr, Option-cases, ==_iff, Bool-cases,
}
use qchat_server.Base.Dict.{id_key, lookup, emplace, contains, lookup-insert}
use qchat_server.Room.History.{no_user}
use qchat_server.Server.User.{User, Digest, new_user, first_update_user_password, update_user_email}
use qchat_server.Server.State.{Server, with_user, update_user}
use qchat_server.Server.Manager.{add_new_user, next_id}
use qchat_server.Server.Connections.Links.{holds}
use qchat_server.Server.Json.{JsonLibrary, Extra, Reply, success_message}
use qchat_server.Server.Commands.{Command}
use qchat_server.Server.Commands.Execute.{Surroundings, register, int_of, string_of, execute}
use qchat_server.Server.Frame.{
  Frame, Frame-refl, Keeps, bind-Keeps, pure-Keeps, update_user-Keeps, with_user-Keeps,
}
use qchat_server.Server.Frame.Commands.{execute-Keeps}

-- No user has the next id or one above it, nor the id of nobody.
pub record IsNumbered (s : Server) : Type 0 where
  pub small : s.new_user_id ≤ no_user
  pub unused : (v : ℕ) → s.new_user_id ≤ v → contains v s.users ≡ false

-- There may be a user more, with the next id.
pub record Grown (s t : Server) : Type 0 where
  pub connections : t.connections ≡ s.connections
  pub holding : (u c : ℕ) → holds u c t.users ≡ holds u c s.users
  pub numbered : s.new_user_id ≢ no_user → IsNumbered s → IsNumbered t

pub record Grows {A : Type 0} (s : Server) (result : Result A × Server) : Type 0 where
  pub grown : Grown s result.1

Frame-IsNumbered : {s t : Server} → Frame s t → IsNumbered s → IsNumbered t
Frame-IsNumbered f n = record {
  small = rw f.counter n.small;
  unused = λ v above. f.present v ∙ n.unused v (rw f.counter at above);
}

Frame-Grown : {s t : Server} → Frame s t → Grown s t
Frame-Grown f = record {
  connections = f.connections;
  holding = f.holding;
  numbered = λ real n. Frame-IsNumbered f n;
}

Grown-Frame : {s t u : Server} → Grown s t → Frame t u → Grown s u
Grown-Frame g f = record {
  connections = f.connections ∙ g.connections;
  holding = λ u c. f.holding u c ∙ g.holding u c;
  numbered = λ real n. Frame-IsNumbered f (g.numbered real n);
}

pub stays_grown : {A : Type 0} {s : Server} (r : Result A) → Grows s (r, s)
stays_grown {s = s} r = record { grown = Frame-Grown (Frame-refl s) }

no_connection : (id now c : ℕ) → contains c (new_user id now).connections ≡ false
unfolding new_user lookup
no_connection id now c = refl

-- The next id is one more, as long as it is not -1.
next_id_above :
    (id : ℕ)
    → id ≤ no_user
    → id ≢ no_user
    → (id ≤ next_id id) × (next_id id ≤ no_user) × (next_id id ≡ id + 1)
next_id_above id small real = (omega arith, omega arith, omega arith)

-- A new user has no connection.
emplace-Grown :
    (s t : Server) (id now : ℕ)
    → s.new_user_id ≡ id
    → t.connections ≡ s.connections
    → t.users ≡ emplace id (new_user id now) s.users
    → t.new_user_id ≡ next_id id
    → Grown s t
unfolding new_user
emplace-Grown s t id now e same users next = elim (Option-cases (lookup id s.users)) [
  | inr (x, found) ↦ record {
    connections = same;
    holding = λ u c. ap (holds u c) users ∙ rw (found, emplace) refl;
    numbered = λ real n.
        let (above, small, exact) = counted real n in
        record {
          small = small;
          unused = λ v over. ap (contains v) users ∙ rw (found, emplace) (n.unused v (omega arith));
        };
  }
  | inl missing ↦ record {
    connections = same;
    holding = λ u c.
        ap (holds u c) users
        ∙ rw (missing, emplace)
            (ground (
              arith,
              lookup-insert u id (new_user id now) s.users,
              missing,
              (==_iff id u).0,
              no_connection id now c,
            ));
    numbered = λ real n.
        let (above, small, exact) = counted real n in
        record {
          small = small;
          unused = λ v over.
              ap (contains v) users
              ∙ rw (missing, emplace)
                  (ground (
                    arith,
                    lookup-insert v id (new_user id now) s.users,
                    n.unused v (omega arith),
                    later v over real n,
                  ));
        };
  }
]
  where
    counted :
        s.new_user_id ≢ no_user
        → IsNumbered s
        → (s.new_user_id ≤ t.new_user_id) × (t.new_user_id ≤ no_user) × (t.new_user_id ≡ id + 1)
    counted real n = rw (next, e) (next_id_above id (rw e at n.small) (rw e at real))

    later : (v : ℕ) → t.new_user_id ≤ v → s.new_user_id ≢ no_user → IsNumbered s → (id == v) ≡ false
    later v over real n =
        let (above, small, exact) = counted real n in ground (arith, (==_iff id v).0)

first_update_user_password-same :
    (digest : Digest) (salt password : String) (x : User)
    → (first_update_user_password digest salt password x).1.connections ≡ x.connections
unfolding first_update_user_password
first_update_user_password-same digest salt password x = ground arith

pub register-Grows :
    (e : Surroundings) (email password : String) (s : Server)
    → Grows s (register e email password s)
unfolding register add_new_user update_user_email
register-Grows e email password s = elim (Bool-cases (e.email_match email)) [
  | inr invalid ↦ rw (invalid, register) (stays_grown _)
  | inl valid ↦
      rw (valid, register)
        (record {
          grown =
              Grown-Frame (emplace-Grown s _ s.new_user_id e.now refl refl refl refl)
                ((filled s.new_user_id).run _).frame;
        })
]
  where
    filled :
        (user : ℕ)
        → Keeps (
            with_user user (first_update_user_password e.digest e.salt password)
            >> (update_user user (update_user_email email)
                >> pure (success_message "Successfully created a new user!" (Extra.user_id user))))
    filled user =
        bind-Keeps
          (with_user-Keeps user (first_update_user_password e.digest e.salt password)
            (first_update_user_password-same e.digest e.salt password))
          λ _.
            bind-Keeps (update_user-Keeps user (update_user_email email) (λ x. refl))
              λ _. pure-Keeps _

reads :
    {A : Type 0} (r : Result A) (s : Server) (k : A → Action Server Reply)
    → ((a : A) → Grows s (k a s))
    → Grows s (let q : Result Reply × Server = elim r [ ok a ↦ k a s | err x ↦ (err x, s) ] in q)
reads (ok a) s k h = h a
reads (err x) s k h = stays_grown (err x)

others-Grows :
    (j : JsonLibrary) (e : Surroundings) (c : Command) (self : ℕ) (p : j.JsonValue) (s : Server)
    → c ≢ Command.register
    → Grows s (execute j e c self p s)
others-Grows j e c self p s h = record {
  grown = Frame-Grown ((execute-Keeps j e c self p h).run s).frame;
}

-- Every command.
pub execute-Grows :
    (j : JsonLibrary) (e : Surroundings) (c : Command) (self : ℕ) (p : j.JsonValue) (s : Server)
    → Grows s (execute j e c self p s)
unfolding execute int_of string_of
execute-Grows j e Command.register self p s =
    reads (j.get_string (j.at "email" p)) s
      (λ email. string_of j "password" p >>= λ password. register e email password)
      λ email.
        reads (j.get_string (j.at "password" p)) s (register e email)
          λ password. register-Grows e email password s
execute-Grows j e c self p s = others-Grows j e c self p s λ h. cc h
