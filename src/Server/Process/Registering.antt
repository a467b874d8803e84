-- ===== src/Server/Process/Registering.antt =====
-- server/jsonMessageProcess: registering and then logging in.
use Prim.Native.String.{String}
use text.Mathlib.TextEquality.{eq_iff}
use qchat_server.Base.{
  ℕ, ◌≡◌, ◌≢◌, refl, sym, ap, ◌∙◌, true, none, some, arith, ok, ◌>>◌, pure, bind_runs,
}
use qchat_server.Base.Dict.{Dict, id_key, lookup, insert, emplace, contains, lookup-insert_self}
use qchat_server.Room.History.{no_user}
use qchat_server.Server.User.{
  User, new_user, first_update_user_password, update_user_email, is_user_password,
}
use qchat_server.Server.State.{Server, with_user, update_user}
use qchat_server.Server.State.Runs.{with_user_runs, update_user_runs}
use qchat_server.Server.Manager.{add_new_user, next_id}
use qchat_server.Server.Connections.Links.{IsLinked, belongs}
use qchat_server.Server.Json.{Extra, Reply, success_message}
use qchat_server.Server.Commands.Execute.{Surroundings, register}
use qchat_server.Server.Frame.Growth.{register-Grows}
use qchat_server.Server.Process.{Session, login}
use qchat_server.Server.Process.Login.{admits, login_lem}

module _ (e : Surroundings) (email password : String) (s : Server)
    (valid : e.email_match email ≡ true) (fresh : lookup s.new_user_id s.users ≡ none) where
  id : ℕ
  id = s.new_user_id

  -- The user's object, and the states that the call goes through.
  begun : User
  begun = new_user id e.now

  locked : User
  unfolding begun
  locked = record begun { password = e.digest password e.salt; salt = e.salt }

  filled : User
  unfolding locked
  filled = record locked { email = email }

  s₁ : Server
  unfolding id begun
  s₁ = record s { new_user_id = next_id id; users = insert id begun s.users }

  s₂ : Server
  unfolding s₁
  s₂ = record s₁ { users = insert id locked s₁.users }

  s₃ : Server
  unfolding s₂
  s₃ = record s₂ { users = insert id filled s₂.users }

  reply : Reply
  reply = success_message "Successfully created a new user!" (Extra.user_id id)

  added : add_new_user e.now s ≡ (ok id, s₁)
  unfolding add_new_user id begun s₁
  added = rw (fresh, emplace) refl

  locks : first_update_user_password e.digest e.salt password begun ≡ (ok tt, locked)
  unfolding first_update_user_password begun locked new_user
  locks = refl

  register_runs : register e email password s ≡ (ok reply, s₃)
  unfolding register reply s₃ filled update_user_email
  register_runs = rw valid (
      bind_runs (add_new_user e.now)
        (λ user.
          with_user user (first_update_user_password e.digest e.salt password)
          >> (update_user user (update_user_email email)
              >> pure (success_message "Successfully created a new user!" (Extra.user_id user))))
        added
      ∙ bind_runs (with_user id (first_update_user_password e.digest e.salt password))
          (λ _.
            update_user id (update_user_email email)
            >> pure (success_message "Successfully created a new user!" (Extra.user_id id)))
          (with_user_runs id (first_update_user_password e.digest e.salt password) s₁
            (found begun s.users) locks)
      ∙ bind_runs (update_user id (update_user_email email))
          (λ _. pure (success_message "Successfully created a new user!" (Extra.user_id id)))
          (update_user_runs id (update_user_email email) s₂ (found locked s₁.users)))
    where
      found : (x : User) (users : Dict ℕ User) → lookup id (insert id x users) ≡ some x
      found x users = lookup-insert_self id x users

  admitted : admits e.digest id password s₃ ≡ true
  unfolding s₃ filled locked is_user_password
  admitted =
      rw (lookup-insert_self id filled s₂.users, admits)
        ((eq_iff (e.digest password e.salt) (e.digest password e.salt)).1 refl)

  -- A user registers with an email that the expression matches and a password, and then logs in with
  -- the id of the reply and the password, on a registered connection of a server whose maps agree, in
  -- which the next id is no user's and not -1: both succeed, the session and the connection are the
  -- new user's, and the maps agree.
  pub register_then_login :
      (c local_user : ℕ) (device : String)
      → IsLinked s
      → s.new_user_id ≢ no_user
      → contains c s.connections ≡ true
      → let (r, t) = register e email password s in
        let (r', z) =
          login e c s.new_user_id password device
            (record { server = t; local_user = local_user }) in
        (r ≡ ok (success_message "Successfully created a new user!" (Extra.user_id s.new_user_id)))
        × (r' ≡ ok (success_message "Successfully logged in!" Extra.nothing))
        × (z.local_user ≡ s.new_user_id)
        × (lookup c z.server.connections ≡ some s.new_user_id)
        × IsLinked z.server
  unfolding id reply
  register_then_login c local_user device linked real known =
      let g = (rw register_runs at (register-Grows e email password s)).grown in
      let linked' : IsLinked s₃ =
        λ u d. g.holding u d ∙ linked u d ∙ ap (belongs u d) (sym g.connections) in
      let z : Session = record { server = s₃; local_user = local_user } in
      let (logged_in, local, linked'', owners, kept) =
        login_lem e c s.new_user_id password device z linked' real
          (ap (contains c) g.connections ∙ known) in
      rw register_runs (
        refl,
        logged_in ∙ rw admitted refl,
        local ∙ rw admitted refl,
        owners c ∙ rw admitted (ground arith),
        linked'',
      )
