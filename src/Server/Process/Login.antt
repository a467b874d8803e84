-- ===== src/Server/Process/Login.antt =====
-- server/jsonMessageProcess/JsonMsgProcess.cpp: `login`, on a server whose maps agree.
use Prim.Native.String.{String}
use qchat_server.Base.{
  ℕ, ◌≡◌, ◌≢◌, refl, ◌∙◌, inl, inr, Bool, true, false, ◌&&◌, ◌==◌, if◌then◌else◌, none, some,
  Option-cases, Bool-cases, arith, ok, Action, pure, bind_runs,
}
use qchat_server.Base.Dict.{id_key, lookup, contains}
use qchat_server.Room.History.{no_user}
use qchat_server.Server.User.{User, Digest, DeviceType, is_user_password}
use qchat_server.Server.State.{Server}
use qchat_server.Server.Manager.{has_user, get_user}
use qchat_server.Server.Connections.{modify_user_of_connection}
use qchat_server.Server.Connections.Links.{IsLinked, modify_user_of_connection-IsLinked}
use qchat_server.Server.Json.{Extra, Reply, error_message, success_message}
use qchat_server.Server.Commands.Execute.{Surroundings, found_user}
use qchat_server.Server.Process.{Session, on_server, device_type, wrong_login, log_in, login}

-- Whether the user is there and the password is the user's.
abbrev pub admits : Digest → ℕ → String → Server → Bool
admits digest user password s = elim (lookup user s.users) [
  | none ↦ false
  | some x ↦ is_user_password digest password x
]

pub log_in_runs :
    (c user : ℕ) (type : DeviceType) (z : Session)
    → (modify_user_of_connection c user type z.server).0 ≡ ok tt
    → log_in c user type z ≡ (
      ok (success_message "Successfully logged in!" Extra.nothing),
      record { server = (modify_user_of_connection c user type z.server).1; local_user = user },
    )
unfolding log_in on_server
log_in_runs c user type z h = ground (arith, h)

pub login_runs :
    (e : Surroundings) (c user : ℕ) (password device : String) (z : Session)
    → login e c user password device z ≡ (
        if admits e.digest user password z.server
        then log_in c user (device_type device) z
        else (ok wrong_login, z))
unfolding login found_user get_user has_user on_server
login_runs e c user password device z = elim (Option-cases (lookup user z.server.users)) [
  | inl missing ↦ ground (arith, missing)
  | inr (x, found) ↦
      rw (found, login, admits)
        (bind_runs (on_server (found_user user)) decide (reached x found) ∙ decided x)
]
  where
    decide : User → Action Session Reply
    decide u =
        if is_user_password e.digest password u
        then log_in c user (device_type device)
        else pure wrong_login

    decided :
        (x : User)
        → decide x z ≡ (
            if is_user_password e.digest password x
            then log_in c user (device_type device) z
            else (ok wrong_login, z))
    decided x = ground arith

    reached :
        (x : User) → lookup user z.server.users ≡ some x → on_server (found_user user) z ≡ (ok x, z)
    reached x found = ground (arith, found)

-- In a server whose maps agree, on a registered connection, `login` succeeds exactly when the user
-- exists and the password is right. Then the connection and the session are the user's, whoever had
-- them before. Otherwise the session and the whole server are as before. No other connection changes hands, and the maps agree.
pub login_lem :
    (e : Surroundings) (c user : ℕ) (password device : String) (z : Session)
    → IsLinked z.server
    → user ≢ no_user
    → contains c z.server.connections ≡ true
    → let right = admits e.digest user password z.server in
      let (r, z') = login e c user password device z in
      (r
        ≡ ok (
            if right
            then success_message "Successfully logged in!" Extra.nothing
            else error_message "The user ID or password is wrong!"))
      × (z'.local_user ≡ (if right then user else z.local_user))
      × IsLinked z'.server
      × ((d : ℕ)
          → lookup d z'.server.connections
            ≡ (if right && c == d then some user else lookup d z.server.connections))
      × (z' ≡ (if right then z' else z))
login_lem e c user password device z linked real known =
    elim (Bool-cases (admits e.digest user password z.server)) [
      | inr wrong ↦
          rw (login_runs e c user password device z)
            (rw wrong (refl, refl, linked, (λ d. refl), refl))
      | inl right ↦
          let there : contains user z.server.users ≡ true = ground (arith, right) in
          let type : DeviceType = device_type device in
          let (ran, linked', owners) =
            modify_user_of_connection-IsLinked c user type z.server linked real there known in
          rw (login_runs e c user password device z)
            (rw right (rw (log_in_runs c user type z ran) (refl, refl, linked', owners, refl)))
    ]
