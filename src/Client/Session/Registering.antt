-- ===== src/Client/Session/Registering.antt =====
-- testclient/session.cpp on the server: registering and logging in from the client.
use Prim.Native.String.{String}
use qchat_server.Base.{
  ℕ, ◌≡◌, ◌≢◌, refl, ◌∙◌, true, false, none, some, List, ok, Action, ◌>>=◌, pure, bind_runs,
  if◌then◌else◌, Option, Bool,
}
use qchat_server.Base.Dict.{id_key, lookup}
use qchat_server.Net.Endianness.{Endian}
use qchat_server.Net.DataPackage.{DataPackage}
use qchat_server.Room.History.{no_user}
use qchat_server.Server.Connections.Links.{IsLinked}
use qchat_server.Server.Json.{JsonLibrary, JsonLaws, Extra, success_message}
use qchat_server.Server.Commands.Execute.{Surroundings}
use qchat_server.Server.Commands.Execute as Execute
use qchat_server.Server.Process as Process
use qchat_server.Server.Process.{on_server, login}
use qchat_server.Server.Process.Registering.{register_then_login}
use qchat_server.Server.Service.{Texts}
use qchat_server.Server.Sessions.{World, Reachable}
use qchat_server.Server.Sessions.Registering.{IsOpen, Reachable-IsOpen}
use qchat_server.Client.Network.{Callback}
use qchat_server.Client.Requests.{JsonMaking, MakingLaws, Request}
use qchat_server.Client.Session.{
  Session, request, int_at, succeeded, register_user, log_in_as, login_user,
}
use qchat_server.Client.Session.Exchange.{Link, exchange}
use qchat_server.Client.Session.Asking.{
  Carries, IsReady, Draws, behind, request_lem, succeeded_runs,
}

module _ {j : JsonLibrary} {m : JsonMaking j} (texts : Texts j) (laws : JsonLaws j)
    (made : MakingLaws j m) (host peer : Endian) (e : Surroundings) (c : ℕ)
    (promise : Callback) where
  abbrev pub ask : List ℕ → Action Link DataPackage
  ask = exchange texts host peer e c promise

  -- `registerUser`, where the server makes the user.
  register_user_runs :
      (email password text : String) (x : Session Link) (id : ℕ) (rest : List ℕ)
      (z : Process.Session) (user : ℕ)
      → Carries m texts
          (Request.register_user email password)
          (success_message text (Extra.user_id user))
      → IsReady x.network
      → Draws x.network id rest
      → on_server (Execute.register e email password) x.network.server
        ≡ (ok (success_message text (Extra.user_id user)), z)
      → register_user m texts.to_json ask email password x ≡ (
        ok (some user),
        record x { network = behind m (Request.register_user email password) id rest z x.network },
      )
  unfolding register_user int_at
  register_user_runs email password text x id rest z user carries ready draws means =
      let r : Request = Request.register_user email password in
      let v : j.JsonValue = carries.reply_json in
      let requested =
        request_lem laws made host peer e c promise r x id rest z
          (success_message text (Extra.user_id user)) carries ready draws means in
      let after : Bool → Action (Session Link) (Option ℕ) = λ done.
        if done
        then (do new ← int_at m texts.to_json ask "user_id" v; pure (some new))
        else pure none in
      bind_runs (request m texts.to_json ask r)
        (λ json. succeeded m texts.to_json ask json >>= λ done.
          if done
          then (do new ← int_at m texts.to_json ask "user_id" json; pure (some new))
          else pure none)
        requested
      ∙ bind_runs (succeeded m texts.to_json ask v) after (
          succeeded_runs m texts.to_json ask (success_message text (Extra.user_id user)) v _
            carries.reply_holds)
      ∙ read_id v _ carries.reply_holds.extra
    where
      read_id :
          (v : j.JsonValue) (y : Session Link)
          → j.get_int (j.at "user_id" v) ≡ ok user
          → (int_at m texts.to_json ask "user_id" v >>= λ new. pure (some new)) y
            ≡ (ok (some user), y)
      read_id v y read = rw read refl

  login_user_runs :
      (user : ℕ) (password text : String) (extra : Extra) (x : Session Link) (id : ℕ)
      (rest : List ℕ) (z : Process.Session)
      → Carries m texts (Request.login_user user password) (success_message text extra)
      → IsReady x.network
      → Draws x.network id rest
      → login e c user password "PersonalComputer" x.network.server
        ≡ (ok (success_message text extra), z)
      → login_user m texts.to_json ask user password x ≡ (
        ok true,
        record x {
          network = behind m (Request.login_user user password) id rest z x.network;
          user_id = user;
          has_login = true;
        },
      )
  unfolding login_user log_in_as
  login_user_runs user password text extra x id rest z carries ready draws means =
      let r : Request = Request.login_user user password in
      let v : j.JsonValue = carries.reply_json in
      let requested =
        request_lem laws made host peer e c promise r x id rest z (success_message text extra)
          carries ready draws means in
      let after : Bool → Action (Session Link) Bool =
        λ done. if done then log_in_as m texts.to_json ask user else pure false in
      bind_runs (request m texts.to_json ask r)
        (λ json. succeeded m texts.to_json ask json >>= after) requested
      ∙ bind_runs (succeeded m texts.to_json ask v) after (
          succeeded_runs m texts.to_json ask (success_message text extra) v
            (record x { network = behind m r id rest z x.network }) carries.reply_holds)

  -- `registerUser` and then `loginUser` with the id that it gave and the same password, on a client that
  -- is ready and draws two ids that can be answered, and an open connection of a server that
  -- connections, requests of any content and ends of connections have brought where it is, in which
  -- the next id is not -1, with an email that the expression matches. The two requests and their
  -- replies are carried: their texts fit into packages and are read as they were written. Both succeed. The client has
  -- logged in as the new user; on the server the session and the connection are that user's, and the
  -- maps agree. The client is ready for the next request.
  pub register_then_login_user :
      (email password : String) (x : Session Link) (id₁ id₂ : ℕ) (rest₁ rest₂ : List ℕ) (w : World)
      → Carries m texts (Request.register_user email password) (
          success_message "Successfully created a new user!"
            (Extra.user_id x.network.server.server.new_user_id))
      → Carries m texts
          (Request.login_user x.network.server.server.new_user_id password)
          (success_message "Successfully logged in!" Extra.nothing)
      → IsReady x.network
      → Draws x.network id₁ rest₁
      → Draws (record x.network { client = record x.network.client { numbers = rest₁ } }) id₂ rest₂
      → e.email_match email ≡ true
      → Reachable texts peer w
      → w.server ≡ x.network.server.server
      → lookup c w.sessions ≡ some x.network.server.local_user
      → x.network.server.server.new_user_id ≢ no_user
      → let user = x.network.server.server.new_user_id in
        let (registered, x₁) = register_user m texts.to_json ask email password x in
        let (logged_in, x₂) = login_user m texts.to_json ask user password x₁ in
        (registered ≡ ok (some user))
        × (logged_in ≡ ok true)
        × (x₂.user_id ≡ user)
        × (x₂.has_login ≡ true)
        × (x₂.network.server.local_user ≡ user)
        × (lookup c x₂.network.server.server.connections ≡ some user)
        × IsLinked x₂.network.server.server
        × IsReady x₂.network
  unfolding on_server
  register_then_login_user email password x id₁ id₂ rest₁ rest₂ w carries₁ carries₂ ready draws₁
        draws₂ matches reached same found real =
      let s = x.network.server.server in
      let self = x.network.server.local_user in
      let user : ℕ = s.new_user_id in
      let o : IsOpen c s = rw same at (Reachable-IsOpen texts peer w c self reached found) in
      let (made_user, logged_in, local, owner, linked') =
        register_then_login e email password s matches o.unused c self "PersonalComputer" o.linked
          real o.known in
      let t = (Execute.register e email password s).1 in
      let z₁ : Process.Session = record { server = t; local_user = self } in
      let z₂ : Process.Session = (login e c user password "PersonalComputer" z₁).1 in
      let x₁ : Session Link = record x {
        network = behind m (Request.register_user email password) id₁ rest₁ z₁ x.network;
      } in
      let ready₁ : IsReady x₁.network = record {
        open_socket = ready.open_socket;
        nothing_read = ready.nothing_read;
        pending = record { agree = ready.pending.agree };
      } in
      let first =
        register_user_runs email password "Successfully created a new user!" x id₁ rest₁ z₁ user
          carries₁ ready draws₁ (λ i. (made_user i, z₁)) in
      let second =
        login_user_runs user password "Successfully logged in!" Extra.nothing x₁ id₂ rest₂ z₂
          carries₂ ready₁
          (record { drawn = draws₂.drawn; real = draws₂.real; small = draws₂.small })
          (λ i. (logged_in i, z₂)) in
      rw first (
        rw second (
          refl,
          refl,
          refl,
          refl,
          local,
          owner,
          linked',
          record {
            open_socket = ready.open_socket;
            nothing_read = ready.nothing_read;
            pending = record { agree = ready.pending.agree };
          },
        ))
