-- ===== src/Server/Sessions/Registering.antt =====
-- The whole server: registering and logging in on a connection of a world that has been reached.
use Prim.Native.String.{String}
use qchat_server.Base.{ℕ, ◌≡◌, ◌≢◌, true, false, none, some, ok, arith}
use qchat_server.Base.Dict.{id_key, lookup, contains}
use qchat_server.Net.Endianness.{Endian}
use qchat_server.Room.History.{no_user}
use qchat_server.Server.State.{Server}
use qchat_server.Server.Connections.Links.{IsLinked}
use qchat_server.Server.Json.{JsonLibrary, Extra, success_message}
use qchat_server.Server.Commands.Execute.{Surroundings, register}
use qchat_server.Server.Process.{login}
use qchat_server.Server.Process.Registering.{register_then_login}
use qchat_server.Server.Service.{Texts}
use qchat_server.Server.Sessions.{World, Reachable}
use qchat_server.Server.Sessions.Invariant.{IsConsistent, Reachable-IsConsistent}

-- What a registration needs.
pub record IsOpen (c : ℕ) (s : Server) : Type 0 where
  pub linked : IsLinked s
  pub unused : lookup s.new_user_id s.users ≡ none
  pub known : contains c s.connections ≡ true

pub Reachable-IsOpen :
    {j : JsonLibrary} (texts : Texts j) (host : Endian) (w : World) (c user : ℕ)
    → Reachable texts host w
    → lookup c w.sessions ≡ some user
    → IsOpen c w.server
Reachable-IsOpen texts host w c user r found =
    let h : IsConsistent w = Reachable-IsConsistent texts host r in
    record {
      linked = h.linked;
      unused = ground (arith, h.numbered.unused w.server.new_user_id (omega arith));
      known = ground (arith, h.same c);
    }

-- In every world that connections, requests of any content and ends of connections reach, as long as
-- the next id is not -1: who registers on an open connection, with an email that the expression
-- matches, and logs in there with the id of the reply and the password, succeeds in both. The id was
-- nobody's, the session and the connection are the new user's, and the maps agree.
pub Reachable-register_then_login :
    {j : JsonLibrary} (texts : Texts j) (host : Endian) (w : World) (c user : ℕ) (e : Surroundings)
    (email password device : String)
    → Reachable texts host w
    → lookup c w.sessions ≡ some user
    → w.server.new_user_id ≢ no_user
    → e.email_match email ≡ true
    → let id = w.server.new_user_id in
      let (r, t) = register e email password w.server in
      let (r', z) = login e c id password device (record { server = t; local_user = user }) in
      (contains id w.server.users ≡ false)
      × (r ≡ ok (success_message "Successfully created a new user!" (Extra.user_id id)))
      × (r' ≡ ok (success_message "Successfully logged in!" Extra.nothing))
      × (z.local_user ≡ id)
      × (lookup c z.server.connections ≡ some id)
      × IsLinked z.server
Reachable-register_then_login texts host w c user e email password device r found real matches =
    let o = Reachable-IsOpen texts host w c user r found in
    let (registered, logged_in, local, owner, linked) =
      register_then_login e email password w.server matches o.unused c user device o.linked real
        o.known in
    (ground (arith, o.unused), registered, logged_in, local, owner, linked)
