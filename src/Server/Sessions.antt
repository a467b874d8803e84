-- ===== src/Server/Sessions.antt =====
-- The whole server: server/main/definition.hpp, where the manager is, and what server/network/network.cpp does
-- with it for each connection. A connection has a `SocketService`, whose local user is kept here.
pub mod Requests
pub mod Invariant
pub mod Registering
mod Tests
use qchat_server.Base.{
  ℕ, ◌≡◌, ◌≢◌, Bool, true, false, List, [], Option, none, some, Result, ok, err, Failure,
  system_error, logic_error, runtime_error, resource_deadlock, never_ends, undefined_behaviour,
}
use qchat_server.Base.Dict.{Dict, id_key, lookup, insert, erase}
use qchat_server.Net.Endianness.{Endian}
use qchat_server.Net.DataPackage.{DataPackage}
use qchat_server.Room.History.{no_user}
use qchat_server.Server.State.{Server}
use qchat_server.Server.Connections.{register_connection, remove_connection_of}
use qchat_server.Server.Json.{JsonLibrary}
use qchat_server.Server.Commands.Execute.{Surroundings}
use qchat_server.Server.Process.{Session}
use qchat_server.Server.Service.{Texts, process}

pub record World : Type 0 where
  pub server : Server
  pub sessions : Dict ℕ ℕ

-- `Manager::init`.
abbrev pub new_server : Server
new_server = record {
  users = [];
  group_rooms = [];
  private_rooms = [];
  private_ids = [];
  connections = [];
  new_user_id = 10000;
  new_private_room_id = 10000;
  new_group_room_id = 10000;
  friend_applications = [];
  group_applications = [];
  written = [];
}

abbrev pub new_world : World
new_world = record { server = new_server; sessions = [] }

-- `registerConnection`, and the `SocketService`, which begins with the id -1.
unfoldable pub connect : ℕ → World → World
connect c w = record {
  server = (register_connection c w.server).1;
  sessions = insert c no_user w.sessions;
}

-- `removeConnection`, and the end of the coroutine.
unfoldable pub disconnect : ℕ → World → World
disconnect c w = record {
  server = (remove_connection_of c w.server).1;
  sessions = erase c w.sessions;
}

-- What a request finds, and the world that it leaves.
abbrev pub session_of : World → ℕ → Session
session_of w user = record { server = w.server; local_user = user }

unfoldable pub resume : ℕ → Session → World → World
resume c z w = record { server = z.server; sessions = insert c z.local_user w.sessions }

-- `catch (const std::exception &)`.
abbrev pub is_exception : Failure → Bool
is_exception (system_error _) = true
is_exception logic_error = true
is_exception runtime_error = true
is_exception resource_deadlock = true
is_exception never_ends = false
is_exception undefined_behaviour = false

-- A new connection, a request that is answered, one that ends in an exception, and a connection that
-- ends. A new user's id is not -1, as long as there have been fewer registrations than ids.
pub data Step {j : JsonLibrary} (texts : Texts j) (host : Endian) : World → World → Type 0 where
  connects :
      (w : World) (c : ℕ) → lookup c w.server.connections ≡ none → Step texts host w (connect c w)
  answers :
      (w : World) (c user : ℕ) (e : Surroundings) (bytes : List ℕ) (pack : DataPackage)
      (sent : List ℕ) (z : Session)
      → lookup c w.sessions ≡ some user
      → w.server.new_user_id ≢ no_user
      → process texts host e c bytes pack (session_of w user) ≡ (ok sent, z)
      → Step texts host w (resume c z w)
  throws :
      (w : World) (c user : ℕ) (e : Surroundings) (bytes : List ℕ) (pack : DataPackage)
      (x : Failure) (z : Session)
      → lookup c w.sessions ≡ some user
      → w.server.new_user_id ≢ no_user
      → process texts host e c bytes pack (session_of w user) ≡ (err x, z)
      → is_exception x ≡ true
      → Step texts host w (disconnect c (resume c z w))
  leaves :
      (w : World) (c user : ℕ)
      → lookup c w.sessions ≡ some user
      → Step texts host w (disconnect c w)

pub data Reachable {j : JsonLibrary} (texts : Texts j) (host : Endian) : World → Type 0 where
  start : Reachable texts host new_world
  next : {w w' : World} → Reachable texts host w → Step texts host w w' → Reachable texts host w'
