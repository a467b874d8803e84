-- ===== src/Client/Session/Exchange.antt =====
-- testclient/network.cpp and the server: a request and its answer, from `send_data_with_result_n_option`
-- to the value of its future.
use qchat_server.Base.{
  ℕ, List, [], ◌∷◌, ◌==◌, if◌then◌else◌, Option, none, some, Result, ok, err, never_ends, Action,
  length, drop,
}
use qchat_server.Base.Dict.{id_key}
use qchat_server.Net.Endianness.{Endian}
use qchat_server.Net.DataPackage.{DataPackage, string_to_package, get_data}
use qchat_server.Net.DataPackage.PackageType
use qchat_server.Server.Json.{JsonLibrary}
use qchat_server.Server.Commands.Execute.{Surroundings}
use qchat_server.Server.Process as Process
use qchat_server.Server.Process.{process_json_message}
use qchat_server.Server.Service.{Texts, process}
use qchat_server.Client.Network.{
  Network, Callback, Call, answered, delivered, notified, send_data_with_option, receive,
}

-- The option of every request: `package->type = DataPackage::Text`.
abbrev pub as_text : DataPackage → DataPackage
as_text pack = record pack { type = PackageType.text }

-- The client's network, and the server with the session of the client's connection.
pub record Link : Type 0 where
  pub client : Network
  pub server : Process.Session

-- What the future of a promise gets from the calls.
unfoldable pub future : Callback → List Call → Option DataPackage
future promise [] = none
future promise (answered function pack ∷ calls) =
    if function == promise then some pack else future promise calls
future promise (delivered function bytes ∷ calls) = future promise calls
future promise (notified function ∷ calls) = future promise calls

-- The value of the future behind a read: where the promise is not kept, `get()` waits forever.
unfoldable pub kept : Callback → Result (List Call) × Network → Result DataPackage × Network
kept promise (err x, n) = (err x, n)
kept promise (ok calls, n) = elim (future promise calls) [
  | none ↦ (err never_ends, n)
  | some pack ↦ (ok pack, n)
]

module _ {j : JsonLibrary} (texts : Texts j) (host peer : Endian) (e : Surroundings) (c : ℕ)
    (promise : Callback) where
  -- The client reads what the server wrote, if it wrote.
  unfoldable pub read_answer :
      Network → Result (List ℕ) × Process.Session → Result DataPackage × Link
  read_answer n (err x, z) = (err never_ends, record { client = n; server = z })
  read_answer n (ok bytes, z) =
      let (pack, n') = kept promise (receive host bytes n) in
      (pack, record { client = n'; server = z })

  -- The server takes a request.
  unfoldable pub serve : Result DataPackage → Link → Result DataPackage × Link
  serve (err x) l = (err never_ends, l)
  serve (ok pack) l = read_answer l.client (process texts peer e c (get_data pack) pack l.server)

  unfoldable pub carry : List (List ℕ) → Link → Result DataPackage × Link
  carry [] l = (err never_ends, l)
  carry (message ∷ _) l = serve (string_to_package peer message) l

  unfoldable pub await : Link → Result ℕ × Network → Result DataPackage × Link
  await l (err x, n) = (err x, record l { client = n })
  await l (ok id, n) = carry (drop (length l.client.written) n.written) (record l { client = n })

  -- `send_data_with_result_n_option(…).get()`, with the server at the other end.
  unfoldable pub exchange : List ℕ → Action Link DataPackage
  exchange bytes l =
      await l (send_data_with_option host bytes (some as_text) (some promise) l.client)
