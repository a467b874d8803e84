-- ===== src/Server/Service.antt =====
-- server/socketFunctions/socketFunctions.cpp: `SocketService`, which a connection keeps with its
-- `JsonMessageProcess`. What is written to the socket is the result.
pub mod Answer
pub mod Tests
use qchat_server.Base.{
  ℕ, ◌+◌, ◌<◌, ◌^◌, Bool, not, ◌&&◌, List, ◌==◌, if◌then◌else◌, length, Result, ok, err, Action,
}
use qchat_server.Net.Endianness.{Endian}
use qchat_server.Net.DataPackage.{DataPackage, make_package, package_to_string}
use qchat_server.Net.DataPackage.PackageType.{text}
use qchat_server.Room.History.{no_user}
use qchat_server.Server.Json.{JsonLibrary, Reply, error_message}
use qchat_server.Server.Commands.Execute.{Surroundings}
use qchat_server.Server.Process.{Session, process_json_message}

-- What is called of the library beside `JsonLibrary`: `qjson::to_json`, which throws on a text that
-- is no JSON, and `to_string` of a reply.
pub record Texts (j : JsonLibrary) : Type 0 where
  pub to_json : List ℕ → Result j.JsonValue
  pub to_string : Reply → List ℕ

-- `async_send`, with the default arguments for the sequence.
unfoldable pub async_send : Endian → List ℕ → ℕ → ℕ → Result (List ℕ)
async_send host bytes request_id type =
    package_to_string host (make_package bytes type 1 0 request_id)

module _ {j : JsonLibrary} (texts : Texts j) (host : Endian) where
  unfoldable pub respond : ℕ → Action Session Reply → Action Session (List ℕ)
  respond request_id reply z =
      let (r, z') = reply z in
      elim r [
        | err x ↦ (err x, z')
        | ok message ↦ (async_send host (texts.to_string message) request_id text, z')
      ]

  -- Everything but a text gets an error, by three cases of the `switch`.
  unfoldable pub process : Surroundings → ℕ → List ℕ → DataPackage → Action Session (List ℕ)
  process e c bytes pack z =
      if z.local_user == no_user && not (pack.type == text)
      then respond pack.request_id (λ z₁. (ok (error_message "You haven't logged in!"), z₁)) z
      else if pack.type == text
      then respond pack.request_id
          (λ z₁. elim (texts.to_json bytes) [
            | err x ↦ (err x, z₁)
            | ok json ↦ process_json_message j e c json z₁
          ])
          z
      else respond pack.request_id (λ z₁. (ok (error_message "Error type"), z₁)) z
