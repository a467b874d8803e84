-- ===== src/Server/Service/Answer.antt =====
-- server/socketFunctions/socketFunctions.cpp: what the client reads.
use qchat_server.Base.{
  ℕ, ◌≡◌, refl, inl, inr, ◌+◌, ◌<◌, ◌^◌, List, ◌==◌, if◌then◌else◌, length, Bool-cases, arith,
  Result, ok, err, Action,
}
use qchat_server.Net.Bytes.{IsBytes}
use qchat_server.Net.Endianness.{Endian}
use qchat_server.Net.DataPackage.{DataPackage, make_package, string_to_package}
use qchat_server.Net.DataPackage.PackageType.{text}
use qchat_server.Net.DataPackage.RoundTrip.{make_send_read}
use qchat_server.Room.History.{no_user}
use qchat_server.Server.Json.{JsonLibrary, Reply, error_message}
use qchat_server.Server.Commands.Execute.{Surroundings}
use qchat_server.Server.Process.{Session, process_json_message}
use qchat_server.Server.Service.{Texts, async_send, respond, process}

-- The text of a reply is bytes, and short enough for a package, whose length has 32 bits.
pub record IsSendable {j : JsonLibrary} (texts : Texts j) (reply : Reply) : Type 0 where
  pub text_bytes : IsBytes (texts.to_string reply)
  pub text_fits : 24 + length (texts.to_string reply) < 2 ^ 32

-- What the other side of the connection makes of the bytes that are written.
abbrev pub received : Endian → Result (List ℕ) → Result DataPackage
received peer (ok bytes) = string_to_package peer bytes
received peer (err x) = err x

module _ {j : JsonLibrary} (texts : Texts j) where
  -- The answer to a request: texts are answered by `processJsonMessage`, everything else by an error.
  abbrev pub answer : Surroundings → ℕ → List ℕ → DataPackage → Action Session Reply
  answer e c bytes pack z =
      if pack.type == text
      then (elim (texts.to_json bytes) [
        | err x ↦ (err x, z)
        | ok json ↦ process_json_message j e c json z
      ])
      else if z.local_user == no_user
      then (ok (error_message "You haven't logged in!"), z)
      else (ok (error_message "Error type"), z)

  -- The package in which an answer comes.
  abbrev pub packed : ℕ → Result Reply → Result DataPackage
  packed request_id (ok reply) = ok (make_package (texts.to_string reply) text 1 0 request_id)
  packed request_id (err x) = err x

  module _ (host peer : Endian) (request_id : ℕ) (fits : request_id < 2 ^ 64) where
    sent :
        (reply : Reply)
        → IsSendable texts reply
        → received peer (async_send host (texts.to_string reply) request_id text)
          ≡ packed request_id (ok reply)
    unfolding async_send
    sent reply sendable =
        let (bytes, written, size, read, same) =
          make_send_read host peer (texts.to_string reply) text 1 0 request_id sendable.text_bytes
            sendable.text_fits (omega arith) (omega arith) (omega arith) fits in
        rw written read

    respond-packed :
        (reply : Action Session Reply) (z : Session)
        → ((r : Reply) → (reply z).0 ≡ ok r → IsSendable texts r)
        → let (r, z') = respond texts host request_id reply z in
          (received peer r ≡ packed request_id (reply z).0) × (z' ≡ (reply z).1)
    unfolding respond
    respond-packed reply z sendable = after (reply z) sendable
      where
        after :
            (p : Result Reply × Session)
            → ((r : Reply) → p.0 ≡ ok r → IsSendable texts r)
            → let (a, z₁) = p in
              let (r, z') : Result (List ℕ) × Session = elim a [
                | err x ↦ (err x, z₁)
                | ok message ↦ (async_send host (texts.to_string message) request_id text, z₁)
              ] in
              (received peer r ≡ packed request_id a) × (z' ≡ z₁)
        after (ok message, z₁) fit = (sent message (fit message refl), refl)
        after (err x, z₁) fit = (refl, refl)

  -- Whatever package arrives, if the text of the reply to it fits into a package, a client that reads the bytes that the service writes, on a host of any
  -- endianness, gets the answer to the request in one text package that bears the request's id. The
  -- session is the one that the answer leaves. Where the answer ends in an exception, so does the
  -- service.
  pub process-answer :
      (host peer : Endian) (e : Surroundings) (c : ℕ) (bytes : List ℕ) (pack : DataPackage)
      (z : Session)
      → ((reply : Reply) → (answer e c bytes pack z).0 ≡ ok reply → IsSendable texts reply)
      → pack.request_id < 2 ^ 64
      → let (r, z') = process texts host e c bytes pack z in
        let (a, z₁) = answer e c bytes pack z in
        (received peer r ≡ packed pack.request_id a) × (z' ≡ z₁)
  unfolding process
  process-answer host peer e c bytes pack z sendable fits =
      let packed_reply = respond-packed host peer pack.request_id fits in
      let by_text =
        packed_reply
          (λ z₁. elim (texts.to_json bytes) [
            | err x ↦ (err x, z₁)
            | ok json ↦ process_json_message j e c json z₁
          ])
          z in
      let by_error = λ (m : Reply). packed_reply (λ z₁. (ok m, z₁)) z in
      elim (Bool-cases (pack.type == text)) [
        | inl is_text ↦ elim (Bool-cases (z.local_user == no_user)) [
          | inl nobody ↦ rw is_text (rw nobody (by_text (rw is_text at sendable)))
          | inr somebody ↦ rw is_text (rw somebody (by_text (rw is_text at sendable)))
        ]
        | inr other ↦ elim (Bool-cases (z.local_user == no_user)) [
          | inl nobody ↦ rw other (
              rw nobody (
                by_error (error_message "You haven't logged in!") (rw (other, nobody) at sendable)))
          | inr somebody ↦ rw other (
              rw somebody
                (by_error (error_message "Error type") (rw (other, somebody) at sendable)))
        ]
      ]
