-- ===== src/Client/Session/Asking.antt =====
-- testclient/session.cpp on the server: a request of a session, from the call to the JSON of its reply.
use Prim.Native.String.{String}
use text.Mathlib.Text.{◌==◌ as str_eq}
use qchat_server.Base.{
  ℕ, ◌+◌, ◌<◌, ◌^◌, ◌≡◌, ◌≢◌, refl, ap, ◌∙◌, true, List, [], ◌∷◌, ◌++◌, some, Result, ok, err,
  length, Action,
}
use qchat_server.Net.Bytes.{IsBytes}
use qchat_server.Net.Endianness.{Endian}
use qchat_server.Net.DataPackage.{DataPackage, get_data}
use qchat_server.Net.DataPackage.PackageType
use qchat_server.Net.DataPackage.Layout.{wire}
use qchat_server.Net.DataPackage.RoundTrip.{get_data-make_package}
use qchat_server.Server.Json.{JsonLibrary, JsonLaws, Extra, Reply, error_message, success_message}
use qchat_server.Server.Commands.Execute.{Surroundings}
use qchat_server.Server.Process as Process
use qchat_server.Server.Process.{or_unknown}
use qchat_server.Server.Service.{Texts}
use qchat_server.Server.Service.Answer.{IsSendable}
use qchat_server.Client.Network.{Callback, draw}
use qchat_server.Client.Network.Pending.{Agree}
use qchat_server.Client.Requests.{JsonMaking, MakingLaws, Request, json_of}
use qchat_server.Client.Requests.Meaning.{meaning, request_meaning}
use qchat_server.Client.Session.{Session, request, string_at, succeeded}
use qchat_server.Client.Session.Exchange.{Link, exchange}
use qchat_server.Client.Session.Answered.{text_package, exchange_lem}

module _ (j : JsonLibrary) where
  -- What the JSON value of a reply holds, by utils/returnStateMessage.hpp.
  abbrev pub HoldsExtra : Extra → j.JsonValue → Type 0
  HoldsExtra (Extra.user_id n) v = j.get_int (j.at "user_id" v) ≡ ok n
  HoldsExtra (Extra.group_id n) v = j.get_int (j.at "group_id" v) ≡ ok n
  HoldsExtra _ v = Unit

  abbrev pub state_of : Reply → String
  state_of (error_message text) = "error"
  state_of (success_message text extra) = "success"

  abbrev pub text_of : Reply → String
  text_of (error_message text) = text
  text_of (success_message text extra) = text

  abbrev pub extra_of : Reply → Extra
  extra_of (error_message text) = Extra.nothing
  extra_of (success_message text extra) = extra

  pub record Holds (reply : Reply) (v : j.JsonValue) : Type 0 where
    pub state : j.get_string (j.at "state" v) ≡ ok (state_of reply)
    pub message : j.get_string (j.at "message" v) ≡ ok (text_of reply)
    pub extra : HoldsExtra (extra_of reply) v

-- A request and its reply on the wire: what is read is what was written, and the message of the
-- request and that of the reply are bytes and short enough for a package.
pub record Carries {j : JsonLibrary} (m : JsonMaking j) (texts : Texts j) (r : Request)
    (reply : Reply) : Type 0 where
  pub message_read : texts.to_json (m.to_string (json_of m r)) ≡ ok (json_of m r)
  pub message_bytes : IsBytes (m.to_string (json_of m r))
  pub message_fits : 24 + length (m.to_string (json_of m r)) < 2 ^ 32
  pub reply_sendable : IsSendable texts reply
  pub reply_json : j.JsonValue
  pub reply_read : texts.to_json (texts.to_string reply) ≡ ok reply_json
  pub reply_holds : Holds j reply reply_json

-- The client's network can send, and waits in the middle of no package.
pub record IsReady (l : Link) : Type 0 where
  pub open_socket : l.client.is_receiving ≡ true
  pub nothing_read : l.client.buffer ≡ []
  pub pending : Agree l.client

-- The loop draws an id that can be answered.
pub record Draws (l : Link) (id : ℕ) (rest : List ℕ) : Type 0 where
  pub drawn : draw l.client.numbers l.client.request_ids ≡ some (id, rest)
  pub real : id ≢ 0
  pub small : id < 2 ^ 64

-- The link behind a request.
abbrev pub behind :
    {j : JsonLibrary} → JsonMaking j → Request → ℕ → List ℕ → Process.Session → Link → Link
behind m r id rest z l = record {
  client = record l.client {
    numbers = rest;
    written = l.client.written ++ wire (text_package (m.to_string (json_of m r)) id) ∷ [];
  };
  server = z;
}

module _ {j : JsonLibrary} {m : JsonMaking j} {texts : Texts j} (laws : JsonLaws j)
    (made : MakingLaws j m) (host peer : Endian) (e : Surroundings) (c : ℕ)
    (promise : Callback) where
  -- A request whose operation replies gives the JSON of the reply.
  pub request_lem :
      (r : Request) (x : Session Link) (id : ℕ) (rest : List ℕ) (z : Process.Session)
      (reply : Reply)
      → (carries : Carries m texts r reply) → IsReady x.network
      → Draws x.network id rest
      → meaning e c r x.network.server ≡ (ok reply, z)
      → request m texts.to_json (exchange texts host peer e c promise) r x
        ≡ (ok carries.reply_json, record x { network = behind m r id rest z x.network })
  unfolding request or_unknown
  request_lem r x id rest z reply carries ready draws means =
      ap after exchanged ∙ ap (λ a. (a, x')) (ap texts.to_json unpacked ∙ carries.reply_read)
    where
      x' : Session Link
      x' = record x { network = behind m r id rest z x.network }

      exchanged :
          exchange texts host peer e c promise (m.to_string (json_of m r)) x.network
          ≡ (ok (text_package (texts.to_string reply) id), behind m r id rest z x.network)
      exchanged =
          exchange_lem texts host peer e c promise (m.to_string (json_of m r)) x.network id rest z
            (json_of m r) reply carries.reply_sendable carries.message_bytes carries.message_fits
            ready.open_socket ready.nothing_read ready.pending draws.drawn draws.real draws.small
            carries.message_read
            (request_meaning laws made e c x.network.server r ∙ ap or_unknown means)

      unpacked : get_data (text_package (texts.to_string reply) id) ≡ texts.to_string reply
      unpacked =
          get_data-make_package (texts.to_string reply) PackageType.text 1 0 id
            carries.reply_sendable.text_fits

      after : Result DataPackage × Link → Result j.JsonValue × Session Link
      after p =
          let (answer, network) = p in
          let y : Session Link = record x { network = network } in
          elim answer [ err a ↦ (err a, y) | ok pack ↦ (texts.to_json (get_data pack), y) ]

-- What `state` and `message` of a reply come to.
pub succeeded_runs :
    {W : Type 0} {j : JsonLibrary} (m : JsonMaking j) (to_json : List ℕ → Result j.JsonValue)
    (ask : List ℕ → Action W DataPackage) (reply : Reply) (v : j.JsonValue) (x : Session W)
    → Holds j reply v
    → succeeded m to_json ask v x ≡ (ok (str_eq (state_of j reply) "success"), x)
unfolding succeeded string_at
succeeded_runs m to_json ask reply v x holds = rw (holds.message, holds.state) refl
