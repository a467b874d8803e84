-- ===== src/Client/Session/Sending.antt =====
-- testclient/session.cpp on the server: the requests of a session that has logged in.
use Prim.Native.String.{String}
use text.Mathlib.Text.{◌==◌ as str_eq}
use qchat_server.Base.{
  ℕ, ◌≡◌, refl, ap, ◌∙◌, Bool, true, false, not, List, Result, ok, err, Failure, Action, ◌>>=◌,
  ◌>>◌, pure, bind_runs, if◌then◌else◌,
}
use qchat_server.Net.Endianness.{Endian}
use qchat_server.Net.DataPackage.{DataPackage}
use qchat_server.Server.Json.{JsonLibrary, JsonLaws, error_message}
use qchat_server.Server.Commands.Execute.{Surroundings}
use qchat_server.Server.Process as Process
use qchat_server.Server.Service.{Texts}
use qchat_server.Client.Network.{Callback}
use qchat_server.Client.Requests.{JsonMaking, MakingLaws, Request}
use qchat_server.Client.Requests.Meaning.{meaning}
use qchat_server.Client.Session.{Session, request, string_at, int_at, create_group}
use qchat_server.Client.Session.Exchange.{Link, exchange}
use qchat_server.Client.Session.Asking.{Carries, IsReady, Draws, request_lem}

module _ {j : JsonLibrary} {m : JsonMaking j} (texts : Texts j) (laws : JsonLaws j)
    (made : MakingLaws j m) (host peer : Endian) (e : Surroundings) (c : ℕ) (promise : Callback)
    (x : Session Link) (id : ℕ) (rest : List ℕ) (z : Process.Session) where
  abbrev ask : List ℕ → Action Link DataPackage
  ask = exchange texts host peer e c promise

  -- `createGroup` reads the id of the group before the state. The server replies by an error, in whose
  -- JSON there is no `group_id`, and the library throws where an integer is read from a member that
  -- is missing. Then `createGroup` does not return false: it throws that.
  pub create_group_throws :
      (text : String) (failure : Failure)
      (carries : Carries m texts Request.create_group (error_message text))
      → x.has_login ≡ true
      → IsReady x.network
      → Draws x.network id rest
      → meaning e c Request.create_group x.network.server ≡ (ok (error_message text), z)
      → ((name : String) (v : j.JsonValue)
          → j.has_member name v ≡ false
          → j.get_int (j.at name v) ≡ err failure)
      → j.has_member "group_id" carries.reply_json ≡ false
      → (create_group m texts.to_json (exchange texts host peer e c promise) x).0 ≡ err failure
  unfolding create_group string_at int_at
  create_group_throws text failure carries logged_in ready draws means missing no_id =
      ap by_login logged_in
      ∙ ap (λ p. p.0)
          (bind_runs (request m texts.to_json ask Request.create_group) read_reply (
            request_lem laws made host peer e c promise Request.create_group x id rest z
              (error_message text) carries ready draws means))
      ∙ rw (carries.reply_holds.message, missing "group_id" carries.reply_json no_id) refl
    where
      read_reply : j.JsonValue → Action (Session Link) Bool
      read_reply json = do
        string_at m texts.to_json ask "message" json
        int_at m texts.to_json ask "group_id" json
        state ← string_at m texts.to_json ask "state" json
        pure (str_eq state "success")

      by_login : Bool → Result Bool
      by_login b =
          let p : Result Bool × Session Link =
            if not b
            then (ok false, x)
            else (request m texts.to_json ask Request.create_group >>= read_reply) x in
          p.0
