-- ===== src/Client/Session.antt =====
-- testclient/session.cpp: `Session`, on a network that answers: `ask` is `send_data_with_result_n_option`
-- with its `get()`, which takes the text of a request and gives the package of the answer.
pub mod Exchange
pub mod Answered
pub mod Asking
pub mod Registering
pub mod Sending
use Prim.Native.String.{String}
use text.Mathlib.Text.{◌==◌ as str_eq}
use qchat_server.Base.{
  ℕ, Bool, true, false, not, List, if◌then◌else◌, Option, none, some, Result, ok, err, Action,
  ◌>>=◌, ◌>>◌, pure,
}
use qchat_server.Net.DataPackage.{DataPackage, get_data}
use qchat_server.Server.Json.{JsonLibrary}
use qchat_server.Client.Requests.{JsonMaking, Request, json_of}

-- `SessionImpl`, and what the network keeps.
pub record Session (W : Type 0) : Type 0 where
  pub network : W
  pub user_id : ℕ
  pub has_login : Bool

module _ {W : Type 0} {j : JsonLibrary} (m : JsonMaking j) (to_json : List ℕ → Result j.JsonValue)
    (ask : List ℕ → Action W DataPackage) where
  -- A request, and `readJsonFunctionDataPackage` of its answer.
  unfoldable pub request : Request → Action (Session W) j.JsonValue
  request r x =
      let (answer, network) = ask (m.to_string (json_of m r)) x.network in
      let x' = record x { network = network } in
      elim answer [ err e ↦ (err e, x') | ok pack ↦ (to_json (get_data pack), x') ]

  -- `returnJson[name].getString()` and `.getInt()`.
  unfoldable pub string_at : String → j.JsonValue → Action (Session W) String
  string_at name json x = (j.get_string (j.at name json), x)

  unfoldable pub int_at : String → j.JsonValue → Action (Session W) ℕ
  int_at name json x = (j.get_int (j.at name json), x)

  -- The message is printed, and the state says whether the request succeeded.
  unfoldable pub succeeded : j.JsonValue → Action (Session W) Bool
  succeeded json = do
    string_at "message" json
    state ← string_at "state" json
    pure (str_eq state "success")

  -- The id of the new user, where `registerUser` returns true.
  unfoldable pub register_user : String → String → Action (Session W) (Option ℕ)
  register_user email password = do
    json ← request (Request.register_user email password)
    done ← succeeded json
    if done then (do user ← int_at "user_id" json; pure (some user)) else pure none

  unfoldable pub log_in_as : ℕ → Action (Session W) Bool
  log_in_as user x = (ok true, record x { user_id = user; has_login = true })

  unfoldable pub login_user : ℕ → String → Action (Session W) Bool
  login_user user password = do
    json ← request (Request.login_user user password)
    done ← succeeded json
    if done then log_in_as user else pure false

  -- `if (!m_impl->has_login) return false;`, the request, and what its state says.
  unfoldable pub send_request : Request → Action (Session W) Bool
  send_request r x =
      if not x.has_login then (ok false, x) else (do json ← request r; succeeded json) x

  unfoldable pub create_friend_application : ℕ → Action (Session W) Bool
  create_friend_application user = send_request (Request.create_friend_application user)

  unfoldable pub apply_friend_application : ℕ → Action (Session W) Bool
  apply_friend_application user = send_request (Request.apply_friend_application user)

  unfoldable pub reject_friend_application : ℕ → Action (Session W) Bool
  reject_friend_application user = send_request (Request.reject_friend_application user)

  -- The group's id is printed before the state is read, whatever the state is.
  unfoldable pub create_group : Action (Session W) Bool
  create_group x =
      if not x.has_login
      then (ok false, x)
      else (do
        json ← request Request.create_group
        string_at "message" json
        int_at "group_id" json
        state ← string_at "state" json
        pure (str_eq state "success"))
          x

  unfoldable pub create_group_application : ℕ → Action (Session W) Bool
  create_group_application group = send_request (Request.create_group_application group)

  unfoldable pub apply_group_application : ℕ → ℕ → Action (Session W) Bool
  apply_group_application group user = send_request (Request.apply_group_application group user)

  unfoldable pub reject_group_application : ℕ → ℕ → Action (Session W) Bool
  reject_group_application group user = send_request (Request.reject_group_application group user)

  unfoldable pub send_friend_message : ℕ → String → Action (Session W) Bool
  send_friend_message user message = send_request (Request.send_friend_message user message)

  unfoldable pub send_group_message : ℕ → String → Action (Session W) Bool
  send_group_message group message = send_request (Request.send_group_message group message)

  unfoldable pub remove_friend : ℕ → Action (Session W) Bool
  remove_friend user = send_request (Request.remove_friend user)

  unfoldable pub leave_group : ℕ → Action (Session W) Bool
  leave_group group = send_request (Request.leave_group group)
