-- ===== src/Server/Sessions/Requests.antt =====
-- server/socketFunctions and server/jsonMessageProcess: what a request on a connection does to the
-- connections, whatever it asks for.
use Prim.Native.String.{String}
use text.Mathlib.Text.{◌==◌ as str_eq}
use qchat_server.Base.{
  ℕ, ◌≡◌, ◌≢◌, refl, sym, ap, ◌∙◌, Bool, true, false, ◌==◌, if◌then◌else◌, Option, none, some,
  arith, Result, ok, err, Action, List, inl, inr, Option-cases, Bool-cases, ==_iff, system_error,
  logic_error, runtime_error, resource_deadlock, never_ends, undefined_behaviour,
}
use qchat_server.Base.Dict.{id_key, string_key, lookup, contains}
use qchat_server.Net.Endianness.{Endian}
use qchat_server.Net.DataPackage.{DataPackage}
use qchat_server.Net.DataPackage.PackageType
use qchat_server.Room.History.{no_user}
use qchat_server.Server.State.{Server}
use qchat_server.Server.Connections.Links.{IsLinked, belongs, modify_user_of_connection-Modified}
use qchat_server.Server.Json.{JsonLibrary, Reply}
use qchat_server.Server.Commands.{Command, command_list, options}
use qchat_server.Server.Commands.Execute.{Surroundings, execute}
use qchat_server.Server.Frame.Growth.{IsNumbered, Grown, execute-Grows}
use qchat_server.Server.Process.{
  Session, on_server, device_type, wrong_login, log_in, login, turned_away, or_unknown,
  invalid_message, wrong_parameter, run_login, run_command, dispatch, process_json_message,
}
use qchat_server.Server.Process.Login.{admits, log_in_runs, login_runs}
use qchat_server.Server.Service.{Texts, async_send, respond, process}

-- The maps agree, no user has an id that is still to come, and the connection is the local user's.
pub record IsSound (c : ℕ) (z : Session) : Type 0 where
  pub linked : IsLinked z.server
  pub numbered : IsNumbered z.server
  pub own : lookup c z.server.connections ≡ some z.local_user

-- That it is so afterwards too, and that the other connections are as before.
pub record Moves (c : ℕ) (z z' : Session) : Type 0 where
  pub sound : IsSound c z'
  pub others :
      (d : ℕ) → (c == d) ≡ false → lookup d z'.server.connections ≡ lookup d z.server.connections

pub record Moved {A : Type 0} (c : ℕ) (z : Session) (result : Result A × Session) : Type 0 where
  pub moves : Moves c z result.1

module _ (c : ℕ) (z : Session) (sound : IsSound c z) where
  stays-Moved : {A : Type 0} (r : Result A) → Moved c z (r, z)
  stays-Moved r = record { moves = record { sound = sound; others = λ d other. refl } }

  by_option :
      {A B : Type 0} (o : Option A) (p : Result B × Session) (k : A → Result B × Session)
      → Moved c z p
      → ((a : A) → Moved c z (k a))
      → Moved c z (let q : Result B × Session = elim o [ none ↦ p | some a ↦ k a ] in q)
  by_option none p k h g = h
  by_option (some a) p k h g = g a

  by_result :
      {A B : Type 0} (r : Result A) (k : A → Result B × Session)
      → ((a : A) → Moved c z (k a))
      → Moved c z (let q : Result B × Session = elim r [ err x ↦ (err x, z) | ok a ↦ k a ] in q)
  by_result (err x) k g = stays-Moved (err x)
  by_result (ok a) k g = g a

  by_test :
      {A : Type 0} (b : Bool) {p q : Result A × Session}
      → Moved c z p
      → Moved c z q
      → Moved c z (if b then p else q)
  by_test true h g = h
  by_test false h g = g

  -- A command.
  Grown-Moved :
      (t : Server)
      → z.server.new_user_id ≢ no_user
      → Grown z.server t
      → Moves c z (record z { server = t })
  Grown-Moved t real g = record {
    sound = record {
      linked = λ u d. g.holding u d ∙ sound.linked u d ∙ ap (belongs u d) (sym g.connections);
      numbered = g.numbered real sound.numbered;
      own = ap (lookup c) g.connections ∙ sound.own;
    };
    others = λ d other. ap (lookup d) g.connections;
  }

  -- A login that goes through.
  log_in-Moved :
      (e : Surroundings) (user : ℕ) (password device : String)
      → admits e.digest user password z.server ≡ true
      → Moved c z (log_in c user (device_type device) z)
  log_in-Moved e user password device right =
      let there : contains user z.server.users ≡ true = ground (arith, right) in
      let known : contains c z.server.connections ≡ true = ground (arith, sound.own) in
      let real : user ≢ no_user = λ same. absurd (
        ground (
          arith,
          there,
          ap (λ v. contains v z.server.users) same,
          sound.numbered.unused no_user sound.numbered.small,
        )) in
      let m =
        modify_user_of_connection-Modified c user (device_type device) z.server sound.linked real
          there known in
      rw (log_in_runs c user (device_type device) z m.returned) (record {
        moves = record {
          sound = record {
            linked = m.linked;
            numbered = record {
              small = rw m.counter sound.numbered.small;
              unused = λ v over. m.users v ∙ sound.numbered.unused v (rw m.counter at over);
            };
            own = m.owners c ∙ ground (arith, (==_iff c c).1 refl);
          };
          others = λ d other. m.owners d ∙ rw other refl;
        };
      })

  login-Moved :
      (e : Surroundings) (user : ℕ) (password device : String)
      → Moved c z (login e c user password device z)
  login-Moved e user password device =
      rw (login_runs e c user password device z)
        (elim (Bool-cases (admits e.digest user password z.server)) [
          | inl right ↦ rw right (log_in-Moved e user password device right)
          | inr wrong ↦ rw wrong (stays-Moved (ok wrong_login))
        ])

  or_unknown-Moved : (p : Result Reply × Session) → Moved c z p → Moved c z (or_unknown p)
  unfolding or_unknown
  or_unknown-Moved (ok r, t) h = h
  or_unknown-Moved (err (system_error x), t) h = record { moves = h.moves }
  or_unknown-Moved (err logic_error, t) h = record { moves = h.moves }
  or_unknown-Moved (err runtime_error, t) h = record { moves = h.moves }
  or_unknown-Moved (err resource_deadlock, t) h = record { moves = h.moves }
  or_unknown-Moved (err never_ends, t) h = h
  or_unknown-Moved (err undefined_behaviour, t) h = h

  module _ (j : JsonLibrary) (e : Surroundings) (real : z.server.new_user_id ≢ no_user) where
    run_login-Moved : (p : j.JsonValue) → Moved c z (run_login j e c p z)
    unfolding run_login
    run_login-Moved p = by_result (j.get_int (j.at "user_id" p)) _ λ user.
        by_result (j.get_string (j.at "password" p)) _ λ password.
          by_result (j.get_string (j.at "device" p)) (λ device. login e c user password device z)
            λ device. login-Moved e user password device

    execute-Moved :
        (command : Command) (p : j.JsonValue)
        → Moved c z (on_server (execute j e command z.local_user p) z)
    unfolding on_server
    execute-Moved command p = record {
      moves = Grown-Moved _ real (execute-Grows j e command z.local_user p z.server).grown;
    }

    run_command-Moved : (name : String) (p : j.JsonValue) → Moved c z (run_command j e name p z)
    unfolding run_command
    run_command-Moved name p = by_option (lookup name command_list) _ _ (stays-Moved _) λ command.
        elim (Option-cases (wrong_parameter j (options command) p)) [
          | inl right ↦ rw right (execute-Moved command p)
          | inr (text, wrong) ↦ rw wrong (stays-Moved _)
        ]

    dispatch-Moved : (name : String) (p : j.JsonValue) → Moved c z (dispatch j e c name p z)
    unfolding dispatch
    dispatch-Moved name p = by_result (turned_away z.local_user name) _ λ away.
        by_test away (stays-Moved _)
          (by_test (str_eq name "login") (run_login-Moved p) (run_command-Moved name p))

    pub process_json_message-Moved :
        (json : j.JsonValue) → Moved c z (process_json_message j e c json z)
    unfolding process_json_message
    process_json_message-Moved json =
        or_unknown-Moved _ (elim (Option-cases (invalid_message j json)) [
          | inr (text, invalid) ↦ rw invalid (stays-Moved _)
          | inl valid ↦ rw valid (
              by_result (j.get_string (j.at "function" json)) _
                λ name. dispatch-Moved name (j.at "parameters" json))
        ])

    module _ (texts : Texts j) (host : Endian) where
      respond-Moved :
          (request_id : ℕ) (reply : Action Session Reply)
          → Moved c z (reply z)
          → Moved c z (respond texts host request_id reply z)
      unfolding respond
      respond-Moved request_id reply h = after (reply z) h
        where
          after :
              (p : Result Reply × Session)
              → Moved c z p
              → Moved c z (
                  let (r, t) = p in
                  let q : Result (List ℕ) × Session = elim r [
                    | err x ↦ (err x, t)
                    | ok message ↦
                        (async_send host (texts.to_string message) request_id PackageType.text, t)
                  ] in
                  q)
          after (ok message, t) h' = record { moves = h'.moves }
          after (err x, t) h' = record { moves = h'.moves }

      -- Every request, whatever package it comes in.
      pub process-Moved :
          (bytes : List ℕ) (pack : DataPackage) → Moved c z (process texts host e c bytes pack z)
      unfolding process
      process-Moved bytes pack = by_test _ (respond-Moved pack.request_id _ (stays-Moved _)) (
          by_test (pack.type == PackageType.text)
            (respond-Moved pack.request_id _
              (by_result (texts.to_json bytes) _ process_json_message-Moved))
            (respond-Moved pack.request_id _ (stays-Moved _)))
