-- ===== src/Client/Session/Answered.antt =====
-- testclient/network.cpp and the server: what the future of a request gets.
use qchat_server.Base.{
  ℕ, ◌≡◌, ◌≢◌, refl, sym, ap, subst, ◌∙◌, inl, inr, Bool, true, false, not, List, [], ◌∷◌, ◌++◌,
  ◌==◌, if◌then◌else◌, Option, none, some, arith, Result, ok, err, never_ends, ◌+◌, ◌<◌, ◌^◌,
  length, Bool-cases, append-nil, ◌>>◌, pure, is_some, drop-append,
}
use qchat_server.Base.Dict.{
  Dict, id_key, lookup, insert, erase, contains, erase-insert_new, lookup-insert_self, id_refl,
}
use qchat_server.Net.Bytes.{IsBytes}
use qchat_server.Net.Endianness.{Endian}
use qchat_server.Net.DataPackage.{DataPackage, make_package}
use qchat_server.Net.DataPackage.PackageType
use qchat_server.Net.DataPackage.Layout.{wire}
use qchat_server.Net.DataPackage.RoundTrip.{
  IsPackage, make_package-IsPackage, get_data-make_package, package_to_string-wire,
  string_to_package-wire,
}
use qchat_server.Net.Package.{can_read, read}
use qchat_server.Net.Package.Framing.{read-frame}
use qchat_server.Net.Connection.Stream.{wire-IsFrame}
use qchat_server.Room.History.{no_user}
use qchat_server.Server.Json.{JsonLibrary, Reply}
use qchat_server.Server.Commands.Execute.{Surroundings}
use qchat_server.Server.Process as Process
use qchat_server.Server.Process.{process_json_message}
use qchat_server.Server.Service.{Texts, async_send, respond, process}
use qchat_server.Server.Service.Answer.{IsSendable}
use qchat_server.Client.Network.{
  Network, Callback, answered, send_data, draw, send_with_id, send_data_with_option, take_read,
  take_message, receive,
}
use qchat_server.Client.Network.Pending.{Agree, answer_runs}
use qchat_server.Client.Session.Exchange.{
  Link, as_text, future, kept, read_answer, serve, carry, await, exchange,
}

draw_new :
    (numbers : List ℕ) (ids : Dict ℕ (Unit {0})) (id : ℕ) (rest : List ℕ)
    → draw numbers ids ≡ some (id, rest)
    → contains id ids ≡ false
unfolding draw
draw_new [] ids id rest e = cc e
draw_new (number ∷ numbers) ids id rest e = elim (Bool-cases (contains number ids)) [
  | inl used ↦ draw_new numbers ids id rest (rw used at e)
  | inr new ↦
      let same : number ≡ id = cc (rw new at e) in subst (λ i. contains i ids ≡ false) same new
]

absent : {V : Type 0} (k : ℕ) (d : Dict ℕ V) → contains k d ≡ false → lookup k d ≡ none
absent k d h = ground arith

-- A text package.
abbrev pub text_package : List ℕ → ℕ → DataPackage
text_package bytes id = make_package bytes PackageType.text 1 0 id

module _ (bytes : List ℕ) (id : ℕ) (v : IsBytes bytes) (fits : 24 + length bytes < 2 ^ 32)
    (small : id < 2 ^ 64) where
  text_package-IsPackage : IsPackage (text_package bytes id)
  text_package-IsPackage =
      make_package-IsPackage bytes PackageType.text 1 0 id v fits (omega arith) (omega arith)
        (omega arith) small

  -- The network behind a request.
  module _ (host : Endian) (promise : Callback) (n : Network) (rest : List ℕ)
      (open_socket : n.is_receiving ≡ true)
      (drawn : draw n.numbers n.request_ids ≡ some (id, rest)) where
    waiting : Network
    waiting = record n {
      numbers = rest;
      request_ids = insert id tt n.request_ids;
      functions = insert id promise n.functions;
      written = n.written ++ wire (text_package bytes id) ∷ [];
    }

    request_runs :
        send_data_with_option host bytes (some as_text) (some promise) n ≡ (ok id, waiting)
    unfolding send_data_with_option waiting send_with_id send_data make_package
    request_runs =
        goes_on _ _ n.is_receiving open_socket
        ∙ ap with_draw drawn
        ∙ ap with_message
            (package_to_string-wire host (text_package bytes id) text_package-IsPackage)
        ∙ ap with_sent (goes_on _ _ n.is_receiving open_socket)
      where
        goes_on : {A : Type 0} (x y : A) (b : Bool) → b ≡ true → (if not b then x else y) ≡ y
        goes_on x y true h = refl
        goes_on x y false h = cc h

        with_draw : Option (ℕ × List ℕ) → Result ℕ × Network
        with_draw o = elim o [
          | none ↦ (err never_ends, n)
          | some (i, numbers) ↦
              send_with_id host bytes as_text promise i (record n { numbers = numbers })
        ]

        entered : Network
        entered = record n {
          numbers = rest;
          request_ids = insert id tt n.request_ids;
          functions = insert id promise n.functions;
        }

        with_message : Result (List ℕ) → Result ℕ × Network
        with_message r = elim r [
          | err x ↦ (err x, entered)
          | ok message ↦ (send_data message >> pure id) entered
        ]

        with_sent : Result (Unit {0}) × Network → Result ℕ × Network
        with_sent p = let (r, n') = p in elim r [ err x ↦ (err x, n') | ok _ ↦ (ok id, n') ]

-- The server answers the text of a request by the reply of `processJsonMessage`.
module _ {j : JsonLibrary} (texts : Texts j) (peer : Endian) (e : Surroundings) (c : ℕ)
    (bytes : List ℕ) (id : ℕ) (small : id < 2 ^ 64) (z z' : Process.Session) (json : j.JsonValue)
    (reply : Reply) (sendable : IsSendable texts reply) (parsed : texts.to_json bytes ≡ ok json)
    (replied : process_json_message j e c json z ≡ (ok reply, z')) where
  answer_package : DataPackage
  answer_package = text_package (texts.to_string reply) id

  answer_package-IsPackage : IsPackage answer_package
  unfolding answer_package
  answer_package-IsPackage =
      text_package-IsPackage (texts.to_string reply) id sendable.text_bytes sendable.text_fits small

  process_runs :
      process texts peer e c bytes (text_package bytes id) z ≡ (ok (wire answer_package), z')
  unfolding process respond async_send make_package answer_package
  process_runs = elim (Bool-cases (z.local_user == no_user)) [
    | inl nobody ↦ rw nobody responded
    | inr somebody ↦ rw somebody responded
  ]
    where
      responded :
          respond texts peer id
            (λ z₁. elim (texts.to_json bytes) [
              | err x ↦ (err x, z₁)
              | ok json ↦ process_json_message j e c json z₁
            ])
            z
          ≡ (ok (wire answer_package), z')
      responded =
          ap written asked
          ∙ ap (λ r. (r, z')) (package_to_string-wire peer answer_package answer_package-IsPackage)
        where
          asked :
              (let x : Result Reply × Process.Session = elim (texts.to_json bytes) [
                | err x ↦ (err x, z)
                | ok json ↦ process_json_message j e c json z
              ] in
                x)
              ≡ (ok reply, z')
          asked = rw parsed replied

          written : Result Reply × Process.Session → Result (List ℕ) × Process.Session
          written p =
              let (r, z₁) = p in
              elim r [
                | err x ↦ (err x, z₁)
                | ok message ↦ (async_send peer (texts.to_string message) id PackageType.text, z₁)
              ]

-- The client reads a package that answers a request, and the future gets it.
module _ (host peer : Endian) (p : DataPackage) (valid : IsPackage p) (promise : Callback)
    (n : Network) (nothing_read : n.buffer ≡ []) (real : p.request_id ≢ 0)
    (waits : contains p.request_id n.request_ids ≡ true)
    (function : lookup p.request_id n.functions ≡ some promise) where
  after_answer : Network
  after_answer = record n {
    buffer = [];
    request_ids = erase p.request_id n.request_ids;
    functions = erase p.request_id n.functions;
  }

  framed : (can_read host (wire p) ≡ true) × (read host (wire p) ≡ (ok (wire p), []))
  framed =
      subst (λ bytes. (can_read host bytes ≡ true) × (read host bytes ≡ (ok (wire p), [])))
        (append-nil (wire p)) (read-frame host (wire p) [] (wire-IsFrame p valid) tt)

  receive_runs : receive host (wire p) n ≡ (ok (answered promise p ∷ []), after_answer)
  unfolding receive after_answer take_message take_read
  receive_runs =
      ap (λ buffer. take_message host (buffer ++ wire p) n) nothing_read
      ∙ rw framed.0 (
          ap (λ r. take_read host r n) framed.1
          ∙ answer_runs host (wire p) (record n { buffer = [] }) p promise
              (string_to_package-wire host p valid) (ground arith) function)

  kept_runs : kept promise (receive host (wire p) n) ≡ (ok p, after_answer)
  unfolding kept future
  kept_runs = ap (kept promise) receive_runs ∙ rw (id_refl promise, kept) refl

-- A request on an open connection with nothing unread, of which the loop draws an id that is not 0:
-- if `processJsonMessage` replies to its text, by a reply whose own text fits into a package, then
-- the future gets the reply, in a text package with
-- the id of the request. The client's network is the one before, but for the numbers that were drawn
-- and what was written: no request is left waiting, and none is lost. The session of the server is the
-- one that the reply leaves.
pub exchange_lem :
    {j : JsonLibrary} (texts : Texts j) (host peer : Endian) (e : Surroundings) (c : ℕ)
    (promise : Callback) (bytes : List ℕ) (l : Link) (id : ℕ) (rest : List ℕ) (z : Process.Session)
    (json : j.JsonValue) (reply : Reply)
    → IsSendable texts reply
    → IsBytes bytes
    → 24 + length bytes < 2 ^ 32
    → l.client.is_receiving ≡ true
    → l.client.buffer ≡ []
    → Agree l.client
    → draw l.client.numbers l.client.request_ids ≡ some (id, rest)
    → id ≢ 0
    → id < 2 ^ 64
    → texts.to_json bytes ≡ ok json
    → process_json_message j e c json l.server ≡ (ok reply, z)
    → exchange texts host peer e c promise bytes l ≡ (
      ok (text_package (texts.to_string reply) id),
      record {
        client = record l.client {
          numbers = rest;
          written = l.client.written ++ wire (text_package bytes id) ∷ [];
        };
        server = z;
      },
    )
unfolding exchange await carry serve waiting make_package read_answer answer_package after_answer
exchange_lem {j} texts host peer e c promise bytes l id rest z json reply sendable v fits
      open_socket nothing_read agree drawn real small parsed replied =
    ap (await texts host peer e c promise l)
      (request_runs bytes id v fits small host promise l.client rest open_socket drawn)
    ∙ ap (λ messages. carry texts host peer e c promise messages l₁)
        (drop-append (length l.client.written) l.client.written (wire sent ∷ []) refl)
    ∙ ap (λ r. serve texts host peer e c promise r l₁)
        (string_to_package-wire peer sent (text_package-IsPackage bytes id v fits small))
    ∙ ap
        (λ data_bytes.
          read_answer texts host peer e c promise n₁
            (process texts peer e c data_bytes sent l.server))
        (get_data-make_package bytes PackageType.text 1 0 id fits)
    ∙ ap (read_answer texts host peer e c promise n₁)
        (process_runs texts peer e c bytes id small l.server z json reply sendable parsed replied)
    ∙ ap delivers (
        kept_runs host peer replied_with
          (text_package-IsPackage (texts.to_string reply) id sendable.text_bytes sendable.text_fits
            small)
          promise n₁ nothing_read real
          (ap (λ o. is_some o) (lookup-insert_self id tt l.client.request_ids))
          (lookup-insert_self id promise l.client.functions))
    ∙ ap (λ n. (ok replied_with, record { client = n; server = z })) settled
  where
    sent : DataPackage
    sent = text_package bytes id

    replied_with : DataPackage
    replied_with = text_package (texts.to_string reply) id

    n₁ : Network
    n₁ = waiting bytes id v fits small host promise l.client rest open_socket drawn

    l₁ : Link
    l₁ = record l { client = n₁ }

    n₂ : Network
    n₂ = record n₁ {
      buffer = [];
      request_ids = erase id n₁.request_ids;
      functions = erase id n₁.functions;
    }

    delivers : Result DataPackage × Network → Result DataPackage × Link
    delivers p = let (pack, n) = p in (pack, record { client = n; server = z })

    new : contains id l.client.request_ids ≡ false
    new = draw_new l.client.numbers l.client.request_ids id rest drawn

    settled : n₂ ≡ record l.client { numbers = rest; written = l.client.written ++ wire sent ∷ [] }
    settled = λ i. record l.client {
      buffer = sym nothing_read i;
      numbers = rest;
      request_ids = erase-insert_new id tt l.client.request_ids (absent id _ new) i;
      functions =
          erase-insert_new id promise l.client.functions (absent id _ (sym (agree.agree id) ∙ new))
            i;
      written = l.client.written ++ wire sent ∷ [];
    }
