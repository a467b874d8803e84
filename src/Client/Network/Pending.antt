-- ===== src/Client/Network/Pending.antt =====
-- testclient/network.cpp: the requests that wait for an answer.
use Prim.Native.String.{String}
use qchat_server.Base.{
  ℕ, ◌≡◌, ◌≢◌, refl, sym, ap, ◌∙◌, inl, inr, Bool, true, false, not, ◌&&◌, List, [], ◌∷◌, ◌++◌,
  ◌==◌, if◌then◌else◌, Option, none, some, ==_iff, Bool-cases, Option-cases, arith, Result, ok, err,
  ◌>>◌, pure, runtime_error, never_ends,
}
use qchat_server.Base.Dict.{
  Dict, id_key, lookup, insert, erase, contains, lookup-insert, lookup-erase, lookup-erase_self,
}
use qchat_server.Net.Endianness.{Endian}
use qchat_server.Net.DataPackage.{DataPackage, make_package, package_to_string, string_to_package}
use qchat_server.Net.DataPackage.PackageType
use qchat_server.Net.Package.{can_read, read}
use qchat_server.Client.Network.{
  Network, Callback, Call, answered, send_data, draw, send_with_id, send_data_with_option,
  answer_request, call_received_stdstring, take_read, take_message, receive, deliver, connected,
  failed, add_received_stdstring_callback, remove_received_stdstring_callback,
}

-- The ids in use are those that have a function.
pub record Agree (n : Network) : Type 0 where
  pub agree : (id : ℕ) → contains id n.request_ids ≡ contains id n.functions

-- The network of a program that has sent nothing.
abbrev pub new_network : List ℕ → Network
new_network numbers = record {
  is_receiving = false;
  buffer = [];
  received_callbacks = [];
  connected_callbacks = [];
  disconnected_callbacks = [];
  connected_error_callbacks = [];
  numbers = numbers;
  request_ids = [];
  functions = [];
  written = [];
}

-- A request, sent or refused; a read from the socket; the begin and the failure of a connection; a
-- change of the callbacks for texts.
pub data Step (host : Endian) : Network → Network → Type 0 where
  sends :
      (n : Network) (bytes : List ℕ) (option : Option (DataPackage → DataPackage))
      (function : Option Callback)
      → Step host n (send_data_with_option host bytes option function n).1
  receives : (n : Network) (bytes : List ℕ) → Step host n (receive host bytes n).1
  connects : (n : Network) → Step host n (connected n).1
  fails : (n : Network) → Step host n (failed n).1
  adds :
      (n : Network) (name : String) (function : Callback)
      → Step host n (add_received_stdstring_callback name function n).1
  removes :
      (n : Network) (name : String) → Step host n (remove_received_stdstring_callback name n).1

pub data Reachable (host : Endian) : Network → Type 0 where
  start : (numbers : List ℕ) → Reachable host (new_network numbers)
  next : {n n' : Network} → Reachable host n → Step host n n' → Reachable host n'

contains-insert :
    {A B : Type 0} (i id : ℕ) (a : A) (b : B) (d : Dict ℕ A) (e : Dict ℕ B)
    → contains i d ≡ contains i e
    → contains i (insert id a d) ≡ contains i (insert id b e)
contains-insert i id a b d e h = ground (arith, lookup-insert i id a d, lookup-insert i id b e, h)

contains-erase :
    {A B : Type 0} (i id : ℕ) (d : Dict ℕ A) (e : Dict ℕ B)
    → contains i d ≡ contains i e
    → contains i (erase id d) ≡ contains i (erase id e)
contains-erase i id d e h = ground (arith, lookup-erase i id d, lookup-erase i id e, h)

send_with_id-Agree :
    (host : Endian) (bytes : List ℕ) (option : DataPackage → DataPackage) (function : Callback)
    (id : ℕ) (n : Network)
    → Agree n
    → Agree (send_with_id host bytes option function id n).1
unfolding send_with_id send_data
send_with_id-Agree host bytes option function id n h = after (package_to_string host pack)
  where
    pack : DataPackage
    pack = record (option (make_package bytes PackageType.unknown 1 0 0)) { request_id = id }

    n' : Network
    n' = record n {
      request_ids = insert id tt n.request_ids;
      functions = insert id function n.functions;
    }

    entered : Agree n'
    entered = record { agree = λ i. contains-insert i id tt function _ _ (h.agree i) }

    after :
        (r : Result (List ℕ))
        → Agree (
            let x : Result ℕ × Network = elim r [
              | err x ↦ (err x, n')
              | ok message ↦ (send_data message >> pure id) n'
            ] in
            x.1)
    after (err x) = entered
    after (ok message) = elim (Bool-cases n.is_receiving) [
      | inl open_socket ↦ rw open_socket (record { agree = entered.agree })
      | inr shut_socket ↦ rw shut_socket (record { agree = entered.agree })
    ]

answer_request-Agree :
    (pack : DataPackage) (n : Network) → Agree n → Agree (answer_request pack n).1
unfolding answer_request
answer_request-Agree pack n h = elim (Option-cases (lookup pack.request_id n.functions)) [
  | inr (function, found) ↦
      rw (found, answer_request)
        (record { agree = λ i. contains-erase i pack.request_id _ _ (h.agree i) })
  | inl missing ↦ rw (missing, answer_request) (record { agree = λ i. unused i missing })
]
  where
    unused :
        (i : ℕ)
        → lookup pack.request_id n.functions ≡ none
        → contains i (erase pack.request_id n.request_ids) ≡ contains i n.functions
    unused i missing = elim (Bool-cases (pack.request_id == i)) [
      | inr different ↦ rw (lookup-erase i pack.request_id n.request_ids) (rw different (h.agree i))
      | inl same ↦
          let same_id : pack.request_id ≡ i = (==_iff pack.request_id i).0 same in
          rw (lookup-erase i pack.request_id n.request_ids)
            (rw same (sym (ap (λ k. contains k n.functions) (sym same_id) ∙ rw missing refl)))
    ]

call_received_stdstring-Agree :
    (host : Endian) (bytes : List ℕ) (n : Network)
    → Agree n
    → Agree (call_received_stdstring host bytes n).1
unfolding call_received_stdstring
call_received_stdstring-Agree host bytes n h = after (string_to_package host bytes)
  where
    after :
        (r : Result DataPackage)
        → Agree (
            let x : Result (List Call) × Network = elim r [
              | err x ↦ (ok [], n)
              | ok pack ↦
                  if not (pack.request_id == 0) && contains pack.request_id n.request_ids
                  then answer_request pack n
                  else (ok (deliver bytes n.received_callbacks), n)
            ] in
            x.1)
    after (err x) = h
    after (ok pack) =
        elim (Bool-cases (not (pack.request_id == 0) && contains pack.request_id n.request_ids)) [
          | inl waiting ↦ rw waiting (answer_request-Agree pack n h)
          | inr other ↦ rw other h
        ]

receive-Agree :
    (host : Endian) (bytes : List ℕ) (n : Network) → Agree n → Agree (receive host bytes n).1
unfolding receive take_message take_read
receive-Agree host bytes n h = elim (Bool-cases (can_read host (n.buffer ++ bytes))) [
  | inr waits ↦ rw waits (record { agree = h.agree })
  | inl readable ↦ rw readable (after (read host (n.buffer ++ bytes)))
]
  where
    after : (p : Result (List ℕ) × List ℕ) → Agree (take_read host p n).1
    after (err x, rest) = record { agree = h.agree }
    after (ok message, rest) =
        call_received_stdstring-Agree host message (record n { buffer = rest })
          (record { agree = h.agree })

send_data_with_option-Agree :
    (host : Endian) (bytes : List ℕ) (option : Option (DataPackage → DataPackage))
    (function : Option Callback) (n : Network)
    → Agree n
    → Agree (send_data_with_option host bytes option function n).1
unfolding send_data_with_option
send_data_with_option-Agree host bytes none function n h = h
send_data_with_option-Agree host bytes (some option) none n h = h
send_data_with_option-Agree host bytes (some option) (some function) n h = by_test n.is_receiving
  where
    after :
        (o : Option (ℕ × List ℕ))
        → Agree (
            let x : Result ℕ × Network = elim o [
              | none ↦ (err never_ends, n)
              | some (id, rest) ↦
                  send_with_id host bytes option function id (record n { numbers = rest })
            ] in
            x.1)
    after none = h
    after (some (id, rest)) =
        send_with_id-Agree host bytes option function id (record n { numbers = rest })
          (record { agree = h.agree })

    by_test :
        (b : Bool)
        → Agree (
            let x : Result ℕ × Network =
              if not b then (err runtime_error, n) else elim (draw n.numbers n.request_ids) [
                | none ↦ (err never_ends, n)
                | some (id, rest) ↦
                    send_with_id host bytes option function id (record n { numbers = rest })
              ] in
            x.1)
    by_test true = after (draw n.numbers n.request_ids)
    by_test false = h

Step-Agree : {host : Endian} {n n' : Network} → Step host n n' → Agree n → Agree n'
unfolding connected failed add_received_stdstring_callback remove_received_stdstring_callback
Step-Agree (sends n bytes option function) h =
    send_data_with_option-Agree _ bytes option function n h
Step-Agree (receives n bytes) h = receive-Agree _ bytes n h
Step-Agree (connects n) h = record { agree = h.agree }
Step-Agree (fails n) h = record { agree = h.agree }
Step-Agree (adds n name function) h = record { agree = h.agree }
Step-Agree (removes n name) h = record { agree = h.agree }

Reachable-Agree : {host : Endian} {n : Network} → Reachable host n → Agree n
unfolding lookup
Reachable-Agree (start numbers) = record { agree = λ id. refl }
Reachable-Agree (next r step) = Step-Agree step (Reachable-Agree r)

module _ (host : Endian) (bytes : List ℕ) (n : Network) where
  -- What comes back for an id that is not in use, 0 included.
  unsolicited :
      (pack : DataPackage)
      → string_to_package host bytes ≡ ok pack
      → (not (pack.request_id == 0) && contains pack.request_id n.request_ids) ≡ false
      → call_received_stdstring host bytes n ≡ (ok (deliver bytes n.received_callbacks), n)
  unfolding call_received_stdstring
  unsolicited pack read_as other = rw (read_as, call_received_stdstring) (rw other refl)

  pub answer_runs :
      (pack : DataPackage) (f : Callback)
      → string_to_package host bytes ≡ ok pack
      → (not (pack.request_id == 0) && contains pack.request_id n.request_ids) ≡ true
      → lookup pack.request_id n.functions ≡ some f
      → call_received_stdstring host bytes n ≡ (
        ok (answered f pack ∷ []),
        record n {
          request_ids = erase pack.request_id n.request_ids;
          functions = erase pack.request_id n.functions;
        },
      )
  unfolding call_received_stdstring answer_request
  answer_runs pack f read_as waiting found =
      rw (read_as, call_received_stdstring) (rw waiting (rw (found, answer_request) refl))

-- An answer to a request that waits calls the function of that request with the package, and nothing
-- else. No other request is touched. When the same bytes come again, they are no answer any more:
-- they go to the callbacks for texts.
pub answered_once :
    {host : Endian} {n : Network} (bytes : List ℕ) (pack : DataPackage)
    → Reachable host n
    → string_to_package host bytes ≡ ok pack
    → contains pack.request_id n.request_ids ≡ true
    → pack.request_id ≢ 0
    → let (r, n') = call_received_stdstring host bytes n in
      (f : Callback) × (lookup pack.request_id n.functions ≡ some f)
      × (r ≡ ok (answered f pack ∷ []))
      × ((i : ℕ) → i ≢ pack.request_id → lookup i n'.functions ≡ lookup i n.functions)
      × (call_received_stdstring host bytes n' ≡ (ok (deliver bytes n.received_callbacks), n'))
answered_once {host} {n} bytes pack reachable read_as waiting real =
    elim (Option-cases (lookup pack.request_id n.functions)) [
      | inl missing ↦ absurd (ground (arith, (Reachable-Agree reachable).agree pack.request_id))
      | inr (f, found) ↦ rw (answer_runs host bytes n pack f read_as (ground arith) found) (
        f,
        found,
        refl,
        λ i other. ground (arith, lookup-erase i pack.request_id n.functions),
        unsolicited host bytes _ pack read_as
            (ground (arith, lookup-erase_self pack.request_id n.request_ids)),
      )
    ]
