-- ===== src/Client/Network.antt =====
-- testclient/network.cpp: `Network`, without the sockets and the threads. A function object is known
-- by a number, and what is written to the socket is kept in `written`.
pub mod Pending
use Prim.Native.String.{String}
use qchat_server.Base.{
  ℕ, Bool, true, false, not, ◌&&◌, List, [], ◌∷◌, ◌++◌, ◌==◌, if◌then◌else◌, Option, none, some,
  Result, ok, err, runtime_error, never_ends, undefined_behaviour, Action, ◌>>=◌, ◌>>◌, pure,
}
use qchat_server.Base.Dict.{Dict, id_key, string_key, lookup, insert, erase, contains}
use qchat_server.Net.Endianness.{Endian}
use qchat_server.Net.DataPackage.{DataPackage, make_package, package_to_string, string_to_package}
use qchat_server.Net.DataPackage.PackageType
use qchat_server.Net.Package.{can_read, read}

abbrev pub Callback : Type 0
Callback = ℕ

abbrev pub Callbacks : Type 0
Callbacks = Dict String Callback

-- `NetworkImpl`. An id of a request is the pattern of its 64 bits, and `numbers` are those that the
-- generator `requestID_mt` will give.
pub record Network : Type 0 where
  pub is_receiving : Bool
  pub buffer : List ℕ
  pub received_callbacks : Callbacks
  pub connected_callbacks : Callbacks
  pub disconnected_callbacks : Callbacks
  pub connected_error_callbacks : Callbacks
  pub numbers : List ℕ
  pub request_ids : Dict ℕ (Unit {0})
  pub functions : Dict ℕ Callback
  pub written : List (List ℕ)

-- What is called: the function of a request with the package that answers it, one of the callbacks
-- for texts with the bytes that came, and one for a change of the connection.
pub data Call : Type 0 where
  answered : Callback → DataPackage → Call
  delivered : Callback → List ℕ → Call
  notified : Callback → Call

-- `add_…_callback` and `remove_…_callback` on their map.
unfoldable pub add_callback : String → Callback → Callbacks → Bool × Callbacks
add_callback name function callbacks =
    if contains name callbacks then (false, callbacks) else (true, insert name function callbacks)

unfoldable pub remove_callback : String → Callbacks → Bool × Callbacks
remove_callback name callbacks =
    if not (contains name callbacks) then (false, callbacks) else (true, erase name callbacks)

unfoldable pub add_received_stdstring_callback : String → Callback → Network → Bool × Network
add_received_stdstring_callback name function n =
    let (added, callbacks) = add_callback name function n.received_callbacks in
    (added, record n { received_callbacks = callbacks })

unfoldable pub remove_received_stdstring_callback : String → Network → Bool × Network
remove_received_stdstring_callback name n =
    let (removed, callbacks) = remove_callback name n.received_callbacks in
    (removed, record n { received_callbacks = callbacks })

unfoldable pub add_connected_callback : String → Callback → Network → Bool × Network
add_connected_callback name function n =
    let (added, callbacks) = add_callback name function n.connected_callbacks in
    (added, record n { connected_callbacks = callbacks })

unfoldable pub remove_connected_callback : String → Network → Bool × Network
remove_connected_callback name n =
    let (removed, callbacks) = remove_callback name n.connected_callbacks in
    (removed, record n { connected_callbacks = callbacks })

unfoldable pub add_disconnected_callback : String → Callback → Network → Bool × Network
add_disconnected_callback name function n =
    let (added, callbacks) = add_callback name function n.disconnected_callbacks in
    (added, record n { disconnected_callbacks = callbacks })

unfoldable pub remove_disconnected_callback : String → Network → Bool × Network
remove_disconnected_callback name n =
    let (removed, callbacks) = remove_callback name n.disconnected_callbacks in
    (removed, record n { disconnected_callbacks = callbacks })

unfoldable pub add_connected_error_callback : String → Callback → Network → Bool × Network
add_connected_error_callback name function n =
    let (added, callbacks) = add_callback name function n.connected_error_callbacks in
    (added, record n { connected_error_callbacks = callbacks })

unfoldable pub remove_connected_error_callback : String → Network → Bool × Network
remove_connected_error_callback name n =
    let (removed, callbacks) = remove_callback name n.connected_error_callbacks in
    (removed, record n { connected_error_callbacks = callbacks })

-- `call_connected`, `call_disconnect` and `call_connected_error`, on their map.
unfoldable pub notify : Callbacks → List Call
notify [] = []
notify ((name, function) ∷ callbacks) = notified function ∷ notify callbacks

-- "revceiveStdStringFunction_map": every callback gets the bytes.
unfoldable pub deliver : List ℕ → Callbacks → List Call
deliver bytes [] = []
deliver bytes ((name, function) ∷ callbacks) = delivered function bytes ∷ deliver bytes callbacks

unfoldable pub send_data : List ℕ → Action Network (Unit {0})
send_data bytes n =
    if not n.is_receiving
    then (err runtime_error, n)
    else (ok tt, record n { written = n.written ++ bytes ∷ [] })

-- The loop that draws an id, to the first number that is not in use, and the numbers behind it.
unfoldable pub draw : List ℕ → Dict ℕ (Unit {0}) → Option (ℕ × List ℕ)
draw [] request_ids = none
draw (number ∷ numbers) request_ids =
    let rest = draw numbers request_ids in
    if contains number request_ids then rest else some (number, numbers)

-- What is written of a request, in two sections: its id, under the locks, and behind their scope,
-- without a lock, its function.
abbrev pub enter_id : ℕ → Network → Network
enter_id id n = record n { request_ids = insert id tt n.request_ids }

abbrev pub enter_function : ℕ → Callback → Network → Network
enter_function id function n = record n { functions = insert id function n.functions }

-- `send_data_with_option` with the id that the loop drew, behind it. Nothing of the network's thread
-- comes between the two sections here.
unfoldable pub send_with_id :
    Endian → List ℕ → (DataPackage → DataPackage) → Callback → ℕ → Action Network ℕ
send_with_id host bytes option function id n =
    let pack = record (option (make_package bytes PackageType.unknown 1 0 0)) { request_id = id } in
    let n' = enter_function id function (enter_id id n) in
    elim (package_to_string host pack) [
      | err x ↦ (err x, n')
      | ok message ↦ (send_data message >> pure id) n'
    ]

-- A function object may be empty.
unfoldable pub send_data_with_option :
    Endian → List ℕ → Option (DataPackage → DataPackage) → Option Callback → Action Network ℕ
send_data_with_option host bytes none function n = (err runtime_error, n)
send_data_with_option host bytes (some option) none n = (err runtime_error, n)
send_data_with_option host bytes (some option) (some function) n =
    if not n.is_receiving then (err runtime_error, n) else elim (draw n.numbers n.request_ids) [
      | none ↦ (err never_ends, n)
      | some (id, rest) ↦ send_with_id host bytes option function id (record n { numbers = rest })
    ]

-- "need_moving_data": the id is in use no more, and its function is called and erased. Where there is
-- none, `erase` gets the end of the map.
unfoldable pub answer_request : DataPackage → Action Network (List Call)
answer_request pack n =
    let n' = record n { request_ids = erase pack.request_id n.request_ids } in
    elim (lookup pack.request_id n.functions) [
      | none ↦ (err undefined_behaviour, n')
      | some function ↦ (
        ok (answered function pack ∷ []),
        record n' { functions = erase pack.request_id n.functions },
      )
    ]

-- `call_received_stdstring`. What is no package is dropped.
unfoldable pub call_received_stdstring : Endian → List ℕ → Action Network (List Call)
call_received_stdstring host bytes n = elim (string_to_package host bytes) [
  | err x ↦ (ok [], n)
  | ok pack ↦
      if not (pack.request_id == 0) && contains pack.request_id n.request_ids
      then answer_request pack n
      else (ok (deliver bytes n.received_callbacks), n)
]

-- What `read` gives, and what it leaves in the buffer.
unfoldable pub take_read : Endian → Result (List ℕ) × List ℕ → Action Network (List Call)
take_read host (err x, rest) n = (err x, record n { buffer = rest })
take_read host (ok bytes, rest) n = call_received_stdstring host bytes (record n { buffer = rest })

-- One package, if it is complete in the buffer.
unfoldable pub take_message : Endian → List ℕ → Action Network (List Call)
take_message host buffer n =
    if not (can_read host buffer)
    then (ok [], record n { buffer = buffer })
    else take_read host (read host buffer) n

-- A turn of the loop of `start_connect`: bytes are read, and one package at most is taken.
unfoldable pub receive : Endian → List ℕ → Action Network (List Call)
receive host bytes n = take_message host (n.buffer ++ bytes) n

-- What follows the handshake, and `catch`.
unfoldable pub connected : Network → List Call × Network
connected n = (notify n.connected_callbacks, record n { is_receiving = true })

unfoldable pub failed : Network → List Call × Network
failed n = (notify n.connected_error_callbacks, record n { is_receiving = false })
