-- ===== src/Net/Connection.antt =====
-- server/network/network.cpp: the loop of `Network::process` that reads from one connection, counts
-- heartbeats and hands packages to `SocketService::process`.
pub mod Stream
pub mod Turns
use qchat_server.Base.{
  ℕ, ◌+◌, ◌-◌, Bool, true, false, List, [], ◌∷◌, ◌++◌, ltb, leb, ◌==◌, if◌then◌else◌, Result, ok,
  err,
}
use qchat_server.Net.Endianness.{Endian}
use qchat_server.Net.DataPackage.{DataPackage, string_to_package}
use qchat_server.Net.DataPackage.PackageType
use qchat_server.Net.Package.{can_read, read}

-- Nanoseconds of `std::chrono::steady_clock`.
abbrev pub heart_beat_check_interval : ℕ
heart_beat_check_interval = 10_000_000_000

abbrev pub max_heart_beat_num : ℕ
max_heart_beat_num = 10

-- The local variables of the loop: the package receiver's buffer and the heartbeat count.
pub record Connection : Type 0 where
  pub buffer : List ℕ
  pub heart_beat_times : ℕ
  pub heart_beat_time_point : ℕ

-- One turn of `async_read_some`: it gives bytes, or it ends in an error or a timeout. With the bytes
-- come the two readings of the clock that follow, and whether `SocketService::process` returns.
pub record Arrival : Type 0 where
  pub bytes : List ℕ
  pub now : ℕ
  pub later : ℕ
  pub process_returns : Bool

pub data Event : Type 0 where
  received : Arrival → Event
  failed : Event

-- What a turn of the loop comes to.
pub data Outcome : Type 0 where
  waiting : Outcome
  counted served closed_by : DataPackage → Outcome
  closed : Outcome

-- "Heartbeat package".
pub count_heart_beat : Connection → Arrival → DataPackage → Outcome × Connection
count_heart_beat c a p =
    let times = c.heart_beat_times + 1 in
    if leb heart_beat_check_interval (a.now - c.heart_beat_time_point)
    then if ltb max_heart_beat_num times
      then (closed_by p, record c { heart_beat_times = times; heart_beat_time_point = a.later })
      else (counted p, record c { heart_beat_times = 0; heart_beat_time_point = a.later })
    else (counted p, record c { heart_beat_times = times })

pub handle : Connection → Arrival → DataPackage → Outcome × Connection
handle c a p =
    if p.type == PackageType.heart_beat
    then count_heart_beat c a p
    else (if a.process_returns then served p else closed_by p, c)

-- `packageReceiver.read`, `stringToPackage`, and what follows.
pub take_package : Endian → Connection → Arrival → List ℕ → Outcome × Connection
take_package host c a buffer =
    let (message, rest) = read host buffer in
    let c' = record c { buffer = rest } in
    elim message [
      | err e ↦ (closed, c')
      | ok bytes ↦ elim (string_to_package host bytes) [
        | err e ↦ (closed, c')
        | ok p ↦ handle c' a p
      ]
    ]

-- One read from the socket; when a package is complete, one package is taken.
pub step : Endian → Connection → Event → Outcome × Connection
step host c failed = (closed, c)
step host c (received a) =
    let buffer = c.buffer ++ a.bytes in
    if can_read host buffer
    then take_package host c a buffer
    else (waiting, record c { buffer = buffer })

-- Whether a turn leaves the loop.
pub ends : Outcome → Bool
ends waiting = false
ends (counted p) = false
ends (served p) = false
ends (closed_by p) = true
ends closed = true

-- The loop, until the connection is closed; the outcomes of its turns in order.
pub run : Endian → Connection → List Event → List Outcome × Connection
run host c [] = ([], c)
run host c (e ∷ es) =
    let (o, c') = step host c e in
    elim (ends o) [ true ↦ (o ∷ [], c') | false ↦ let (os, c'') = run host c' es in (o ∷ os, c'') ]
