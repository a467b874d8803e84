-- ===== src/Net/Tests.antt =====
-- Runs of the wire protocol on small packages, and the theorems at these.
use qchat_server.Base.{
  ℕ, ◌+◌, ◌≡◌, refl, sym, ap, ◌∙◌, true, List, [], ◌∷◌, ◌++◌, append-nil, arith, take, drop,
  take-append-drop, length, ltb, ◌==◌, if◌then◌else◌, ok, err, Errc, system_error,
}
use qchat_server.Net.Bytes.{IsBytes, le_bytes}
use qchat_server.Net.Endianness.{Endian}
use qchat_server.Net.DataPackage.{
  DataPackage, make_package, package_to_string, string_to_package, get_data,
}
use qchat_server.Net.DataPackage.PackageType
use qchat_server.Net.DataPackage.Layout.{wire, of_be, parse}
use qchat_server.Net.DataPackage.RoundTrip.{
  IsPackage, make_send_read, read_send, string_to_package-wire, string_to_package_cases,
}
use qchat_server.Net.Package.{can_read}
use qchat_server.Net.Connection.{Connection, Arrival, Event, received, failed, step, run}
use qchat_server.Net.Connection.Stream.{taken, packages, wires, arrived, run-packages}
use qchat_server.Net.Connection.Turns.{second_package_waits}

abbrev text_package : DataPackage
text_package = record {
  size = 26;
  type = PackageType.text;
  sequence_size = 1;
  sequence = 0;
  request_id = 7;
  payload = 104 ∷ 105 ∷ [];
}

abbrev heart_beat_package : DataPackage
heart_beat_package = record {
  size = 24;
  type = PackageType.heart_beat;
  sequence_size = 1;
  sequence = 0;
  request_id = 0;
  payload = [];
}

text_package-IsPackage : IsPackage text_package
text_package-IsPackage = record {
  size_lt = omega arith;
  type_lt = omega arith;
  sequence_size_lt = omega arith;
  sequence_lt = omega arith;
  request_id_lt = omega arith;
  size_eq = refl;
  payload_bytes = (omega arith, (omega arith, tt));
}

heart_beat_package-IsPackage : IsPackage heart_beat_package
heart_beat_package-IsPackage = record {
  size_lt = omega arith;
  type_lt = omega arith;
  sequence_size_lt = omega arith;
  sequence_lt = omega arith;
  request_id_lt = omega arith;
  size_eq = refl;
  payload_bytes = tt;
}

-- The text package on the wire.
abbrev text_bytes : List ℕ
text_bytes =
    0 ∷ 0 ∷ 0 ∷ 26 ∷ 0 ∷ 0 ∷ 0 ∷ 1 ∷ 0 ∷ 0 ∷ 0 ∷ 1 ∷ 0 ∷ 0 ∷ 0 ∷ 0 ∷ 0 ∷ 0 ∷ 0 ∷ 0 ∷ 0 ∷ 0 ∷ 0 ∷ 7
    ∷ 104 ∷ 105 ∷ []

abbrev idle : Connection
idle = record { buffer = []; heart_beat_times = 0; heart_beat_time_point = 0 }

abbrev reading : List ℕ → Arrival
reading bytes = record { bytes = bytes; now = 1; later = 2; process_returns = true }

abbrev two_packages : List DataPackage
two_packages = text_package ∷ heart_beat_package ∷ []

-- The second read begins in the middle of the second package.
abbrev two_reads : List Event
two_reads =
    received (reading (take 30 (wires two_packages)))
    ∷ received (reading (drop 30 (wires two_packages)))
    ∷ []

two_reads_arrive : [] ++ (arrived two_reads ++ []) ≡ wires two_packages
two_reads_arrive =
    append-nil (arrived two_reads)
    ∙ ap (◌++◌ (take 30 (wires two_packages))) (append-nil (drop 30 (wires two_packages)))
    ∙ take-append-drop 30 (wires two_packages)

run-packages_example :
    let (os, c') = run Endian.little idle two_reads in
    (rest : List DataPackage) × (unread : List ℕ) × (two_packages ≡ packages os ++ rest)
    × (c'.buffer ++ unread ≡ wires rest)
run-packages_example =
    run-packages Endian.little idle two_reads two_packages []
      (text_package-IsPackage, (heart_beat_package-IsPackage, tt)) two_reads_arrive

second_package_waits_example :
    let both = reading (wire text_package ++ wire heart_beat_package) in
    let (o, c') = step Endian.little idle (received both) in
    (taken o ≡ text_package ∷ [])
    × (can_read Endian.little c'.buffer ≡ true)
    × (packages (run Endian.little idle (received both ∷ failed ∷ [])).0 ≡ text_package ∷ [])
second_package_waits_example =
    second_package_waits Endian.little idle (reading (wire text_package ++ wire heart_beat_package))
      text_package heart_beat_package text_package-IsPackage heart_beat_package-IsPackage refl

make_send_read_example :
    let p = make_package (104 ∷ 105 ∷ []) PackageType.text 1 0 7 in
    (s : List ℕ) × (package_to_string Endian.little p ≡ ok s)
    × (length s ≡ 24 + 2)
    × (string_to_package Endian.big s ≡ ok p)
    × (get_data p ≡ 104 ∷ 105 ∷ [])
make_send_read_example =
    make_send_read Endian.little Endian.big (104 ∷ 105 ∷ []) PackageType.text 1 0 7
      (omega arith, (omega arith, tt)) (omega arith) (omega arith) (omega arith) (omega arith)
      (omega arith)

text_bytes-IsBytes : IsBytes text_bytes
text_bytes-IsBytes = ground arith

wire-text_package : wire text_package ≡ text_bytes
unfolding le_bytes
wire-text_package = refl

text_bytes_read : string_to_package Endian.little text_bytes ≡ ok text_package
text_bytes_read =
    ap (string_to_package Endian.little) (sym wire-text_package)
    ∙ string_to_package-wire Endian.little text_package text_package-IsPackage

read_send_example : package_to_string Endian.big text_package ≡ ok text_bytes
read_send_example =
    read_send Endian.little Endian.big text_bytes text_package text_bytes-IsBytes text_bytes_read

string_to_package_cases_example : string_to_package Endian.little text_bytes ≡ (
    if ltb (length text_bytes) 24
    then err (system_error Errc.data_too_small)
    else if of_be (take 4 text_bytes) == length text_bytes
    then ok (parse text_bytes)
    else err (system_error Errc.invalid_data))
string_to_package_cases_example =
    string_to_package_cases Endian.little text_bytes text_bytes-IsBytes
