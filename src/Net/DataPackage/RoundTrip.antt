-- ===== src/Net/DataPackage/RoundTrip.antt =====
-- utils/network/dataPackage.hpp: `packageToString` and `stringToPackage` are inverse.
use qchat_server.Base.{
  ℕ, ◌+◌, ◌^◌, ◌≤◌, ◌<◌, ◌≡◌, ap, subst, ◌∙◌, inl, inr, List, arith, length, take, length-drop,
  take_all, All-drop, ok, err, Errc, system_error, ltb, ◌==◌, if◌then◌else◌, Bool-cases,
}
use qchat_server.Net.Bytes.{IsByte, IsBytes}
use qchat_server.Net.Endianness.{Endian}
use qchat_server.Net.DataPackage.{
  DataPackage, make_package, package_to_string, string_to_package, get_data, get_data_size,
}
use qchat_server.Net.DataPackage.Layout.{
  wire, of_be, parse, length-wire, memory-convert, length-be_bytes, parse-fields, of_be-be_bytes,
  wire-parse, convert-of_memory, read_size, wire-IsBytes, of_be-lt,
}

-- The header's fields are numbers of their types, and the length is that of the package.
pub record IsPackage (p : DataPackage) : Type 0 where
  pub size_lt : p.size < 2 ^ 32
  pub type_lt : p.type < 2 ^ 32
  pub sequence_size_lt : p.sequence_size < 2 ^ 32
  pub sequence_lt : p.sequence < 2 ^ 32
  pub request_id_lt : p.request_id < 2 ^ 64
  pub size_eq : p.size ≡ 24 + length p.payload
  pub payload_bytes : IsBytes p.payload

-- A well-formed package is sent as its fields in network order, whatever the host.
pub package_to_string-wire :
    (host : Endian) (p : DataPackage) → IsPackage p → package_to_string host p ≡ ok (wire p)
unfolding package_to_string
package_to_string-wire host p h =
    rw (memory-convert host p, take_all p.size (wire p) (omega (arith, length-wire p, h.size_eq)))
      (ground (arith, h.size_eq))

-- Every outcome of `stringToPackage`, on every host: fewer than 24 bytes are too small, and
-- otherwise the package is read exactly when the first four bytes, most significant first, give the
-- number of bytes.
pub string_to_package_cases :
    (host : Endian) (bytes : List ℕ)
    → IsBytes bytes
    → string_to_package host bytes ≡ (
        if ltb (length bytes) 24
        then err (system_error Errc.data_too_small)
        else if of_be (take 4 bytes) == length bytes
        then ok (parse bytes)
        else err (system_error Errc.invalid_data))
unfolding string_to_package
string_to_package_cases host bytes v = elim (Bool-cases (ltb (length bytes) 24)) [
  | inl small ↦ rw small
  | inr enough ↦
      rw
        (
          enough,
          read_size host bytes (ground arith) v,
          convert-of_memory host bytes (ground arith) v,
        )
        (ground arith)
]

parse-wire : (p : DataPackage) → IsPackage p → parse (wire p) ≡ p
parse-wire p h =
    parse-fields _ _ _ _ _ p.payload (length-be_bytes 4 p.size) (length-be_bytes 4 p.type)
      (length-be_bytes 4 p.sequence_size) (length-be_bytes 4 p.sequence)
      (length-be_bytes 8 p.request_id)
    ∙ λ i. record {
      size = of_be-be_bytes 4 p.size h.size_lt i;
      type = of_be-be_bytes 4 p.type h.type_lt i;
      sequence_size = of_be-be_bytes 4 p.sequence_size h.sequence_size_lt i;
      sequence = of_be-be_bytes 4 p.sequence h.sequence_lt i;
      request_id = of_be-be_bytes 8 p.request_id h.request_id_lt i;
      payload = p.payload;
    }

-- The first four bytes of a well-formed package give its length.
pub wire_size : (p : DataPackage) → IsPackage p → of_be (take 4 (wire p)) ≡ p.size
unfolding parse
wire_size p h = ap (λ (q : DataPackage). q.size) (parse-wire p h)

-- A well-formed package that one host sends is the package that another host reads.
pub string_to_package-wire :
    (host : Endian) (p : DataPackage) → IsPackage p → string_to_package host (wire p) ≡ ok p
string_to_package-wire host p h =
    string_to_package_cases host (wire p) (wire-IsBytes p h.payload_bytes)
    ∙ rw (wire_size p h, parse-wire p h, length-wire p) (ground (arith, h.size_eq))

module _ (bytes : List ℕ) (type sequence_size sequence request_id : ℕ) (v : IsBytes bytes)
    (fits : 24 + length bytes < 2 ^ 32) (ht : type < 2 ^ 32) (hz : sequence_size < 2 ^ 32)
    (hs : sequence < 2 ^ 32) (hr : request_id < 2 ^ 64) where
  pub make_package-IsPackage : IsPackage (make_package bytes type sequence_size sequence request_id)
  unfolding make_package
  make_package-IsPackage = record {
    size_lt = omega arith;
    type_lt = ht;
    sequence_size_lt = hz;
    sequence_lt = hs;
    request_id_lt = hr;
    size_eq = omega arith;
    payload_bytes = v;
  }

pub get_data-make_package :
    (bytes : List ℕ) (type sequence_size sequence request_id : ℕ)
    → 24 + length bytes < 2 ^ 32
    → get_data (make_package bytes type sequence_size sequence request_id) ≡ bytes
unfolding make_package get_data get_data_size
get_data-make_package bytes type sequence_size sequence request_id fits =
    take_all _ bytes (omega arith)

-- Packing data and sending it on one host, and reading it on another, gives the data and the header
-- fields back, as long as the package's length fits 32 bits.
pub make_send_read :
    (sender receiver : Endian) (bytes : List ℕ) (type sequence_size sequence request_id : ℕ)
    → IsBytes bytes
    → 24 + length bytes < 2 ^ 32
    → type < 2 ^ 32
    → sequence_size < 2 ^ 32
    → sequence < 2 ^ 32
    → request_id < 2 ^ 64
    → let p = make_package bytes type sequence_size sequence request_id in
      (s : List ℕ) × (package_to_string sender p ≡ ok s)
      × (length s ≡ 24 + length bytes)
      × (string_to_package receiver s ≡ ok p)
      × (get_data p ≡ bytes)
unfolding make_package
make_send_read sender receiver bytes type sequence_size sequence request_id v fits ht hz hs hr =
    let p : DataPackage = make_package bytes type sequence_size sequence request_id in
    let valid : IsPackage p =
      make_package-IsPackage bytes type sequence_size sequence request_id v fits ht hz hs hr in
    (
      wire p,
      package_to_string-wire sender p valid,
      length-wire p,
      string_to_package-wire receiver p valid,
      get_data-make_package bytes type sequence_size sequence request_id fits,
    )

parse-IsPackage :
    (bytes : List ℕ)
    → 24 ≤ length bytes
    → of_be (take 4 bytes) ≡ length bytes
    → IsBytes bytes
    → IsPackage (parse bytes)
unfolding parse
parse-IsPackage bytes h e v = record {
  size_lt = of_be-lt 0 4 bytes (omega arith) v;
  type_lt = of_be-lt 4 4 bytes (omega arith) v;
  sequence_size_lt = of_be-lt 8 4 bytes (omega arith) v;
  sequence_lt = of_be-lt 12 4 bytes (omega arith) v;
  request_id_lt = of_be-lt 16 8 bytes (omega arith) v;
  size_eq = omega (arith, length-drop 24 bytes);
  payload_bytes = All-drop IsByte 24 bytes v;
}

-- Whatever bytes are accepted, sending the package that was read gives the same bytes.
pub read_send :
    (receiver sender : Endian) (bytes : List ℕ) (p : DataPackage)
    → IsBytes bytes
    → string_to_package receiver bytes ≡ ok p
    → package_to_string sender p ≡ ok bytes
read_send receiver sender bytes p v e =
    subst (λ q. package_to_string sender q ≡ ok bytes) accepted.2
      (package_to_string-wire sender (parse bytes) (parse-IsPackage bytes accepted.0 accepted.1 v)
        ∙ ap ok (wire-parse bytes accepted.0 v))
  where
    accepted : (24 ≤ length bytes) × (of_be (take 4 bytes) ≡ length bytes) × (parse bytes ≡ p)
    accepted = ground (arith, string_to_package_cases receiver bytes v)
