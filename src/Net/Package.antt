-- ===== src/Net/Package.antt =====
-- utils/network/package.hpp: `Package<DataPackage::LengthType>`, the buffer behind a connection that
-- cuts the stream of bytes into packages. The state is `m_buffer`.
pub mod Framing
use qchat_server.Base.{
  ℕ, ◌≡◌, ◌<◌, Bool, not, false, List, ◌++◌, ltb, leb, ◌==◌, if◌then◌else◌, length, take, drop,
  Errc, system_error, ok, err, Action, ◌>>=◌, ◌>>◌, gets, modify, throw_if,
}
use qchat_server.Net.Endianness.{Endian, swap_network_endianness, native_value}

-- `sizeof(T)` for `T = DataPackage::LengthType`.
abbrev pub size_of_length : ℕ
size_of_length = 4

-- `length` as `canRead` and `firstMsgLength` read it.
pub length_field : Endian → List ℕ → ℕ
length_field host buffer =
    swap_network_endianness host size_of_length (native_value host (take size_of_length buffer))

pub write : List ℕ → Action (List ℕ) (Unit {0})
write bytes = modify (λ buffer. buffer ++ bytes)

pub can_read : Endian → List ℕ → Bool
can_read host buffer =
    if ltb (length buffer) size_of_length
    then false
    else leb (length_field host buffer) (length buffer)

pub first_msg_length : Endian → List ℕ → ℕ
first_msg_length host buffer =
    if ltb (length buffer) size_of_length then 0 else length_field host buffer

pub read : Endian → Action (List ℕ) (List ℕ)
read host buffer =
    if not (can_read host buffer)
    then (err (system_error Errc.incomplete_package), buffer)
    else if first_msg_length host buffer == 0
    then (err (system_error Errc.empty_length), buffer)
    else (
      ok (take (first_msg_length host buffer) buffer),
      drop (first_msg_length host buffer) buffer,
    )
