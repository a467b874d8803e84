-- ===== src/Net/DataPackage.antt =====
-- utils/network/dataPackage.hpp. `data` is `payload`: the bytes that stand behind the header in the
-- package's memory.
pub mod PackageType
pub mod Layout
pub mod RoundTrip
use qchat_server.Base.{
  ℕ, ◌+◌, ◌-◌, ◌%◌, ◌^◌, Bool, not, ◌||◌, List, ◌++◌, ltb, ◌==◌, if◌then◌else◌, length, take, drop,
  Result, ok, err, Errc, system_error, undefined_behaviour,
}
use qchat_server.Net.Endianness.{Endian, swap_network_endianness, native_bytes, native_value}

pub record DataPackage : Type 0 where
  pub size : ℕ
  pub type : ℕ
  pub sequence_size : ℕ
  pub sequence : ℕ
  pub request_id : ℕ
  pub payload : List ℕ

-- `sizeof(DataPackage)`: four fields of four bytes and one of eight, packed.
abbrev pub header_size : ℕ
header_size = 24

-- The package in the memory of the host.
pub memory : Endian → DataPackage → List ℕ
memory host p =
    native_bytes host 4 p.size
    ++ (native_bytes host 4 p.type
        ++ (native_bytes host 4 p.sequence_size
            ++ (native_bytes host 4 p.sequence ++ (native_bytes host 8 p.request_id ++ p.payload))))

-- A package that is copied from memory.
pub of_memory : Endian → List ℕ → DataPackage
of_memory host bytes = record {
  size = native_value host (take 4 bytes);
  type = native_value host (take 4 (drop 4 bytes));
  sequence_size = native_value host (take 4 (drop 8 bytes));
  sequence = native_value host (take 4 (drop 12 bytes));
  request_id = native_value host (take 8 (drop 16 bytes));
  payload = drop 24 bytes;
}

-- "Endianness conversion", of every field of the header.
pub convert : Endian → DataPackage → DataPackage
convert host p = record {
  size = swap_network_endianness host 4 p.size;
  type = swap_network_endianness host 4 p.type;
  sequence_size = swap_network_endianness host 4 p.sequence_size;
  sequence = swap_network_endianness host 4 p.sequence;
  request_id = swap_network_endianness host 8 p.request_id;
  payload = p.payload;
}

-- The length is cast to 32 bits.
unfoldable pub make_package : List ℕ → ℕ → ℕ → ℕ → ℕ → DataPackage
make_package data_bytes type sequence_size sequence request_id = record {
  size = (header_size + length data_bytes) % 2 ^ 32;
  type = type;
  sequence_size = sequence_size;
  sequence = sequence;
  request_id = request_id;
  payload = data_bytes;
}

-- `packageToString` copies as many bytes as the length says, and converts the header in the copy.
-- A length that is not that of the memory makes it read or write out of bounds.
unfoldable pub package_to_string : Endian → DataPackage → Result (List ℕ)
package_to_string host p =
    if ltb p.size header_size || ltb (header_size + length p.payload) p.size
    then err undefined_behaviour
    else ok (take p.size (memory host (convert host p)))

pub string_to_package : Endian → List ℕ → Result DataPackage
string_to_package host bytes =
    let size = swap_network_endianness host 4 (native_value host (take 4 bytes)) in
    if ltb (length bytes) header_size
    then err (system_error Errc.data_too_small)
    else if not (size == length bytes) || ltb size header_size
    then err (system_error Errc.invalid_data)
    else ok (convert host (of_memory host bytes))

-- `getDataSize`, in `std::size_t`.
unfoldable pub get_data_size : DataPackage → ℕ
get_data_size p = (p.size + 2 ^ 64 - header_size) % 2 ^ 64

unfoldable pub get_data : DataPackage → List ℕ
unfolding get_data_size
get_data p = take (get_data_size p) p.payload
