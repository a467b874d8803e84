-- ===== src/Net/DataPackage/Layout.antt =====
-- The bytes of a package on the wire, and the fields of a sequence of bytes.
use qchat_server.Base.{
  ℕ, ◌+◌, ◌*◌, ◌^◌, ◌≤◌, ◌<◌, ◌≡◌, sym, ap, ◌∙◌, List, ◌++◌, reverse, arith, length, take, drop,
  length-append, length-take, length-drop, take-append-drop, drop-drop, take-append,
  drop-append_more, drop-append, All-take, All-drop, All-append,
}
use qchat_server.Net.Bytes.{
  IsByte, IsBytes, le_bytes, of_le, length-le_bytes, le_bytes-IsBytes, of_le-le_bytes,
  length-reverse, reverse-IsBytes, le_bytes-of_le, of_le-lt,
}
use qchat_server.Net.Endianness.{
  Endian, swap_network_endianness, native_value, native_bytes-network, network-native_value,
}
use qchat_server.Net.DataPackage.{DataPackage, memory, of_memory, convert}
use mathlib.Core.List.{reverse-reverse}

-- The `n` bytes of a number, the most significant one first.
abbrev pub be_bytes : ℕ → ℕ → List ℕ
be_bytes n v = reverse (le_bytes n v)

abbrev pub of_be : List ℕ → ℕ
of_be bs = of_le (reverse bs)

-- A package on the wire: its fields most significant byte first, then the data.
abbrev pub wire : DataPackage → List ℕ
wire p =
    be_bytes 4 p.size
    ++ (be_bytes 4 p.type
        ++ (be_bytes 4 p.sequence_size
            ++ (be_bytes 4 p.sequence ++ (be_bytes 8 p.request_id ++ p.payload))))

pub length-be_bytes : (n v : ℕ) → length (be_bytes n v) ≡ n
length-be_bytes n v = length-reverse (le_bytes n v) ∙ length-le_bytes n v

be_bytes-IsBytes : (n v : ℕ) → IsBytes (be_bytes n v)
be_bytes-IsBytes n v = reverse-IsBytes _ (le_bytes-IsBytes n v)

pub of_be-be_bytes : (n v : ℕ) → v < 2 ^ (8 * n) → of_be (be_bytes n v) ≡ v
of_be-be_bytes n v h = ap of_le (reverse-reverse (le_bytes n v)) ∙ of_le-le_bytes n v h

be_bytes-of_be : (n : ℕ) (bs : List ℕ) → length bs ≡ n → IsBytes bs → be_bytes n (of_be bs) ≡ bs
be_bytes-of_be n bs e h =
    ap (λ k. be_bytes k (of_be bs)) (sym (length-reverse bs ∙ e))
    ∙ ap reverse (le_bytes-of_le (reverse bs) (reverse-IsBytes bs h))
    ∙ reverse-reverse bs

-- On every host the converted package lies in memory as it goes on the wire.
pub memory-convert : (host : Endian) (p : DataPackage) → memory host (convert host p) ≡ wire p
unfolding memory convert
memory-convert host p = simp native_bytes-network

pub length-wire : (p : DataPackage) → length (wire p) ≡ 24 + length p.payload
length-wire p = simp (length-append, length-be_bytes) (omega arith)

-- A number in network order is read on every host.
read_be :
    (host : Endian) (n : ℕ) (bs : List ℕ)
    → length bs ≡ n
    → IsBytes bs
    → swap_network_endianness host n (native_value host bs) ≡ of_be bs
read_be host n bs e h =
    ap (λ k. swap_network_endianness host k (native_value host bs)) (sym e)
    ∙ network-native_value host bs h

-- The package that a sequence of bytes stands for.
unfoldable pub parse : List ℕ → DataPackage
parse bytes = record {
  size = of_be (take 4 bytes);
  type = of_be (take 4 (drop 4 bytes));
  sequence_size = of_be (take 4 (drop 8 bytes));
  sequence = of_be (take 4 (drop 12 bytes));
  request_id = of_be (take 8 (drop 16 bytes));
  payload = drop 24 bytes;
}

-- Where each field of a sequence of bytes stands, given the fields.
module _ (a b c d e rest : List ℕ) (la : length a ≡ 4) (lb : length b ≡ 4) (lc : length c ≡ 4)
    (ld : length d ≡ 4) (le : length e ≡ 8) where
  fields : List ℕ
  fields = a ++ (b ++ (c ++ (d ++ (e ++ rest))))

  drop_4 : drop 4 fields ≡ b ++ (c ++ (d ++ (e ++ rest)))
  unfolding fields
  drop_4 = drop-append 4 a _ la

  drop_8 : drop 8 fields ≡ c ++ (d ++ (e ++ rest))
  unfolding fields
  drop_8 = drop-append_more 4 4 a _ la ∙ drop-append 4 b _ lb

  drop_12 : drop 12 fields ≡ d ++ (e ++ rest)
  unfolding fields
  drop_12 = drop-append_more 4 8 a _ la ∙ drop-append_more 4 4 b _ lb ∙ drop-append 4 c _ lc

  drop_16 : drop 16 fields ≡ e ++ rest
  unfolding fields
  drop_16 =
      drop-append_more 4 12 a _ la
      ∙ drop-append_more 4 8 b _ lb
      ∙ drop-append_more 4 4 c _ lc
      ∙ drop-append 4 d _ ld

  drop_24 : drop 24 fields ≡ rest
  unfolding fields
  drop_24 =
      drop-append_more 4 20 a _ la
      ∙ drop-append_more 4 16 b _ lb
      ∙ drop-append_more 4 12 c _ lc
      ∙ drop-append_more 4 8 d _ ld
      ∙ drop-append 8 e _ le

  pub parse-fields : parse (a ++ (b ++ (c ++ (d ++ (e ++ rest))))) ≡ record {
    size = of_be a;
    type = of_be b;
    sequence_size = of_be c;
    sequence = of_be d;
    request_id = of_be e;
    payload = rest;
  }
  unfolding fields parse
  parse-fields = λ i. record {
    size = of_be (take-append 4 a (b ++ (c ++ (d ++ (e ++ rest)))) la i);
    type = of_be ((ap (take 4) drop_4 ∙ take-append 4 b _ lb) i);
    sequence_size = of_be ((ap (take 4) drop_8 ∙ take-append 4 c _ lc) i);
    sequence = of_be ((ap (take 4) drop_12 ∙ take-append 4 d _ ld) i);
    request_id = of_be ((ap (take 8) drop_16 ∙ take-append 8 e _ le) i);
    payload = drop_24 i;
  }

-- The `n` bytes behind the first `m`.
length_slice :
    (m n : ℕ) (bytes : List ℕ) → m + n ≤ length bytes → length (take n (drop m bytes)) ≡ n
length_slice m n bytes h = omega (arith, length-take n (drop m bytes), length-drop m bytes)

slice-IsBytes : (m n : ℕ) (bytes : List ℕ) → IsBytes bytes → IsBytes (take n (drop m bytes))
slice-IsBytes m n bytes h = All-take IsByte n (drop m bytes) (All-drop IsByte m bytes h)

split_at : (m n : ℕ) (bytes : List ℕ) → take n (drop m bytes) ++ drop (m + n) bytes ≡ drop m bytes
split_at m n bytes =
    ap (◌++◌ (take n (drop m bytes))) (sym (drop-drop n m bytes))
    ∙ take-append-drop n (drop m bytes)

-- The fields that are read are the bytes that were there.
pub wire-parse : (bytes : List ℕ) → 24 ≤ length bytes → IsBytes bytes → wire (parse bytes) ≡ bytes
unfolding parse
wire-parse bytes h v = rw (
  field 0 4 (omega arith),
  field 4 4 (omega arith),
  field 8 4 (omega arith),
  field 12 4 (omega arith),
  field 16 8 (omega arith),
  split_at 16 8 bytes,
  split_at 12 4 bytes,
  split_at 8 4 bytes,
  split_at 4 4 bytes,
  split_at 0 4 bytes,
)
  where
    field :
        (m n : ℕ)
        → m + n ≤ length bytes
        → be_bytes n (of_be (take n (drop m bytes))) ≡ take n (drop m bytes)
    field m n k = be_bytes-of_be n _ (length_slice m n bytes k) (slice-IsBytes m n bytes v)

-- What a host reads from memory and converts does not depend on the host.
pub convert-of_memory :
    (host : Endian) (bytes : List ℕ)
    → 24 ≤ length bytes
    → IsBytes bytes
    → convert host (of_memory host bytes) ≡ parse bytes
unfolding convert of_memory parse
convert-of_memory host bytes h v = λ i. record {
  size = field 0 4 (omega arith) i;
  type = field 4 4 (omega arith) i;
  sequence_size = field 8 4 (omega arith) i;
  sequence = field 12 4 (omega arith) i;
  request_id = field 16 8 (omega arith) i;
  payload = drop 24 bytes;
}
  where
    field :
        (m n : ℕ)
        → m + n ≤ length bytes
        → swap_network_endianness host n (native_value host (take n (drop m bytes)))
          ≡ of_be (take n (drop m bytes))
    field m n k = read_be host n _ (length_slice m n bytes k) (slice-IsBytes m n bytes v)

-- The length field of at least four bytes.
pub read_size :
    (host : Endian) (bytes : List ℕ)
    → 4 ≤ length bytes
    → IsBytes bytes
    → swap_network_endianness host 4 (native_value host (take 4 bytes)) ≡ of_be (take 4 bytes)
read_size host bytes h v =
    read_be host 4 _ (length_slice 0 4 bytes (omega arith)) (slice-IsBytes 0 4 bytes v)

pub wire-IsBytes : (p : DataPackage) → IsBytes p.payload → IsBytes (wire p)
wire-IsBytes p h = behind 4 p.size _ (
    behind 4 p.type _
      (behind 4 p.sequence_size _ (behind 4 p.sequence _ (behind 8 p.request_id _ h))))
  where
    behind : (n v : ℕ) (bs : List ℕ) → IsBytes bs → IsBytes (be_bytes n v ++ bs)
    behind n v bs k = All-append IsByte (be_bytes n v) bs (be_bytes-IsBytes n v) k

-- A number that is read from `n` bytes is below `2 ^ (8 * n)`.
pub of_be-lt :
    (m n : ℕ) (bytes : List ℕ)
    → m + n ≤ length bytes
    → IsBytes bytes
    → of_be (take n (drop m bytes)) < 2 ^ (8 * n)
of_be-lt m n bytes h v =
    let slice : List ℕ = take n (drop m bytes) in
    let size : length (reverse slice) ≡ n = length-reverse slice ∙ length_slice m n bytes h in
    rw size at (of_le-lt (reverse slice) (reverse-IsBytes slice (slice-IsBytes m n bytes v)))
