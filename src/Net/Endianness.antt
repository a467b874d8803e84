-- ===== src/Net/Endianness.antt =====
-- utils/networkEndianness.hpp: `swapEndianness` and `swapNetworkEndianness`. A value of an integral
-- type of `size` bytes is its bit pattern, below `2 ^ (8 * size)`.
use native.Mathlib.Nat.{div-div-eq-div-mul, mod-eq_of_lt, pow-le-pow_right}
use qchat_server.Base.{
  ℕ, zero, suc, ◌+◌, ◌*◌, ◌/◌, ◌%◌, ◌^◌, ◌≤◌, ◌<◌, ◌≡◌, refl, sym, ap, ◌∙◌, List, reverse, arith,
  length,
}
use qchat_server.Net.Bytes.{
  IsBytes, le_bytes, of_le, of_be_from, pow256, length-le_bytes, le_bytes-IsBytes, of_le-le_bytes,
  le_bytes-of_le, of_le-lt, of_be_from-of_le, reverse-IsBytes, length-reverse,
}
use mathlib.Core.List.{reverse-reverse}

-- The loop of `swapEndianness` with `rest` rounds to go. A shift to the left drops what leaves the
-- type, and the byte that `|` adds meets zeros.
pub swap_loop : ℕ → ℕ → ℕ → ℕ → ℕ → ℕ
swap_loop size zero i value result = result
swap_loop size (suc rest) i value result =
    swap_loop size rest (suc i) value
      ((result * 256) % 2 ^ (8 * size) + (value / 2 ^ (8 * i)) % 256)

pub swap_endianness : ℕ → ℕ → ℕ
swap_endianness size value = swap_loop size size 0 value 0

-- `std::endian::native`.
pub data Endian : Type 0 where
  little big : Endian

-- `if constexpr (std::endian::native == std::endian::little)`.
unfoldable pub swap_network_endianness : Endian → ℕ → ℕ → ℕ
swap_network_endianness little size value = swap_endianness size value
swap_network_endianness big size value = value

-- The bytes of an integer in the memory of the host, and the integer that they stand for.
unfoldable pub native_bytes : Endian → ℕ → ℕ → List ℕ
native_bytes little n v = le_bytes n v
native_bytes big n v = reverse (le_bytes n v)

unfoldable pub native_value : Endian → List ℕ → ℕ
native_value little bs = of_le bs
native_value big bs = of_le (reverse bs)

pow_mono : (i size : ℕ) → i ≤ size → 2 ^ (8 * i) ≤ 2 ^ (8 * size)
pow_mono i size h = pow-le-pow_right {n = 2} (omega arith) (omega arith)

swap_loop-of_be_from :
    (size rest i value result : ℕ)
    → i + rest ≡ size
    → result < 2 ^ (8 * i)
    → swap_loop size rest i value result ≡ of_be_from result (le_bytes rest (value / 2 ^ (8 * i)))
unfolding swap_loop of_be_from le_bytes
swap_loop-of_be_from size zero i value result e h = refl
swap_loop-of_be_from size (suc rest) i value result e h =
    rw (fits, shift)
      (swap_loop-of_be_from size rest (suc i) value (result * 256 + byte) (omega arith) grown)
  where
    byte : ℕ
    byte = (value / 2 ^ (8 * i)) % 256

    fits : (result * 256) % 2 ^ (8 * size) ≡ result * 256
    fits = mod-eq_of_lt (omega (arith, pow256 i, pow_mono (suc i) size (omega arith)))

    shift : value / 2 ^ (8 * i) / 256 ≡ value / 2 ^ (8 * suc i)
    shift =
        div-div-eq-div-mul value (2 ^ (8 * i)) 256
        ∙ ap (λ (k : ℕ). value / k) (omega (arith, pow256 i))

    grown : result * 256 + byte < 2 ^ (8 * suc i)
    grown = omega (arith, pow256 i)

-- Swapping reads the bytes of the value in the other order.
pub swap_endianness-eq :
    (size value : ℕ) → swap_endianness size value ≡ of_le (reverse (le_bytes size value))
unfolding swap_endianness
swap_endianness-eq size value =
    swap_loop-of_be_from size size 0 value 0 (omega arith) (omega arith)
    ∙ ap (λ v. of_be_from 0 (le_bytes size v)) (omega arith)
    ∙ of_be_from-of_le (le_bytes size value)

-- The bytes of the swapped value are those of the value in the other order.
pub le_bytes-swap :
    (size value : ℕ) → le_bytes size (swap_endianness size value) ≡ reverse (le_bytes size value)
le_bytes-swap size value = rw (swap_endianness-eq size value) (
    ap (λ n. le_bytes n (of_le turned)) (sym turned_size)
    ∙ le_bytes-of_le turned (reverse-IsBytes _ (le_bytes-IsBytes size value)))
  where
    turned : List ℕ
    turned = reverse (le_bytes size value)

    turned_size : length turned ≡ size
    turned_size = length-reverse (le_bytes size value) ∙ length-le_bytes size value

-- Swapping twice gives the value back, and the result of a swap fits the type, for every size.
pub swap_endianness_involutive :
    (size value : ℕ)
    → value < 2 ^ (8 * size)
    → (swap_endianness size (swap_endianness size value) ≡ value)
      × (swap_endianness size value < 2 ^ (8 * size))
swap_endianness_involutive size value h = (
  swap_endianness-eq size (swap_endianness size value)
      ∙ ap (λ bs. of_le (reverse bs)) (le_bytes-swap size value)
      ∙ ap of_le (reverse-reverse (le_bytes size value))
      ∙ of_le-le_bytes size value h,
  swap-lt,
)
  where
    swap-lt : swap_endianness size value < 2 ^ (8 * size)
    swap-lt = rw (swap_endianness-eq size value) (
        omega (
          arith,
          of_le-lt (reverse (le_bytes size value))
              (reverse-IsBytes _ (le_bytes-IsBytes size value)),
          ap (λ k. 2 ^ (8 * k)) (length-reverse (le_bytes size value) ∙ length-le_bytes size value),
        ))

-- On every host, what is written in network order is the value's bytes, most significant first.
pub native_bytes-network :
    (host : Endian) (n v : ℕ)
    → native_bytes host n (swap_network_endianness host n v) ≡ reverse (le_bytes n v)
unfolding native_bytes swap_network_endianness
native_bytes-network little n v = le_bytes-swap n v
native_bytes-network big n v = refl

-- On every host, bytes in network order are read as the number that they stand for.
pub network-native_value :
    (host : Endian) (bs : List ℕ)
    → IsBytes bs
    → swap_network_endianness host (length bs) (native_value host bs) ≡ of_le (reverse bs)
unfolding native_value swap_network_endianness
network-native_value little bs h =
    swap_endianness-eq (length bs) (of_le bs) ∙ ap (λ xs. of_le (reverse xs)) (le_bytes-of_le bs h)
network-native_value big bs h = refl
