-- ===== src/Net/Bytes.antt =====
-- Numbers as sequences of bytes, and the laws by which the wire protocol is proved.
use mathlib.Core.List.{reverse-cons, reverse-reverse}
use native.Mathlib.Numerals.{towards_suc}
use qchat_server.Base.{
  ℕ, zero, suc, ◌+◌, ◌*◌, ◌/◌, ◌%◌, ◌^◌, ◌<◌, ◌≡◌, refl, sym, ap, ◌∙◌, List, [], ◌∷◌, ◌++◌, reverse,
  arith, length, length-append, All, All-append,
}

abbrev pub IsByte : ℕ → Type 0
IsByte b = b < 256

abbrev pub IsBytes : List ℕ → Type 0
IsBytes = All IsByte

-- The `n` bytes of `v`, the least significant one first.
unfoldable pub le_bytes : ℕ → ℕ → List ℕ
le_bytes zero v = []
le_bytes (suc n) v = (v % 256) ∷ le_bytes n (v / 256)

-- The number whose bytes, least significant first, are given.
unfoldable pub of_le : List ℕ → ℕ
of_le [] = 0
of_le (b ∷ bs) = b + 256 * of_le bs

-- The number whose bytes, most significant first, come behind those of `r`.
unfoldable pub of_be_from : ℕ → List ℕ → ℕ
of_be_from r [] = r
of_be_from r (b ∷ bs) = of_be_from (r * 256 + b) bs

pub pow256 : (i : ℕ) → 2 ^ (8 * suc i) ≡ 256 * 2 ^ (8 * i)
pow256 i = rw (shift i) (simp towards_suc (omega arith))
  where
    shift : (k : ℕ) → 8 * suc k ≡ 8 * k + 8
    shift k = omega arith

pub length-le_bytes : (n v : ℕ) → length (le_bytes n v) ≡ n
unfolding le_bytes
length-le_bytes zero v = refl
length-le_bytes (suc n) v = ap suc (length-le_bytes n (v / 256))

pub le_bytes-IsBytes : (n v : ℕ) → IsBytes (le_bytes n v)
unfolding le_bytes
le_bytes-IsBytes zero v = tt
le_bytes-IsBytes (suc n) v = (omega arith, le_bytes-IsBytes n (v / 256))

pub of_le-le_bytes : (n v : ℕ) → v < 2 ^ (8 * n) → of_le (le_bytes n v) ≡ v
unfolding le_bytes of_le
of_le-le_bytes zero v h = omega arith
of_le-le_bytes (suc n) v h = omega (arith, of_le-le_bytes n (v / 256) smaller)
  where
    smaller : v / 256 < 2 ^ (8 * n)
    smaller = omega (arith, pow256 n)

pub le_bytes-of_le : (bs : List ℕ) → IsBytes bs → le_bytes (length bs) (of_le bs) ≡ bs
unfolding le_bytes of_le
le_bytes-of_le [] h = refl
le_bytes-of_le (b ∷ bs) h = rw (head, tail) (ap (◌∷◌ b) (le_bytes-of_le bs h.1))
  where
    head : (b + 256 * of_le bs) % 256 ≡ b
    head = omega (arith, h.0)

    tail : (b + 256 * of_le bs) / 256 ≡ of_le bs
    tail = omega (arith, h.0)

pub of_le-lt : (bs : List ℕ) → IsBytes bs → of_le bs < 2 ^ (8 * length bs)
unfolding of_le
of_le-lt [] h = omega arith
of_le-lt (b ∷ bs) h = omega (arith, pow256 (length bs), of_le-lt bs h.1, h.0)

of_be_from-append_one :
    (r b : ℕ) (xs : List ℕ) → of_be_from r (xs ++ b ∷ []) ≡ of_be_from r xs * 256 + b
unfolding of_be_from
of_be_from-append_one r b [] = refl
of_be_from-append_one r b (x ∷ xs) = of_be_from-append_one (r * 256 + x) b xs

of_be_from-reverse : (bs : List ℕ) → of_be_from 0 (reverse bs) ≡ of_le bs
unfolding of_le
of_be_from-reverse [] = unfold of_be_from in refl
of_be_from-reverse (b ∷ bs) =
    rw (reverse-cons b bs, of_be_from-append_one 0 b (reverse bs), of_be_from-reverse bs)
      (omega arith)

-- Reading most significant first is reading the reversed bytes least significant first.
pub of_be_from-of_le : (bs : List ℕ) → of_be_from 0 bs ≡ of_le (reverse bs)
of_be_from-of_le bs = ap (of_be_from 0) (sym (reverse-reverse bs)) ∙ of_be_from-reverse (reverse bs)

pub reverse-IsBytes : (bs : List ℕ) → IsBytes bs → IsBytes (reverse bs)
reverse-IsBytes [] h = tt
reverse-IsBytes (b ∷ bs) h =
    rw (reverse-cons b bs)
      (All-append IsByte (reverse bs) (b ∷ []) (reverse-IsBytes bs h.1) (h.0, tt))

pub length-reverse {ℓ} : {A : Type ℓ} (xs : List A) → length (reverse xs) ≡ length xs
length-reverse [] = refl
length-reverse (x ∷ xs) =
    omega
      (arith, ap length (reverse-cons x xs), length-append (reverse xs) (x ∷ []), length-reverse xs)
