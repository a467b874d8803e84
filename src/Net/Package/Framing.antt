-- ===== src/Net/Package/Framing.antt =====
-- utils/network/package.hpp: what `read` cuts off the stream.
use qchat_server.Base.{
  ℕ, ◌+◌, ◌≤◌, ◌≡◌, refl, sym, ap, ◌∙◌, inl, inr, true, false, ◌||◌, List, [], ◌++◌, arith, ltb,
  ◌==◌, if◌then◌else◌, Bool-cases, length, take, drop, length-append, take-append_le, take-append,
  drop-append, All-append, take-append-drop, drop-append_le, ok, err, Errc, system_error,
}
use qchat_server.Net.Bytes.{IsByte, IsBytes}
use qchat_server.Net.Endianness.{Endian}
use qchat_server.Net.DataPackage.Layout.{of_be, read_size}
use qchat_server.Net.Package.{length_field, can_read, first_msg_length, read}

-- A whole message: its first four bytes, most significant first, give its length.
pub record IsFrame (f : List ℕ) : Type 0 where
  pub header : 4 ≤ length f
  pub size_eq : of_be (take 4 f) ≡ length f
  pub bytes : IsBytes f

length_field-of_be :
    (host : Endian) (buffer : List ℕ)
    → 4 ≤ length buffer
    → IsBytes buffer
    → length_field host buffer ≡ of_be (take 4 buffer)
unfolding length_field
length_field-of_be host buffer h v = read_size host buffer h v

-- Every outcome of `read`: the package is incomplete below four bytes or below the announced
-- length; an announced length of 0 is refused, and the buffer stays in both cases; otherwise the
-- announced number of bytes leaves the buffer.
pub read_cases :
    (host : Endian) (buffer : List ℕ)
    → IsBytes buffer
    → let n = of_be (take 4 buffer) in
      read host buffer ≡ (
        if ltb (length buffer) 4 || ltb (length buffer) n
        then (err (system_error Errc.incomplete_package), buffer)
        else if n == 0
        then (err (system_error Errc.empty_length), buffer)
        else (ok (take n buffer), drop n buffer))
unfolding read can_read first_msg_length
read_cases host buffer v = elim (Bool-cases (ltb (length buffer) 4)) [
  | inl small ↦ rw small
  | inr enough ↦ rw (enough, length_field-of_be host buffer (ground arith) v) (ground arith)
]

pub can_read_nil : (host : Endian) → can_read host [] ≡ false
unfolding can_read
can_read_nil host = refl

-- A message at the front of the buffer can be read, and reading takes exactly that message.
pub read-frame :
    (host : Endian) (f rest : List ℕ)
    → IsFrame f
    → IsBytes rest
    → (can_read host (f ++ rest) ≡ true) × (read host (f ++ rest) ≡ (ok f, rest))
unfolding can_read
read-frame host f rest h v = (readable, read_eq)
  where
    long : length (f ++ rest) ≡ length f + length rest
    long = length-append f rest

    valid : IsBytes (f ++ rest)
    valid = All-append IsByte f rest h.bytes v

    announced : of_be (take 4 (f ++ rest)) ≡ length f
    announced = ap of_be (take-append_le 4 f rest h.header) ∙ h.size_eq

    readable : can_read host (f ++ rest) ≡ true
    readable =
        rw (length_field-of_be host (f ++ rest) (omega (arith, long, h.header)) valid, announced)
          (ground (arith, long, h.header))

    read_eq : read host (f ++ rest) ≡ (ok f, rest)
    read_eq =
        read_cases host (f ++ rest) valid
        ∙ rw (announced, take-append (length f) f rest refl, drop-append (length f) f rest refl)
            (ground (arith, long, h.header))

-- What arrives is a prefix of a message and what follows it: as soon as the buffer can be read, the
-- whole message is in it.
pub frame_arrived :
    (host : Endian) (buffer more f others : List ℕ)
    → IsFrame f
    → IsBytes buffer
    → buffer ++ more ≡ f ++ others
    → can_read host buffer ≡ true
    → (buffer ≡ f ++ drop (length f) buffer) × (drop (length f) buffer ++ more ≡ others)
unfolding can_read
frame_arrived host buffer more f others h v e r = (front, rest)
  where
    enough : 4 ≤ length buffer
    enough = ground arith

    same_header : take 4 buffer ≡ take 4 f
    same_header =
        sym (take-append_le 4 buffer more enough)
        ∙ ap (take 4) e
        ∙ take-append_le 4 f others h.header

    announced : length_field host buffer ≡ length f
    announced = length_field-of_be host buffer enough v ∙ ap of_be same_header ∙ h.size_eq

    whole : length f ≤ length buffer
    whole = ground (arith, announced)

    taken : take (length f) buffer ≡ f
    taken =
        sym (take-append_le (length f) buffer more whole)
        ∙ ap (take (length f)) e
        ∙ take-append (length f) f others refl

    front : buffer ≡ f ++ drop (length f) buffer
    front = sym (take-append-drop (length f) buffer) ∙ ap (λ xs. xs ++ drop (length f) buffer) taken

    rest : drop (length f) buffer ++ more ≡ others
    rest =
        sym (drop-append_le (length f) buffer more whole)
        ∙ ap (drop (length f)) e
        ∙ drop-append (length f) f others refl
