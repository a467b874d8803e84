-- ===== src/Net/Connection/Stream.antt =====
-- server/network/network.cpp: what the loop of `Network::process` makes of a stream of packages.
use qchat_server.Base.{
  ℕ, ◌≡◌, refl, sym, ap, subst, ◌∙◌, inl, inr, true, false, List, [], ◌∷◌, ◌++◌, append_assoc,
  append-nil, arith, Bool-cases, length, drop, All, All-append, ok,
}
use qchat_server.Net.Bytes.{IsByte, IsBytes}
use qchat_server.Net.Endianness.{Endian}
use qchat_server.Net.DataPackage.{DataPackage}
use qchat_server.Net.DataPackage.Layout.{wire, length-wire, wire-IsBytes}
use qchat_server.Net.DataPackage.RoundTrip.{IsPackage, string_to_package-wire, wire_size}
use qchat_server.Net.Package.{can_read, read}
use qchat_server.Net.Package.Framing.{IsFrame, read-frame, frame_arrived, can_read_nil}
use qchat_server.Net.Connection.{
  Connection, Arrival, Event, received, failed, Outcome, waiting, counted, served, closed_by,
  closed, count_heart_beat, handle, take_package, step, ends, run,
}

-- The package that a turn of the loop takes off the stream.
abbrev pub taken : Outcome → List DataPackage
taken waiting = []
taken (counted p) = p ∷ []
taken (served p) = p ∷ []
taken (closed_by p) = p ∷ []
taken closed = []

abbrev pub packages : List Outcome → List DataPackage
packages [] = []
packages (o ∷ os) = taken o ++ packages os

-- The bytes of a sequence of packages.
abbrev pub wires : List DataPackage → List ℕ
wires [] = []
wires (p ∷ ps) = wire p ++ wires ps

abbrev pub bytes_of : Event → List ℕ
bytes_of (received a) = a.bytes
bytes_of failed = []

abbrev pub arrived : List Event → List ℕ
arrived [] = []
arrived (e ∷ es) = bytes_of e ++ arrived es

wires-IsBytes : (ps : List DataPackage) → All IsPackage ps → IsBytes (wires ps)
wires-IsBytes [] h = tt
wires-IsBytes (p ∷ ps) h =
    All-append IsByte (wire p) (wires ps) (wire-IsBytes p h.0.payload_bytes) (wires-IsBytes ps h.1)

IsBytes-prefix : (xs ys : List ℕ) → IsBytes (xs ++ ys) → IsBytes xs
IsBytes-prefix [] ys h = tt
IsBytes-prefix (x ∷ xs) ys h = (h.0, IsBytes-prefix xs ys h.1)

IsBytes-suffix : (xs ys : List ℕ) → IsBytes (xs ++ ys) → IsBytes ys
IsBytes-suffix [] ys h = h
IsBytes-suffix (x ∷ xs) ys h = IsBytes-suffix xs ys h.1

pub wire-IsFrame : (p : DataPackage) → IsPackage p → IsFrame (wire p)
wire-IsFrame p h = record {
  header = omega (arith, length-wire p);
  size_eq = wire_size p h ∙ h.size_eq ∙ sym (length-wire p);
  bytes = wire-IsBytes p h.payload_bytes;
}

pub handle-taken :
    (c : Connection) (a : Arrival) (p : DataPackage)
    → (taken (handle c a p).0 ≡ p ∷ []) × ((handle c a p).1.buffer ≡ c.buffer)
unfolding handle count_heart_beat
handle-taken c a p = ground arith

pub take_package-front :
    (host : Endian) (c : Connection) (a : Arrival) (p : DataPackage) (rest : List ℕ)
    → IsPackage p
    → IsBytes rest
    → take_package host c a (wire p ++ rest) ≡ handle (record c { buffer = rest }) a p
unfolding take_package
take_package-front host c a p rest h v =
    let message : read host (wire p ++ rest) ≡ (ok (wire p), rest) =
      (read-frame host (wire p) rest (wire-IsFrame p h) v).1 in
    rw (message, string_to_package-wire host p h, take_package) (rw message)

-- What is left of the stream behind one turn.
abbrev Left : List DataPackage → List ℕ → Outcome × Connection → Type 0
Left ps more (o, c) =
    (rest : List DataPackage) × (ps ≡ taken o ++ rest)
    × (c.buffer ++ more ≡ wires rest)
    × All IsPackage rest

nothing_unread : (host : Endian) (xs ys : List ℕ) → xs ++ ys ≡ [] → can_read host xs ≡ false
nothing_unread host [] ys e = can_read_nil host
nothing_unread host (x ∷ xs) ys e = cc

readable-Left :
    (host : Endian) (c : Connection) (a : Arrival) (ps : List DataPackage) (buffer more : List ℕ)
    → All IsPackage ps
    → buffer ++ more ≡ wires ps
    → can_read host buffer ≡ true
    → Left ps more (take_package host c a buffer)
readable-Left host c a [] buffer more h e r = cc (nothing_unread host buffer more e)
readable-Left host c a (p ∷ ps) buffer more h e r =
    rw (split.0, take_package-front host c a p rest h.0 rest_bytes)
      (ps, ap (λ qs. qs ++ ps) (sym (handle-taken c' a p).0), left, h.1)
  where
    buffer_bytes : IsBytes buffer
    buffer_bytes = IsBytes-prefix buffer more (rw e (wires-IsBytes (p ∷ ps) h))

    rest : List ℕ
    rest = drop (length (wire p)) buffer

    split : (buffer ≡ wire p ++ rest) × (rest ++ more ≡ wires ps)
    split = frame_arrived host buffer more (wire p) (wires ps) (wire-IsFrame p h.0) buffer_bytes e r

    rest_bytes : IsBytes rest
    rest_bytes = IsBytes-suffix (wire p) rest (subst IsBytes split.0 buffer_bytes)

    c' : Connection
    c' = record c { buffer = rest }

    left : (handle c' a p).1.buffer ++ more ≡ wires ps
    left = ap (λ xs. xs ++ more) (handle-taken c' a p).1 ∙ split.1

step-Left :
    (host : Endian) (c : Connection) (e : Event) (ps : List DataPackage) (more : List ℕ)
    → All IsPackage ps
    → c.buffer ++ (bytes_of e ++ more) ≡ wires ps
    → Left ps more (step host c e)
unfolding step
step-Left host c failed ps more h e = (ps, refl, e, h)
step-Left host c (received a) ps more h e =
    elim (Bool-cases (can_read host (c.buffer ++ a.bytes))) [
      | inl r ↦ rw r (readable-Left host c a ps (c.buffer ++ a.bytes) more h whole r)
      | inr w ↦ rw w (ps, refl, whole, h)
    ]
  where
    whole : (c.buffer ++ a.bytes) ++ more ≡ wires ps
    whole = append_assoc c.buffer a.bytes more ∙ e

-- Whatever way the bytes of a sequence of packages are cut into reads, and however far the stream
-- has come, the packages that the loop takes are the first ones sent, in order, none lost, doubled or
-- altered, and its buffer holds the bytes of those that follow as far as they were read.
pub run-packages :
    (host : Endian) (c : Connection) (es : List Event) (ps : List DataPackage) (more : List ℕ)
    → All IsPackage ps
    → c.buffer ++ (arrived es ++ more) ≡ wires ps
    → let (os, c') = run host c es in
      (rest : List DataPackage) × (unread : List ℕ) × (ps ≡ packages os ++ rest)
      × (c'.buffer ++ unread ≡ wires rest)
unfolding run
run-packages host c [] ps more h e = (ps, more, refl, e)
run-packages host c (x ∷ es) ps more h e =
    let (o, c') = step host c x in
    let (rest, split, left, valid) =
      step-Left host c x ps (arrived es ++ more) h
        (ap (◌++◌ c.buffer) (sym (append_assoc (bytes_of x) (arrived es) more)) ∙ e) in
    elim (Bool-cases (ends o)) [
      | inl stop ↦
          rw (stop, run)
            (
              rest,
              arrived es ++ more,
              split ∙ ap (λ qs. qs ++ rest) (sym (append-nil (taken o))),
              left,
            )
      | inr go ↦
          let (last, unread, split', left') = run-packages host c' es rest more valid left in
          rw (go, run)
            (
              last,
              unread,
              split
                  ∙ ap (◌++◌ (taken o)) split'
                  ∙ sym (append_assoc (taken o) (packages (run host c' es).0) last),
              left',
            )
    ]
