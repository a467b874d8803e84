-- ===== src/Net/Connection/Turns.antt =====
-- server/network/network.cpp: what one turn of the loop of `Network::process` takes.
use qchat_server.Base.{
  ℕ, inl, inr, Bool-cases, ◌≡◌, subst, ◌∙◌, true, List, [], ◌∷◌, ◌++◌, append-nil,
}
use qchat_server.Net.Bytes.{IsBytes}
use qchat_server.Net.Endianness.{Endian}
use qchat_server.Net.DataPackage.{DataPackage}
use qchat_server.Net.DataPackage.Layout.{wire, wire-IsBytes}
use qchat_server.Net.DataPackage.RoundTrip.{IsPackage}
use qchat_server.Net.Package.{can_read}
use qchat_server.Net.Package.Framing.{read-frame}
use qchat_server.Net.Connection.{Connection, Arrival, received, failed, step, ends, run}
use qchat_server.Net.Connection.Stream.{
  taken, packages, wire-IsFrame, handle-taken, take_package-front,
}

-- When a read from the socket completes a package, that turn takes the package, once and unaltered,
-- and leaves what follows it in the buffer.
pub step-taken :
    (host : Endian) (c : Connection) (a : Arrival) (p : DataPackage) (rest : List ℕ)
    → IsPackage p
    → IsBytes rest
    → c.buffer ++ a.bytes ≡ wire p ++ rest
    → let (o, c') = step host c (received a) in (taken o ≡ p ∷ []) × (c'.buffer ≡ rest)
unfolding step
step-taken host c a p rest h v e =
    rw (e, readable, take_package-front host c a p rest h v)
      (handle-taken (record c { buffer = rest }) a p)
  where
    readable : can_read host (wire p ++ rest) ≡ true
    readable = (read-frame host (wire p) rest (wire-IsFrame p h) v).0

packages-run_failed :
    (host : Endian) (c : Connection) (a : Arrival)
    → packages (run host c (received a ∷ failed ∷ [])).0 ≡ taken (step host c (received a)).0
unfolding run step ends
packages-run_failed host c a =
    let (o, c') = step host c (received a) in
    elim (Bool-cases (ends o)) [
      | inl stop ↦ rw (stop, run) (append-nil (taken o))
      | inr go ↦ rw (go, run) (append-nil (taken o))
    ]

-- Two packages that come in one read: the turn takes the first alone. The second lies complete in
-- the buffer, and if the connection then fails or times out it is never taken.
pub second_package_waits :
    (host : Endian) (c : Connection) (a : Arrival) (p q : DataPackage)
    → IsPackage p
    → IsPackage q
    → c.buffer ++ a.bytes ≡ wire p ++ wire q
    → let (o, c') = step host c (received a) in
      (taken o ≡ p ∷ [])
      × (can_read host c'.buffer ≡ true)
      × (packages (run host c (received a ∷ failed ∷ [])).0 ≡ p ∷ [])
second_package_waits host c a p q hp hq e =
    (first.0, rw first.1 readable, packages-run_failed host c a ∙ first.0)
  where
    first : let (o, c') = step host c (received a) in (taken o ≡ p ∷ []) × (c'.buffer ≡ wire q)
    first = step-taken host c a p (wire q) hp (wire-IsBytes q hq.payload_bytes) e

    readable : can_read host (wire q) ≡ true
    readable =
        subst (λ bytes. can_read host bytes ≡ true) (append-nil (wire q))
          (read-frame host (wire q) [] (wire-IsFrame q hq) tt).0
