-- ===== src/Server/Sessions/Invariant.antt =====
-- The server with all its connections, over every sequence of connections, requests and ends of
-- connections: who is logged in where.
use qchat_server.Base.{
  ℕ, ◌≡◌, ◌≢◌, ◌≤◌, refl, sym, ◌∙◌, true, false, ◌==◌, none, some, arith, List, inl, inr,
  Bool-cases, ==_iff,
}
use qchat_server.Base.Dict.{id_key, lookup, contains, lookup-insert, lookup-erase}
use qchat_server.Net.Endianness.{Endian}
use qchat_server.Room.History.{no_user}
use qchat_server.Server.Connections.{register_connection}
use qchat_server.Server.Connections.Links.{
  IsLinked, holds, belongs, register_connection-IsLinked, remove_connection_of-IsLinked,
}
use qchat_server.Server.Json.{JsonLibrary}
use qchat_server.Net.DataPackage.{DataPackage}
use qchat_server.Server.Commands.Execute.{Surroundings}
use qchat_server.Server.Process.{Session}
use qchat_server.Server.Service.{Texts, process}
use qchat_server.Server.Sessions.{
  World, new_world, connect, disconnect, session_of, resume, Step, connects, answers, throws,
  leaves, Reachable, start, next,
}
use qchat_server.Server.Frame.Growth.{IsNumbered}
use qchat_server.Server.Sessions.Requests.{Moves, process-Moved}

-- The maps agree, no user has an id that is still to come, and every session knows whose its connection is.
pub record IsConsistent (w : World) : Type 0 where
  pub linked : IsLinked w.server
  pub numbered : IsNumbered w.server
  pub same : (c : ℕ) → lookup c w.sessions ≡ lookup c w.server.connections

new_world-IsConsistent : IsConsistent new_world
unfolding lookup
new_world-IsConsistent = record {
  linked = λ u c. refl;
  numbered = record { small = omega arith; unused = λ v over. refl };
  same = λ c. refl;
}

connect-IsConsistent :
    (c : ℕ) (w : World)
    → lookup c w.server.connections ≡ none
    → IsConsistent w
    → IsConsistent (connect c w)
unfolding connect register_connection
connect-IsConsistent c w fresh h = record {
  linked = register_connection-IsLinked c w.server h.linked;
  numbered =
      rw (fresh, register_connection)
        (record { small = h.numbered.small; unused = h.numbered.unused });
  same = λ d.
      rw (fresh, register_connection)
        (lookup-insert d c no_user w.sessions
          ∙ rw (h.same d) (sym (lookup-insert d c no_user w.server.connections)));
}

resume-IsConsistent :
    (c user : ℕ) (z : Session) (w : World)
    → IsConsistent w
    → Moves c (session_of w user) z
    → IsConsistent (resume c z w)
unfolding resume
resume-IsConsistent c user z w h m = record {
  linked = m.sound.linked;
  numbered = m.sound.numbered;
  same = λ d. lookup-insert d c z.local_user w.sessions ∙ (elim (Bool-cases (c == d)) [
    | inl here ↦ rw here (rw (← (==_iff c d).0 here) (sym m.sound.own))
    | inr there ↦ rw there (h.same d ∙ sym (m.others d there))
  ]);
}

resumed : (c : ℕ) (z : Session) (w : World) → lookup c (resume c z w).sessions ≡ some z.local_user
unfolding resume
resumed c z w = ground (arith, lookup-insert c c z.local_user w.sessions, (==_iff c c).1 refl)

disconnect-IsConsistent :
    (c user : ℕ) (w : World)
    → lookup c w.sessions ≡ some user
    → IsConsistent w
    → IsConsistent (disconnect c w)
unfolding disconnect
disconnect-IsConsistent c user w found h =
    let known : contains c w.server.connections ≡ true = ground (arith, h.same c) in
    let (returned, linked, owners, users, counter) =
      remove_connection_of-IsLinked c w.server h.linked known in
    record {
      linked = linked;
      numbered = record {
        small = rw counter h.numbered.small;
        unused = λ v over. users v ∙ h.numbered.unused v (rw counter at over);
      };
      same = λ d. lookup-erase d c w.sessions ∙ (rw (h.same d) (sym (owners d)));
    }

request-Moves :
    {j : JsonLibrary} (texts : Texts j) (host : Endian) (w : World) (c user : ℕ) (e : Surroundings)
    (bytes : List ℕ) (pack : DataPackage)
    → IsConsistent w
    → lookup c w.sessions ≡ some user
    → w.server.new_user_id ≢ no_user
    → Moves c (session_of w user) (process texts host e c bytes pack (session_of w user)).1
request-Moves {j} texts host w c user e bytes pack h found real =
    (process-Moved c (session_of w user)
      (record { linked = h.linked; numbered = h.numbered; own = sym (h.same c) ∙ found }) j e real
      texts host bytes pack).moves

Step-IsConsistent :
    {j : JsonLibrary} (texts : Texts j) (host : Endian) {w w' : World}
    → Step texts host w w'
    → IsConsistent w
    → IsConsistent w'
Step-IsConsistent texts host (connects w c fresh) h = connect-IsConsistent c w fresh h
Step-IsConsistent texts host (answers w c user e bytes pack sent z found real ran) h =
    resume-IsConsistent c user z w h
      (rw ran at (request-Moves texts host w c user e bytes pack h found real))
Step-IsConsistent texts host (throws w c user e bytes pack x z found real ran caught) h =
    disconnect-IsConsistent c z.local_user _ (resumed c z w) (
      resume-IsConsistent c user z w h
        (rw ran at (request-Moves texts host w c user e bytes pack h found real)))
Step-IsConsistent texts host (leaves w c user found) h = disconnect-IsConsistent c user w found h

pub Reachable-IsConsistent :
    {j : JsonLibrary} (texts : Texts j) (host : Endian) {w : World}
    → Reachable texts host w
    → IsConsistent w
Reachable-IsConsistent texts host start = new_world-IsConsistent
Reachable-IsConsistent texts host (next r step) =
    Step-IsConsistent texts host step (Reachable-IsConsistent texts host r)

-- After any sequence of connections, requests of any content and ends of connections, answered or
-- failed, every connection belongs to the user who is logged in on it, and a user has exactly the
-- connections on which the user is logged in: what is sent to the user is written there and nowhere
-- else. No user has the id that the next registration gives, or a larger one.
pub reachable_lem :
    {j : JsonLibrary} (texts : Texts j) (host : Endian) (w : World)
    → Reachable texts host w
    → ((c : ℕ) → lookup c w.sessions ≡ lookup c w.server.connections)
      × ((u c : ℕ) → holds u c w.server.users ≡ belongs u c w.sessions)
      × ((v : ℕ) → w.server.new_user_id ≤ v → contains v w.server.users ≡ false)
reachable_lem texts host w r =
    let h = Reachable-IsConsistent texts host r in
    (h.same, λ u c. rw (h.same c, belongs) (h.linked u c), h.numbered.unused)
