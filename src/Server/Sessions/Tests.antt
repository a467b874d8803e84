-- ===== src/Server/Sessions/Tests.antt =====
-- A server on which somebody connects, asks something and gets an answer.
use qchat_server.Base.{ℕ, ◌≡◌, ◌≢◌, ◌≤◌, false, refl, ap, [], ◌∷◌, arith, ok, some}
use qchat_server.Base.Dict.{id_key, lookup, contains, insert}
use qchat_server.Net.Endianness.{Endian}
use qchat_server.Net.DataPackage.RoundTrip.{make_send_read}
use qchat_server.Room.History.{no_user}
use qchat_server.Server.Connections.{register_connection}
use qchat_server.Server.Connections.Links.{holds, belongs}
use qchat_server.Server.Service.{process, respond, async_send}
use qchat_server.Server.Service.Tests.{texts, surroundings, stream}
use qchat_server.Server.Sessions.{
  World, new_world, connect, resume, session_of, Reachable, start, next, connects, answers,
}
use qchat_server.Server.Sessions.Invariant.{reachable_lem}
use qchat_server.Server.Sessions.Registering.{Reachable-register_then_login}
use qchat_server.Server.Connections.Links.{IsLinked}
use qchat_server.Server.Json.{Extra, success_message}
use qchat_server.Server.Commands.Execute.{register}
use qchat_server.Server.Process.{login}

abbrev connected : World
connected = connect 70 new_world

real_id : 10000 ≢ no_user
real_id = omega arith

abbrev answered : World
answered = resume 70 (session_of connected no_user) connected

answered-Reachable : Reachable texts Endian.little answered
unfolding connect register_connection lookup insert process respond async_send
answered-Reachable =
    let (bytes, written, size, read, same) =
      make_send_read Endian.little Endian.little (1 ∷ 2 ∷ 3 ∷ []) 1 1 0 9
        (omega arith, (omega arith, (omega arith, tt))) (omega arith) (omega arith) (omega arith)
        (omega arith) (omega arith) in
    next (next start (connects new_world 70 refl)) (
      answers connected 70 no_user surroundings (7 ∷ []) stream bytes (session_of connected no_user)
        refl real_id (ap (λ r. (r, session_of connected no_user)) written))

reachable_example :
    ((c : ℕ) → lookup c answered.sessions ≡ lookup c answered.server.connections)
    × ((u c : ℕ) → holds u c answered.server.users ≡ belongs u c answered.sessions)
    × ((v : ℕ) → answered.server.new_user_id ≤ v → contains v answered.server.users ≡ false)
reachable_example = reachable_lem texts Endian.little answered answered-Reachable

-- Somebody registers behind the answer, and logs in.
Reachable-register_then_login_example :
    let (r, t) = register surroundings "carol@example.org" "secret" answered.server in
    let (r', z) =
      login surroundings 70 10_000 "secret" "Phone" (record { server = t; local_user = no_user }) in
    (contains 10_000 answered.server.users ≡ false)
    × (r ≡ ok (success_message "Successfully created a new user!" (Extra.user_id 10_000)))
    × (r' ≡ ok (success_message "Successfully logged in!" Extra.nothing))
    × (z.local_user ≡ 10_000)
    × (lookup 70 z.server.connections ≡ some 10_000)
    × IsLinked z.server
unfolding connect register_connection lookup insert resume
Reachable-register_then_login_example =
    Reachable-register_then_login texts Endian.little answered 70 no_user surroundings
      "carol@example.org" "secret" "Phone" answered-Reachable refl real_id refl
