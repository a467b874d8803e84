-- ===== src/Room/Group/Moderation/Relocking.antt =====
-- server/room/groupRoom/groupRoom.cpp: `muteUser`, `unmuteUser` and `kickUser` hold a mutex that
-- `sendTipMessage` asks for.
use Prim.Native.String.{String}
use qchat_server.Base.{
  ℕ, ◌≡◌, ◌≢◌, refl, ◌⊎◌, inl, inr, Bool, true, false, arith, Result, ok, err, Failure,
}
use qchat_server.Base.Dict.{id_key, insert, erase, contains}
use qchat_server.Room.Group.{GroupRoom, Hold, shared, exclusive, has_user}
use qchat_server.Room.Group.Sending.{send_tip_message, send_checked, may_send}
use qchat_server.Room.Group.Moderation.{
  outranks, announce, guarded, mute_user, unmute_user, kick_user,
}
use qchat_server.Room.Group.Moderation.Authority.{Outranks, outranks_sound, outranks_complete}

-- How a guarded method ends when its checks do not let it through: it does not return true, and the
-- room is as before.
abbrev pub Refused : GroupRoom → Result Bool × GroupRoom → Type 0
Refused room (r, room') = (r ≢ ok true) × (room' ≡ room)

announce_relocks :
    (relocked : Failure) (users : Hold) (e : ℕ) (text : String) (now later : ℕ)
    (last : GroupRoom → GroupRoom) (room : GroupRoom)
    → room.can_be_used ≡ true
    → contains e room.users ≡ true
    → announce
        (record { users = users; muted = exclusive; relocked = relocked })
        e
        text
        now
        later
        last
        room
      ≡ (err relocked, room)
unfolding announce send_tip_message send_checked may_send has_user
announce_relocks relocked users e text now later last room usable member = ground arith

-- A method behind the checks either runs, for an executor who outranks the user, or is refused.
abbrev Split : ℕ → ℕ → GroupRoom → Result Bool × GroupRoom → Result Bool × GroupRoom → Type 0
Split e u room ends_so result =
    (Outranks e u room × (result ≡ ends_so)) ⊎ ((¬ Outranks e u room) × Refused room result)

guarded_relocks :
    (e u : ℕ) (room : GroupRoom) (act : GroupRoom → Result Bool × GroupRoom)
    (ends_so : Result Bool × GroupRoom)
    → (Outranks e u room → act room ≡ ends_so)
    → Split e u room ends_so (guarded (outranks e u room) act room)
guarded_relocks e u room act ends_so runs = go (outranks e u room) refl
  where
    denied : outranks e u room ≢ ok true → ¬ Outranks e u room
    denied differs o = differs (outranks_complete e u room o)

    go : (r : Result Bool) → outranks e u room ≡ r → Split e u room ends_so (guarded r act room)
    go (err x) eq = inr (denied (λ k. cc), (λ k. cc, refl))
    go (ok false) eq = inr (denied (λ k. cc), (λ k. cc, refl))
    go (ok true) eq = let o : Outranks e u room = outranks_sound e u room eq in inl (o, runs o)

-- `muteUser` by an executor who outranks the user records the mute and then asks for the mutex
-- that it holds: it ends as the library ends that call, the mute recorded and nobody told. In every
-- other case it does not return true and changes nothing.
pub mute_user_relocks :
    (relocked : Failure) (e u mins now later : ℕ) (room : GroupRoom)
    → (Outranks e u room
        × (mute_user relocked e u mins now later room ≡ (
          err relocked,
          record room { muted = insert u (record { start = now; minutes = mins }) room.muted },
        )))
      ⊎ ((¬ Outranks e u room) × Refused room (mute_user relocked e u mins now later room))
unfolding mute_user
mute_user_relocks relocked e u mins now later room =
    guarded_relocks e u room _ _
      λ o. announce_relocks relocked shared e _ now later _ _ o.0.usable o.0.executor_in

-- `unmuteUser` by an executor who outranks the user drops the mute and then asks for the mutex
-- that it holds: it ends as the library ends that call. In every other case it does not return true
-- and changes nothing.
pub unmute_user_relocks :
    (relocked : Failure) (e u now later : ℕ) (room : GroupRoom)
    → (Outranks e u room
        × (unmute_user relocked e u now later room
            ≡ (err relocked, record room { muted = erase u room.muted })))
      ⊎ ((¬ Outranks e u room) × Refused room (unmute_user relocked e u now later room))
unfolding unmute_user
unmute_user_relocks relocked e u now later room =
    guarded_relocks e u room _ _
      λ o. announce_relocks relocked shared e _ now later _ _ o.0.usable o.0.executor_in

-- `kickUser` removes nobody: by an executor who outranks the user it asks for the mutex that it
-- holds, before it erases the member, and ends as the library ends that call; in every other case it
-- does not return true. The room stays as it was.
pub kick_user_relocks :
    (relocked : Failure) (e u now later : ℕ) (room : GroupRoom)
    → (Outranks e u room × (kick_user relocked e u now later room ≡ (err relocked, room)))
      ⊎ ((¬ Outranks e u room) × Refused room (kick_user relocked e u now later room))
unfolding kick_user
kick_user_relocks relocked e u now later room =
    guarded_relocks e u room _ _
      λ o. announce_relocks relocked exclusive e _ now later _ _ o.0.usable o.0.executor_in
