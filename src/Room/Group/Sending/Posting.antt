-- ===== src/Room/Group/Sending/Posting.antt =====
-- server/room/groupRoom/groupRoom.cpp: what `sendMessage` does for a sender who may send, and for one
-- who may not.
use Prim.Native.String.{String}
use qchat_server.Base.{
  ℕ, ◌+◌, ◌*◌, ◌≤◌, ◌≡◌, refl, sym, ◌∙◌, inl, inr, Bool, true, false, ◌++◌, leb, ◌==◌,
  if◌then◌else◌, none, some, Option-cases, Result, ok, arith,
}
use qchat_server.Base.Dict.{Dict, id_key, lookup, erase, contains, lookup-erase_self}
use qchat_server.Room.Tcp.{Notice, send_data, copies}
use qchat_server.Room.History.{MessageStructure, MessageType, no_user}
use qchat_server.Room.History.Slots.{IsSorted, store_message_lem}
use qchat_server.Room.Group.{GroupRoom, Mute, has_user, minute}
use qchat_server.Room.Group.Sending.{
  may_send, send_checked, message_from, post_to_all, send_message,
}

-- Whether the sender is muted at the time.
abbrev pub silenced : ℕ → ℕ → GroupRoom → Bool
silenced sender now room = elim (lookup sender room.muted) [
  | none ↦ false
  | some m ↦ leb now (m.start + m.minutes * minute)
]

-- The message stands in the map at a time point that was free, from `later` on, and no other message
-- is touched; everyone who has joined is sent the notice once; the sender is not muted; and the rest
-- of the room is as before.
pub record Posted (m : MessageStructure) (notice : Notice) (sender later : ℕ) (room : GroupRoom)
    (result : Result (Unit {0}) × GroupRoom) : Type 0 where
  pub returned : result.0 ≡ ok tt
  pub slot : ℕ
  pub late : later ≤ slot
  pub was_free : lookup slot room.messages ≡ none
  pub sorted : IsSorted result.1.messages
  pub messages :
      (j : ℕ) → lookup j result.1.messages ≡ (if slot == j then some m else lookup j room.messages)
  pub notified : result.1.tcp.notified ≡ room.tcp.notified ++ copies notice room.tcp.joined
  pub not_muted : lookup sender result.1.muted ≡ none
  pub users : result.1.users ≡ room.users

post_to_all-Posted :
    (m : MessageStructure) (notice : Notice) (sender later : ℕ) (room : GroupRoom)
    (muted : Dict ℕ Mute)
    → IsSorted room.messages
    → lookup sender muted ≡ none
    → Posted m notice sender later room (post_to_all m notice later (record room { muted = muted }))
unfolding post_to_all send_data
post_to_all-Posted m notice sender later room muted sorted quiet =
    let (t, late, free, full, still, messages) = store_message_lem later m room.messages sorted in
    record {
      returned = refl;
      slot = t;
      late = late;
      was_free = free;
      sorted = still;
      messages = messages;
      notified = refl;
      not_muted = quiet;
      users = refl;
    }

module _ (sender : ℕ) (text : String) (now later : ℕ) (room : GroupRoom)
    (usable : room.can_be_used ≡ true) (member : contains sender room.users ≡ true) where
  message : MessageStructure
  message = message_from sender text MessageType.nomal_message no_user

  notice : Notice
  notice = Notice.group_message sender room.group_id text

  unmuted_sends :
      lookup sender room.muted ≡ none
      → send_message sender text now later room ≡ post_to_all message notice later room
  unfolding send_message send_checked may_send has_user message notice
  unmuted_sends quiet = ground arith

  expired_sends :
      {m : Mute}
      → lookup sender room.muted ≡ some m
      → leb now (m.start + m.minutes * minute) ≡ false
      → send_message sender text now later room
        ≡ post_to_all message notice later (record room { muted = erase sender room.muted })
  unfolding send_message send_checked may_send has_user message notice
  expired_sends muted over = ground arith

-- A member who is not muted posts the message.
pub send_message_lem :
    (sender : ℕ) (text : String) (now later : ℕ) (room : GroupRoom)
    → room.can_be_used ≡ true
    → contains sender room.users ≡ true
    → silenced sender now room ≡ false
    → IsSorted room.messages
    → Posted
        (message_from sender text MessageType.nomal_message no_user)
        (Notice.group_message sender room.group_id text)
        sender
        later
        room
        (send_message sender text now later room)
unfolding message notice
send_message_lem sender text now later room usable member loud sorted =
    elim (Option-cases (lookup sender room.muted)) [
      | inl quiet ↦
          posted room.muted (unmuted_sends sender text now later room usable member quiet) quiet
      | inr (m, muted) ↦
          posted (erase sender room.muted)
            (expired_sends sender text now later room usable member muted
              (sym (over m muted) ∙ loud))
            (lookup-erase_self sender room.muted)
    ]
  where
    over :
        (m : Mute)
        → lookup sender room.muted ≡ some m
        → silenced sender now room ≡ leb now (m.start + m.minutes * minute)
    over m muted = rw (muted, silenced) refl

    posted :
        (muted : Dict ℕ Mute)
        → send_message sender text now later room
          ≡ post_to_all
              (message sender text now later room usable member)
              (notice sender text now later room usable member)
              later
              (record room { muted = muted })
        → lookup sender muted ≡ none
        → Posted
            (message sender text now later room usable member)
            (notice sender text now later room usable member)
            sender
            later
            room
            (send_message sender text now later room)
    posted muted e quiet = rw e (post_to_all-Posted _ _ sender later room muted sorted quiet)
