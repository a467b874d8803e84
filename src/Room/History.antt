-- ===== src/Room/History.antt =====
-- The message map of a room, `m_message_map` in server/room/groupRoom/groupRoom.cpp and
-- server/room/privateRoom/privateRoom.cpp: a `std::map` by time point, in the order of its keys. An
-- iterator is the part of the list from its element on.
pub mod Slots
pub mod Range
use Prim.Native.String.{String}
use qchat_server.Base.{
  ℕ, zero, suc, ◌+◌, ◌-◌, Bool, List, [], ◌∷◌, ltb, ◌==◌, if◌then◌else◌, length, is_some,
}
use qchat_server.Base.Dict.{Dict, id_key, lookup, contains}

-- `enum class MessageType`.
pub data MessageType : Type 0 where
  nomal_message tip_message : MessageType

-- `UserID(-1LL)`: the bit pattern of -1 in 64 bits.
abbrev pub no_user : ℕ
no_user = 0xffff_ffff_ffff_ffff

pub record MessageStructure : Type 0 where
  pub sender : ℕ
  pub message : String
  pub type : MessageType
  pub receiver : ℕ

abbrev pub History : Type 0
History = Dict ℕ MessageStructure

-- `insert`: a message that is there stays.
unfoldable pub insert_message : ℕ → MessageStructure → History → History
insert_message t m [] = (t, m) ∷ []
insert_message t m ((s, n) ∷ h) =
    if ltb t s
    then (t, m) ∷ (s, n) ∷ h
    else if t == s
    then (s, n) ∷ h
    else (s, n) ∷ insert_message t m h

-- `while (find(time_point) != cend()) { ++time_point; }`, on fuel.
unfoldable pub first_free : ℕ → ℕ → History → ℕ
first_free zero t h = t
first_free (suc fuel) t h = let next = first_free fuel (suc t) h in if contains t h then next else t

-- One round more than there are messages is enough.
unfoldable pub store_message : ℕ → MessageStructure → History → History
unfolding first_free insert_message
store_message now m h = insert_message (first_free (suc (length h)) now h) m h

unfoldable pub lower_bound : ℕ → History → History
lower_bound from [] = []
lower_bound from ((t, m) ∷ h) = if ltb t from then lower_bound from h else (t, m) ∷ h

unfoldable pub upper_bound : ℕ → History → History
upper_bound to [] = []
upper_bound to ((t, m) ∷ h) = if ltb to t then (t, m) ∷ h else upper_bound to h

-- `for (; start != end; ++start)`.
unfoldable pub collect : History → History → History
collect [] end = []
collect (x ∷ start) end = if suc (length start) == length end then [] else x ∷ collect start end

-- `getMessage` behind its check that the room can be used.
unfoldable pub messages_between : ℕ → ℕ → History → History
unfolding lower_bound upper_bound collect
messages_between from to h =
    if ltb to from then [] else collect (lower_bound from h) (upper_bound to h)

-- Nanoseconds of `std::chrono::days(7)`.
abbrev pub week : ℕ
week = 604_800_000_000_000

-- One round of `auto_clean`, by a clock behind the first week of 1970.
unfoldable pub clean : ℕ → History → History
unfolding upper_bound
clean now h = upper_bound (now - week) h
