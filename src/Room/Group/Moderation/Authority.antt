-- ===== src/Room/Group/Moderation/Authority.antt =====
-- server/room/groupRoom/groupRoom.cpp: who may moderate whom.
use qchat_server.Base.{ℕ, ◌<◌, ◌≡◌, ◌≢◌, ap, ◌∙◌, inl, inr, true, some, arith, Option-cases, ok}
use qchat_server.Base.Dict.{id_key, lookup, contains}
use qchat_server.Room.Permission.{PermissionType, rank, get_user_permission_type}
use qchat_server.Room.Group.{GroupRoom, has_user}
use qchat_server.Room.Group.Moderation.{are_not_two_members, outranks, may_change}

-- Two different members of a room that can be used.
pub record AreMembers (executor user : ℕ) (room : GroupRoom) : Type 0 where
  pub usable : room.can_be_used ≡ true
  pub distinct : executor ≢ user
  pub executor_in : contains executor room.users ≡ true
  pub user_in : contains user room.users ≡ true

-- Both have a permission, and the executor's is the higher one.
abbrev pub Outranks : ℕ → ℕ → GroupRoom → Type 0
Outranks executor user room =
    AreMembers executor user room
    × ((high : PermissionType) × (low : PermissionType) × (lookup executor room.permission.users
          ≡ some high)
        × (lookup user room.permission.users ≡ some low)
        × (rank low < rank high))

pub outranks_sound : (e u : ℕ) (room : GroupRoom) → outranks e u room ≡ ok true → Outranks e u room
unfolding outranks are_not_two_members has_user get_user_permission_type
outranks_sound e u room h = elim (Option-cases (lookup e room.permission.users)) [
  | inl missing ↦ absurd (ground arith)
  | inr (high, eh) ↦ elim (Option-cases (lookup u room.permission.users)) [
    | inl missing ↦ absurd (ground arith)
    | inr (low, el) ↦ (
      record {
        usable = ground arith;
        distinct = ground arith;
        executor_in = ground arith;
        user_in = ground arith;
      },
      (high, low, eh, el, ground arith),
    )
  ]
]

pub outranks_complete :
    (e u : ℕ) (room : GroupRoom) → Outranks e u room → outranks e u room ≡ ok true
unfolding outranks are_not_two_members has_user get_user_permission_type
outranks_complete e u room (m, (high, low, eh, el, lt)) = ground (arith, m.distinct)

rank-injective : (a b : PermissionType) → rank a ≡ rank b → a ≡ b
unfolding rank
rank-injective a b h = ground arith

-- Two members, the executor the administrator, and the user of the given type.
abbrev pub MayChange : PermissionType → ℕ → ℕ → GroupRoom → Type 0
MayChange from executor user room =
    AreMembers executor user room
    × (lookup executor room.permission.users ≡ some PermissionType.administrator)
    × (lookup user room.permission.users ≡ some from)

pub may_change_sound :
    (from : PermissionType) (e u : ℕ) (room : GroupRoom)
    → may_change from e u room ≡ ok true
    → MayChange from e u room
unfolding may_change are_not_two_members has_user get_user_permission_type
may_change_sound from e u room h = elim (Option-cases (lookup e room.permission.users)) [
  | inl missing ↦ absurd (ground arith)
  | inr (high, eh) ↦ elim (Option-cases (lookup u room.permission.users)) [
    | inl missing ↦ absurd (ground arith)
    | inr (low, el) ↦ (
      record {
        usable = ground arith;
        distinct = ground arith;
        executor_in = ground arith;
        user_in = ground arith;
      },
      eh ∙ ap some (rank-injective high PermissionType.administrator (ground arith)),
      el ∙ ap some (rank-injective low from (ground arith)),
    )
  ]
]

pub may_change_complete :
    (from : PermissionType) (e u : ℕ) (room : GroupRoom)
    → MayChange from e u room
    → may_change from e u room ≡ ok true
unfolding may_change are_not_two_members has_user get_user_permission_type
may_change_complete from e u room (m, eh, el) = ground (arith, m.distinct)
