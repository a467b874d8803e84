-- ===== src/Room/Level.antt =====
-- server/room/groupRoom/groupUserLevel.hpp: `UserLevel<MIN_Level, MAX_Level>`, whose state is one `int`,
-- `m_value`.
pub mod Range
use qchat_server.Base.{
  ℕ, Bool, true, false, ◌||◌, not, if◌then◌else◌, Result, ok, err, Errc, system_error,
  undefined_behaviour, Action,
}
use qchat_server.Base.Int.{ℤ, ◌+ℤ◌, ◌-ℤ◌, ltb_ℤ, is_int}

module _ (min_level max_level : ℤ) where
  -- The constructor does not keep its argument.
  unfoldable pub construct : ℤ → Result ℤ
  construct value =
      if ltb_ℤ value min_level || ltb_ℤ max_level value
      then err (system_error Errc.group_room_user_level_invalid)
      else ok min_level

  -- `MIN_Level > m_value + value || m_value + value > MAX_Level`; a sum that is no `int` is undefined.
  unfoldable pub out_of_range : ℤ → ℤ → Result Bool
  out_of_range value level =
      if not (is_int (level +ℤ value))
      then err undefined_behaviour
      else ok (ltb_ℤ (level +ℤ value) min_level || ltb_ℤ max_level (level +ℤ value))

  unfoldable pub increase : ℤ → Action ℤ Bool
  increase value level = elim (out_of_range value level) [
    | err e ↦ (err e, level)
    | ok outside ↦ if outside then (ok false, level) else (ok true, level +ℤ value)
  ]

  -- The test is that of `increase`.
  unfoldable pub decrease : ℤ → Action ℤ Bool
  decrease value level = elim (out_of_range value level) [
    | err e ↦ (err e, level)
    | ok outside ↦
        if outside
        then (ok false, level)
        else if not (is_int (level -ℤ value))
        then (err undefined_behaviour, level)
        else (ok true, level -ℤ value)
  ]
