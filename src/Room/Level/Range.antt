-- ===== src/Room/Level/Range.antt =====
-- server/room/groupRoom/groupUserLevel.hpp: the range of the levels.
use qchat_server.Base.{
  ℕ, ◌<◌, ◌≡◌, refl, sym, ap, Bool, true, false, ◌||◌, not, if◌then◌else◌, ok, arith, inl, inr,
  Bool-cases,
}
use qchat_server.Base.Int.{ℤ, pos, ◌+ℤ◌, ◌-ℤ◌, ltb_ℤ, is_int}
use qchat_server.Room.Level.{out_of_range, increase, decrease}

-- Whether a level is one of the range.
abbrev pub in_range : ℤ → ℤ → ℤ → Bool
in_range min_level max_level level = not (ltb_ℤ level min_level || ltb_ℤ max_level level)

out_of_range_lem :
    (min_level max_level value level : ℤ)
    → is_int (level +ℤ value) ≡ true
    → out_of_range min_level max_level value level
      ≡ ok (not (in_range min_level max_level (level +ℤ value)))
unfolding out_of_range
out_of_range_lem min_level max_level value level fits =
    rw fits
      (ap ok (sym (not_not (ltb_ℤ (level +ℤ value) min_level || ltb_ℤ max_level (level +ℤ value)))))
  where
    not_not : (b : Bool) → not (not b) ≡ b
    not_not true = refl
    not_not false = refl

-- From a level in the range, unless the sum overflows, `increase` succeeds exactly when the sum is in
-- the range; then the sum is the level, and otherwise the level stays. It is in the range afterwards.
pub increase_lem :
    (min_level max_level value level : ℤ)
    → in_range min_level max_level level ≡ true
    → is_int (level +ℤ value) ≡ true
    → let (r, level') = increase min_level max_level value level in
      let inside = in_range min_level max_level (level +ℤ value) in
      (r ≡ ok inside)
      × (level' ≡ (if inside then level +ℤ value else level))
      × (in_range min_level max_level level' ≡ true)
unfolding increase
increase_lem min_level max_level value level h fits =
    rw (out_of_range_lem min_level max_level value level fits, increase)
      (elim (Bool-cases (in_range min_level max_level (level +ℤ value))) [
        | inl inside ↦ rw inside (refl, refl, inside)
        | inr outside ↦ rw outside (refl, refl, h)
      ])

-- `decrease` tests the sum and not the difference: wherever an increase of the lowest level by n > 0
-- stays in the range, a decrease by n succeeds and leaves a level below the range.
pub decrease_lem :
    (min_level max_level : ℤ) (n : ℕ)
    → 0 < n
    → in_range min_level max_level (min_level +ℤ pos n) ≡ true
    → is_int (min_level +ℤ pos n) ≡ true
    → is_int (min_level -ℤ pos n) ≡ true
    → (decrease min_level max_level (pos n) min_level ≡ (ok true, min_level -ℤ pos n))
      × (ltb_ℤ (min_level -ℤ pos n) min_level ≡ true)
unfolding decrease
decrease_lem min_level max_level n positive inside fits fits' = (
  rw (out_of_range_lem min_level max_level (pos n) min_level fits, decrease)
      (rw inside (rw fits' refl)),
  unfold ◌-ℤ◌ in ground arith,
)
