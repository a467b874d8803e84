-- ===== src/Room/History/Range.antt =====
-- The message map: what `getMessage` returns.
use qchat_server.Base.{
  ℕ, suc, ◌≤◌, ◌<◌, ◌≡◌, refl, sym, ap, ◌∙◌, ◌&&◌, [], ◌∷◌, arith, ltb, leb, if◌then◌else◌,
  Bool-cases, length, inl, inr,
}
use qchat_server.Room.History.{History, lower_bound, upper_bound, collect, messages_between}
use qchat_server.Room.History.Slots.{From, IsSorted}

-- The messages whose time point lies between the bounds, both included, in the order of time.
pub within : ℕ → ℕ → History → History
within from to [] = []
within from to ((t, m) ∷ h) =
    if leb from t && leb t to then (t, m) ∷ within from to h else within from to h

length-upper_bound : (to : ℕ) (h : History) → length (upper_bound to h) ≤ length h
unfolding upper_bound
length-upper_bound to [] = omega arith
length-upper_bound to (x ∷ h) = ground (arith, length-upper_bound to h)

within-above : (from to n : ℕ) (h : History) → From n h → to < n → within from to h ≡ []
unfolding within
within-above from to n [] s lt = refl
within-above from to n ((t, m) ∷ h) s lt = ground (arith, within-above from to (suc t) h s.1)

collect_self : (h : History) → collect h h ≡ []
unfolding collect
collect_self [] = refl
collect_self (x ∷ h) = ground arith

-- From an element on whose key is not below the lower bound.
collect-within :
    (from to n : ℕ) (h : History)
    → From n h
    → from ≤ n
    → collect h (upper_bound to h) ≡ within from to h
unfolding within collect upper_bound
collect-within from to n [] s le = refl
collect-within from to n ((t, m) ∷ h) s le = elim (Bool-cases (ltb to t)) [
  | inl past ↦
      let same : upper_bound to ((t, m) ∷ h) ≡ (t, m) ∷ h = ground arith in
      ap (collect ((t, m) ∷ h)) same
      ∙ collect_self ((t, m) ∷ h)
      ∙ sym (within-above from to t ((t, m) ∷ h) (omega arith, s.1) (ground arith))
  | inr reached ↦
      ground (arith, length-upper_bound to h, collect-within from to (suc t) h s.1 (omega arith))
]

collect-bounds :
    (from to n : ℕ) (h : History)
    → From n h
    → from ≤ to
    → collect (lower_bound from h) (upper_bound to h) ≡ within from to h
unfolding within lower_bound upper_bound
collect-bounds from to n [] s le = collect_self []
collect-bounds from to n ((t, m) ∷ h) s le = elim (Bool-cases (ltb t from)) [
  | inl before ↦ ground (arith, collect-bounds from to (suc t) h s.1 le)
  | inr reached ↦
      let front : lower_bound from ((t, m) ∷ h) ≡ (t, m) ∷ h = ground arith in
      ap (λ start. collect start (upper_bound to ((t, m) ∷ h))) front
      ∙ collect-within from to t ((t, m) ∷ h) (omega arith, s.1) (ground arith)
]

within_empty : (from to : ℕ) (h : History) → to < from → within from to h ≡ []
unfolding within
within_empty from to [] lt = refl
within_empty from to ((t, m) ∷ h) lt = ground (arith, within_empty from to h lt)

-- `getMessage` returns the messages whose time point lies between the bounds, both included, in the
-- order of time, and nothing when the bounds are the wrong way round.
pub messages_between_lem :
    (from to : ℕ) (h : History) → IsSorted h → messages_between from to h ≡ within from to h
unfolding messages_between
messages_between_lem from to h s = elim (Bool-cases (ltb to from)) [
  | inl crossed ↦ rw crossed (sym (within_empty from to h (ground arith)))
  | inr ordered ↦ rw ordered (collect-bounds from to 0 h s (ground arith))
]
