-- ===== src/Room/History/Slots.antt =====
-- The message map: where a new message is stored.
use qchat_server.Base.{
  ℕ, zero, suc, ◌-◌, ◌≤◌, ◌<◌, ◌≡◌, refl, ap, subst, is_some, Bool-cases, ==_iff, inl, inr, true,
  false, not, ◌&&◌, none, some, [], ◌∷◌, arith, ltb, leb, ◌==◌, if◌then◌else◌, Option-cases, length,
}
use qchat_server.Base.Dict.{id_key, lookup, contains}
use qchat_server.Room.History.{
  History, MessageStructure, insert_message, first_free, store_message, upper_bound, clean, week,
}

-- The keys rise, from `n` on.
abbrev pub From : ℕ → History → Type 0
From n [] = Unit
From n ((t, m) ∷ h) = (n ≤ t) × From (suc t) h

abbrev pub IsSorted : History → Type 0
IsSorted = From 0

From-mono : (m n : ℕ) (h : History) → m ≤ n → From n h → From m h
From-mono m n [] le s = tt
From-mono m n ((t, _) ∷ h) le s = (omega arith, s.1)

pub insert_message-From :
    (n t : ℕ) (m : MessageStructure) (h : History)
    → n ≤ t
    → From n h
    → From n (insert_message t m h)
unfolding insert_message
insert_message-From n t m [] le s = (le, tt)
insert_message-From n t m ((u, k) ∷ h) le s = ground (arith, insert_message-From (suc u) t m h)

pub lookup-insert_message :
    (j t : ℕ) (m : MessageStructure) (h : History)
    → lookup t h ≡ none
    → lookup j (insert_message t m h) ≡ (if t == j then some m else lookup j h)
unfolding insert_message lookup
lookup-insert_message j t m [] e = ground arith
lookup-insert_message j t m ((u, k) ∷ h) e = ground (arith, lookup-insert_message j t m h)

-- How many messages have a key from `t` on.
count_from : ℕ → History → ℕ
count_from t [] = 0
count_from t ((s, _) ∷ h) = if leb t s then suc (count_from t h) else count_from t h

count_from-le : (t : ℕ) (h : History) → count_from t h ≤ length h
unfolding count_from
count_from-le t [] = omega arith
count_from-le t (x ∷ h) = ground (arith, count_from-le t h)

count_from-suc_le : (t : ℕ) (h : History) → count_from (suc t) h ≤ count_from t h
unfolding count_from
count_from-suc_le t [] = omega arith
count_from-suc_le t (x ∷ h) = ground (arith, count_from-suc_le t h)

count_from-suc_lt :
    (t : ℕ) (h : History) → contains t h ≡ true → count_from (suc t) h < count_from t h
unfolding count_from lookup
count_from-suc_lt t [] e = cc
count_from-suc_lt t (x ∷ h) e = ground (arith, count_from-suc_lt t h, count_from-suc_le t h)

-- With more fuel than messages from `t` on, the loop ends at the first key from `t` on that no
-- message has.
first_free_lem :
    (fuel t : ℕ) (h : History)
    → count_from t h < fuel
    → (lookup (first_free fuel t h) h ≡ none)
      × (t ≤ first_free fuel t h)
      × ((j : ℕ) → t ≤ j → j < first_free fuel t h → contains j h ≡ true)
unfolding first_free
first_free_lem zero t h lt = absurd (omega arith)
first_free_lem (suc fuel) t h lt = elim (Option-cases (lookup t h)) [
  | inl free ↦ rw free (free, omega arith, λ j a b. absurd (omega arith))
  | inr (m, taken) ↦
      let (free, above, full) =
        first_free_lem fuel (suc t) h (omega (arith, count_from-suc_lt t h (ap is_some taken))) in
      let filled : (j : ℕ)
          → t ≤ j
          → (suc t ≤ j → j < first_free fuel (suc t) h → contains j h ≡ true)
          → j < first_free fuel (suc t) h
          → contains j h ≡ true =
        λ j a later b. elim (Bool-cases (t == j)) [
          | inl e ↦ subst (λ k. contains k h ≡ true) ((==_iff t j).0 e) (ap is_some taken)
          | inr e ↦ later (ground arith) b
        ] in
      rw taken (free, omega arith, λ j a b. filled j a (full j) b)
]

passed :
    (now t j : ℕ) (h : History)
    → (now ≤ j → j < t → contains j h ≡ true)
    → (leb now j && ltb j t && not (contains j h)) ≡ false
passed now t j h full = ground arith

-- A message is stored at the first free time point from now on, and no other message is touched: the
-- loop over the time points ends, and the map stays sorted.
pub store_message_lem :
    (now : ℕ) (m : MessageStructure) (h : History)
    → IsSorted h
    → (t : ℕ) × (now ≤ t)
      × (lookup t h ≡ none)
      × ((j : ℕ) → (leb now j && ltb j t && not (contains j h)) ≡ false)
      × IsSorted (store_message now m h)
      × ((j : ℕ) → lookup j (store_message now m h) ≡ (if t == j then some m else lookup j h))
unfolding store_message
store_message_lem now m h s =
    let t : ℕ = first_free (suc (length h)) now h in
    let (free, above, full) =
      first_free_lem (suc (length h)) now h (omega (arith, count_from-le now h)) in
    (
      t,
      above,
      free,
      λ j. passed now t j h (full j),
      insert_message-From 0 t m h (omega arith) s,
      λ j. lookup-insert_message j t m h free,
    )

upper_bound-From : (n to : ℕ) (h : History) → From n h → From (suc to) (upper_bound to h)
unfolding upper_bound
upper_bound-From n to [] s = tt
upper_bound-From n to ((t, m) ∷ h) s = ground (arith, upper_bound-From (suc t) to h s.1, s.1)

lookup-above : (j n : ℕ) (h : History) → From n h → j < n → lookup j h ≡ none
unfolding lookup
lookup-above j n [] s lt = refl
lookup-above j n ((t, m) ∷ h) s lt = ground (arith, lookup-above j (suc t) h s.1)

lookup-upper_bound :
    (j n to : ℕ) (h : History)
    → From n h
    → lookup j (upper_bound to h) ≡ (if ltb to j then lookup j h else none)
unfolding lookup upper_bound
lookup-upper_bound j n to [] s = ground arith
lookup-upper_bound j n to ((t, m) ∷ h) s =
    ground (arith, lookup-upper_bound j (suc t) to h s.1, lookup-above j (suc t) h s.1)

-- A round of cleaning forgets exactly the messages that are at least seven days old, and keeps the
-- map sorted.
pub clean_lem :
    (now : ℕ) (h : History)
    → IsSorted h
    → IsSorted (clean now h)
      × ((j : ℕ) → lookup j (clean now h) ≡ (if ltb (now - week) j then lookup j h else none))
unfolding clean
clean_lem now h s = (
  From-mono 0 (suc (now - week)) (upper_bound (now - week) h) (omega arith)
      (upper_bound-From 0 (now - week) h s),
  λ j. lookup-upper_bound j 0 (now - week) h s,
)
