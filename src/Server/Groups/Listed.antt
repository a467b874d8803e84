-- ===== src/Server/Groups/Listed.antt =====
-- server/user/user.cpp: what `removeGroupVerification` takes out of the multimap of a user's group
-- applications.
use qchat_server.Base.{
  ℕ, ◌≡◌, ◌≤◌, ◌<◌, refl, subst, Bool, true, false, ◌&&◌, ◌||◌, ◌==◌, ltb, if◌then◌else◌, [], ◌∷◌,
  arith, ok, inl, inr, Bool-cases, ==_iff,
}
use qchat_server.Base.Dict.{Dict, id_key}
use qchat_server.Server.User.{
  GroupVerification, insert_multi, remove_verification_of, remove_first_of,
}

-- The keys are in order, and none is below the first number. A `std::multimap` is so.
abbrev pub IsFrom : ℕ → Dict ℕ GroupVerification → Type 0
IsFrom low [] = Unit
IsFrom low ((k, v) ∷ d) = (low ≤ k) × IsFrom k d

-- Whether there is an application of the user for the group, and the list without the first such.
abbrev pub is_listed : ℕ → ℕ → Dict ℕ GroupVerification → Bool
is_listed group user [] = false
is_listed group user ((k, v) ∷ d) = k == group && v.user_id == user || is_listed group user d

abbrev pub unlisted : ℕ → ℕ → Dict ℕ GroupVerification → Dict ℕ GroupVerification
unlisted group user [] = []
unlisted group user ((k, v) ∷ d) =
    let rest = unlisted group user d in if k == group && v.user_id == user then d else (k, v) ∷ rest

-- Behind the group's keys there is no application for it.
none_above :
    (group user low : ℕ) (d : Dict ℕ GroupVerification)
    → IsFrom low d
    → group < low
    → is_listed group user d ≡ false
none_above group user low [] ordered above = refl
none_above group user low ((k, v) ∷ d) ordered above =
    ground (arith, none_above group user k d ordered.1 (omega arith), (==_iff k group).0)

-- From the first entry of the group on.
removes_here :
    (group user : ℕ) (d : Dict ℕ GroupVerification)
    → IsFrom group d
    → is_listed group user d ≡ true
    → remove_verification_of group user d ≡ ok (unlisted group user d)
unfolding remove_verification_of
removes_here group user [] ordered listed = absurd (ground (arith, listed))
removes_here group user ((k, v) ∷ d) ordered listed = elim (Bool-cases (k == group)) [
  | inr other ↦
      let above : group < k = ground arith in
      absurd (ground (arith, none_above group user k d ordered.1 above))
  | inl same ↦ elim (Bool-cases (v.user_id == user)) [
    | inl found ↦ rw (same, found) refl
    | inr different ↦
        let behind : IsFrom group d =
          subst (λ low. IsFrom low d) ((==_iff k group).0 same) ordered.1 in
        rw (same, different) (rw (removes_here group user d behind (ground arith)) refl)
  ]
]

-- In a multimap that lists the user's application, it is what is taken out.
pub removes_listed :
    (group user low : ℕ) (d : Dict ℕ GroupVerification)
    → IsFrom low d
    → is_listed group user d ≡ true
    → remove_first_of group user d ≡ ok (unlisted group user d)
unfolding remove_first_of
removes_listed group user low [] ordered listed = absurd (ground (arith, listed))
removes_listed group user low ((k, v) ∷ d) ordered listed = elim (Bool-cases (k == group)) [
  | inl same ↦
      let here : IsFrom group ((k, v) ∷ d) = (ground arith, ordered.1) in
      rw same (rw same at (removes_here group user ((k, v) ∷ d) here listed))
  | inr other ↦ rw other (rw (removes_listed group user k d ordered.1 (ground arith)) refl)
]

-- An application that comes in keeps the order.
pub insert_multi-IsFrom :
    (group low : ℕ) (v : GroupVerification) (d : Dict ℕ GroupVerification)
    → IsFrom low d
    → low ≤ group
    → IsFrom low (insert_multi group v d)
unfolding insert_multi
insert_multi-IsFrom group low v [] ordered above = (above, tt)
insert_multi-IsFrom group low v ((k, w) ∷ d) ordered above = elim (Bool-cases (ltb group k)) [
  | inl before ↦ rw before (above, (ground arith, ordered.1))
  | inr behind ↦ rw behind (ordered.0, insert_multi-IsFrom group k v d ordered.1 (ground arith))
]
