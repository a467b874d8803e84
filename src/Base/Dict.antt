-- ===== src/Base/Dict.antt =====
-- `std::unordered_map` as an association list. Its keys are compared by `std::equal_to`, which is
-- an equivalence and need not be equality.
use mathlib.Core.List.{List, [], ◌∷◌}
use mathlib.Core.Path.{◌≡◌, refl, ap, ◌∙◌}
use mathlib.Core.Logic.{◌≢◌}
use mathlib.Core.Bool.{Bool, true, false}
use mathlib.Core.Option.{Option, none, some}
use Prim.Native.Nat.{ℕ}
use Prim.Native.String.{String}
use native.Mathlib.Omega.{arith}
use text.Mathlib.Text.{◌==◌ as str_eq}
use text.Mathlib.TextEquality.{eq_iff}
use qchat_server.Base.Tests.{if◌then◌else◌, ◌==◌ as nat_eq, is_some}

pub record KeyEq (K : Type 0) : Type 0 where
  pub beq : K → K → Bool
  pub beq_refl : (a : K) → beq a a ≡ true
  pub beq_sym : (a b : K) → beq a b ≡ beq b a
  pub beq_left : (a b c : K) → beq a b ≡ true → beq a c ≡ beq b c

pub id_refl : (a : ℕ) → nat_eq a a ≡ true
id_refl a = ground arith

pub id_left : (a b c : ℕ) → nat_eq a b ≡ true → nat_eq a c ≡ nat_eq b c
id_left a b c h = ground arith

pub id_sym : (a b : ℕ) → nat_eq a b ≡ nat_eq b a
id_sym a b = ground arith

-- `std::equal_to<UserID>` and `std::equal_to<GroupID>`.
instance abbrev pub id_key : KeyEq ℕ
id_key = record { beq = nat_eq; beq_refl = id_refl; beq_sym = id_sym; beq_left = id_left }

pub string_refl : (a : String) → str_eq a a ≡ true
string_refl a = (eq_iff a a).1 refl

pub string_sym : (a b : String) → str_eq a b ≡ str_eq b a
string_sym a b = ground (arith, eq_iff a b, eq_iff b a)

pub string_left : (a b c : String) → str_eq a b ≡ true → str_eq a c ≡ str_eq b c
string_left a b c h = ap (λ s. str_eq s c) ((eq_iff a b).0 h)

-- `string_hash` with `std::equal_to<>`.
instance abbrev pub string_key : KeyEq String
string_key = record {
  beq = str_eq;
  beq_refl = string_refl;
  beq_sym = string_sym;
  beq_left = string_left;
}

abbrev pub Dict : Type 0 → Type 0 → Type 0
Dict K V = List (K × V)

module _ {K V : Type 0} ⦃e : KeyEq K⦄ where
  -- `find`
  unfoldable pub lookup : K → Dict K V → Option V
  lookup k [] = none
  lookup k ((j, v) ∷ d) = if e.beq j k then some v else lookup k d

  -- `d[k] = v`
  unfoldable pub insert : K → V → Dict K V → Dict K V
  insert k v [] = (k, v) ∷ []
  insert k v ((j, w) ∷ d) = if e.beq j k then (j, v) ∷ d else (j, w) ∷ insert k v d

  -- `erase`: every entry whose key is equal
  unfoldable pub erase : K → Dict K V → Dict K V
  erase k [] = []
  erase k ((j, w) ∷ d) = if e.beq j k then erase k d else (j, w) ∷ erase k d

  -- `find(k) != cend()`
  abbrev pub contains : K → Dict K V → Bool
  contains k d = is_some (lookup k d)

  -- `emplace`: an entry that is there stays
  abbrev pub emplace : K → V → Dict K V → Dict K V
  emplace k v d = elim (lookup k d) [ none ↦ insert k v d | some _ ↦ d ]

  pub lookup-insert :
      (j k : K) (v : V) (d : Dict K V)
      → lookup j (insert k v d) ≡ (if e.beq k j then some v else lookup j d)
  unfolding lookup insert
  lookup-insert j k v [] = refl
  lookup-insert j k v ((i, w) ∷ d) = ground (
    arith,
    e.beq_left i k j,
    e.beq_left k j i,
    e.beq_sym i k,
    e.beq_sym j i,
    lookup-insert j k v d,
  )

  pub lookup-erase :
      (j k : K) (d : Dict K V) → lookup j (erase k d) ≡ (if e.beq k j then none else lookup j d)
  unfolding lookup erase
  lookup-erase j k [] = ground arith
  lookup-erase j k ((i, w) ∷ d) =
      ground (
        arith,
        e.beq_left i k j,
        e.beq_left k j i,
        e.beq_sym i k,
        e.beq_sym j i,
        lookup-erase j k d,
      )

  pub lookup-insert_self : (k : K) (v : V) (d : Dict K V) → lookup k (insert k v d) ≡ some v
  lookup-insert_self k v d = ground (arith, lookup-insert k k v d, e.beq_refl k)

  pub lookup-erase_self : (k : K) (d : Dict K V) → lookup k (erase k d) ≡ none
  lookup-erase_self k d = ground (arith, lookup-erase k k d, e.beq_refl k)

  -- An entry that is put in where there was none, and erased.
  pub erase-insert_new :
      (k : K) (v : V) (d : Dict K V) → lookup k d ≡ none → erase k (insert k v d) ≡ d
  unfolding lookup insert erase
  erase-insert_new k v [] h = ground (arith, e.beq_refl k)
  erase-insert_new k v ((j, w) ∷ d) h = ground (arith, erase-insert_new k v d)

  pub lookup_nil : (k : K) → lookup k [] ≡ none
  unfolding lookup
  lookup_nil k = refl

pub lookup-insert_other :
    {V : Type 0} (j k : ℕ) (v : V) (d : Dict ℕ V) → k ≢ j → lookup j (insert k v d) ≡ lookup j d
lookup-insert_other j k v d different = lookup-insert j k v d ∙ rw apart refl
  where
    apart : nat_eq k j ≡ false
    apart = ground (arith, different)
