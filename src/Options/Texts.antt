-- ===== src/Options/Texts.antt =====
-- utils/option.hpp and server/input/input.cpp: texts that are cut up.
use Prim.Native.Char.{code}
use Prim.Native.String.{String}
use qchat_server.Base.{
  ℕ, ◌≡◌, refl, Bool, true, false, ◌&&◌, List, [], ◌∷◌, ◌==◌, if◌then◌else◌, Option, none, some,
  arith,
}
use qchat_server.Base.Dict.{KeyEq}

abbrev pub Text : Type 0
Text = List ℕ

abbrev pub text_eq : Text → Text → Bool
text_eq [] [] = true
text_eq [] (b ∷ ys) = false
text_eq (a ∷ xs) [] = false
text_eq (a ∷ xs) (b ∷ ys) = let rest = text_eq xs ys in a == b && rest

pub text_refl : (a : Text) → text_eq a a ≡ true
text_refl [] = refl
text_refl (a ∷ xs) = ground (arith, text_refl xs)

pub text_sym : (a b : Text) → text_eq a b ≡ text_eq b a
text_sym [] [] = refl
text_sym [] (b ∷ ys) = refl
text_sym (a ∷ xs) [] = refl
text_sym (a ∷ xs) (b ∷ ys) = ground (arith, text_sym xs ys)

pub text_left : (a b c : Text) → text_eq a b ≡ true → text_eq a c ≡ text_eq b c
text_left [] [] c h = refl
text_left [] (b ∷ ys) c h = ground arith
text_left (a ∷ xs) [] c h = ground arith
text_left (a ∷ xs) (b ∷ ys) [] h = refl
text_left (a ∷ xs) (b ∷ ys) (c ∷ zs) h = ground (arith, text_left xs ys zs)

instance abbrev pub text_key : KeyEq Text
text_key = record { beq = text_eq; beq_refl = text_refl; beq_sym = text_sym; beq_left = text_left }

-- The text of a literal of the source.
abbrev pub codes : String → Text
codes String.[] = []
codes (String.◌∷◌ c s) = code c ∷ codes s

-- The codes of ' ', '-' and '=', and the texts "-", "--", "true" and "false".
abbrev pub space : ℕ
space = 32

abbrev pub equals : ℕ
equals = 61

abbrev pub dash : Text
dash = 45 ∷ []

abbrev pub dashes : Text
dashes = 45 ∷ 45 ∷ []

abbrev pub true_text : Text
true_text = 116 ∷ 114 ∷ 117 ∷ 101 ∷ []

abbrev pub false_text : Text
false_text = 102 ∷ 97 ∷ 108 ∷ 115 ∷ 101 ∷ []

-- `find` of a character: what stands before the first one and what stands behind it.
unfoldable pub split_at : ℕ → Text → Option (Text × Text)
split_at c [] = none
split_at c (a ∷ xs) =
    let found = split_at c xs in
    if a == c
    then some ([], xs)
    else elim found [ none ↦ none | some (before, behind) ↦ some (a ∷ before, behind) ]
