-- ===== src/Options/Words/Line.antt =====
-- testclient/main.cpp: `split(strip(…))` of a line of words with one space between each two.
use mathlib.Core.List.{reverse-append, reverse-reverse}
use qchat_server.Base.{
  ℕ, ◌≡◌, refl, sym, ap, ◌∙◌, Bool, true, false, List, [], ◌∷◌, ◌++◌, reverse, arith, All,
  append_assoc, append-nil,
}
use qchat_server.Options.{Text, space}
use qchat_server.Options.Words.{
  split, split_loop, strip, drop_spaces, has_no_space, keep_word, split_piece,
}

abbrev is_empty : Text → Bool
is_empty [] = true
is_empty (c ∷ cs) = false

-- A word has a character, and no space.
abbrev pub IsWord : Text → Type 0
IsWord w = (is_empty w ≡ false) × (has_no_space w ≡ true)

-- The line of a word and those behind it.
abbrev pub line_of : Text → List Text → Text
line_of w [] = w
line_of w (v ∷ vs) = w ++ (space ∷ line_of v vs)

split-line_of :
    (w : Text) (vs : List Text) → IsWord w → All IsWord vs → split_loop [] (line_of w vs) ≡ w ∷ vs
unfolding split_loop
split-line_of w [] (full, plain) h =
    ap (split_loop []) (sym (append-nil w)) ∙ split_piece [] w [] plain
split-line_of w (v ∷ vs) (full, plain) (g, h) =
    split_piece [] w (space ∷ line_of v vs) plain
    ∙ ap (keep_word w) (split-line_of v vs g h)
    ∙ kept w full
  where
    kept : (u : Text) → is_empty u ≡ false → keep_word u (v ∷ vs) ≡ u ∷ v ∷ vs
    kept [] e = cc e
    kept (c ∷ cs) e = refl

-- A text that begins with a word begins with no space.
drop_spaces-word : (w rest : Text) → IsWord w → drop_spaces (w ++ rest) ≡ w ++ rest
unfolding drop_spaces
drop_spaces-word [] rest (full, plain) = cc full
drop_spaces-word (c ∷ cs) rest (full, plain) = ground arith

has_no_space-append :
    (u w : Text) → has_no_space u ≡ true → has_no_space w ≡ true → has_no_space (u ++ w) ≡ true
has_no_space-append [] w f g = g
has_no_space-append (c ∷ cs) w f g = ground (arith, has_no_space-append cs w (ground arith) g)

has_no_space-reverse : (w : Text) → has_no_space w ≡ true → has_no_space (reverse w) ≡ true
has_no_space-reverse [] h = refl
has_no_space-reverse (c ∷ cs) h =
    ap has_no_space (reverse-append (c ∷ []) cs)
    ∙ has_no_space-append (reverse cs) (c ∷ []) (has_no_space-reverse cs (ground arith))
        (ground arith)

full_end : (u : Text) (c : ℕ) → is_empty (u ++ (c ∷ [])) ≡ false
full_end [] c = refl
full_end (d ∷ u) c = refl

reverse-IsWord : (w : Text) → IsWord w → IsWord (reverse w)
reverse-IsWord [] (full, plain) = cc full
reverse-IsWord (c ∷ cs) (full, plain) = (
  ap is_empty (reverse-append (c ∷ []) cs) ∙ full_end (reverse cs) c,
  has_no_space-reverse (c ∷ cs) plain,
)

begins : (w : Text) (vs : List Text) → (rest : Text) × (line_of w vs ≡ w ++ rest)
begins w [] = ([], sym (append-nil w))
begins w (v ∷ vs) = (space ∷ line_of v vs, refl)

ends :
    (w : Text) (vs : List Text)
    → IsWord w
    → All IsWord vs
    → (start : Text) × (last : Text) × (line_of w vs ≡ start ++ last) × IsWord last
ends w [] h g = ([], w, refl, h)
ends w (v ∷ vs) h (g, gs) =
    let (start, last, same, word) = ends v vs g gs in
    (
      w ++ (space ∷ start),
      last,
      ap (λ t. w ++ (space ∷ t)) same ∙ sym (append_assoc w (space ∷ start) last),
      word,
    )

strip-line_of :
    (w : Text) (vs : List Text) → IsWord w → All IsWord vs → strip (line_of w vs) ≡ line_of w vs
unfolding strip
strip-line_of w vs h g =
    let (rest, first) = begins w vs in
    let (start, last, same, word) = ends w vs h g in
    let front : drop_spaces (line_of w vs) ≡ line_of w vs =
      ap drop_spaces first ∙ drop_spaces-word w rest h ∙ sym first in
    let turned : reverse (line_of w vs) ≡ reverse last ++ reverse start =
      ap reverse same ∙ reverse-append start last in
    let back : drop_spaces (reverse (line_of w vs)) ≡ reverse (line_of w vs) =
      ap drop_spaces turned
      ∙ drop_spaces-word (reverse last) (reverse start) (reverse-IsWord last word)
      ∙ sym turned in
    ap (λ t. reverse (drop_spaces (reverse t))) front
    ∙ ap reverse back
    ∙ reverse-reverse (line_of w vs)

-- The words of the line are those it was made of.
pub split-strip-line_of :
    (w : Text) (vs : List Text) → IsWord w → All IsWord vs → split (strip (line_of w vs)) ≡ w ∷ vs
unfolding split
split-strip-line_of w vs h g = ap (split_loop []) (strip-line_of w vs h g) ∙ split-line_of w vs h g
