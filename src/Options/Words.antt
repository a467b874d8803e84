-- ===== src/Options/Words.antt =====
-- utils/option.hpp and server/input/input.cpp: a command line is cut at its spaces.
pub mod Line
use qchat_server.Base.{
  ◌≡◌, refl, sym, ap, ◌∙◌, Bool, true, false, not, ◌&&◌, List, [], ◌∷◌, ◌++◌, reverse, ◌==◌,
  if◌then◌else◌, arith, Action, All, append_assoc, append-nil,
}
use qchat_server.Options.{Options, Text, space, parse}

-- `if ((iter - begin - 1) > 0) { dataList.push_back(…); }`
abbrev pub keep_word : Text → List Text → List Text
keep_word [] rest = rest
keep_word (c ∷ cs) rest = (c ∷ cs) ∷ rest

-- The loop: `segment` is `data.substr(begin + 1, iter - begin - 1)`.
unfoldable pub split_loop : Text → Text → List Text
split_loop segment [] = segment ∷ []
split_loop segment (c ∷ cs) =
    let cut = split_loop [] cs in
    let longer = split_loop (segment ++ (c ∷ [])) cs in
    if c == space then keep_word segment cut else longer

unfoldable pub split : Text → List Text
split command = split_loop [] command

-- `strip`: the spaces before and behind a text.
unfoldable pub drop_spaces : Text → Text
drop_spaces [] = []
drop_spaces (c ∷ cs) = let rest = drop_spaces cs in if c == space then rest else c ∷ cs

unfoldable pub strip : Text → Text
strip text = reverse (drop_spaces (reverse (drop_spaces text)))

-- `parse` of a command line.
unfoldable pub parse_command : Text → Action Options (Unit {0})
parse_command command = parse (split command)

abbrev pub has_no_space : Text → Bool
has_no_space [] = true
has_no_space (c ∷ cs) = let rest = has_no_space cs in not (c == space) && rest

-- Pieces with a space behind each, and a last one.
abbrev pub join : List Text → Text → Text
join [] last = last
join (piece ∷ pieces) last = piece ++ (space ∷ join pieces last)

abbrev pub words : List Text → List Text
words [] = []
words (piece ∷ pieces) = keep_word piece (words pieces)

split_piece :
    (segment piece rest : Text)
    → has_no_space piece ≡ true
    → split_loop segment (piece ++ rest) ≡ split_loop (segment ++ piece) rest
unfolding split_loop
split_piece segment [] rest h = ap (λ s. split_loop s rest) (sym (append-nil segment))
split_piece segment (c ∷ cs) rest h =
    let (no_space, others) : ((c == space) ≡ false) × (has_no_space cs ≡ true) = ground arith in
    rw no_space (
      split_piece (segment ++ (c ∷ [])) cs rest others
      ∙ ap (λ s. split_loop s rest) (append_assoc segment (c ∷ []) cs))

-- A command line, seen as pieces without a space in them and one space between each two, is cut into
-- the pieces that are not empty and the last one, empty or not.
pub split-join :
    (pieces : List Text) (last : Text)
    → All (λ piece. has_no_space piece ≡ true) pieces
    → has_no_space last ≡ true
    → split (join pieces last) ≡ words pieces ++ (last ∷ [])
unfolding split split_loop
split-join [] last h g = ap (split_loop []) (sym (append-nil last)) ∙ split_piece [] last [] g
split-join (piece ∷ pieces) last (p, h) g =
    split_piece [] piece (space ∷ join pieces last) p
    ∙ ap (keep_word piece) (split-join pieces last h g)
    ∙ keep_word-append piece (words pieces)
  where
    keep_word-append :
        (w : Text) (ws : List Text)
        → keep_word w (ws ++ (last ∷ [])) ≡ keep_word w ws ++ (last ∷ [])
    keep_word-append [] ws = refl
    keep_word-append (c ∷ cs) ws = refl
