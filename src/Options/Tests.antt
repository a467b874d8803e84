-- ===== src/Options/Tests.antt =====
-- The options of a program with a port, and the theorems at them.
use qchat_server.Base.{◌≡◌, refl, false, not, ◌&&◌, List, [], ◌∷◌, ◌++◌, err, logic_error}
use qchat_server.Base.Dict.{lookup, insert}
use qchat_server.Options.{
  OptionType, Options, Text, text_key, get_type, get_string, parse, parse_loop, argument,
  short_option, letters, value_behind, next_value, set_value, all_required, split_at, flag, flags,
}
use qchat_server.Options.Parsing.{IsDeclared, parse_lem, is_required, is_ok}
use qchat_server.Options.Words.{split, join, words, split-join}

-- "p", which needs a value, and "v".
abbrev program : Options
program = record {
  opts = (112 ∷ [], OptionType.opt_required) ∷ (118 ∷ [], OptionType.opt_no) ∷ [];
  args = [];
}

-- "-v -p 80" leaves
abbrev parsed : Options
parsed = record program { args = (118 ∷ [], []) ∷ (112 ∷ [], 56 ∷ 48 ∷ []) ∷ [] }

abbrev command : List Text
command = (45 ∷ 118 ∷ []) ∷ (45 ∷ 112 ∷ []) ∷ (56 ∷ 48 ∷ []) ∷ []

program-IsDeclared : IsDeclared program
unfolding lookup
program-IsDeclared name = refl

-- "-v", and no port.
no_port :
    parse ((45 ∷ 118 ∷ []) ∷ []) program
    ≡ (err logic_error, record program { args = (118 ∷ [], []) ∷ [] })
unfolding parse parse_loop argument short_option letters flags flag value_behind next_value
    set_value all_required split_at get_type lookup insert
no_port = refl

parse_example :
    (parsed.opts ≡ program.opts)
    × IsDeclared parsed
    × ((is_required (get_type (112 ∷ []) parsed) && not (is_ok (get_string (112 ∷ []) parsed)))
        ≡ false)
unfolding parse parse_loop argument short_option letters flags flag value_behind next_value
    set_value all_required split_at get_type lookup insert
parse_example = parse_lem command program parsed (112 ∷ []) program-IsDeclared refl

-- "a  b " is the pieces "a", "" and "b", and the last one, which is empty.
split-join_example :
    split (join ((97 ∷ []) ∷ [] ∷ (98 ∷ []) ∷ []) [])
    ≡ words ((97 ∷ []) ∷ [] ∷ (98 ∷ []) ∷ []) ++ ([] ∷ [])
split-join_example = split-join ((97 ∷ []) ∷ [] ∷ (98 ∷ []) ∷ []) [] (refl, (refl, (refl, tt))) refl
