-- ===== src/Options.antt =====
-- utils/option.hpp: `opt::Option`, the parser of command lines, which server/input/input.cpp uses. A
-- text is the list of its characters' codes, as it is cut up.
mod Texts
pub mod Words
pub mod Parsing
unfoldable pub use Texts.*
mod Tests
use qchat_server.Base.{
  ℕ, ◌+◌, Bool, true, false, not, ◌&&◌, ◌||◌, List, [], ◌∷◌, ◌++◌, ◌==◌, if◌then◌else◌, Option,
  none, some, is_some, Result, ok, err, logic_error, undefined_behaviour, Action, take, drop,
  length, ltb,
}
use qchat_server.Base.Dict.{Dict, lookup, insert, erase, contains}

pub data OptionType : Type 0 where
  opt_unknown opt_no opt_required opt_optional : OptionType

pub record Options : Type 0 where
  pub opts : Dict Text OptionType
  pub args : Dict Text Text

unfoldable pub add : Text → OptionType → Action Options (Unit {0})
add name OptionType.opt_unknown o = (err logic_error, o)
add name type o = (ok tt, record o { opts = insert name type o.opts })

unfoldable pub remove : Text → Options → Options
remove name o = record o { opts = erase name o.opts }

unfoldable pub get_type : Text → Options → OptionType
get_type name o = elim (lookup name o.opts) [ none ↦ OptionType.opt_unknown | some type ↦ type ]

-- `m_args_map[name] = value`
unfoldable pub set_value : Text → Text → Options → Options
set_value name value o = record o { args = insert name value o.args }

-- `(i + 1) != args.cend() && (i + 1)->substr(0, 1) != "-"`: the next argument, where it is a value.
unfoldable pub next_value : List Text → Option Text
next_value [] = none
next_value (next ∷ _) = if text_eq (take 1 next) dash then none else some next

-- What an argument does. The result is whether the argument after it was its value, `i++`.
-- "Found '='".
unfoldable pub assign : OptionType → Text → Text → Action Options Bool
assign OptionType.opt_unknown name value o = (err logic_error, o)
assign OptionType.opt_no name value o = (err logic_error, o)
assign OptionType.opt_required name value o = (ok false, set_value name value o)
assign OptionType.opt_optional name value o = (ok false, set_value name value o)

-- An option whose value, if it has one, is the next argument.
unfoldable pub value_behind : OptionType → Text → Option Text → Action Options Bool
value_behind OptionType.opt_unknown name next o = (ok false, o)
value_behind OptionType.opt_no name next o = (ok false, set_value name [] o)
value_behind OptionType.opt_optional name (some next) o = (ok true, set_value name next o)
value_behind OptionType.opt_optional name none o = (ok false, set_value name [] o)
value_behind OptionType.opt_required name (some next) o = (ok true, set_value name next o)
value_behind OptionType.opt_required name none o = (err logic_error, o)

-- "Long option parsing": `str` is the argument behind the two dashes.
unfoldable pub long_option : Text → Option Text → Action Options Bool
long_option [] next o = (ok false, o)
long_option (c ∷ cs) next o = elim (split_at equals (c ∷ cs)) [
  | some (name, value) ↦ assign (get_type name o) name value o
  | none ↦ value_behind (get_type (c ∷ cs) o) (c ∷ cs) next o
]

-- Every letter that is an option without a value.
unfoldable pub flag : OptionType → Text → Options → Options
flag OptionType.opt_no name o = set_value name [] o
flag OptionType.opt_unknown name o = o
flag OptionType.opt_required name o = o
flag OptionType.opt_optional name o = o

unfoldable pub flags : Text → Options → Options
flags [] o = o
flags (c ∷ cs) o = flags cs (flag (get_type (c ∷ []) o) (c ∷ []) o)

-- The first letter `c` is the option's name, and `cs` is behind it.
unfoldable pub letters : OptionType → ℕ → Text → Option Text → Action Options Bool
letters OptionType.opt_no c cs next o = (ok false, flags (c ∷ cs) o)
letters OptionType.opt_unknown c cs next o = (ok false, o)
letters OptionType.opt_optional c [] next o = value_behind OptionType.opt_optional (c ∷ []) next o
letters OptionType.opt_optional c (d ∷ ds) next o = (ok false, set_value (c ∷ []) (d ∷ ds) o)
letters OptionType.opt_required c [] next o = value_behind OptionType.opt_required (c ∷ []) next o
letters OptionType.opt_required c (d ∷ ds) next o = (ok false, set_value (c ∷ []) (d ∷ ds) o)

-- "Short option parsing": `str` is the argument behind the dash.
unfoldable pub short_option : Text → Option Text → Action Options Bool
short_option [] next o = (ok false, o)
short_option (c ∷ cs) next o =
    if is_some (split_at equals (c ∷ cs))
    then (err logic_error, o)
    else letters (get_type (c ∷ []) o) c cs next o

-- One round of the loop.
unfoldable pub argument : Text → Option Text → Action Options Bool
argument arg next o =
    if not (text_eq (take 1 arg) dash)
    then (ok false, o)
    else if text_eq (take 2 arg) dashes
    then long_option (drop 2 arg) next o
    else short_option (drop 1 arg) next o

-- The loop over the arguments, and whether the one at the front has been taken as a value.
unfoldable pub parse_loop : Bool → List Text → Action Options (Unit {0})
parse_loop taken [] o = (ok tt, o)
parse_loop true (arg ∷ rest) o = parse_loop false rest o
parse_loop false (arg ∷ rest) o =
    let (r, o') = argument arg (next_value rest) o in
    elim r [ err e ↦ (err e, o') | ok taken ↦ parse_loop taken rest o' ]

-- The loop over the options behind it.
unfoldable pub all_required : Dict Text OptionType → Dict Text Text → Bool
all_required [] args = true
all_required ((name, OptionType.opt_required) ∷ opts) args =
    contains name args && all_required opts args
all_required ((name, OptionType.opt_unknown) ∷ opts) args = all_required opts args
all_required ((name, OptionType.opt_no) ∷ opts) args = all_required opts args
all_required ((name, OptionType.opt_optional) ∷ opts) args = all_required opts args

unfoldable pub parse : List Text → Action Options (Unit {0})
parse args o =
    let (r, o') = parse_loop false args o in
    elim r [
      | err e ↦ (err e, o')
      | ok _ ↦ if all_required o'.opts o'.args then (ok tt, o') else (err logic_error, o')
    ]

unfoldable pub has_opt : Text → Options → Bool
has_opt name o = contains name o.opts

unfoldable pub has_opt_with_value : Text → Options → Bool
has_opt_with_value name o = contains name o.opts && contains name o.args

-- `m_args_map.find(name)->second`, with no test of what `find` returns.
unfoldable pub get_string : Text → Options → Result Text
get_string name o =
    if not (has_opt name o)
    then err logic_error
    else elim (lookup name o.args) [ none ↦ err undefined_behaviour | some value ↦ ok value ]

-- `std::stoll` is an argument.
unfoldable pub get_int : (Text → Result ℕ) → Text → Options → Result ℕ
get_int stoll name o =
    if not (has_opt name o)
    then err logic_error
    else elim (lookup name o.args) [ none ↦ err undefined_behaviour | some value ↦ stoll value ]

unfoldable pub get_bool : Text → Options → Result Bool
get_bool name o = if not (has_opt name o) then err logic_error else elim (lookup name o.args) [
  | none ↦ err undefined_behaviour
  | some value ↦
      if text_eq value true_text
      then ok true
      else if text_eq value false_text
      then ok false
      else err logic_error
]
