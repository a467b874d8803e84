-- ===== src/Options/Parsing.antt =====
-- utils/option.hpp: what `parse` leaves.
use qchat_server.Base.{
  ℕ, ◌≡◌, refl, sym, ap, subst, ◌∙◌, inl, inr, Bool, true, false, not, ◌&&◌, List, [], ◌∷◌,
  if◌then◌else◌, Option, none, some, is_some, Result, ok, err, logic_error, Action, take, drop,
  arith, Option-cases, Bool-cases,
}
use qchat_server.Base.Dict.{Dict, lookup, contains, lookup-insert}
use qchat_server.Options.{
  OptionType, Options, Text, text_eq, text_sym, text_left, text_key, dash, dashes, equals, split_at,
  get_type, set_value, next_value, assign, value_behind, long_option, flag, flags, letters,
  short_option, argument, parse_loop, all_required, parse, has_opt, get_string,
}

-- Every value belongs to an option.
abbrev pub IsDeclared : Options → Type 0
IsDeclared o = (name : Text) → (contains name o.args && not (contains name o.opts)) ≡ false

-- The options are those of before, and values are set for options alone.
record Extends (o o' : Options) : Type 0 where
  opts : o'.opts ≡ o.opts
  declared : IsDeclared o → IsDeclared o'

record Parses {A : Type 0} (o : Options) (result : Result A × Options) : Type 0 where
  extends : Extends o result.1

Extends-refl : (o : Options) → Extends o o
Extends-refl o = record { opts = refl; declared = λ h. h }

Extends-trans : {o p q : Options} → Extends o p → Extends p q → Extends o q
Extends-trans f g = record { opts = g.opts ∙ f.opts; declared = λ h. g.declared (f.declared h) }

stays-Parses : {A : Type 0} {o : Options} (r : Result A) → Parses o (r, o)
stays-Parses {o = o} r = record { extends = Extends-refl o }

-- Equal keys are looked up alike.
same_key :
    {V : Type 0} (m n : Text) (d : Dict Text V) → text_eq m n ≡ true → lookup m d ≡ lookup n d
unfolding lookup
same_key m n [] h = refl
same_key m n ((k, v) ∷ d) h =
    ground (arith, same_key m n d h, text_left m n k h, text_sym m k, text_sym n k)

set_value-Extends :
    (name value : Text) (o : Options)
    → contains name o.opts ≡ true
    → Extends o (set_value name value o)
unfolding set_value
set_value-Extends name value o known = record {
  opts = refl;
  declared =
      λ h m. ground (arith, h m, lookup-insert m name value o.args, same_key name m o.opts, known);
}

set-Parses :
    {A : Type 0} (name value : Text) (o : Options) (r : Result A)
    → contains name o.opts ≡ true
    → Parses o (r, set_value name value o)
set-Parses name value o r known = record { extends = set_value-Extends name value o known }

abbrev is_unknown : OptionType → Bool
is_unknown OptionType.opt_unknown = true
is_unknown OptionType.opt_no = false
is_unknown OptionType.opt_required = false
is_unknown OptionType.opt_optional = false

-- An option with a type is there.
typed_known :
    (name : Text) (o : Options) (t : OptionType)
    → get_type name o ≡ t
    → is_unknown t ≡ false
    → contains name o.opts ≡ true
unfolding get_type
typed_known name o t e h = ground arith

module _ (name : Text) (o : Options) where
  assign-Parses :
      (t : OptionType) (value : Text) → get_type name o ≡ t → Parses o (assign t name value o)
  unfolding assign
  assign-Parses OptionType.opt_unknown value e = stays-Parses _
  assign-Parses OptionType.opt_no value e = stays-Parses _
  assign-Parses OptionType.opt_required value e =
      set-Parses name value o _ (typed_known name o _ e refl)
  assign-Parses OptionType.opt_optional value e =
      set-Parses name value o _ (typed_known name o _ e refl)

  value_behind-Parses :
      (t : OptionType) (next : Option Text)
      → get_type name o ≡ t
      → Parses o (value_behind t name next o)
  unfolding value_behind
  value_behind-Parses OptionType.opt_unknown next e = stays-Parses _
  value_behind-Parses OptionType.opt_no next e =
      set-Parses name [] o _ (typed_known name o _ e refl)
  value_behind-Parses OptionType.opt_optional (some next) e =
      set-Parses name next o _ (typed_known name o _ e refl)
  value_behind-Parses OptionType.opt_optional none e =
      set-Parses name [] o _ (typed_known name o _ e refl)
  value_behind-Parses OptionType.opt_required (some next) e =
      set-Parses name next o _ (typed_known name o _ e refl)
  value_behind-Parses OptionType.opt_required none e = stays-Parses _

  flag-Extends : (t : OptionType) → get_type name o ≡ t → Extends o (flag t name o)
  unfolding flag
  flag-Extends OptionType.opt_no e = set_value-Extends name [] o (typed_known name o _ e refl)
  flag-Extends OptionType.opt_unknown e = Extends-refl o
  flag-Extends OptionType.opt_required e = Extends-refl o
  flag-Extends OptionType.opt_optional e = Extends-refl o

flags-Extends : (letters : Text) (o : Options) → Extends o (flags letters o)
unfolding flags
flags-Extends [] o = Extends-refl o
flags-Extends (c ∷ cs) o =
    Extends-trans (flag-Extends (c ∷ []) o (get_type (c ∷ []) o) refl) (flags-Extends cs _)

letters-Parses :
    (t : OptionType) (c : ℕ) (cs : Text) (next : Option Text) (o : Options)
    → get_type (c ∷ []) o ≡ t
    → Parses o (letters t c cs next o)
unfolding letters
letters-Parses OptionType.opt_no c cs next o e = record { extends = flags-Extends (c ∷ cs) o }
letters-Parses OptionType.opt_unknown c cs next o e = stays-Parses _
letters-Parses OptionType.opt_optional c [] next o e = value_behind-Parses (c ∷ []) o _ next e
letters-Parses OptionType.opt_optional c (d ∷ ds) next o e =
    set-Parses (c ∷ []) (d ∷ ds) o _ (typed_known (c ∷ []) o _ e refl)
letters-Parses OptionType.opt_required c [] next o e = value_behind-Parses (c ∷ []) o _ next e
letters-Parses OptionType.opt_required c (d ∷ ds) next o e =
    set-Parses (c ∷ []) (d ∷ ds) o _ (typed_known (c ∷ []) o _ e refl)

if-Parses :
    {A : Type 0} {o : Options} (b : Bool) {p q : Result A × Options}
    → Parses o p
    → Parses o q
    → Parses o (if b then p else q)
if-Parses true h g = h
if-Parses false h g = g

long_option-Parses :
    (str : Text) (next : Option Text) (o : Options) → Parses o (long_option str next o)
unfolding long_option
long_option-Parses [] next o = stays-Parses _
long_option-Parses (c ∷ cs) next o = elim (Option-cases (split_at equals (c ∷ cs))) [
  | inl whole ↦ rw (whole, long_option) (value_behind-Parses (c ∷ cs) o _ next refl)
  | inr ((name, value), split) ↦ rw (split, long_option) (assign-Parses name o _ value refl)
]

short_option-Parses :
    (str : Text) (next : Option Text) (o : Options) → Parses o (short_option str next o)
unfolding short_option
short_option-Parses [] next o = stays-Parses _
short_option-Parses (c ∷ cs) next o =
    if-Parses (is_some (split_at equals (c ∷ cs))) (stays-Parses _)
      (letters-Parses _ c cs next o refl)

argument-Parses : (arg : Text) (next : Option Text) (o : Options) → Parses o (argument arg next o)
unfolding argument
argument-Parses arg next o = if-Parses (not (text_eq (take 1 arg) dash)) (stays-Parses _) (
    if-Parses (text_eq (take 2 arg) dashes) (long_option-Parses (drop 2 arg) next o)
      (short_option-Parses (drop 1 arg) next o))

-- The arguments behind one that has been parsed.
next-Parses :
    {o : Options} (p : Result Bool × Options) (rest : Bool → Action Options (Unit {0}))
    → Parses o p
    → ((taken : Bool) (o' : Options) → Parses o' (rest taken o'))
    → Parses o (
        let (r, o') = p in
        let q : Result (Unit {0}) × Options = elim r [
          | err e ↦ (err e, o')
          | ok taken ↦ rest taken o'
        ] in
        q)
next-Parses (err e, o') rest h g = record { extends = h.extends }
next-Parses (ok taken, o') rest h g = record {
  extends = Extends-trans h.extends (g taken o').extends;
}

parse_loop-Parses :
    (taken : Bool) (args : List Text) (o : Options) → Parses o (parse_loop taken args o)
unfolding parse_loop
parse_loop-Parses taken [] o = stays-Parses _
parse_loop-Parses true (arg ∷ rest) o = parse_loop-Parses false rest o
parse_loop-Parses false (arg ∷ rest) o =
    next-Parses _ (λ taken. parse_loop taken rest) (argument-Parses arg (next_value rest) o)
      λ taken o'. parse_loop-Parses taken rest o'

abbrev pub is_required : OptionType → Bool
is_required OptionType.opt_required = true
is_required OptionType.opt_unknown = false
is_required OptionType.opt_no = false
is_required OptionType.opt_optional = false

abbrev pub is_ok : {A : Type 0} → Result A → Bool
is_ok (ok _) = true
is_ok (err _) = false

-- What the loop over the options finds out.
all_required_lem :
    (opts : Dict Text OptionType) (args : Dict Text Text) (name : Text) (t : OptionType)
    → all_required opts args ≡ true
    → lookup name opts ≡ some t
    → is_required t ≡ true
    → contains name args ≡ true
unfolding all_required lookup
all_required_lem [] args name t h found required = ground arith
all_required_lem ((k, OptionType.opt_required) ∷ opts) args name t h found required =
    ground (arith, all_required_lem opts args name t, same_key k name args)
all_required_lem ((k, OptionType.opt_unknown) ∷ opts) args name t h found required =
    ground (arith, all_required_lem opts args name t)
all_required_lem ((k, OptionType.opt_no) ∷ opts) args name t h found required =
    ground (arith, all_required_lem opts args name t)
all_required_lem ((k, OptionType.opt_optional) ∷ opts) args name t h found required =
    ground (arith, all_required_lem opts args name t)

-- The loop went through, and found no option without the value it needs.
parse_returns :
    (args : List Text) (o o' : Options)
    → parse args o ≡ (ok tt, o')
    → ((parse_loop false args o).1 ≡ o') × (all_required o'.opts o'.args ≡ true)
unfolding parse
parse_returns args o o' h = finished (parse_loop false args o) h
  where
    finished :
        (p : Result (Unit {0}) × Options)
        → (let (r, q) = p in
            let x : Result (Unit {0}) × Options = elim r [
              | err e ↦ (err e, q)
              | ok _ ↦ if all_required q.opts q.args then (ok tt, q) else (err logic_error, q)
            ] in
            x)
          ≡ (ok tt, o')
        → (p.1 ≡ o') × (all_required o'.opts o'.args ≡ true)
    finished (err e, q) g = cc g
    finished (ok _, q) g = elim (Bool-cases (all_required q.opts q.args)) [
      | inl all ↦
          let same : q ≡ o' = ap (λ x. x.1) (rw all at g) in
          (same, ap (λ (x : Options). all_required x.opts x.args) (sym same) ∙ all)
      | inr some_missing ↦ cc (rw some_missing at g)
    ]

-- When `parse` goes through, the options are those that were added, values are set for options alone,
-- and `get_string` of an option that needs a value returns one.
pub parse_lem :
    (args : List Text) (o o' : Options) (name : Text)
    → IsDeclared o
    → parse args o ≡ (ok tt, o')
    → (o'.opts ≡ o.opts)
      × IsDeclared o'
      × ((is_required (get_type name o') && not (is_ok (get_string name o'))) ≡ false)
unfolding get_type get_string has_opt
parse_lem args o o' name declared h =
    let (reached, all) = parse_returns args o o' h in
    let extends = subst (Extends o) reached (parse_loop-Parses false args o).extends in
    (
      extends.opts,
      extends.declared declared,
      elim (Option-cases (lookup name o'.opts)) [
        | inl missing ↦ ground (arith, missing)
        | inr (t, found) ↦ ground (arith, found, all_required_lem o'.opts o'.args name t all found)
      ],
    )
