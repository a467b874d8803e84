-- ===== src/Client/Requests/Reading.antt =====
-- testclient/session.cpp and server/jsonMessageProcess: how the server reads the messages of a client.
use Prim.Native.String.{String}
use text.Mathlib.Text.{◌==◌ as str_eq}
use qchat_server.Base.{
  ℕ, ◌≡◌, refl, ap, ◌∙◌, true, false, List, [], ◌∷◌, none, some, arith, ok, Action, ◌>>=◌,
  bind_runs,
}
use qchat_server.Base.Dict.{string_key, lookup, string_refl}
use qchat_server.Server.State.{Server}
use qchat_server.Server.Json.{JsonLibrary, JsonLaws, ParameterType, Reply}
use qchat_server.Server.Commands.{Command, command_list, has_command, options}
use qchat_server.Server.Commands.Execute.{Surroundings, int_of, string_of, execute}
use qchat_server.Server.Process.{
  Session, on_server, or_unknown, invalid_message, wrong_parameter, turned_away, run_command,
  dispatch, process_json_message,
}
use qchat_server.Server.Process.Guard.{turned_away_lem}
use qchat_server.Client.Requests.{
  JsonMaking, MakingLaws, put_parameters, make_json_function_data_package,
}

module _ {j : JsonLibrary} {m : JsonMaking j} (laws : JsonLaws j) (made : MakingLaws j m) where
  -- A message with a name and parameters.
  pub record IsMessage (name : String) (p json : j.JsonValue) : Type 0 where
    pub dictionary : j.is_dict json ≡ true
    pub function : j.find "function" json ≡ some (m.from_string name)
    pub parameters_found : j.find "parameters" json ≡ some p
    pub parameters_dictionary : j.is_dict p ≡ true

  -- The parameters one by one.
  unfoldable pub with_parameters : List (String × j.JsonValue) → j.JsonValue → j.JsonValue
  with_parameters [] p = p
  with_parameters ((name, value) ∷ list) p = with_parameters list (m.put name value p)

  put_parameters-IsMessage :
      (list : List (String × j.JsonValue)) (name : String) (p json : j.JsonValue)
      → IsMessage name p json
      → IsMessage name (with_parameters list p) (put_parameters m list json)
  unfolding with_parameters put_parameters
  put_parameters-IsMessage [] name p json h = h
  put_parameters-IsMessage ((k, value) ∷ list) name p json h =
      rw (laws.at-find "parameters" json p h.parameters_found) (
        put_parameters-IsMessage list name (m.put k value p) _ (record {
          dictionary = made.put-is_dict _ _ _ h.dictionary;
          function = made.find-put "parameters" "function" _ json h.dictionary ∙ h.function;
          parameters_found = made.find-put "parameters" "parameters" _ json h.dictionary;
          parameters_dictionary = made.put-is_dict _ _ _ h.parameters_dictionary;
        }))

  -- The message that is built for a list of parameters.
  pub built-IsMessage :
      (name : String) (list : List (String × j.JsonValue))
      → IsMessage name
          (with_parameters list m.empty_dict)
          (make_json_function_data_package m name list)
  unfolding make_json_function_data_package
  built-IsMessage name list = put_parameters-IsMessage list name m.empty_dict _ (record {
    dictionary = made.put-is_dict _ _ _ head_dictionary;
    function =
        made.find-put "parameters" "function" _ _ head_dictionary
        ∙ made.find-put "function" "function" _ _ made.empty-is_dict;
    parameters_found = made.find-put "parameters" "parameters" _ _ head_dictionary;
    parameters_dictionary = made.empty-is_dict;
  })
    where
      head_dictionary : j.is_dict (m.put "function" (m.from_string name) m.empty_dict) ≡ true
      head_dictionary = made.put-is_dict _ _ _ made.empty-is_dict

  module _ {name : String} {p json : j.JsonValue} (message : IsMessage name p json) where
    IsMessage-is_valid : invalid_message j json ≡ none
    unfolding invalid_message
    IsMessage-is_valid =
        rw
          (
            message.dictionary,
            made.has_member-find "function" json,
            message.function,
            made.has_member-find "parameters" json,
            message.parameters_found,
            laws.at-find "function" json _ message.function,
            made.string_typed name,
            laws.at-find "parameters" json _ message.parameters_found,
            message.parameters_dictionary,
          )
          refl

    -- A valid message goes to the dispatch with its name and its parameters.
    pub processed :
        (e : Surroundings) (c : ℕ) (z : Session)
        → process_json_message j e c json z ≡ or_unknown (dispatch j e c name p z)
    unfolding process_json_message
    processed e c z =
        rw
          (
            IsMessage-is_valid,
            process_json_message,
            laws.at-find "function" json _ message.function,
            made.string_same name,
            laws.at-find "parameters" json _ message.parameters_found,
          )
          refl

    -- A command of the list whose parameters pass the check is executed.
    pub commanded :
        (command : Command) (e : Surroundings) (c : ℕ) (z : Session)
        → lookup name command_list ≡ some command
        → str_eq name "login" ≡ false
        → wrong_parameter j (options command) p ≡ none
        → process_json_message j e c json z
          ≡ or_unknown (on_server (execute j e command z.local_user p) z)
    unfolding dispatch run_command has_command
    commanded command e c z known other passes =
        processed e c z
        ∙ ap or_unknown (
            rw (not_away, dispatch, other)
              (rw (known, run_command) (rw (passes, run_command) refl)))
      where
        not_away : turned_away z.local_user name ≡ ok false
        not_away = turned_away_lem z.local_user name ∙ ground (arith, known)

  -- The value that stands under a name, an integer or a text.
  module _ (name : String) (p : j.JsonValue) where
    pub reads_int :
        (n : ℕ) (s : Server) → j.find name p ≡ some (m.from_int n) → int_of j name p s ≡ (ok n, s)
    unfolding int_of
    reads_int n s found = rw (laws.at-find name p _ found, made.int_same n) refl

    pub reads_string :
        (t : String) (s : Server)
        → j.find name p ≡ some (m.from_string t)
        → string_of j name p s ≡ (ok t, s)
    unfolding string_of
    reads_string t s found = rw (laws.at-find name p _ found, made.string_same t) refl

    int_passes :
        (n : ℕ) (rest : List (String × ParameterType))
        → j.find name p ≡ some (m.from_int n)
        → wrong_parameter j ((name, ParameterType.int) ∷ rest) p ≡ wrong_parameter j rest p
    unfolding wrong_parameter
    int_passes n rest found = rw (found, wrong_parameter) (rw (made.int_typed n) refl)

    string_passes :
        (t : String) (rest : List (String × ParameterType))
        → j.find name p ≡ some (m.from_string t)
        → wrong_parameter j ((name, ParameterType.string) ∷ rest) p ≡ wrong_parameter j rest p
    unfolding wrong_parameter
    string_passes t rest found = rw (found, wrong_parameter) (rw (made.string_typed t) refl)

  pub none_left : (p : j.JsonValue) → wrong_parameter j [] p ≡ none
  unfolding wrong_parameter
  none_left p = refl

  -- What was put in last, and what was put in before it.
  pub last_put :
      (name : String) (w v : j.JsonValue)
      → j.is_dict v ≡ true
      → j.find name (m.put name w v) ≡ some w
  last_put name w v dictionary = made.find-put name name w v dictionary ∙ rw (string_refl name) refl

  pub before_put :
      (name other : String) (w v : j.JsonValue)
      → j.is_dict v ≡ true
      → str_eq name other ≡ false
      → j.find other (m.put name w v) ≡ j.find other v
  before_put name other w v dictionary different =
      made.find-put name other w v dictionary ∙ rw different refl

  -- A command with one parameter, an integer.
  module _ (name : String) (n : ℕ) where
    abbrev pub one : j.JsonValue
    one = m.put name (m.from_int n) m.empty_dict

    one_found : j.find name one ≡ some (m.from_int n)
    one_found = last_put name (m.from_int n) m.empty_dict made.empty-is_dict

    pub one_passes : wrong_parameter j ((name, ParameterType.int) ∷ []) one ≡ none
    one_passes = int_passes name one n [] one_found ∙ none_left one

    pub one_runs : (k : ℕ → Action Server Reply) (s : Server) → (int_of j name one >>= k) s ≡ k n s
    one_runs k s = bind_runs (int_of j name one) k (reads_int name one n s one_found)

  -- Two parameters.
  module _ (first second : String) (v w : j.JsonValue) where
    abbrev pub two : j.JsonValue
    two = m.put second w (m.put first v m.empty_dict)

    within : j.is_dict (m.put first v m.empty_dict) ≡ true
    within = made.put-is_dict _ _ _ made.empty-is_dict

    pub second_found : j.find second two ≡ some w
    second_found = last_put second w _ within

    pub first_found : str_eq second first ≡ false → j.find first two ≡ some v
    first_found different =
        before_put second first w _ within different ∙ last_put first v _ made.empty-is_dict

  -- Two integers, an integer and a text, and two texts.
  module _ (first second : String) (different : str_eq second first ≡ false) where
    pub ints_pass :
        (a b : ℕ)
        → wrong_parameter j
            ((first, ParameterType.int) ∷ (second, ParameterType.int) ∷ [])
            (two first second (m.from_int a) (m.from_int b))
          ≡ none
    ints_pass a b =
        int_passes first _ a _ (first_found first second _ _ different)
        ∙ int_passes second _ b _ (second_found first second _ _)
        ∙ none_left _

    pub ints_run :
        (a b : ℕ) (k : ℕ → ℕ → Action Server Reply) (s : Server)
        → let p = two first second (m.from_int a) (m.from_int b) in
          (int_of j first p >>= λ x. int_of j second p >>= k x) s ≡ k a b s
    ints_run a b k s =
        let p = two first second (m.from_int a) (m.from_int b) in
        bind_runs (int_of j first p) (λ x. int_of j second p >>= k x)
          (reads_int first p a s (first_found first second _ _ different))
        ∙ bind_runs (int_of j second p) (k a)
            (reads_int second p b s (second_found first second _ _))

    pub text_passes :
        (a : ℕ) (t : String)
        → wrong_parameter j
            ((first, ParameterType.int) ∷ (second, ParameterType.string) ∷ [])
            (two first second (m.from_int a) (m.from_string t))
          ≡ none
    text_passes a t =
        int_passes first _ a _ (first_found first second _ _ different)
        ∙ string_passes second _ t _ (second_found first second _ _)
        ∙ none_left _

    pub text_runs :
        (a : ℕ) (t : String) (k : ℕ → String → Action Server Reply) (s : Server)
        → let p = two first second (m.from_int a) (m.from_string t) in
          (int_of j first p >>= λ x. string_of j second p >>= k x) s ≡ k a t s
    text_runs a t k s =
        let p = two first second (m.from_int a) (m.from_string t) in
        bind_runs (int_of j first p) (λ x. string_of j second p >>= k x)
          (reads_int first p a s (first_found first second _ _ different))
        ∙ bind_runs (string_of j second p) (k a)
            (reads_string second p t s (second_found first second _ _))

    pub texts_pass :
        (t u : String)
        → wrong_parameter j
            ((first, ParameterType.string) ∷ (second, ParameterType.string) ∷ [])
            (two first second (m.from_string t) (m.from_string u))
          ≡ none
    texts_pass t u =
        string_passes first _ t _ (first_found first second _ _ different)
        ∙ string_passes second _ u _ (second_found first second _ _)
        ∙ none_left _

    pub texts_run :
        (t u : String) (k : String → String → Action Server Reply) (s : Server)
        → let p = two first second (m.from_string t) (m.from_string u) in
          (string_of j first p >>= λ x. string_of j second p >>= k x) s ≡ k t u s
    texts_run t u k s =
        let p = two first second (m.from_string t) (m.from_string u) in
        bind_runs (string_of j first p) (λ x. string_of j second p >>= k x)
          (reads_string first p t s (first_found first second _ _ different))
        ∙ bind_runs (string_of j second p) (k t)
            (reads_string second p u s (second_found first second _ _))
