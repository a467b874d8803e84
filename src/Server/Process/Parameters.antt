-- ===== src/Server/Process/Parameters.antt =====
-- server/jsonMessageProcess/JsonMsgProcess.cpp: what the check of the parameters is good for.
use Prim.Native.String.{String}
use qchat_server.Base.{
  ℕ, ◌≡◌, inl, inr, true, List, [], ◌∷◌, none, Option-cases, Bool-cases, All, ok,
}
use qchat_server.Server.Json.{JsonLibrary, JsonLaws, ParameterType}
use qchat_server.Server.Process.{wrong_parameter}

module _ (j : JsonLibrary) where
  -- Reading the value as its type goes through.
  abbrev pub Reads : ParameterType → j.JsonValue → Type 0
  Reads ParameterType.int v = (n : ℕ) × (j.get_int v ≡ ok n)
  Reads ParameterType.string v = (s : String) × (j.get_string v ≡ ok s)

  abbrev pub IsReadable : j.JsonValue → String × ParameterType → Type 0
  IsReadable p (name, type) = Reads type (j.at name p)

module _ {j : JsonLibrary} (laws : JsonLaws j) where
  typed-Reads : (type : ParameterType) (v : j.JsonValue) → j.has_type type v ≡ true → Reads j type v
  typed-Reads ParameterType.int v h = laws.int_read v h
  typed-Reads ParameterType.string v h = laws.string_read v h

  -- When the check finds nothing wrong with the parameters, then a command can read every one of its
  -- options by `operator[]` and the getter of its type, without an exception.
  pub wrong_parameter-IsReadable :
      (options : List (String × ParameterType)) (p : j.JsonValue)
      → wrong_parameter j options p ≡ none
      → All (IsReadable j p) options
  unfolding wrong_parameter
  wrong_parameter-IsReadable [] p h = tt
  wrong_parameter-IsReadable ((name, type) ∷ rest) p h = elim (Option-cases (j.find name p)) [
    | inl missing ↦ cc (rw (missing, wrong_parameter) at h)
    | inr (v, found) ↦ elim (Bool-cases (j.has_type type v)) [
      | inl typed ↦ (
        rw (laws.at-find name p v found) (typed-Reads type v typed),
        wrong_parameter-IsReadable rest p (rw typed at (rw (found, wrong_parameter) at h)),
      )
      | inr wrong ↦ cc (rw wrong at (rw (found, wrong_parameter) at h))
    ]
  ]
