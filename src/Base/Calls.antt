-- ===== src/Base/Calls.antt =====
-- Calls with state and exceptions. The state comes back after a throw too: what was written stays
-- written.
use mathlib.Core.Path.{◌≡◌, ap}
use mathlib.Core.Bool.{Bool, true, false}
use mathlib.Core.Option.{Option, none, some}
use qchat_server.Base.Errors.{Failure, Errc, system_error, Result, ok, err}

abbrev pub Action : Type 0 → Type 0 → Type 0
Action S A = S → Result A × S

module _ {S : Type 0} {A : Type 0} where
  abbrev pub pure : A → Action S A
  pure a s = (ok a, s)

  abbrev pub fail : Failure → Action S A
  fail e s = (err e, s)

  abbrev pub throw : Errc → Action S A
  throw e s = (err (system_error e), s)

  abbrev pub gets : (S → A) → Action S A
  gets f s = (ok (f s), s)

  abbrev pub or_throw : Option A → Errc → Action S A
  or_throw none e s = (err (system_error e), s)
  or_throw (some a) e s = (ok a, s)

infixl 5 ◌>>=◌ ◌>>◌
abbrev pub ◌>>=◌ : {S A B : Type 0} → Action S A → (A → Action S B) → Action S B
◌>>=◌ m f s = let (r, s') = m s in elim r [ ok a ↦ f a s' | err e ↦ (err e, s') ]

abbrev pub ◌>>◌ : {S A B : Type 0} → Action S A → Action S B → Action S B
m >> k = m >>= λ _. k

-- A call that returns, and what follows it.
pub bind_runs :
    {S A B : Type 0} (m : Action S A) (k : A → Action S B) {s s' : S} {x : A}
    → m s ≡ (ok x, s')
    → (m >>= k) s ≡ k x s'
bind_runs {S} {A} {B} m k e = ap after e
  where
    after : Result A × S → Result B × S
    after p = let (r, s) = p in elim r [ ok a ↦ k a s | err e' ↦ (err e', s) ]

module _ {S : Type 0} where
  abbrev pub modify : (S → S) → Action S (Unit {0})
  modify f s = (ok tt, f s)

  abbrev pub throw_if : Bool → Errc → Action S (Unit {0})
  throw_if true e s = (err (system_error e), s)
  throw_if false e s = (ok tt, s)
