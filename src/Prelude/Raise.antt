-- ===== src/Prelude/Raise.antt =====
-- Python exceptions as values: what a call returned, or the exception that it raised.
use Prim.Native.String.{String}
use mathlib.Core.Path.{◌≡◌, refl}
use mathlib.Core.Logic.{◌⊎◌, inl, inr}

-- str(e), and what traceback.format_exc() prints of it.
pub record Exception : Type 0 where
  pub message : String
  pub traceback : String

-- A call that may raise.
pub data Result {ℓ} (V : Type ℓ) : Type ℓ where
  raised : Exception → Result V
  ok : V → Result V

-- An exception whose traceback is its message.
abbrev pub exception : String → Exception
exception m = record { message = m; traceback = m }

module _ {ℓ} {V : Type ℓ} where
  pub Result-cases : (r : Result V) → ((v : V) × (r ≡ ok v)) ⊎ ((e : Exception) × (r ≡ raised e))
  Result-cases (raised e) = inr (e, refl)
  Result-cases (ok v) = inl (v, refl)

  module _ {κ} {W : Type κ} where
    infixl 10 ◌>>=◌
    -- The next call, unless there is an exception.
    abbrev pub ◌>>=◌ : Result V → (V → Result W) → Result W
    raised e >>= next = raised e
    ok v >>= next = next v

    -- If a chain of two calls returns, the first of them does, and what it returns leads on.
    pub >>=-eq-ok :
        (r : Result V) (next : V → Result W) {w : W}
        → (r >>= next) ≡ ok w
        → (v : V) × (r ≡ ok v) × (next v ≡ ok w)
    >>=-eq-ok (raised e) next h = cc
    >>=-eq-ok (ok v) next h = (v, refl, h)
