-- ===== src/Prelude/Decimal.antt =====
-- str(n) of a natural number. The number itself is fuel enough, for each round divides by ten.
use Prim.Native.Nat.{ℕ, zero, suc, ◌/◌, ◌%◌}
use Prim.Native.Char.{Char, code}
use Prim.Native.String.{String, ◌∷◌, ◌++◌}
use mathlib.Core.Path.{◌≡◌, refl}
use mathlib.Core.Bool.{Bool, true, ◌&&◌}
use native.Mathlib.Omega.{arith}
use ccp.Prelude.Tests.{ltb, leb, if◌then◌else◌}
use ccp.Prelude.Int.{ℤ, pos, negsuc}
use ccp.Prelude.Text.{all}

abbrev pub digit : ℕ → Char
digit zero = "0"
digit (suc zero) = "1"
digit (suc (suc zero)) = "2"
digit (suc (suc (suc zero))) = "3"
digit (suc (suc (suc (suc zero)))) = "4"
digit (suc (suc (suc (suc (suc zero))))) = "5"
digit (suc (suc (suc (suc (suc (suc zero)))))) = "6"
digit (suc (suc (suc (suc (suc (suc (suc zero))))))) = "7"
digit (suc (suc (suc (suc (suc (suc (suc (suc zero)))))))) = "8"
digit (suc (suc (suc (suc (suc (suc (suc (suc (suc n))))))))) = "9"

unfoldable pub show_onto : ℕ → ℕ → String → String
show_onto zero n rest = rest
show_onto (suc fuel) n rest =
    let more = show_onto fuel (n / 10) (digit (n % 10) ∷ rest) in
    if ltb n 10 then digit (n % 10) ∷ rest else more

unfoldable pub show : ℕ → String
unfolding show_onto
show n = show_onto (suc n) n ""

-- str(n) of an integer
abbrev pub show_code : ℤ → String
show_code (pos n) = show n
show_code (negsuc n) = "-" ++ show (suc n)

show_example : show 2048 ≡ "2048"
unfolding show
show_example = refl

abbrev pub is_digit : ℕ → Bool
is_digit c = leb b'0' c && leb c b'9'

digit-is_digit : (d : ℕ) → is_digit (code (digit d)) ≡ true
digit-is_digit zero = refl
digit-is_digit (suc zero) = refl
digit-is_digit (suc (suc zero)) = refl
digit-is_digit (suc (suc (suc zero))) = refl
digit-is_digit (suc (suc (suc (suc zero)))) = refl
digit-is_digit (suc (suc (suc (suc (suc zero))))) = refl
digit-is_digit (suc (suc (suc (suc (suc (suc zero)))))) = refl
digit-is_digit (suc (suc (suc (suc (suc (suc (suc zero))))))) = refl
digit-is_digit (suc (suc (suc (suc (suc (suc (suc (suc zero)))))))) = refl
digit-is_digit (suc (suc (suc (suc (suc (suc (suc (suc (suc n))))))))) = refl

show_onto-is_digit :
    (fuel n : ℕ) (rest : String)
    → all is_digit rest ≡ true
    → all is_digit (show_onto fuel n rest) ≡ true
unfolding show_onto
show_onto-is_digit zero n rest h = h
show_onto-is_digit (suc fuel) n rest h =
    ground
      (arith, digit-is_digit (n % 10), show_onto-is_digit fuel (n / 10) (digit (n % 10) ∷ rest))

-- A number is written in digits.
pub show-is_digit : (n : ℕ) → all is_digit (show n) ≡ true
unfolding show
show-is_digit n = show_onto-is_digit (suc n) n "" refl
