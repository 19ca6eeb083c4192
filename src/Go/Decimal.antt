-- ===== src/Go/Decimal.antt =====
-- `%d` of fmt for numbers that are not negative, and `%016d`.
use agentic_delegator.Prelude.{
  ℕ, zero, suc, ◌+◌, ◌-◌, ◌/◌, ◌%◌, String, ◌≡◌, refl, ltb, if◌then◌else◌,
}
use agentic_delegator.Prelude.Text.{◌<>◌}

digit : ℕ → String
digit zero = "0"
digit (suc zero) = "1"
digit (suc (suc zero)) = "2"
digit (suc (suc (suc zero))) = "3"
digit (suc (suc (suc (suc zero)))) = "4"
digit (suc (suc (suc (suc (suc zero))))) = "5"
digit (suc (suc (suc (suc (suc (suc zero)))))) = "6"
digit (suc (suc (suc (suc (suc (suc (suc zero))))))) = "7"
digit (suc (suc (suc (suc (suc (suc (suc (suc zero)))))))) = "8"
digit _ = "9"

-- The fuel is more than the number of digits.
digits : ℕ → ℕ → String
unfolding digit
digits zero n = ""
digits (suc fuel) n =
    let rest = digits fuel (n / 10) in if ltb n 10 then digit n else rest <> digit (n % 10)

unfoldable pub decimal : ℕ → String
unfolding digits
decimal n = digits (suc n) n

zeros : ℕ → String
zeros zero = ""
zeros (suc n) = "0" <> zeros n

width : ℕ → ℕ → ℕ
width zero n = 0
width (suc fuel) n = let rest = width fuel (n / 10) in if ltb n 10 then 1 else rest + 1

-- At least `size` digits, with zeros in front.
unfoldable pub padded : ℕ → ℕ → String
unfolding decimal zeros width
padded size n = zeros (size - width (suc n) n) <> decimal n

decimal_examples : (decimal 0 ≡ "0") × (decimal 2048 ≡ "2048") × (padded 4 37 ≡ "0037")
unfolding padded decimal
decimal_examples = (refl, refl, refl)
