-- ===== src/Go/Base32.antt =====
-- encoding/base32 without padding, in small letters.
use Prim.Native.String.{len}
use text.Mathlib.TextPositions.{len-append}
use agentic_delegator.Prelude.{
  ℕ, zero, suc, ◌+◌, ◌*◌, ◌/◌, ◌%◌, String, ◌≡◌, refl, ◌∙◌, List, [], ◌∷◌, All, length, arith,
}
use agentic_delegator.Prelude.Text.{◌<>◌}

alphabet : List String
alphabet =
    "a" ∷ "b" ∷ "c" ∷ "d" ∷ "e" ∷ "f" ∷ "g" ∷ "h" ∷ "i" ∷ "j" ∷ "k" ∷ "l" ∷ "m" ∷ "n" ∷ "o" ∷ "p"
    ∷ "q" ∷ "r" ∷ "s" ∷ "t" ∷ "u" ∷ "v" ∷ "w" ∷ "x" ∷ "y" ∷ "z" ∷ "2" ∷ "3" ∷ "4" ∷ "5" ∷ "6" ∷ "7"
    ∷ []

nth : List String → ℕ → String
nth [] n = "7"
nth (s ∷ ss) zero = s
nth (s ∷ ss) (suc n) = nth ss n

-- The letter of five bits.
letter : ℕ → String
unfolding alphabet nth
letter n = nth alphabet n

-- Five bytes make eight groups of five bits, and what is left over makes as many as its bits need.
groups : List ℕ → List ℕ
groups [] = []
groups (a ∷ []) = a / 8 ∷ a % 8 * 4 ∷ []
groups (a ∷ b ∷ []) = a / 8 ∷ (a % 8 * 4 + b / 64) ∷ b % 64 / 2 ∷ b % 2 * 16 ∷ []
groups (a ∷ b ∷ c ∷ []) =
    a / 8 ∷ (a % 8 * 4 + b / 64) ∷ b % 64 / 2 ∷ (b % 2 * 16 + c / 16) ∷ c % 16 * 2 ∷ []
groups (a ∷ b ∷ c ∷ d ∷ []) =
    a / 8
    ∷ (a % 8 * 4 + b / 64)
    ∷ b % 64 / 2
    ∷ (b % 2 * 16 + c / 16)
    ∷ (c % 16 * 2 + d / 128)
    ∷ d % 128 / 4
    ∷ d % 4 * 8
    ∷ []
groups (a ∷ b ∷ c ∷ d ∷ e ∷ rest) =
    a / 8
    ∷ (a % 8 * 4 + b / 64)
    ∷ b % 64 / 2
    ∷ (b % 2 * 16 + c / 16)
    ∷ (c % 16 * 2 + d / 128)
    ∷ d % 128 / 4
    ∷ (d % 4 * 8 + e / 32)
    ∷ e % 32
    ∷ groups rest

spell : List ℕ → String
unfolding letter
spell [] = ""
spell (n ∷ ns) = letter n <> spell ns

unfoldable pub encode : List ℕ → String
unfolding groups spell
encode bs = spell (groups bs)

encode_examples :
    (encode [] ≡ "")
    × (encode (102 ∷ []) ≡ "my")
    × (encode (102 ∷ 111 ∷ []) ≡ "mzxq")
    × (encode (102 ∷ 111 ∷ 111 ∷ []) ≡ "mzxw6")
    × (encode (102 ∷ 111 ∷ 111 ∷ 98 ∷ []) ≡ "mzxw6yq")
    × (encode (102 ∷ 111 ∷ 111 ∷ 98 ∷ 97 ∷ 114 ∷ []) ≡ "mzxw6ytboi")
unfolding encode
encode_examples = (refl, refl, refl, refl, refl, refl)

len-nth : (ss : List String) (n : ℕ) → All (λ s. len s ≡ 1) ss → len (nth ss n) ≡ 1
unfolding nth
len-nth [] n h = refl
len-nth (s ∷ ss) zero h = h.0
len-nth (s ∷ ss) (suc n) h = len-nth ss n h.1

len-letter : (n : ℕ) → len (letter n) ≡ 1
unfolding letter alphabet
len-letter n = len-nth alphabet n (ground arith)

len-spell : (ns : List ℕ) → len (spell ns) ≡ length ns
unfolding spell
len-spell [] = refl
len-spell (n ∷ ns) = omega (arith, len-append (letter n) (spell ns), len-letter n, len-spell ns)

length-groups : (bs : List ℕ) → length (groups bs) ≡ (8 * length bs + 4) / 5
unfolding groups
length-groups [] = refl
length-groups (a ∷ []) = refl
length-groups (a ∷ b ∷ []) = refl
length-groups (a ∷ b ∷ c ∷ []) = refl
length-groups (a ∷ b ∷ c ∷ d ∷ []) = refl
length-groups (a ∷ b ∷ c ∷ d ∷ e ∷ rest) = omega (arith, length-groups rest)

-- A letter for every five bits that are begun.
pub len-encode : (bs : List ℕ) → len (encode bs) ≡ (8 * length bs + 4) / 5
unfolding encode
len-encode bs = len-spell (groups bs) ∙ length-groups bs
