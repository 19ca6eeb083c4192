-- ===== src/Go/Hex.antt =====
-- encoding/hex. Bytes, and the ASCII characters that spell them, are lists of numbers.
use agentic_delegator.Prelude.{
  ℕ, ◌+◌, ◌-◌, ◌*◌, ◌/◌, ◌%◌, true, ◌&&◌, ◌≡◌, refl, ap, List, [], ◌∷◌, All, Option, none, some,
  ltb, leb, if◌then◌else◌, arith,
}

abbrev digit : ℕ → ℕ
digit n = if ltb n 10 then 48 + n else 87 + n

abbrev value : ℕ → Option ℕ
value c =
    if leb 48 c && leb c 57
    then some (c - 48)
    else if leb 97 c && leb c 102
    then some (c - 87)
    else if leb 65 c && leb c 70
    then some (c - 55)
    else none

abbrev join : Option ℕ → Option ℕ → Option (List ℕ) → Option (List ℕ)
join (some h) (some l) (some rest) = some ((h * 16 + l) ∷ rest)
join _ _ _ = none

-- hex.EncodeToString
unfoldable pub encode : List ℕ → List ℕ
encode [] = []
encode (b ∷ bs) = digit (b / 16) ∷ digit (b % 16) ∷ encode bs

-- hex.DecodeString, without the bytes that it gives beside an error
unfoldable pub decode : List ℕ → Option (List ℕ)
decode [] = some []
decode (h ∷ []) = none
decode (h ∷ l ∷ rest) = join (value h) (value l) (decode rest)

abbrev pub IsBytes : List ℕ → Type 0
IsBytes bs = All (λ b. ltb b 256 ≡ true) bs

value-digit : (n : ℕ) → ltb n 16 ≡ true → value (digit n) ≡ some n
value-digit n small = ground arith

pub decode-encode : (bs : List ℕ) → IsBytes bs → decode (encode bs) ≡ some bs
unfolding decode encode
decode-encode [] bytes = refl
decode-encode (b ∷ bs) bytes =
    let high = value-digit (b / 16) (ground (arith, bytes.0)) in
    let low = value-digit (b % 16) (ground (arith, bytes.0)) in
    rw (high, low, decode-encode bs bytes.1) (ap (λ (n : ℕ). some (n ∷ bs)) (omega arith))
