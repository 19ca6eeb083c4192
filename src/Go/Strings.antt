-- ===== src/Go/Strings.antt =====
-- strings.TrimSpace and TrimSuffix, the reading of a number by `%d` of fmt.Sscanf, and strconv.ParseInt.
use Prim.Native.Char.{Char, code}
use Prim.Native.String.{len, slice}
use agentic_delegator.Prelude.{
  ℕ, zero, suc, ◌+◌, ◌-◌, ◌*◌, String, Bool, true, ◌≡◌, refl, ◌&&◌, ◌||◌, Option, none, some, leb,
  eqb, if◌then◌else◌,
}
use agentic_delegator.Prelude.Int.{ℤ, pos, negsuc}
use agentic_delegator.Prelude.Text.{◌==◌, is_empty}

between : ℕ → ℕ → ℕ → Bool
between a b n = leb a n && leb n b

-- unicode.IsSpace
is_space : Char → Bool
unfolding between
is_space c =
    let n = code c in
    between 9 13 n
    || (eqb n 32
        || (eqb n 133
            || (eqb n 160
                || (eqb n 5760
                    || (between 8192 8202 n
                        || (eqb n 8232
                            || (eqb n 8233 || (eqb n 8239 || (eqb n 8287 || eqb n 12288)))))))))

trim_left : String → String
unfolding is_space
trim_left String.[] = ""
trim_left (String.◌∷◌ c s) = let rest = trim_left s in if is_space c then rest else String.◌∷◌ c s

trim_right : String → String
unfolding is_space
trim_right String.[] = ""
trim_right (String.◌∷◌ c s) =
    let rest = trim_right s in if is_empty rest && is_space c then "" else String.◌∷◌ c rest

unfoldable pub trim_space : String → String
unfolding trim_left trim_right
trim_space s = trim_left (trim_right s)

-- strings.TrimSuffix
unfoldable pub trim_suffix : String → String → String
trim_suffix s suffix =
    let n = len s - len suffix in
    if leb (len suffix) (len s) && slice s n (len s) == suffix then slice s 0 n else s

is_digit : Char → Bool
unfolding between
is_digit c = between 48 57 (code c)

-- The number at the front of a text, where digits stand there; `n` is what was read before.
number : ℕ → String → ℕ
unfolding is_digit
number n String.[] = n
number n (String.◌∷◌ c s) =
    let rest = number (n * 10 + (code c - 48)) s in if is_digit c then rest else n

digits : String → Option ℕ
unfolding number is_digit
digits String.[] = none
digits (String.◌∷◌ c s) = if is_digit c then some (number 0 (String.◌∷◌ c s)) else none

abbrev negated : ℕ → ℤ
negated zero = pos 0
negated (suc n) = negsuc n

-- Within the bounds of a 64-bit int; nothing is stored where the scan fails.
abbrev positive : Option ℕ → Option ℤ
positive none = none
positive (some n) = if leb n 9223372036854775807 then some (pos n) else none

abbrev negative : Option ℕ → Option ℤ
negative none = none
negative (some n) = if leb n 9223372036854775808 then some (negated n) else none

unfoldable pub scan_int : String → Option ℤ
unfolding digits
scan_int String.[] = none
scan_int (String.◌∷◌ c s) =
    if eqb (code c) b'-'
    then negative (digits s)
    else if eqb (code c) b'+'
    then positive (digits s)
    else positive (digits (String.◌∷◌ c s))

all_digits : String → Bool
unfolding is_digit
all_digits String.[] = true
all_digits (String.◌∷◌ c s) = is_digit c && all_digits s

unsigned : String → Option ℕ
unfolding all_digits digits
unsigned s = if all_digits s then digits s else none

-- strconv.ParseInt(s, 10, 64)
unfoldable pub parse_int : String → Option ℤ
unfolding unsigned
parse_int String.[] = none
parse_int (String.◌∷◌ c s) =
    if eqb (code c) b'-'
    then negative (unsigned s)
    else if eqb (code c) b'+'
    then positive (unsigned s)
    else positive (unsigned (String.◌∷◌ c s))

strings_examples :
    (trim_space " 137\n" ≡ "137")
    × (trim_space " a b " ≡ "a b")
    × (scan_int "137" ≡ some (pos 137))
    × (scan_int "-1" ≡ some (negsuc 0))
    × (scan_int "" ≡ none)
    × (trim_suffix "j_1.secrets" ".secrets" ≡ "j_1")
    × (trim_suffix "logs" ".secrets" ≡ "logs")
    × (parse_int "-12" ≡ some (negsuc 11))
    × (parse_int "12x" ≡ none)
unfolding trim_space trim_suffix scan_int parse_int
strings_examples = (refl, refl, refl, refl, refl, refl, refl, refl, refl)
