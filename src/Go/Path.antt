-- ===== src/Go/Path.antt =====
-- path/filepath on a slash-separated system: `Join`, `Clean` and `Base`.
use Prim.Native.Char.{Char, code}
use Prim.Native.String.{len}
use text.Mathlib.TextPositions.{len-append}
use agentic_delegator.Prelude.{
  String, Bool, true, false, ◌≡◌, ◌≢◌, refl, arith, eq_iff, Bool-cases, inl, inr, ap, List, [], ◌∷◌,
  eqb, if◌then◌else◌,
}
use agentic_delegator.Prelude.Text.{◌<>◌, ◌==◌, is_empty}

-- Put a character in front of the first component.
extend : Char → List String → List String
extend c [] = String.◌∷◌ c String.[] ∷ []
extend c (s ∷ rest) = String.◌∷◌ c s ∷ rest

-- The components between slashes; there is always at least one.
unfoldable pub components : String → List String
unfolding extend
components String.[] = "" ∷ []
components (String.◌∷◌ c s) =
    let rest = components s in if eqb (code c) b'/' then "" ∷ rest else extend c rest

is_rooted : String → Bool
is_rooted String.[] = false
is_rooted (String.◌∷◌ c s) = eqb (code c) b'/'

-- `..` takes the last kept component away; at the root it stays there, and a relative path keeps
-- it. The stack has the last component first.
back : Bool → List String → List String
back rooted [] = if rooted then [] else ".." ∷ []
back rooted (top ∷ kept) = if top == ".." then ".." ∷ top ∷ kept else kept

reduce : Bool → List String → List String → List String
unfolding back
reduce rooted kept [] = kept
reduce rooted kept (s ∷ rest) =
    reduce rooted
      (if is_empty s
        then kept
        else if s == "."
        then kept
        else if s == ".."
        then back rooted kept
        else s ∷ kept)
      rest

-- The components of a stack, from its bottom, with slashes between.
spell : List String → String
spell [] = ""
spell (s ∷ []) = s
spell (s ∷ t ∷ rest) = spell (t ∷ rest) <> "/" <> s

unfoldable pub clean : String → String
unfolding components is_rooted reduce spell
clean s =
    let rooted = is_rooted s in
    let body = spell (reduce rooted [] (components s)) in
    if rooted then "/" <> body else if is_empty body then "." else body

-- filepath.Join(a, b): empty elements are left out, and the result is cleaned.
unfoldable pub join_path : String → String → String
unfolding clean
join_path a b =
    if is_empty a
    then (if is_empty b then "" else clean b)
    else (if is_empty b then clean a else clean (a <> "/" <> b))

-- The last of the components that are not empty.
last_named : List String → String → String
last_named [] found = found
last_named (s ∷ rest) found = if is_empty s then last_named rest found else last_named rest s

-- filepath.Base
unfoldable pub base : String → String
unfolding components last_named
base s = if is_empty s then "." else last_named (components s) "/"

base_examples : (base "/tmp/j_1.secrets" ≡ "j_1.secrets") × (base "a/b//" ≡ "b") × (base "//" ≡ "/")
unfolding base
base_examples = (refl, refl, refl)

join_path_examples :
    (join_path "/var/logs/" "j_1.log" ≡ "/var/logs/j_1.log")
    × (join_path "" "j_1.log" ≡ "j_1.log")
    × (join_path "/tmp/../x/./y" "a" ≡ "/x/y/a")
unfolding join_path
join_path_examples = (refl, refl, refl)

dot_ne_empty : ◌≢◌ {A = String} "." ""
dot_ne_empty = ground (arith, eq_iff "." "")

-- A cleaned path is not empty.
clean-ne_empty : (s : String) → clean s ≢ ""
unfolding clean
clean-ne_empty s h = elim (Bool-cases (is_rooted s)) [
  | inl rooted ↦
      let body : String = spell (reduce true [] (components s)) in
      let slash : "/" <> body ≡ "" = ground arith in
      absurd (omega (arith, ap len slash, len-append "/" body))
  | inr relative ↦
      let body : String = spell (reduce false [] (components s)) in
      elim (Bool-cases (is_empty body)) [
        | inl blank ↦ absurd (ground (arith, dot_ne_empty))
        | inr named ↦ absurd (ground (arith, eq_iff body ""))
      ]
]

pub join_path-ne_empty : (a b : String) → b ≢ "" → join_path a b ≢ ""
unfolding join_path
join_path-ne_empty a b given h = elim (Bool-cases (is_empty a)) [
  | inl no_dir ↦ clean-ne_empty b (ground (arith, eq_iff b ""))
  | inr dir ↦ clean-ne_empty (a <> "/" <> b) (ground (arith, eq_iff b ""))
]
