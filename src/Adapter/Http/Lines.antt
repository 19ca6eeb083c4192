-- ===== src/Adapter/Http/Lines.antt =====
-- readLogTail, splitLines and joinLines of core/adapter/http/status_page.go.
use Prim.Native.Char.{Char, code}
use Prim.Native.String.{len, slice}
use Prim.Native.String.append
use text.Mathlib.TextLemmas.{append_assoc, append-nil as text_append-nil, nil-append}
use text.Mathlib.TextEquality.{codes_equal}
use agentic_delegator.Prelude.{
  subst, ℕ, ◌-◌, ◌≤◌, String, true, false, ◌≡◌, refl, sym, ap, ◌∙◌, ◌⊎◌, inl, inr, List, [], ◌∷◌,
  ◌++◌, length, take, drop, length-drop, take-append-drop, ltb, eqb, if◌then◌else◌, Bool-cases,
  arith, eq_iff,
}
use agentic_delegator.Prelude.Text.{◌<>◌, is_empty}
use agentic_delegator.Exec.{Result, ok, err}

abbrev pub max_log_read_bytes : ℕ
max_log_read_bytes = 262144

-- string(r)
abbrev single : Char → String
single c = String.◌∷◌ c String.[]

-- The loop of splitLines, with the line that it has begun.
unfoldable pub split_from : String → String → List String
split_from cur String.[] = if is_empty cur then [] else cur ∷ []
split_from cur (String.◌∷◌ c s) =
    let next = split_from "" s in
    let on = split_from (cur <> single c) s in if eqb (code c) b'\n' then cur ∷ next else on

unfoldable pub split_lines : String → List String
split_lines s = split_from "" s

unfoldable pub join_lines : List String → String
join_lines [] = ""
join_lines (l ∷ []) = l
join_lines (l ∷ m ∷ ls) = l <> ("\n" <> join_lines (m ∷ ls))

abbrev pub last_lines : ℕ → List String → List String
last_lines max ls = if ltb max (length ls) then drop (length ls - max) ls else ls

-- The file is an error where it cannot be opened or read.
unfoldable pub read_log_tail : Result String → ℕ → String
read_log_tail (err e) max_lines = ""
read_log_tail (ok b) max_lines =
    let s =
      if ltb max_log_read_bytes (len b) then slice b (len b - max_log_read_bytes) (len b) else b in
    join_lines (last_lines max_lines (split_lines s))

single-append : (c : Char) (s : String) → single c <> s ≡ String.◌∷◌ c s
single-append c s = append.cons c String.[] s ∙ ap (λ x. String.◌∷◌ c x) (append.nil s)

line_feed : (c : Char) (s : String) → eqb (code c) b'\n' ≡ true → String.◌∷◌ c s ≡ "\n" <> s
line_feed c s h =
    let same : c ≡ "\n" = codes_equal c "\n" (ground arith) in
    sym (single-append c s) ∙ ap (λ d. single d <> s) same

-- The lines of a text, joined, are the text, less a last line feed.
abbrev Joined : List String → String → Type 0
Joined ls t = (join_lines ls ≡ t) ⊎ (join_lines ls <> "\n" ≡ t)

split_from-nil : (cur s : String) → split_from cur s ≡ [] → cur <> s ≡ ""
unfolding split_from
split_from-nil cur String.[] h = elim (Bool-cases (is_empty cur)) [
  | inl blank ↦ ap (λ x. x <> "") ((eq_iff cur "").0 blank)
  | inr full ↦ absurd (ground arith)
]
split_from-nil cur (String.◌∷◌ c s) h = elim (Bool-cases (eqb (code c) b'\n')) [
  | inl feed ↦ absurd (ground arith)
  | inr other ↦
      ap (λ x. cur <> x) (sym (single-append c s))
      ∙ sym (append_assoc cur (single c) s)
      ∙ split_from-nil (cur <> single c) s (ground arith)
]

-- A line, a line feed, and the lines of what follows.
join-after_feed :
    (cur : String) (next : List String) (s t : String)
    → Joined next s
    → (next ≡ [] → s ≡ "")
    → t ≡ "\n" <> s
    → Joined (cur ∷ next) (cur <> t)
unfolding join_lines
join-after_feed cur [] s t joined blank feed =
    inr (ap (λ x. cur <> ("\n" <> x)) (sym (blank refl)) ∙ ap (λ x. cur <> x) (sym feed))
join-after_feed cur (m ∷ ls) s t (inl joined) blank feed =
    inl (ap (λ x. cur <> ("\n" <> x)) joined ∙ ap (λ x. cur <> x) (sym feed))
join-after_feed cur (m ∷ ls) s t (inr joined) blank feed = inr (
    append_assoc cur ("\n" <> join_lines (m ∷ ls)) "\n"
    ∙ ap (λ x. cur <> x) (append_assoc "\n" (join_lines (m ∷ ls)) "\n")
    ∙ ap (λ x. cur <> ("\n" <> x)) joined
    ∙ ap (λ x. cur <> x) (sym feed))

join-split_from : (cur s : String) → Joined (split_from cur s) (cur <> s)
unfolding split_from join_lines
join-split_from cur String.[] = elim (Bool-cases (is_empty cur)) [
  | inl blank ↦ inl (rw blank (ap (λ x. x <> "") (sym ((eq_iff cur "").0 blank))))
  | inr full ↦ inl (rw full (sym (text_append-nil cur)))
]
join-split_from cur (String.◌∷◌ c s) = elim (Bool-cases (eqb (code c) b'\n')) [
  | inl feed ↦ rw feed (
      join-after_feed cur (split_from "" s) s (String.◌∷◌ c s)
        (subst (Joined (split_from "" s)) (nil-append s) (join-split_from "" s))
        (λ none. sym (nil-append s) ∙ split_from-nil "" s none) (line_feed c s feed))
  | inr other ↦ rw other (
      subst (Joined (split_from (cur <> single c) s))
        (append_assoc cur (single c) s ∙ ap (λ x. cur <> x) (single-append c s))
        (join-split_from (cur <> single c) s))
]

-- Splitting a text into lines and joining them gives the text back, less a last line feed where it
-- ends in one.
pub join_lines-split_lines :
    (s : String) → (join_lines (split_lines s) ≡ s) ⊎ (join_lines (split_lines s) <> "\n" ≡ s)
unfolding split_lines
join_lines-split_lines s = subst (Joined (split_from "" s)) (nil-append s) (join-split_from "" s)

-- What is shown of a log of at most 256 KiB: its last lines, all of them or `max`, joined; what is
-- left out stands before them.
pub read_log_tail-lines :
    (b : String) (max : ℕ)
    → ltb max_log_read_bytes (len b) ≡ false
    → (front shown : List String) × (split_lines b ≡ front ++ shown)
      × (read_log_tail (ok b) max ≡ join_lines shown)
      × (length shown ≤ max)
      × ((front ≡ []) ⊎ (length shown ≡ max))
unfolding read_log_tail
read_log_tail-lines b max small =
    let ls : List String = split_lines b in
    let cut : ℕ = length ls - max in
    elim (Bool-cases (ltb max (length ls))) [
      | inl long ↦ (
        take cut ls,
        drop cut ls,
        sym (take-append-drop cut ls),
        rw (small, long) refl,
        ground (arith, length-drop cut ls),
        inr (ground (arith, length-drop cut ls)),
      )
      | inr short ↦ ([], ls, refl, rw (small, short) refl, ground arith, inl refl)
    ]
