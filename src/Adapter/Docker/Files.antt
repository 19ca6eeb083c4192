-- ===== src/Adapter/Docker/Files.antt =====
-- What the Docker adapter asks of the machine, and tailFile and readTrimmed of
-- core/adapter/docker/runner.go.
use Prim.Native.String.{len, slice, find}
use text.Mathlib.TextPositions.{len-append, slice-append_right}
use text.Mathlib.TextLemmas.{append_assoc}
use text.Mathlib.TextFind.{find_cases}
use agentic_delegator.Prelude.{
  ℕ, suc, ◌+◌, ◌-◌, String, true, ◌≡◌, ap, ◌∙◌, ◌⊎◌, inl, inr, List, Option, none, some, ltb,
  if◌then◌else◌, arith, Bool-cases,
}
use agentic_delegator.Prelude.Int.{ℤ}
use agentic_delegator.Prelude.Text.{◌<>◌}
use agentic_delegator.Exec.{Exec, State, Result, ok, err, pure, attempt, ◌>>=◌}
use agentic_delegator.Go.Strings.{trim_space}

-- How `docker wait` under a deadline ends.
pub data Waited : Type 0 where
  exited wait_failed deadline_exceeded : Waited

-- The file system and the docker command: `docker` gives what is printed on standard output,
-- `docker_logs` sends both outputs to an open file.
pub record Host (W : Type 0) : Type 0 where
  pub mkdir_all : String → ℕ → Exec W (Unit {0})
  pub chmod : String → ℕ → Exec W (Unit {0})
  pub remove_all : String → Exec W (Unit {0})
  pub write_file : String → String → ℕ → Exec W (Unit {0})
  pub read_file : String → Exec W String
  pub open_log : String → Exec W (Unit {0})
  pub docker : List String → Exec W String
  pub docker_logs : String → String → Exec W (Unit {0})
  pub docker_wait : ℤ → String → State W Waited

abbrev pub log_tail_bytes : ℕ
log_tail_bytes = 8192

-- strings.IndexByte for a line feed
abbrev index_newline : String → Option ℕ
index_newline s = let i = find s "\n" in if ltb (len s) i then none else some i

after_newline : String → Option ℕ → String
after_newline b none = b
after_newline b (some i) = if ltb (i + 1) (len b) then slice b (i + 1) (len b) else b

-- tailFile, once the file is read
unfoldable pub tail : String → ℕ → String
unfolding after_newline
tail b max =
    if ltb max (len b)
    then (let window = slice b (len b - max) (len b) in after_newline window (index_newline window))
    else b

module _ {W : Type 0} (host : Host W) where
  abbrev or_empty : (String → String) → Result String → String
  or_empty f (ok b) = f b
  or_empty f (err e) = ""

  unfoldable pub read_trimmed : String → Exec W String
  read_trimmed path = do b ← attempt (host.read_file path); pure (or_empty trim_space b)

  unfoldable pub tail_file : String → ℕ → Exec W String
  tail_file path max = do b ← attempt (host.read_file path); pure (or_empty (λ s. tail s max) b)

slice_after_newline :
    (line rest : String)
    → slice (line <> ("\n" <> rest)) (len line + 1) (len (line <> ("\n" <> rest))) ≡ rest
slice_after_newline line rest =
    let whole : (line <> "\n") <> rest ≡ line <> ("\n" <> rest) = append_assoc line "\n" rest in
    rw (← whole) (
      ground (
        arith,
        slice-append_right (line <> "\n") rest,
        len-append (line <> "\n") rest,
        len-append line "\n",
      ))

after_newline_cases :
    (w : String)
    → ((line rest : String) × (w ≡ line <> ("\n" <> rest))
        × (ltb 0 (len rest) ≡ true)
        × (after_newline w (index_newline w) ≡ rest))
      ⊎ ((after_newline w (index_newline w) ≡ w)
          × ((find w "\n" ≡ suc (len w))
              ⊎ ((line rest : String) × (w ≡ line <> ("\n" <> rest)) × (len rest ≡ 0))))
unfolding after_newline
after_newline_cases w = elim (find_cases w "\n") [
  | inr miss ↦ inr (ground arith, inl miss)
  | inl (line, rest, parts, at) ↦
      let size : len w ≡ len line + (1 + len rest) =
        omega (arith, ap len parts, len-append line ("\n" <> rest), len-append "\n" rest) in
      let cut : slice w (len line + 1) (len w) ≡ rest =
        ap (λ v. slice v (len line + 1) (len v)) parts ∙ slice_after_newline line rest in
      elim (Bool-cases (ltb 0 (len rest))) [
        | inl some_left ↦ inl (line, rest, parts, some_left, ground arith)
        | inr none_left ↦ inr (ground arith, inr (line, rest, parts, ground arith))
      ]
]

-- Where the last `max` bytes begin between two characters: the tail of a longer file is what
-- follows the first line feed among them; where nothing follows it, or there is none, the tail is
-- all of them. A file of at most `max` bytes is its own tail.
pub tail_cases :
    (front window : String) (max : ℕ)
    → len window ≡ max
    → (ltb 0 (len front) ≡ true)
    → ((line rest : String) × (window ≡ line <> ("\n" <> rest))
        × (ltb 0 (len rest) ≡ true)
        × (tail (front <> window) max ≡ rest))
      ⊎ ((tail (front <> window) max ≡ window)
          × ((find window "\n" ≡ suc (len window))
              ⊎ ((line rest : String) × (window ≡ line <> ("\n" <> rest)) × (len rest ≡ 0))))
unfolding tail
tail_cases front window max size more =
    let long : ltb max (len (front <> window)) ≡ true = ground (arith, len-append front window) in
    let cut : slice (front <> window) (len (front <> window) - max) (len (front <> window))
        ≡ window =
      ground (arith, len-append front window, slice-append_right front window) in
    rw (long, cut) (after_newline_cases window)
