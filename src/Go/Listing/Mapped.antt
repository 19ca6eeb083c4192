-- ===== src/Go/Listing/Mapped.antt =====
-- What a listing of rows says of what the rows stand for, where keys and times are kept.
use agentic_delegator.Prelude.{
  ℕ, ◌≡◌, inl, inr, List, [], ◌∷◌, All, All-map, All-of_map, mem-map, length-map, map, Option, none,
  some, sym, ◌∙◌, arith,
}
use agentic_delegator.Go.Listing.{Distinct, Descending, Within, Recent, Enumerates, ListsNewest}

-- A view of the rows that keeps keys and times keeps what a list says.
module _ {K R S : Type 0} (f : R → S) (key : R → K) (its_key : S → K)
    (keyed : (r : R) → its_key (f r) ≡ key r) where
  Distinct-map : (rs : List R) → Distinct key rs → Distinct its_key (map f rs)
  Distinct-map [] h = tt
  Distinct-map (r ∷ rs) h = (
    All-of_map f _ rs (All-map _ _ rs (λ x other same. other (sym (keyed x) ∙ same ∙ keyed r)) h.0),
    Distinct-map rs h.1,
  )

  module _ (rows : K → Option R) (its_rows : K → Option S) (P : R → Type 0) (Q : S → Type 0)
      (read : (r : R)
        → rows (key r) ≡ some r
        → P r
        → (its_rows (its_key (f r)) ≡ some (f r)) × Q (f r))
      (back : (k : K) (s : S)
        → its_rows k ≡ some s
        → Q s
        → (r : R) × (rows k ≡ some r) × (f r ≡ s) × P r) where
    All-read :
        (rs : List R)
        → All (λ r. (rows (key r) ≡ some r) × P r) rs
        → All (λ s. (its_rows (its_key s) ≡ some s) × Q s) (map f rs)
    All-read rs sound = All-of_map f _ rs (All-map _ _ rs (λ r h. read r h.0 h.1) sound)

    pub Enumerates-map :
        (rs : List R) → Enumerates key rows P rs → Enumerates its_key its_rows Q (map f rs)
    Enumerates-map rs (sound, once, complete) = (
      All-read rs sound,
      Distinct-map rs once,
      λ k s there passes.
          let (r, row, is_s, fits) = back k s there passes in
          rw is_s at (mem-map f r rs (complete k r row fits)),
    )

    module _ (at : R → ℕ) (its_at : S → ℕ) (timed : (r : R) → its_at (f r) ≡ at r) where
      Descending-map : (rs : List R) → Descending at rs → Descending its_at (map f rs)
      Descending-map [] h = tt
      Descending-map (r ∷ rs) h = (
        All-of_map f _ rs (All-map _ _ rs (λ x below. ground (arith, timed x, timed r, below)) h.0),
        Descending-map rs h.1,
      )

      Within-map : (limit : Option ℕ) (rs : List R) → Within limit rs → Within limit (map f rs)
      Within-map none rs h = tt
      Within-map (some n) rs h = rw (length-map f rs) h

      Recent-map :
          (limit : Option ℕ) (rs : List R) (r : R)
          → Recent at limit rs r
          → Recent its_at limit (map f rs) (f r)
      Recent-map none rs r h = mem-map f r rs h
      Recent-map (some n) rs r (inl listed) = inl (mem-map f r rs listed)
      Recent-map (some n) rs r (inr (full, older)) = inr (
        length-map f rs ∙ full,
        All-of_map f _ rs (All-map _ _ rs (λ x up. ground (arith, timed x, timed r, up)) older),
      )

      pub ListsNewest-map :
          (limit : Option ℕ) (rs : List R)
          → ListsNewest key at rows limit P rs
          → ListsNewest its_key its_at its_rows limit Q (map f rs)
      ListsNewest-map limit rs (sound, once, down, few, recent) = (
        All-read rs sound,
        Distinct-map rs once,
        Descending-map rs down,
        Within-map limit rs few,
        λ k s there passes.
            let (r, row, is_s, fits) = back k s there passes in
            rw is_s at (Recent-map limit rs r (recent k r row fits)),
      )
