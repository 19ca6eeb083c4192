-- ===== src/Go/Listing.antt =====
-- sort.Slice with a later time first, and ORDER BY created_at DESC with a LIMIT. Both leave the order
-- of equal times open; here it is that of the list.
pub mod Mapped
use mathlib.Core.List.{Memᴰ}
use agentic_delegator.Prelude.{
  ℕ, zero, suc, ◌≤◌, ◌≡◌, ◌≢◌, ◌⊎◌, inl, inr, refl, ap, Bool, List, [], ◌∷◌, All, All-map, All-take,
  length-take-le, Option, none, some, sym, arith, ltb, length, take, select, Bool-cases,
  if◌then◌else◌,
}

-- No key twice.
abbrev pub Distinct : {K R : Type 0} → (R → K) → List R → Type 0
Distinct key [] = Unit
Distinct key (r ∷ rs) = All (λ x. key x ≢ key r) rs × Distinct key rs

-- The latest first.
abbrev pub Descending : {R : Type 0} → (R → ℕ) → List R → Type 0
Descending at [] = Unit
Descending at (r ∷ rs) = All (λ x. at x ≤ at r) rs × Descending at rs

-- This row is listed, or the list is full of rows that are as late or later.
abbrev pub ListedOrOlder : {R : Type 0} → (R → ℕ) → ℕ → List R → R → Type 0
ListedOrOlder at n rs r = Memᴰ r rs ⊎ ((length rs ≡ n) × All (λ x. at r ≤ at x) rs)

abbrev pub Within : {R : Type 0} → Option ℕ → List R → Type 0
Within none rs = Unit
Within (some n) rs = length rs ≤ n

-- What a LIMIT, if there is one, may leave out: rows that are not later than those listed.
abbrev pub Recent : {R : Type 0} → (R → ℕ) → Option ℕ → List R → R → Type 0
Recent at none rs r = Memᴰ r rs
Recent at (some n) rs r = ListedOrOlder at n rs r

-- Exactly the rows that pass, each once.
abbrev pub Enumerates : {K R : Type 0} → (R → K) → (K → Option R) → (R → Type 0) → List R → Type 0
Enumerates {K} {R} key rows P rs =
    All (λ r. (rows (key r) ≡ some r) × P r) rs
    × Distinct key rs
    × ((k : K) (r : R) → rows k ≡ some r → P r → Memᴰ r rs)

-- The latest rows that pass, each once and the latest first, and not more than the limit: what is
-- left out is not later than what is listed.
abbrev pub ListsNewest :
    {K R : Type 0} → (R → K) → (R → ℕ) → (K → Option R) → Option ℕ → (R → Type 0) → List R → Type 0
ListsNewest {K} {R} key at rows limit P rs =
    All (λ r. (rows (key r) ≡ some r) × P r) rs
    × Distinct key rs
    × Descending at rs
    × Within limit rs
    × ((k : K) (r : R) → rows k ≡ some r → P r → Recent at limit rs r)

abbrev pub first_of_limit : {R : Type 0} → Option ℕ → List R → List R
first_of_limit none rs = rs
first_of_limit (some n) rs = take n rs

module _ {R : Type 0} (at : R → ℕ) where
  unfoldable pub insert_newest : R → List R → List R
  insert_newest r [] = r ∷ []
  insert_newest r (x ∷ xs) = if ltb (at r) (at x) then x ∷ insert_newest r xs else r ∷ x ∷ xs

  unfoldable pub newest_first : List R → List R
  newest_first [] = []
  newest_first (r ∷ rs) = insert_newest r (newest_first rs)

  All-insert_newest :
      (P : R → Type 0) (r : R) (rs : List R) → P r → All P rs → All P (insert_newest r rs)
  unfolding insert_newest
  All-insert_newest P r [] p h = (p, tt)
  All-insert_newest P r (x ∷ xs) p h = elim (Bool-cases (ltb (at r) (at x))) [
    | inl later ↦ rw later (h.0, All-insert_newest P r xs p h.1)
    | inr here ↦ rw here (p, h)
  ]

  pub All-newest_first : (P : R → Type 0) (rs : List R) → All P rs → All P (newest_first rs)
  unfolding newest_first
  All-newest_first P [] h = tt
  All-newest_first P (r ∷ rs) h =
      All-insert_newest P r (newest_first rs) h.0 (All-newest_first P rs h.1)

  -- The first two change places, and the rest is what it was or more.
  second :
      (v r x : R) (xs more : List R)
      → (Memᴰ v (r ∷ xs) → Memᴰ v more)
      → Memᴰ v (r ∷ x ∷ xs)
      → Memᴰ v (x ∷ more)
  second v r x xs more go (Memᴰ.head e) = Memᴰ.tail (go (Memᴰ.head e))
  second v r x xs more go (Memᴰ.tail (Memᴰ.head e)) = Memᴰ.head e
  second v r x xs more go (Memᴰ.tail (Memᴰ.tail t)) = Memᴰ.tail (go (Memᴰ.tail t))

  mem-insert_newest : (v r : R) (rs : List R) → Memᴰ v (r ∷ rs) → Memᴰ v (insert_newest r rs)
  unfolding insert_newest
  mem-insert_newest v r [] m = m
  mem-insert_newest v r (x ∷ xs) m = elim (Bool-cases (ltb (at r) (at x))) [
    | inr here ↦ rw here m
    | inl later ↦ rw later (second v r x xs (insert_newest r xs) (mem-insert_newest v r xs) m)
  ]

  pub mem-newest_first : (v : R) (rs : List R) → Memᴰ v rs → Memᴰ v (newest_first rs)
  unfolding newest_first
  mem-newest_first v [] m = m
  mem-newest_first v (r ∷ rs) (Memᴰ.head e) = mem-insert_newest v r (newest_first rs) (Memᴰ.head e)
  mem-newest_first v (r ∷ rs) (Memᴰ.tail t) =
      mem-insert_newest v r (newest_first rs) (Memᴰ.tail (mem-newest_first v rs t))

  Descending-insert_newest :
      (r : R) (rs : List R) → Descending at rs → Descending at (insert_newest r rs)
  unfolding insert_newest
  Descending-insert_newest r [] h = (tt, tt)
  Descending-insert_newest r (x ∷ xs) h = elim (Bool-cases (ltb (at r) (at x))) [
    | inl later ↦ rw later (
      All-insert_newest (λ y. at y ≤ at x) r xs (ground arith) h.0,
      Descending-insert_newest r xs h.1,
    )
    | inr here ↦
        let up : at x ≤ at r = ground arith in
        rw here ((up, All-map _ _ xs (λ y below. ground (arith, below, up)) h.0), h)
  ]

  pub Descending-newest_first : (rs : List R) → Descending at (newest_first rs)
  unfolding newest_first
  Descending-newest_first [] = tt
  Descending-newest_first (r ∷ rs) =
      Descending-insert_newest r (newest_first rs) (Descending-newest_first rs)

  pub Descending-take : (n : ℕ) (rs : List R) → Descending at rs → Descending at (take n rs)
  Descending-take zero rs h = tt
  Descending-take (suc n) [] h = tt
  Descending-take (suc n) (r ∷ rs) h = (All-take _ n rs h.0, Descending-take n rs h.1)

  at_most : (v r : R) (rs : List R) → All (λ x. at x ≤ at r) rs → Memᴰ v rs → at v ≤ at r
  at_most v r [] h m = elim m [ ]
  at_most v r (x ∷ xs) h (Memᴰ.head e) = rw e h.0
  at_most v r (x ∷ xs) h (Memᴰ.tail t) = at_most v r xs h.1 t

  -- What a cut leaves out of a descending list is not later than what it keeps.
  pub mem-take :
      (n : ℕ) (rs : List R) (v : R)
      → Descending at rs
      → Memᴰ v rs
      → ListedOrOlder at n (take n rs) v
  mem-take zero rs v h m = inr (refl, tt)
  mem-take (suc n) [] v h m = elim m [ ]
  mem-take (suc n) (r ∷ rs) v h (Memᴰ.head e) = inl (Memᴰ.head e)
  mem-take (suc n) (r ∷ rs) v h (Memᴰ.tail t) = elim (mem-take n rs v h.1 t) [
    | inl listed ↦ inl (Memᴰ.tail listed)
    | inr (full, older) ↦ inr (ap suc full, (at_most v r rs h.0 t, older))
  ]

module _ {K R : Type 0} (key : R → K) where
  Distinct-insert_newest :
      (at : R → ℕ) (r : R) (rs : List R)
      → All (λ x. key x ≢ key r) rs
      → Distinct key rs
      → Distinct key (insert_newest at r rs)
  unfolding insert_newest
  Distinct-insert_newest at r [] other h = (tt, tt)
  Distinct-insert_newest at r (x ∷ xs) other h = elim (Bool-cases (ltb (at r) (at x))) [
    | inl later ↦ rw later (
      All-insert_newest at (λ y. key y ≢ key x) r xs (λ e. other.0 (sym e)) h.0,
      Distinct-insert_newest at r xs other.1 h.1,
    )
    | inr here ↦ rw here (other, h)
  ]

  pub Distinct-newest_first :
      (at : R → ℕ) (rs : List R) → Distinct key rs → Distinct key (newest_first at rs)
  unfolding newest_first
  Distinct-newest_first at [] h = tt
  Distinct-newest_first at (r ∷ rs) h =
      Distinct-insert_newest at r (newest_first at rs)
        (All-newest_first at (λ x. key x ≢ key r) rs h.0) (Distinct-newest_first at rs h.1)

  pub Distinct-take : (n : ℕ) (rs : List R) → Distinct key rs → Distinct key (take n rs)
  Distinct-take zero rs h = tt
  Distinct-take (suc n) [] h = tt
  Distinct-take (suc n) (r ∷ rs) h = (All-take _ n rs h.0, Distinct-take n rs h.1)

  All-selected : (P : R → Type 0) (p : R → Bool) (rs : List R) → All P rs → All P (select p rs)
  All-selected P p [] h = tt
  All-selected P p (r ∷ rs) h = elim (Bool-cases (p r)) [
    | inl kept ↦ rw kept (h.0, All-selected P p rs h.1)
    | inr dropped ↦ rw dropped (All-selected P p rs h.1)
  ]

  pub Distinct-select : (p : R → Bool) (rs : List R) → Distinct key rs → Distinct key (select p rs)
  Distinct-select p [] h = tt
  Distinct-select p (r ∷ rs) h = elim (Bool-cases (p r)) [
    | inl kept ↦ rw kept (All-selected _ p rs h.0, Distinct-select p rs h.1)
    | inr dropped ↦ rw dropped (Distinct-select p rs h.1)
  ]

-- The test may be said in another way.
pub Enumerates-iff :
    {K R : Type 0} (key : R → K) (rows : K → Option R) (P Q : R → Type 0)
    → ((r : R) → (P r → Q r) × (Q r → P r))
    → (rs : List R) → Enumerates key rows P rs
    → Enumerates key rows Q rs
Enumerates-iff key rows P Q same rs (sound, once, complete) = (
  All-map _ _ rs (λ r h. (h.0, (same r).0 h.1)) sound,
  once,
  λ k r there passes. complete k r there ((same r).1 passes),
)

-- Sorting and cutting a list of exactly the rows that pass gives the latest of them.
pub newest_first-ListsNewest :
    {K R : Type 0} (key : R → K) (at : R → ℕ) (rows : K → Option R) (P : R → Type 0)
    (limit : Option ℕ) (rs : List R)
    → Enumerates key rows P rs
    → ListsNewest key at rows limit P (first_of_limit limit (newest_first at rs))
newest_first-ListsNewest key at rows P none rs (sound, once, complete) = (
  All-newest_first at _ rs sound,
  Distinct-newest_first key at rs once,
  Descending-newest_first at rs,
  tt,
  λ k r there passes. mem-newest_first at r rs (complete k r there passes),
)
newest_first-ListsNewest key at rows P (some n) rs (sound, once, complete) =
    let sorted = newest_first at rs in
    (
      All-take _ n sorted (All-newest_first at _ rs sound),
      Distinct-take key n sorted (Distinct-newest_first key at rs once),
      Descending-take at n sorted (Descending-newest_first at rs),
      length-take-le n sorted,
      λ k r there passes.
          mem-take at n sorted r (Descending-newest_first at rs)
            (mem-newest_first at r rs (complete k r there passes)),
    )
