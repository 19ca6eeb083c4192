-- ===== src/Adapter/Postgres/Table.antt =====
-- What the repositories ask of a table with a key, and what SQL promises of it.
pub mod Memory
pub mod World
use mathlib.Core.List.{Memᴰ}
use agentic_delegator.Prelude.{
  ℕ, String, Bool, true, ◌≡◌, ◌⊎◌, List, Option, none, some, All, Eq, length, refl, sym, ap, ◌∙◌,
  fun_ext, arith, eqb, inl, inr, Bool-cases, if◌then◌else◌,
}
use agentic_delegator.Domain.Errors.{opaque, sentinel, not_found}
use agentic_delegator.Go.Listing.{Enumerates, ListsNewest}
use agentic_delegator.Exec.{Exec, ok, err, pure, raise}

-- `find` is a SELECT of one row by the key, with `none` for sql.ErrNoRows; `query` is a SELECT with
-- a WHERE clause, and `newest` one with ORDER BY a column DESC and a LIMIT, if there is one.
-- `upsert` is an INSERT with ON CONFLICT on the key DO UPDATE: its function makes the row from the
-- old row and the new one. `update` and `delete` give the number of rows affected.
pub record Table (W K R : Type 0) : Type 0 where
  pub insert : R → Exec W (Unit {0})
  pub upsert : (R → R → R) → R → Exec W (Unit {0})
  pub find : K → Exec W (Option R)
  pub query : (R → Bool) → Exec W (List R)
  pub newest : (R → ℕ) → (R → Bool) → Option ℕ → Exec W (List R)
  pub update : K → (R → R) → Exec W ℕ
  pub delete : K → (R → Bool) → Exec W ℕ
  pub count : (R → Bool) → Exec W ℕ

-- A statement fails with an error of the driver and then has no effect.
abbrev pub Fails : {W A : Type 0} → Exec W A → W → Type 0
Fails {W} {A} m w = (msg : String) × (m w ≡ (err (opaque msg), w))

abbrev pub merged : {R : Type 0} → (R → R → R) → Option R → R → R
merged f none r = r
merged f (some old) r = f old r

abbrev pub mapped : {A B : Type 0} → (A → B) → Option A → Option B
mapped f none = none
mapped f (some a) = some (f a)

-- The row, if it passes the test.
abbrev pub passing : {R : Type 0} → (R → Bool) → Option R → Option R
passing p none = none
passing p (some r) = if p r then some r else none

pub mapped-some :
    {A B : Type 0} (f : A → B) (o : Option A) (b : B)
    → mapped f o ≡ some b
    → (a : A) × (o ≡ some a) × (f a ≡ b)
mapped-some f none b h = absurd (ground arith)
mapped-some f (some a) b h = (a, refl, ground arith)

-- What a table of rows stands for changes where the table does.
pub mapped-changed :
    {A B K : Type 0} (f : A → B) (here : K → Bool) (new : Option A) (old rows : K → Option A)
    → (rows ≡ λ k. if here k then new else old k)
    → ◌≡◌ {A = K → Option B}
        (λ k. mapped f (rows k))
        (λ k. if here k then mapped f new else mapped f (old k))
mapped-changed f here new old rows h = fun_ext λ k.
    ap (λ t. mapped f (t k)) h
    ∙ elim (Bool-cases (here k)) [ inl hit ↦ rw hit refl | inr miss ↦ rw miss refl ]

pub passing-some :
    {R : Type 0} (p : R → Bool) (o : Option R) (r : R)
    → passing p o ≡ some r
    → (o ≡ some r) × (p r ≡ true)
passing-some p none r h = absurd (ground arith)
passing-some p (some s) r h = elim (Bool-cases (p s)) [
  | inl passes ↦ let same : s ≡ r = ground arith in (ap some same, ap p (sym same) ∙ passes)
  | inr fails ↦ absurd (ground arith)
]

-- if n == 0 { return domain.ErrNotFound }
abbrev pub some_affected : {W : Type 0} → ℕ → Exec W (Unit {0})
some_affected n = if eqb n 0 then raise (sentinel not_found) else pure tt

-- `rows` gives the row of a key. A row is read back as it was written: times are taken to be whole
-- microseconds, and JSON to be spelled as its column spells it.
pub record IsTable {W K R : Type 0} ⦃e : Eq K⦄ (t : Table W K R) (key : R → K)
    (rows : W → K → Option R) : Type 0 where
  pub keyed : (w : W) (k : K) (r : R) → rows w k ≡ some r → key r ≡ k
  pub insert_lem :
      (r : R) (w : W)
      → ((rows w (key r) ≡ none)
          × ((t.insert r w).0 ≡ ok tt)
          × (rows (t.insert r w).1 ≡ λ k. if e.beq (key r) k then some r else rows w k))
        ⊎ Fails (t.insert r) w
  pub upsert_lem :
      (f : R → R → R) (r : R) (w : W)
      → ((old : R) → key old ≡ key r → key (f old r) ≡ key r)
      → (((t.upsert f r w).0 ≡ ok tt)
          × (rows (t.upsert f r w).1 ≡ λ k.
              if e.beq (key r) k then some (merged f (rows w (key r)) r) else rows w k))
        ⊎ Fails (t.upsert f r) w
  pub find_lem : (k : K) (w : W) → (t.find k w ≡ (ok (rows w k), w)) ⊎ Fails (t.find k) w
  pub query_lem :
      (p : R → Bool) (w : W)
      → ((rs : List R) × (t.query p w ≡ (ok rs, w))
          × All (λ r. (rows w (key r) ≡ some r) × (p r ≡ true)) rs
          × ((k : K) (r : R) → rows w k ≡ some r → p r ≡ true → Memᴰ r rs))
        ⊎ Fails (t.query p) w
  pub newest_lem :
      (at : R → ℕ) (p : R → Bool) (limit : Option ℕ) (w : W)
      → ((rs : List R) × (t.newest at p limit w ≡ (ok rs, w))
          × ListsNewest key at (rows w) limit (λ r. p r ≡ true) rs)
        ⊎ Fails (t.newest at p limit) w
  pub update_lem :
      (k : K) (f : R → R) (w : W)
      → ((r : R) → rows w k ≡ some r → key (f r) ≡ k)
      → ((rows w k ≡ none) × (t.update k f w ≡ (ok 0, w)))
        ⊎ ((r : R) × (rows w k ≡ some r)
            × ((t.update k f w).0 ≡ ok 1)
            × (rows (t.update k f w).1 ≡ λ j. if e.beq k j then some (f r) else rows w j))
        ⊎ Fails (t.update k f) w
  pub delete_lem :
      (k : K) (p : R → Bool) (w : W)
      → ((passing p (rows w k) ≡ none) × (t.delete k p w ≡ (ok 0, w)))
        ⊎ ((r : R) × (passing p (rows w k) ≡ some r)
            × ((t.delete k p w).0 ≡ ok 1)
            × (rows (t.delete k p w).1 ≡ λ j. if e.beq k j then none else rows w j))
        ⊎ Fails (t.delete k p) w
  -- the number of exactly the rows that pass
  pub count_lem :
      (p : R → Bool) (w : W)
      → ((rs : List R) × (t.count p w ≡ (ok (length rs), w))
          × Enumerates key (rows w) (λ r. p r ≡ true) rs)
        ⊎ Fails (t.count p) w
