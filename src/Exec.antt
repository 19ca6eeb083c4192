-- ===== src/Exec.antt =====
-- Go functions that return `(T, error)` and act on a world `W`: what was written before an error
-- is returned stays written, so the world comes back beside the error too.
use agentic_delegator.Prelude.{◌≡◌, refl, ◌⊎◌, inl, inr}
use agentic_delegator.Domain.Errors.{Error}

pub data Result {ℓ} (A : Type ℓ) : Type ℓ where
  ok : A → Result A
  err : Error → Result A

-- A call that cannot fail.
abbrev pub State : Type 0 → Type 0 → Type 0
State W A = W → A × W

abbrev pub Exec : Type 0 → Type 0 → Type 0
Exec W A = W → Result A × W

module _ {W A : Type 0} where
  -- return v, nil
  abbrev pub pure : A → Exec W A
  pure a w = (ok a, w)

  -- return nil, err
  abbrev pub raise : Error → Exec W A
  raise e w = (err e, w)

  -- A pure function that may fail.
  abbrev pub lift : Result A → Exec W A
  lift r w = (r, w)

  abbrev pub call : State W A → Exec W A
  call m w = let (a, w') = m w in (ok a, w')

  -- v, err := f(), where the error is looked at by what follows.
  abbrev pub attempt : Exec W A → Exec W (Result A)
  attempt m w = let (r, w') = m w in (ok r, w')

module _ {W A B : Type 0} where
  abbrev pub continue : Result A → (A → Exec W B) → Exec W B
  continue (ok a) f w = f a w
  continue (err e) f w = (err e, w)

  infixl 10 ◌>>=◌ ◌>>◌
  -- if err != nil { return err }
  abbrev pub ◌>>=◌ : Exec W A → (A → Exec W B) → Exec W B
  ◌>>=◌ m f w = let (r, w') = m w in continue r f w'

  abbrev pub ◌>>◌ : Exec W A → Exec W B → Exec W B
  m >> n = m >>= λ _. n

-- _ = f()
abbrev pub ignore : {W A : Type 0} → Exec W A → Exec W (Unit {0})
ignore m w = (ok tt, (m w).1)

pub Result-cases :
    {A : Type 0} (r : Result A) → ((a : A) × (r ≡ ok a)) ⊎ ((e : Error) × (r ≡ err e))
Result-cases (ok a) = inl (a, refl)
Result-cases (err e) = inr (e, refl)
