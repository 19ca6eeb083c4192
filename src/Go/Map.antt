-- ===== src/Go/Map.antt =====
-- A Go map whose keys are held in the values: the list of its values. A second entry of a
-- key is never seen: a lookup and a loop meet the first. Go leaves the order of a loop open; here
-- it is that of the list.
use mathlib.Core.List.{Memᴰ}
use agentic_delegator.Prelude.{
  string_eq, String, Bool, true, not, ◌≡◌, refl, inl, inr, Option, none, some, List, [], ◌∷◌, arith,
  select, All, All-map, All-select, mem-select, Bool-cases, Eq, beq_refl, if◌then◌else◌,
}
use agentic_delegator.Prelude.Text.{◌==◌}
use agentic_delegator.Go.Listing.{Distinct, Enumerates, Distinct-select}

All-tt : {V : Type 0} (xs : List V) → All (λ x. Unit {0}) xs
All-tt [] = tt
All-tt (x ∷ xs) = (tt, All-tt xs)

module _ {K V : Type 0} ⦃e : Eq K⦄ (key : V → K) where
  -- m[id]
  unfoldable pub lookup : K → List V → Option V
  lookup id [] = none
  lookup id (v ∷ m) = if e.beq (key v) id then some v else lookup id m

  -- m[key(v)] = v
  unfoldable pub insert : V → List V → List V
  insert v [] = v ∷ []
  insert v (u ∷ m) = if e.beq (key u) (key v) then v ∷ m else u ∷ insert v m

  -- delete(m, id)
  unfoldable pub delete : K → List V → List V
  delete id m = select (λ v. not (e.beq (key v) id)) m

  -- the values that `for _, v := range m` visits
  unfoldable pub values : List V → List V
  unfolding delete
  values [] = []
  values (v ∷ m) = v ∷ delete (key v) (values m)

  pub lookup-insert :
      (id : K) (v : V) (m : List V)
      → lookup id (insert v m) ≡ (if e.beq (key v) id then some v else lookup id m)
  unfolding lookup insert
  lookup-insert id v [] = refl
  lookup-insert id v (u ∷ m) = ground (
    arith,
    lookup-insert id v m,
    e.beq_iff (key u) (key v),
    e.beq_iff (key u) id,
    e.beq_iff (key v) id,
  )

  pub lookup-delete :
      (k id : K) (m : List V) → lookup id (delete k m) ≡ (if e.beq k id then none else lookup id m)
  unfolding lookup delete
  lookup-delete k id [] = ground arith
  lookup-delete k id (u ∷ m) =
      ground
        (arith, lookup-delete k id m, e.beq_iff (key u) k, e.beq_iff (key u) id, e.beq_iff k id)

  pub key-lookup : (id : K) (m : List V) (v : V) → lookup id m ≡ some v → key v ≡ id
  unfolding lookup
  key-lookup id [] v h = cc
  key-lookup id (u ∷ m) v h = elim (Bool-cases (e.beq (key u) id)) [
    | inl same ↦ ground (arith, e.beq_iff (key u) id)
    | inr other ↦ key-lookup id m v (ground arith)
  ]

  -- Each visited value is what a lookup of its key finds.
  pub values_sound : (m : List V) → All (λ v. lookup (key v) m ≡ some v) (values m)
  unfolding lookup values
  values_sound [] = tt
  values_sound (u ∷ m) = (
    rw (beq_refl (key u)) refl,
    All-map _ _ (delete (key u) (values m))
        (λ v h. ground (arith, h.0, h.1, e.beq_iff (key u) (key v)))
        (All-select (λ v. lookup (key v) m ≡ some v) (λ v. not (e.beq (key v) (key u))) (values m)
          (values_sound m)),
  )

  -- What a lookup finds is visited.
  pub values_complete : (id : K) (m : List V) (v : V) → lookup id m ≡ some v → Memᴰ v (values m)
  unfolding lookup values
  values_complete id [] v h = absurd (cc)
  values_complete id (u ∷ m) v h = elim (Bool-cases (e.beq (key u) id)) [
    | inl same ↦ Memᴰ.head (ground arith)
    | inr other ↦
        let at : key v ≡ id = key-lookup id m v (ground arith) in
        Memᴰ.tail (
          mem-select (λ x. not (e.beq (key x) (key u))) v (values m)
            (ground (arith, e.beq_iff (key u) id, e.beq_iff (key v) (key u)))
            (values_complete id m v (ground arith)))
  ]

-- A loop visits exactly what the map holds, each key once.
module _ {K V : Type 0} ⦃e : Eq K⦄ (key : V → K) where
  values-Distinct : (m : List V) → Distinct key (values key m)
  unfolding values delete
  values-Distinct [] = tt
  values-Distinct (v ∷ m) = (
    All-map _ _ (delete key (key v) (values key m))
        (λ x h same. ground (arith, h.1, (e.beq_iff (key x) (key v)).1 same))
        (All-select (λ x. Unit {0}) (λ x. not (e.beq (key x) (key v))) (values key m)
          (All-tt (values key m))),
    Distinct-select key (λ x. not (e.beq (key x) (key v))) (values key m) (values-Distinct m),
  )

  pub select-Enumerates :
      (p : V → Bool) (m : List V)
      → Enumerates key (λ k. lookup key k m) (λ v. p v ≡ true) (select p (values key m))
  select-Enumerates p m = (
    All-select _ p (values key m) (values_sound key m),
    Distinct-select key p (values key m) (values-Distinct m),
    λ k v there passes. mem-select p v (values key m) passes (values_complete key k m v there),
  )

-- A map with values of any type: the list of its entries.
abbrev pub Entries : Type 0 → Type 0
Entries V = List (String × V)

abbrev pub entry_key : {V : Type 0} → String × V → String
entry_key e = e.0

abbrev pub value_of : {V : Type 0} → Option (String × V) → Option V
value_of none = none
value_of (some e) = some e.1

-- m[k], m[k] = v and delete(m, k)
abbrev pub get : {V : Type 0} → String → Entries V → Option V
get k m = value_of (lookup entry_key k m)

abbrev pub set : {V : Type 0} → String → V → Entries V → Entries V
set k v m = insert entry_key (k, v) m

abbrev pub unset : {V : Type 0} → String → Entries V → Entries V
unset k m = delete entry_key k m

pub get-set :
    {V : Type 0} (k j : String) (v : V) (m : Entries V)
    → get j (set k v m) ≡ (if k == j then some v else get j m)
get-set k j v m = ground (arith, lookup-insert entry_key j (k, v) m)

pub get-unset :
    {V : Type 0} (k j : String) (m : Entries V)
    → get j (unset k m) ≡ (if k == j then none else get j m)
get-unset k j m = ground (arith, lookup-delete entry_key k j m)
