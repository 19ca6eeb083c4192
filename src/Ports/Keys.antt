-- ===== src/Ports/Keys.antt =====
-- core/usecase/ports/api_keys_repo.go
use mathlib.Core.List.{Memᴰ}
use agentic_delegator.Prelude.{
  ℕ, String, ◌≡◌, ◌≢◌, ◌⊎◌, Option, none, some, List, All, if◌then◌else◌,
}
use agentic_delegator.Prelude.Text.{◌==◌}
use agentic_delegator.Domain.Errors.{Error, opaque, sentinel, not_found}
use agentic_delegator.Go.Listing.{Enumerates}
use agentic_delegator.Domain.ApiKey.{ApiKey, record_used}
use agentic_delegator.Exec.{Exec, ok, err}

pub record ApiKeysRepository (W : Type 0) : Type 0 where
  pub create : ApiKey → Exec W (Unit {0})
  pub get_by_prefix : String → Exec W (List ApiKey)
  pub list_for_user : String → Exec W (List ApiKey)
  pub delete : String → String → Exec W (Unit {0})
  pub record_used : String → ℕ → Exec W (Unit {0})

-- What the interface promises of its lookup. `rows` gives the key of an ID.
pub record KeysReads {W : Type 0} (repo : ApiKeysRepository W) (rows : W → String → Option ApiKey)
    : Type 0 where
  -- the keys with that prefix, each of them
  pub get_by_prefix_lem :
      (prefix : String) (w : W)
      → ((ks : List ApiKey) × (repo.get_by_prefix prefix w ≡ (ok ks, w))
          × All (λ k. (rows w k.id ≡ some k) × (k.prefix ≡ prefix)) ks
          × ((id : String) (k : ApiKey) → rows w id ≡ some k → k.prefix ≡ prefix → Memᴰ k ks))
        ⊎ ((m : String) × (repo.get_by_prefix prefix w ≡ (err (opaque m), w)))

-- What it promises of writes too, errors of the store itself included.
pub record KeysContract {W : Type 0} (repo : ApiKeysRepository W)
    (rows : W → String → Option ApiKey) : Type 0 where
  -- a key is added where there was none, or nothing happens
  pub create_lem :
      (k : ApiKey) (w : W)
      → (((repo.create k w).0 ≡ ok tt)
          × (rows (repo.create k w).1 ≡ λ id. if k.id == id then some k else rows w id))
        ⊎ ((e : Error) × (repo.create k w ≡ (err e, w)))
  pub reads : KeysReads repo rows
  -- the key is removed iff it belongs to the user, and no other key is touched; otherwise
  -- ErrNotFound
  pub delete_lem :
      (id user : String) (w : W)
      → ((k : ApiKey) × (rows w id ≡ some k)
          × (k.user_id ≡ user)
          × ((repo.delete id user w).0 ≡ ok tt)
          × (rows (repo.delete id user w).1 ≡ λ i. if id == i then none else rows w i))
        ⊎ (((k : ApiKey) → rows w id ≡ some k → k.user_id ≢ user)
            × (repo.delete id user w ≡ (err (sentinel not_found), w)))
        ⊎ ((m : String) × (repo.delete id user w ≡ (err (opaque m), w)))
  -- the keys of that user, each once
  pub list_for_user_lem :
      (user : String) (w : W)
      → ((ks : List ApiKey) × (repo.list_for_user user w ≡ (ok ks, w))
          × Enumerates (λ k. k.id) (rows w) (λ k. k.user_id ≡ user) ks)
        ⊎ ((m : String) × (repo.list_for_user user w ≡ (err (opaque m), w)))
  -- the key has the time of its last use, and no other key is touched
  pub record_used_lem :
      (id : String) (at : ℕ) (w : W)
      → ((k : ApiKey) × (rows w id ≡ some k)
          × ((repo.record_used id at w).0 ≡ ok tt)
          × (rows (repo.record_used id at w).1 ≡ λ i.
              if id == i then some (record_used k at) else rows w i))
        ⊎ ((rows w id ≡ none) × (repo.record_used id at w ≡ (err (sentinel not_found), w)))
        ⊎ ((m : String) × (repo.record_used id at w ≡ (err (opaque m), w)))
