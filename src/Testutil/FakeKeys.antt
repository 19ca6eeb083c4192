-- ===== src/Testutil/FakeKeys.antt =====
-- core/testutil/fake_api_keys_repo.go and core/testutil/fake_secrets_repo.go
use agentic_delegator.Prelude.{
  string_eq, refl, ap, ◌∙◌, true, fun_ext, inl, inr, arith, ◌≡◌, eq_iff, All-map, All-select,
  mem-select, Option-cases, Bool-cases, ℕ, String, not, Option, none, some, List, select,
  if◌then◌else◌,
}
use agentic_delegator.Prelude.Text.{◌==◌}
use agentic_delegator.Domain.Errors.{sentinel, not_found, conflict}
use agentic_delegator.Domain.ApiKey.{ApiKey, record_used}
use agentic_delegator.Domain.Credentials.{AnthropicCreds}
use agentic_delegator.Ports.Keys.{ApiKeysRepository, KeysContract}
use agentic_delegator.Ports.Secrets.{SecretsRepository, SecretsContract}
use agentic_delegator.Go.Map
use agentic_delegator.Go.Listing.{Enumerates-iff}
use agentic_delegator.Go.Map.{Entries}
use agentic_delegator.Exec.{Exec, pure, raise}

abbrev pub FakeApiKeysRepo : Type 0
FakeApiKeysRepo = List ApiKey

abbrev pub key_id : ApiKey → String
key_id k = k.id

create_in : Option ApiKey → ApiKey → Exec FakeApiKeysRepo (Unit {0})
create_in (some old) k m = raise (sentinel conflict) m
create_in none k m = pure tt (Map.insert key_id k m)

unfoldable pub create : ApiKey → Exec FakeApiKeysRepo (Unit {0})
unfolding create_in
create k m = create_in (Map.lookup key_id k.id m) k m

unfoldable pub get_by_prefix : String → Exec FakeApiKeysRepo (List ApiKey)
get_by_prefix prefix m = pure (select (λ k. k.prefix == prefix) (Map.values key_id m)) m

unfoldable pub list_for_user : String → Exec FakeApiKeysRepo (List ApiKey)
list_for_user user m = pure (select (λ k. k.user_id == user) (Map.values key_id m)) m

delete_in : Option ApiKey → String → String → Exec FakeApiKeysRepo (Unit {0})
delete_in none id user m = raise (sentinel not_found) m
delete_in (some k) id user m =
    if not (k.user_id == user)
    then raise (sentinel not_found) m
    else pure tt (Map.delete key_id id m)

unfoldable pub delete : String → String → Exec FakeApiKeysRepo (Unit {0})
unfolding delete_in
delete id user m = delete_in (Map.lookup key_id id m) id user m

record_used_in : Option ApiKey → ℕ → Exec FakeApiKeysRepo (Unit {0})
record_used_in none at m = raise (sentinel not_found) m
record_used_in (some k) at m = pure tt (Map.insert key_id (record_used k at) m)

unfoldable pub note_used : String → ℕ → Exec FakeApiKeysRepo (Unit {0})
unfolding record_used_in record_used
note_used id at m = record_used_in (Map.lookup key_id id m) at m

abbrev pub fake_api_keys : ApiKeysRepository FakeApiKeysRepo
fake_api_keys = record {
  create = create;
  get_by_prefix = get_by_prefix;
  list_for_user = list_for_user;
  delete = delete;
  record_used = note_used;
}

abbrev pub FakeSecretsRepo : Type 0
FakeSecretsRepo = Entries AnthropicCreds

unfoldable pub set_creds : String → AnthropicCreds → Exec FakeSecretsRepo (Unit {0})
set_creds user c m = pure tt (Map.set user c m)

creds_in : Option AnthropicCreds → Exec FakeSecretsRepo AnthropicCreds
creds_in none = raise (sentinel not_found)
creds_in (some c) = pure c

unfoldable pub get_creds : String → Exec FakeSecretsRepo AnthropicCreds
unfolding creds_in
get_creds user m = creds_in (Map.get user m) m

unset_in : Option AnthropicCreds → String → Exec FakeSecretsRepo (Unit {0})
unset_in none user m = raise (sentinel not_found) m
unset_in (some c) user m = pure tt (Map.unset user m)

unfoldable pub delete_creds : String → Exec FakeSecretsRepo (Unit {0})
unfolding unset_in
delete_creds user m = unset_in (Map.get user m) user m

abbrev pub fake_secrets : SecretsRepository FakeSecretsRepo
fake_secrets = record {
  set_anthropic_creds = set_creds;
  get_anthropic_creds = get_creds;
  delete_anthropic_creds = delete_creds;
}

abbrev pub secret_of : FakeSecretsRepo → String → Option AnthropicCreds
secret_of m user = Map.get user m

-- The in-memory secrets repository keeps the contract of the secrets port.
pub fake_secrets-SecretsContract : SecretsContract fake_secrets secret_of
unfolding set_creds get_creds
fake_secrets-SecretsContract = record {
  set_lem = λ user c m. inl (refl, fun_ext λ u. Map.get-set user u c m);
  get_lem = λ user m. inl (ground arith);
}

abbrev pub key_rows : FakeApiKeysRepo → String → Option ApiKey
key_rows m id = Map.lookup key_id id m

-- The in-memory keys repository keeps the contract of the keys port: only the owner deletes a key.
pub fake_api_keys-KeysContract : KeysContract fake_api_keys key_rows
unfolding create get_by_prefix list_for_user delete note_used record_used
fake_api_keys-KeysContract = record {
  create_lem = λ k m. elim (Option-cases (Map.lookup key_id k.id m)) [
    | inl absent ↦ inl (rw absent refl, rw absent (fun_ext λ id. Map.lookup-insert key_id id k m))
    | inr (old, there) ↦ inr (sentinel conflict, rw there refl)
  ];
  reads = record {
    get_by_prefix_lem = λ prefix m. inl (
      select (λ k. k.prefix == prefix) (Map.values key_id m),
      refl,
      All-map _ _ (select (λ k. k.prefix == prefix) (Map.values key_id m))
          (λ k h. (h.0, (eq_iff k.prefix prefix).0 h.1))
          (All-select (λ k. key_rows m k.id ≡ some k) (λ k. k.prefix == prefix)
            (Map.values key_id m) (Map.values_sound key_id m)),
      λ id k there at.
          mem-select (λ j. j.prefix == prefix) k (Map.values key_id m)
            ((eq_iff k.prefix prefix).1 at) (Map.values_complete key_id id m k there),
    );
  };
  delete_lem = λ id user m. elim (Option-cases (Map.lookup key_id id m)) [
    | inl absent ↦ inr (inl (λ k there. absurd (ground (arith, absent, there)), rw absent refl))
    | inr (k, there) ↦ elim (Bool-cases (k.user_id == user)) [
      | inl mine ↦ inl (
        k,
        there,
        (eq_iff k.user_id user).0 mine,
        rw (there, mine) refl,
        rw (there, mine) (fun_ext λ i. Map.lookup-delete key_id id i m),
      )
      | inr foreign ↦ inr (
          inl (
            λ j is_j mine.
                let same : k ≡ j = ground (arith, there, is_j) in
                ground (
                  arith,
                  foreign,
                  (eq_iff k.user_id user).1 (ap (λ (x : ApiKey). x.user_id) same ∙ mine),
                ),
            rw (there, foreign) refl,
          ))
    ]
  ];
  list_for_user_lem = λ user m. inl (
    select (λ k. k.user_id == user) (Map.values key_id m),
    refl,
    Enumerates-iff key_id (key_rows m) (λ k. (k.user_id == user) ≡ true) (λ k. k.user_id ≡ user)
        (λ k. eq_iff k.user_id user) (select (λ k. k.user_id == user) (Map.values key_id m))
        (Map.select-Enumerates key_id (λ k. k.user_id == user) m),
  );
  record_used_lem = λ id at m. elim (Option-cases (Map.lookup key_id id m)) [
    | inl absent ↦ inr (inl (absent, rw absent refl))
    | inr (k, there) ↦ inl (
      k,
      there,
      rw there refl,
      rw there (
          fun_ext λ i.
            Map.lookup-insert key_id i (record_used k at) m
            ∙ ap (λ x. if x == i then some (record_used k at) else Map.lookup key_id i m)
                (Map.key-lookup key_id id m k there)),
    )
  ];
}
