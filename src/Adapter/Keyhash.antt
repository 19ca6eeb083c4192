-- ===== src/Adapter/Keyhash.antt =====
-- core/adapter/keyhash/keyhash.go: keys are hashed when they are written.
use agentic_delegator.Prelude.{String, Bool}
use agentic_delegator.Domain.ApiKey.{ApiKey}
use agentic_delegator.Ports.Keys.{ApiKeysRepository}
use agentic_delegator.Exec.{Exec, ◌>>=◌}

-- golang.org/x/crypto/bcrypt: a salted hash, and whether a text matches a hash.
pub record Bcrypt (W : Type 0) : Type 0 where
  pub generate : String → Exec W String
  pub matches : String → String → Bool

module _ {W : Type 0} (bcrypt : Bcrypt W) (inner : ApiKeysRepository W) where
  unfoldable pub create : ApiKey → Exec W (Unit {0})
  create k = do digest ← bcrypt.generate k.hash; inner.create (record k { hash = digest })

  abbrev pub keyhash_repo : ApiKeysRepository W
  keyhash_repo = record {
    create = create;
    get_by_prefix = inner.get_by_prefix;
    list_for_user = inner.list_for_user;
    delete = inner.delete;
    record_used = inner.record_used;
  }
