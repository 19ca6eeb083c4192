-- ===== src/Adapter/Postgres/Models.antt =====
-- core/adapter/postgres/models.go and auth_models.go. A column keeps what is written to it: times
-- that are stored are taken to be whole microseconds, as the columns hold them, so that rounding by
-- the database is not modelled.
use agentic_delegator.Prelude.{ℕ, String, List, Option, ◌≡◌, refl}
use agentic_delegator.Prelude.Int.{ℤ}
use agentic_delegator.Domain.Job.{Job}
use agentic_delegator.Domain.ApiKey.{ApiKey}
use agentic_delegator.Domain.Names.{
  status_text, status_of, source_text, source_of, status_of-text, source_of-text, status_text-of,
  source_text-of,
}

pub record UserRow : Type 0 where
  pub id : String
  pub display_name : String
  pub created_at : ℕ

pub record UserSecretRow : Type 0 where
  pub user_id : String
  pub anthropic_key_enc : String
  pub updated_at : ℕ

pub record ApiKeyRow : Type 0 where
  pub id : String
  pub user_id : String
  pub name : String
  pub prefix : String
  pub hash : String
  pub last_used_at : Option ℕ
  pub created_at : ℕ

pub record JobRow : Type 0 where
  pub id : String
  pub user_id : String
  pub status : String
  pub repo : String
  pub base_branch : String
  pub work_branch : String
  pub spec_source : String
  pub source_type : String
  pub model_override : String
  pub container_id : String
  pub pr_url : String
  pub error : String
  pub log_path : String
  pub created_at : ℕ
  pub started_at : Option ℕ
  pub finished_at : Option ℕ

pub record IdentityRow : Type 0 where
  pub user_id : String
  pub github_id : ℤ
  pub github_login : String
  pub email : String

-- `repos` is JSON, in the spelling of its JSONB column.
pub record InstallationRow : Type 0 where
  pub installation_id : ℤ
  pub user_id : String
  pub account_login : String
  pub repos : String
  pub created_at : ℕ

pub record SessionRow : Type 0 where
  pub id : List ℕ
  pub user_id : String
  pub expires_at : ℕ

unfoldable pub to_job : JobRow → Job
to_job r = record {
  id = r.id;
  user_id = r.user_id;
  status = status_of r.status;
  repo = r.repo;
  base_branch = r.base_branch;
  work_branch = r.work_branch;
  spec = record { source_type = source_of r.source_type; value = r.spec_source };
  model_override = r.model_override;
  container_id = r.container_id;
  pr_url = r.pr_url;
  error = r.error;
  log_path = r.log_path;
  created_at = r.created_at;
  started_at = r.started_at;
  finished_at = r.finished_at;
}

unfoldable pub from_job : Job → JobRow
from_job j = record {
  id = j.id;
  user_id = j.user_id;
  status = status_text j.status;
  repo = j.repo;
  base_branch = j.base_branch;
  work_branch = j.work_branch;
  spec_source = j.spec.value;
  source_type = source_text j.spec.source_type;
  model_override = j.model_override;
  container_id = j.container_id;
  pr_url = j.pr_url;
  error = j.error;
  log_path = j.log_path;
  created_at = j.created_at;
  started_at = j.started_at;
  finished_at = j.finished_at;
}

unfoldable pub to_api_key : ApiKeyRow → ApiKey
to_api_key r = record {
  id = r.id;
  user_id = r.user_id;
  name = r.name;
  prefix = r.prefix;
  hash = r.hash;
  last_used_at = r.last_used_at;
  created_at = r.created_at;
}

-- A job is read back from its row as it was written, statuses and sources that the program does
-- not know included.
pub to_job-from_job : (j : Job) → to_job (from_job j) ≡ j
unfolding to_job from_job
to_job-from_job j = rw (status_of-text j.status, source_of-text j.spec.source_type) refl

pub from_job-to_job : (r : JobRow) → from_job (to_job r) ≡ r
unfolding to_job from_job
from_job-to_job r = rw (status_text-of r.status, source_text-of r.source_type) refl
