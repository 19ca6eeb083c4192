-- ===== src/Domain/Names.antt =====
-- The conversions between the string types of core/domain and texts, as core/adapter/postgres/models.go
-- makes them.
use agentic_delegator.Prelude.{
  String, Bool, true, false, ◌≡◌, refl, arith, subst, ap, eq_iff, if◌then◌else◌,
}
use agentic_delegator.Prelude.Text.{◌==◌}
use agentic_delegator.Domain.Job.{
  JobStatus, queued, running, succeeded, failed, cancelled, unknown, is_status,
}
use agentic_delegator.Domain.Spec
use agentic_delegator.Domain.Spec.{SourceType, inline, path, url, is_source_type}

-- string(j.Status)
unfoldable pub status_text : JobStatus → String
status_text queued = "queued"
status_text running = "running"
status_text succeeded = "succeeded"
status_text failed = "failed"
status_text cancelled = "cancelled"
status_text (unknown s other) = s

named_status : String → JobStatus
named_status s =
    if s == "queued"
    then queued
    else if s == "running"
    then running
    else if s == "succeeded"
    then succeeded
    else if s == "failed"
    then failed
    else cancelled

classify_status : (s : String) (known : Bool) → is_status s ≡ known → JobStatus
unfolding named_status
classify_status s true h = named_status s
classify_status s false h = unknown s h

-- domain.JobStatus(s)
unfoldable pub status_of : String → JobStatus
unfolding classify_status
status_of s = classify_status s (is_status s) refl

-- string(j.Spec.Type)
unfoldable pub source_text : SourceType → String
source_text inline = "inline"
source_text path = "path"
source_text url = "url"
source_text (Spec.unknown s other) = s

named_source : String → SourceType
named_source s = if s == "inline" then inline else if s == "path" then path else url

classify_source : (s : String) (known : Bool) → is_source_type s ≡ known → SourceType
unfolding named_source
classify_source s true h = named_source s
classify_source s false h = Spec.unknown s h

-- domain.SourceType(s)
unfoldable pub source_of : String → SourceType
unfolding classify_source
source_of s = classify_source s (is_source_type s) refl

false-prop : (b : Bool) → IsProp (b ≡ false)
false-prop b = hlevel

-- An unknown text is one value, however it is shown to be unknown.
pub unknown-path :
    (s t : String) (p : is_status s ≡ false) (q : is_status t ≡ false)
    → s ≡ t
    → unknown s p ≡ unknown t q
unknown-path s t p q same =
    subst (λ x. (r : is_status x ≡ false) → unknown s p ≡ unknown x r) same
      (λ r. ap (unknown s) (false-prop (is_status s) p r)) q

classify_status-unknown :
    (s : String) (b : Bool) (h : is_status s ≡ b) (p : is_status s ≡ false)
    → classify_status s b h ≡ unknown s p
unfolding classify_status
classify_status-unknown s true h p = absurd (ground arith)
classify_status-unknown s false h p = ap (unknown s) (false-prop (is_status s) h p)

classify_source-unknown :
    (s : String) (b : Bool) (h : is_source_type s ≡ b) (p : is_source_type s ≡ false)
    → classify_source s b h ≡ Spec.unknown s p
unfolding classify_source
classify_source-unknown s true h p = absurd (ground arith)
classify_source-unknown s false h p = ap (Spec.unknown s) (false-prop (is_source_type s) h p)

pub status_of-text : (t : JobStatus) → status_of (status_text t) ≡ t
unfolding status_of status_text
status_of-text queued = refl
status_of-text running = refl
status_of-text succeeded = refl
status_of-text failed = refl
status_of-text cancelled = refl
status_of-text (unknown s p) = classify_status-unknown s (is_status s) refl p

pub source_of-text : (t : SourceType) → source_of (source_text t) ≡ t
unfolding source_of source_text
source_of-text inline = refl
source_of-text path = refl
source_of-text url = refl
source_of-text (Spec.unknown s p) = classify_source-unknown s (is_source_type s) refl p

text-classify_status :
    (s : String) (b : Bool) (h : is_status s ≡ b) → status_text (classify_status s b h) ≡ s
unfolding classify_status status_text named_status
text-classify_status s false h = refl
text-classify_status s true h = ground (
  arith,
  eq_iff s "queued",
  eq_iff s "running",
  eq_iff s "succeeded",
  eq_iff s "failed",
  eq_iff s "cancelled",
)

pub status_text-of : (s : String) → status_text (status_of s) ≡ s
unfolding status_of
status_text-of s = text-classify_status s (is_status s) refl

text-classify_source :
    (s : String) (b : Bool) (h : is_source_type s ≡ b) → source_text (classify_source s b h) ≡ s
unfolding classify_source source_text named_source
text-classify_source s false h = refl
text-classify_source s true h = ground (arith, eq_iff s "inline", eq_iff s "path", eq_iff s "url")

pub source_text-of : (s : String) → source_text (source_of s) ≡ s
unfolding source_of
source_text-of s = text-classify_source s (is_source_type s) refl
