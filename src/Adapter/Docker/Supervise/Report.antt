-- ===== src/Adapter/Docker/Supervise/Report.antt =====
-- What the supervisor reports to its callback.
use text.Mathlib.TextPositions.{len-append, len_utf8-pos}
use Prim.Native.String.{len}
use Prim.Native.String.len
use agentic_delegator.Prelude.{
  [], ℕ, String, Bool, true, false, ◌≡◌, ◌≢◌, refl, ap, ◌∙◌, ◌⊎◌, inl, inr, ltb, some, ◌∷◌, arith,
  eq_iff, Bool-cases,
}
use agentic_delegator.Prelude.Int.{ℤ, pos, is_zero}
use agentic_delegator.Prelude.Text.{◌<>◌, is_empty}
use agentic_delegator.Domain.Errors.{Error}
use agentic_delegator.Domain.Job.{Job, mark_succeeded}
use agentic_delegator.Exec.{Exec, Result, ok, err, Result-cases}
use agentic_delegator.Ports.Runner.{RunnerResult}
use agentic_delegator.Usecase.Completion.{conclude}
use agentic_delegator.Adapter.Docker.{Config}
use agentic_delegator.Adapter.Docker.Args.{show_int}
use agentic_delegator.Adapter.Docker.Files.{
  Host, Waited, exited, wait_failed, deadline_exceeded, read_trimmed, tail_file, log_tail_bytes,
}
use agentic_delegator.Go.Path.{join_path}
use agentic_delegator.Go.Strings.{scan_int, trim_space}
use agentic_delegator.Adapter.Docker.Supervise.{
  is_deadline, failure_text, exit_code_of, or_zero, wait_or_kill, save_logs, exit_code, clear_away,
  collect, supervise,
}

len_full : (a : String) → is_empty a ≡ false → ltb 0 (len a) ≡ true
len_full String.[] full = absurd (ground arith)
len_full (String.◌∷◌ c s) full = ground (arith, len.cons c s, (len_utf8-pos c).1)

text_ne_empty : (a b : String) → is_empty a ≡ false → is_empty (a <> b) ≡ false
text_ne_empty a b full = elim (Bool-cases (is_empty (a <> b))) [
  | inr full ↦ full
  | inl blank ↦ absurd (
      ground (
        arith,
        eq_iff (a <> b) "",
        eq_iff a "",
        ap len ((eq_iff (a <> b) "").0 blank),
        len-append a b,
        len_full a full,
      ))
]

-- The text of the failure is empty exactly where the exit code is zero.
failure_text-iff_exit_code :
    (spell : ℤ → String) (cfg : Config) (timed_out : Bool) (answer : Result String)
    → let code = exit_code_of timed_out answer in
      is_empty (failure_text spell cfg timed_out code) ≡ is_zero code
unfolding failure_text exit_code_of
failure_text-iff_exit_code spell cfg true answer =
    text_ne_empty "runner exceeded max duration " (spell cfg.max_job_duration) refl
failure_text-iff_exit_code spell cfg false answer =
    elim (Bool-cases (is_zero (exit_code_of false answer))) [
      | inl zero ↦ rw zero refl
      | inr nonzero ↦
          rw nonzero
            (text_ne_empty "runner exited with code " (show_int (exit_code_of false answer)) refl)
    ]

Waited-cases : (x : Waited) → (x ≡ deadline_exceeded) ⊎ (is_deadline x ≡ false)
Waited-cases exited = inr refl
Waited-cases wait_failed = inr refl
Waited-cases deadline_exceeded = inl refl

module _ {W : Type 0} (host : Host W) where
  -- What `docker inspect` answers, where it is asked.
  abbrev pub answer_of : Bool → String → W → Result String
  answer_of true c w = ok ""
  answer_of false c w = (host.docker ("inspect" ∷ "--format" ∷ "{{.State.ExitCode}}" ∷ c ∷ []) w).0

  exit_code-ok :
      (timed_out : Bool) (c : String) (w : W)
      → (exit_code host timed_out c w).0 ≡ ok (exit_code_of timed_out (answer_of timed_out c w))
  unfolding exit_code
  exit_code-ok true c w = refl
  exit_code-ok false c w = refl

  wait_or_kill-ok :
      (cfg : Config) (c : String) (w : W)
      → (timed_out : Bool) × ((wait_or_kill host cfg c w).0 ≡ ok timed_out)
  unfolding wait_or_kill
  wait_or_kill-ok cfg c w = elim (Waited-cases (host.docker_wait cfg.max_job_duration c w).0) [
    | inl late ↦ (true, ground arith)
    | inr early ↦ (false, ground arith)
  ]

  save_logs-ok : (c path : String) (w : W) → (save_logs host c path w).0 ≡ ok tt
  unfolding save_logs
  save_logs-ok c path w = elim (Result-cases (host.open_log path w).0) [
    | inl (x, opened) ↦ ground arith
    | inr (e, failed) ↦ ground arith
  ]

  read_trimmed-ok : (path : String) (w : W) → (s : String) × ((read_trimmed host path w).0 ≡ ok s)
  unfolding read_trimmed
  read_trimmed-ok path w = (_, refl)

  tail_file-ok :
      (path : String) (max : ℕ) (w : W) → (s : String) × ((tail_file host path max w).0 ≡ ok s)
  unfolding tail_file
  tail_file-ok path max w = (_, refl)

module _ {W : Type 0} (host : Host W) (spell : ℤ → String) where
  -- What `collect` reports, and the answer that its exit code was read from.
  pub record IsReport (cfg : Config) (c log_path job_id : String) (w : W) (res : RunnerResult)
      : Type 0 where
    pub timed_out : Bool
    pub waited : (wait_or_kill host cfg c w).0 ≡ ok timed_out
    pub about : res.job_id ≡ job_id
    pub answer : Result String
    pub asked :
        answer
        ≡ answer_of host timed_out c (save_logs host c log_path (wait_or_kill host cfg c w).1).1
    pub code : res.exit_code ≡ exit_code_of timed_out answer
    pub text : res.error ≡ failure_text spell cfg timed_out res.exit_code

  -- What the exit code of a report is: that of a timeout where the deadline passed, and else the
  -- number that `docker inspect` answered, where it answered one.
  abbrev pub TellsExit : Config → String → String → W → RunnerResult → Type 0
  TellsExit cfg c log_path w res =
      ((host.docker_wait cfg.max_job_duration c w).0 ≡ deadline_exceeded
        → (res.exit_code ≡ pos 124)
          × (res.error ≡ "runner exceeded max duration " <> spell cfg.max_job_duration))
      × ((host.docker_wait cfg.max_job_duration c w).0 ≢ deadline_exceeded
          → (out : String) (n : ℤ)
          → (host.docker ("inspect" ∷ "--format" ∷ "{{.State.ExitCode}}" ∷ c ∷ [])
              (save_logs host c log_path (wait_or_kill host cfg c w).1).1).0
            ≡ ok out
          → scan_int (trim_space out) ≡ some n
          → res.exit_code ≡ n)

  IsReport-TellsExit :
      (cfg : Config) (c log_path job_id : String) (w : W) (res : RunnerResult)
      → IsReport cfg c log_path job_id w res
      → TellsExit cfg c log_path w res
  unfolding wait_or_kill exit_code_of failure_text
  IsReport-TellsExit cfg c log_path job_id w res report = (
    λ late.
        let is_late : report.timed_out ≡ true = ground (arith, report.waited) in
        let code : res.exit_code ≡ pos 124 =
          report.code ∙ ap (λ b. exit_code_of b report.answer) is_late in
        (code, report.text ∙ ap (λ b. failure_text spell cfg b res.exit_code) is_late),
    λ early out n answered number.
        let v : W = (save_logs host c log_path (wait_or_kill host cfg c w).1).1 in
        let on_time : report.timed_out ≡ false =
          elim (Waited-cases (host.docker_wait cfg.max_job_duration c w).0) [
            | inl late ↦ absurd (early late)
            | inr not_late ↦ ground (arith, report.waited)
          ] in
        report.code
        ∙ ap (λ b. exit_code_of b report.answer) on_time
        ∙ ap (exit_code_of false) (report.asked ∙ ap (λ b. answer_of host b c v) on_time ∙ answered)
        ∙ ap or_zero number,
  )

  collect-IsReport :
      (cfg : Config) (c job_dir secrets_dir log_path job_id : String) (w : W)
      → (res : RunnerResult) × ((collect host spell cfg c job_dir secrets_dir log_path job_id w).0
          ≡ ok res)
        × IsReport cfg c log_path job_id w res
  unfolding collect read_trimmed tail_file clear_away
  collect-IsReport cfg c job_dir secrets_dir log_path job_id w =
      let (late, waited) = wait_or_kill-ok host cfg c w in
      let v : W = (save_logs host c log_path (wait_or_kill host cfg c w).1).1 in
      let saved = save_logs-ok host c log_path (wait_or_kill host cfg c w).1 in
      let answer : Result String = answer_of host late c v in
      let code = exit_code-ok host late c v in
      let u : W = (exit_code host late c v).1 in
      let pr = read_trimmed host (join_path job_dir ".pr-url") u in
      let hook = read_trimmed host (join_path job_dir ".notification-webhook") pr.1 in
      let log = tail_file host log_path log_tail_bytes hook.1 in
      let res : RunnerResult = record {
        job_id = job_id;
        exit_code = exit_code_of late answer;
        pr_url = (read_trimmed-ok host (join_path job_dir ".pr-url") u).0;
        error = failure_text spell cfg late (exit_code_of late answer);
        notification_webhook =
            (read_trimmed-ok host (join_path job_dir ".notification-webhook") pr.1).0;
        log_tail = (tail_file-ok host log_path log_tail_bytes hook.1).0;
      } in
      (
        res,
        ground arith,
        record {
          timed_out = late;
          waited = waited;
          about = refl;
          answer = answer;
          asked = refl;
          code = refl;
          text = refl;
        },
      )

  -- Every supervision with a callback is all that goes before the callback, and then one call of it,
  -- with a report on the job that it was started for, whose error is empty exactly where its exit
  -- code is zero.
  pub supervise_reports :
      (cfg : Config) (c job_dir secrets_dir log_path job_id : String)
      (on_complete : RunnerResult → Exec W (Unit {0})) (w : W)
      → (res : RunnerResult) × (w' : W) × (collect host spell cfg c job_dir secrets_dir log_path
            job_id w
          ≡ (ok res, w'))
        × (supervise host spell cfg c job_dir secrets_dir log_path job_id (some on_complete) w
            ≡ on_complete res w')
        × (res.job_id ≡ job_id)
        × (is_empty res.error ≡ is_zero res.exit_code)
        × TellsExit cfg c log_path w res
  unfolding supervise
  supervise_reports cfg c job_dir secrets_dir log_path job_id on_complete w =
      let (res, collected, report) = collect-IsReport cfg c job_dir secrets_dir log_path job_id w in
      (
        res,
        (collect host spell cfg c job_dir secrets_dir log_path job_id w).1,
        ground arith,
        ground arith,
        report.about,
        ap is_empty report.text
            ∙ rw report.code (failure_text-iff_exit_code spell cfg report.timed_out report.answer),
        IsReport-TellsExit cfg c log_path job_id w res report,
      )

  -- Where the wait ends before the deadline and the exit code cannot be asked for afterwards, the
  -- report has exit code zero, and the job is concluded as one that succeeded.
  pub lost_exit_succeeds :
      (cfg : Config) (c job_dir secrets_dir log_path job_id : String) (w : W) (e : Error)
      (job : Job) (now : ℕ)
      → (wait_or_kill host cfg c w).0 ≡ ok false
      → (host.docker
          ("inspect" ∷ "--format" ∷ "{{.State.ExitCode}}" ∷ c ∷ [])
          (save_logs host c log_path (wait_or_kill host cfg c w).1).1).0
        ≡ err e
      → (res : RunnerResult) × ((collect host spell cfg c job_dir secrets_dir log_path job_id w).0
          ≡ ok res)
        × (res.exit_code ≡ pos 0)
        × (conclude job res now ≡ mark_succeeded job res.pr_url now)
  unfolding conclude exit_code_of scan_int trim_space
  lost_exit_succeeds cfg c job_dir secrets_dir log_path job_id w e job now early lost =
      let (res, collected, report) = collect-IsReport cfg c job_dir secrets_dir log_path job_id w in
      let v : W = (save_logs host c log_path (wait_or_kill host cfg c w).1).1 in
      let on_time : report.timed_out ≡ false = ground (arith, report.waited) in
      let zero : res.exit_code ≡ pos 0 =
        report.code
        ∙ ap (λ b. exit_code_of b report.answer) on_time
        ∙ ap (exit_code_of false) (report.asked ∙ ap (λ b. answer_of host b c v) on_time ∙ lost) in
      (res, collected, zero, rw zero refl)
