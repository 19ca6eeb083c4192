-- ===== src/Adapter/Http/Router/Served.antt =====
-- What requests do to the jobs, one after another and beside other goroutines.
use agentic_delegator.Prelude.{List, [], ◌∷◌, ◌≡◌, subst}
use agentic_delegator.Exec.{State}
use agentic_delegator.Usecase.Concurrent.{start, here}
use agentic_delegator.Usecase.Concurrent.Sound.{AllConsistent}
use agentic_delegator.Usecase.Concurrent.Kept.{AllKept, Steps-AllConsistent-rows, Steps-AllKept}
use agentic_delegator.Usecase.Concurrent.Follows.{
  View, Follows, SharedJobs, table, start-Matches, Ends-trans,
}
use agentic_delegator.Adapter.Http.Router.{Deps, Route, Written, serve}
use agentic_delegator.Adapter.Http.Router.Isolation.{JobsBehind}
use agentic_delegator.Adapter.Http.Router.Follows.{PortsFollow, serve-Follows}

module _ {W C R M A : Type 0} (deps : Deps W C R M A) where
  unfoldable pub serve_all : List (Route M × R) → State W (List (Written A))
  serve_all [] w = ([], w)
  serve_all ((route, r) ∷ rest) w =
      let (written, w') = serve deps route r w in
      let (more, w'') = serve_all rest w' in (written ∷ more, w'')

module _ {W C R M A : Type 0} (deps : Deps W C R M A) (view : W → View)
    (behind : JobsBehind deps (table view))
    (enqueue_jobs : SharedJobs deps.jobs_handler.enqueue.jobs view)
    (cancel_jobs : SharedJobs deps.jobs_handler.cancel.jobs view)
    (ports : PortsFollow deps view) where
  pub serve_all-Follows : (rs : List (Route M × R)) → Follows view (serve_all deps rs)
  unfolding serve_all
  serve_all-Follows [] s w same = (s, here, same)
  serve_all-Follows ((route, r) ∷ rest) s w same =
      let one = serve-Follows deps view behind enqueue_jobs cancel_jobs ports route r s w same in
      Ends-trans one _ (serve_all-Follows rest one.0 (serve deps route r w).1 one.2)

  -- Given that the job handlers read and write one table that keeps the contract of the jobs port,
  -- that their writes leave the copies alone which other goroutines hold, and that within the calls
  -- of the other ports the table and those copies go on by steps of goroutines only (a submission,
  -- the loading of a copy, a method of the job on a copy, the writing of a copy, which may have been
  -- read before the call): whatever requests are served one after another from a table of consistent
  -- jobs while no goroutine holds a copy yet, in the end all jobs are consistent, and each job that
  -- was there is still there as the same task.
  pub served-keeps :
      (rs : List (Route M × R)) (w : W)
      → AllConsistent (view w).rows
      → (view w).flight ≡ []
      → AllConsistent (view (serve_all deps rs w).1).rows
        × AllKept (view w).rows (view (serve_all deps rs w).1).rows
  served-keeps rs w consistent nobody =
      let (t, r, ends) = serve_all-Follows rs (start (view w).rows) w (start-Matches nobody) in
      let keyed = enqueue_jobs.contract.keyed w in
      (
        subst AllConsistent ends.same_rows
            (Steps-AllConsistent-rows (view w).rows keyed consistent r),
        subst (AllKept (view w).rows) ends.same_rows
            (Steps-AllKept (view w).rows keyed consistent r),
      )
