-- ===== src/Adapter/Docker/Startup/Sweep.antt =====
-- The sweep at the start spares the jobs that run.
use agentic_delegator.Prelude.{
  String, true, ◌≡◌, ◌≢◌, ap, sym, inl, inr, List, [], ◌∷◌, Bool-cases, eq_iff, arith,
}
use mathlib.Core.List.{Memᴰ}
use agentic_delegator.Go.Path.{join_path}
use agentic_delegator.Adapter.Docker.Startup.{
  Sweeper, is_kept, job_of, sweep_each, sweep_orphan_secrets,
}

is_kept-mem : (id : String) (ks : List String) → Memᴰ id ks → is_kept ks id ≡ true
unfolding is_kept
is_kept-mem id [] h = elim h [ ]
is_kept-mem id (k ∷ ks) (Memᴰ.head e) = ground (arith, eq_iff k id, sym e)
is_kept-mem id (k ∷ ks) (Memᴰ.tail h) = ground (arith, is_kept-mem id ks h)

module _ {W : Type 0} (m : Sweeper W) (id : String) (Holds : W → Type 0)
    (others : (dir : String) (w : W)
      → job_of dir ≢ id
      → Holds w
      → Holds (m.remove_all dir w).1) where
  sweep_each-spares :
      (running dirs : List String) (w : W)
      → Memᴰ id running
      → Holds w
      → Holds (sweep_each m running dirs w).1
  unfolding sweep_each
  sweep_each-spares running [] w runs h = h
  sweep_each-spares running (dir ∷ dirs) w runs h =
      elim (Bool-cases (is_kept running (job_of dir))) [
        | inl spared ↦ rw spared (sweep_each-spares running dirs w runs h)
        | inr swept ↦
            let other : job_of dir ≢ id = λ same.
              absurd (ground (arith, ap (is_kept running) same, is_kept-mem id running runs)) in
            rw swept
              (sweep_each-spares running dirs (m.remove_all dir w).1 runs (others dir w other h))
      ]

  -- Whatever holds of the machine and is not lost when a directory of another job is removed, such
  -- as that the secrets of a job are there, still holds after the sweep, if the job is one of those
  -- that run.
  pub sweep_orphan_secrets-spares :
      ((pattern : String) (w : W) → Holds w → Holds (m.glob pattern w).1)
      → (work_dir : String) (running : List String) (w : W) → Memᴰ id running
      → Holds w
      → Holds (sweep_orphan_secrets m work_dir running w).1
  unfolding sweep_orphan_secrets
  sweep_orphan_secrets-spares looks work_dir running w runs h =
      sweep_each-spares running (m.glob (join_path work_dir "*.secrets") w).0 _ runs (looks _ w h)
