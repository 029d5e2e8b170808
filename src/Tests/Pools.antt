-- ===== src/Tests/Pools.antt =====
-- client/pool.py on a pool of two processes.
use ccp.Prelude.{
  ℕ, ◌+◌, ◌≡◌, refl, String, true, Option, none, some, List, [], ◌∷◌, all, any, count, is_some, min,
}
use ccp.Prelude.Dict.{Dict}
use ccp.Prelude.Int.{pos}
use ccp.Pool.{
  get_script_workers_required, init_scripts, WorkerPool, new_pool, start, restart_exited_workers,
  is_alive, start_worker,
}
use ccp.Pool.Scripts.{required_of, registers}
use ccp.Pool.Reach.{
  IsStaffed, here, next, Step, end_at, scripts_of, restart_exited_workers-IsStaffed,
  start-IsStaffed, Reach-concurrency,
}
use ccp.Tests.Jobs.{metrics}

-- One script may run in parallel, the other has no `concurrent_instances`.
abbrev modules : Dict (Option ℕ)
modules = ("scan", some 4) ∷ ("move", none) ∷ []

abbrev required : Dict ℕ
required = ("scan", 4) ∷ ("move", 1) ∷ []

abbrev pids : ℕ → ℕ
pids i = 100 + i

abbrev empty_pool : WorkerPool
empty_pool = new_pool 2 modules metrics

abbrev started : Option WorkerPool
started = start pids empty_pool

abbrev pool : WorkerPool
pool = elim started [ none ↦ empty_pool | some p ↦ p ]

started-some : start pids (new_pool 2 modules metrics) ≡ some pool
unfolding start new_pool init_scripts get_script_workers_required start_worker
started-some = refl

abbrev crashed : WorkerPool
crashed = record pool { workers = end_at 1 (pos 9) pool.workers }

abbrev scripts : List (List String)
scripts = empty_pool.worker_init_args

crashed-IsStaffed : IsStaffed scripts crashed
unfolding start new_pool init_scripts get_script_workers_required start_worker
crashed-IsStaffed = record { planned = refl; staffed = refl }

start-IsStaffed_example :
    (q : WorkerPool) × (start pids (new_pool 2 modules metrics) ≡ some q)
    × IsStaffed (new_pool 2 modules metrics).worker_init_args q
start-IsStaffed_example = start-IsStaffed pids 2 modules metrics

restart_exited_workers-IsStaffed_example :
    (q : WorkerPool) × (restart_exited_workers pids crashed
      ≡ some (q, any (λ w. is_some w.exitcode) crashed.workers))
    × IsStaffed scripts q
    × (all is_alive q.workers ≡ true)
    × (q.shutdown_event ≡ crashed.shutdown_event)
restart_exited_workers-IsStaffed_example =
    restart_exited_workers-IsStaffed pids scripts crashed crashed-IsStaffed

Reach-concurrency_example :
    count (registers "scan") (scripts_of crashed.workers)
    ≡ min
        (new_pool 2 modules metrics).pool_size
        (required_of "scan" (get_script_workers_required modules))
Reach-concurrency_example =
    Reach-concurrency pids 2 modules metrics pool crashed "scan" (refl, (refl, tt)) started-some
      (next here (Step.ended 1 (pos 9) refl))
