-- ===== src/Pool.antt =====
-- client/pool.py: which scripts each worker process registers, and how processes are started,
-- replaced and stopped. The operating system enters as the processes' identifiers and exit codes.
-- A concurrency and the setting `workers` are natural numbers: a negative one behaves as 0 in every
-- test and range of the source.
pub mod Scripts
pub mod Reach
use ccp.Prelude.{
  ℕ, zero, suc, ◌+◌, ◌-◌, String, Bool, true, false, Option, none, some, List, [], ◌∷◌, ◌++◌,
  get_elem?, length, ltb, min, max, is_some, not, map, select, if◌then◌else◌,
}
use ccp.Prelude.Dict.{Dict}
use ccp.Prelude.Int.{ℤ}
use ccp.Metrics.{Metrics, worker_exit}

-- `loader.get_module_concurrency`: what `int(module.concurrent_instances())` gives, or 1 after an
-- AttributeError, a TypeError or a ValueError.
abbrev pub get_module_concurrency : Option ℕ → ℕ
get_module_concurrency none = 1
get_module_concurrency (some n) = n

-- `_get_script_workers_required`, over the answers of the modules.
unfoldable pub get_script_workers_required : Dict (Option ℕ) → Dict ℕ
get_script_workers_required [] = []
get_script_workers_required ((script, answer) ∷ modules) =
    (script, get_module_concurrency answer) ∷ get_script_workers_required modules

-- `max(workers_required.values())`; the source raises for an empty dict, and never meets one.
abbrev pub max_required : Dict ℕ → ℕ
max_required [] = 0
max_required ((script, n) ∷ required) = max n (max_required required)

-- The inner loop of `_get_worker_init_args`: the scripts of one worker, and what remains.
unfoldable pub take_scripts : Dict ℕ → List String × Dict ℕ
take_scripts [] = ([], [])
take_scripts ((script, remaining) ∷ required) =
    let (scripts, rest) = take_scripts required in
    if ltb 0 remaining
    then (script ∷ scripts, (script, remaining - 1) ∷ rest)
    else (scripts, (script, remaining) ∷ rest)

-- The outer loop, for the workers that are left.
unfoldable pub init_scripts : ℕ → Dict ℕ → List (List String)
unfolding take_scripts
init_scripts zero required = []
init_scripts (suc n) required =
    let (scripts, rest) = take_scripts required in scripts ∷ init_scripts n rest

-- A process: its identifier, the scripts that it was started with, its exit code once it has ended,
-- and whether it is alive.
pub record Process : Type 0 where
  pub pid : ℕ
  pub client_scripts : List String
  pub exitcode : Option ℤ

pub record WorkerPool : Type 0 where
  pub pool_size : ℕ
  pub worker_init_args : List (List String)
  pub workers : List Process
  pub shutdown_event : Bool
  pub metrics : Metrics

-- `WorkerPool()`
unfoldable pub new_pool : ℕ → Dict (Option ℕ) → Metrics → WorkerPool
unfolding get_script_workers_required init_scripts
new_pool setting modules metrics =
    let required = get_script_workers_required modules in
    let size = min setting (max_required required) in
    record {
      pool_size = size;
      worker_init_args = init_scripts size required;
      workers = [];
      shutdown_event = false;
      metrics = metrics;
    }

abbrev pub process : ℕ → List String → Process
process pid scripts = record { pid = pid; client_scripts = scripts; exitcode = none }

-- `_start_worker(index)`, with the identifier that the new process gets; `none` is an IndexError.
unfoldable pub start_worker : List (List String) → ℕ → ℕ → Option Process
start_worker init_args pid index = elim (get_elem? init_args index) [
  | none ↦ none
  | some scripts ↦ some (process pid scripts)
]

-- The loop of `start` over `range(...)`, from an index on.
unfoldable pub start_from :
    List (List String) → (ℕ → ℕ) → ℕ → ℕ → List Process → Option (List Process)
start_from init_args pids zero index workers = some workers
start_from init_args pids (suc n) index workers = elim (start_worker init_args (pids index) index) [
  | none ↦ none
  | some worker ↦ start_from init_args pids n (suc index) (workers ++ (worker ∷ []))
]

-- `start`; `pids` gives the identifier of the process that is started at an index.
unfoldable pub start : (ℕ → ℕ) → WorkerPool → Option WorkerPool
unfolding start_from
start pids p =
    elim (start_from p.worker_init_args pids (p.pool_size - length p.workers) 0 p.workers) [
      | none ↦ none
      | some workers ↦ some (record p { workers = workers })
    ]

-- The loop of `_restart_exited_workers`, from an index on: the workers, whether one was restarted,
-- and the metrics.
unfoldable pub restart_from :
    List (List String)
    → (ℕ → ℕ)
    → ℕ
    → List Process
    → Metrics
    → Option (List Process × Bool × Metrics)
restart_from init_args pids index [] m = some ([], false, m)
restart_from init_args pids index (worker ∷ workers) m =
    let exited = is_some worker.exitcode in
    let m' = if exited then worker_exit worker.pid m else m in
    let worker' = if exited then start_worker init_args (pids index) index else some worker in
    let rest = restart_from init_args pids (suc index) workers m' in
    elim worker' [
      | none ↦ none
      | some first ↦ elim rest [
        | none ↦ none
        | some (others, restarted, m'') ↦
            some (first ∷ others, (if exited then true else restarted), m'')
      ]
    ]

unfoldable pub restart_exited_workers : (ℕ → ℕ) → WorkerPool → Option (WorkerPool × Bool)
unfolding restart_from
restart_exited_workers pids p = elim (restart_from p.worker_init_args pids 0 p.workers p.metrics) [
  | none ↦ none
  | some (workers, restarted, m) ↦ some (record p { workers = workers; metrics = m }, restarted)
]

-- `worker.is_alive()`
abbrev pub is_alive : Process → Bool
is_alive worker = not (is_some worker.exitcode)

-- What the operating system says of a process that was alive: `ended` gives its exit code, if any.
abbrev pub observe : (ℕ → Option ℤ) → Process → Process
observe ended worker = elim worker.exitcode [
  | none ↦ record worker { exitcode = ended worker.pid }
  | some code ↦ worker
]

-- The loop of `stop` over the processes that ended.
unfoldable pub mark_exits : List Process → Metrics → Metrics
mark_exits [] m = m
mark_exits (worker ∷ workers) m =
    mark_exits workers (if is_alive worker then m else worker_exit worker.pid m)

-- `stop`, after the maintenance thread has ended: `joined` is what `join(0.1)` sees, `terminated` what
-- is seen after the signals. The second part lists the processes that are sent a signal.
unfoldable pub stop : (ℕ → Option ℤ) → (ℕ → Option ℤ) → WorkerPool → WorkerPool × List ℕ
unfolding mark_exits
stop joined terminated p =
    let waited = map (observe joined) p.workers in
    let signalled = map (λ w. w.pid) (select is_alive waited) in
    let last = map (observe terminated) waited in
    (
      record p { workers = last; shutdown_event = true; metrics = mark_exits last p.metrics },
      signalled,
    )
