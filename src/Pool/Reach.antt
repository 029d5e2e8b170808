-- ===== src/Pool/Reach.antt =====
-- client/pool.py: the states that a pool can reach once it is started. Processes end when they like;
-- the maintenance thread replaces them; a shutdown may come at any time.
use mathlib.Core.List.{append_assoc, append-nil}
use mathlib.Core.Option.{some-injective}
use mathlib.Core.Path.{subst}
use ccp.Prelude.{
  ℕ, zero, suc, ◌≡◌, refl, ◌∙◌, sym, ap, String, Bool, true, false, Option, some, List, [], ◌∷◌,
  ◌++◌, arith, map, get_elem?, length, count, any, all, is_some, min, if◌then◌else◌,
}
use ccp.Prelude.Dict.{Dict, keys}
use ccp.Prelude.Int.{ℤ}
use ccp.Metrics.{Metrics, worker_exit}
use ccp.Runner.Rows.{Distinct}
use ccp.Pool.{
  Process, WorkerPool, new_pool, start_worker, start_from, start, restart_from,
  restart_exited_workers, is_alive, get_script_workers_required, process, observe, stop,
}
use ccp.Pool.Scripts.{registers, required_of, length-init_scripts, count-init_scripts}

abbrev pub scripts_of : List Process → List (List String)
scripts_of = map (λ w. w.client_scripts)

get_elem?-length {ℓ} :
    {A : Type ℓ} (xs ys : List A) (y : A) → get_elem? (xs ++ (y ∷ ys)) (length xs) ≡ some y
get_elem?-length [] ys y = refl
get_elem?-length (x ∷ xs) ys y = get_elem?-length xs ys y

length-snoc {ℓ} : {A : Type ℓ} (xs : List A) (y : A) → length (xs ++ (y ∷ [])) ≡ suc (length xs)
length-snoc [] y = refl
length-snoc (x ∷ xs) y = ap suc (length-snoc xs y)

scripts_of-snoc :
    (ws : List Process) (w : Process)
    → scripts_of (ws ++ (w ∷ [])) ≡ scripts_of ws ++ (w.client_scripts ∷ [])
scripts_of-snoc [] w = refl
scripts_of-snoc (v ∷ ws) w = ap (λ r. v.client_scripts ∷ r) (scripts_of-snoc ws w)

started :
    (done rest : List (List String)) (s : List String) (pid : ℕ)
    → start_worker (done ++ (s ∷ rest)) pid (length done) ≡ some (process pid s)
unfolding start_worker
started done rest s pid = ground (arith, get_elem?-length done rest s)

module _ (pids : ℕ → ℕ) where
  -- The workers that stand run the scripts before the index: the rest are started.
  start_from-staffs :
      (done rest : List (List String)) (workers : List Process)
      → scripts_of workers ≡ done
      → (ws : List Process) × (start_from (done ++ rest) pids (length rest) (length done) workers
          ≡ some ws)
        × (scripts_of ws ≡ done ++ rest)
  unfolding start_from
  start_from-staffs done [] workers h = (workers, refl, h ∙ sym (append-nil done))
  start_from-staffs done (s ∷ rest) workers h =
      let w = process (pids (length done)) s in
      let (ws, run, same) =
        start_from-staffs (done ++ (s ∷ [])) rest (workers ++ (w ∷ []))
          (scripts_of-snoc workers w ∙ ap (λ d. d ++ (s ∷ [])) h) in
      (
        ws,
        ground (
          arith,
          started done rest s (pids (length done)),
          let r = rw (append_assoc, length-snoc) at run in r,
        ),
        same ∙ append_assoc done (s ∷ []) rest,
      )

  -- The workers stand at the indices from the end of `done` on.
  restart_from-staffs :
      (done : List (List String)) (ws : List Process) (m : Metrics)
      → (vs : List Process) × (m' : Metrics) × (restart_from
            (done ++ scripts_of ws)
            pids
            (length done)
            ws
            m
          ≡ some (vs, any (λ w. is_some w.exitcode) ws, m'))
        × (scripts_of vs ≡ scripts_of ws)
        × (all is_alive vs ≡ true)
  unfolding restart_from
  restart_from-staffs done [] m = ([], m, refl, refl, refl)
  restart_from-staffs done (w ∷ ws) m =
      let m1 = if is_some w.exitcode then worker_exit w.pid m else m in
      let (vs, m', run, same, alive) =
        restart_from-staffs (done ++ (w.client_scripts ∷ [])) ws m1 in
      let run' = rw (append_assoc, length-snoc) at run in
      let first = started done (scripts_of ws) w.client_scripts (pids (length done)) in
      let v = if is_some w.exitcode then process (pids (length done)) w.client_scripts else w in
      (v ∷ vs, m', ground (arith, first, run'), ground (arith, same), ground (arith, alive))

-- Every process of the pool runs the scripts of its index.
pub record IsStaffed (args : List (List String)) (p : WorkerPool) : Type 0 where
  pub planned : p.worker_init_args ≡ args
  pub staffed : scripts_of p.workers ≡ args

-- On a pool whose processes have the scripts of their indexes, a round of maintenance does not
-- fail, leaves every process alive with the scripts of its index, and tells whether one had ended.
pub restart_exited_workers-IsStaffed :
    (pids : ℕ → ℕ) (args : List (List String)) (p : WorkerPool)
    → IsStaffed args p
    → (q : WorkerPool) × (restart_exited_workers pids p
        ≡ some (q, any (λ w. is_some w.exitcode) p.workers))
      × IsStaffed args q
      × (all is_alive q.workers ≡ true)
      × (q.shutdown_event ≡ p.shutdown_event)
unfolding restart_exited_workers
restart_exited_workers-IsStaffed pids args p h =
    let (vs, m, run, same, alive) = restart_from-staffs pids [] p.workers p.metrics in
    (
      record p { workers = vs; metrics = m },
      ground (arith, h.planned, h.staffed, run),
      record { planned = h.planned; staffed = same ∙ h.staffed },
      alive,
      refl,
    )

-- Starting a new pool succeeds with a process for every index, which has the scripts of the index.
pub start-IsStaffed :
    (pids : ℕ → ℕ) (setting : ℕ) (modules : Dict (Option ℕ)) (m : Metrics)
    → (q : WorkerPool) × (start pids (new_pool setting modules m) ≡ some q)
      × IsStaffed (new_pool setting modules m).worker_init_args q
unfolding start new_pool
start-IsStaffed pids setting modules m =
    let p = new_pool setting modules m in
    let (ws, run, same) = start_from-staffs pids [] p.worker_init_args [] refl in
    let size = length-init_scripts p.pool_size (get_script_workers_required modules) in
    (
      record p { workers = ws },
      ground (arith, size, run),
      record { planned = refl; staffed = same },
    )

-- The process at an index ends; nothing happens if it has ended or if there is none.
abbrev pub end_at : ℕ → ℤ → List Process → List Process
end_at i code [] = []
end_at zero code (w ∷ ws) = (if is_alive w then record w { exitcode = some code } else w) ∷ ws
end_at (suc i) code (w ∷ ws) = w ∷ end_at i code ws

pub data Step (p q : WorkerPool) : Type 0 where
  ended : (i : ℕ) (code : ℤ) → q ≡ record p { workers = end_at i code p.workers } → Step p q
  maintained :
      (pids : ℕ → ℕ) (restarted : Bool)
      → p.shutdown_event ≡ false
      → restart_exited_workers pids p ≡ some (q, restarted)
      → Step p q
  stopped : (joined terminated : ℕ → Option ℤ) → q ≡ (stop joined terminated p).0 → Step p q

pub data Reach (p : WorkerPool) : WorkerPool → Type 0 where
  here : Reach p p
  next : {q r : WorkerPool} → Reach p q → Step q r → Reach p r

scripts_of-end_at :
    (i : ℕ) (code : ℤ) (ws : List Process) → scripts_of (end_at i code ws) ≡ scripts_of ws
scripts_of-end_at i code [] = refl
scripts_of-end_at zero code (w ∷ ws) = ground arith
scripts_of-end_at (suc i) code (w ∷ ws) =
    ap (λ r. w.client_scripts ∷ r) (scripts_of-end_at i code ws)

scripts_of-observe :
    (exits : ℕ → Option ℤ) (ws : List Process) → scripts_of (map (observe exits) ws) ≡ scripts_of ws
scripts_of-observe exits [] = refl
scripts_of-observe exits (w ∷ ws) = ground (arith, scripts_of-observe exits ws)

module _ (args : List (List String)) where
  Step-IsStaffed : (p q : WorkerPool) → Step p q → IsStaffed args p → IsStaffed args q
  Step-IsStaffed p q (ended i code e) h =
      rw e
        (record { planned = h.planned; staffed = scripts_of-end_at i code p.workers ∙ h.staffed })
  Step-IsStaffed p q (maintained pids restarted on e) h =
      let (q', run, h', _, _) = restart_exited_workers-IsStaffed pids args p h in
      subst (IsStaffed args) (some_first (sym run ∙ e)) h'
    where
      some_first :
          {b c : Bool} {r s : WorkerPool}
          → ◌≡◌ {A = Option (WorkerPool × Bool)} (some (r, b)) (some (s, c))
          → r ≡ s
      some_first e = cc
  Step-IsStaffed p q (stopped joined terminated e) h = rw e (
      unfold stop in
      record {
        planned = h.planned;
        staffed =
            scripts_of-observe terminated (map (observe joined) p.workers)
            ∙ scripts_of-observe joined p.workers
            ∙ h.staffed;
      })

  Reach-IsStaffed : {p q : WorkerPool} → IsStaffed args p → Reach p q → IsStaffed args q
  Reach-IsStaffed h here = h
  Reach-IsStaffed h (next r s) = Step-IsStaffed _ _ s (Reach-IsStaffed h r)

keys-get_script_workers_required :
    (modules : Dict (Option ℕ)) → keys (get_script_workers_required modules) ≡ keys modules
unfolding get_script_workers_required
keys-get_script_workers_required [] = refl
keys-get_script_workers_required ((s, a) ∷ modules) =
    ap (λ r. s ∷ r) (keys-get_script_workers_required modules)

-- In every state that a started pool reaches by crashes, rounds of maintenance and a stop, the
-- processes that register a script are the smaller of the pool's size and the script's
-- concurrency, if no script is named twice.
pub Reach-concurrency :
    (pids : ℕ → ℕ) (setting : ℕ) (modules : Dict (Option ℕ)) (m : Metrics) (p q : WorkerPool)
    (s : String)
    → Distinct (keys modules)
    → start pids (new_pool setting modules m) ≡ some p
    → Reach p q
    → count (registers s) (scripts_of q.workers)
      ≡ min
          (new_pool setting modules m).pool_size
          (required_of s (get_script_workers_required modules))
unfolding new_pool
Reach-concurrency pids setting modules m p q s d run reach =
    let (p', run', staffed) = start-IsStaffed pids setting modules m in
    let here = subst (IsStaffed _) (some-injective p' p (sym run' ∙ run)) staffed in
    ap (count (registers s)) (Reach-IsStaffed _ here reach).staffed
    ∙ count-init_scripts _ s (get_script_workers_required modules)
        (rw keys-get_script_workers_required d)
