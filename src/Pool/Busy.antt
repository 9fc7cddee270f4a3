-- ===== src/Pool/Busy.antt =====
-- Threads and tasks by their numbers.
use vwnet_lib.Base.{
  ℕ, zero, suc, ◌+◌, ◌≤◌, ◌≡◌, refl, ap, ap₂, ◌∙◌, Bool, true, false, ◌&&◌, List, [], ◌∷◌, length,
  length-append, some, arith, get_elem?, set, replicate, ltb, if◌then◌else◌,
}
use vwnet_lib.Pool.{
  Worker, looping, locking, checked, waiting, finished, executing, Pool, Action, commit, work,
  notify_one, notify_nobody, clear_running, notify_all, mutex_free, none_waiting, take_task,
  work_as, wake, wake_all, wake_one, step, run, started_pool,
}
use vwnet_lib.Pool.Steps.{After, guarded, and_then-After, run_keeps}
use vwnet_lib.Pool.Wake.{bit, tally, tally-set}

length-set : {A : Type 0} (xs : List A) (i : ℕ) (y : A) → length (set xs i y) ≡ length xs
length-set [] i y = refl
length-set (x ∷ xs) zero y = refl
length-set (x ∷ xs) (suc i) y = omega (arith, length-set xs i y)

module _ {Task : Type 0} where
  abbrev pub is_executing : Worker Task → Bool
  is_executing (executing task) = true
  is_executing _ = false

  -- No thread comes or goes, and each task committed is in the queue or in a thread at most once.
  pub record IsManned (thread_count : ℕ) (p : Pool Task) : Type 0 where
    pub threads : length p.workers ≡ thread_count
    pub at_work : tally is_executing p.workers + length p.tasks ≤ length p.committed

  module _ (thread_count : ℕ) (p : Pool Task) (h : IsManned thread_count p) (i : ℕ) where
    -- Worker `i` goes from `w` to `v` and takes no task.
    moved :
        (w v : Worker Task)
        → get_elem? p.workers i ≡ some w
        → bit (is_executing v) ≤ bit (is_executing w)
        → (length (set p.workers i v) ≡ thread_count)
          × (tally is_executing (set p.workers i v) + length p.tasks ≤ length p.committed)
    moved w v here less = (
      length-set p.workers i v ∙ h.threads,
      omega (arith, tally-set is_executing p.workers i w v here, h.at_work, less),
    )

    idle :
        (w v : Worker Task)
        → get_elem? p.workers i ≡ some w
        → bit (is_executing v) ≤ bit (is_executing w)
        → IsManned thread_count (record p { workers = set p.workers i v })
    idle w v here less = let m = moved w v here less in record { threads = m.0; at_work = m.1 }

    take_task-IsManned :
        (tasks : List Task)
        → p.tasks ≡ tasks
        → get_elem? p.workers i ≡ some locking
        → IsManned thread_count (take_task i tasks p)
    unfolding take_task
    take_task-IsManned [] e here =
        idle locking (if p.running then checked else looping) here (ground arith)
    take_task-IsManned (task ∷ rest) e here = record {
      threads = length-set p.workers i (executing task) ∙ h.threads;
      at_work = omega (
        arith,
        tally-set is_executing p.workers i locking (executing task) here,
        ap length e,
        h.at_work,
      );
    }

    work_as-IsManned :
        (w : Worker Task)
        → get_elem? p.workers i ≡ some w
        → After (IsManned thread_count) (work_as w i p)
    unfolding work_as
    work_as-IsManned looping here =
        idle looping (if p.running then locking else finished) here (ground arith)
    work_as-IsManned locking here =
        guarded (IsManned thread_count) (mutex_free p.workers) _
          (λ free. take_task-IsManned p.tasks refl here)
    work_as-IsManned checked here = idle checked waiting here (omega arith)
    work_as-IsManned waiting here = tt
    work_as-IsManned finished here = tt
    work_as-IsManned (executing task) here = idle (executing task) looping here (omega arith)

    wake_one-IsManned :
        (w : Worker Task)
        → get_elem? p.workers i ≡ some w
        → After (IsManned thread_count) (wake_one w i p)
    unfolding wake_one
    wake_one-IsManned looping here = tt
    wake_one-IsManned locking here = tt
    wake_one-IsManned checked here = tt
    wake_one-IsManned waiting here =
        let m = moved waiting locking here (omega arith) in record { threads = m.0; at_work = m.1 }
    wake_one-IsManned finished here = tt
    wake_one-IsManned (executing task) here = tt

  wake_all-executing :
      (workers : List (Worker Task))
      → (length (wake_all workers) ≡ length workers)
        × (tally is_executing (wake_all workers) ≡ tally is_executing workers)
  wake_all-executing [] = (refl, refl)
  wake_all-executing (w ∷ workers) =
      let rest = wake_all-executing workers in
      (omega (arith, rest.0), ap₂ (λ m n. m + n) (same w) rest.1)
    where
      same : (v : Worker Task) → bit (is_executing (wake v)) ≡ bit (is_executing v)
      same looping = refl
      same locking = refl
      same checked = refl
      same waiting = refl
      same finished = refl
      same (executing task) = refl

  pub step-IsManned :
      (thread_count : ℕ) (action : Action Task) (p : Pool Task)
      → IsManned thread_count p
      → After (IsManned thread_count) (step action p)
  unfolding step
  step-IsManned n (commit task) p h = guarded (IsManned n) (mutex_free p.workers) _ (λ free.
      record {
        threads = h.threads;
        at_work = omega (
          arith,
          h.at_work,
          length-append p.tasks (task ∷ []),
          length-append p.committed (task ∷ []),
        );
      })
  step-IsManned n (work i) p h =
      and_then-After (IsManned n) (get_elem? p.workers i) _ (λ w e. work_as-IsManned n p h i w e)
  step-IsManned n (notify_one i) p h = guarded (IsManned n) (ltb 0 p.notify_owed) _ (λ owed.
      and_then-After (IsManned n) (get_elem? p.workers i) _ (λ w e. wake_one-IsManned n p h i w e))
  step-IsManned n notify_nobody p h =
      guarded (IsManned n) (ltb 0 p.notify_owed && none_waiting p.workers) _
        (λ both. record { threads = h.threads; at_work = h.at_work })
  step-IsManned n clear_running p h =
      guarded (IsManned n) p.running _ (λ on. record { threads = h.threads; at_work = h.at_work })
  step-IsManned n notify_all p h = guarded (IsManned n) p.stop_owed _ (λ owed. record {
    threads = (wake_all-executing p.workers).0 ∙ h.threads;
    at_work = omega (arith, (wake_all-executing p.workers).1, h.at_work);
  })

  started_pool-IsManned : (thread_count : ℕ) → IsManned thread_count (started_pool thread_count)
  unfolding started_pool
  started_pool-IsManned n = record { threads = long n; at_work = nobody n }
    where
      long : (k : ℕ) → length {A = Worker Task} (replicate k looping) ≡ k
      long zero = refl
      long (suc k) = omega (arith, long k)

      nobody : (k : ℕ) → tally {A = Worker Task} is_executing (replicate k looping) + 0 ≤ 0
      nobody zero = omega arith
      nobody (suc k) = omega (arith, nobody k)

  -- From a pool that has just been started, however its threads and the callers of Commit and Stop
  -- interleave, if no more tasks have been committed than there are threads:
  -- there is a thread that does not execute a task for every task that waits.
  run_manned :
      (thread_count : ℕ) (actions : List (Action Task)) (p : Pool Task)
      → run actions (started_pool thread_count) ≡ some p
      → length p.committed ≤ thread_count
      → tally is_executing p.workers + length p.tasks ≤ length p.workers
  run_manned n actions p e few =
      let m : IsManned n p =
        run_keeps (IsManned n) (step-IsManned n) actions (started_pool n) p e
          (started_pool-IsManned n) in
      omega (arith, m.threads, m.at_work, few)
