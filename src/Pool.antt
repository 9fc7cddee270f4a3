-- ===== src/Pool.antt =====
-- thread_pool.hpp: class ThreadPool as a machine whose actions are the steps of its threads between
-- two looks at the shared state. `Running_` is read and written as if it were atomic, and a wait ends by
-- a notification only.
pub mod Steps
pub mod Order
pub mod Stop
pub mod Wake
pub mod Busy
use vwnet_lib.Base.{
  ℕ, zero, suc, ◌+◌, ◌-◌, Bool, true, false, not, ◌&&◌, List, [], ◌∷◌, ◌++◌, Option, none, some,
  get_elem?, set, replicate, ltb, if◌then◌else◌,
}

module _ (Task : Type 0) where
  -- Where a thread stands in Work: before the test of `Running_`; before the lock, or woken inside
  -- `wait`; inside `wait` with the lock, the predicate found false; blocked in `wait`; at `task()`;
  -- returned.
  pub data Worker : Type 0 where
    looping locking checked waiting finished : Worker
    executing : Task → Worker

  -- `started` and `committed` are all tasks so far; `notify_owed` counts the calls of Commit that have
  -- still to `notify_one`, and `stop_owed` says that Stop has still to `notify_all`.
  pub record Pool : Type 0 where
    pub running : Bool
    pub tasks : List Task
    pub workers : List Worker
    pub started : List Task
    pub committed : List Task
    pub notify_owed : ℕ
    pub stop_owed : Bool

  pub data Action : Type 0 where
    commit : Task → Action
    work notify_one : ℕ → Action
    notify_nobody clear_running notify_all : Action

module _ {Task : Type 0} where
  abbrev pub is_checked : Worker Task → Bool
  is_checked checked = true
  is_checked _ = false

  abbrev pub is_waiting : Worker Task → Bool
  is_waiting waiting = true
  is_waiting _ = false

  -- Nobody is between the predicate and the wait.
  abbrev pub mutex_free : List (Worker Task) → Bool
  mutex_free [] = true
  mutex_free (w ∷ workers) = not (is_checked w) && mutex_free workers

  abbrev pub none_waiting : List (Worker Task) → Bool
  none_waiting [] = true
  none_waiting (w ∷ workers) = not (is_waiting w) && none_waiting workers

  abbrev pub at : ℕ → Worker Task → Pool Task → Pool Task
  at i w p = record p { workers = set p.workers i w }

  -- Under the lock: the predicate of `wait`, and the task that is taken.
  unfoldable pub take_task : ℕ → List Task → Pool Task → Pool Task
  take_task i [] p = at i (if p.running then checked else looping) p
  take_task i (task ∷ rest) p = record (at i (executing task) p) {
    tasks = rest;
    started = p.started ++ (task ∷ []);
  }

  unfoldable pub work_as : Worker Task → ℕ → Pool Task → Option (Pool Task)
  work_as looping i p = some (at i (if p.running then locking else finished) p)
  work_as locking i p = if mutex_free p.workers then some (take_task i p.tasks p) else none
  work_as checked i p = some (at i waiting p)
  work_as waiting i p = none
  work_as finished i p = none
  work_as (executing task) i p = some (at i looping p)

  abbrev pub wake : Worker Task → Worker Task
  wake waiting = locking
  wake looping = looping
  wake locking = locking
  wake checked = checked
  wake finished = finished
  wake (executing task) = executing task

  abbrev pub wake_all : List (Worker Task) → List (Worker Task)
  wake_all [] = []
  wake_all (w ∷ workers) = wake w ∷ wake_all workers

  abbrev pub and_then : {A : Type 0} → Option A → (A → Option (Pool Task)) → Option (Pool Task)
  and_then none f = none
  and_then (some x) f = f x

  -- A worker that `notify_one` may wake.
  unfoldable pub wake_one : Worker Task → ℕ → Pool Task → Option (Pool Task)
  wake_one waiting i p = some (record (at i locking p) { notify_owed = p.notify_owed - 1 })
  wake_one _ i p = none

  abbrev pub with_worker :
      ℕ → (Worker Task → ℕ → Pool Task → Option (Pool Task)) → Pool Task → Option (Pool Task)
  with_worker i f p = and_then (get_elem? p.workers i) (λ w. f w i p)

  -- One action; `none` if it is not possible.
  unfoldable pub step : Action Task → Pool Task → Option (Pool Task)
  step (commit task) p =
      if mutex_free p.workers
      then some (record p {
        tasks = p.tasks ++ (task ∷ []);
        committed = p.committed ++ (task ∷ []);
        notify_owed = p.notify_owed + 1;
      })
      else none
  step (work i) p = with_worker i work_as p
  step (notify_one i) p = if ltb 0 p.notify_owed then with_worker i wake_one p else none
  step notify_nobody p =
      if ltb 0 p.notify_owed && none_waiting p.workers
      then some (record p { notify_owed = p.notify_owed - 1 })
      else none
  step clear_running p =
      if p.running then some (record p { running = false; stop_owed = true }) else none
  step notify_all p =
      if p.stop_owed
      then some (record p { workers = wake_all p.workers; stop_owed = false })
      else none

  unfoldable pub run : List (Action Task) → Pool Task → Option (Pool Task)
  run [] p = some p
  run (action ∷ rest) p = and_then (step action p) (run rest)

  -- The constructor and Start.
  unfoldable pub started_pool : ℕ → Pool Task
  started_pool thread_count = record {
    running = true;
    tasks = [];
    workers = replicate thread_count looping;
    started = [];
    committed = [];
    notify_owed = 0;
    stop_owed = false;
  }
