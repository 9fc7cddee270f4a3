-- ===== src/Tests/Pool.antt =====
-- A pool of one thread, and one of two.
use vwnet_lib.Base.{
  ℕ, ◌+◌, ◌≤◌, ◌≡◌, ◌⊎◌, refl, arith, length, true, false, List, [], ◌∷◌, some, get_elem?,
}
use vwnet_lib.Pool.{
  locking, checked, waiting, executing, Pool, Action, commit, work, notify_one, clear_running,
  notify_all, step, run, started_pool, work_as, take_task, wake_one, looping, is_waiting,
}
use vwnet_lib.Pool.Wake.{tally, is_coming, run_awake}
use vwnet_lib.Pool.Busy.{is_executing}
use vwnet_lib.Client.Main.{client_pool, client_pool_serves}
use vwnet_lib.Pool.Order.{IsOrdered, run-IsOrdered}
use vwnet_lib.Pool.Stop.{missed, missed_stop}

-- The only thread is between the predicate and the wait.
abbrev about_to_wait : Pool ℕ
about_to_wait = record {
  running = true;
  tasks = [];
  workers = checked ∷ [];
  started = [];
  committed = [];
  notify_owed = 0;
  stop_owed = false;
}

reaches_wait : run (work 0 ∷ work 0 ∷ []) (started_pool 1) ≡ some about_to_wait
unfolding run step work_as take_task started_pool
reaches_wait = refl

missed_stop_example :
    (run (clear_running ∷ notify_all ∷ work 0 ∷ []) about_to_wait ≡ some (missed 0 about_to_wait))
    × (get_elem? (missed 0 about_to_wait).workers 0 ≡ some waiting)
unfolding run
missed_stop_example =
    missed_stop 0 about_to_wait (missed 0 about_to_wait) [] refl refl refl refl refl

-- Two threads; one waits, is woken, and takes the first of two tasks.
abbrev actions : List (Action ℕ)
actions = work 0 ∷ work 0 ∷ work 0 ∷ commit 7 ∷ commit 8 ∷ notify_one 0 ∷ work 1 ∷ work 0 ∷ []

abbrev one_started : Pool ℕ
one_started = record {
  running = true;
  tasks = 8 ∷ [];
  workers = executing 7 ∷ (locking ∷ []);
  started = 7 ∷ [];
  committed = 7 ∷ (8 ∷ []);
  notify_owed = 1;
  stop_owed = false;
}

run-IsOrdered_example : IsOrdered one_started
unfolding run step work_as take_task wake_one started_pool
run-IsOrdered_example = run-IsOrdered 2 actions one_started refl

-- The first of two threads sleeps, and Commit has still to notify it.
abbrev to_wake : Pool ℕ
to_wake = record {
  running = true;
  tasks = 7 ∷ [];
  workers = waiting ∷ (looping ∷ []);
  started = [];
  committed = 7 ∷ [];
  notify_owed = 1;
  stop_owed = false;
}

run_awake_example :
    (tally is_waiting to_wake.workers ≡ 0)
    ⊎ (length to_wake.tasks ≤ to_wake.notify_owed + tally is_coming to_wake.workers)
unfolding run step work_as take_task started_pool
run_awake_example = run_awake 2 (work 0 ∷ work 0 ∷ work 0 ∷ commit 7 ∷ []) to_wake refl refl

-- The client's main with two clients, one of which runs.
abbrev one_runs : Pool ℕ
one_runs = record {
  running = true;
  tasks = 8 ∷ [];
  workers = executing 7 ∷ (looping ∷ []);
  started = 7 ∷ [];
  committed = 7 ∷ (8 ∷ []);
  notify_owed = 0;
  stop_owed = false;
}

client_pool_serves_example :
    (tally is_executing one_runs.workers + length one_runs.tasks ≤ length one_runs.workers)
    × ((tally is_waiting one_runs.workers ≡ 0)
        ⊎ (length one_runs.tasks ≤ one_runs.notify_owed + tally is_coming one_runs.workers))
unfolding run step work_as take_task client_pool
client_pool_serves_example =
    client_pool_serves (7 ∷ 8 ∷ []) (omega arith) (work 0 ∷ work 0 ∷ []) one_runs refl refl refl
