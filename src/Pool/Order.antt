-- ===== src/Pool/Order.antt =====
-- Tasks are started in the order in which they are committed, each once.
use vwnet_lib.Base.{
  ℕ, ◌-◌, ◌≡◌, refl, sym, ap, ◌∙◌, inl, inr, true, false, ◌&&◌, List, [], ◌∷◌, ◌++◌, append_assoc,
  some, get_elem?, ltb, Bool-cases,
}
use vwnet_lib.Pool.Steps.{After, guarded, and_then-After, run_keeps}
use vwnet_lib.Pool.{
  Worker, looping, locking, checked, waiting, finished, executing, Pool, Action, commit, work,
  notify_one, notify_nobody, clear_running, notify_all, mutex_free, none_waiting, take_task,
  work_as, wake_one, step, run, started_pool, wake_all,
}

module _ {Task : Type 0} where
  -- The tasks started and those that wait are, in this order, those committed.
  abbrev pub IsOrdered : Pool Task → Type 0
  IsOrdered p = p.started ++ p.tasks ≡ p.committed

  take_task-IsOrdered :
      (i : ℕ) (tasks : List Task) (p : Pool Task)
      → p.tasks ≡ tasks
      → IsOrdered p
      → IsOrdered (take_task i tasks p)
  unfolding take_task
  take_task-IsOrdered i [] p e h = h
  take_task-IsOrdered i (task ∷ rest) p e h =
      append_assoc p.started (task ∷ []) rest ∙ ap (λ t. p.started ++ t) (sym e) ∙ h

  work_as-IsOrdered :
      (w : Worker Task) (i : ℕ) (p : Pool Task) → IsOrdered p → After IsOrdered (work_as w i p)
  unfolding work_as
  work_as-IsOrdered looping i p h = h
  work_as-IsOrdered locking i p h = elim (Bool-cases (mutex_free p.workers)) [
    | inl free ↦ rw free (take_task-IsOrdered i p.tasks p refl h)
    | inr held ↦ rw held tt
  ]
  work_as-IsOrdered checked i p h = h
  work_as-IsOrdered waiting i p h = tt
  work_as-IsOrdered finished i p h = tt
  work_as-IsOrdered (executing task) i p h = h

  wake_one-IsOrdered :
      (w : Worker Task) (i : ℕ) (p : Pool Task) → IsOrdered p → After IsOrdered (wake_one w i p)
  unfolding wake_one
  wake_one-IsOrdered waiting i p h = h
  wake_one-IsOrdered looping i p h = tt
  wake_one-IsOrdered locking i p h = tt
  wake_one-IsOrdered checked i p h = tt
  wake_one-IsOrdered finished i p h = tt
  wake_one-IsOrdered (executing task) i p h = tt

  step-IsOrdered :
      (action : Action Task) (p : Pool Task) → IsOrdered p → After IsOrdered (step action p)
  unfolding step
  step-IsOrdered (commit task) p h =
      guarded IsOrdered (mutex_free p.workers) _
        (λ free. sym (append_assoc p.started p.tasks (task ∷ [])) ∙ ap (λ t. t ++ (task ∷ [])) h)
  step-IsOrdered (work i) p h =
      and_then-After IsOrdered (get_elem? p.workers i) _ (λ w e. work_as-IsOrdered w i p h)
  step-IsOrdered (notify_one i) p h = guarded IsOrdered (ltb 0 p.notify_owed) _ (λ owed.
      and_then-After IsOrdered (get_elem? p.workers i) _ (λ w e. wake_one-IsOrdered w i p h))
  step-IsOrdered notify_nobody p h =
      guarded IsOrdered (ltb 0 p.notify_owed && none_waiting p.workers)
        (some (record p { notify_owed = p.notify_owed - 1 })) (λ both. h)
  step-IsOrdered clear_running p h =
      guarded IsOrdered p.running (some (record p { running = false; stop_owed = true })) (λ on. h)
  step-IsOrdered notify_all p h =
      guarded IsOrdered p.stop_owed
        (some (record p { workers = wake_all p.workers; stop_owed = false })) (λ owed. h)

  -- From a pool that has just been started, however its threads and the callers of Commit and Stop
  -- interleave, the tasks started so far followed by those that wait are the tasks committed so far, in
  -- the order of their commits: none is lost, doubled or overtaken.
  pub run-IsOrdered :
      (thread_count : ℕ) (actions : List (Action Task)) (p : Pool Task)
      → run actions (started_pool thread_count) ≡ some p
      → IsOrdered p
  unfolding started_pool
  run-IsOrdered thread_count actions p e =
      run_keeps IsOrdered step-IsOrdered actions (started_pool thread_count) p e refl
